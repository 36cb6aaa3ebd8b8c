-- ===== src/Nursery/Sweep/Signed.antt =====
-- What a sweep transaction of the nursery spends, and to what (`createSweepTx` and
-- `populateSweepTx` of lnd/utxonursery.go).
use lndmobile.Prelude.{ℕ, ◌≡◌, List, ◌++◌, map, All}
use mathlib.Core.List.{Perm}
use lndmobile.Prelude.Int.{ℤ}
use lndmobile.Wire.{Bytes}
use lndmobile.Nursery.Output.{KidOutput}
use lndmobile.Breach.Wallet.{Wallet, Txn}
use lndmobile.Breach.Justice.Signing.{strip_input, AllSigned}
use lndmobile.Nursery.Sweep.{
  csv, cltv, breached_outputs, csv_input, cltv_input, unsigned_sweep, Sorted, sort_outputs,
  sweep_amount, unsorted,
}
use lndmobile.Nursery.Sweep.Sorting.{HasLock}

module _ {World : Type 0} (wallet : Wallet World) where
  open wallet use {
    gen_sweep_script, estimate_fee_per_vsize, vsize, check_transaction_sanity, gen_witness,
  }

  abbrev pub sorted : List KidOutput → Sorted wallet
  sorted os = sort_outputs wallet os (unsorted wallet)

  -- The transaction of a class before it is signed.
  abbrev pub form : List KidOutput → ℕ → Bytes → ℤ → Txn
  form os h script rate =
      let s = sorted os in
      unsigned_sweep h script
        (sweep_amount wallet (vsize s.weight_estimate) s.csv_outputs s.cltv_outputs rate)
        s.csv_outputs s.cltv_outputs

  -- The transaction sweeps the outputs of a class.
  pub record Sweeps (os : List KidOutput) (h : ℕ) (unsigned txn : Txn) : Type 0 where
    pub csvs : List KidOutput
    pub cltvs : List KidOutput
    pub all_outputs : Perm (csvs ++ cltvs) os
    pub all_csv : All (HasLock wallet csv) csvs
    pub all_cltv : All (λ o. HasLock wallet cltv o × (txn.lock_time ≡ h)) cltvs
    pub signed : AllSigned wallet txn 0 (breached_outputs csvs ++ breached_outputs cltvs) txn.tx_in
    pub sequences : map strip_input txn.tx_in ≡ map csv_input csvs ++ map cltv_input cltvs
    pub pays : txn.tx_out ≡ unsigned.tx_out
