-- ===== src/Nursery/Resolution.antt =====
-- `makeKidOutput`, `makeBabyOutput`, and the outputs that `IncubateOutputs` builds from the
-- resolutions of a commitment transaction (lnd/utxonursery.go).
pub mod Value
use lndmobile.Prelude.{
  ℕ, ◌==◌, Bool, true, false, ◌||◌, Option, none, some, List, [], ◌∷◌, ◌++◌, if◌then◌else◌,
}
use lndmobile.Prelude.Int.{ℤ, pos, ltb_ℤ}
use lndmobile.Wire.{Bytes, MsgTx, OutPoint}
use lndmobile.Nursery.Output.{KidOutput, BabyOutput}
use lndmobile.Breach.Wallet.{
  Wallet, commitment_time_lock, htlc_offered_timeout_second_level,
  htlc_accepted_success_second_level, htlc_offered_remote_timeout,
}
use lndmobile.Breach.Justice.{make_breached_output}

-- The fields of lnwallet.CommitOutputResolution, IncomingHtlcResolution and OutgoingHtlcResolution
-- that are read; a sign descriptor is its serialisation.
pub record CommitOutputResolution : Type 0 where
  pub self_out_point : OutPoint
  pub self_output_sign_desc : Bytes
  pub maturity_delay : ℕ

pub record IncomingHtlcResolution : Type 0 where
  pub csv_delay : ℕ
  pub claim_outpoint : OutPoint
  pub sweep_sign_desc : Bytes

pub record OutgoingHtlcResolution : Type 0 where
  pub expiry : ℕ
  pub signed_timeout_tx : Option MsgTx
  pub csv_delay : ℕ
  pub claim_outpoint : OutPoint
  pub sweep_sign_desc : Bytes

module _ {World : Type 0} (wallet : Wallet World) where
  unfoldable pub make_kid_output : OutPoint → OutPoint → ℕ → ℕ → Bytes → ℕ → KidOutput
  unfolding make_breached_output
  make_kid_output outpoint origin_chan_point blocks_to_maturity witness_type sign_desc absolute =
      record {
        breached = make_breached_output wallet outpoint witness_type [] sign_desc;
        is_htlc =
            (witness_type == htlc_accepted_success_second_level)
            || (witness_type == htlc_offered_remote_timeout);
        origin_chan_point = origin_chan_point;
        blocks_to_maturity = blocks_to_maturity;
        absolute_maturity = absolute;
        conf_height = 0;
      }

  unfoldable pub make_baby_output : OutPoint → OutgoingHtlcResolution → MsgTx → BabyOutput
  unfolding make_kid_output
  make_baby_output chan_point r timeout_tx = record {
    expiry = r.expiry;
    timeout_tx = timeout_tx;
    kid =
        make_kid_output r.claim_outpoint chan_point r.csv_delay htlc_offered_timeout_second_level
          r.sweep_sign_desc 0;
  }

  -- `Amount() > 0`
  abbrev pub has_value : KidOutput → Bool
  has_value o = ltb_ℤ (pos 0) o.breached.amt

  abbrev pub self_output : OutPoint → CommitOutputResolution → KidOutput
  unfolding make_kid_output
  self_output cp r =
      make_kid_output r.self_out_point cp r.maturity_delay commitment_time_lock
        r.self_output_sign_desc 0

  unfoldable pub commit_outputs : OutPoint → Option CommitOutputResolution → List KidOutput
  commit_outputs cp none = []
  commit_outputs cp (some r) = if has_value (self_output cp r) then self_output cp r ∷ [] else []

  abbrev pub incoming_output : OutPoint → IncomingHtlcResolution → KidOutput
  unfolding make_kid_output
  incoming_output cp r =
      make_kid_output r.claim_outpoint cp r.csv_delay htlc_accepted_success_second_level
        r.sweep_sign_desc 0

  unfoldable pub incoming_outputs : OutPoint → List IncomingHtlcResolution → List KidOutput
  incoming_outputs cp [] = []
  incoming_outputs cp (r ∷ rs) =
      let rest = incoming_outputs cp rs in
      if has_value (incoming_output cp r) then incoming_output cp r ∷ rest else rest

  abbrev pub direct_output : OutPoint → OutgoingHtlcResolution → KidOutput
  unfolding make_kid_output
  direct_output cp r =
      make_kid_output r.claim_outpoint cp 0 htlc_offered_remote_timeout r.sweep_sign_desc r.expiry

  -- What the last loop appends to the kid outputs and to the baby outputs.
  abbrev pub add_outgoing :
      OutPoint
      → OutgoingHtlcResolution
      → Option MsgTx
      → List KidOutput × List BabyOutput
      → List KidOutput × List BabyOutput
  unfolding make_baby_output
  add_outgoing cp r none (kids, babies) = (direct_output cp r ∷ kids, babies)
  add_outgoing cp r (some tx) (kids, babies) =
      let baby = make_baby_output cp r tx in
      (kids, if has_value baby.kid then baby ∷ babies else babies)

  unfoldable pub outgoing_outputs :
      OutPoint → List OutgoingHtlcResolution → List KidOutput × List BabyOutput
  outgoing_outputs cp [] = ([], [])
  outgoing_outputs cp (r ∷ rs) = add_outgoing cp r r.signed_timeout_tx (outgoing_outputs cp rs)

  unfoldable pub build_outputs :
      OutPoint
      → Option CommitOutputResolution
      → List OutgoingHtlcResolution
      → List IncomingHtlcResolution
      → List KidOutput × List BabyOutput
  unfolding commit_outputs incoming_outputs outgoing_outputs
  build_outputs cp commit outgoing incoming =
      let (kids, babies) = outgoing_outputs cp outgoing in
      (commit_outputs cp commit ++ (incoming_outputs cp incoming ++ kids), babies)
