-- ===== src/Nursery/Incubator/Requests.antt =====
-- `IncubateOutputs`, `registerPreschoolConf`, `reloadPreschool`, and `Start` without its guard that it
-- runs once (lnd/utxonursery.go).
use lndmobile.Prelude.{ℕ, ◌+◌, ◌-◌, ◌%◌, ◌^◌, leb, Option, none, some, List, [], ◌∷◌, if◌then◌else◌}
use lndmobile.Prelude.Exec.{pure, gets, ◌>>=◌, ◌>>◌}
use lndmobile.Wire.{OutPoint}
use lndmobile.Bolt.{Bolt}
use lndmobile.Nursery.Output.{KidOutput, BabyOutput}
use lndmobile.Nursery.Store.Transitions.{incubate, get_last_graduated_height}
use lndmobile.Nursery.Store.Queries.{fetch_preschools}
use lndmobile.Nursery.Resolution.{
  CommitOutputResolution, IncomingHtlcResolution, OutgoingHtlcResolution, build_outputs,
}
use lndmobile.Breach.Wallet.{Wallet}
use lndmobile.Nursery.Incubator.{
  Chain, preschool_conf, Act, update, query, request, each, new_baby_var, new_kid_var, kid_var,
  set_baby_var, set_kid_var, await,
}
use lndmobile.Nursery.Incubator.Classes.{sweep_crib_output, reload_classes}
use lndmobile.Nursery.Incubator.Confirmations.{close_and_remove_if_mature}

-- `uint32` subtraction.
abbrev pub sub32 : ℕ → ℕ → ℕ
sub32 a b = (a + (2 ^ 32 - b % 2 ^ 32)) % 2 ^ 32

module _ {World : Type 0} (bolt : Bolt) (wallet : Wallet World) (chain : Chain World) where
  open chain use {
    conf_depth, get_best_block, register_block_epoch_ntfn, fetch_closed_channels,
    fetch_closed_channel,
  }

  abbrev pub Do : Type 0
  Do = Act World bolt (Unit {0})

  abbrev pub await_preschool : ℕ → ℕ → KidOutput → Do
  await_preschool var height_hint o =
      await bolt chain o.out_point.hash height_hint (preschool_conf var)

  unfoldable pub register_preschool_conf : ℕ → ℕ → Do
  register_preschool_conf var height_hint = kid_var bolt var >>= await_preschool var height_hint

  abbrev pub sweep_if_expired : ℕ → ℕ → BabyOutput → Do
  unfolding sweep_crib_output
  sweep_if_expired best_height var b =
      if leb b.expiry best_height
      then sweep_crib_output bolt wallet chain best_height var
      else pure tt

  -- `for _, babyOutput := range babyOutputs`: the loop has one variable, which every iteration sets,
  -- and passes on its address.
  unfoldable pub sweep_expired : ℕ → ℕ → List BabyOutput → Do
  unfolding each
  sweep_expired best_height var =
      each bolt (λ b. set_baby_var bolt var b >> sweep_if_expired best_height var b)

  abbrev pub sweep_expired_outputs : ℕ → List BabyOutput → Do
  unfolding sweep_expired
  sweep_expired_outputs best_height [] = pure tt
  sweep_expired_outputs best_height (b ∷ bs) =
      new_baby_var bolt b >>= λ var. sweep_expired best_height var (b ∷ bs)

  -- `for _, kidOutput := range kidOutputs`, likewise.
  abbrev pub register_current : ℕ → ℕ → KidOutput → Do
  register_current height_hint var o =
      set_kid_var bolt var o >> register_preschool_conf var height_hint

  unfoldable pub register_each : ℕ → ℕ → List KidOutput → Do
  unfolding each register_preschool_conf
  register_each height_hint var = each bolt (register_current height_hint var)

  abbrev pub register_loop : ℕ → List KidOutput → ℕ → Do
  register_loop height_hint os var = register_each height_hint var os

  unfoldable pub register_outputs : ℕ → List KidOutput → Do
  unfolding register_each
  register_outputs height_hint [] = pure tt
  register_outputs height_hint (o ∷ os) = new_kid_var bolt o >>= register_loop height_hint (o ∷ os)

  unfoldable pub incubate_built : List KidOutput × List BabyOutput → Do
  unfolding incubate register_outputs sweep_expired
  incubate_built (kid_outputs, baby_outputs) = do
    update bolt (incubate bolt kid_outputs baby_outputs)
    best ← request bolt get_best_block
    sweep_expired_outputs best baby_outputs
    height_hint ← gets (λ s. s.best_height)
    register_outputs height_hint kid_outputs

  unfoldable pub incubate_outputs :
      OutPoint
      → Option CommitOutputResolution
      → List OutgoingHtlcResolution
      → List IncomingHtlcResolution
      → Do
  unfolding incubate_built build_outputs
  incubate_outputs chan_point commit outgoing incoming =
      incubate_built (build_outputs wallet chan_point commit outgoing incoming)

  abbrev pub register_reloaded : ℕ → ℕ → Do
  register_reloaded close_height var = register_preschool_conf var (sub32 close_height conf_depth)

  -- `kid := &psclOutputs[i]`, a variable of its own. Without a summary the output is passed over.
  abbrev pub reload_summarised : KidOutput → Option ℕ → Do
  unfolding register_preschool_conf
  reload_summarised o none = pure tt
  reload_summarised o (some close_height) = new_kid_var bolt o >>= register_reloaded close_height

  unfoldable pub reload_output : KidOutput → Do
  unfolding register_preschool_conf
  reload_output o = request bolt (fetch_closed_channel o.origin_chan_point) >>= reload_summarised o

  unfoldable pub reload_preschool : Do
  unfolding each reload_output fetch_preschools
  reload_preschool = query bolt (fetch_preschools bolt) >>= each bolt reload_output

  unfoldable pub start_nursery : Do
  unfolding each close_and_remove_if_mature reload_preschool reload_classes
  start_nursery = do
    request bolt register_block_epoch_ntfn
    pending_close_chans ← request bolt fetch_closed_channels
    each bolt (close_and_remove_if_mature bolt chain) pending_close_chans
    last_graduated_height ← gets (λ s. get_last_graduated_height bolt s.db)
    reload_preschool
    reload_classes bolt wallet chain last_graduated_height
