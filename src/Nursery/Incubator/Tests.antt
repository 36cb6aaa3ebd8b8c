-- ===== src/Nursery/Incubator/Tests.antt =====
-- The nursery at concrete outputs, over buckets that are association lists, and a chain and a wallet
-- that answer every call.
use lndmobile.Prelude.{ℕ, suc, ◌+◌, ◌≡◌, false, none, some, [], ◌∷◌, ◌++◌, arith, refl, ap}
use lndmobile.Prelude.Int.{pos}
use lndmobile.Prelude.Assoc.{nat_eq, lookup, insert}
use lndmobile.Prelude.Exec.{value, ok}
use lndmobile.Wire.{OutPoint}
use lndmobile.Bolt.Lists.{list_bolt, keys_of}
use lndmobile.Nursery.Output.{KidOutput}
use lndmobile.Nursery.Store.{pscl, kndr, key, kid, Db}
use lndmobile.Nursery.Store.Buckets.{
  get_channel_bucket, get_height_bucket, set_height_bucket, get_height_channel_bucket, get_output,
}
use lndmobile.Nursery.Store.Transitions.{
  preschool_to_kinder, with_state, finalize_kinder, graduate_height, get_last_finalized_height,
}
use lndmobile.Nursery.Store.Queries.{
  fetch_class, fetch_preschools, get_finalized_txn, collect_height_prefix, collect,
  collect_channel_prefix, preschools_of, heights_below_or_equal, take_below,
}
use lndmobile.Breach.Retribution.Samples.{wallet}
use lndmobile.Breach.Justice.{add_witnesses, add_witness, set_witness}
use lndmobile.Nursery.Resolution.{OutgoingHtlcResolution, build_outputs}
use lndmobile.Nursery.Resolution.Value.{value_of, kid_amounts, baby_amounts, build_outputs_value}
use lndmobile.Nursery.Sweep.{
  create_sweep_tx, populate_sweep_tx, fill_sweep, sort_outputs, input_class,
}
use lndmobile.Nursery.Incubator.{Chain, Nursery, update, each, publish}
use lndmobile.Nursery.Incubator.Classes.{
  graduate_class, graduate_fetched, reload_classes, process_missed, catch_up, finalize_class,
  new_sweep, sweep_if_any, sweep_mature_outputs, register_sweep_conf, sweep_crib_outputs,
}
use lndmobile.Nursery.Incubator.Confirmations.{preschool_confirmed, close_and_remove_if_mature}
use lndmobile.Nursery.Incubator.Requests.{register_outputs, reload_preschool}
use lndmobile.Nursery.Incubator.Accepted.{AllAccepted}
use lndmobile.Nursery.Incubator.Published.{Graduates, graduate_class-Graduates}
use lndmobile.Nursery.Incubator.Variables.{
  all_waiting, last_of, Owns, register_outputs_shares, reload_preschool-Owns,
}
use lndmobile.Nursery.Incubator.Heights.{reload_classes_synced}
use lndmobile.Nursery.Incubator.Closing.{Closing, close_and_remove_if_mature-Closing}

abbrev chain : Chain ℕ
chain = record {
  conf_depth = 6;
  get_best_block = λ n. (value 902, suc n);
  publish_transaction = λ tx n. (value tt, suc n);
  register_confirmations_ntfn = λ txid depth hint n. (value tt, suc n);
  register_block_epoch_ntfn = λ n. (value tt, suc n);
  fetch_closed_channels = λ n. (value [], suc n);
  fetch_closed_channel = λ o n. (value (some 800), suc n);
  serialize = λ txn. 1 ∷ [];
  map_keys = λ keys n. (keys, n);
}

abbrev channel : OutPoint
channel = record { hash = 7 ∷ []; index = 0 }

abbrev output : ℕ → ℕ → KidOutput
output index witness_type = record {
  breached = record {
    amt = pos 5000;
    out_point = record { hash = 8 ∷ []; index = index };
    witness_type = witness_type;
    sign_desc = [];
    second_level_witness_script = [];
  };
  origin_chan_point = channel;
  is_htlc = false;
  blocks_to_maturity = 144;
  absolute_maturity = 0;
  conf_height = 700;
}

-- A store with an output in the preschool, and one in the kindergarten that matures at 901.
abbrev db : Db list_bolt
db = record {
  last_finalized_height = some 900;
  last_graduated_height = some 900;
  channel_index = some (
      (
        channel,
        (key pscl (output 0 0).out_point, kid (output 0 0))
            ∷ (key kndr (output 1 6).out_point, kid (output 1 6))
            ∷ [],
      )
      ∷ []);
  height_index = some (
      (
        901,
        record {
          finalized_kndr_txn = none;
          channels = (channel, (key kndr (output 1 6).out_point, tt) ∷ []) ∷ [];
        },
      )
      ∷ []);
}

abbrev nursery : Nursery ℕ list_bolt
nursery = record {
  db = db;
  best_height = 900;
  baby_vars = [];
  kid_vars = [];
  next_var = 0;
  goroutines = [];
  published = [];
  world = 0;
}

class_fetched : fetch_class list_bolt 901 db ≡ ok (none, output 1 6 ∷ [], [])
unfolding fetch_class get_finalized_txn collect_height_prefix collect collect_channel_prefix
    get_height_channel_bucket get_channel_bucket get_output with_state get_height_bucket lookup
    keys_of
class_fetched = refl

preschools_fetched : fetch_preschools list_bolt db ≡ ok (output 0 0 ∷ [])
unfolding fetch_preschools preschools_of collect get_channel_bucket with_state lookup keys_of
preschools_fetched = refl

graduate_class_example :
    Graduates list_bolt wallet chain 901 [] nursery
      (graduate_class list_bolt wallet chain 901 nursery)
    × ((graduate_class list_bolt wallet chain 901 nursery).0 ≡ ok tt
        → AllAccepted list_bolt nursery
        → AllAccepted list_bolt (graduate_class list_bolt wallet chain 901 nursery).1)
graduate_class_example =
    graduate_class-Graduates list_bolt wallet chain 901 none (output 1 6 ∷ []) [] nursery
      class_fetched

register_outputs_example :
    (t : Nursery ℕ list_bolt) × (var : ℕ) × (register_outputs list_bolt wallet chain 900
        (output 0 0 ∷ output 2 6 ∷ [])
        nursery
      ≡ (ok tt, t))
    × (t.goroutines ≡ [] ++ all_waiting var (output 0 0 ∷ output 2 6 ∷ []))
    × (preschool_confirmed list_bolt chain var t
        ≡ update list_bolt (preschool_to_kinder list_bolt (output 2 6)) t)
unfolding last_of
register_outputs_example =
    register_outputs_shares list_bolt wallet chain (λ txid depth hint n. (suc n, refl)) 900
      (output 0 0) (output 2 6 ∷ []) nursery

reload_preschool_example :
    (t : Nursery ℕ list_bolt) × (reload_preschool list_bolt wallet chain nursery ≡ (ok tt, t))
    × Owns list_bolt wallet chain (output 0 0 ∷ []) nursery t
reload_preschool_example =
    reload_preschool-Owns list_bolt wallet chain (λ txid depth hint n. (suc n, refl))
      (output 0 0 ∷ []) nursery ((λ n. (800, suc n, refl)), tt) preschools_fetched

close_example :
    Closing list_bolt chain channel nursery
      (close_and_remove_if_mature list_bolt chain channel nursery)
close_example = close_and_remove_if_mature-Closing list_bolt chain channel nursery

abbrev outgoing : OutgoingHtlcResolution
outgoing = record {
  expiry = 1200;
  signed_timeout_tx = some (1 ∷ []);
  csv_delay = 144;
  claim_outpoint = channel;
  sweep_sign_desc = [];
}

build_outputs_example :
    let (kids, babies) =
      build_outputs wallet channel none
        (outgoing ∷ record outgoing { signed_timeout_tx = none } ∷ [])
        [] in
    value_of (kid_amounts kids) + value_of (baby_amounts babies) ≡ 18000
unfolding value_of
build_outputs_example =
    build_outputs_value wallet channel none
      (outgoing ∷ record outgoing { signed_timeout_tx = none } ∷ []) []

reloaded : (reload_classes list_bolt wallet chain 900 nursery).0 ≡ ok tt
unfolding reload_classes each process_missed catch_up graduate_class graduate_fetched fetch_class
    get_finalized_txn collect_height_prefix collect collect_channel_prefix get_height_channel_bucket
    get_channel_bucket get_output with_state get_height_bucket lookup keys_of heights_below_or_equal
    take_below finalize_class new_sweep finalize_kinder get_last_finalized_height sweep_if_any
    sweep_mature_outputs register_sweep_conf publish sweep_crib_outputs graduate_height
    create_sweep_tx populate_sweep_tx fill_sweep sort_outputs input_class add_witnesses add_witness
    set_witness set_height_bucket insert
reloaded = refl

reload_classes_example :
    (reload_classes list_bolt wallet chain 900 nursery).1.db.last_graduated_height ≡ some 902
reload_classes_example =
    (reload_classes_synced list_bolt wallet chain 900 902 nursery
      (reload_classes list_bolt wallet chain 900 nursery).1 (omega arith) (omega arith)
      (omega arith) (λ n. (suc n, refl))
      (ap (λ r. (r, (reload_classes list_bolt wallet chain 900 nursery).1)) reloaded)).4
