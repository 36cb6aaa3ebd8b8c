-- ===== src/Nursery/Store/Tests.antt =====
-- The store's theorems at concrete outputs, over buckets that are association lists.
use lndmobile.Prelude.{◌<◌, ◌≤◌, ◌≡◌, ◌≢◌, true, false, none, some, [], ◌∷◌, arith, refl, All, ◌⊎◌}
use lndmobile.Prelude.Int.{pos}
use lndmobile.Prelude.Assoc.{nat_eq, lookup, insert}
use lndmobile.Prelude.Exec.{ok}
use lndmobile.Wire.{OutPoint}
use lndmobile.Bolt.Lists.{list_bolt, keys_of}
use lndmobile.Nursery.Output.{KidOutput, BabyOutput}
use lndmobile.Nursery.Store.{crib, pscl, kndr, grad, key, kid, baby, Db}
use lndmobile.Nursery.Store.Buckets.{
  get_output, get_channel_bucket, create_channel_bucket, create_height_channel_bucket, put_output,
  put_height_key,
}
use lndmobile.Nursery.Store.Transitions.{
  class_height, get_last_graduated_height, for_each, enter_crib, enter_preschool, incubate,
  graduate_height, crib_to_kinder, preschool_to_kinder,
}
use lndmobile.Nursery.Store.Queries.{is_mature_channel}
use lndmobile.Nursery.Store.Views.{get_height_key}
use lndmobile.Nursery.Store.Moves.{
  maturity_height, class_height_bounds, preschool_to_kinder_effect, crib_to_kinder_effect,
}
use lndmobile.Nursery.Store.Registration.{
  with_kids, with_babies, index_of, HasIndex, incubate_registers,
}
use lndmobile.Nursery.Store.Incubation.{Succeeds, Keeps, KidEntered, BabyEntered, incubate_again}
use lndmobile.Nursery.Store.Reachable.{
  fresh, incubated, crib_moved, preschool_moved, height_graduated, reachable-Consistent,
  confirmed_at,
}
use lndmobile.Nursery.Store.Consistency.{Consistent}
use lndmobile.Nursery.Store.Maturity.{is_mature_channel_iff, AllGraduated}
use lndmobile.Nursery.Store.Graduation.{Ascending}

abbrev channel : OutPoint
channel = record { hash = 7 ∷ []; index = 0 }

abbrev commitment : KidOutput
commitment = record {
  breached = record {
    amt = pos 5000;
    out_point = record { hash = 8 ∷ []; index = 1 };
    witness_type = 0;
    sign_desc = [];
    second_level_witness_script = [];
  };
  origin_chan_point = channel;
  is_htlc = false;
  blocks_to_maturity = 144;
  absolute_maturity = 0;
  conf_height = 1000;
}

abbrev htlc : BabyOutput
htlc = record { expiry = 1200; timeout_tx = 1 ∷ 2 ∷ []; kid = record commitment { is_htlc = true } }

abbrev empty_db : Db list_bolt
empty_db = record {
  last_finalized_height = none;
  last_graduated_height = some 900;
  channel_index = none;
  height_index = none;
}

-- A store that holds an output in the preschool and one in the crib.
abbrev young_db : Db list_bolt
young_db = record empty_db {
  channel_index = some (
      (
        channel,
        (key pscl commitment.out_point, kid commitment)
            ∷ (key crib commitment.out_point, baby htlc)
            ∷ [],
      )
      ∷ []);
  height_index = some (
      (
        1200,
        record {
          finalized_kndr_txn = none;
          channels = (channel, (key crib commitment.out_point, tt) ∷ []) ∷ [];
        },
      )
      ∷ []);
}

-- A store that holds an output that has graduated.
abbrev grown_db : Db list_bolt
grown_db = record empty_db {
  channel_index = some ((channel, (key grad commitment.out_point, kid commitment) ∷ []) ∷ []);
}

class_height_example :
    (900 < class_height commitment 900)
    × (maturity_height commitment ≤ class_height commitment 900)
    × (900 < maturity_height commitment → class_height commitment 900 ≡ maturity_height commitment)
class_height_example = class_height_bounds commitment 900 (omega arith) (omega arith) (omega arith)

preschool_to_kinder_example :
    get_height_key list_bolt 1144 channel
      (key kndr commitment.out_point)
      (preschool_to_kinder list_bolt commitment young_db).1
    ≡ some tt
unfolding class_height get_last_graduated_height
preschool_to_kinder_example =
    (preschool_to_kinder_effect list_bolt commitment young_db).2 1144 channel
      (key kndr commitment.out_point)

crib_to_kinder_example :
    get_height_key list_bolt 1200 channel
      (key crib commitment.out_point)
      (crib_to_kinder list_bolt htlc young_db).1
    ≡ none
crib_to_kinder_example =
    (crib_to_kinder_effect list_bolt htlc young_db).2 1200 channel (key crib commitment.out_point)

incubate_example :
    Succeeds
      (λ t.
        (Keeps list_bolt young_db t
          × (All (λ o. KidEntered list_bolt o t) (commitment ∷ [])
              × All (λ b. BabyEntered list_bolt b t) (htlc ∷ [])))
        × HasIndex list_bolt
            (with_babies (htlc ∷ []) (with_kids (commitment ∷ []) (index_of list_bolt young_db)))
            t)
      (incubate list_bolt (commitment ∷ []) (htlc ∷ []) young_db)
incubate_example = incubate_registers list_bolt (commitment ∷ []) (htlc ∷ []) young_db

incubate_again_example :
    let t =
      (incubate list_bolt
        (commitment ∷ [])
        []
        (preschool_to_kinder list_bolt commitment young_db).1).1 in
    (get_output list_bolt channel (key pscl commitment.out_point) t ≡ some (kid commitment))
    × (get_output list_bolt channel (key kndr commitment.out_point) t ≡ some (kid commitment))
incubate_again_example = incubate_again list_bolt commitment young_db

-- The store after one output of each kind was incubated.
abbrev entered : Db list_bolt
entered = (incubate list_bolt (commitment ∷ []) (htlc ∷ []) empty_db).1

htlc_stored :
    get_output list_bolt channel (key crib commitment.out_point) entered ≡ some (baby htlc)
unfolding get_output incubate for_each enter_preschool enter_crib create_channel_bucket
    create_height_channel_bucket put_output put_height_key lookup insert
htlc_stored = refl

-- The store after the block of height 1000, at which the outputs move on.
reachable_example :
    Consistent list_bolt
      (graduate_height list_bolt 1000
        (preschool_to_kinder list_bolt commitment
          (crib_to_kinder list_bolt (confirmed_at list_bolt 1100 htlc) entered).1).1).1
reachable_example =
    reachable-Consistent list_bolt
      (graduate_height list_bolt 1000
        (preschool_to_kinder list_bolt commitment
          (crib_to_kinder list_bolt (confirmed_at list_bolt 1100 htlc) entered).1).1).1
      (height_graduated 1000 (
        preschool_moved commitment (
          crib_moved htlc 1100 htlc_stored
            (incubated (commitment ∷ []) (htlc ∷ []) (fresh none (some 900))))))

grown_channel : get_channel_bucket list_bolt channel grown_db ≢ none
unfolding get_channel_bucket lookup
grown_channel e = ground arith

is_mature_channel_example :
    (is_mature_channel list_bolt channel grown_db ≡ ok true
      × AllGraduated list_bolt channel grown_db)
    ⊎ (is_mature_channel list_bolt channel grown_db ≡ ok false
        × ¬ AllGraduated list_bolt channel grown_db)
is_mature_channel_example = (is_mature_channel_iff list_bolt channel grown_db).1 grown_channel

young_db-Ascending : Ascending (keys_of (elim young_db.height_index [ none ↦ [] | some i ↦ i ]))
unfolding keys_of
young_db-Ascending = (tt, tt)
