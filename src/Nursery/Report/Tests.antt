-- ===== src/Nursery/Report/Tests.antt =====
-- A nursery report at concrete outputs.
use lndmobile.Prelude.{ℕ, ◌+◌, ◌≡◌, false, none, some, [], ◌∷◌, arith, refl, inl, inr}
use lndmobile.Prelude.Int.{pos}
use lndmobile.Prelude.Assoc.{lookup}
use lndmobile.Prelude.Exec.{ok}
use lndmobile.Wire.{OutPoint}
use lndmobile.Bolt.Lists.{list_bolt, keys_of}
use lndmobile.Nursery.Output.{KidOutput}
use lndmobile.Nursery.Store.{pscl, kndr, grad, key, kid, ChannelBucket, Db}
use lndmobile.Nursery.Store.Buckets.{get_channel_bucket}
use lndmobile.Nursery.Report.{ContractMaturityReport, nursery_report}
use lndmobile.Nursery.Report.Shares.{Balanced}
use lndmobile.Nursery.Report.Balances.{AllSound, sum_of, nursery_report_balances}

abbrev channel : OutPoint
channel = record { hash = 7 ∷ []; index = 0 }

abbrev output : ℕ → ℕ → KidOutput
output index witness_type = record {
  breached = record {
    amt = pos 5000;
    out_point = record { hash = 8 ∷ []; index = index };
    witness_type = witness_type;
    sign_desc = [];
    second_level_witness_script = [];
  };
  origin_chan_point = channel;
  is_htlc = false;
  blocks_to_maturity = 144;
  absolute_maturity = 0;
  conf_height = 1000;
}

-- An output that has graduated, one in the kindergarten, and one in the preschool that is left out.
abbrev bucket : ChannelBucket list_bolt
bucket =
    (key grad (output 0 0).out_point, kid (output 0 0))
    ∷ (key kndr (output 1 6).out_point, kid (output 1 6))
    ∷ (key pscl (output 2 7).out_point, kid (output 2 7))
    ∷ []

abbrev db : Db list_bolt
db = record {
  last_finalized_height = none;
  last_graduated_height = some 900;
  channel_index = some ((channel, bucket) ∷ []);
  height_index = none;
}

bucket-AllSound : AllSound list_bolt bucket (keys_of bucket)
unfolding AllSound keys_of lookup
bucket-AllSound = (
  ((5000, refl), inl refl),
  (((5000, refl), inr (inl refl)), (((5000, refl), inr (inr (inr refl))), tt)),
)

bucket_found : get_channel_bucket list_bolt channel db ≡ some bucket
unfolding get_channel_bucket lookup
bucket_found = refl

nursery_report_example :
    (c : ContractMaturityReport) × (l : ℕ) × (r : ℕ) × (nursery_report list_bolt channel db ≡ ok c)
    × Balanced l r c
    × (r ≡ 5000)
    × (l + r + 5000 ≡ 15000)
unfolding sum_of keys_of lookup
nursery_report_example =
    nursery_report_balances list_bolt channel db bucket bucket_found bucket-AllSound (omega arith)
