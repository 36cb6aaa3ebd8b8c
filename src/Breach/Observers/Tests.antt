-- ===== src/Breach/Observers/Tests.antt =====
-- Some steps of the goroutines that watch channels (lnd/breacharbiter.go).
use lndmobile.Prelude.{◌≡◌, false, none, some, [], ◌∷◌, refl}
use lndmobile.Wire.{OutPoint}
use lndmobile.Prelude.Assoc.{lookup}
use lndmobile.Bolt.Lists.{list_bolt}
use lndmobile.Codec.Plain.{plain}
use lndmobile.Breach.Wallet.{BreachRetribution}
use lndmobile.Breach.Store.{new_db}
use lndmobile.Breach.Retribution.Samples.{wallet}
use lndmobile.Breach.Observers.{panicked, idle, on_new_contract, watch, replaced}

abbrev channel : OutPoint
channel = record { hash = []; index = 3 }

abbrev other : OutPoint
other = record { hash = []; index = 4 }

abbrev evidence : BreachRetribution
evidence = record {
  breach_transaction = 5 ∷ [];
  breach_height = 500000;
  chain_hash = [];
  local_output_sign_desc = none;
  local_outpoint = channel;
  remote_output_sign_desc = some [];
  remote_outpoint = channel;
  htlc_retributions = [];
}

-- Without the events of its channel an observer panics.
no_subscription :
    on_new_contract list_bolt plain wallet channel false
      (idle list_bolt plain wallet (new_db list_bolt))
    ≡ panicked
unfolding on_new_contract watch replaced lookup
no_subscription = refl
