-- ===== src/Server/Peers/TieBreak.antt =====
-- Which of two connections is dropped (lnd/server.go).
use lndmobile.Prelude.{==_iff, ◌<◌, ◌≡◌, ◌≢◌, ◌⊎◌, not, true, [], ◌∷◌, arith, refl}
use lndmobile.Wire.{Bytes}
use lndmobile.Server.Peers.{greater, should_drop_local_connection}

-- One key comes before another in the lexicographic order.
abbrev pub IsBelow : Bytes → Bytes → Type 0
IsBelow _ [] = ⊥
IsBelow [] (_ ∷ _) = Unit
IsBelow (a ∷ xs) (b ∷ ys) = (a < b) ⊎ ((a ≡ b) × IsBelow xs ys)

drops_above :
    (local remote : Bytes) → should_drop_local_connection local remote ≡ true → IsBelow remote local
unfolding should_drop_local_connection greater
drops_above [] remote e = cc
drops_above (a ∷ xs) [] e = tt
drops_above (a ∷ xs) (b ∷ ys) e = ground (arith, ==_iff a b, drops_above xs ys)

above_drops :
    (local remote : Bytes) → IsBelow remote local → should_drop_local_connection local remote ≡ true
unfolding should_drop_local_connection greater
above_drops [] remote h = absurd h
above_drops (a ∷ xs) [] h = refl
above_drops (a ∷ xs) (b ∷ ys) h = ground (arith, ==_iff a b, above_drops xs ys)

opposite :
    (local remote : Bytes)
    → local ≢ remote
    → should_drop_local_connection local remote ≡ not (should_drop_local_connection remote local)
unfolding should_drop_local_connection greater
opposite [] [] n = absurd (n refl)
opposite [] (b ∷ bs) n = refl
opposite (a ∷ xs) [] n = refl
opposite (a ∷ xs) (b ∷ ys) n = ground (arith, ==_iff a b, ==_iff b a, opposite xs ys)

-- `shouldDropLocalConnection` answers yes exactly if the remote key comes before the local one in
-- the lexicographic order, and of two different keys just one gives the answer yes for its own node.
pub should_drop_one :
    (local remote : Bytes)
    → local ≢ remote
    → (should_drop_local_connection local remote ≡ true → IsBelow remote local)
      × (IsBelow remote local → should_drop_local_connection local remote ≡ true)
      × (should_drop_local_connection local remote
          ≡ not (should_drop_local_connection remote local))
should_drop_one local remote n =
    (drops_above local remote, above_drops local remote, opposite local remote n)
