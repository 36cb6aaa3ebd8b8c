-- ===== src/Bolt/Lists.antt =====
-- Association lists as buckets.
use lndmobile.Prelude.{◌≡◌, ◌≢◌, ◌↔◌, true, none, List, [], ◌∷◌, arith, refl}
use lndmobile.Prelude.Assoc.{Eq, lookup, insert, delete, lookup-insert, lookup-delete}
use lndmobile.Bolt.{Bolt, contains}

unfoldable pub keys_of : {K V : Type 0} → List (K × V) → List K
keys_of [] = []
keys_of ((k, v) ∷ b) = k ∷ keys_of b

pub lookup-nil : {K V : Type 0} ⦃e : Eq K⦄ (k : K) → lookup {V = V} k [] ≡ none
unfolding lookup
lookup-nil k = refl

pub contains-keys_of :
    {K V : Type 0} ⦃e : Eq K⦄ (k : K) (b : List (K × V))
    → (contains k (keys_of b) ≡ true) ↔ (lookup k b ≢ none)
unfolding lookup keys_of
contains-keys_of k [] = ground arith
contains-keys_of k ((j, v) ∷ b) = ground (arith, contains-keys_of k b)

abbrev pub list_bolt : Bolt
list_bolt = record {
  Bucket = λ K V. List (K × V);
  empty = [];
  get = lookup;
  put = insert;
  delete = delete;
  keys = keys_of;
  get-empty = lookup-nil;
  get-put = λ k j v b. lookup-insert k j v b;
  get-delete = λ k j b. lookup-delete k j b;
  contains-keys = λ k b. contains-keys_of k b;
}
