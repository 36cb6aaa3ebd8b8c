-- ===== src/Bolt.antt =====
-- What the stores use of the key-value store (bbolt): buckets of keys and values, and of keys and
-- further buckets. A bucket is read by `Get`, `Bucket` and cursors, and changed by `Put`, `Delete`,
-- `CreateBucketIfNotExists` and `DeleteBucket`. Keys and values are those that the program encodes.
pub mod Lists
use lndmobile.Prelude.{
  ◌≡◌, ◌≢◌, ◌↔◌, Bool, true, false, ◌||◌, Option, none, some, List, [], ◌∷◌, if◌then◌else◌,
}
use lndmobile.Prelude.Assoc.{Eq}

abbrev pub contains : {K : Type 0} ⦃e : Eq K⦄ → K → List K → Bool
contains k [] = false
contains ⦃e⦄ k (j ∷ js) = e.beq j k || contains k js

pub record Bolt : Type 1 where
  pub Bucket : Type 0 → Type 0 → Type 0
  pub empty : {K V : Type 0} → Bucket K V
  pub get : {K V : Type 0} ⦃e : Eq K⦄ → K → Bucket K V → Option V
  pub put : {K V : Type 0} ⦃e : Eq K⦄ → K → V → Bucket K V → Bucket K V
  pub delete : {K V : Type 0} ⦃e : Eq K⦄ → K → Bucket K V → Bucket K V
  -- The keys in the order of a cursor.
  pub keys : {K V : Type 0} → Bucket K V → List K
  pub get-empty : {K V : Type 0} ⦃e : Eq K⦄ (k : K) → get k (empty {V = V}) ≡ none
  pub get-put :
      {K V : Type 0} ⦃e : Eq K⦄ (k j : K) (v : V) (b : Bucket K V)
      → get j (put k v b) ≡ (if e.beq k j then some v else get j b)
  pub get-delete :
      {K V : Type 0} ⦃e : Eq K⦄ (k j : K) (b : Bucket K V)
      → get j (delete k b) ≡ (if e.beq k j then none else get j b)
  pub contains-keys :
      {K V : Type 0} ⦃e : Eq K⦄ (k : K) (b : Bucket K V)
      → (contains k (keys b) ≡ true) ↔ (get k b ≢ none)
