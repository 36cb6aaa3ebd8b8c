-- ===== src/Breach/Store/Laws.antt =====
-- The buckets of `retributionStore` (lnd/breacharbiter.go) seen through channel points.
use lndmobile.Prelude.{
  ◌≡◌, Option, none, some, inl, inr, if◌then◌else◌, arith, refl, ap, sym, ◌∙◌, Bool-cases,
}
use mathlib.Core.Option
use lndmobile.Wire.{
  Bytes, OutPoint, hash_eq, bytes_eq, bytes_eq_iff, out_point_eqb, out_point_eqb_iff,
}
use lndmobile.Bolt.{Bolt}
use lndmobile.Codec.{WireCodec, write_outpoint}
use lndmobile.Codec.Laws.{IsPoint, write_outpoint_injective}
use lndmobile.Breach.Store.{create_bucket, get_in, delete_in}
use lndmobile.Breach.Store.Reference.{update}

module _ (codec : WireCodec) where
  -- Two keys are equal exactly if the channel points are.
  pub bytes_eq-write_outpoint :
      (o p : OutPoint)
      → IsPoint codec o
      → IsPoint codec p
      → bytes_eq (write_outpoint codec o) (write_outpoint codec p) ≡ out_point_eqb o p
  bytes_eq-write_outpoint o p a b =
      let w = write_outpoint codec in
      elim (Bool-cases (out_point_eqb o p)) [
        | inl same ↦ (bytes_eq_iff (w o) (w p)).1 (ap w ((out_point_eqb_iff o p).0 same)) ∙ sym same
        | inr other ↦ elim (Bool-cases (bytes_eq (w o) (w p))) [
          | inl e ↦
              e
              ∙ sym (
                  (out_point_eqb_iff o p).1
                    (write_outpoint_injective codec o p a b ((bytes_eq_iff (w o) (w p)).0 e)))
          | inr n ↦ n ∙ sym other
        ]
      ]

module _ (bolt : Bolt) (codec : WireCodec) where
  open bolt use {Bucket, get, put, delete, get-empty, get-put, get-delete}

  pub get-create_bucket :
      (k : Bytes) (b : Option (Bucket Bytes Bytes))
      → get k (create_bucket bolt b) ≡ get_in bolt codec k b
  get-create_bucket k none = get-empty k
  get-create_bucket k (some b) = refl

  pub get_in-put :
      (k j v : Bytes) (b : Option (Bucket Bytes Bytes))
      → get_in bolt codec j (some (put k v (create_bucket bolt b)))
        ≡ (if bytes_eq k j then some v else get_in bolt codec j b)
  get_in-put k j v b =
      get-put k j v (create_bucket bolt b)
      ∙ ap (λ x. if bytes_eq k j then some v else x) (get-create_bucket j b)

  pub get_in-delete :
      (k j : Bytes) (b : Option (Bucket Bytes Bytes))
      → get_in bolt codec j (delete_in bolt codec k b)
        ≡ (if bytes_eq k j then none else get_in bolt codec j b)
  get_in-delete k j none = ground arith
  get_in-delete k j (some b) = get-delete k j b

  module _ {A : Type 0} (encode : A → Bytes) (Valid : OutPoint → A → Type 0) where
    -- A bucket holds the values of a function of channel points, and nothing else.
    pub record Table (b : Option (Bucket Bytes Bytes)) (f : OutPoint → Option A) : Type 0 where
      pub agrees :
          (o : OutPoint)
          → IsPoint codec o
          → get_in bolt codec (write_outpoint codec o) b ≡ Option.map encode (f o)
      pub valid : (o : OutPoint) (a : A) → f o ≡ some a → Valid o a
      pub keys :
          (k bs : Bytes)
          → get_in bolt codec k b ≡ some bs
          → (o : OutPoint) × IsPoint codec o × (k ≡ write_outpoint codec o)

    module _ (b : Option (Bucket Bytes Bytes)) (f : OutPoint → Option A) (t : Table b f) where
      pub put-Table :
          (o : OutPoint) (a : A)
          → IsPoint codec o
          → Valid o a
          → Table
              (some (put (write_outpoint codec o) (encode a) (create_bucket bolt b)))
              (update o (some a) f)
      put-Table o a i v =
          let w = write_outpoint codec in
          record {
            agrees = λ p j.
                get_in-put (w o) (w p) (encode a) b
                ∙ (let e = bytes_eq-write_outpoint codec o p i j in
                    ground (arith, e, t.agrees p j));
            valid = λ p x e. ground (arith, out_point_eqb_iff o p, t.valid p x);
            keys = λ k bs e. elim (Bool-cases (bytes_eq (w o) k)) [
              | inl same ↦ (o, i, sym ((bytes_eq_iff (w o) k).0 same))
              | inr other ↦
                  (let g = get_in-put (w o) k (encode a) b in
                    t.keys k bs (ground (arith, g, other, e)))
            ];
          }

      pub delete-Table :
          (o : OutPoint)
          → IsPoint codec o
          → Table (delete_in bolt codec (write_outpoint codec o) b) (update o none f)
      delete-Table o i =
          let w = write_outpoint codec in
          record {
            agrees = λ p j.
                get_in-delete (w o) (w p) b
                ∙ (let e = bytes_eq-write_outpoint codec o p i j in
                    ground (arith, e, t.agrees p j));
            valid = λ p x e. ground (arith, t.valid p x);
            keys =
                λ k bs e. (let g = get_in-delete (w o) k b in t.keys k bs (ground (arith, g, e)));
          }
