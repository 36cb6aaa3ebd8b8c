-- ===== src/Breach/Store/Views.antt =====
-- What `IsBreached`, `GetFinalizedTxn` and `ForAll` of `retributionStore` (lnd/breacharbiter.go) find.
use lndmobile.Prelude.{
  ℕ, ◌≡◌, subst, Bool-cases, Bool, true, false, Option, none, some, List, [], ◌∷◌, arith, refl, ap,
  sym, ◌∙◌, Option-cases, inl, inr, some_injective, none≢some,
}
use mathlib.Core.List.{append-nil, Memᴰ}
use mathlib.Core.List.Memᴰ
use mathlib.Core.Option
use lndmobile.Prelude.Exec.{Result, ok, err, panic, Exec, pure, ◌>>◌}
use lndmobile.Wire.{Bytes, OutPoint, hash_eq, bytes_eq_iff, bytes_eq}
use lndmobile.Bolt.{Bolt, contains}
use lndmobile.Codec.{WireCodec, write_outpoint}
use lndmobile.Breach.Info.{RetributionInfo}
use lndmobile.Breach.Codec.{encode_info, decode_info}
use lndmobile.Breach.Codec.RoundTrip.{Encodable, decode_info-encode_info}
use lndmobile.Breach.Store.{Error, Db, visit, visit_next, visit_decoded, for_each}
use lndmobile.Breach.Store.Laws.{Table}
use lndmobile.Breach.Store.Refinement.{HasPoint}

-- The calls of a function on each of some retributions, up to the first that fails.
abbrev pub each :
    {S : Type 0}
    → (RetributionInfo → Exec Error S (Unit {0}))
    → List RetributionInfo
    → Exec Error S (Unit {0})
each cb [] = pure tt
each cb (r ∷ rs) = cb r >> each cb rs

abbrev pub is_some : {A : Type 0} → Option A → Bool
is_some none = false
is_some (some _) = true

module _ (bolt : Bolt) (codec : WireCodec) where
  open bolt use {Bucket, get, keys, contains-keys}

  abbrev parsed : Result ℕ RetributionInfo → List RetributionInfo → List RetributionInfo
  parsed (ok r) rest = r ∷ rest
  parsed _ rest = rest

  abbrev entry : Option Bytes → List RetributionInfo → List RetributionInfo
  entry none rest = rest
  entry (some bs) rest = parsed (decode_info codec bs).0 rest

  abbrev pub entries : Bucket Bytes Bytes → List Bytes → List RetributionInfo
  entries b [] = []
  entries b (k ∷ ks) = entry (get k b) (entries b ks)

  abbrev pub stored : Db bolt → List RetributionInfo
  stored db = elim db.retribution_bucket [ none ↦ [] | some b ↦ entries b (keys b) ]

  parsed_keeps :
      (x : Result ℕ RetributionInfo) (r : RetributionInfo) (rest : List RetributionInfo)
      → Memᴰ r rest
      → Memᴰ r (parsed x rest)
  parsed_keeps (ok q) r rest m = Memᴰ.tail m
  parsed_keeps (err e) r rest m = m
  parsed_keeps panic r rest m = m

  entry_keeps :
      (x : Option Bytes) (r : RetributionInfo) (rest : List RetributionInfo)
      → Memᴰ r rest
      → Memᴰ r (entry x rest)
  entry_keeps none r rest m = m
  entry_keeps (some bs) r rest m = parsed_keeps (decode_info codec bs).0 r rest m

  decode_whole :
      (r : RetributionInfo) → Encodable codec r → (decode_info codec (encode_info codec r)).0 ≡ ok r
  decode_whole r e =
      ap (λ bs. (decode_info codec bs).0) (sym (append-nil (encode_info codec r)))
      ∙ ap (λ x. x.0) (decode_info-encode_info codec r [] e)

  module _ (b : Bucket Bytes Bytes) (f : OutPoint → Option RetributionInfo)
      (t : Table bolt codec (encode_info codec) (HasPoint bolt codec) (some b) f) where
    -- What is stored under a key.
    record Entry (k bs : Bytes) : Type 0 where
      info : RetributionInfo
      decoded : (decode_info codec bs).0 ≡ ok info
      point : f info.chan_point ≡ some info
      key : k ≡ write_outpoint codec info.chan_point

    stored_entry : (k bs : Bytes) → get k b ≡ some bs → Entry k bs
    stored_entry k bs e =
        let (o, i, p) = t.keys k bs e in
        let here : Option.map (encode_info codec) (f o) ≡ some bs =
          sym (t.agrees o i) ∙ ap (λ j. get j b) (sym p) ∙ e in
        elim (Option-cases (f o)) [
          | inl n ↦ absurd (none≢some (ap (Option.map (encode_info codec)) (sym n) ∙ here))
          | inr (r, s) ↦
              let (ok_r, same) = t.valid o r s in
              let bytes = some_injective (ap (Option.map (encode_info codec)) (sym s) ∙ here) in
              record {
                info = r;
                decoded = ap (λ x. (decode_info codec x).0) (sym bytes) ∙ decode_whole r ok_r;
                point = ap f same ∙ s;
                key = p ∙ ap (write_outpoint codec) (sym same);
              }
        ]

    entry_lem :
        (k bs : Bytes) (rest : List RetributionInfo) (g : get k b ≡ some bs)
        → entry (get k b) rest ≡ (stored_entry k bs g).info ∷ rest
    entry_lem k bs rest g =
        ap (λ x. entry x rest) g ∙ ap (λ x. parsed x rest) (stored_entry k bs g).decoded

    pub entries_sound :
        (ks : List Bytes) (r : RetributionInfo) → Memᴰ r (entries b ks) → f r.chan_point ≡ some r
    entries_sound [] r m = absurd (Memᴰ.not-nil m)
    entries_sound (k ∷ ks) r m = elim (Option-cases (get k b)) [
      | inl n ↦ entries_sound ks r (subst (Memᴰ r) (ap (λ x. entry x (entries b ks)) n) m)
      | inr (bs, g) ↦ elim (Memᴰ.cases_cons (subst (Memᴰ r) (entry_lem k bs (entries b ks) g) m)) [
        | inl same ↦
            ap (λ q. f q.chan_point) same ∙ (stored_entry k bs g).point ∙ ap some (sym same)
        | inr below ↦ entries_sound ks r below
      ]
    ]

    pub entries_complete :
        (ks : List Bytes) (r : RetributionInfo)
        → f r.chan_point ≡ some r
        → Encodable codec r
        → contains (write_outpoint codec r.chan_point) ks ≡ true
        → Memᴰ r (entries b ks)
    entries_complete [] r p e c = cc
    entries_complete (k ∷ ks) r p e c =
        let w = write_outpoint codec r.chan_point in
        elim (Bool-cases (bytes_eq k w)) [
          | inl same ↦
              (let g =
                  ap (λ j. get j b) ((bytes_eq_iff k w).0 same)
                  ∙ t.agrees r.chan_point e.point
                  ∙ ap (Option.map (encode_info codec)) p in
                let here =
                  ap (λ x. entry x (entries b ks)) g
                  ∙ ap (λ x. parsed x (entries b ks)) (decode_whole r e) in
                subst (Memᴰ r) (sym here) (Memᴰ.head refl))
          | inr other ↦
              entry_keeps (get k b) r (entries b ks)
                (entries_complete ks r p e (ground (arith, other, c)))
        ]

    pub for_each_lem :
        {S : Type 0} (cb : RetributionInfo → Exec Error S (Unit {0})) (ks : List Bytes)
        → for_each bolt codec cb b ks ≡ each cb (entries b ks)
    unfolding for_each visit
    for_each_lem cb [] = refl
    for_each_lem cb (k ∷ ks) =
        let rest = for_each bolt codec cb b ks in
        elim (Option-cases (get k b)) [
          | inl n ↦
              ap (λ x. visit_next bolt codec cb x rest) n
              ∙ for_each_lem cb ks
              ∙ ap (λ x. each cb (entry x (entries b ks))) (sym n)
          | inr (bs, g) ↦
              (let q = stored_entry k bs g in
                ap (λ x. visit_next bolt codec cb x rest) g
                ∙ ap (λ x. visit_decoded bolt codec cb x >> rest) q.decoded
                ∙ ap (λ m. cb q.info >> m) (for_each_lem cb ks)
                ∙ ap (λ l. each cb l) (sym (entry_lem k bs (entries b ks) g)))
        ]
