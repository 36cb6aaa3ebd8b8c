-- ===== src/Codec/Laws.antt =====
-- Reading what was written (lnd/utxonursery.go and the integers of encoding/binary).
use lndmobile.Prelude.{
  ℕ, zero, suc, ◌+◌, ◌^◌, ◌<◌, ◌≤◌, ◌≡◌, length-append, [], ◌∷◌, ◌++◌, length, arith, refl, ap, sym,
  ◌∙◌,
}
use mathlib.Core.List.{append_assoc}
use lndmobile.Prelude.Int.{ℤ, pos, negsuc, from_word}
use lndmobile.Prelude.Exec.{Result, ok, runs}
use lndmobile.Wire.{Bytes, OutPoint, copy_to, copy_to_all}
use lndmobile.Codec.{
  WireCodec, put_uint16, put_uint32, put_uint64, uint16, uint32, uint64, to_uint64, fill, read,
  read_full, take, drop, limit_reader, read_index, write_outpoint, read_outpoint,
}

pub take-append :
    (k : ℕ) (xs ys : Bytes) (n : ℕ) → k ≡ length xs + n → take k (xs ++ ys) ≡ xs ++ take n ys
take-append k [] ys n e = ap (λ m. take m ys) (omega arith)
take-append zero (x ∷ xs) ys n e = absurd (omega arith)
take-append (suc k) (x ∷ xs) ys n e = ap (λ l. x ∷ l) (take-append k xs ys n (omega arith))

pub drop-append :
    (k : ℕ) (xs ys : Bytes) (n : ℕ) → k ≡ length xs + n → drop k (xs ++ ys) ≡ drop n ys
drop-append k [] ys n e = ap (λ m. drop m ys) (omega arith)
drop-append zero (x ∷ xs) ys n e = absurd (omega arith)
drop-append (suc k) (x ∷ xs) ys n e = drop-append k xs ys n (omega arith)

pub take-drop : (n : ℕ) (xs : Bytes) → take n xs ++ drop n xs ≡ xs
take-drop zero xs = refl
take-drop (suc n) [] = refl
take-drop (suc n) (x ∷ xs) = ap (λ l. x ∷ l) (take-drop n xs)

pub uint16-put : (n : ℕ) (bs : Bytes) → n < 2 ^ 16 → uint16 (put_uint16 n ++ bs) ≡ n
unfolding uint16 put_uint16
uint16-put n bs h = omega arith

pub uint32-put : (n : ℕ) (bs : Bytes) → n < 2 ^ 32 → uint32 (put_uint32 n ++ bs) ≡ n
unfolding uint32 put_uint32
uint32-put n bs h = omega arith

pub uint64-put : (n : ℕ) → n < 2 ^ 64 → uint64 (put_uint64 n) ≡ n
unfolding uint64 uint32 put_uint64 put_uint32
uint64-put n h = omega arith

-- Values of an `int64`.
abbrev pub IsInt64 : ℤ → Type 0
IsInt64 (pos n) = n < 2 ^ 63
IsInt64 (negsuc n) = n < 2 ^ 63

pub from_word-to_uint64 : (a : ℤ) → IsInt64 a → from_word (to_uint64 a) ≡ a
unfolding to_uint64
from_word-to_uint64 (pos n) h = ground arith
from_word-to_uint64 (negsuc n) h = ground arith

outpoint_eq :
    (o : OutPoint)
    → length o.hash ≡ 32
    → o.index < 2 ^ 32
    → record { hash = copy_to 32 o.hash; index = uint32 (put_uint32 o.index ++ []) } ≡ o
outpoint_eq o l b =
    ap (λ h. record { hash = h; index = uint32 (put_uint32 o.index ++ []) })
      (copy_to_all 32 o.hash l)
    ∙ ap (λ i. record { hash = o.hash; index = i }) (uint32-put o.index [] b)

pub to_uint64_bound : (a : ℤ) → to_uint64 a < 2 ^ 64
unfolding to_uint64
to_uint64_bound (pos n) = omega arith
to_uint64_bound (negsuc n) = omega arith

fill_lem :
    (n : ℕ) (xs rest scratch : Bytes)
    → length xs ≡ n
    → n ≤ length scratch
    → fill n scratch (xs ++ rest) ≡ (xs ++ drop n scratch, rest)
unfolding fill
fill_lem zero [] rest scratch e h = refl
fill_lem zero (x ∷ xs) rest scratch e h = absurd (omega arith)
fill_lem (suc n) [] rest scratch e h = absurd (omega arith)
fill_lem (suc n) (x ∷ xs) rest [] e h = absurd (omega arith)
fill_lem (suc n) (x ∷ xs) rest (s ∷ scratch) e h =
    ap (λ r. (x ∷ r.0, r.1)) (fill_lem n xs rest scratch (omega arith) (omega arith))

pub read_full_lem :
    (n : ℕ) (xs rest scratch : Bytes)
    → length xs ≡ suc n
    → suc n ≤ length scratch
    → read_full (suc n) scratch (xs ++ rest) ≡ (ok (xs ++ drop (suc n) scratch), rest)
unfolding read_full
read_full_lem n [] rest scratch e h = absurd (omega arith)
read_full_lem n (x ∷ xs) rest scratch e h =
    let filled = fill_lem (suc n) (x ∷ xs) rest scratch e h in
    ground (arith, filled, length-append xs rest)

ok_injective :
    {A : Type 0} {a b : A} {s t : Bytes} → Path (Result ℕ A × Bytes) (ok a, s) (ok b, t) → a ≡ b
ok_injective e = cc

module _ (codec : WireCodec) where
  open codec use {write_var_bytes, read_var_bytes, read-write_var_bytes, length-write_var_bytes}

  pub read_outpoint_lem :
      (o : OutPoint) (rest : Bytes)
      → length o.hash ≡ 32
      → o.index < 2 ^ 32
      → read_outpoint codec (write_var_bytes o.hash ++ (put_uint32 o.index ++ rest)) ≡ (ok o, rest)
  unfolding read_outpoint read fill put_uint32
  read_outpoint_lem o rest l b =
      runs (read_var_bytes 32) (read_index codec)
        (read-write_var_bytes 32 o.hash (put_uint32 o.index ++ rest) (omega arith))
      ∙ ap (λ x. (ok x, rest)) (outpoint_eq o l b)

  -- One outpoint is read, and no byte after it.
  pub limited_outpoint :
      (o : OutPoint) (rest : Bytes)
      → length o.hash ≡ 32
      → o.index < 2 ^ 32
      → limit_reader 40 (read_outpoint codec) (write_outpoint codec o ++ rest) ≡ (ok o, rest)
  unfolding write_outpoint put_uint32
  limited_outpoint o rest l b =
      let w = write_var_bytes o.hash in
      let long = length-write_var_bytes o.hash (omega arith) in
      let tail = put_uint32 o.index ++ rest in
      let taken : take 40 (w ++ tail) ≡ w ++ (put_uint32 o.index ++ take 3 rest) =
        take-append 40 w tail 7 (omega arith) in
      let dropped : drop 40 (w ++ tail) ≡ drop 3 rest = drop-append 40 w tail 7 (omega arith) in
      ap (λ bs. limit_reader 40 (read_outpoint codec) bs) (append_assoc w (put_uint32 o.index) rest)
      ∙ ap (λ bs. ((read_outpoint codec bs).0, (read_outpoint codec bs).1 ++ drop 40 (w ++ tail)))
          taken
      ∙ ap (λ r. (r.0, r.1 ++ drop 40 (w ++ tail))) (read_outpoint_lem o (take 3 rest) l b)
      ∙ ap (λ bs. (ok o, take 3 rest ++ bs)) dropped
      ∙ ap (λ bs. (ok o, bs)) (take-drop 3 rest)

  -- The outpoints that an encoding can represent.
  pub record IsPoint (o : OutPoint) : Type 0 where
    pub hash : length o.hash ≡ 32
    pub index : o.index < 2 ^ 32

  pub read-write_outpoint :
      (o : OutPoint) (rest : Bytes)
      → IsPoint o
      → read_outpoint codec (write_outpoint codec o ++ rest) ≡ (ok o, rest)
  unfolding write_outpoint
  read-write_outpoint o rest p =
      ap (read_outpoint codec) (append_assoc (write_var_bytes o.hash) (put_uint32 o.index) rest)
      ∙ read_outpoint_lem o rest p.hash p.index

  -- Two outpoints are not written alike.
  pub write_outpoint_injective :
      (o p : OutPoint)
      → IsPoint o
      → IsPoint p
      → write_outpoint codec o ≡ write_outpoint codec p
      → o ≡ p
  write_outpoint_injective o p a b e = ok_injective (
      sym (read-write_outpoint o [] a)
      ∙ ap (λ w. read_outpoint codec (w ++ [])) e
      ∙ read-write_outpoint p [] b)
