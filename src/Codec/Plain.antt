-- ===== src/Codec/Plain.antt =====
-- A codec with one byte for a transaction, for a sign descriptor and for a length.
use lndmobile.Prelude.{ℕ, zero, suc, ◌≡◌, [], ◌∷◌, ◌++◌, length, arith, refl, ap}
use lndmobile.Prelude.Exec.{Result, ok, err}
use lndmobile.Wire.{Bytes}
use lndmobile.Codec.{Reader, WireCodec, take, drop}

abbrev split_at : ℕ → Bytes → Result ℕ Bytes × Bytes
split_at n bs = (ok (take n bs), drop n bs)

-- A length and as many bytes.
abbrev read_prefixed : Reader Bytes
read_prefixed [] = (err 0, [])
read_prefixed (n ∷ bs) = split_at n bs

abbrev read_number : Reader ℕ
read_number [] = (err 0, [])
read_number (n ∷ bs) = (ok n, bs)

take_all : (xs ys : Bytes) → take (length xs) (xs ++ ys) ≡ xs
take_all [] ys = refl
take_all (x ∷ xs) ys = ap (λ l. x ∷ l) (take_all xs ys)

drop_all : (xs ys : Bytes) → drop (length xs) (xs ++ ys) ≡ ys
drop_all [] ys = refl
drop_all (x ∷ xs) ys = drop_all xs ys

pub prefixed_lem : (xs ys : Bytes) → split_at (length xs) (xs ++ ys) ≡ (ok xs, ys)
prefixed_lem xs ys = rw (take_all xs ys, drop_all xs ys) refl

pub one_byte : (xs ys : Bytes) → length xs ≡ 1 → split_at 1 (xs ++ ys) ≡ (ok xs, ys)
one_byte [] ys h = absurd (omega arith)
one_byte (x ∷ []) ys h = refl
one_byte (x ∷ z ∷ xs) ys h = absurd (omega arith)

abbrev pub plain : WireCodec
plain = record {
  write_var_bytes = λ bs. length bs ∷ bs;
  read_var_bytes = λ n. read_prefixed;
  write_var_int = λ n. n ∷ [];
  read_var_int = read_number;
  deserialize_tx = split_at 1;
  read_sign_descriptor = split_at 1;
  IsTx = λ tx. length tx ≡ 1;
  IsSignDescriptor = λ d. length d ≡ 1;
  read-write_var_bytes = λ n bs rest h. prefixed_lem bs rest;
  length-write_var_bytes = λ bs h. omega arith;
  read-write_var_int = λ n rest h. refl;
  deserialize_tx_lem = λ tx rest h. one_byte tx rest h;
  read_sign_descriptor_lem = λ d rest h. one_byte d rest h;
}

abbrev pub zeros : ℕ → Bytes
zeros zero = []
zeros (suc n) = 0 ∷ zeros n
