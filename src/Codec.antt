-- ===== src/Codec.antt =====
-- What the encodings of the program share: big-endian integers, reading from a `bytes.Reader`, and
-- `writeOutpoint` and `readOutpoint` of lnd/utxonursery.go. Writing to a buffer does not fail, so
-- that an encoder is the bytes that it writes; a decoder consumes bytes.
pub mod Laws
pub mod Plain
use lndmobile.Prelude.{
  ℕ, zero, suc, ◌+◌, ◌-◌, ◌*◌, ◌/◌, ◌%◌, ◌^◌, ◌≤◌, ◌<◌, ◌≡◌, ◌==◌, ltb, not, Bool, true, false,
  List, [], ◌∷◌, ◌++◌, length, if◌then◌else◌,
}
use lndmobile.Prelude.Int.{ℤ, pos, negsuc}
use lndmobile.Prelude.Exec.{Result, ok, err, panic, Exec, pure, ◌>>=◌, ◌>>◌}
use lndmobile.Wire.{Bytes, OutPoint, copy_to}

abbrev pub Reader : Type 0 → Type 0
Reader A = Exec ℕ Bytes A

-- What the codecs use of btcd and of lnwallet. A transaction and a sign descriptor are known by
-- their serialisations, of which the two predicates speak.
pub record WireCodec : Type 1 where
  pub write_var_bytes : Bytes → Bytes
  pub read_var_bytes : ℕ → Reader Bytes
  pub write_var_int : ℕ → Bytes
  pub read_var_int : Reader ℕ
  pub deserialize_tx : Reader Bytes
  pub read_sign_descriptor : Reader Bytes
  pub IsTx : Bytes → Type 0
  pub IsSignDescriptor : Bytes → Type 0
  pub read-write_var_bytes :
      (n : ℕ) (bs rest : Bytes)
      → length bs ≤ n
      → read_var_bytes n (write_var_bytes bs ++ rest) ≡ (ok bs, rest)
  -- One byte holds a length below 253.
  pub length-write_var_bytes :
      (bs : Bytes) → length bs < 253 → length (write_var_bytes bs) ≡ 1 + length bs
  pub read-write_var_int :
      (n : ℕ) (rest : Bytes) → n < 2 ^ 64 → read_var_int (write_var_int n ++ rest) ≡ (ok n, rest)
  pub deserialize_tx_lem : (tx rest : Bytes) → IsTx tx → deserialize_tx (tx ++ rest) ≡ (ok tx, rest)
  pub read_sign_descriptor_lem :
      (d rest : Bytes) → IsSignDescriptor d → read_sign_descriptor (d ++ rest) ≡ (ok d, rest)

-- `byteOrder` is big-endian.
unfoldable pub put_uint16 : ℕ → Bytes
put_uint16 n = n / 256 % 256 ∷ n % 256 ∷ []

unfoldable pub put_uint32 : ℕ → Bytes
put_uint32 n = n / 16777216 % 256 ∷ n / 65536 % 256 ∷ n / 256 % 256 ∷ n % 256 ∷ []

unfoldable pub put_uint64 : ℕ → Bytes
unfolding put_uint32
put_uint64 n = put_uint32 (n / 2 ^ 32) ++ put_uint32 (n % 2 ^ 32)

-- Reading from a slice that is too short panics; the scratch space is long enough.
unfoldable pub uint16 : Bytes → ℕ
uint16 (a ∷ b ∷ _) = a * 256 + b
uint16 _ = 0

unfoldable pub uint32 : Bytes → ℕ
uint32 (a ∷ b ∷ c ∷ d ∷ _) = a * 16777216 + b * 65536 + c * 256 + d
uint32 _ = 0

unfoldable pub uint64 : Bytes → ℕ
unfolding uint32
uint64 (a ∷ b ∷ c ∷ d ∷ bs) = uint32 (a ∷ b ∷ c ∷ d ∷ []) * 2 ^ 32 + uint32 bs
uint64 _ = 0

-- `uint64(x)` of an `int64`.
unfoldable pub to_uint64 : ℤ → ℕ
to_uint64 (pos n) = n % 2 ^ 64
to_uint64 (negsuc n) = 2 ^ 64 - 1 - n % 2 ^ 64

-- `r.Read(scratch[:n])`: it fails at the end of the input only, and what it does not read keeps its
-- old value.
unfoldable pub fill : ℕ → Bytes → Bytes → Bytes × Bytes
fill zero scratch bs = (scratch, bs)
fill (suc n) [] bs = ([], bs)
fill (suc n) (s ∷ scratch) [] = (s ∷ scratch, [])
fill (suc n) (s ∷ scratch) (b ∷ bs) = let (filled, rest) = fill n scratch bs in (b ∷ filled, rest)

abbrev pub eof : ℕ
eof = 0

unfoldable pub read : ℕ → Bytes → Reader Bytes
unfolding fill
read n scratch [] = (err eof, [])
read n scratch (b ∷ bs) = let (filled, rest) = fill n scratch (b ∷ bs) in (ok filled, rest)

-- `io.ReadFull(r, scratch[:n])`: an input that is too short is an error.
abbrev pub unexpected_eof : ℕ
unexpected_eof = 1

unfoldable pub read_full : ℕ → Bytes → Reader Bytes
unfolding fill
read_full n scratch [] = (err eof, [])
read_full n scratch (b ∷ bs) =
    if ltb (length bs + 1) n
    then (err unexpected_eof, [])
    else (let (filled, rest) = fill n scratch (b ∷ bs) in (ok filled, rest))

-- `binary.Read` of a Boolean.
unfoldable pub read_bool : Reader Bool
read_bool [] = (err eof, [])
read_bool (b ∷ bs) = (ok (not (b == 0)), bs)

abbrev pub take : ℕ → Bytes → Bytes
take zero bs = []
take (suc n) [] = []
take (suc n) (b ∷ bs) = b ∷ take n bs

abbrev pub drop : ℕ → Bytes → Bytes
drop zero bs = bs
drop (suc n) [] = []
drop (suc n) (b ∷ bs) = drop n bs

-- `io.LimitReader`
abbrev pub limit_reader : {A : Type 0} → ℕ → Reader A → Reader A
limit_reader n m bs = let (r, left) = m (take n bs) in (r, left ++ drop n bs)

module _ (codec : WireCodec) where
  open codec use {write_var_bytes, read_var_bytes}

  unfoldable pub write_outpoint : OutPoint → Bytes
  write_outpoint o = write_var_bytes o.hash ++ put_uint32 o.index

  -- The second half of `readOutpoint`.
  abbrev pub read_index : Bytes → Reader OutPoint
  read_index txid = do
    scratch ← read 4 (0 ∷ 0 ∷ 0 ∷ 0 ∷ [])
    pure (record { hash = copy_to 32 txid; index = uint32 scratch })

  unfoldable pub read_outpoint : Reader OutPoint
  read_outpoint = read_var_bytes 32 >>= read_index
