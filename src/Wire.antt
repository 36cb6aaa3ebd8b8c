-- ===== src/Wire.antt =====
-- Types of other packages' wire formats that several parts share: wire.OutPoint, wire.MsgTx.
use lndmobile.Prelude.{
  zero, suc, length, refl, ap, ℕ, ◌≡◌, ◌↔◌, Bool, true, false, ◌&&◌, List, [], ◌∷◌, ◌==◌, arith,
}
use lndmobile.Prelude.Assoc.{Eq}

abbrev pub Bytes : Type 0
Bytes = List ℕ

-- A transaction, by its serialisation.
abbrev pub MsgTx : Type 0
MsgTx = Bytes

-- wire.OutPoint
pub record OutPoint : Type 0 where
  pub hash : Bytes
  pub index : ℕ

abbrev pub bytes_eq : Bytes → Bytes → Bool
bytes_eq [] [] = true
bytes_eq (a ∷ xs) (b ∷ ys) = a == b && bytes_eq xs ys
bytes_eq _ _ = false

pub bytes_eq_iff : (a b : Bytes) → (bytes_eq a b ≡ true) ↔ (a ≡ b)
bytes_eq_iff [] [] = ground arith
bytes_eq_iff [] (b ∷ bs) = ground arith
bytes_eq_iff (a ∷ xs) [] = ground arith
bytes_eq_iff (a ∷ xs) (b ∷ ys) = ground (arith, bytes_eq_iff xs ys)

instance abbrev pub hash_eq : Eq Bytes
hash_eq = record { beq = bytes_eq; beq_iff = bytes_eq_iff }

abbrev pub out_point_eqb : OutPoint → OutPoint → Bool
out_point_eqb o p = o.index == p.index && bytes_eq o.hash p.hash

pub out_point_eqb_iff : (o p : OutPoint) → (out_point_eqb o p ≡ true) ↔ (o ≡ p)
out_point_eqb_iff o p = ground (arith, bytes_eq_iff o.hash p.hash)

instance abbrev pub out_point_eq : Eq OutPoint
out_point_eq = record { beq = out_point_eqb; beq_iff = out_point_eqb_iff }

-- `copy(a[:], bs)`, into an array of n bytes that are zero.
unfoldable pub copy_to : ℕ → Bytes → Bytes
copy_to zero bs = []
copy_to (suc n) [] = 0 ∷ copy_to n []
copy_to (suc n) (b ∷ bs) = b ∷ copy_to n bs

pub copy_to_all : (n : ℕ) (bs : Bytes) → length bs ≡ n → copy_to n bs ≡ bs
unfolding copy_to
copy_to_all zero [] e = refl
copy_to_all zero (b ∷ bs) e = absurd (omega arith)
copy_to_all (suc n) [] e = absurd (omega arith)
copy_to_all (suc n) (b ∷ bs) e = ap (λ x. b ∷ x) (copy_to_all n bs (omega arith))
