-- ===== src/Breach/Observers/Waiting.antt =====
-- The goroutines that wait (lnd/breacharbiter.go), and a property of each of them.
use lndmobile.Prelude.{
  ℕ, zero, suc, ◌==◌, Bool, true, false, Option, none, some, List, [], ◌∷◌, All, if◌then◌else◌,
}
use lndmobile.Prelude.Assoc.{nat_eq, lookup, delete}
use lndmobile.Breach.Observers.{behind, receive}

pub All-map :
    {A : Type 0} (P Q : A → Type 0) (xs : List A) → ((a : A) → P a → Q a) → All P xs → All Q xs
All-map P Q [] f h = tt
All-map P Q (x ∷ xs) f h = (f x h.0, All-map P Q xs f h.1)

-- What is received has the property, and what is left.
abbrev pub Received : {A : Type 0} → (A → Type 0) → Option (A × List A) → Type 0
Received P none = Unit
Received P (some (a, rest)) = P a × All P rest

pub Received-behind :
    {A : Type 0} (P : A → Type 0) (x : A) (r : Option (A × List A))
    → P x
    → Received P r
    → Received P (behind x r)
Received-behind P x none p h = tt
Received-behind P x (some (a, rest)) p h = (h.0, (p, h.1))

pub receive-Received :
    {A : Type 0} (P : A → Type 0) (n : ℕ) (xs : List A) → All P xs → Received P (receive n xs)
receive-Received P n [] h = tt
receive-Received P zero (x ∷ xs) h = h
receive-Received P (suc n) (x ∷ xs) h =
    Received-behind P x (receive n xs) h.0 (receive-Received P n xs h.1)

pub All-if :
    {A : Type 0} (P : A → Type 0) (b : Bool) (xs ys : List A)
    → All P xs
    → All P ys
    → All P (if b then xs else ys)
All-if P true xs ys f g = f
All-if P false xs ys f g = g

pub delete-All :
    {A : Type 0} (P : ℕ × A → Type 0) (n : ℕ) (m : List (ℕ × A)) → All P m → All P (delete n m)
unfolding delete
delete-All P n [] h = tt
delete-All P n ((k, a) ∷ m) h =
    let rest = delete-All P n m h.1 in
    All-if P (k == n) (delete n m) ((k, a) ∷ delete n m) rest (h.0, rest)

-- What is found has the property.
abbrev pub Found : {A : Type 0} → (A → Type 0) → Option A → Type 0
Found P none = Unit
Found P (some a) = P a

pub Found-if :
    {A : Type 0} (P : A → Type 0) (b : Bool) (x y : Option A)
    → Found P x
    → Found P y
    → Found P (if b then x else y)
Found-if P true x y f g = f
Found-if P false x y f g = g

pub lookup-Found :
    {A : Type 0} (P : A → Type 0) (n : ℕ) (m : List (ℕ × A))
    → All (λ x. P x.1) m
    → Found P (lookup n m)
unfolding lookup
lookup-Found P n [] h = tt
lookup-Found P n ((k, a) ∷ m) h =
    Found-if P (k == n) (some a) (lookup n m) h.0 (lookup-Found P n m h.1)
