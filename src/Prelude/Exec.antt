-- ===== src/Prelude/Exec.antt =====
-- Methods that change an object and may fail. The object comes back beside an error too, since
-- what was written before a failure stays written.
use Prim.Native.Nat.{ℕ}
use mathlib.Core.Path.{◌≡◌, refl, ap, sym, subst, ◌∙◌}
use mathlib.Core.Logic.{◌⊎◌, inl, inr}

-- A Go method returns a value or an error, or it panics.
pub data Result (E A : Type 0) : Type 0 where
  ok : A → Result E A
  err : E → Result E A
  panic : Result E A

-- What a call of other code returns: a value, or an error known by a number.
pub data Reply (A : Type 0) : Type 0 where
  value : A → Reply A
  failure : ℕ → Reply A

abbrev pub Exec : Type 0 → Type 0 → Type 0 → Type 0
Exec E S A = S → Result E A × S

module _ {E S A : Type 0} where
  abbrev pub pure : A → Exec E S A
  pure a s = (ok a, s)

  abbrev pub raise : E → Exec E S A
  raise e s = (err e, s)

  abbrev pub crash : Exec E S A
  crash s = (panic, s)

  abbrev pub gets : (S → A) → Exec E S A
  gets f s = (ok (f s), s)

module _ {E S : Type 0} where
  abbrev pub modify : (S → S) → Exec E S (Unit {0})
  modify f s = (ok tt, f s)

infixl 5 ◌>>=◌ ◌>>◌
abbrev pub ◌>>=◌ : {E S A B : Type 0} → Exec E S A → (A → Exec E S B) → Exec E S B
◌>>=◌ m f s =
    let (r, s') = m s in elim r [ ok a ↦ f a s' | err e ↦ (err e, s') | panic ↦ (panic, s') ]

abbrev pub ◌>>◌ : {E S A B : Type 0} → Exec E S A → Exec E S B → Exec E S B
m >> k = m >>= λ _. k

-- What follows a method that may end in three ways.
abbrev pub follow : {E S A B : Type 0} → (A → Exec E S B) → Result E A × S → Result E B × S
follow f r = elim r.0 [ ok a ↦ f a r.1 | err e ↦ (err e, r.1) | panic ↦ (panic, r.1) ]

pub runs :
    {E S A B : Type 0} (m : Exec E S A) (f : A → Exec E S B) {s t : S} {a : A}
    → m s ≡ (ok a, t)
    → (m >>= f) s ≡ f a t
runs m f e = ap (follow f) e

-- The three ways in which a method may end.
pub data Ending {E S A : Type 0} (r : Result E A × S) : Type 0 where
  returns : (a : A) (s : S) → r ≡ (ok a, s) → Ending r
  fails : (e : E) (s : S) → r ≡ (err e, s) → Ending r
  panics : (s : S) → r ≡ (panic, s) → Ending r

pub ending : {E S A : Type 0} (r : Result E A × S) → Ending r
ending (ok a, s) = returns a s refl
ending (err e, s) = fails e s refl
ending (panic, s) = panics s refl

pub reply_cases :
    {A : Type 0} (x : Reply A) → ((a : A) × (x ≡ value a)) ⊎ ((e : ℕ) × (x ≡ failure e))
reply_cases (value a) = inl (a, refl)
reply_cases (failure e) = inr (e, refl)

pub err≢ok : {E A : Type 0} {x : E} {a : A} → Path (Result E A) (err x) (ok a) → ⊥
err≢ok e = cc

pub panic≢ok : {E A : Type 0} {a : A} → Path (Result E A) panic (ok a) → ⊥
panic≢ok e = cc

-- What holds of the object after a method, and after what follows it, holds after both.
pub after_bind :
    {E S A B : Type 0} (P : S → Type 0) (m : Exec E S A) (f : A → Exec E S B) (s : S)
    → P (m s).1
    → ((a : A) (t : S) → m s ≡ (ok a, t) → P (f a t).1)
    → P ((m >>= f) s).1
after_bind P m f s p k = elim (ending (m s)) [
  | returns a t e ↦ subst (λ r. P (follow f r).1) (sym e) (k a t e)
  | fails x t e ↦ subst (λ r. P (follow f r).1) (sym e) (subst (λ r. P r.1) e p)
  | panics t e ↦ subst (λ r. P (follow f r).1) (sym e) (subst (λ r. P r.1) e p)
]

-- A method that returned a value.
pub record Returned {E S A : Type 0} (m : Exec E S A) (s : S) (P : A → S → Type 0) : Type 0 where
  pub result : A
  pub after : S
  pub equation : m s ≡ (ok result, after)
  pub rest : P result after

-- If two methods in turn returned a value, so did the first of them, and then the second.
pub bind_returned :
    {E S A B : Type 0} (m : Exec E S A) (f : A → Exec E S B) (s : S) {b : B} {u : S}
    → (m >>= f) s ≡ (ok b, u)
    → Returned m s (λ a t. f a t ≡ (ok b, u))
bind_returned m f s e = elim (ending (m s)) [
  | returns a t i ↦ record { result = a; after = t; equation = i; rest = ap (follow f) (sym i) ∙ e }
  | fails x t i ↦ absurd (err≢ok (ap (λ r. r.0) (sym (ap (follow f) i) ∙ e)))
  | panics t i ↦ absurd (panic≢ok (ap (λ r. r.0) (sym (ap (follow f) i) ∙ e)))
]
