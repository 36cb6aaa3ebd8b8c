-- ===== src/Nursery/Resolution/Value.antt =====
-- What the outputs of `IncubateOutputs` are worth, and of which kinds they are.
use lndmobile.Prelude.{
  ℕ, ◌+◌, ◌≡◌, Option, none, some, List, [], ◌∷◌, ◌++◌, map, arith, refl, ap, ◌∙◌, if◌then◌else◌,
}
use lndmobile.Prelude.Int.{ℤ, pos_part}
use lndmobile.Wire.{MsgTx, OutPoint}
use lndmobile.Nursery.Output.{KidOutput, BabyOutput}
use lndmobile.Breach.Wallet.{Wallet}
use lndmobile.Breach.Justice.{make_breached_output}
use lndmobile.Nursery.Resolution.{
  CommitOutputResolution, IncomingHtlcResolution, OutgoingHtlcResolution, make_kid_output,
  make_baby_output, has_value, self_output, commit_outputs, incoming_output, incoming_outputs,
  outgoing_outputs, build_outputs, add_outgoing,
}

-- The sum of the amounts that are not negative.
unfoldable pub value_of : List ℤ → ℕ
value_of [] = 0
value_of (a ∷ xs) = pos_part a + value_of xs

pub value_of-append : (xs ys : List ℤ) → value_of (xs ++ ys) ≡ value_of xs + value_of ys
unfolding value_of
value_of-append [] ys = omega arith
value_of-append (x ∷ xs) ys = omega (arith, value_of-append xs ys)

abbrev pub kid_amounts : List KidOutput → List ℤ
kid_amounts = map (λ o. o.breached.amt)

abbrev pub baby_amounts : List BabyOutput → List ℤ
baby_amounts = map (λ b. b.kid.breached.amt)

value-kids :
    (xs ys : List KidOutput)
    → value_of (kid_amounts (xs ++ ys)) ≡ value_of (kid_amounts xs) + value_of (kid_amounts ys)
unfolding value_of
value-kids [] ys = omega arith
value-kids (x ∷ xs) ys = omega (arith, value-kids xs ys)

-- To leave out an output without value changes no sum.
value-kept :
    {World : Type 0} (wallet : Wallet World) (o : KidOutput) (os : List KidOutput)
    → value_of (kid_amounts (if has_value wallet o then o ∷ os else os))
      ≡ pos_part o.breached.amt + value_of (kid_amounts os)
unfolding value_of
value-kept wallet o os = ground arith

value-kept_baby :
    {World : Type 0} (wallet : Wallet World) (b : BabyOutput) (bs : List BabyOutput)
    → value_of (baby_amounts (if has_value wallet b.kid then b ∷ bs else bs))
      ≡ pos_part b.kid.breached.amt + value_of (baby_amounts bs)
unfolding value_of
value-kept_baby wallet b bs = ground arith

module _ {World : Type 0} (wallet : Wallet World) where
  open wallet use {output_value}

  abbrev commit_amounts : Option CommitOutputResolution → List ℤ
  commit_amounts none = []
  commit_amounts (some r) = output_value r.self_output_sign_desc ∷ []

  abbrev incoming_amounts : List IncomingHtlcResolution → List ℤ
  incoming_amounts = map (λ r. output_value r.sweep_sign_desc)

  abbrev outgoing_amounts : List OutgoingHtlcResolution → List ℤ
  outgoing_amounts = map (λ r. output_value r.sweep_sign_desc)

  value-commit :
      (cp : OutPoint) (r : Option CommitOutputResolution)
      → value_of (kid_amounts (commit_outputs wallet cp r)) ≡ value_of (commit_amounts r)
  unfolding commit_outputs value_of make_breached_output make_kid_output
  value-commit cp none = refl
  value-commit cp (some r) = value-kept wallet (self_output wallet cp r) []

  value-incoming :
      (cp : OutPoint) (rs : List IncomingHtlcResolution)
      → value_of (kid_amounts (incoming_outputs wallet cp rs)) ≡ value_of (incoming_amounts rs)
  unfolding incoming_outputs value_of make_breached_output make_kid_output
  value-incoming cp [] = refl
  value-incoming cp (r ∷ rs) =
      value-kept wallet (incoming_output wallet cp r) (incoming_outputs wallet cp rs)
      ∙ ap (λ n. pos_part (output_value r.sweep_sign_desc) + n) (value-incoming cp rs)

  abbrev both : List KidOutput × List BabyOutput → ℕ
  both p = value_of (kid_amounts p.0) + value_of (baby_amounts p.1)

  value-add_outgoing :
      (cp : OutPoint) (r : OutgoingHtlcResolution) (t : Option MsgTx)
      (p : List KidOutput × List BabyOutput)
      → both (add_outgoing wallet cp r t p) ≡ pos_part (output_value r.sweep_sign_desc) + both p
  unfolding value_of make_breached_output make_kid_output make_baby_output
  value-add_outgoing cp r none (kids, babies) = omega arith
  value-add_outgoing cp r (some tx) (kids, babies) =
      omega (arith, value-kept_baby wallet (make_baby_output wallet cp r tx) babies)

  value-outgoing :
      (cp : OutPoint) (rs : List OutgoingHtlcResolution)
      → both (outgoing_outputs wallet cp rs) ≡ value_of (outgoing_amounts rs)
  unfolding outgoing_outputs value_of
  value-outgoing cp [] = refl
  value-outgoing cp (r ∷ rs) = omega (
    arith,
    value-add_outgoing cp r r.signed_timeout_tx (outgoing_outputs wallet cp rs),
    value-outgoing cp rs,
  )

  -- The outputs that `IncubateOutputs` builds are worth as much as the outputs of all resolutions
  -- together, amounts below zero not counted: what it leaves out has no value, and nothing is built
  -- twice.
  pub build_outputs_value :
      (cp : OutPoint) (commit : Option CommitOutputResolution)
      (outgoing : List OutgoingHtlcResolution) (incoming : List IncomingHtlcResolution)
      → let (kids, babies) = build_outputs wallet cp commit outgoing incoming in
        value_of (kid_amounts kids) + value_of (baby_amounts babies)
        ≡ value_of (commit_amounts commit)
          + (value_of (incoming_amounts incoming) + value_of (outgoing_amounts outgoing))
  unfolding build_outputs
  build_outputs_value cp commit outgoing incoming =
      let kids = (outgoing_outputs wallet cp outgoing).0 in
      omega (
        arith,
        value-kids (commit_outputs wallet cp commit) (incoming_outputs wallet cp incoming ++ kids),
        value-kids (incoming_outputs wallet cp incoming) kids,
        value-commit cp commit,
        value-incoming cp incoming,
        value-outgoing cp outgoing,
      )
