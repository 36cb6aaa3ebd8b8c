-- ===== src/Nursery/Report/Balances.antt =====
-- The balances of a nursery report (lnd/utxonursery.go).
use lndmobile.Prelude.{
  ℕ, ◌+◌, ◌<◌, ◌^◌, ◌≡◌, inl, inr, Option, none, some, List, [], ◌∷◌, arith, refl, ap, ◌∙◌,
  Option-cases,
}
use lndmobile.Prelude.Int.{pos}
use lndmobile.Prelude.Exec.{Result, ok, err, panic}
use lndmobile.Wire.{OutPoint}
use lndmobile.Bolt.{Bolt}
use lndmobile.Nursery.Store.{
  Prefix, crib, pscl, kndr, grad, PrefixKey, key_eq, Stored, Error, ChannelBucket, Db,
}
use lndmobile.Nursery.Store.Buckets.{get_channel_bucket}
use lndmobile.Nursery.Report.{
  ContractMaturityReport, report_entry, report_entries, empty_report, report_channel,
  nursery_report,
}
use lndmobile.Nursery.Report.Shares.{
  IsSound, value_in, limbo_share, recovered_share, hidden_share, Balanced, report_output-Adds,
}

-- A measure of what is stored under keys.
abbrev pub at_entry : (Prefix → Stored → ℕ) → Prefix → Option Stored → ℕ
at_entry f p none = 0
at_entry f p (some v) = f p v

abbrev pub SoundEntry : Prefix → Option Stored → Type 0
SoundEntry p none = Unit
SoundEntry p (some v) = IsSound p v

module _ (bolt : Bolt) where
  open bolt use {keys, get}

  unfoldable pub sum_of : (Prefix → Stored → ℕ) → ChannelBucket bolt → List PrefixKey → ℕ
  sum_of f b [] = 0
  sum_of f b (k ∷ ks) = at_entry f k.state (get k b) + sum_of f b ks

  unfoldable pub AllSound : ChannelBucket bolt → List PrefixKey → Type 0
  AllSound b [] = Unit
  AllSound b (k ∷ ks) = SoundEntry k.state (get k b) × AllSound b ks

  report_entry_adds :
      (p : Prefix) (v : Option Stored) (c : ContractMaturityReport) (l r : ℕ)
      → SoundEntry p v
      → Balanced l r c
      → l + at_entry limbo_share p v < 2 ^ 63
      → r + at_entry recovered_share p v < 2 ^ 63
      → (d : ContractMaturityReport) × (report_entry p v c ≡ ok d)
        × Balanced (l + at_entry limbo_share p v) (r + at_entry recovered_share p v) d
  report_entry_adds p none c l r i s h k = (
    c,
    refl,
    record {
      limbo_balance = s.limbo_balance ∙ ap pos (omega arith);
      recovered_balance = s.recovered_balance ∙ ap pos (omega arith);
    },
  )
  report_entry_adds p (some v) c l r i s h k = report_output-Adds p v c l r i s h k

  abbrev next :
      ChannelBucket bolt
      → List PrefixKey
      → Result Error ContractMaturityReport
      → Result Error ContractMaturityReport
  next b ks (ok d) = report_entries bolt b ks d
  next b ks (err e) = err e
  next b ks panic = panic

  report_entries_lem :
      (b : ChannelBucket bolt) (ks : List PrefixKey) (c : ContractMaturityReport) (l r : ℕ)
      → AllSound b ks
      → Balanced l r c
      → l + sum_of limbo_share b ks < 2 ^ 63
      → r + sum_of recovered_share b ks < 2 ^ 63
      → (d : ContractMaturityReport) × (report_entries bolt b ks c ≡ ok d)
        × Balanced (l + sum_of limbo_share b ks) (r + sum_of recovered_share b ks) d
  unfolding report_entries sum_of AllSound
  report_entries_lem b [] c l r i s h k = (
    c,
    refl,
    record {
      limbo_balance = s.limbo_balance ∙ ap pos (omega arith);
      recovered_balance = s.recovered_balance ∙ ap pos (omega arith);
    },
  )
  report_entries_lem b (j ∷ ks) c l r i s h k =
      let (d, e, t) = report_entry_adds j.state (get j b) c l r i.0 s (omega arith) (omega arith) in
      let (d', e', t') =
        report_entries_lem b ks d (l + at_entry limbo_share j.state (get j b))
          (r + at_entry recovered_share j.state (get j b)) i.1 t (omega arith) (omega arith) in
      (
        d',
        ap (next b ks) e ∙ e',
        record {
          limbo_balance = t'.limbo_balance ∙ ap pos (omega arith);
          recovered_balance = t'.recovered_balance ∙ ap pos (omega arith);
        },
      )

  shares_add :
      (p : Prefix) (v : Stored)
      → limbo_share p v + recovered_share p v + hidden_share p v ≡ value_in v
  shares_add crib v = omega arith
  shares_add pscl v = ground arith
  shares_add kndr v = omega arith
  shares_add grad v = omega arith

  sums_add :
      (b : ChannelBucket bolt) (ks : List PrefixKey)
      → sum_of limbo_share b ks + sum_of recovered_share b ks + sum_of hidden_share b ks
        ≡ sum_of (λ p v. value_in v) b ks
  unfolding sum_of
  sums_add b [] = omega arith
  sums_add b (k ∷ ks) = elim (Option-cases (get k b)) [
    | inl e ↦ rw (e) (omega (arith, sums_add b ks))
    | inr (v, e) ↦ rw (e) (omega (arith, sums_add b ks, shares_add k.state v))
  ]

  -- If the outputs of a channel are stored as their states want them, with witness types that the
  -- nursery spends and amounts that are not negative and in sum below 2^63, then its report is made.
  -- The recovered balance is the sum of the graduated outputs. The limbo balance is the sum of all
  -- others, but for the preschool outputs that are to be claimed from the commitment of the remote
  -- party or are at a later stage: the two balances and the amounts of those are the value of the
  -- channel.
  pub nursery_report_balances :
      (cp : OutPoint) (db : Db bolt) (b : ChannelBucket bolt)
      → get_channel_bucket bolt cp db ≡ some b
      → AllSound b (keys b)
      → sum_of (λ p v. value_in v) b (keys b) < 2 ^ 63
      → (c : ContractMaturityReport) × (l : ℕ) × (r : ℕ) × (nursery_report bolt cp db ≡ ok c)
        × Balanced l r c
        × (r ≡ sum_of recovered_share b (keys b))
        × (l + r + sum_of hidden_share b (keys b) ≡ sum_of (λ p v. value_in v) b (keys b))
  unfolding nursery_report
  nursery_report_balances cp db b e a h =
      let sums = sums_add b (keys b) in
      let (c, f, t) =
        report_entries_lem b (keys b) (empty_report bolt cp) 0 0 a
          (record { limbo_balance = refl; recovered_balance = refl }) (omega arith) (omega arith) in
      (
        c,
        0 + sum_of limbo_share b (keys b),
        0 + sum_of recovered_share b (keys b),
        ap (report_channel bolt cp) e ∙ f,
        t,
        omega arith,
        omega arith,
      )
