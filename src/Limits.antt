-- ===== src/Limits.antt =====
-- limits/cron.go: how often a user agent may ask.
pub mod Config
use locate.Prelude.{
  ℕ, ◌+◌, ◌-◌, ◌≤◌, ◌<◌, ◌≡◌, ◌↔◌, ◌⊎◌, inl, inr, Bool, true, ◌&&◌, leb, ltb, arith,
}

-- `Cron`: the method `Next` of its expression, and the duration. Times are nanoseconds since Go's
-- zero time, which is 0; a duration is not negative.
pub record Cron : Type 0 where
  pub next : ℕ → ℕ
  pub duration : ℕ

abbrev within : ℕ → ℕ → ℕ → Bool
within start t duration = leb start t && ltb t (start + duration)

unfoldable pub is_limited : Cron → ℕ → Bool
is_limited c t = within (c.next (t - c.duration)) t c.duration

-- What the documentation of `cronexpr.Expression.Next` says: the zero time if the given time is the zero
-- time, and else the first scheduled time after it, or the zero time if there is none.
pub record IsNext (scheduled : ℕ → Type 0) (next : ℕ → ℕ) : Type 0 where
  pub from_zero : next 0 ≡ 0
  pub first :
      (t : ℕ)
      → 0 < t
      → ((next t ≡ 0) × ((s : ℕ) → scheduled s → s ≤ t))
        ⊎ (scheduled (next t) × (t < next t) × ((s : ℕ) → scheduled s → t < s → next t ≤ s))

module _ (scheduled : ℕ → Type 0) (c : Cron) (first : IsNext scheduled c.next) where
  -- A time that lies more than the duration after the zero time is limited exactly when it is in
  -- the window of the duration from some scheduled time on, its start included and its end not.
  pub is_limited_iff :
      (t : ℕ)
      → c.duration < t
      → (is_limited c t ≡ true) ↔ ((s : ℕ) × scheduled s × (s ≤ t) × (t < s + c.duration))
  unfolding is_limited
  is_limited_iff t late = go (first.first (t - c.duration) (omega arith))
    where
      go :
          ((c.next (t - c.duration) ≡ 0) × ((s : ℕ) → scheduled s → s ≤ t - c.duration))
            ⊎ (scheduled (c.next (t - c.duration))
                × (t - c.duration < c.next (t - c.duration))
                × ((s : ℕ) → scheduled s → t - c.duration < s → c.next (t - c.duration) ≤ s))
          → (within (c.next (t - c.duration)) t c.duration ≡ true)
            ↔ ((s : ℕ) × scheduled s × (s ≤ t) × (t < s + c.duration))
      go (inl (never, all)) = (
        λ h. absurd (ground (arith, h, never, late)),
        λ (s, on, before, after). let past = all s on in absurd (omega arith),
      )
      go (inr (on, after, least)) = (
        λ h. (c.next (t - c.duration), on, ground (arith, h), ground (arith, h)),
        λ (s, on', before', after'). let low = least s on' (omega arith) in ground arith,
      )
