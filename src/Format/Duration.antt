-- ===== src/Format/Duration.antt =====
-- What `formatDuration` (web/src/lib/utils.ts) prints.
use karadul.Base.{
  ℕ, ◌+◌, ◌*◌, ◌^◌, ◌≤◌, ◌<◌, ◌≡◌, ◌⊎◌, inl, inr, ◌++◌, arith, lt_or_le, Text, codes, show_number,
}
use karadul.Format.{show_tenths, format_duration}

-- `toFixed(1)` prints a nearest number of tenths. Up to 2 ^ 48 the quotient's rounding to a double does
-- not cross the middle between two of them.
pub record IsNearest (to_tenths : ℕ → ℕ → ℕ) : Type 0 where
  pub not_above : (a b : ℕ) → 0 < b → a < 2 ^ 48 → 2 * (b * to_tenths a b) ≤ 20 * a + b
  pub not_below : (a b : ℕ) → 0 < b → a < 2 ^ 48 → 20 * a ≤ 2 * (b * to_tenths a b) + b

-- The text is a number of tenths of the unit and the unit's letter; the tenths are within half a
-- tenth of the duration, and from 1.0 up to 60.0 in the units that have a next one.
abbrev pub ShowsTenths : Text → ℕ → ℕ → Text → Type 0
ShowsTenths shown ms unit letter =
    (t : ℕ) × (shown ≡ show_tenths t ++ letter)
    × (2 * (unit * t) ≤ 20 * ms + unit)
    × (20 * ms ≤ 2 * (unit * t) + unit)
    × (10 ≤ t)
    × ((t ≤ 600) ⊎ (60 * unit ≤ ms))

module _ (to_tenths : ℕ → ℕ → ℕ) (ms : ℕ) (near : IsNearest to_tenths) (safe : ms < 2 ^ 48) where
  shows_seconds :
      1000 ≤ ms → ms < 60000 → ShowsTenths (format_duration to_tenths ms) ms 1000 (codes "s")
  unfolding format_duration
  shows_seconds l u =
      let above = near.not_above ms 1000 (omega arith) safe in
      let below = near.not_below ms 1000 (omega arith) safe in
      (to_tenths ms 1000, ground arith, above, below, omega arith, inl (omega arith))

  shows_minutes :
      60000 ≤ ms → ms < 3600000 → ShowsTenths (format_duration to_tenths ms) ms 60000 (codes "m")
  unfolding format_duration
  shows_minutes l u =
      let above = near.not_above ms 60000 (omega arith) safe in
      let below = near.not_below ms 60000 (omega arith) safe in
      (to_tenths ms 60000, ground arith, above, below, omega arith, inl (omega arith))

  shows_hours : 3600000 ≤ ms → ShowsTenths (format_duration to_tenths ms) ms 3600000 (codes "h")
  unfolding format_duration
  shows_hours l =
      let above = near.not_above ms 3600000 (omega arith) safe in
      let below = near.not_below ms 3600000 (omega arith) safe in
      let most : (to_tenths ms 3600000 ≤ 600) ⊎ (60 * 3600000 ≤ ms) = elim (lt_or_le ms 216000000) [
        | inl l ↦ inl (omega arith)
        | inr l ↦ inr (omega arith)
      ] in
      (to_tenths ms 3600000, ground arith, above, below, omega arith, most)

  -- A duration below 2 ^ 48 ms is printed below a second in whole milliseconds, below a minute in
  -- tenths of seconds, below an hour in tenths of minutes and from there in tenths of hours. The
  -- tenths are within half a tenth of the duration, at least 1.0, and at most 60.0 where the duration
  -- is below sixty of the unit.
  pub format_duration_lem :
      let shown = format_duration to_tenths ms in
      ((ms < 1000) × (shown ≡ show_number ms ++ codes "ms"))
      ⊎ ((1000 ≤ ms) × (ms < 60000) × ShowsTenths shown ms 1000 (codes "s"))
      ⊎ ((60000 ≤ ms) × (ms < 3600000) × ShowsTenths shown ms 60000 (codes "m"))
      ⊎ ((3600000 ≤ ms) × ShowsTenths shown ms 3600000 (codes "h"))
  unfolding format_duration
  format_duration_lem = elim (lt_or_le ms 1000) [
    | inl l ↦ inl (l, ground arith)
    | inr m ↦ elim (lt_or_le ms 60000) [
      | inl l ↦ inr (inl (m, l, shows_seconds m l))
      | inr n ↦ elim (lt_or_le ms 3600000) [
        | inl l ↦ inr (inr (inl (n, l, shows_minutes n l)))
        | inr o ↦ inr (inr (inr (o, shows_hours o)))
      ]
    ]
  ]
