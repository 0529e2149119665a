-- ===== src/Format.antt =====
-- web/src/lib/utils.ts: sizes and durations as texts. Sizes are whole numbers of bytes below 2 ^ 53
-- and durations whole numbers of milliseconds, which JavaScript represents exactly. A size is printed
-- with at most 11 decimals: its unit is a power of two, so the quotient is exact, and the four digits
-- before the point and 11 after it are as many as a double tells apart. The dashboard asks for two.
pub mod Bytes
pub mod Duration
use karadul.Base.{
  ℕ, zero, suc, ◌+◌, ◌*◌, ◌/◌, ◌%◌, ◌^◌, none, some, List, [], ◌∷◌, ◌++◌, ltb, ◌==◌, if◌then◌else◌,
  get_elem?, drop, Text, codes, show_number,
}

abbrev pub sizes : List Text
sizes =
    codes "Bytes"
    ∷ codes "KB"
    ∷ codes "MB"
    ∷ codes "GB"
    ∷ codes "TB"
    ∷ codes "PB"
    ∷ codes "EB"
    ∷ codes "ZB"
    ∷ codes "YB"
    ∷ []

-- `${sizes[i]}`: an index past the end reads as `undefined`.
abbrev pub size_name : ℕ → Text
size_name i = elim (get_elem? sizes i) [ none ↦ codes "undefined" | some name ↦ name ]

-- `(a / b).toFixed(d)` of an exact quotient, in units of the last decimal: the nearest whole number,
-- the larger of two. `toFixed` throws where d is above 100.
abbrev pub to_fixed : ℕ → ℕ → ℕ → ℕ
to_fixed a b d = (2 * a * 10 ^ d + b) / (2 * b)

-- The last zeros among d decimals go, as `parseFloat` and the number's own text drop them.
strip_zeros : ℕ → ℕ → ℕ × ℕ
strip_zeros zero n = (zero, n)
strip_zeros (suc d) n =
    let shorter = strip_zeros d (n / 10) in if n % 10 == 0 then shorter else (suc d, n)

-- d digits, the number's last.
abbrev last_digits : ℕ → ℕ → Text
last_digits zero n = []
last_digits (suc d) n = last_digits d (n / 10) ++ (48 + n % 10) ∷ []

show_decimals : ℕ → ℕ → Text
show_decimals zero n = show_number n
show_decimals (suc d) n = show_number (n / 10 ^ suc d) ++ codes "." ++ last_digits (suc d) n

-- The text of n / 10 ^ d.
unfoldable pub show_fixed : ℕ → ℕ → Text
unfolding strip_zeros show_decimals
show_fixed d n = let (d', n') = strip_zeros d n in show_decimals d' n'

-- `log_ratio n` is `Math.floor(Math.log(n) / Math.log(1024))`.
module _ (log_ratio : ℕ → ℕ) where
  -- The number that is printed before the unit, in units of its last decimal.
  unfoldable pub mantissa : ℕ → ℕ → ℕ
  mantissa bytes decimals = to_fixed bytes (1024 ^ log_ratio bytes) decimals

  -- `formatBytes(bytes, decimals)`
  unfoldable pub format_bytes : ℕ → ℕ → Text
  unfolding mantissa show_fixed
  format_bytes bytes decimals =
      if bytes == 0
      then codes "0 Bytes"
      else show_fixed decimals (mantissa bytes decimals) ++ codes " " ++ size_name (log_ratio bytes)

-- The text of t / 10 with its one decimal.
unfoldable pub show_tenths : ℕ → Text
show_tenths t = show_number (t / 10) ++ codes "." ++ (48 + t % 10) ∷ []

-- `to_tenths a b` is the number of tenths that `(a / b).toFixed(1)` prints, where `a / b` is the
-- nearest double.
module _ (to_tenths : ℕ → ℕ → ℕ) where
  -- `formatDuration(ms)`
  unfoldable pub format_duration : ℕ → Text
  unfolding show_tenths
  format_duration ms =
      if ltb ms 1000
      then show_number ms ++ codes "ms"
      else if ltb ms 60000
      then show_tenths (to_tenths ms 1000) ++ codes "s"
      else if ltb ms 3600000
      then show_tenths (to_tenths ms 60000) ++ codes "m"
      else show_tenths (to_tenths ms 3600000) ++ codes "h"

-- `formatDate(date)`, where `new_date` is `new Date(date)` and `to_locale_string` prints it for the locale.
module _ (D : Type 0) (new_date : Text → D) (to_locale_string : D → Text) where
  pub format_date : Text → Text
  format_date date = to_locale_string (new_date date)

-- `cn(...inputs)`, where `clsx` joins class values and `tw_merge` resolves conflicting classes.
module _ (C : Type 0) (clsx : List C → Text) (tw_merge : Text → Text) where
  pub cn : List C → Text
  cn inputs = tw_merge (clsx inputs)
