-- ===== src/Api/Duration.antt =====
-- `toGoDuration` of web/src/lib/api.ts: the dashboard's expiry values as durations for the
-- coordinator.
use mathlib.Core.List.{append_assoc, append-nil}
use karadul.Base.{
  ◌≤◌, ◌^◌, ℕ, ◌*◌, ◌≡◌, refl, ap, ◌∙◌, Bool, true, ◌||◌, Option, none, some, [], ◌∷◌, ◌++◌, arith,
  ◌==◌, if◌then◌else◌, all, Text, codes, show_number, show_number-IsDigits, IsDigits, parse_int,
  is_digit, parse_int-show_number, show_number-IsDigits, IsDigits, show_number-IsDigits, IsDigits,
}

-- `val.match(/^(\d+)([…])$/)`: the digits and the unit.
abbrev match_from : Text → (ℕ → Bool) → Text → Option (Text × ℕ)
match_from digits is_unit [] = none
match_from digits is_unit (c ∷ []) = elim digits [
  | [] ↦ none
  | d ∷ ds ↦ if is_unit c then some (d ∷ ds, c) else none
]
match_from digits is_unit (c ∷ e ∷ s) =
    let rest = match_from (digits ++ c ∷ []) is_unit (e ∷ s) in if is_digit c then rest else none

abbrev pub match_duration : (ℕ → Bool) → Text → Option (Text × ℕ)
match_duration = match_from []

abbrev pub is_hdm : ℕ → Bool
is_hdm c = c == b'h' || (c == b'd' || c == b'm')

-- The text for a match, or the value itself.
go_text : Text → Option (Text × ℕ) → Text
go_text val none = val
go_text val (some (digits, unit)) =
    let n = parse_int digits in
    if unit == b'd'
    then show_number (n * 24) ++ codes "h"
    else if unit == b'm'
    then show_number n ++ codes "m"
    else show_number n ++ codes "h"

unfoldable pub to_go_duration : Text → Text
unfolding go_text
to_go_duration val = go_text val (match_duration is_hdm val)

-- The minutes of a duration as Go's `time.ParseDuration` reads a whole number of hours or minutes.
abbrev is_hm : ℕ → Bool
is_hm c = c == b'h' || c == b'm'

abbrev pub unit_minutes : ℕ → ℕ
unit_minutes c = if c == b'd' then 1440 else if c == b'h' then 60 else 1

abbrev minutes_of : Option (Text × ℕ) → Option ℕ
minutes_of none = none
minutes_of (some (digits, unit)) = some (parse_int digits * unit_minutes unit)

abbrev pub go_minutes : Text → Option ℕ
go_minutes val = minutes_of (match_duration is_hm val)

-- The digits are passed, one by one.
match_from-digits :
    (acc s : Text) (is_unit : ℕ → Bool) (c : ℕ)
    → all is_digit s ≡ true
    → match_from acc is_unit (s ++ c ∷ []) ≡ match_from (acc ++ s) is_unit (c ∷ [])
match_from-digits acc [] is_unit c h = rw append-nil
match_from-digits acc (d ∷ []) is_unit c h = ground arith
match_from-digits acc (d ∷ e ∷ s) is_unit c h =
    ground (
      arith,
      match_from-digits (acc ++ d ∷ []) (e ∷ s) is_unit c,
      append_assoc acc (d ∷ []) (e ∷ s),
    )

pub match_duration_lem :
    (s : Text) (is_unit : ℕ → Bool) (c : ℕ)
    → IsDigits s
    → is_unit c ≡ true
    → match_duration is_unit (s ++ c ∷ []) ≡ some (s, c)
match_duration_lem [] is_unit c h u = absurd (h.0 refl)
match_duration_lem (d ∷ s) is_unit c h u = match_from-digits [] (d ∷ s) is_unit c h.1 ∙ rw u

-- The minutes of a printed number of hours or minutes.
go_minutes-show_number :
    (n c : ℕ) → is_hm c ≡ true → go_minutes (show_number n ++ c ∷ []) ≡ some (n * unit_minutes c)
go_minutes-show_number n c h =
    ap minutes_of (match_duration_lem (show_number n) is_hm c (show_number-IsDigits n) h)
    ∙ rw (parse_int-show_number n)

-- A number of hours, days or minutes that JavaScript counts exactly becomes a text that Go reads as the same time, days as 24
-- hours, also where the number has leading zeros.
pub go_minutes-to_go_duration :
    (digits : Text) (unit : ℕ)
    → IsDigits digits
    → is_hdm unit ≡ true
    → parse_int digits * 24 ≤ 2 ^ 53
    → go_minutes (to_go_duration (digits ++ unit ∷ []))
      ≡ some (parse_int digits * unit_minutes unit)
unfolding to_go_duration
go_minutes-to_go_duration digits unit h u exact =
    let n : ℕ = parse_int digits in
    ap (λ (m : Option (Text × ℕ)). go_minutes (go_text (digits ++ unit ∷ []) m))
      (match_duration_lem digits is_hdm unit h u)
    ∙ ground (
      arith,
      go_minutes-show_number (n * 24) b'h' refl,
      go_minutes-show_number n b'h' refl,
      go_minutes-show_number n b'm' refl,
    )

-- A value of no such form is sent as it is.
pub to_go_duration-other :
    (val : Text) → match_duration is_hdm val ≡ none → to_go_duration val ≡ val
unfolding to_go_duration
to_go_duration-other val h = ap (go_text val) h
