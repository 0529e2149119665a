-- ===== src/Base/Texts.antt =====
-- JavaScript strings as lists of UTF-16 code units, and the string methods that the dashboard calls.
use Prim.Native.Nat.{ℕ, zero, suc, ◌+◌, ◌-◌, ◌*◌, ◌/◌, ◌%◌, ◌<◌}
use Prim.Native.Char.{code}
use Prim.Native.String.{String}
use mathlib.Core.Path.{◌≡◌, refl}
use mathlib.Core.Logic.{◌≢◌, ◌↔◌, inl, inr}
use mathlib.Core.Bool.{Bool, true, false, ◌&&◌, ◌||◌}
use mathlib.Core.List.{List, [], ◌∷◌, ◌++◌, map, foldl}
use native.Mathlib.Omega.{arith}
use karadul.Base.Lists.{all, all-append}
use karadul.Base.Tests.{ltb, leb, ◌==◌, if◌then◌else◌, Bool-cases}

abbrev pub Text : Type 0
Text = List ℕ

-- A literal: the code units of a text without surrogates.
abbrev pub codes : String → Text
codes String.[] = []
codes (String.◌∷◌ c s) = code c ∷ codes s

-- `a === b` on strings
abbrev pub text_eq : Text → Text → Bool
text_eq [] [] = true
text_eq [] (y ∷ ys) = false
text_eq (x ∷ xs) [] = false
text_eq (x ∷ xs) (y ∷ ys) = x == y && text_eq xs ys

pub text_eq_refl : (s : Text) → text_eq s s ≡ true
text_eq_refl [] = refl
text_eq_refl (x ∷ s) = ground (arith, text_eq_refl s)

pub eq_of_text_eq : (s t : Text) → text_eq s t ≡ true → s ≡ t
eq_of_text_eq [] [] h = refl
eq_of_text_eq [] (y ∷ t) h = cc
eq_of_text_eq (x ∷ s) [] h = cc
eq_of_text_eq (x ∷ s) (y ∷ t) h = ground (arith, eq_of_text_eq s t)

pub text_eq_iff : (s t : Text) → (text_eq s t ≡ true) ↔ (s ≡ t)
text_eq_iff s t = (eq_of_text_eq s t, λ e. rw e (text_eq_refl t))

-- `s.startsWith(prefix)`
abbrev pub starts_with : Text → Text → Bool
starts_with s [] = true
starts_with [] (y ∷ ys) = false
starts_with (x ∷ xs) (y ∷ ys) = x == y && starts_with xs ys

-- `s.includes(part)`
abbrev pub includes : Text → Text → Bool
includes [] part = starts_with [] part
includes (x ∷ xs) part = starts_with (x ∷ xs) part || includes xs part

pub includes-empty : (s : Text) → includes s [] ≡ true
includes-empty [] = refl
includes-empty (x ∷ s) = refl

-- `s.toLowerCase()` on ASCII
abbrev pub lower_unit : ℕ → ℕ
lower_unit c = if leb b'A' c && leb c b'Z' then c + 32 else c

abbrev pub to_lower_case : Text → Text
to_lower_case = map lower_unit

-- `xs.join(sep)`
abbrev pub join : Text → List Text → Text
join sep [] = []
join sep (x ∷ []) = x
join sep (x ∷ y ∷ xs) = x ++ (sep ++ join sep (y ∷ xs))

-- `s.includes(c)` for one code unit
abbrev pub has_unit : ℕ → Text → Bool
has_unit c [] = false
has_unit c (x ∷ s) = x == c || has_unit c s

pub has_unit-append : (c : ℕ) (s t : Text) → has_unit c (s ++ t) ≡ (has_unit c s || has_unit c t)
has_unit-append c [] t = refl
has_unit-append c (x ∷ s) t = ground (arith, has_unit-append c s t)

-- Decimal numerals, as `String(n)` and `${n}` print a safe integer. The fuel n + 1 is enough.
show_from : ℕ → ℕ → Text
show_from zero n = []
show_from (suc f) n =
    let front = show_from f (n / 10) in
    if ltb n 10 then (48 + n) ∷ [] else front ++ (48 + n % 10) ∷ []

unfoldable pub show_number : ℕ → Text
unfolding show_from
show_number n = show_from (suc n) n

-- `parseInt(s, 10)` on a text of digits
abbrev pub read_digit : ℕ → ℕ → ℕ
read_digit acc c = acc * 10 + (c - 48)

abbrev pub parse_int : Text → ℕ
parse_int = foldl read_digit 0

abbrev pub is_digit : ℕ → Bool
is_digit c = leb 48 c && leb c 57

foldl-read_digit_append :
    (acc : ℕ) (s : Text) (c : ℕ)
    → foldl read_digit acc (s ++ c ∷ []) ≡ read_digit (foldl read_digit acc s) c
foldl-read_digit_append acc [] c = refl
foldl-read_digit_append acc (x ∷ s) c = foldl-read_digit_append (read_digit acc x) s c

parse_int-show_from : (f n : ℕ) → n < f → parse_int (show_from f n) ≡ n
unfolding show_from
parse_int-show_from zero n h = absurd (omega arith)
parse_int-show_from (suc f) n h = elim (Bool-cases (ltb n 10)) [
  | inl small ↦ rw small (ground arith)
  | inr big ↦ rw big (
      ground (
        arith,
        foldl-read_digit_append 0 (show_from f (n / 10)) (48 + n % 10),
        parse_int-show_from f (n / 10) (ground arith),
      ))
]

-- Printing and reading a number gives it back.
pub parse_int-show_number : (n : ℕ) → parse_int (show_number n) ≡ n
unfolding show_number
parse_int-show_number n = parse_int-show_from (suc n) n (omega arith)

has_unit-show_from : (f n c : ℕ) → c < 48 → has_unit c (show_from f n) ≡ false
unfolding show_from
has_unit-show_from zero n c h = refl
has_unit-show_from (suc f) n c h = ground (
  arith,
  has_unit-append c (show_from f (n / 10)) ((48 + n % 10) ∷ []),
  has_unit-show_from f (n / 10) c h,
)

-- A numeral has no unit below the digits.
pub has_unit-show_number : (n c : ℕ) → c < 48 → has_unit c (show_number n) ≡ false
unfolding show_number
has_unit-show_number n c h = has_unit-show_from (suc n) n c h

-- A text of digits, at least one.
abbrev pub IsDigits : Text → Type 0
IsDigits s = (s ≢ []) × (all is_digit s ≡ true)

last-ne_nil : (s : Text) (c : ℕ) → s ++ c ∷ [] ≢ []
last-ne_nil [] c e = cc
last-ne_nil (x ∷ s) c e = cc

all-is_digit-show_from : (f n : ℕ) → all is_digit (show_from f n) ≡ true
unfolding show_from
all-is_digit-show_from zero n = refl
all-is_digit-show_from (suc f) n = ground (
  arith,
  all-append is_digit (show_from f (n / 10)) ((48 + n % 10) ∷ []),
  all-is_digit-show_from f (n / 10),
)

pub show_number-IsDigits : (n : ℕ) → IsDigits (show_number n)
unfolding show_number
show_number-IsDigits n = (
  ground (arith, last-ne_nil (show_from n (n / 10)) (48 + n % 10)),
  all-is_digit-show_from (suc n) n,
)
