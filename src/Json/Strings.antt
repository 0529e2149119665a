-- ===== src/Json/Strings.antt =====
-- The signs of a JSON text read back: quoted texts, numerals and the space between them (the parts of
-- `JSON.stringify`, as web/src/lib/api.ts and web/src/lib/export.ts call it).
use karadul.Base.{
  ℕ, zero, suc, ◌+◌, ◌*◌, ◌/◌, ◌%◌, ◌<◌, ◌≡◌, refl, ap, ◌∙◌, Bool, true, false, not, some, [], ◌∷◌,
  ◌++◌, arith, ◌==◌, all, Text, codes, show_number, parse_int, is_digit, parse_int-show_number,
  IsDigits, show_number-IsDigits, ℤ, pos, negsuc, show_integer,
}
use karadul.Json.{hex_digit, escape, escape_all, quoted, spaces, new_line, colon}
use karadul.Json.Reader.{
  skip_space, plain, hex_value, onto, scan, take_digits, read_number, numeral, start_of, sign_of,
  neither, read_name,
}

hex_value-hex_digit : (d : ℕ) → d < 16 → hex_value (hex_digit d) ≡ d
hex_value-hex_digit d h = ground arith

-- The six units of a control sign.
scan-control :
    (c : ℕ) (s : Text)
    → c < 32
    → scan plain (codes "\\u00" ++ hex_digit (c / 16) ∷ hex_digit (c % 16) ∷ s)
      ≡ onto c (scan plain s)
scan-control c s h =
    let high = hex_value-hex_digit (c / 16) (omega arith) in
    let low = hex_value-hex_digit (c % 16) (omega arith) in
    let whole : 16 * hex_value (hex_digit (c / 16)) + hex_value (hex_digit (c % 16)) ≡ c =
      omega arith in
    ap (λ (u : ℕ). onto u (scan plain s)) (omega (arith, whole))

scan-escape : (c : ℕ) (s : Text) → scan plain (escape c ++ s) ≡ onto c (scan plain s)
scan-escape c s = ground (arith, scan-control c s)

pub scan-escape_all : (s rest : Text) → scan plain (escape_all s (b'"' ∷ rest)) ≡ some (s, rest)
scan-escape_all [] rest = refl
scan-escape_all (c ∷ s) rest =
    scan-escape c (escape_all s (b'"' ∷ rest)) ∙ ap (onto c) (scan-escape_all s rest)

-- What follows a numeral does not go on with a digit.
abbrev pub no_digit : Text → Bool
no_digit [] = true
no_digit (c ∷ s) = not (is_digit c)

take_digits-none : (rest : Text) → no_digit rest ≡ true → take_digits rest ≡ ([], rest)
take_digits-none [] h = refl
take_digits-none (c ∷ s) h = ground arith

take_digits-append :
    (digits rest : Text)
    → all is_digit digits ≡ true
    → no_digit rest ≡ true
    → take_digits (digits ++ rest) ≡ (digits, rest)
take_digits-append [] rest a h = take_digits-none rest h
take_digits-append (c ∷ digits) rest a h =
    let later = take_digits-append digits rest (ground arith) h in ground arith

skip_space-spaces : (n : ℕ) (s : Text) → skip_space (spaces n s) ≡ skip_space s
skip_space-spaces zero s = refl
skip_space-spaces (suc n) s = skip_space-spaces n s

pub skip_space-new_line :
    (gap level : ℕ) (s : Text) → skip_space (new_line gap level s) ≡ skip_space s
skip_space-new_line zero level s = refl
skip_space-new_line (suc gap) level s = skip_space-spaces (suc gap * level) s

read_number-digits :
    (digits rest : Text)
    → IsDigits digits
    → no_digit rest ≡ true
    → read_number (digits ++ rest) ≡ (pos (parse_int digits), rest)
read_number-digits [] rest d h = absurd (d.0 refl)
read_number-digits (c ∷ s) rest d h =
    let taken = take_digits-append (c ∷ s) rest d.1 h in
    let digit : (c == b'-') ≡ false = ground (arith, d.1) in rw (digit, taken) refl

pub read_number-show_integer :
    (n : ℤ) (rest : Text) → no_digit rest ≡ true → read_number (show_integer n ++ rest) ≡ (n, rest)
read_number-show_integer (pos n) rest h =
    read_number-digits (show_number n) rest (show_number-IsDigits n) h
    ∙ rw (parse_int-show_number n) refl
read_number-show_integer (negsuc n) rest h =
    rw
      (
        take_digits-append (show_number (suc n)) rest (show_number-IsDigits (suc n)).1 h,
        parse_int-show_number (suc n),
      )
      refl

start_of-digits :
    (digits rest : Text)
    → IsDigits digits
    → start_of (skip_space (digits ++ rest)) ≡ numeral (digits ++ rest)
start_of-digits [] rest d = absurd (d.0 refl)
start_of-digits (c ∷ s) rest d = ground (arith, d.1)

pub start_of-show_integer :
    (n : ℤ) (rest : Text)
    → start_of (skip_space (show_integer n ++ rest)) ≡ numeral (show_integer n ++ rest)
start_of-show_integer (pos n) rest = start_of-digits (show_number n) rest (show_number-IsDigits n)
start_of-show_integer (negsuc n) rest = refl

sign_of-digits :
    (digits rest : Text) → IsDigits digits → sign_of b']' (skip_space (digits ++ rest)) ≡ neither
sign_of-digits [] rest d = absurd (d.0 refl)
sign_of-digits (c ∷ s) rest d = ground (arith, d.1)

pub sign_of-show_integer :
    (n : ℤ) (rest : Text) → sign_of b']' (skip_space (show_integer n ++ rest)) ≡ neither
sign_of-show_integer (pos n) rest = sign_of-digits (show_number n) rest (show_number-IsDigits n)
sign_of-show_integer (negsuc n) rest = refl

-- What stands after a colon.
abbrev pub indented : ℕ → Text → Text
indented zero rest = rest
indented (suc gap) rest = 32 ∷ rest

pub read_name-quoted :
    (gap : ℕ) (name rest : Text)
    → read_name (quoted name (colon gap rest)) ≡ some (name, indented gap rest)
read_name-quoted zero name rest = rw (read_name, scan-escape_all name (b':' ∷ rest)) refl
read_name-quoted (suc gap) name rest = rw (read_name, scan-escape_all name (b':' ∷ 32 ∷ rest)) refl

pub skip_space-indented : (gap : ℕ) (s : Text) → skip_space (indented gap s) ≡ skip_space s
skip_space-indented zero s = refl
skip_space-indented (suc gap) s = refl
