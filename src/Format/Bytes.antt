-- ===== src/Format/Bytes.antt =====
-- What `formatBytes` (web/src/lib/utils.ts) prints.
use native.Mathlib.Nat.{one-le-pow, pow-succ', pow-le-pow_right}
use native.Mathlib.Decide.{dec_lt}
use karadul.Base.{
  ℕ, zero, suc, ◌+◌, ◌*◌, ◌/◌, ◌^◌, ◌≤◌, ◌<◌, ◌≡◌, refl, some, ◌++◌, arith, get_elem?, Text, codes,
}
use karadul.Format.{sizes, to_fixed, show_fixed, mantissa, format_bytes}

-- The quotient of the logarithms is rounded down to the right whole number on the sizes below 10 ^ 15. It
-- is not on all sizes: on the three before 2 ^ 50 the quotient of the doubles is 5 already.
pub record IsLog (log_ratio : ℕ → ℕ) : Type 0 where
  pub lower : (n : ℕ) → 0 < n → n < 10 ^ 15 → 1024 ^ log_ratio n ≤ n
  pub upper : (n : ℕ) → 0 < n → n < 10 ^ 15 → n < 1024 ^ suc (log_ratio n)

-- Division by a positive number, by its products.
pub div_bounds : (n m : ℕ) → 0 < m → (m * (n / m) ≤ n) × (n < m * (n / m) + m)
div_bounds n m h = (grind arith, grind arith)

to_fixed_near :
    (a b d : ℕ)
    → 0 < b
    → (2 * b * to_fixed a b d ≤ 2 * a * 10 ^ d + b) × (2 * a * 10 ^ d < 2 * b * to_fixed a b d + b)
to_fixed_near a b d h =
    let q = div_bounds (2 * a * 10 ^ d + b) (2 * b) (omega arith) in
    (omega (arith, q.0), omega (arith, q.1))

-- The smaller of two numbers, from a bound on their multiples that is off by half a unit.
le_of_mul_le : (b x y : ℕ) → 2 * b * x < 2 * b * y + 2 * b → x ≤ y
le_of_mul_le b x y h = elim (dec_lt y x) [
  | yes p ↦ let more : 2 * b * suc y ≤ 2 * b * x = grind arith in absurd (omega arith)
  | no p ↦ omega arith
]

mul_mono : (x y p : ℕ) → x ≤ y → x * p ≤ y * p
mul_mono x y p h = grind arith

rounded_bounds :
    (a b p n : ℕ)
    → 0 < b
    → b ≤ a
    → a < 1024 * b
    → 2 * b * n ≤ 2 * a * p + b
    → 2 * a * p < 2 * b * n + b
    → (p ≤ n) × (n ≤ 1024 * p)
rounded_bounds a b p n h l u q r =
    let low : b * p ≤ a * p = mul_mono b a p l in
    let high : a * p ≤ 1024 * b * p = mul_mono a (1024 * b) p (omega arith) in
    (le_of_mul_le b p n (omega arith), le_of_mul_le b n (1024 * p) (omega arith))

exponent-lt_five : (i n : ℕ) → 1024 ^ i ≤ n → n < 10 ^ 15 → i < 5
exponent-lt_five i n h l = elim (dec_lt i 5) [
  | yes p ↦ p
  | no p ↦
      let big : 1024 ^ 5 ≤ 1024 ^ i =
        pow-le-pow_right {n = 1024} (omega arith) {i = 5} {j = i} (omega arith) in
      absurd (omega arith)
]

size-of_lt_five : (i : ℕ) → i < 5 → (name : Text) × (get_elem? sizes i ≡ some name)
size-of_lt_five zero h = (codes "Bytes", refl)
size-of_lt_five (suc zero) h = (codes "KB", refl)
size-of_lt_five (suc (suc zero)) h = (codes "MB", refl)
size-of_lt_five (suc (suc (suc zero))) h = (codes "GB", refl)
size-of_lt_five (suc (suc (suc (suc zero)))) h = (codes "TB", refl)
size-of_lt_five (suc (suc (suc (suc (suc i))))) h = absurd (omega arith)

module _ (log_ratio : ℕ → ℕ) (bytes decimals : ℕ) where
  -- Where the logarithms are rounded down to the right whole number below 10 ^ 15, a positive size below
  -- 10 ^ 15 with at most 11 decimals, whose digits a double can tell apart, is printed as a number
  -- and a name of `sizes`, never `undefined`; the number, in units of its last decimal, is the size
  -- in the unit that the name stands for, rounded to the nearest, and lies between 1 and 1024.
  pub format_bytes_lem :
      IsLog log_ratio
      → 0 < bytes
      → bytes < 10 ^ 15
      → decimals ≤ 11
      → let unit = 1024 ^ log_ratio bytes in
        let m = mantissa log_ratio bytes decimals in
        (name : Text) × (get_elem? sizes (log_ratio bytes) ≡ some name)
        × (format_bytes log_ratio bytes decimals ≡ show_fixed decimals m ++ codes " " ++ name)
        × (2 * unit * m ≤ 2 * bytes * 10 ^ decimals + unit)
        × (2 * bytes * 10 ^ decimals < 2 * unit * m + unit)
        × (10 ^ decimals ≤ m)
        × (m ≤ 1024 * 10 ^ decimals)
  unfolding format_bytes
  format_bytes_lem log positive safe few =
      let i : ℕ = log_ratio bytes in
      let unit : ℕ = 1024 ^ i in
      let low : unit ≤ bytes = log.lower bytes positive safe in
      let high : bytes < 1024 * unit = rw (← pow-succ' 1024 i) (log.upper bytes positive safe) in
      let (name, known) = size-of_lt_five i (exponent-lt_five i bytes low safe) in
      let pos : 0 < unit = one-le-pow i 1024 (omega arith) in
      let near = to_fixed_near bytes unit decimals pos in
      let range = rounded_bounds bytes unit (10 ^ decimals) _ pos low high near.0 near.1 in
      (name, known, ground arith, near.0, near.1, range.0, range.1)
