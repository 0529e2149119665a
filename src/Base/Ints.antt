-- ===== src/Base/Ints.antt =====
-- Integers over the native numbers, as far as the dashboard's forms need them.
use Prim.Native.Nat.{ℕ, zero, suc}
use mathlib.Core.List.{◌++◌}
use karadul.Base.Texts.{Text, codes, show_number}

-- `negsuc n` is -(n + 1).
pub data ℤ : Type 0 where
  pos : ℕ → ℤ
  negsuc : ℕ → ℤ

abbrev pub negate : ℕ → ℤ
negate zero = pos 0
negate (suc n) = negsuc n

-- `String(n)`
abbrev pub show_integer : ℤ → Text
show_integer (pos n) = show_number n
show_integer (negsuc n) = codes "-" ++ show_number (suc n)
