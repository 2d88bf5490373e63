-- ===== src/Prelude/Int.antt =====
-- Go's `int` where a value may be negative: signed integers over the native numbers.
use Prim.Native.Nat.{ℕ, suc, ◌+◌, ◌-◌, ◌*◌}
use mathlib.Core.Bool.{Bool, true, false}
use dockward.Prelude.Tests.{ltb, leb}

-- `negsuc n` is -(n + 1).
pub data ℤ : Type 0 where
  pos : ℕ → ℤ
  negsuc : ℕ → ℤ

-- `a < b` and `a <= b`.
abbrev pub ltb_ℤ : ℤ → ℤ → Bool
ltb_ℤ (pos a) (pos b) = ltb a b
ltb_ℤ (pos a) (negsuc b) = false
ltb_ℤ (negsuc a) (pos b) = true
ltb_ℤ (negsuc a) (negsuc b) = ltb b a

abbrev pub leb_ℤ : ℤ → ℤ → Bool
leb_ℤ (pos a) (pos b) = leb a b
leb_ℤ (pos a) (negsuc b) = false
leb_ℤ (negsuc a) (pos b) = true
leb_ℤ (negsuc a) (negsuc b) = leb b a

-- Times are counted in nanoseconds since some epoch before all of them, as `time.Duration` is.
abbrev pub second : ℕ
second = 1000000000

-- `t.Add(time.Duration(n) * time.Second)`
abbrev pub add_seconds : ℕ → ℤ → ℕ
add_seconds t (pos n) = t + n * second
add_seconds t (negsuc n) = t - (suc n) * second
