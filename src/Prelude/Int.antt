-- ===== src/Prelude/Int.antt =====
-- Go's `int`, as an unbounded integer: what is modelled only compares these.
use Prim.Native.Nat.{ℕ, zero, suc}
use mathlib.Core.Bool.{Bool, true, false}
use nebari_infrastructure_co.Prelude.Tests.{ltb}

-- `negsuc n` is -(n + 1).
pub data ℤ : Type 0 where
  pos : ℕ → ℤ
  negsuc : ℕ → ℤ

-- 0 < n
abbrev pub is_positive : ℤ → Bool
is_positive (pos zero) = false
is_positive (pos (suc n)) = true
is_positive (negsuc n) = false

-- n < 0
abbrev pub is_negative : ℤ → Bool
is_negative (pos n) = false
is_negative (negsuc n) = true

-- a < b
abbrev pub int_lt : ℤ → ℤ → Bool
int_lt (pos a) (pos b) = ltb a b
int_lt (pos a) (negsuc b) = false
int_lt (negsuc a) (pos b) = true
int_lt (negsuc a) (negsuc b) = ltb b a
