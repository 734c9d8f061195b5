-- ===== src/Prelude/Int.antt =====
-- Go's `int` where the code compares it with 0 or orders by it.
use Prim.Native.Nat.{ℕ}
use mathlib.Core.Bool.{Bool, true, false}
use encode_system.Prelude.Tests.{ltb, ◌==◌}

-- `negsuc n` is -(n + 1).
pub data ℤ : Type 0 where
  pos : ℕ → ℤ
  negsuc : ℕ → ℤ

-- a < b
abbrev pub ltbℤ : ℤ → ℤ → Bool
ltbℤ (pos a) (pos b) = ltb a b
ltbℤ (pos a) (negsuc b) = false
ltbℤ (negsuc a) (pos b) = true
ltbℤ (negsuc a) (negsuc b) = ltb b a

abbrev pub eqbℤ : ℤ → ℤ → Bool
eqbℤ (pos a) (pos b) = a == b
eqbℤ (negsuc a) (negsuc b) = a == b
eqbℤ _ _ = false
