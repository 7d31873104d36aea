-- ===== src/Prelude/Ints.antt =====
-- A signed 32-bit `int` as its bit pattern, a number below 2 ^ 32.
use Prim.Native.Nat.{ℕ, ◌+◌, ◌-◌, ◌%◌, ◌^◌}
use mathlib.Core.Bool.{Bool, ◌&&◌}
use mimuw_pw_tasks.Prelude.Tests.{ltb}

abbrev pub int_mod : ℕ
int_mod = 2 ^ 32

-- `x + y`
abbrev pub int_add : ℕ → ℕ → ℕ
int_add x y = (x + y) % int_mod

-- `x++`
abbrev pub increment : ℕ → ℕ
increment x = (x + 1) % int_mod

-- `x--`
abbrev pub decrement : ℕ → ℕ
decrement x = (x + int_mod - 1) % int_mod

-- `x > 0`: not zero, and the sign bit is clear
abbrev pub positive : ℕ → Bool
positive x = ltb 0 x && ltb x (2 ^ 31)
