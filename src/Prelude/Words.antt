-- ===== src/Prelude/Words.antt =====
-- Machine-width unsigned integers: their bounds, and Rust's saturating operations. A subtraction
-- on ℕ stops at 0, which is `saturating_sub`.
use Prim.Native.Nat.{ℕ, ◌+◌, ◌-◌, ◌*◌, ◌^◌, min}
use mathlib.Core.List.{List}

abbrev pub Bytes : Type 0
Bytes = List ℕ

abbrev pub u32_max : ℕ
u32_max = 2 ^ 32 - 1

abbrev pub u64_max : ℕ
u64_max = 2 ^ 64 - 1

-- `usize` on a 64-bit target.
abbrev pub usize_modulus : ℕ
usize_modulus = 2 ^ 64

abbrev pub saturating_add : ℕ → ℕ → ℕ → ℕ
saturating_add bound a b = min (a + b) bound

abbrev pub saturating_mul : ℕ → ℕ → ℕ → ℕ
saturating_mul bound a b = min (a * b) bound
