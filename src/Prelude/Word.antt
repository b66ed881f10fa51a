-- ===== src/Prelude/Word.antt =====
-- Unsigned machine words: a w-bit value is a number below 2 ^ w.
use Prim.Native.Nat.{ℕ, ◌+◌, ◌-◌, ◌%◌, ◌^◌}

abbrev pub u16 : ℕ
u16 = 2 ^ 16

abbrev pub u32 : ℕ
u32 = 2 ^ 32

abbrev pub u64 : ℕ
u64 = 2 ^ 64

-- InterlockedIncrement and InterlockedDecrement on a 32-bit counter.
abbrev pub inc32 : ℕ → ℕ
inc32 a = (a + 1) % 2 ^ 32

abbrev pub dec32 : ℕ → ℕ
dec32 a = (a + (2 ^ 32 - 1)) % 2 ^ 32

abbrev pub inc64 : ℕ → ℕ
inc64 a = (a + 1) % 2 ^ 64
