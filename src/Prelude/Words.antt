-- ===== src/Prelude/Words.antt =====
-- Unsigned machine words: `u64` arithmetic wraps, and a `u32` shift takes its count modulo 32.
use hyperiondb.Prelude.{ℕ, ◌+◌, ◌/◌, ◌%◌, ◌^◌, Bool, ◌==◌}

abbrev pub u64_mod : ℕ
u64_mod = 2 ^ 64

-- `a + b` on `u64`
abbrev pub add64 : ℕ → ℕ → ℕ
add64 a b = (a + b) % u64_mod

-- `1u32 << n`
abbrev pub one_shl : ℕ → ℕ
one_shl n = 2 ^ (n % 32)

-- `(mask >> i) & 1 == 1`
unfoldable pub has_bit : ℕ → ℕ → Bool
has_bit mask i = mask / 2 ^ (i % 32) % 2 == 1
