-- ===== src/Prelude/Words.antt =====
-- The fixed-width integers of the C code: their ranges, and sums and differences that wrap.
use Prim.Native.Nat.{ℕ, ◌+◌, ◌-◌, ◌%◌, ◌^◌}

abbrev pub u8_max : ℕ
u8_max = 255

abbrev pub u16_mod : ℕ
u16_mod = 65536

abbrev pub u64_mod : ℕ
u64_mod = 2 ^ 64

-- `u16` sums and differences; le16_add_cpu of shared/lk/byteorder.h is one of these.
abbrev pub add16 : ℕ → ℕ → ℕ
add16 a b = (a + b) % u16_mod

abbrev pub sub16 : ℕ → ℕ → ℕ
sub16 a b = (a + u16_mod - b) % u16_mod
