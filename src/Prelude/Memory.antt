-- ===== src/Prelude/Memory.antt =====
-- The bytes of a 4 KB block by their offset, and the loads, stores and copies of the C code.
use Prim.Native.Nat.{ℕ, zero, suc, ◌+◌, ◌-◌, ◌*◌, ◌/◌, ◌%◌, ◌<◌}
use mathlib.Core.Path.{◌≡◌, refl, ap₂}
use mathlib.Core.Bool.{◌&&◌}
use mathlib.Core.List.{List, [], ◌∷◌}
use native.Mathlib.Omega.{arith}
use ngnfs_progs.Prelude.Tests.{ltb, leb, ◌==◌, if◌then◌else◌}
use ngnfs_progs.Prelude.Lists.{length, get_or}

abbrev pub Mem : Type 0
Mem = ℕ → ℕ

abbrev pub load8 : Mem → ℕ → ℕ
load8 m a = m a

-- Little endian.
abbrev pub load16 : Mem → ℕ → ℕ
load16 m a = m a + 256 * m (a + 1)

unfoldable pub store8 : Mem → ℕ → ℕ → Mem
store8 m a v b = if b == a then v % 256 else m b

unfoldable pub store16 : Mem → ℕ → ℕ → Mem
store16 m a v b = if b == a then v % 256 else if b == a + 1 then v / 256 % 256 else m b

-- The `n` bytes at `a`.
unfoldable pub read_bytes : Mem → ℕ → ℕ → List ℕ
read_bytes m a zero = []
read_bytes m a (suc n) = m a ∷ read_bytes m (a + 1) n

-- memcpy from a buffer of the caller.
unfoldable pub write_bytes : Mem → ℕ → List ℕ → Mem
write_bytes m a bs b = if leb a b && ltb b (a + length bs) then get_or bs (b - a) 0 else m b

-- memmove within the block: the source is read before anything is written.
unfoldable pub memmove : Mem → ℕ → ℕ → ℕ → Mem
memmove m dst src n b = if leb dst b && ltb b (dst + n) then m (src + (b - dst)) else m b

pub read_bytes-ext :
    (m m' : Mem) (a a' n : ℕ)
    → ((i : ℕ) → i < n → m (a + i) ≡ m' (a' + i))
    → read_bytes m a n ≡ read_bytes m' a' n
unfolding read_bytes
read_bytes-ext m m' a a' zero h = refl
read_bytes-ext m m' a a' (suc n) h = ap₂ ◌∷◌ first (read_bytes-ext m m' (a + 1) (a' + 1) n shift)
  where
    first : m a ≡ m' a'
    first = ground (arith, h 0)

    shift : (i : ℕ) → i < n → m (a + 1 + i) ≡ m' (a' + 1 + i)
    shift i p = ground (arith, h (suc i))

pub length-read_bytes : (m : Mem) (a n : ℕ) → length (read_bytes m a n) ≡ n
unfolding read_bytes
length-read_bytes m a zero = refl
length-read_bytes m a (suc n) = omega (arith, length-read_bytes m (a + 1) n)

-- The bytes of a list at an address.
pub read_bytes-of_list :
    (m : Mem) (a : ℕ) (bs : List ℕ)
    → ((i : ℕ) → i < length bs → m (a + i) ≡ get_or bs i 0)
    → read_bytes m a (length bs) ≡ bs
unfolding read_bytes
read_bytes-of_list m a [] h = refl
read_bytes-of_list m a (x ∷ bs) h = ap₂ ◌∷◌ first (read_bytes-of_list m (a + 1) bs shift)
  where
    first : m a ≡ x
    first = ground (arith, h 0)

    shift : (i : ℕ) → i < length bs → m (a + 1 + i) ≡ get_or bs i 0
    shift i p = ground (arith, h (suc i))
