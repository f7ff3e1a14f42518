-- ===== src/Protocol/Desc.antt =====
-- struct ngnfs_msg_desc of shared/msg.h, and the control structures of shared/format-msg.h in the
-- bytes of a message's control buffer.
use ngnfs_progs.Prelude.{
  ℕ, zero, suc, ◌+◌, ◌*◌, ◌/◌, ◌%◌, ◌^◌, ◌<◌, ◌≡◌, ◌==◌, if◌then◌else◌, Option, refl, arith,
}
use ngnfs_progs.Prelude.Memory.{Mem}

-- An address is a number that stands for the bytes of a sockaddr_in.
pub record MsgDesc (Page : Type 0) : Type 0 where
  pub addr : ℕ
  pub ctl_buf : Mem
  pub data_page : Option Page
  pub data_size : ℕ
  pub ctl_size : ℕ
  pub type : ℕ

-- Sizes of the control structures.
abbrev pub get_block_size : ℕ
get_block_size = 16

abbrev pub get_block_result_size : ℕ
get_block_result_size = 16

abbrev pub write_block_size : ℕ
write_block_size = 8

abbrev pub write_block_result_size : ℕ
write_block_result_size = 16

abbrev pub access_read : ℕ
access_read = 0

abbrev pub access_write : ℕ
access_write = 1

abbrev pub access_unknown : ℕ
access_unknown = 2

-- The `n` little-endian bytes of a number, from the address `a` on.
unfoldable pub store_le : ℕ → Mem → ℕ → ℕ → Mem
store_le zero m a v = m
store_le (suc n) m a v = store_le n (λ b. if b == a then v % 256 else m b) (a + 1) (v / 256)

unfoldable pub load_le : ℕ → Mem → ℕ → ℕ
load_le zero m a = 0
load_le (suc n) m a = m a + 256 * load_le n m (a + 1)

-- All structures start with the block number, and have one or two bytes behind it.
abbrev pub load_bnr : Mem → ℕ
load_bnr m = load_le 8 m 0

abbrev pub store_bnr : Mem → ℕ → Mem
store_bnr m bnr = store_le 8 m 0 bnr

abbrev pub store_byte : Mem → ℕ → ℕ → Mem
store_byte m a v b = if b == a then v % 256 else m b

pub store_le-outside : (n : ℕ) (m : Mem) (a v b : ℕ) → b < a → store_le n m a v b ≡ m b
unfolding store_le
store_le-outside zero m a v b h = refl
store_le-outside (suc n) m a v b h =
    ground (arith, store_le-outside n (λ c. if c == a then v % 256 else m c) (a + 1) (v / 256) b, h)

pub load_le-store_le :
    (n : ℕ) (m : Mem) (a v : ℕ) → v < 256 ^ n → load_le n (store_le n m a v) a ≡ v
unfolding load_le store_le
load_le-store_le zero m a v h = omega (arith, h)
load_le-store_le (suc n) m a v h =
    let next : Mem = λ c. if c == a then v % 256 else m c in
    let power : 256 ^ suc n ≡ 256 * 256 ^ n = omega arith in
    let small : v / 256 < 256 ^ n = omega (arith, h, power) in
    let first : store_le n next (a + 1) (v / 256) a ≡ v % 256 =
      ground (arith, store_le-outside n next (a + 1) (v / 256) a) in
    rw (first, load_le-store_le n next (a + 1) (v / 256) small) (omega arith)
