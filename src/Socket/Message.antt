-- ===== src/Socket/Message.antt =====
-- The messages of shared/mtr-socket.c as bytes on a stream.
use ngnfs_progs.Prelude.{
  ℕ, zero, suc, ◌+◌, ◌≤◌, ◌<◌, ◌≡◌, ◌⊎◌, ◌==◌, false, Option, none, some, List, [], ◌∷◌, ◌++◌,
  length, get_or, refl, ap, sym, ◌∙◌, arith, inl, inr,
}
use mathlib.Core.List.{append_assoc, append-nil, head-eq_of_cons-eq, tail-eq_of_cons-eq}
use ngnfs_progs.Prelude.Memory.{Mem, read_bytes, length-read_bytes}
use ngnfs_progs.Protocol.Desc.{MsgDesc}
use ngnfs_progs.Socket.Iovec.{Iovec, iov_append, range, places, IsFull}
use ngnfs_progs.Socket.Reads.{get_or-read_start}

pub append-cancel :
    (xs ys as_ bs : List ℕ) → length xs ≡ length ys → xs ++ as_ ≡ ys ++ bs → (xs ≡ ys) × (as_ ≡ bs)
append-cancel [] [] as_ bs e h = (refl, h)
append-cancel [] (y ∷ ys) as_ bs e h = absurd (omega (arith, e))
append-cancel (x ∷ xs) [] as_ bs e h = absurd (omega (arith, e))
append-cancel (x ∷ xs) (y ∷ ys) as_ bs e h =
    let (p, q) = append-cancel xs ys as_ bs (omega (arith, e)) (tail-eq_of_cons-eq h) in
    let first : x ≡ y = head-eq_of_cons-eq h in (cc, q)

-- A message that the header check lets through.
pub record IsMessage (d : MsgDesc Mem) : Type 0 where
  pub ctl_bound : d.ctl_size ≤ 255
  pub data_bound : d.data_size ≤ 4096
  pub some_bytes : 0 < d.ctl_size + d.data_size
  pub known : d.type < 4
  pub paged :
      ((d.data_size ≡ 0) × (d.data_page ≡ none)) ⊎ ((page : Mem) × (d.data_page ≡ some page))

abbrev pub page_byte : Option Mem → ℕ → ℕ
page_byte none i = 0
page_byte (some page) i = page i

-- What arrives of a message. The address is the sender's.
pub record IsCopy (d copy : MsgDesc Mem) : Type 0 where
  pub same_ctl : (i : ℕ) → i < d.ctl_size → copy.ctl_buf i ≡ d.ctl_buf i
  pub same_data : (i : ℕ) → i < d.data_size → page_byte copy.data_page i ≡ page_byte d.data_page i
  pub same_ctl_size : copy.ctl_size ≡ d.ctl_size
  pub same_data_size : copy.data_size ≡ d.data_size
  pub same_type : copy.type ≡ d.type

-- The vector with another buffer behind it.
pub places-iov_append :
    (iov : List Iovec) (buf len : ℕ)
    → places (iov_append iov buf len) ≡ places iov ++ range buf 0 len
places-iov_append iov buf zero = sym (append-nil (places iov))
places-iov_append [] buf (suc n) =
    let e : (suc n == 0) ≡ false = ground arith in rw e (append-nil (range buf 0 (suc n)))
places-iov_append (v ∷ iov) buf (suc n) =
    let e : (suc n == 0) ≡ false = ground arith in
    let rest : places (iov ++ (record { buf = buf; off = 0; len = suc n } ∷ []))
        ≡ places iov ++ range buf 0 (suc n) =
      rw e at (places-iov_append iov buf (suc n)) in
    rw e (
      ap (λ xs. range v.buf v.off v.len ++ xs) rest
      ∙ sym (append_assoc (range v.buf v.off v.len) (places iov) _))

pub IsFull-iov_append :
    (iov : List Iovec) (buf len : ℕ) → IsFull iov → IsFull (iov_append iov buf len)
IsFull-iov_append iov buf zero f = f
IsFull-iov_append [] buf (suc n) f =
    let e : (suc n == 0) ≡ false = ground arith in rw e (omega arith, tt)
IsFull-iov_append (v ∷ iov) buf (suc n) f =
    let e : (suc n == 0) ≡ false = ground arith in
    rw e (f.0, rw e at (IsFull-iov_append iov buf (suc n) f.1))

abbrev pub data_bytes : Option Mem → ℕ → List ℕ
data_bytes none n = []
data_bytes (some page) n = read_bytes page 0 n

-- The bytes of the control structure and of the data.
abbrev pub body_bytes : MsgDesc Mem → List ℕ
body_bytes d = read_bytes d.ctl_buf 0 d.ctl_size ++ data_bytes d.data_page d.data_size

pub length-data_bytes :
    (d : MsgDesc Mem) → IsMessage d → length (data_bytes d.data_page d.data_size) ≡ d.data_size
length-data_bytes d w = elim w.paged [
  | inl (z, e) ↦ rw (e, z) refl
  | inr (page, e) ↦ rw e (length-read_bytes page 0 d.data_size)
]

-- A byte of the data by its index.
pub get_or-data_bytes :
    (page : Option Mem) (n i : ℕ)
    → length (data_bytes page n) ≡ n
    → i < n
    → get_or (data_bytes page n) i 0 ≡ page_byte page i
get_or-data_bytes none n i e h = refl
get_or-data_bytes (some page) n i e h = get_or-read_start page n i h
