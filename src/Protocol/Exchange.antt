-- ===== src/Protocol/Exchange.antt =====
-- A request of shared/btr-msg.c, its handling by devd/recv.c and the handling of the answer: the
-- block's completion is the one that the daemon's cache gave.
use ngnfs_progs.Prelude.{
  ℕ, zero, suc, ◌+◌, ◌%◌, ◌^◌, ◌<◌, ◌≡◌, ◌==◌, ◌||◌, not, leb, false, Option, some, none, refl, ap,
  ◌∙◌, arith,
}
use ngnfs_progs.Prelude.Errno.{
  Ret, ok, err, Errno, einval, enoent, eexist, enomem, eio, eproto, eopnotsupp, enotconn, eshutdown,
}
use ngnfs_progs.Prelude.Memory.{Mem}
use ngnfs_progs.Prelude.Run.{Run, done, ◌>>=◌}
use ngnfs_progs.Msg.Wire.{err_ok, ngnfs_msg_err, received, msg_errno-msg_err}
use ngnfs_progs.Txn.State.{BlockOrErr, block, err_ptr, nbf_read}
use ngnfs_progs.Protocol.Desc.{
  MsgDesc, get_block_size, access_unknown, load_bnr, store_bnr, load_le, load_le-store_le,
}
use ngnfs_progs.Protocol.Client.{get_request, bad_get_result, ngnfs_btr_msg_get_block_result}
use ngnfs_progs.Protocol.Server.{DevdOps, status, pointer, get_result, devd_get_block}

-- What arrives of a message: its control bytes, sizes, type and page. The address is the sender's.
pub record Delivered {Page : Type 0} (sent got : MsgDesc Page) : Type 0 where
  pub same_ctl : (i : ℕ) → i < sent.ctl_size → got.ctl_buf i ≡ sent.ctl_buf i
  pub same_page : got.data_page ≡ sent.data_page
  pub same_data_size : got.data_size ≡ sent.data_size
  pub same_ctl_size : got.ctl_size ≡ sent.ctl_size
  pub same_type : got.type ≡ sent.type

load_le-ext :
    (n : ℕ) (m m' : Mem) (a : ℕ)
    → ((i : ℕ) → i < a + n → m i ≡ m' i)
    → load_le n m a ≡ load_le n m' a
unfolding load_le
load_le-ext zero m m' a h = refl
load_le-ext (suc n) m m' a h =
    let rest = load_le-ext n m m' (a + 1) (λ i p. h i (omega (arith, p))) in
    ground (arith, h a, rest)

load_bnr-ext : (m m' : Mem) → ((i : ℕ) → i < 8 → m i ≡ m' i) → load_bnr m ≡ load_bnr m'
load_bnr-ext m m' h = load_le-ext 8 m m' 0 h

-- The block number of a structure that holds it.
pub load_bnr-stored :
    (m stack : Mem) (bnr : ℕ)
    → bnr < 256 ^ 8
    → ((i : ℕ) → i < 8 → m i ≡ store_bnr stack bnr i)
    → load_bnr m ≡ bnr
load_bnr-stored m stack bnr small h =
    load_bnr-ext m (store_bnr stack bnr) h ∙ load_le-store_le 8 stack 0 bnr small

-- The byte of an error is the error.
pub msg_err-byte : (r : Ret) → ngnfs_msg_err r % 256 ≡ ngnfs_msg_err r
msg_err-byte r = omega (arith, (msg_errno-msg_err r 0).1)

msg_err-nonzero : (e : Errno) → (ngnfs_msg_err (err e) == err_ok) ≡ false
unfolding ngnfs_msg_err
msg_err-nonzero einval = refl
msg_err-nonzero enomem = refl
msg_err-nonzero eio = refl
msg_err-nonzero enoent = refl
msg_err-nonzero eexist = refl
msg_err-nonzero eproto = refl
msg_err-nonzero eopnotsupp = refl
msg_err-nonzero enotconn = refl
msg_err-nonzero eshutdown = refl

module _ {S Page : Type 0} (ops : DevdOps S Page) (stack2 : Mem) (req : MsgDesc Page) where
  -- The message that answers the request for a block.
  abbrev pub get_answer : ℕ → S → MsgDesc Page
  get_answer n s =
      get_result ops stack2 req (ops.cache.get s n nbf_read).0 (ops.cache.get s n nbf_read).1

  abbrev pub answer_get : ℕ → S → Ret × S
  answer_get n s =
      let (bl, s1) = ops.cache.get s n nbf_read in
      let (ret, s2) = ops.send s1 (get_answer n s) in (ret, ops.cache.put s2 (pointer bl))

-- The page of the block that the cache returned, and none with an error.
abbrev pub page_got : {S Page : Type 0} → DevdOps S Page → BlockOrErr × S → Option Page
page_got ops (block b, s) = some (ops.page s b)
page_got ops (err_ptr e, s) = none

get_result-page :
    {S Page : Type 0} (ops : DevdOps S Page) (stack : Mem) (req : MsgDesc Page) (bl : BlockOrErr)
    (s : S)
    → (get_result ops stack req bl s).data_page ≡ page_got ops (bl, s)
get_result-page ops stack req (block b) s = refl
get_result-page ops stack req (err_ptr e) s = refl

module _ {S T Page : Type 0} (ops : DevdOps S Page) (end_io : T → ℕ → Option Page → Ret → Run T)
    (stack stack2 : Mem) (bnr : ℕ) (small : bnr < 256 ^ 8) (addr : ℕ)
    (req back : MsgDesc Page) where
  get_number :
      (access : ℕ) → Delivered (get_request stack access bnr addr) req → load_bnr req.ctl_buf ≡ bnr
  get_number access d =
      load_bnr-stored req.ctl_buf stack bnr small (λ i h. ground (arith, d.same_ctl i, h))

  get_handled :
      (access : ℕ) (s : S)
      → access < access_unknown
      → Delivered (get_request stack access bnr addr) req
      → devd_get_block ops stack2 req s ≡ answer_get ops stack2 req bnr s
  unfolding devd_get_block
  get_handled access s known d =
      let byte : req.ctl_buf 8 ≡ access = ground (arith, d.same_ctl 8, known) in
      let good : (not (req.ctl_size == get_block_size)
            || leb access_unknown (req.ctl_buf 8)
            || not (req.data_size == 0))
          ≡ false =
        ground (arith, d.same_ctl_size, d.same_data_size, byte, known) in
      rw (good, devd_get_block) (ap (λ n. answer_get ops stack2 req n s) (get_number access d))

  back_byte :
      (bl : BlockOrErr) (s : S)
      → Delivered (get_result ops stack2 req bl s) back
      → back.ctl_buf 9 ≡ ngnfs_msg_err (status bl)
  back_byte bl s e = ground (arith, e.same_ctl 9, msg_err-byte (status bl))

  good_back :
      (bl : BlockOrErr) (s : S)
      → Delivered (get_result ops stack2 req bl s) back
      → bad_get_result back ≡ false
  unfolding ngnfs_msg_err
  good_back (block b) s e =
      let ok_byte : ngnfs_msg_err (ok 0) ≡ err_ok = refl in
      ground (arith, back_byte (block b) s e, ok_byte, e.same_ctl_size, e.same_data_size)
  good_back (err_ptr x) s e =
      ground
        (arith, back_byte (err_ptr x) s e, msg_err-nonzero x, e.same_ctl_size, e.same_data_size)

  get_received :
      (access : ℕ) (s : S) (t : T)
      → access < access_unknown
      → Delivered (get_request stack access bnr addr) req
      → Delivered (get_answer ops stack2 req bnr s) back
      → ngnfs_btr_msg_get_block_result end_io back t ≡ (
          end_io t bnr
            (page_got ops (ops.cache.get s bnr nbf_read))
            (received (status (ops.cache.get s bnr nbf_read).0))
          >>= λ u. done (ok 0, u))
  unfolding ngnfs_btr_msg_get_block_result
  get_received access s t known d e =
      let bl = (ops.cache.get s bnr nbf_read).0 in
      let r = status bl in
      let number : load_bnr back.ctl_buf ≡ bnr =
        load_bnr-stored back.ctl_buf stack2 bnr small
          (λ i h. ground (arith, e.same_ctl i, get_number access d, h)) in
      rw
        (
          good_back bl (ops.cache.get s bnr nbf_read).1 e,
          number,
          back_byte bl _ e,
          (msg_errno-msg_err r 0).0,
          e.same_page,
          get_result-page ops stack2 req bl (ops.cache.get s bnr nbf_read).1,
          ngnfs_btr_msg_get_block_result,
        )
        refl

  -- For block numbers that fit in 64 bits and a known access mode: a request to read a block,
  -- delivered to the device's daemon, makes its cache get the block and send one answer to the
  -- sender's address, after which the block is put. Delivered to the client, the answer completes the
  -- block of the request: with the page of the block that the daemon's cache returned and success, or
  -- without a page and with the error, as EIO if it is neither EIO nor ENOMEM.
  pub get-answered :
      (access : ℕ) (s : S) (t : T)
      → access < access_unknown
      → Delivered (get_request stack access bnr addr) req
      → Delivered (get_answer ops stack2 req bnr s) back
      → (devd_get_block ops stack2 req s ≡ answer_get ops stack2 req bnr s)
        × ((get_answer ops stack2 req bnr s).addr ≡ req.addr)
        × (ngnfs_btr_msg_get_block_result end_io back t ≡ (
            end_io t bnr
              (page_got ops (ops.cache.get s bnr nbf_read))
              (received (status (ops.cache.get s bnr nbf_read).0))
            >>= λ u. done (ok 0, u)))
  get-answered access s t known d e =
      (get_handled access s known d, refl, get_received access s t known d e)
