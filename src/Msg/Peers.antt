-- ===== src/Msg/Peers.antt =====
-- The peers of shared/msg.c: get_peer, put_peer, sending and accepting. Peers are numbered in the
-- order of their allocation; an address is a number that stands for the bytes of a sockaddr_in.
use ngnfs_progs.Prelude.{
  ℕ, ◌+◌, ◌-◌, ◌%◌, ◌^◌, ◌==◌, if◌then◌else◌, Option, some, none, Bool, true, false,
}
use ngnfs_progs.Prelude.Errno.{Ret, ok, err, Errno, einval, eexist, enomem}

pub record Peer : Type 0 where
  pub addr : ℕ
  pub refcount : ℕ
  -- destroy_peer was called on it and its memory is being freed.
  pub destroyed : Bool

pub record MsgInfo : Type 0 where
  pub ht : ℕ → Option ℕ
  pub peers : ℕ → Peer
  pub next : ℕ

abbrev pub set_peer : MsgInfo → ℕ → Peer → MsgInfo
set_peer s p x = record s { peers = λ q. if q == p then x else s.peers q }

-- atomic_dec_return on an `int`.
abbrev pub dec : ℕ → ℕ
dec r = (r + 2 ^ 32 - 1) % 2 ^ 32

abbrev pub inc_peer : MsgInfo → ℕ → MsgInfo
inc_peer s p = set_peer s p (record (s.peers p) { refcount = (s.peers p).refcount + 1 })

unfoldable pub put_peer : MsgInfo → ℕ → MsgInfo
put_peer s p =
    let left = dec (s.peers p).refcount in
    set_peer s p (record (s.peers p) {
      refcount = left;
      destroyed = if left == 0 then true else (s.peers p).destroyed;
    })

-- A peer pointer or an ERR_PTR.
pub data PeerOrErr : Type 0 where
  peer : ℕ → PeerOrErr
  err_ptr : Errno → PeerOrErr

-- What the code runs on: what other threads do between the lookup and the insertion, whether the
-- allocation succeeds, and what the transport's start returns.
pub record Env : Type 0 where
  pub others : MsgInfo → MsgInfo
  pub memory : Bool
  pub start : ℕ → ℕ → Bool → Ret

-- The start of the transport's work on a peer that is in the table now.
start_peer : Env → MsgInfo → ℕ → ℕ → Bool → PeerOrErr × MsgInfo
start_peer env s p addr accepted = elim (env.start p addr accepted) [
  | ok n ↦ (peer p, s)
  | err e ↦ (err_ptr e, put_peer s p)
]

-- rhashtable_lookup_get_insert_fast, with a reference to the peer that was found.
insert_peer : Env → MsgInfo → ℕ → ℕ → Bool → PeerOrErr × MsgInfo
unfolding start_peer
insert_peer env s p addr accepted = elim (s.ht addr) [
  | some exist ↦
      let dropped = put_peer (put_peer (inc_peer s exist) p) p in
      if accepted then (err_ptr eexist, put_peer dropped exist) else (peer exist, dropped)
  | none ↦
      start_peer env (record s { ht = λ a. if a == addr then some p else s.ht a }) p addr accepted
]

alloc_peer : Env → MsgInfo → ℕ → Bool → PeerOrErr × MsgInfo
unfolding insert_peer
alloc_peer env s addr accepted =
    if env.memory
    then (let new : Peer = record { addr = addr; refcount = 2; destroyed = false } in
        insert_peer env (record (set_peer s s.next new) { next = s.next + 1 }) s.next addr accepted)
    else (err_ptr enomem, s)

unfoldable pub get_peer : Env → MsgInfo → ℕ → Bool → PeerOrErr × MsgInfo
unfolding alloc_peer
get_peer env s addr accepted = elim (s.ht addr) [
  | some p ↦ if accepted then (err_ptr eexist, put_peer s p) else (peer p, inc_peer s p)
  | none ↦ alloc_peer env (env.others s) addr accepted
]

unfoldable pub ngnfs_msg_send : Env → (ℕ → Ret) → MsgInfo → ℕ → Ret × MsgInfo
ngnfs_msg_send env send s addr =
    let (r, s') = get_peer env s addr false in
    elim r [ peer p ↦ (send p, put_peer s' p) | err_ptr e ↦ (err e, s') ]

-- A null argument is refused.
unfoldable pub ngnfs_msg_accept : Env → MsgInfo → ℕ → Bool → Ret × MsgInfo
ngnfs_msg_accept env s addr arg =
    let (r, s') = get_peer env s addr true in
    if arg
    then elim r [ peer p ↦ (ok 0, put_peer s' p) | err_ptr e ↦ (err e, s') ]
    else (err einval, s)
