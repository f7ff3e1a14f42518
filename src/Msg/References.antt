-- ===== src/Msg/References.antt =====
-- The references of the peers of shared/msg.c: the table's reference keeps each peer alive.
use ngnfs_progs.Prelude.{
  ℕ, ◌+◌, ◌^◌, ◌≤◌, ◌<◌, ◌≡◌, inl, inr, some, none, true, false, arith, Option-cases, Bool-cases,
}
use ngnfs_progs.Prelude.Errno.{Ret, err, eexist}
use ngnfs_progs.Msg.Peers.{MsgInfo, Env, get_peer, put_peer, ngnfs_msg_send, ngnfs_msg_accept}

-- Each peer in the table is allocated, lives, stands under its address and has between one
-- reference and fewer than would overflow.
pub record IsAlive (s : MsgInfo) (addr p : ℕ) : Type 0 where
  pub allocated : p < s.next
  pub own : (s.peers p).addr ≡ addr
  pub held : 1 ≤ (s.peers p).refcount
  pub bounded : (s.peers p).refcount + 2 < 2 ^ 31
  pub live : (s.peers p).destroyed ≡ false

abbrev pub IsHeld : MsgInfo → Type 0
IsHeld s = (addr p : ℕ) → s.ht addr ≡ some p → IsAlive s addr p

module _ (env : Env) (send : ℕ → Ret) (s : MsgInfo) (to : ℕ) (held : IsHeld s)
    (kept : IsHeld (env.others s)) where
  -- To a peer that is in the table at the first lookup.
  send_known :
      (q : ℕ)
      → s.ht to ≡ some q
      → (addr p : ℕ) → (ngnfs_msg_send env send s to).1.ht addr ≡ some p
      → IsAlive (ngnfs_msg_send env send s to).1 addr p
  unfolding ngnfs_msg_send get_peer put_peer
  send_known q f addr p e = ground (arith, held addr p, held to q f)

  -- Where another thread has inserted the peer in between.
  send_raced :
      (q : ℕ)
      → s.ht to ≡ none
      → env.memory ≡ true
      → (env.others s).ht to ≡ some q
      → (addr p : ℕ) → (ngnfs_msg_send env send s to).1.ht addr ≡ some p
      → IsAlive (ngnfs_msg_send env send s to).1 addr p
  unfolding ngnfs_msg_send get_peer put_peer
  send_raced q f m g addr p e = ground (arith, kept addr p, kept to q g)

  send_new :
      s.ht to ≡ none
      → env.memory ≡ true
      → (env.others s).ht to ≡ none
      → (addr p : ℕ) → (ngnfs_msg_send env send s to).1.ht addr ≡ some p
      → IsAlive (ngnfs_msg_send env send s to).1 addr p
  unfolding ngnfs_msg_send get_peer put_peer
  send_new f m g addr p e = ground (arith, kept addr p)

  send_no_memory :
      s.ht to ≡ none
      → env.memory ≡ false
      → (addr p : ℕ) → (ngnfs_msg_send env send s to).1.ht addr ≡ some p
      → IsAlive (ngnfs_msg_send env send s to).1 addr p
  unfolding ngnfs_msg_send get_peer
  send_no_memory f m addr p e = ground (arith, kept addr p)

-- Sending keeps every peer of the table alive, if what other threads do in between does.
pub msg_send-IsHeld :
    (env : Env) (send : ℕ → Ret) (s : MsgInfo) (to : ℕ)
    → IsHeld s
    → IsHeld (env.others s)
    → IsHeld (ngnfs_msg_send env send s to).1
msg_send-IsHeld env send s to held kept addr p e = elim (Option-cases (s.ht to)) [
  | inr (q, f) ↦ send_known env send s to held kept q f addr p e
  | inl f ↦ elim (Bool-cases env.memory) [
    | inr n ↦ send_no_memory env send s to held kept f n addr p e
    | inl m ↦ elim (Option-cases ((env.others s).ht to)) [
      | inr (q, g) ↦ send_raced env send s to held kept q f m g addr p e
      | inl g ↦ send_new env send s to held kept f m g addr p e
    ]
  ]
]

-- An incoming connection for an address that has a peer is refused with EEXIST, and takes away a
-- reference that get_peer did not get: the table's own one if it is the last, and the table then
-- maps the address to a destroyed peer.
pub accept-existing :
    (env : Env) (s : MsgInfo) (addr p : ℕ)
    → s.ht addr ≡ some p
    → (s.peers p).refcount ≡ 1
    → let (r, s') = ngnfs_msg_accept env s addr true in
      (r ≡ err eexist) × (s'.ht addr ≡ some p) × ((s'.peers p).destroyed ≡ true)
unfolding ngnfs_msg_accept get_peer put_peer
accept-existing env s addr p e one = ground arith
