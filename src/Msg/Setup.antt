-- ===== src/Msg/Setup.antt =====
-- ngnfs_msg_setup and ngnfs_msg_destroy of shared/msg.c, and what is held between them.
use ngnfs_progs.Prelude.{
  ℕ, ◌≡◌, ◌≢◌, inl, inr, Bool, true, false, not, ◌&&◌, ◌||◌, Option, none, some, List, [], ◌∷◌,
  refl, arith, Bool-cases, if◌then◌else◌,
}
use ngnfs_progs.Prelude.Errno.{Ret, ok, err, Errno, enomem}
use ngnfs_progs.Prelude.Run.{Run, done, bug, Returns}
use ngnfs_progs.Msg.Peers.{MsgInfo, put_peer}

-- struct ngnfs_msg_transport_ops: which of the functions there are, and the errors of setup and
-- start_listen.
pub record MsgTransportOps : Type 0 where
  pub has_setup : Bool
  pub has_shutdown : Bool
  pub has_destroy : Bool
  pub setup : Option Errno
  pub start_listen : Option Errno

-- The memory of the info, and the error of rhashtable_init.
pub record MsgEnv : Type 0 where
  pub memory : Bool
  pub ht_init : Option Errno

-- What is held, whether the transport listens and was shut down, and whether nfi->msg_info is set.
pub record MsgFs : Type 0 where
  pub info_held : Bool
  pub transport_held : Bool
  pub ht_held : Bool
  pub listening : Bool
  pub is_shutdown : Bool
  pub msg_info : Bool

module _ (ops : MsgTransportOps) (env : MsgEnv) (listen : Bool) where
  abbrev pub setup_listen : Bool → Option Errno → MsgFs → Ret × MsgFs
  setup_listen false ret fs = (ok 0, fs)
  setup_listen true none fs = (ok 0, record fs { listening = true })
  setup_listen true (some e) fs = (err e, fs)

  abbrev pub setup_table : Option Errno → MsgFs → Ret × MsgFs
  setup_table none fs =
      setup_listen listen ops.start_listen (record fs { ht_held = true; msg_info = true })
  setup_table (some e) fs = (err e, record fs { info_held = false })

  abbrev pub setup_transport : Bool → Option Errno → MsgFs → Ret × MsgFs
  setup_transport false ret fs = setup_table env.ht_init fs
  setup_transport true none fs = setup_table env.ht_init (record fs { transport_held = true })
  setup_transport true (some e) fs = (err e, fs)

  -- `listen` says whether there is an address to listen at.
  unfoldable pub ngnfs_msg_setup : MsgFs → Ret × MsgFs
  ngnfs_msg_setup fs =
      if env.memory
      then setup_transport ops.has_setup ops.setup (record fs { info_held = true })
      else (err enomem, fs)

-- free_ht_node_peer for the peers of the table.
unfoldable pub free_ht_peers : List ℕ → MsgInfo → MsgInfo
free_ht_peers [] s = s
free_ht_peers (p ∷ ps) s = free_ht_peers ps (put_peer s p)

-- The pointer nfi->msg_info is left as it is; through it the memory is read, which traps where it
-- was freed.
unfoldable pub ngnfs_msg_destroy :
    MsgTransportOps → MsgFs → List ℕ → MsgInfo → Run (MsgFs × MsgInfo)
ngnfs_msg_destroy ops fs peers s =
    if not fs.msg_info
    then done (fs, s)
    else if not fs.info_held
    then bug
    else done (
      record fs {
        listening = false;
        is_shutdown = if ops.has_shutdown then true else fs.is_shutdown;
        transport_held = if ops.has_destroy then false else fs.transport_held;
        ht_held = false;
        info_held = false;
      },
      free_ht_peers peers s,
    )

abbrev pub nothing_held : MsgFs
nothing_held = record {
  info_held = false;
  transport_held = false;
  ht_held = false;
  listening = false;
  is_shutdown = false;
  msg_info = false;
}

abbrev failed : Option Errno → Bool
failed none = false
failed (some e) = true

-- Where the transport's setup fails the memory; where the table cannot be made, and where the
-- transport has no destroy function, the transport if it has a setup function.
abbrev pub leaks_info : MsgTransportOps → MsgEnv → Bool
leaks_info ops env = env.memory && (ops.has_setup && failed ops.setup)

abbrev pub leaks_transport : MsgTransportOps → MsgEnv → Bool
leaks_transport ops env =
    env.memory
    && (ops.has_setup && (not (failed ops.setup) && (failed env.ht_init || not ops.has_destroy)))

abbrev pub AreAbsent : ℕ → List ℕ → Type 0
AreAbsent p [] = Unit {0}
AreAbsent p (q ∷ qs) = (p ≢ q) × AreAbsent p qs

-- Each of the peers is in the list once, and its only reference is that of the table.
abbrev pub AreIdle : List ℕ → MsgInfo → Type 0
AreIdle [] s = Unit {0}
AreIdle (p ∷ ps) s = ((s.peers p).refcount ≡ 1) × AreAbsent p ps × AreIdle ps s

abbrev pub AreDestroyed : List ℕ → MsgInfo → Type 0
AreDestroyed [] s = Unit {0}
AreDestroyed (p ∷ ps) s = ((s.peers p).destroyed ≡ true) × AreDestroyed ps s

AreIdle-put_peer :
    (p : ℕ) (ps : List ℕ) (s : MsgInfo) → AreAbsent p ps → AreIdle ps s → AreIdle ps (put_peer s p)
unfolding put_peer
AreIdle-put_peer p [] s a i = tt
AreIdle-put_peer p (q ∷ qs) s (n, a) (r, o, i) =
    (ground (arith, r, n), o, AreIdle-put_peer p qs s a i)

still_destroyed :
    (ps : List ℕ) (p : ℕ) (s : MsgInfo)
    → (s.peers p).destroyed ≡ true
    → ((free_ht_peers ps s).peers p).destroyed ≡ true
unfolding free_ht_peers put_peer
still_destroyed [] p s d = d
still_destroyed (q ∷ qs) p s d = still_destroyed qs p (put_peer s q) (ground (arith, d))

now_destroyed :
    (s : MsgInfo) (p : ℕ) → (s.peers p).refcount ≡ 1 → ((put_peer s p).peers p).destroyed ≡ true
unfolding put_peer
now_destroyed s p r = ground (arith, r)

freed_destroyed : (ps : List ℕ) (s : MsgInfo) → AreIdle ps s → AreDestroyed ps (free_ht_peers ps s)
unfolding free_ht_peers
freed_destroyed [] s i = tt
freed_destroyed (p ∷ ps) s (r, a, i) = (
  still_destroyed ps p (put_peer s p) (now_destroyed s p r),
  freed_destroyed ps (put_peer s p) (AreIdle-put_peer p ps s a i),
)

-- The peers of a table that was made are destroyed; otherwise nothing is done to them.
abbrev pub PeersAfter : Bool → List ℕ → MsgInfo → MsgInfo → Type 0
PeersAfter true peers s u = AreDestroyed peers u
PeersAfter false peers s u = u ≡ s

-- What a setup and a destruction leave: no table and no listening, the memory and the transport
-- where they leak.
abbrev pub LeaksOnly : MsgTransportOps → MsgEnv → List ℕ → MsgInfo → MsgFs × MsgInfo → Type 0
LeaksOnly ops env peers s r =
    (r.0.ht_held ≡ false)
    × (r.0.listening ≡ false)
    × (r.0.info_held ≡ leaks_info ops env)
    × (r.0.transport_held ≡ leaks_transport ops env)
    × PeersAfter r.0.msg_info peers s r.1

module _ (ops : MsgTransportOps) (env : MsgEnv) (listen : Bool) where
  abbrev fs : MsgFs
  fs = (ngnfs_msg_setup ops env listen nothing_held).1

  set_up :
      fs.msg_info ≡ true
      → (fs.info_held ≡ true)
        × (leaks_info ops env ≡ false)
        × (leaks_transport ops env ≡ fs.transport_held && not ops.has_destroy)
  unfolding ngnfs_msg_setup
  set_up h = ground (arith, h)

  not_set_up :
      fs.msg_info ≡ false
      → (fs.ht_held ≡ false)
        × (fs.listening ≡ false)
        × (fs.info_held ≡ leaks_info ops env)
        × (fs.transport_held ≡ leaks_transport ops env)
  unfolding ngnfs_msg_setup
  not_set_up h = ground (arith, h)

kept : (held has : Bool) → (if has then false else held) ≡ held && not has
kept held has = ground arith

destroyed-LeaksOnly :
    (ops : MsgTransportOps) (env : MsgEnv) (fs : MsgFs) (peers : List ℕ) (s : MsgInfo)
    → AreIdle peers s
    → (fs.msg_info ≡ true
        → (fs.info_held ≡ true)
          × (leaks_info ops env ≡ false)
          × (leaks_transport ops env ≡ fs.transport_held && not ops.has_destroy))
    → (fs.msg_info ≡ false
        → (fs.ht_held ≡ false)
          × (fs.listening ≡ false)
          × (fs.info_held ≡ leaks_info ops env)
          × (fs.transport_held ≡ leaks_transport ops env))
    → Returns (ngnfs_msg_destroy ops fs peers s) (LeaksOnly ops env peers s)
unfolding ngnfs_msg_destroy
destroyed-LeaksOnly ops env fs peers s idle up down = elim (Bool-cases fs.msg_info) [
  | inl on ↦
      let (held, info, transport) = up on in
      rw (on, held)
        (rw (info, transport)
          (refl, refl, refl, kept fs.transport_held ops.has_destroy, freed_destroyed peers s idle))
  | inr off ↦
      let (table, listening, held, transport) = down off in
      rw off (table, listening, held, transport, refl)
]

-- For peers whose only references are those of the table, and where the transport's functions
-- return: a setup and the destruction after it leave neither a table nor a listening transport,
-- destroy the peers of the table, and leave held exactly the memory where the transport's setup
-- failed, and, of a transport that was set up, the transport where the table could not be made or
-- there is no function to destroy it.
pub setup-destroy-LeaksOnly :
    (ops : MsgTransportOps) (env : MsgEnv) (listen : Bool) (peers : List ℕ) (s : MsgInfo)
    → AreIdle peers s
    → Returns
        (ngnfs_msg_destroy ops (ngnfs_msg_setup ops env listen nothing_held).1 peers s)
        (LeaksOnly ops env peers s)
setup-destroy-LeaksOnly ops env listen peers s idle =
    destroyed-LeaksOnly ops env (ngnfs_msg_setup ops env listen nothing_held).1 peers s idle
      (set_up ops env listen) (not_set_up ops env listen)
