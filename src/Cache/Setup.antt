-- ===== src/Cache/Setup.antt =====
-- ngnfs_block_setup and ngnfs_block_destroy of shared/block.c, and what is held between them.
use ngnfs_progs.Prelude.{
  ℕ, ◌≡◌, Bool, true, false, Option, none, some, [], arith, not, ◌&&◌, ◌||◌, if◌then◌else◌,
}
use ngnfs_progs.Prelude.Int.{pos}
use ngnfs_progs.Prelude.Errno.{Ret, ok, err, Errno, enomem}
use ngnfs_progs.Cache.State.{BlockSet, BlockInfo}

-- struct ngnfs_block_transport_ops: which of its functions there are, the error of setup, and the
-- queue depth.
pub record TransportOps : Type 0 where
  pub has_setup : Bool
  pub has_shutdown : Bool
  pub has_destroy : Bool
  pub setup : Option Errno
  pub queue_depth : ℕ

-- What the system returns: the memory of the info, rhashtable_init, and the work queue.
pub record SetupEnv : Type 0 where
  pub memory : Bool
  pub ht_init : Option Errno
  pub workqueue : Bool

-- Whether the memory, the transport's info, the hash table and the work queue are held, whether
-- the transport was shut down, and nfi->block_info.
pub record BlockFs : Type 0 where
  pub info_held : Bool
  pub transport_held : Bool
  pub ht_held : Bool
  pub wq_held : Bool
  pub is_shutdown : Bool
  pub block_info : Option BlockInfo

-- The fields once they are initialised; `blank` has what kzalloc leaves.
abbrev pub init_block_info : (ℕ → BlockSet) → ℕ → BlockInfo
init_block_info blank queue_depth = record {
  ht = λ bnr. none;
  sets = blank;
  queue_depth = queue_depth;
  nr_dirty = pos 0;
  nr_writeback = pos 0;
  nr_submitted = pos 0;
  sync_waiters = 0;
  dirty_seq = 0;
  writeback_seq = 0;
  sync_seq = 0;
  submit_llist = [];
  submit_list = [];
  writeback_llist = [];
  writeback_list = [];
  submit_queued = false;
  writeback_queued = false;
}

module _ (ops : TransportOps) (env : SetupEnv) (blank : ℕ → BlockSet) where
  abbrev pub setup_workqueue : BlockFs → Ret × BlockFs
  setup_workqueue fs =
      if env.workqueue
      then (
        ok 0,
        record fs { wq_held = true; block_info = some (init_block_info blank ops.queue_depth) },
      )
      else (err enomem, record fs { ht_held = false; info_held = false })

  abbrev pub setup_table : Option Errno → BlockFs → Ret × BlockFs
  setup_table none fs = setup_workqueue (record fs { ht_held = true })
  setup_table (some e) fs = (err e, record fs { info_held = false })

  abbrev pub setup_transport : Bool → Option Errno → BlockFs → Ret × BlockFs
  setup_transport false ret fs = setup_table env.ht_init fs
  setup_transport true none fs = setup_table env.ht_init (record fs { transport_held = true })
  setup_transport true (some e) fs = (err e, fs)

  unfoldable pub ngnfs_block_setup : BlockFs → Ret × BlockFs
  ngnfs_block_setup fs =
      if env.memory
      then setup_transport ops.has_setup ops.setup (record fs { info_held = true })
      else (err enomem, fs)

-- That destroy_workqueue ends is taken for granted. The table goes with its blocks, each of which loses the table's reference.
abbrev pub teardown : TransportOps → BlockFs → Option BlockInfo → BlockFs
teardown ops fs none = fs
teardown ops fs (some blinf) = record fs {
  is_shutdown = if ops.has_shutdown then true else fs.is_shutdown;
  wq_held = false;
  transport_held = if ops.has_destroy then false else fs.transport_held;
  ht_held = false;
  info_held = false;
  block_info = none;
}

unfoldable pub ngnfs_block_destroy : TransportOps → BlockFs → BlockFs
ngnfs_block_destroy ops fs = teardown ops fs fs.block_info

abbrev pub nothing_held : BlockFs
nothing_held = record {
  info_held = false;
  transport_held = false;
  ht_held = false;
  wq_held = false;
  is_shutdown = false;
  block_info = none;
}

abbrev failed : Option Errno → Bool
failed none = false
failed (some e) = true

-- Where the transport's setup fails, the memory is not freed.
abbrev pub leaks_info : TransportOps → SetupEnv → Bool
leaks_info ops env = env.memory && (ops.has_setup && failed ops.setup)

-- Where the table or the work queue cannot be made, the transport is not destroyed.
abbrev pub leaks_transport : TransportOps → SetupEnv → Bool
leaks_transport ops env =
    env.memory
    && (ops.has_setup && (not (failed ops.setup) && (failed env.ht_init || not env.workqueue)))

abbrev pub LeaksOnly : TransportOps → SetupEnv → BlockFs → Type 0
LeaksOnly ops env fs =
    (fs.ht_held ≡ false)
    × (fs.wq_held ≡ false)
    × (fs.block_info ≡ none)
    × (fs.info_held ≡ leaks_info ops env)
    × (fs.transport_held ≡ leaks_transport ops env)

-- For a transport with a destroy function: a setup and the destruction after it leave neither the
-- hash table nor the work queue nor the info, and what else is still held is exactly the memory where
-- the transport's setup failed, and the transport where the table or the work queue could not be
-- made.
pub setup-destroy-leaks :
    (ops : TransportOps) (env : SetupEnv) (blank : ℕ → BlockSet)
    → ops.has_destroy ≡ true
    → LeaksOnly ops env (ngnfs_block_destroy ops (ngnfs_block_setup ops env blank nothing_held).1)
unfolding ngnfs_block_setup ngnfs_block_destroy
setup-destroy-leaks ops env blank d = ground (arith, d)
