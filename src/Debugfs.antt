-- ===== src/Debugfs.antt =====
-- cli/debugfs.c: the commands, their table, and the thread that reads them line by line.
pub mod Session
use ngnfs_progs.Prelude.{
  ℕ, zero, suc, ◌+◌, ◌*◌, ◌/◌, ltb, if◌then◌else◌, Bool, true, false, ◌&&◌, not, Option, none, some,
  List, [], ◌∷◌, ◌++◌, take, drop,
}
use ngnfs_progs.Prelude.Run.{Run, done, ◌>>=◌}
use ngnfs_progs.Prelude.Errno.{Ret, ok, err, Errno, enomem}
use ngnfs_progs.Btree.Keys.{Bytes, Sign}
use ngnfs_progs.Txn.State.{BlockOps}
use ngnfs_progs.Txn.Execute.{ngnfs_txn_init, ngnfs_txn_destroy}
use ngnfs_progs.Pfs.Inode.{Inode, inode_size}
use ngnfs_progs.Pfs.Ops.{Buffers, State, ops, callbacks, ngnfs_pfs_mkfs, ngnfs_pfs_read_inode}
use ngnfs_progs.Options.Parse.{Str}
use ngnfs_progs.Options.Getopt.{Getopt}
use ngnfs_progs.Options.Mount.{FsInfo, MountEnv, ngnfs_mount, ngnfs_unmount}

-- The numbers that a stat prints.
pub record StatFields : Type 0 where
  pub ino : ℕ
  pub gen : ℕ
  pub nlink : ℕ
  pub mode : ℕ
  pub atime : ℕ
  pub ctime : ℕ
  pub mtime : ℕ
  pub crtime : ℕ

-- What is written to stdout and to the log.
pub data Output : Type 0 where
  prompt : ℕ → Output
  no_command : Output
  unknown_command : Str → Output
  mkfs_error sync_error stat_error : Errno → Output
  too_small : ℕ → Output
  stat_fields : StatFields → Output

-- The file system with its cache on the state `S`, and what was printed.
pub record Context (S : Type 0) : Type 0 where
  pub fs : State S
  pub cwd_ino : ℕ
  pub printed : List Output

-- What a command gets: the contents and the address of what it allocates, and the time.
pub record CommandEnv : Type 0 where
  pub inode_memory : Option Inode
  pub txn_memory : Option ℕ
  pub nsec : ℕ

abbrev pub root_ino : ℕ
root_ino = 1

abbrev pub line_size : ℕ
line_size = 4096 * 5

abbrev pub max_argc : ℕ
max_argc = (line_size + 1) / 2

-- The number that `n` bytes from `off` stand for.
abbrev pub le_to_cpu : ℕ → Bytes → ℕ
le_to_cpu zero bs = 0
le_to_cpu (suc n) [] = 0
le_to_cpu (suc n) (b ∷ bs) = b + 256 * le_to_cpu n bs

abbrev pub fields_of : Bytes → StatFields
fields_of ninode = record {
  ino = le_to_cpu 8 ninode;
  gen = le_to_cpu 8 (drop 8 ninode);
  nlink = le_to_cpu 4 (drop 32 ninode);
  mode = le_to_cpu 4 (drop 44 ninode);
  atime = le_to_cpu 8 (drop 56 ninode);
  ctime = le_to_cpu 8 (drop 64 ninode);
  mtime = le_to_cpu 8 (drop 72 ninode);
  crtime = le_to_cpu 8 (drop 80 ninode);
}

-- strcmp, strtok_r call by call, bsearch and qsort.
pub record Libc (C : Type 0) : Type 0 where
  pub strcmp : Str → Str → Sign
  pub strtok_r : Str → List Str
  pub bsearch : (Str → C → Sign) → Str → List C → Option C
  pub qsort : (C → C → Sign) → List C → List C

module _ {S : Type 0} where
  abbrev pub print : Output → Context S → Context S
  print out ctx = record ctx { printed = ctx.printed ++ (out ∷ []) }

  abbrev pub print_error : (Errno → Output) → Ret → Context S → Context S
  print_error out (ok n) ctx = ctx
  print_error out (err e) ctx = print (out e) ctx

module _ {S : Type 0} (cache : BlockOps S) (buffers : Buffers S) (sync : S → Ret × S) where
  -- The sync at the end of a mkfs that returned no error.
  abbrev pub sync_after : Ret → Context S → Context S
  sync_after (err e) ctx = print (mkfs_error e) ctx
  sync_after (ok n) ctx =
      let (ret, c) = sync ctx.fs.cache in
      print_error sync_error ret (record ctx { fs = record ctx.fs { cache = c } })

  unfoldable pub cmd_mkfs : CommandEnv → Context S → Run (Context S)
  cmd_mkfs env ctx = do
    r ←
        ngnfs_pfs_mkfs cache buffers 1 env.inode_memory env.txn_memory ngnfs_txn_init root_ino
          env.nsec ctx.fs
    let fs = (ngnfs_txn_destroy (ops cache buffers) (callbacks cache buffers) r.1 r.2).1
    done (sync_after r.0 (record ctx { fs = fs }))

  abbrev pub print_inode : Ret → Bytes → Context S → Context S
  print_inode (err e) ninode ctx = print (stat_error e) ctx
  print_inode (ok n) ninode ctx =
      if ltb n inode_size
      then print (too_small n) ctx
      else print (stat_fields (fields_of ninode)) ctx

  unfoldable pub cmd_stat : CommandEnv → Context S → Run (Context S)
  cmd_stat env ctx = do
    r ←
        ngnfs_pfs_read_inode cache buffers 1 env.txn_memory ngnfs_txn_init root_ino inode_size
          ctx.fs
    let fs = (ngnfs_txn_destroy (ops cache buffers) (callbacks cache buffers) r.1 r.2).1
    done (print_inode r.0 fs.ninode (record ctx { fs = fs }))

-- struct command.
pub record Command (S : Type 0) : Type 0 where
  pub name : Str
  pub func : CommandEnv → Context S → Run (Context S)

abbrev pub mkfs_name : Str
mkfs_name = 109 ∷ 107 ∷ 102 ∷ 115 ∷ []

abbrev pub stat_name : Str
stat_name = 115 ∷ 116 ∷ 97 ∷ 116 ∷ []

-- A mounted file system's cache, with the C library.
module _ {S : Type 0} (cache : BlockOps S) (buffers : Buffers S) (sync : S → Ret × S)
    (libc : Libc (Command S)) where
  abbrev pub mkfs_command : Command S
  mkfs_command = record { name = mkfs_name; func = cmd_mkfs cache buffers sync }

  abbrev pub stat_command : Command S
  stat_command = record { name = stat_name; func = cmd_stat cache buffers sync }

  abbrev pub commands : List (Command S)
  commands = mkfs_command ∷ stat_command ∷ []

  abbrev pub compar_cmd_names : Command S → Command S → Sign
  compar_cmd_names a b = libc.strcmp a.name b.name

  abbrev pub compar_key_cmd_name : Str → Command S → Sign
  compar_key_cmd_name name cmd = libc.strcmp name cmd.name

  abbrev pub call : Str → Option (Command S) → CommandEnv → Context S → Run (Context S)
  call name none env ctx = done (print (unknown_command name) ctx)
  call name (some cmd) env ctx = cmd.func env ctx

  -- The arguments, of which the commands use none.
  abbrev pub run_argv : List (Command S) → List Str → CommandEnv → Context S → Run (Context S)
  run_argv table [] env ctx = done (print no_command ctx)
  run_argv table (name ∷ args) env ctx =
      call name (libc.bsearch compar_key_cmd_name name table) env ctx

  unfoldable pub parse_command : List (Command S) → CommandEnv → Str → Context S → Run (Context S)
  parse_command table env line ctx = run_argv table (take max_argc (libc.strtok_r line)) env ctx

  -- The lines that fgets returns, each with what its command gets.
  unfoldable pub read_lines :
      List (Command S) → List (CommandEnv × Str) → Context S → Run (Context S)
  read_lines table [] ctx = done (print (prompt ctx.cwd_ino) ctx)
  read_lines table ((env, line) ∷ lines) ctx = do
    next ← parse_command table env line (print (prompt ctx.cwd_ino) ctx)
    read_lines table lines next

  abbrev pub mounted :
      List (CommandEnv × Str) → Context S → Ret × FsInfo → Run (Ret × FsInfo × Context S)
  mounted lines ctx (err e, nfi) = done (err e, nfi, ctx)
  mounted lines ctx (ok n, nfi) =
      read_lines (libc.qsort compar_cmd_names commands) lines ctx >>= λ last.
      done (ok 0, ngnfs_unmount nfi, last)

  -- `memory` is that of the line and its arguments, `args` what getopt_long returns.
  unfoldable pub debugfs_thread :
      Bool
      → MountEnv
      → List Getopt
      → List (CommandEnv × Str)
      → State S
      → Run (Ret × FsInfo × Context S)
  debugfs_thread memory env args lines fs =
      let nfi : FsInfo = record { trace = false; manifest = none; msg = false; block = false } in
      let ctx : Context S = record { fs = fs; cwd_ino = root_ino; printed = [] } in
      if memory then ngnfs_mount env args nfi >>= mounted lines ctx else done (err enomem, nfi, ctx)
