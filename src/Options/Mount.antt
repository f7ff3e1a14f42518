-- ===== src/Options/Mount.antt =====
-- shared/mount.c: mounting and unmounting.
use ngnfs_progs.Prelude.{
  ℕ, zero, suc, ◌+◌, ◌*◌, ◌==◌, if◌then◌else◌, Bool, true, false, Option, none, some, List, [], ◌∷◌,
  ◌++◌,
}
use ngnfs_progs.Prelude.Words.{u8_max}
use ngnfs_progs.Prelude.Errno.{Ret, ok, err, Errno, einval, enomem}
use ngnfs_progs.Prelude.Run.{Run, done, ◌>>=◌}
use ngnfs_progs.Manifest.{ManifestInfo, ngnfs_manifest_setup, ngnfs_manifest_destroy}
use ngnfs_progs.Options.Parse.{Str, Libc, SockaddrIn, value, error, parse_ipv4_addr_port}
use ngnfs_progs.Options.Getopt.{OptionMore, required_argument, Getopt, getopt_long_more}

-- An address is a number that stands for the bytes of the sockaddr_in.
abbrev pub addr_number : SockaddrIn → ℕ
addr_number sin = sin.s_addr * 65536 + sin.port

pub record MountOptions : Type 0 where
  pub addr_list : List ℕ
  pub nr_addrs : ℕ
  pub trace_path : Option Str

abbrev pub devd_addr : ℕ
devd_addr = 100

abbrev pub trace_file : ℕ
trace_file = 116

abbrev pub mount_moreopts : List OptionMore
mount_moreopts =
    record { val = devd_addr; has_arg = required_argument; required = false; given = false }
    ∷ record { val = trace_file; has_arg = required_argument; required = true; given = false }
    ∷ []

-- `memory` says whether malloc has memory. A failed strdup leaves NULL and is not reported.
unfoldable pub parse_mount_opt : Libc → Bool → MountOptions → ℕ → Str → Ret × MountOptions
parse_mount_opt libc memory opts c str =
    if c == devd_addr
    then (if opts.nr_addrs == u8_max
        then (err einval, opts)
        else if memory
        then elim (parse_ipv4_addr_port libc str) [
          | error e ↦ (err e, opts)
          | value sin ↦ (
            ok 0,
            record opts {
              addr_list = opts.addr_list ++ (addr_number sin ∷ []);
              nr_addrs = opts.nr_addrs + 1;
            },
          )
        ]
        else (err enomem, opts))
    else if c == trace_file
    then (ok 0, record opts { trace_path = if libc.strdup then some str else none })
    else (ok 0, opts)

-- What is set up: whether the file and the write thread of tracing are, the manifest, and whether
-- messaging and the block cache are.
pub record FsInfo : Type 0 where
  pub trace : Bool
  pub manifest : Option ManifestInfo
  pub msg : Bool
  pub block : Bool

-- The results of the other setup functions, and the memory of the manifest.
pub record MountEnv : Type 0 where
  pub libc : Libc
  pub memory : Bool
  pub trace_setup : Option Str → Ret
  pub manifest_memory : Option (ℕ → ℕ)
  pub msg_setup : Ret
  pub block_setup : Ret

-- Tracing stays. What the destructions of messaging and the cache leave is in their own models.
unfoldable pub ngnfs_unmount : FsInfo → FsInfo
ngnfs_unmount nfi = record nfi {
  manifest = ngnfs_manifest_destroy nfi.manifest;
  msg = false;
  block = false;
}

-- A setup that returned an error.
abbrev pub mount_failed : Errno → FsInfo → Ret × FsInfo
mount_failed e nfi = (err e, ngnfs_unmount nfi)

abbrev pub setup_block : Ret → FsInfo → Ret × FsInfo
setup_block (err e) nfi = mount_failed e nfi
setup_block (ok n) nfi = (ok n, record nfi { block = true })

abbrev pub setup_msg : MountEnv → Ret → FsInfo → Ret × FsInfo
setup_msg env (err e) nfi = mount_failed e nfi
setup_msg env (ok zero) nfi = setup_block env.block_setup (record nfi { msg = true })
setup_msg env (ok (suc n)) nfi = (ok (suc n), nfi)

abbrev pub setup_manifest : MountEnv → FsInfo → Ret × Option ManifestInfo → Ret × FsInfo
setup_manifest env nfi (err e, manifest) = mount_failed e (record nfi { manifest = manifest })
setup_manifest env nfi (ok zero, manifest) =
    setup_msg env env.msg_setup (record nfi { manifest = manifest })
setup_manifest env nfi (ok (suc n), manifest) = (ok (suc n), record nfi { manifest = manifest })

abbrev pub setup_trace : MountEnv → MountOptions → Ret → FsInfo → Ret × FsInfo
setup_trace env opts (err e) nfi = mount_failed e nfi
setup_trace env opts (ok zero) nfi =
    setup_manifest env (record nfi { trace = true })
      (ngnfs_manifest_setup env.manifest_memory opts.addr_list opts.nr_addrs nfi.manifest)
setup_trace env opts (ok (suc n)) nfi = (ok (suc n), record nfi { trace = true })

-- What follows the options: the four setup functions, each where those before returned 0.
unfoldable pub mount_setup : MountEnv → MountOptions → FsInfo → Ret × FsInfo
mount_setup env opts nfi =
    if opts.nr_addrs == 0
    then mount_failed einval nfi
    else setup_trace env opts (env.trace_setup opts.trace_path) nfi

abbrev pub no_options : MountOptions
no_options = record { addr_list = []; nr_addrs = 0; trace_path = none }

abbrev pub after_options : MountEnv → FsInfo → Ret × List OptionMore × MountOptions → Ret × FsInfo
after_options env nfi (err e, more, opts) = mount_failed e nfi
after_options env nfi (ok n, more, opts) = mount_setup env opts nfi

-- `gs` is what getopt_long returns for the arguments; there is memory for the option tables.
unfoldable pub ngnfs_mount : MountEnv → List Getopt → FsInfo → Run (Ret × FsInfo)
ngnfs_mount env gs nfi =
    getopt_long_more (parse_mount_opt env.libc env.memory) true true gs mount_moreopts no_options
    >>= λ r. done (after_options env nfi r)
