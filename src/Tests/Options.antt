-- ===== src/Tests/Options.antt =====
-- Mounting at concrete arguments.
use ngnfs_progs.Prelude.{◌≡◌, ◌≤◌, true, false, none, some, List, [], ◌∷◌, refl, length}
use ngnfs_progs.Prelude.Int.{pos}
use ngnfs_progs.Prelude.Errno.{ok, einval}
use ngnfs_progs.Prelude.Run.{done}
use ngnfs_progs.Options.Parse.{Libc, value, parse_ipv4_addr_port, parse_ll}
use ngnfs_progs.Options.Getopt.{
  Getopt, prepare_optstr, optstr_size, prepare_optstr-fits, getopt_long_more, option_loop,
  option_round, get_more, set_given,
}
use ngnfs_progs.Options.Mount.{
  MountOptions, mount_moreopts, FsInfo, MountEnv, parse_mount_opt, no_options, addr_number,
}

-- Addresses are of one digit.
abbrev pub digit_libc : Libc
digit_libc = record {
  strtoull = λ str. (0, some einval, []);
  strtoll = λ str. (pos (length str), none, []);
  inet_aton = λ str. some (length str);
  strdup = true;
}

abbrev pub working_env : MountEnv
working_env = record {
  libc = digit_libc;
  memory = true;
  trace_setup = λ path. ok 0;
  manifest_memory = some (λ i. 0);
  msg_setup = ok 0;
  block_setup = ok 0;
}

abbrev pub not_mounted : FsInfo
not_mounted = record { trace = false; manifest = none; msg = false; block = false }

-- `-t a -d 1:22 -d 333`
abbrev pub mount_args : List Getopt
mount_args =
    record { c = 116; optopt = 0; optarg = 97 ∷ [] }
    ∷ record { c = 100; optopt = 0; optarg = 49 ∷ 58 ∷ 50 ∷ 50 ∷ [] }
    ∷ record { c = 100; optopt = 0; optarg = 51 ∷ 51 ∷ 51 ∷ [] }
    ∷ []

abbrev two_addrs : MountOptions
two_addrs = record {
  addr_list =
      addr_number (record { s_addr = 1; port = 2 })
      ∷ addr_number (record { s_addr = 3; port = 0 })
      ∷ [];
  nr_addrs = 2;
  trace_path = some (97 ∷ []);
}

parsed_addr :
    parse_ipv4_addr_port digit_libc (49 ∷ 58 ∷ 50 ∷ 50 ∷ [])
    ≡ value (record { s_addr = 1; port = 2 })
unfolding parse_ipv4_addr_port parse_ll
parsed_addr = refl

parsed_options :
    getopt_long_more
      (parse_mount_opt digit_libc true)
      true
      true
      mount_args
      mount_moreopts
      no_options
    ≡ done (ok 0, set_given 0 (set_given 1 mount_moreopts), two_addrs)
unfolding getopt_long_more option_loop option_round get_more parse_mount_opt parse_ipv4_addr_port
    parse_ll
parsed_options = refl

prepare_optstr-fits_example : length (prepare_optstr mount_moreopts) ≤ optstr_size mount_moreopts
prepare_optstr-fits_example = prepare_optstr-fits mount_moreopts
