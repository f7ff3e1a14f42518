-- ===== src/Options/Mounted.antt =====
-- What a mount of shared/mount.c leaves.
use ngnfs_progs.Prelude.{
  ℕ, ◌%◌, ◌≤◌, ◌≡◌, ◌≢◌, ◌⊎◌, ◌==◌, true, false, Option, none, some, List, length, get_elem?, refl,
  sym, subst, arith, inl, inr, Bool-cases,
}
use ngnfs_progs.Prelude.Words.{u8_max}
use ngnfs_progs.Prelude.Errno.{Ret, ok, err, Errno}
use ngnfs_progs.Manifest.{
  ManifestInfo, ngnfs_manifest_map_block, ngnfs_manifest_destroy, nth_addr, SetsUp,
  manifest_setup-SetsUp, ngnfs_manifest_setup,
}
use ngnfs_progs.Options.Getopt.{Getopt}
use ngnfs_progs.Options.Loop.{apply_options}
use ngnfs_progs.Options.Mount.{
  MountOptions, parse_mount_opt, FsInfo, MountEnv, ngnfs_unmount, mount_failed, setup_manifest,
  setup_trace, mount_setup, no_options,
}

-- The count is the length of the list, and fits in its byte.
abbrev pub IsCounted : MountOptions → Type 0
IsCounted opts = (opts.nr_addrs ≡ length opts.addr_list) × (opts.nr_addrs ≤ u8_max)

-- A setup function returns 0 or an error.
abbrev pub IsStatus : Ret → Type 0
IsStatus r = (r ≡ ok 0) ⊎ ((e : Errno) × (r ≡ err e))

-- Either everything is set up, and block numbers map to the addresses in turn, or nothing is.
-- Tracing is as it was before, or its setup succeeded and it stays set up.
abbrev pub TraceKept : MountEnv → FsInfo → MountOptions → FsInfo → Type 0
TraceKept env before opts nfi =
    (nfi.trace ≡ before.trace) ⊎ ((env.trace_setup opts.trace_path ≡ ok 0) × (nfi.trace ≡ true))

abbrev pub Mounts : MountEnv → FsInfo → MountOptions → Ret × FsInfo → Type 0
Mounts env before opts r =
    ((r.0 ≡ ok 0)
      × (r.1.trace ≡ true)
      × (r.1.msg ≡ true)
      × (r.1.block ≡ true)
      × (opts.nr_addrs ≢ 0)
      × ((bnr : ℕ)
          → ngnfs_manifest_map_block r.1.manifest bnr
            ≡ nth_addr (get_elem? opts.addr_list (bnr % opts.nr_addrs))))
    ⊎ (((e : Errno) × (r.0 ≡ err e))
        × (r.1.manifest ≡ none)
        × (r.1.msg ≡ false)
        × (r.1.block ≡ false)
        × TraceKept env before opts r.1)

destroyed : (m : Option ManifestInfo) → ngnfs_manifest_destroy m ≡ none
unfolding ngnfs_manifest_destroy
destroyed none = refl
destroyed (some m) = refl

failed-Mounts :
    (env : MountEnv) (before : FsInfo) (opts : MountOptions) (e : Errno) (nfi : FsInfo)
    → TraceKept env before opts nfi
    → Mounts env before opts (mount_failed e nfi)
unfolding ngnfs_unmount
failed-Mounts env before opts e nfi kept = inr ((e, refl), destroyed nfi.manifest, refl, refl, kept)

module _ (env : MountEnv) (opts : MountOptions) (before nfi : FsInfo)
    (traced : env.trace_setup opts.trace_path ≡ ok 0) (on : nfi.trace ≡ true)
    (msg_status : IsStatus env.msg_setup) (block_status : IsStatus env.block_setup) where
  Maps : Option ManifestInfo → Type 0
  Maps m =
      (bnr : ℕ)
      → ngnfs_manifest_map_block m bnr ≡ nth_addr (get_elem? opts.addr_list (bnr % opts.nr_addrs))

  mapped-Mounts :
      (m : Option ManifestInfo)
      → opts.nr_addrs ≢ 0
      → Maps m
      → Mounts env before opts (setup_manifest env nfi (ok 0, m))
  unfolding Maps
  mapped-Mounts m some_addr maps = elim msg_status [
    | inr (e, q) ↦ rw q (failed-Mounts env before opts e _ (inr (traced, on)))
    | inl q ↦ elim block_status [
      | inr (e, b) ↦ rw (q, b) (failed-Mounts env before opts e _ (inr (traced, on)))
      | inl b ↦ rw (q, b) (inl (refl, on, refl, refl, some_addr, maps))
    ]
  ]

  manifest-Mounts :
      (memory : Option (ℕ → ℕ)) (r : Ret × Option ManifestInfo)
      → opts.nr_addrs ≢ 0
      → SetsUp memory opts.addr_list opts.nr_addrs nfi.manifest r
      → Mounts env before opts (setup_manifest env nfi r)
  unfolding Maps
  manifest-Mounts none r some_addr q = rw q (failed-Mounts env before opts _ _ (inr (traced, on)))
  manifest-Mounts (some memory) r some_addr (inl (ne, q)) =
      rw q (failed-Mounts env before opts _ _ (inr (traced, on)))
  manifest-Mounts (some memory) (a, m) some_addr (inr (e, zero_, maps)) =
      rw zero_ (mapped-Mounts m some_addr maps)

-- Where the other setup functions return 0 or an error: a mount with some addresses sets everything
-- up, and block numbers then map to the addresses in turn, or fails, has no manifest, messaging or
-- block cache, and leaves tracing set up if it was.
pub mount_setup-Mounts :
    (env : MountEnv) (opts : MountOptions) (nfi : FsInfo)
    → IsStatus (env.trace_setup opts.trace_path)
    → IsStatus env.msg_setup
    → IsStatus env.block_setup
    → Mounts env nfi opts (mount_setup env opts nfi)
unfolding mount_setup
mount_setup-Mounts env opts nfi trace msg block = elim (Bool-cases (opts.nr_addrs == 0)) [
  | inl z ↦ rw (z, mount_setup) (failed-Mounts env nfi opts _ nfi (inl refl))
  | inr some_addr ↦ elim trace [
    | inr (e, q) ↦
        let failed : Mounts env nfi opts (setup_trace env opts (err e) nfi) =
          failed-Mounts env nfi opts e nfi (inl refl) in
        rw (some_addr, mount_setup)
          (subst (λ r. Mounts env nfi opts (setup_trace env opts r nfi)) (sym q) failed)
    | inl q ↦
        let made : Mounts env nfi opts (setup_trace env opts (ok 0) nfi) =
          manifest-Mounts env opts nfi (record nfi { trace = true }) q refl msg block
            env.manifest_memory
            (ngnfs_manifest_setup env.manifest_memory opts.addr_list opts.nr_addrs nfi.manifest)
            (λ e. ground (arith, some_addr, e))
            (manifest_setup-SetsUp env.manifest_memory opts.addr_list opts.nr_addrs nfi.manifest) in
        rw (some_addr, mount_setup)
          (subst (λ r. Mounts env nfi opts (setup_trace env opts r nfi)) (sym q) made)
  ]
]

-- The options that the arguments stand for.
abbrev pub options_of : MountEnv → List Getopt → MountOptions
options_of env gs = apply_options (parse_mount_opt env.libc env.memory) gs no_options
