-- ===== src/Manifest.antt =====
-- shared/manifest.c: the addresses of the devices, and which of them a block number maps to. An
-- address is a number that stands for the bytes of a sockaddr_in.
use ngnfs_progs.Prelude.{
  ℕ, zero, suc, ◌+◌, ◌-◌, ◌%◌, ◌<◌, ◌≡◌, ◌≢◌, ◌==◌, ◌⊎◌, if◌then◌else◌, Option, some, none, List,
  [], ◌∷◌, length, get_elem?, refl, inl, inr, arith, true, false, ◌∙◌,
}
use native.Mathlib.Nat.{mod-lt}
use ngnfs_progs.Prelude.Run.{Run, done, bug}
use ngnfs_progs.Prelude.Errno.{Ret, ok, err, einval, enomem}

pub record ManifestInfo : Type 0 where
  pub nr_addrs : ℕ
  pub addrs : ℕ → ℕ

-- The loop over the list: the count that is left, and the array; `none` is its early EINVAL.
unfoldable pub setup_loop : List ℕ → ℕ → ℕ → (ℕ → ℕ) → Option (ℕ × (ℕ → ℕ))
setup_loop [] nr i addrs = some (nr, addrs)
setup_loop (a ∷ rest) nr i addrs =
    if nr == 0 then none else setup_loop rest (nr - 1) (i + 1) (λ j. if j == i then a else addrs j)

-- `memory` is what the allocated array holds, if the allocation succeeds; `old` is
-- nfi->manifest_info.
unfoldable pub ngnfs_manifest_setup :
    Option (ℕ → ℕ) → List ℕ → ℕ → Option ManifestInfo → Ret × Option ManifestInfo
ngnfs_manifest_setup none list nr old = (err enomem, old)
ngnfs_manifest_setup (some memory) list nr old = elim (setup_loop list nr 0 memory) [
  | none ↦ (err einval, old)
  | some r ↦
      if r.0 == 0 then (ok 0, some (record { nr_addrs = nr; addrs = r.1 })) else (err einval, old)
]

-- The division by 0 and the missing manifest trap.
unfoldable pub ngnfs_manifest_map_block : Option ManifestInfo → ℕ → Run (Ret × ℕ)
ngnfs_manifest_map_block none bnr = bug
ngnfs_manifest_map_block (some mfinf) bnr =
    if mfinf.nr_addrs == 0 then bug else done (ok 0, mfinf.addrs (bnr % mfinf.nr_addrs))

unfoldable pub ngnfs_manifest_destroy : Option ManifestInfo → Option ManifestInfo
ngnfs_manifest_destroy none = none
ngnfs_manifest_destroy (some mfinf) = none

-- The array holds the list from `i` on and what it held before below.
record Copies (list : List ℕ) (i : ℕ) (before after : ℕ → ℕ) : Type 0 where
  copied : (j : ℕ) → j < length list → get_elem? list j ≡ some (after (i + j))
  kept : (j : ℕ) → j < i → after j ≡ before j

index_cases : (j : ℕ) → (j ≡ 0) ⊎ ((k : ℕ) × (j ≡ suc k))
index_cases zero = inl refl
index_cases (suc k) = inr (k, refl)

-- The round of the loop that stores an address.
setup_loop-suc :
    (a : ℕ) (rest : List ℕ) (n i : ℕ) (addrs : ℕ → ℕ)
    → setup_loop (a ∷ rest) (suc n) i addrs
      ≡ setup_loop rest n (i + 1) (λ j. if j == i then a else addrs j)
unfolding setup_loop
setup_loop-suc a rest n i addrs =
    let more : (suc n == 0) ≡ false = ground arith in
    let one_less : suc n - 1 ≡ n = omega arith in rw (more, one_less, setup_loop) refl

setup_loop-Copies :
    (list : List ℕ) (i : ℕ) (addrs : ℕ → ℕ)
    → (after : ℕ → ℕ) × (setup_loop list (length list) i addrs ≡ some (0, after))
      × Copies list i addrs after
unfolding setup_loop
setup_loop-Copies [] i addrs =
    (addrs, refl, record { copied = λ j h. absurd (omega (arith, h)); kept = λ j h. refl })
setup_loop-Copies (a ∷ rest) i addrs =
    let (after, run, copies) =
      setup_loop-Copies rest (i + 1) (λ j. if j == i then a else addrs j) in
    (
      after,
      setup_loop-suc a rest (length rest) i addrs ∙ run,
      record {
        copied = λ j h. elim (index_cases j) [
          | inl e ↦ let at : after (i + 0) ≡ a = ground (arith, copies.kept i) in rw (e, at) refl
          | inr (k, e) ↦
              let shift : i + suc k ≡ i + 1 + k = omega arith in
              rw (e, shift) (copies.copied k (omega (arith, h, e)))
        ];
        kept = λ j h. ground (arith, copies.kept j, h);
      },
    )

setup_loop-length :
    (list : List ℕ) (nr i : ℕ) (addrs : ℕ → ℕ)
    → nr ≢ length list
    → (setup_loop list nr i addrs ≡ none)
      ⊎ ((n : ℕ) × (after : ℕ → ℕ) × (setup_loop list nr i addrs ≡ some (suc n, after)))
unfolding setup_loop
setup_loop-length [] zero i addrs h = absurd (h refl)
setup_loop-length [] (suc n) i addrs h = inr (n, addrs, refl)
setup_loop-length (a ∷ rest) zero i addrs h = inl refl
setup_loop-length (a ∷ rest) (suc n) i addrs h =
    let step = setup_loop-suc a rest n i addrs in
    elim (setup_loop-length rest n (i + 1) (λ j. if j == i then a else addrs j)
      (λ e. h (omega (arith, e)))) [
        | inl e ↦ inl (step ∙ e)
        | inr (m, after, e) ↦ inr (m, after, step ∙ e)
      ]

-- What a block number that is taken modulo the length of a list should map to.
abbrev pub nth_addr : Option ℕ → Run (Ret × ℕ)
nth_addr none = bug
nth_addr (some a) = done (ok 0, a)

-- What the setup of a list of addresses gives. It succeeds where the memory is there and the count
-- is the length of the list, and block numbers then map to the addresses in turn, or trap where
-- the list is empty. Otherwise it fails and leaves the manifest.
abbrev pub SetsUp :
    Option (ℕ → ℕ) → List ℕ → ℕ → Option ManifestInfo → Ret × Option ManifestInfo → Type 0
SetsUp none list nr old r = r ≡ (err enomem, old)
SetsUp (some memory) list nr old r =
    ((nr ≢ length list) × (r ≡ (err einval, old)))
    ⊎ ((nr ≡ length list)
        × (r.0 ≡ ok 0)
        × ((bnr : ℕ) → ngnfs_manifest_map_block r.1 bnr ≡ nth_addr (get_elem? list (bnr % nr))))

no_elem : (list : List ℕ) → length list ≡ 0 → (i : ℕ) → get_elem? list i ≡ none
no_elem [] e i = refl
no_elem (a ∷ rest) e i = absurd (omega (arith, e))

same_or_not : (a b : ℕ) → (a ≢ b) ⊎ (a ≡ b)
same_or_not a b = ground arith

pub manifest_setup-SetsUp :
    (memory : Option (ℕ → ℕ)) (list : List ℕ) (nr : ℕ) (old : Option ManifestInfo)
    → SetsUp memory list nr old (ngnfs_manifest_setup memory list nr old)
unfolding ngnfs_manifest_setup ngnfs_manifest_map_block
manifest_setup-SetsUp none list nr old = refl
manifest_setup-SetsUp (some memory) list nr old = elim (same_or_not nr (length list)) [
  | inl ne ↦ elim (setup_loop-length list nr 0 memory ne) [
    | inl e ↦ inl (ne, rw (e, ngnfs_manifest_setup) refl)
    | inr (n, after, e) ↦
        let left : (suc n == 0) ≡ false = ground arith in
        inl (ne, rw (e, left, ngnfs_manifest_setup) refl)
  ]
  | inr e ↦
      let (after, run, copies) = setup_loop-Copies list 0 memory in
      let run' : setup_loop list nr 0 memory ≡ some (0, after) = rw (← e) at run in
      let set : ngnfs_manifest_setup (some memory) list nr old
          ≡ (ok 0, some (record { nr_addrs = nr; addrs = after })) =
        rw (run', ngnfs_manifest_setup) refl in
      rw set (inr (e, refl, λ bnr. maps e bnr (same_or_not nr 0) after copies))
]
  where
    maps :
        nr ≡ length list
        → (bnr : ℕ) → (nr ≢ 0) ⊎ (nr ≡ 0)
        → (after : ℕ → ℕ) → Copies list 0 memory after
        → ngnfs_manifest_map_block (some (record { nr_addrs = nr; addrs = after })) bnr
          ≡ nth_addr (get_elem? list (bnr % nr))
    maps e bnr (inl ne) after copies =
        let some_addr : (nr == 0) ≡ false = ground arith in
        let inside : bnr % nr < length list = omega (arith, mod-lt bnr {m = nr} (omega arith), e) in
        let at_start : 0 + bnr % nr ≡ bnr % nr = omega arith in
        let found : get_elem? list (bnr % nr) ≡ some (after (bnr % nr)) =
          rw at_start at (copies.copied (bnr % nr) inside) in
        rw (some_addr, found, ngnfs_manifest_map_block) refl
    maps e bnr (inr z) after copies =
        let no_addr : (nr == 0) ≡ true = ground arith in
        rw (no_addr, no_elem list (omega (arith, e, z)) (bnr % nr), ngnfs_manifest_map_block) refl
