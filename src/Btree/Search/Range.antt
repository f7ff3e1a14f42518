-- ===== src/Btree/Search/Range.antt =====
-- The loop of btree_search on s16, equal to one on numbers where nothing wraps.
use ngnfs_progs.Prelude.{
  ℕ, zero, suc, ◌+◌, ◌-◌, ◌/◌, ◌≤◌, ◌<◌, ◌≡◌, inl, inr, arith, ltb, leb, true, false, Bool-cases,
  if◌then◌else◌, length, refl, ap, ◌∙◌,
}
use ngnfs_progs.Prelude.Run.{Run, done, hang, ◌>>=◌}
use ngnfs_progs.Prelude.Words.{add16, sub16}
use ngnfs_progs.Btree.Keys.{
  Bytes, Sign, less, same, greater, cmp_keys, cmp_keys_s16, cmp_keys_s16-cmp_keys, s16_max,
}
use ngnfs_progs.Btree.Layout.{BtreeBlock, off_at, key_of, key_at, item_ptr, item_ptr-done}
use ngnfs_progs.Btree.Search.{BtreeSearchResult, to_s16, middle, search_loop, AreShort}

-- The loop where nothing wraps, with `hi` for last + 1.
unfoldable pub range_loop :
    ℕ → BtreeBlock → Bytes → ℕ → ℕ → BtreeSearchResult → Run BtreeSearchResult
range_loop zero bt key first hi res = if ltb first hi then hang else done res
range_loop (suc fuel) bt key first hi res =
    let mid = (first + hi - 1) / 2 in
    elim (ltb first hi) [
      | false ↦ done res
      | true ↦ do
        item ← item_ptr bt mid
        elim (cmp_keys key (key_of bt.mem item)) [
          | same ↦ done (record { pos = mid; cmp = same })
          | less ↦ range_loop fuel bt key first mid (record { pos = mid; cmp = less })
          | greater ↦ range_loop fuel bt key (mid + 1) hi (record { pos = mid + 1; cmp = greater })
        ]
    ]

-- One comparison on short keys, with equal ways on.
turn :
    (bt : BtreeBlock) (key : Bytes) (mid : ℕ)
    → length key ≤ s16_max
    → AreShort bt
    → mid < bt.nr_items
    → (found low low2 high high2 : Run BtreeSearchResult) → low ≡ low2
    → high ≡ high2
    → (item_ptr bt mid >>= λ item. elim (cmp_keys_s16 key (key_of bt.mem item)) [
      | same ↦ found
      | less ↦ low
      | greater ↦ high
    ])
      ≡ (item_ptr bt mid >>= λ item. elim (cmp_keys key (key_of bt.mem item)) [
        | same ↦ found
        | less ↦ low2
        | greater ↦ high2
      ])
unfolding key_at
turn bt key mid small short up found low low2 high high2 p q =
    let key_mid = key_of bt.mem (off_at bt mid) in
    let narrow : cmp_keys_s16 key key_mid ≡ cmp_keys key key_mid =
      cmp_keys_s16-cmp_keys key (key_at bt mid) small (short mid up) in
    let way : Sign → Run BtreeSearchResult =
      λ s. elim s [ same ↦ found | less ↦ low | greater ↦ high ] in
    rw (item_ptr-done bt mid (omega (arith, up))) (ap way narrow ∙ branches (cmp_keys key key_mid))
  where
    branches :
        (s : Sign)
        → (elim s [ same ↦ found | less ↦ low | greater ↦ high ])
          ≡ (elim s [ same ↦ found | less ↦ low2 | greater ↦ high2 ])
    branches same = refl
    branches less = p
    branches greater = q

-- One round on s16, from the middle on.
abbrev round : ℕ → BtreeBlock → Bytes → ℕ → ℕ → ℕ → Run BtreeSearchResult
round fuel bt key first last mid = do
  item ← item_ptr bt mid
  elim (cmp_keys_s16 key (key_of bt.mem item)) [
    | same ↦ done (record { pos = mid; cmp = same })
    | less ↦ search_loop fuel bt key first (to_s16 (sub16 mid 1)) (record { pos = mid; cmp = less })
    | greater ↦
        search_loop fuel bt key (to_s16 (add16 mid 1)) last
          (record { pos = add16 mid 1; cmp = greater })
  ]

pub search_loop-range_loop :
    (bt : BtreeBlock) (key : Bytes)
    → bt.nr_items ≤ s16_max
    → length key ≤ s16_max
    → AreShort bt
    → (fuel first hi : ℕ) (res : BtreeSearchResult) → first ≤ hi
    → hi ≤ bt.nr_items
    → search_loop fuel bt key (first + 32768) (hi + 32767) res ≡ range_loop fuel bt key first hi res
unfolding search_loop range_loop
search_loop-range_loop bt key few small short zero first hi res p q = ground arith
search_loop-range_loop bt key few small short (suc fuel) first hi res p q =
    let mid = (first + hi - 1) / 2 in
    elim (Bool-cases (ltb first hi)) [
      | inl more ↦
          let on : leb (first + 32768) (hi + 32767) ≡ true = ground arith in
          let same_mid : middle (first + 32768) (hi + 32767) ≡ mid = ground arith in
          let down : to_s16 (sub16 mid 1) ≡ mid + 32767 = ground arith in
          let next : add16 mid 1 ≡ mid + 1 = ground arith in
          let next2 : to_s16 (mid + 1) ≡ mid + 1 + 32768 = ground arith in
          rw (on, more, search_loop, range_loop)
            (ap (round fuel bt key (first + 32768) (hi + 32767)) same_mid
              ∙ turn bt key mid small short (ground arith) _ _ _ _ _
                  (rw down (
                    search_loop-range_loop bt key few small short fuel first mid
                      (record { pos = mid; cmp = less }) (ground arith) (ground arith)))
                  (rw next (
                    rw next2 (
                      search_loop-range_loop bt key few small short fuel (mid + 1) hi
                        (record { pos = mid + 1; cmp = greater }) (ground arith) q))))
      | inr over ↦ ground arith
    ]
