-- ===== src/Btree/Search/Found.antt =====
-- What btree_search finds.
use native.Mathlib.Nat.{pow-suc}
use ngnfs_progs.Prelude.{
  ℕ, zero, suc, ◌+◌, ◌-◌, ◌/◌, ◌≤◌, ◌<◌, ◌≡◌, ◌≢◌, ◌⊎◌, inl, inr, arith, ltb, Bool-cases, ◌^◌, ◌%◌,
  length, take, refl, ap, ◌∙◌, take_all,
}
use ngnfs_progs.Prelude.Run.{Returns}
use ngnfs_progs.Prelude.Words.{u16_mod, sub16}
use ngnfs_progs.Btree.Keys.{
  Bytes, less, same, greater, cmp_keys, s16_max, cmp_keys_trans, cmp_keys-flip, eq_of_cmp_keys,
}
use ngnfs_progs.Btree.Layout.{BtreeBlock, key_at, item_ptr-done}
use ngnfs_progs.Btree.Search.{BtreeSearchResult, to_s16, btree_search, IsSorted, Finds, AreShort}
use ngnfs_progs.Btree.Search.Range.{range_loop, search_loop-range_loop}

-- The loop's invariant.
record Inv (bt : BtreeBlock) (key : Bytes) (first hi : ℕ) : Type 0 where
  ordered : first ≤ hi
  inside : hi ≤ bt.nr_items
  below : (i : ℕ) → i < first → cmp_keys (key_at bt i) key ≡ less
  above : (i : ℕ) → hi ≤ i → i < bt.nr_items → cmp_keys key (key_at bt i) ≡ less

le_cases : (a b : ℕ) → a ≤ b → (a ≡ b) ⊎ (a < b)
le_cases a b h = ground arith

module _ (bt : BtreeBlock) (key : Bytes) (sorted : IsSorted bt) where
  -- Past an item that is greater than the key all items are, and before a lesser one all are.
  above_mid :
      (mid : ℕ)
      → mid < bt.nr_items
      → cmp_keys key (key_at bt mid) ≡ less
      → (i : ℕ) → mid ≤ i
      → i < bt.nr_items
      → cmp_keys key (key_at bt i) ≡ less
  above_mid mid q c i p t = elim (le_cases mid i p) [
    | inl e ↦ rw (← e) c
    | inr l ↦ cmp_keys_trans key (key_at bt mid) (key_at bt i) c (sorted mid i l t)
  ]

  below_mid :
      (mid : ℕ)
      → mid < bt.nr_items
      → cmp_keys key (key_at bt mid) ≡ greater
      → (i : ℕ) → i < mid + 1
      → cmp_keys (key_at bt i) key ≡ less
  below_mid mid q c i p = elim (le_cases i mid (omega arith)) [
    | inl e ↦ rw e mid_less
    | inr l ↦ cmp_keys_trans (key_at bt i) (key_at bt mid) key (sorted i mid l q) mid_less
  ]
    where
      mid_less : cmp_keys (key_at bt mid) key ≡ less
      mid_less = cc (cmp_keys-flip key (key_at bt mid))

  module _ (first hi : ℕ) (inv : Inv bt key first hi) (mid : ℕ) (p : first ≤ mid)
      (q : mid < hi) where
    lower_Inv : cmp_keys key (key_at bt mid) ≡ less → Inv bt key first mid
    lower_Inv c = record {
      ordered = p;
      inside = omega arith;
      below = inv.below;
      above = above_mid mid (omega arith) c;
    }

    upper_Inv : cmp_keys key (key_at bt mid) ≡ greater → Inv bt key (mid + 1) hi
    upper_Inv c = record {
      ordered = omega arith;
      inside = omega arith;
      below = below_mid mid (omega arith) c;
      above = inv.above;
    }

  -- The loop leaves with such a result when its range has closed.
  closed-Finds :
      (first hi : ℕ) (res : BtreeSearchResult)
      → Inv bt key first hi
      → hi ≤ first
      → res.cmp ≢ same
      → (first ≡ hi → res.pos ≡ first)
      → Finds bt key res
  closed-Finds first hi res inv c ne at = inr (
    ne,
    rw (at meet) (record { in_range = omega arith; below = inv.below; above = rw meet inv.above }),
  )
    where
      meet : first ≡ hi
      meet = omega arith

  range_loop-Finds :
      (fuel first hi : ℕ) (res : BtreeSearchResult)
      → hi - first < 2 ^ fuel
      → Inv bt key first hi
      → res.cmp ≢ same
      → (first ≡ hi → res.pos ≡ first)
      → Returns (range_loop fuel bt key first hi res) (Finds bt key)
  unfolding range_loop key_at
  range_loop-Finds zero first hi res w inv ne at = ground (arith, closed-Finds first hi res inv)
  range_loop-Finds (suc fuel) first hi res w inv ne at =
      let mid = (first + hi - 1) / 2 in
      elim (Bool-cases (ltb first hi)) [
        | inl more ↦
            let lo : first ≤ mid = ground arith in
            let up : mid < hi = ground arith in
            rw (more, range_loop, item_ptr-done bt mid (ground arith))
              (ground (
                arith,
                lower_Inv first hi inv mid lo up,
                upper_Inv first hi inv mid lo up,
                eq_of_cmp_keys key (key_at bt mid),
                pow-suc 2 fuel,
                range_loop-Finds fuel first mid (record { pos = mid; cmp = less }),
                range_loop-Finds fuel (mid + 1) hi (record { pos = mid + 1; cmp = greater }),
              ))
        | inr over ↦ rw (over, range_loop) (closed-Finds first hi res inv (ground arith) ne at)
      ]

-- On a sorted block of at most 32767 items, for a key of at most 32767 bytes, and where the items'
-- keys are no longer than that: the search ends within 16 rounds without a failed assertion, and
-- finds the key or the place where it belongs.
pub btree_search-Finds :
    (bt : BtreeBlock) (key : Bytes)
    → IsSorted bt
    → bt.nr_items ≤ s16_max
    → length key ≤ s16_max
    → AreShort bt
    → Returns (btree_search bt key) (Finds bt key)
unfolding btree_search
btree_search-Finds bt key sorted few small short =
    let whole : take (length key % u16_mod) key ≡ key =
      ap (λ n. take n key) (omega (arith, small)) ∙ take_all key in
    let last : to_s16 (sub16 bt.nr_items 1) ≡ bt.nr_items + 32767 = omega (arith, few) in
    let start : BtreeSearchResult = record { pos = 0; cmp = greater } in
    rw
      (
        whole,
        last,
        search_loop-range_loop bt key few small short 16 0 bt.nr_items start (omega arith)
            (omega arith),
      )
      (range_loop-Finds bt key sorted 16 0 bt.nr_items start (omega (arith, few)) whole_Inv
        (λ e. cc) (λ e. refl))
  where
    whole_Inv : Inv bt key 0 bt.nr_items
    whole_Inv = record {
      ordered = omega arith;
      inside = omega arith;
      below = λ i h. absurd (omega arith);
      above = λ i h k. absurd (omega arith);
    }
