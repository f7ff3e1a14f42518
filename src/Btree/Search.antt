-- ===== src/Btree/Search.antt =====
-- btree_search of shared/btree.c: binary search in the sorted offset array.
pub mod Range
pub mod Found
use ngnfs_progs.Prelude.{
  ℕ, zero, suc, ◌+◌, ◌-◌, ◌/◌, ◌≤◌, ◌<◌, ◌≡◌, ◌≢◌, ◌⊎◌, inl, inr, arith, ltb, leb, true, false,
  Bool-cases, ◌^◌, ◌%◌, if◌then◌else◌, length, take, refl, ap, sym, subst, ◌∙◌, take_all,
}
use ngnfs_progs.Prelude.Run.{Run, done, hang, ◌>>=◌, Returns}
use ngnfs_progs.Prelude.Words.{u16_mod, add16, sub16}
use ngnfs_progs.Btree.Keys.{
  Bytes, Sign, less, same, greater, cmp_keys, cmp_keys_s16, cmp_keys_s16-cmp_keys, s16_max,
  cmp_keys_trans, cmp_keys-flip, eq_of_cmp_keys,
}
use ngnfs_progs.Btree.Layout.{BtreeBlock, off_at, key_of, key_at, item_ptr, item_ptr-done}

pub record BtreeSearchResult : Type 0 where
  pub pos : ℕ
  pub cmp : Sign

-- The bits of a u16 as an s16. An s16 x stands as the number x + 2 ^ 15, whose order is that of s16.
abbrev pub to_s16 : ℕ → ℕ
to_s16 x = (x + 32768) % u16_mod

-- `(first + last) >> 1` as a u16.
abbrev pub middle : ℕ → ℕ → ℕ
middle first last = ((first + last) / 2 + 32768) % u16_mod

-- The loop on the two s16. What the fuel bounds is the number of rounds.
unfoldable pub search_loop :
    ℕ → BtreeBlock → Bytes → ℕ → ℕ → BtreeSearchResult → Run BtreeSearchResult
search_loop zero bt key first last res = if leb first last then hang else done res
search_loop (suc fuel) bt key first last res =
    let mid = middle first last in
    elim (leb first last) [
      | false ↦ done res
      | true ↦ do
        item ← item_ptr bt mid
        elim (cmp_keys_s16 key (key_of bt.mem item)) [
          | same ↦ done (record { pos = mid; cmp = same })
          | less ↦
              search_loop fuel bt key first (to_s16 (sub16 mid 1))
                (record { pos = mid; cmp = less })
          | greater ↦
              search_loop fuel bt key (to_s16 (add16 mid 1)) last
                (record { pos = add16 mid 1; cmp = greater })
        ]
    ]

-- The size of the key is passed as a u16. A search halves its range, so 16 rounds are more than any
-- count of items needs.
unfoldable pub btree_search : BtreeBlock → Bytes → Run BtreeSearchResult
btree_search bt key =
    search_loop 16 bt (take (length key % u16_mod) key) (to_s16 0) (to_s16 (sub16 bt.nr_items 1))
      (record { pos = 0; cmp = greater })

-- The keys strictly increase along the offset array.
abbrev pub IsSorted : BtreeBlock → Type 0
IsSorted bt = (i j : ℕ) → i < j → j < bt.nr_items → cmp_keys (key_at bt i) (key_at bt j) ≡ less

-- What a search result says of the block: the key is at the position, or the position splits
-- the items into lesser and greater keys.
pub record Splits (bt : BtreeBlock) (key : Bytes) (pos : ℕ) : Type 0 where
  pub in_range : pos ≤ bt.nr_items
  pub below : (i : ℕ) → i < pos → cmp_keys (key_at bt i) key ≡ less
  pub above : (i : ℕ) → pos ≤ i → i < bt.nr_items → cmp_keys key (key_at bt i) ≡ less

abbrev pub Finds : BtreeBlock → Bytes → BtreeSearchResult → Type 0
Finds bt key res =
    ((res.cmp ≡ same) × (res.pos < bt.nr_items) × (key_at bt res.pos ≡ key))
    ⊎ ((res.cmp ≢ same) × Splits bt key res.pos)

-- Keys of items whose sizes an s16 holds; they are bytes in the code.
abbrev pub AreShort : BtreeBlock → Type 0
AreShort bt = (i : ℕ) → i < bt.nr_items → length (key_at bt i) ≤ s16_max
