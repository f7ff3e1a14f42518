-- ===== src/Btree/Compact.antt =====
-- ngnfs_btree_compact and ngnfs_btree_verify of shared/btree.c, over sort_r of shared/lk/sort.c. The
-- C library's qsort_r is a parameter.
pub mod Compaction
pub mod Verification
use ngnfs_progs.Prelude.{
  ℕ, zero, suc, ◌+◌, ◌-◌, Bool, true, false, Option, none, some, ltb, leb, ◌==◌, ◌||◌,
  if◌then◌else◌,
}
use Prim.Native.Nat.{compare, Ordering}
use ngnfs_progs.Prelude.Int.{ℤ, pos, negsuc, ◌-ℤ◌, ◌+ℤ◌}
use ngnfs_progs.Prelude.Run.{Run, done, bug, hang, bug_on, ◌>>=◌, ◌>>◌}
use ngnfs_progs.Prelude.Words.{add16, sub16}
use ngnfs_progs.Prelude.Memory.{Mem, load16, store16, memmove}
use ngnfs_progs.Btree.Keys.{Sign, less, same, greater, cmp_keys}
use ngnfs_progs.Btree.Layout.{
  BtreeBlock, block_size, item_off_size, item_header_size, max_items, item_off_ptr, key_of,
  get_item_off, set_item_off, item_ptr, item_size, avail_free_end,
}

-- The comparison of the elements at two addresses.
abbrev pub CmpFn : Type 0
CmpFn = Mem → ℕ → ℕ → Sign

abbrev pub SwapFn : Type 0
SwapFn = Mem → ℕ → ℕ → Run Mem

-- qsort_r(base, num, size, cmp) in the memory of the block.
abbrev pub QsortR : Type 0
QsortR = Mem → ℕ → ℕ → ℕ → CmpFn → Run Mem

-- The function that swaps is not used.
abbrev pub sort_r : QsortR → Mem → ℕ → ℕ → ℕ → CmpFn → SwapFn → Run Mem
sort_r qsort_r m base num size cmp swap = qsort_r m base num size cmp

-- The sign of *off_b - *off_a.
abbrev pub cmp_item_off : CmpFn
cmp_item_off m a b = elim (compare (load16 m b) (load16 m a)) [
  | Ordering.lt ↦ less
  | Ordering.eq ↦ same
  | Ordering.gt ↦ greater
]

abbrev pub cmp_item_key : CmpFn
cmp_item_key m a b = cmp_keys (key_of m (load16 m a)) (key_of m (load16 m b))

-- An address in the block; one before it is none of its bytes.
abbrev pub in_block : ℤ → Option ℕ
in_block (pos a) = some a
in_block (negsuc a) = none

-- The words at two addresses; an access before the block traps.
abbrev pub swap_words : Mem → Option ℕ → Option ℕ → Run Mem
swap_words m (some a) (some b) = done (store16 (store16 m a (load16 m b)) b (load16 m a))
swap_words m (some a) none = bug
swap_words m none b = bug

abbrev pub is_zero : ℤ → Bool
is_zero (pos n) = n == 0
is_zero (negsuc n) = false

unfoldable pub swap_loop : ℕ → Mem → ℕ → ℕ → ℤ → Run Mem
swap_loop zero m a b n = hang
swap_loop (suc fuel) m a b n =
    let n1 = n -ℤ pos 4 in
    swap_words m (in_block (pos a +ℤ n1)) (in_block (pos b +ℤ n1)) >>= λ m1. elim (is_zero n1) [
      | true ↦ done m1
      | false ↦ swap_loop fuel m1 a b n1
    ]

-- A multiple of 4 takes n / 4 rounds, so n rounds are enough where it ends.
unfoldable pub swap_words_16 : Mem → ℕ → ℕ → ℕ → Run Mem
swap_words_16 m a b n = swap_loop n m a b (pos n)

-- sort_r(&bt->item_off[0], nr, sizeof(bt->item_off[0]), cmp, swap_words_16, bt)
unfoldable pub sort_offs : QsortR → BtreeBlock → CmpFn → Run BtreeBlock
sort_offs qsort_r bt cmp =
    sort_r qsort_r bt.mem (item_off_ptr 0) bt.nr_items item_off_size cmp
      (λ m a b. swap_words_16 m a b item_off_size)
    >>= λ m. done (record bt { mem = m })

-- A round of the loop over the items.
unfoldable pub compact_item : BtreeBlock → ℕ → ℕ → Run (BtreeBlock × ℕ)
compact_item bt i off = do
  item ← item_ptr bt i
  let size = item_size bt.mem item
  let off1 = sub16 off size
  old ← get_item_off bt i
  elim (old == off1) [
    | true ↦ done (bt, off1)
    | false ↦ do
      bt1 ← set_item_off bt i off1
      dst ← item_ptr bt1 i
      done (record bt1 { mem = memmove bt1.mem dst item size }, off1)
  ]

-- `i` is a u16, so `i >= 0` always holds.
unfoldable pub compact_loop : ℕ → BtreeBlock → ℕ → ℕ → Run BtreeBlock
compact_loop zero bt i off = hang
compact_loop (suc fuel) bt i off =
    compact_item bt i off >>= λ r. compact_loop fuel r.0 (sub16 i 1) r.1

-- The loop is given a round for each value of `i`.
unfoldable pub ngnfs_btree_compact : QsortR → BtreeBlock → Run BtreeBlock
ngnfs_btree_compact qsort_r bt = if bt.avail_free == bt.total_free then done bt else do
  bt1 ← sort_offs qsort_r bt cmp_item_off
  bt2 ← compact_loop 65536 bt1 (sub16 bt1.nr_items 1) block_size
  sort_offs qsort_r (record bt2 { avail_free = bt2.total_free }) cmp_item_key

-- The loop over the payloads: where it does not return false, the last `off` and `free`.
unfoldable pub verify_items : ℕ → BtreeBlock → ℕ → ℕ → ℕ → Run (Option (ℕ × ℕ))
verify_items zero bt i off free = done (some (off, free))
verify_items (suc rest) bt i off free = do
  start ← get_item_off bt i
  elim (ltb start off || ltb block_size (start + item_header_size)) [
    | true ↦ done none
    | false ↦ do
      item ← item_ptr bt i
      let size = item_size bt.mem item
      elim (ltb block_size size || ltb block_size (start + size)) [
        | true ↦ done none
        | false ↦
            verify_items rest bt (i + 1) (start + size)
              (if ltb off start then add16 free (start - off) else free)
      ]
  ]

abbrev pub increases : Sign → Bool
increases less = false
increases same = false
increases greater = true

-- The loop over the keys.
unfoldable pub verify_keys : ℕ → BtreeBlock → ℕ → ℕ → Run Bool
verify_keys zero bt i prev = done true
verify_keys (suc rest) bt i prev = do
  item ← item_ptr bt i
  elim (increases (cmp_keys (key_of bt.mem item) (key_of bt.mem prev))) [
    | false ↦ done false
    | true ↦ verify_keys rest bt (i + 1) item
  ]

-- The check of the order of the keys.
unfoldable pub verify_order : QsortR → BtreeBlock → Run (Bool × BtreeBlock)
verify_order qsort_r bt = do
  bt1 ← sort_offs qsort_r bt cmp_item_key
  prev ← item_ptr bt1 0
  valid ← verify_keys (bt1.nr_items - 1) bt1 1 prev
  done (valid, bt1)

-- What follows the first loop.
unfoldable pub verify_free : QsortR → BtreeBlock → ℕ → ℕ → Run (Bool × BtreeBlock)
verify_free qsort_r bt off free = do
  first ← get_item_off bt 0
  if ltb first (avail_free_end bt)
      then done (false, bt)
      else if bt.total_free == add16 free (block_size - off)
      then verify_order qsort_r bt
      else done (false, bt)

-- With the result, the block, whose offset array is sorted.
unfoldable pub ngnfs_btree_verify : QsortR → BtreeBlock → Run (Bool × BtreeBlock)
ngnfs_btree_verify qsort_r bt = if ltb max_items bt.nr_items then done (false, bt) else do
  bt1 ← sort_offs qsort_r bt cmp_item_off
  end ← verify_items bt1.nr_items bt1 0 (item_off_ptr bt1.nr_items) 0
  elim end [ none ↦ done (false, bt1) | some (off, free) ↦ verify_free qsort_r bt1 off free ]
