-- ===== src/Btree/Balance/Copy.antt =====
-- The loop of move_items of shared/btree.c that copies all items of a block in front of those of
-- another: what the memory holds after each round.
use ngnfs_progs.Prelude.{
  ℕ, zero, suc, ◌+◌, ◌*◌, ◌-◌, ◌≤◌, ◌<◌, ◌≡◌, ◌⊎◌, inl, inr, refl, ◌∙◌, subst, arith,
}
use ngnfs_progs.Prelude.Memory.{Mem, load16, store16}
use ngnfs_progs.Btree.Layout.{BtreeBlock, item_off_ptr, off_at, size_at}
use ngnfs_progs.Btree.Valid.{IsValid, used}
use ngnfs_progs.Btree.Move.{memcpy_from}

-- An item more adds at least its entry.
pub used_grows : (bt : BtreeBlock) (i n : ℕ) → i ≤ n → used bt i + 2 * (n - i) ≤ used bt n
unfolding used
used_grows bt i zero h = ground arith
used_grows bt i (suc n) h = elim (cases i (suc n) h) [
  | inl e ↦ rw e (omega arith)
  | inr l ↦ omega (arith, used_grows bt i n (omega arith))
]
  where
    cases : (a b : ℕ) → a ≤ b → (a ≡ b) ⊎ (a < b)
    cases a b l = ground arith

pub used_none : (bt : BtreeBlock) → used bt 0 ≡ 0
unfolding used
used_none bt = refl

-- A round stores the entry at `p` and copies `n` bytes to `e`.
abbrev pub stored : Mem → ℕ → ℕ → Mem → ℕ → ℕ → Mem
stored m p e from q n = memcpy_from (store16 m p e) e from q n

module _ (m : Mem) (p e : ℕ) (from : Mem) (q n : ℕ) (apart : p + 2 ≤ e) where
  stored_array : (a : ℕ) → a < e → (a < p) ⊎ (p + 2 ≤ a) → stored m p e from q n a ≡ m a
  unfolding memcpy_from store16
  stored_array a h (inl l) = ground arith
  stored_array a h (inr g) = ground arith

  stored_beyond : (a : ℕ) → e + n ≤ a → stored m p e from q n a ≡ m a
  unfolding memcpy_from store16
  stored_beyond a h = ground arith

  stored_entry : e < 65536 → load16 (stored m p e from q n) p ≡ e
  unfolding memcpy_from store16
  stored_entry h = ground arith

  stored_bytes : (j : ℕ) → j < n → stored m p e from q n (e + j) ≡ from (q + j)
  unfolding memcpy_from store16
  stored_bytes j h = ground arith

  stored_other :
      (k i : ℕ)
      → p ≡ item_off_ptr i
      → item_off_ptr k + 2 ≤ e
      → (k < i) ⊎ (i < k)
      → load16 (stored m p e from q n) (item_off_ptr k) ≡ load16 m (item_off_ptr k)
  stored_other k i pi h (inl l) = omega (
    arith,
    stored_array (item_off_ptr k) (omega arith) (inl (omega arith)),
    stored_array (item_off_ptr k + 1) (omega arith) (inl (omega arith)),
  )
  stored_other k i pi h (inr g) = omega (
    arith,
    stored_array (item_off_ptr k) (omega arith) (inr (omega arith)),
    stored_array (item_off_ptr k + 1) (omega arith) (inr (omega arith)),
  )

last_cases : (k i : ℕ) → k < suc i → (k ≡ i) ⊎ (k < i)
last_cases k i h = ground arith

module _ (dst src : BtreeBlock) where
  -- Where the payload of item `i` ends, and those of the items before it begin.
  abbrev pub end_of : ℕ → ℕ
  end_of i = item_off_ptr dst.nr_items + dst.avail_free + 2 * i - used src i

  -- The first `i` items are copied.
  pub record Copied (i : ℕ) (m : Mem) : Type 0 where
    pub offs : (k : ℕ) → k < i → load16 m (item_off_ptr k) ≡ end_of (suc k)
    pub bytes :
        (k j : ℕ) → k < i → j < size_at src k → m (end_of (suc k) + j) ≡ src.mem (off_at src k + j)
    pub slots :
        (k : ℕ) → k < dst.nr_items → load16 m (item_off_ptr (src.nr_items + k)) ≡ off_at dst k
    pub others : (a : ℕ) → item_off_ptr dst.nr_items + dst.avail_free ≤ a → m a ≡ dst.mem a

  abbrev pub copied : ℕ → Mem → Mem
  copied i m = stored m (item_off_ptr i) (end_of (suc i)) src.mem (off_at src i) (size_at src i)

  module _ (vs : IsValid src) (vd : IsValid dst)
      (fits : used src src.nr_items ≤ dst.avail_free) where
    pub end_step : (i : ℕ) → i < src.nr_items → end_of (suc i) + size_at src i ≡ end_of i
    unfolding used
    end_step i h = omega (arith, used_grows src (suc i) src.nr_items h)

    pub end_above : (i n : ℕ) → i ≤ n → n ≤ src.nr_items → end_of n ≤ end_of i
    end_above i n h k = omega (arith, used_grows src i n h)

    pub end_beyond :
        (i : ℕ) → i ≤ src.nr_items → item_off_ptr (src.nr_items + dst.nr_items) ≤ end_of i
    end_beyond i h = omega (arith, used_grows src i src.nr_items h)

    pub end_below : (i : ℕ) → end_of i ≤ 4096 + 2 * i
    end_below i = omega (arith, vd.room)

    module _ (i : ℕ) (m : Mem) (h : i < src.nr_items) (c : Copied i m) where
      beyond : item_off_ptr (src.nr_items + dst.nr_items) ≤ end_of (suc i)
      beyond = end_beyond (suc i) h

      apart : item_off_ptr i + 2 ≤ end_of (suc i)
      apart = omega (arith, beyond)

      offs_kept : (k : ℕ) → k < suc i → load16 (copied i m) (item_off_ptr k) ≡ end_of (suc k)
      offs_kept k l = elim (last_cases k i l) [
        | inl e ↦ rw e (
            stored_entry m (item_off_ptr i) (end_of (suc i)) src.mem (off_at src i) (size_at src i)
              apart (omega (arith, end_above 0 (suc i) (omega arith) h, end_below 0)))
        | inr b ↦
            stored_other m (item_off_ptr i) (end_of (suc i)) src.mem (off_at src i) (size_at src i)
              apart k i refl (omega (arith, beyond)) (inl b)
            ∙ c.offs k b
      ]

      bytes_kept :
          (k j : ℕ)
          → k < suc i
          → j < size_at src k
          → copied i m (end_of (suc k) + j) ≡ src.mem (off_at src k + j)
      bytes_kept k j l b = elim (last_cases k i l) [
        | inl e ↦ new k e b
        | inr older ↦
            stored_beyond m (item_off_ptr i) (end_of (suc i)) src.mem (off_at src i) (size_at src i)
              apart (end_of (suc k) + j)
              (omega (arith, end_step i h, end_above (suc k) i older (omega arith)))
            ∙ c.bytes k j older b
      ]
        where
          new :
              (k : ℕ)
              → k ≡ i
              → j < size_at src k
              → copied i m (end_of (suc k) + j) ≡ src.mem (off_at src k + j)
          new k e b = rw e (
              stored_bytes m (item_off_ptr i) (end_of (suc i)) src.mem (off_at src i)
                (size_at src i) apart j (subst (λ x. j < size_at src x) e b))

      slots_kept :
          (k : ℕ)
          → k < dst.nr_items
          → load16 (copied i m) (item_off_ptr (src.nr_items + k)) ≡ off_at dst k
      slots_kept k l =
          stored_other m (item_off_ptr i) (end_of (suc i)) src.mem (off_at src i) (size_at src i)
            apart (src.nr_items + k) i refl (omega (arith, beyond)) (inr (omega arith))
          ∙ c.slots k l

      others_kept :
          (a : ℕ) → item_off_ptr dst.nr_items + dst.avail_free ≤ a → copied i m a ≡ dst.mem a
      others_kept a l =
          stored_beyond m (item_off_ptr i) (end_of (suc i)) src.mem (off_at src i) (size_at src i)
            apart a
            (omega (arith, end_step i h, end_above 0 i (omega arith) (omega arith), used_none src))
          ∙ c.others a l

      pub copied-Copied : Copied (suc i) (copied i m)
      copied-Copied = record {
        offs = offs_kept;
        bytes = bytes_kept;
        slots = slots_kept;
        others = others_kept;
      }
