-- ===== src/Btree/Valid.antt =====
-- The well-formed state of a block, the map that it stands for, and what it means that one block
-- is another with an item more.
use ngnfs_progs.Prelude.{
  ℕ, zero, suc, ◌+◌, ◌*◌, ◌-◌, ◌≤◌, ◌<◌, ◌≡◌, ◌≢◌, ◌⊎◌, ◌↔◌, inl, inr, refl, ap, sym, ◌∙◌, ltb,
  if◌then◌else◌, arith,
}
use ngnfs_progs.Prelude.Memory.{read_bytes-ext}
use ngnfs_progs.Btree.Keys.{Bytes, cmp_keys_irrefl}
use ngnfs_progs.Btree.Layout.{
  BtreeBlock, block_size, header_size, item_off_size, max_free, off_at, key_at, val_at, size_at,
}
use ngnfs_progs.Btree.Search.{IsSorted, Splits}

-- The bytes that the first `n` items use, their entries in the offset array included.
unfoldable pub used : BtreeBlock → ℕ → ℕ
used bt zero = 0
used bt (suc n) = used bt n + (item_off_size + size_at bt n)

-- No two payloads overlap.
abbrev pub Apart : BtreeBlock → Type 0
Apart bt =
    (i j : ℕ)
    → i < j
    → j < bt.nr_items
    → (off_at bt i + size_at bt i ≤ off_at bt j) ⊎ (off_at bt j + size_at bt j ≤ off_at bt i)

-- The offset array, the free region and the payloads follow one another in the block; payloads
-- do not overlap; the counts of free space are right; the keys strictly increase.
pub record IsValid (bt : BtreeBlock) : Type 0 where
  pub room : header_size + item_off_size * bt.nr_items + bt.avail_free ≤ block_size
  pub avail_le_total : bt.avail_free ≤ bt.total_free
  pub account : bt.total_free + used bt bt.nr_items ≡ max_free
  pub behind :
      (i : ℕ)
      → i < bt.nr_items
      → header_size + item_off_size * bt.nr_items + bt.avail_free ≤ off_at bt i
  pub inside : (i : ℕ) → i < bt.nr_items → off_at bt i + size_at bt i ≤ block_size
  pub apart : Apart bt
  pub sorted : IsSorted bt

-- The block holds the key with that value.
abbrev pub Maps : BtreeBlock → Bytes → Bytes → Type 0
Maps bt key val = (i : ℕ) × (i < bt.nr_items) × (key_at bt i ≡ key) × (val_at bt i ≡ val)

-- The item at `i` in `bt` is the item at `j` in `nb`.
pub record SameItem (bt : BtreeBlock) (i : ℕ) (nb : BtreeBlock) (j : ℕ) : Type 0 where
  pub off : off_at nb j ≡ off_at bt i
  pub size : size_at nb j ≡ size_at bt i
  pub key : key_at nb j ≡ key_at bt i
  pub val : val_at nb j ≡ val_at bt i

order_cases : (i j : ℕ) → (i ≡ j) ⊎ ((i < j) ⊎ (j < i))
order_cases i j = ground arith

-- A key stands at one position only, so a block maps a key to at most one value.
pub key_at-injective :
    (bt : BtreeBlock) (i j : ℕ)
    → IsSorted bt
    → i < bt.nr_items
    → j < bt.nr_items
    → key_at bt i ≡ key_at bt j
    → i ≡ j
key_at-injective bt i j sorted h k e = elim (order_cases i j) [
  | inl q ↦ q
  | inr (inl l) ↦ absurd (cmp_keys_irrefl (key_at bt j) (rw e at (sorted i j l k)))
  | inr (inr g) ↦ absurd (cmp_keys_irrefl (key_at bt j) (rw e at (sorted j i g h)))
]

pub Maps-unique :
    (bt : BtreeBlock) (key v w : Bytes) → IsSorted bt → Maps bt key v → Maps bt key w → v ≡ w
Maps-unique bt key v w sorted (i, h, ki, vi) (j, k, kj, wj) =
    sym vi ∙ ap (val_at bt) (key_at-injective bt i j sorted h k (ki ∙ sym kj)) ∙ wj

-- Where the search has found the place of a missing key, the key is mapped to nothing.
pub Splits-not_Maps :
    (bt : BtreeBlock) (key val : Bytes) (pos : ℕ) → Splits bt key pos → ¬ Maps bt key val
Splits-not_Maps bt key val pos s (i, h, e, _) = elim (side i pos) [
  | inl l ↦ cmp_keys_irrefl key (rw e at (s.below i l))
  | inr g ↦ cmp_keys_irrefl key (rw e at (s.above i g h))
]
  where
    side : (a b : ℕ) → (a < b) ⊎ (b ≤ a)
    side a b = ground arith

-- An item is the same where its offset is and all bytes from there on are.
pub SameItem-of_bytes :
    (bt : BtreeBlock) (i : ℕ) (nb : BtreeBlock) (j : ℕ)
    → off_at nb j ≡ off_at bt i
    → ((a : ℕ) → off_at bt i ≤ a → nb.mem a ≡ bt.mem a)
    → SameItem bt i nb j
unfolding key_at val_at size_at
SameItem-of_bytes bt i nb j e agree = record {
  off = e;
  size = rw e (omega (arith, low, high, keys));
  key =
      rw (e, keys)
        (read_bytes-ext nb.mem bt.mem _ _ _ (λ k h. agree (off_at bt i + 3 + k) (omega arith)));
  val =
      rw (e, keys, low, high)
        (read_bytes-ext nb.mem bt.mem _ _ _
          (λ k h. agree (off_at bt i + 3 + bt.mem (off_at bt i + 2) + k) (omega arith)));
}
  where
    low : nb.mem (off_at bt i) ≡ bt.mem (off_at bt i)
    low = agree (off_at bt i) (omega arith)

    high : nb.mem (off_at bt i + 1) ≡ bt.mem (off_at bt i + 1)
    high = agree (off_at bt i + 1) (omega arith)

    keys : nb.mem (off_at bt i + 2) ≡ bt.mem (off_at bt i + 2)
    keys = agree (off_at bt i + 2) (omega arith)

-- Where the item at `i` stands after an insertion at `pos`.
abbrev pub skip : ℕ → ℕ → ℕ
skip pos i = if ltb i pos then i else i + 1

-- `nb` is `bt` with one item more, at `pos`.
pub record Inserted (bt nb : BtreeBlock) (pos : ℕ) : Type 0 where
  pub count : nb.nr_items ≡ bt.nr_items + 1
  pub in_range : pos ≤ bt.nr_items
  pub keeps : (i : ℕ) → i < bt.nr_items → SameItem bt i nb (skip pos i)

pub skip_cases :
    (pos n j : ℕ) → pos ≤ n → j < n + 1 → (j ≡ pos) ⊎ ((i : ℕ) × (i < n) × (j ≡ skip pos i))
skip_cases pos n j p h = elim (cmp j) [
  | inl e ↦ inl e
  | inr (inl l) ↦ inr (j, omega arith, ground arith)
  | inr (inr g) ↦ inr (j - 1, omega arith, ground arith)
]
  where
    cmp : (j : ℕ) → (j ≡ pos) ⊎ ((j < pos) ⊎ (pos < j))
    cmp j = ground arith

skip_ne : (pos i : ℕ) → skip pos i ≢ pos
skip_ne pos i h = ground arith

zero_of : (m : ℕ) → m ≤ 0 → m ≡ 0
zero_of m h = omega arith

module _ (bt nb : BtreeBlock) (pos : ℕ) (ins : Inserted bt nb pos) where
  keeps_below : (i : ℕ) → i < bt.nr_items → i < pos → SameItem bt i nb i
  keeps_below i h l = let e : skip pos i ≡ i = ground arith in rw e at (ins.keeps i h)

  keeps_above : (i : ℕ) → i < bt.nr_items → pos ≤ i → SameItem bt i nb (suc i)
  keeps_above i h l = let e : skip pos i ≡ suc i = ground arith in rw e at (ins.keeps i h)

  -- The sum over the items grows by the new one.
  used_prefix : (n : ℕ) → n ≤ pos → used nb n ≡ used bt n
  unfolding used
  used_prefix zero h = refl
  used_prefix (suc n) h =
      let inside = ins.in_range in
      omega (arith, used_prefix n (omega arith), (keeps_below n (omega arith) h).size)

  used_suffix :
      (n : ℕ)
      → pos ≤ n
      → n ≤ bt.nr_items
      → used nb (suc n) ≡ used bt n + (item_off_size + size_at nb pos)
  unfolding used
  used_suffix zero h k = omega (arith, ap (size_at nb) (zero_of pos h))
  used_suffix (suc n) h k = elim (last (suc n) h) [
    | inl e ↦ omega (
      arith,
      ap (size_at nb) e,
      used_prefix n (omega arith),
      (keeps_below n (omega arith) (omega arith)).size,
    )
    | inr l ↦
        omega
          (arith, used_suffix n (omega arith) (omega arith), (keeps_above n k (omega arith)).size)
  ]
    where
      last : (m : ℕ) → pos ≤ m → (pos ≡ m) ⊎ (pos < m)
      last m p = ground arith

  pub used-Inserted : used nb nb.nr_items ≡ used bt bt.nr_items + (item_off_size + size_at nb pos)
  used-Inserted =
      let e : nb.nr_items ≡ suc bt.nr_items = omega (arith, ins.count) in
      ap (used nb) e ∙ used_suffix bt.nr_items ins.in_range (omega arith)

  -- The map of the larger block is the other's with one binding more.
  Maps-to :
      (key val : Bytes)
      → Maps nb key val
      → Maps bt key val ⊎ ((key_at nb pos ≡ key) × (val_at nb pos ≡ val))
  Maps-to key val (j, h, ek, ev) =
      elim (skip_cases pos bt.nr_items j ins.in_range (omega (arith, ins.count))) [
        | inl e ↦ inr (rw (← e) ek, rw (← e) ev)
        | inr (i, l, e) ↦ let same = ins.keeps i l in inl (i, l, cc (same.key, e), cc (same.val, e))
      ]

  Maps-from :
      (key val : Bytes)
      → Maps bt key val ⊎ ((key_at nb pos ≡ key) × (val_at nb pos ≡ val))
      → Maps nb key val
  Maps-from key val (inl (i, l, ek, ev)) =
      (skip pos i, ground (arith, ins.count), cc (ins.keeps i l).key, cc (ins.keeps i l).val)
  Maps-from key val (inr (ek, ev)) = (pos, omega (arith, ins.count, ins.in_range), ek, ev)

  pub Maps-Inserted :
      (key val : Bytes)
      → Maps nb key val ↔ (Maps bt key val ⊎ ((key_at nb pos ≡ key) × (val_at nb pos ≡ val)))
  Maps-Inserted key val = (Maps-to key val, Maps-from key val)

  pub IsSorted-Inserted : IsSorted bt → Splits bt (key_at nb pos) pos → IsSorted nb
  IsSorted-Inserted sorted splits i j h k =
      elim (skip_cases pos bt.nr_items j ins.in_range (omega (arith, ins.count))) [
        | inl ej ↦ elim (skip_cases pos bt.nr_items i ins.in_range (omega (arith, ins.count))) [
          | inl ei ↦ absurd (omega arith)
          | inr (a, la, ea) ↦ rw (ej, ea, (ins.keeps a la).key) (splits.below a (ground arith))
        ]
        | inr (b, lb, eb) ↦
            elim (skip_cases pos bt.nr_items i ins.in_range (omega (arith, ins.count))) [
              | inl ei ↦ rw (ei, eb, (ins.keeps b lb).key) (splits.above b (ground arith) lb)
              | inr (a, la, ea) ↦
                  rw (ea, eb, (ins.keeps a la).key, (ins.keeps b lb).key)
                    (sorted a b (ground arith) lb)
            ]
      ]

  pub IsSorted-of_Inserted : IsSorted nb → IsSorted bt
  IsSorted-of_Inserted sorted i j h k =
      rw (← (ins.keeps i (omega arith)).key, ← (ins.keeps j k).key)
        (sorted (skip pos i) (skip pos j) (ground arith) (ground (arith, ins.count)))

  -- Payloads that do not overlap stay so if the new one lies before all others.
  pub Apart-Inserted :
      ((i : ℕ) → i < bt.nr_items → off_at nb pos + size_at nb pos ≤ off_at bt i)
      → Apart bt
      → Apart nb
  Apart-Inserted first apart i j h k =
      elim (skip_cases pos bt.nr_items j ins.in_range (omega (arith, ins.count))) [
        | inl ej ↦ elim (skip_cases pos bt.nr_items i ins.in_range (omega (arith, ins.count))) [
          | inl ei ↦ absurd (omega arith)
          | inr (a, la, ea) ↦ rw (ej, ea, (ins.keeps a la).off) (inr (first a la))
        ]
        | inr (b, lb, eb) ↦
            elim (skip_cases pos bt.nr_items i ins.in_range (omega (arith, ins.count))) [
              | inl ei ↦ rw (ei, eb, (ins.keeps b lb).off) (inl (first b lb))
              | inr (a, la, ea) ↦
                  rw
                    (
                      ea,
                      eb,
                      (ins.keeps a la).off,
                      (ins.keeps b lb).off,
                      (ins.keeps a la).size,
                      (ins.keeps b lb).size,
                    )
                    (apart a b (ground arith) lb)
            ]
      ]

  pub Apart-of_Inserted : Apart nb → Apart bt
  Apart-of_Inserted apart i j h k =
      rw
        (
          ← (ins.keeps i (omega arith)).off,
          ← (ins.keeps i (omega arith)).size,
          ← (ins.keeps j k).off,
          ← (ins.keeps j k).size,
        )
        (apart (skip pos i) (skip pos j) (ground arith) (ground (arith, ins.count)))

  -- No binding of the smaller block has the key of the item that it lacks.
  pub Maps-ne : IsSorted nb → (key val : Bytes) → Maps bt key val → key ≢ key_at nb pos
  Maps-ne sorted key val (i, h, e, _) k = skip_ne pos i (
      key_at-injective nb (skip pos i) pos sorted (ground (arith, ins.count))
        (omega (arith, ins.count, ins.in_range)) ((ins.keeps i h).key ∙ e ∙ k))
