-- ===== src/Btree/Map/Lookup.antt =====
-- ngnfs_btree_lookup of shared/btree.c on the map of a block.
use Prim.Native.Nat.{min}
use native.Mathlib.Nat.{zero-min, min-zero, suc-min-suc}
use ngnfs_progs.Prelude.{
  ℕ, zero, suc, ◌+◌, ◌≤◌, ◌≡◌, ◌⊎◌, inl, inr, refl, sym, ap, ◌∙◌, arith, [], ◌∷◌, ltb,
  if◌then◌else◌, length, take, Bool-cases,
}
use ngnfs_progs.Prelude.Run.{Returns}
use ngnfs_progs.Prelude.Errno.{Ret, ok, err, enoent}
use ngnfs_progs.Prelude.Memory.{read_bytes, length-read_bytes}
use ngnfs_progs.Btree.Keys.{Bytes, s16_max}
use ngnfs_progs.Btree.Layout.{BtreeBlock, item_ptr-done, item_val_size, val_ptr, off_at, val_at}
use ngnfs_progs.Btree.Valid.{IsValid, Maps, Splits-not_Maps}
use ngnfs_progs.Btree.Ops.{ngnfs_btree_lookup}
use ngnfs_progs.Btree.Map.{Outcome, hit, lower, upper, search-Outcome}

-- The result of a lookup with a buffer of `n` bytes: the start of the value and its size, or
-- ENOENT where the key is mapped to nothing.
abbrev pub LooksUp : BtreeBlock → Bytes → ℕ → Ret × Bytes → Type 0
LooksUp bt key n r =
    ((val : Bytes) × Maps bt key val × (r ≡ (ok (min n (length val)), take n val)))
    ⊎ (((val : Bytes) → ¬ Maps bt key val) × (r ≡ (err enoent, [])))

-- The first bytes of an item's value.
take-read_bytes :
    (m : ℕ → ℕ) (a n size : ℕ) → read_bytes m a (min n size) ≡ take n (read_bytes m a size)
unfolding read_bytes
take-read_bytes m a zero size = rw zero-min
take-read_bytes m a (suc n) zero = rw min-zero
take-read_bytes m a (suc n) (suc size) =
    rw suc-min-suc (ap (◌∷◌ (m a)) (take-read_bytes m (a + 1) n size))

copied :
    (m : ℕ → ℕ) (a n size : ℕ)
    → (if ltb 0 (min n size) then read_bytes m a (min n size) else [])
      ≡ take n (read_bytes m a size)
copied m a n size = elim (Bool-cases (ltb 0 (min n size))) [
  | inl l ↦ rw l (take-read_bytes m a n size)
  | inr g ↦ rw g (sym (zero_bytes (min n size) (ground arith)) ∙ take-read_bytes m a n size)
]
  where
    zero_bytes : (k : ℕ) → k ≡ 0 → read_bytes m a k ≡ []
    zero_bytes k e = rw e (unfold read_bytes in refl)

-- On a well-formed block and for a key of at most 32767 bytes, a lookup returns what the map says: the
-- start of the value and its size, up to the size of the buffer, or ENOENT for a key that is not mapped.
pub lookup-LooksUp :
    (bt : BtreeBlock) (key : Bytes) (n : ℕ)
    → IsValid bt
    → length key ≤ s16_max
    → Returns (ngnfs_btree_lookup bt key n) (LooksUp bt key n)
unfolding ngnfs_btree_lookup val_at
lookup-LooksUp bt key n valid small = go (search-Outcome bt key valid small)
  where
    go : Outcome bt key → Returns (ngnfs_btree_lookup bt key n) (LooksUp bt key n)
    go (hit pos e p k) =
        rw (e, item_ptr-done bt pos (omega arith))
          (inl (val_at bt pos, (pos, p, k, refl), λ i. (ok (min n (sym sizes i)), bytes i)))
      where
        sizes : length (val_at bt pos) ≡ item_val_size bt.mem (off_at bt pos)
        sizes = length-read_bytes bt.mem (val_ptr bt.mem (off_at bt pos)) _

        bytes :
            (if ltb 0 (min n (item_val_size bt.mem (off_at bt pos)))
              then read_bytes bt.mem
                  (val_ptr bt.mem (off_at bt pos))
                  (min n (item_val_size bt.mem (off_at bt pos)))
              else [])
            ≡ take n (val_at bt pos)
        bytes = copied bt.mem (val_ptr bt.mem (off_at bt pos)) n _
    go (lower pos e s) = rw e (inr (λ val. Splits-not_Maps bt key val pos s, refl))
    go (upper pos e s) = rw e (inr (λ val. Splits-not_Maps bt key val pos s, refl))
