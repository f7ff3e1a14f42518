-- ===== src/Btree/Map/Deletion.antt =====
-- ngnfs_btree_delete of shared/btree.c on the map of a block.
use ngnfs_progs.Prelude.{ℕ, ◌≤◌, length, ◌≡◌, ◌≢◌, ◌⊎◌, ◌↔◌, inl, inr, refl, sym, ◌∙◌}
use ngnfs_progs.Prelude.Run.{Returns}
use ngnfs_progs.Prelude.Errno.{Ret, ok, err, enoent}
use ngnfs_progs.Btree.Keys.{Bytes, s16_max}
use ngnfs_progs.Btree.Layout.{BtreeBlock, key_at, val_at}
use ngnfs_progs.Btree.Valid.{IsValid, Maps, Inserted, Maps-Inserted, Maps-ne, Splits-not_Maps}
use ngnfs_progs.Btree.Remove.{remove_item-Inserted}
use ngnfs_progs.Btree.Ops.{ngnfs_btree_delete}
use ngnfs_progs.Btree.Map.{Outcome, hit, lower, upper, search-Outcome}

-- What a deletion returns: the block without the key's binding, or ENOENT.
abbrev pub Deletes : BtreeBlock → Bytes → Ret × BtreeBlock → Type 0
Deletes bt key r =
    (((val : Bytes) × Maps bt key val)
      × (r.0 ≡ ok 0)
      × IsValid r.1
      × ((k v : Bytes) → Maps r.1 k v ↔ (Maps bt k v × (k ≢ key))))
    ⊎ (((val : Bytes) → ¬ Maps bt key val) × (r ≡ (err enoent, bt)))

removes :
    (bt rb : BtreeBlock) (pos : ℕ) (key : Bytes)
    → IsValid bt
    → Inserted rb bt pos
    → key_at bt pos ≡ key
    → (k v : Bytes) → Maps rb k v ↔ (Maps bt k v × (k ≢ key))
removes bt rb pos key valid ins e k v = (
  λ m. (
    (Maps-Inserted rb bt pos ins k v).1 (inl m),
    rw e at (Maps-ne rb bt pos ins valid.sorted k v m),
  ),
  λ (m, ne). elim ((Maps-Inserted rb bt pos ins k v).0 m) [
    | inl kept ↦ kept
    | inr (same_key, _) ↦ absurd (ne (sym same_key ∙ e))
  ],
)

-- On a well-formed block and for a key of at most 32767 bytes, a deletion takes exactly the key's
-- binding out of the map and leaves the block well-formed, or returns ENOENT and leaves the block where
-- the key is not mapped.
pub delete-Deletes :
    (bt : BtreeBlock) (key : Bytes)
    → IsValid bt
    → length key ≤ s16_max
    → Returns (ngnfs_btree_delete bt key) (Deletes bt key)
unfolding ngnfs_btree_delete
delete-Deletes bt key valid small = go (search-Outcome bt key valid small)
  where
    go : Outcome bt key → Returns (ngnfs_btree_delete bt key) (Deletes bt key)
    go (hit pos e p k) =
        let (rb, f, valid', ins) = remove_item-Inserted bt pos valid p in
        rw (e, f)
          (inl
            ((val_at bt pos, (pos, p, k, refl)), refl, valid', removes bt rb pos key valid ins k))
    go (lower pos e s) = rw e (inr (λ val. Splits-not_Maps bt key val pos s, refl))
    go (upper pos e s) = rw e (inr (λ val. Splits-not_Maps bt key val pos s, refl))
