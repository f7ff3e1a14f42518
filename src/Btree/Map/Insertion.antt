-- ===== src/Btree/Map/Insertion.antt =====
-- ngnfs_btree_insert of shared/btree.c on the map of a block.
use ngnfs_progs.Prelude.{
  ℕ, ◌+◌, ◌≤◌, ◌<◌, ◌≡◌, ◌⊎◌, ◌↔◌, inl, inr, refl, arith, ltb, true, false, length, Bool-cases,
}
use ngnfs_progs.Prelude.Run.{done, bug, ◌>>=◌, Returns}
use ngnfs_progs.Prelude.Errno.{Ret, ok, err, einval, eexist}
use ngnfs_progs.Btree.Keys.{Bytes}
use ngnfs_progs.Btree.Layout.{BtreeBlock, item_off_size, key_at, val_at, key_val_size}
use ngnfs_progs.Btree.Search.{Splits}
use ngnfs_progs.Btree.Items.{insert_item}
use ngnfs_progs.Btree.Valid.{IsValid, Maps, Inserted, Maps-Inserted, Splits-not_Maps}
use ngnfs_progs.Btree.Insert.{new_size, insert_item-Inserted}
use ngnfs_progs.Btree.Ops.{ngnfs_btree_insert, bad_sizes}
use ngnfs_progs.Btree.Map.{Outcome, hit, lower, upper, search-Outcome}

-- What an insertion returns: an error with the block as it was, or the block with the binding.
abbrev pub Inserts : BtreeBlock → Bytes → Bytes → Ret × BtreeBlock → Type 0
Inserts bt key val r =
    ((bad_sizes key val ≡ true) × (r ≡ (err einval, bt)))
    ⊎ ((bad_sizes key val ≡ false) × ((old : Bytes) × Maps bt key old) × (r ≡ (err eexist, bt)))
    ⊎ ((bad_sizes key val ≡ false)
        × ((old : Bytes) → ¬ Maps bt key old)
        × (r.0 ≡ ok 0)
        × IsValid r.1
        × ((k v : Bytes) → Maps r.1 k v ↔ (Maps bt k v ⊎ ((key ≡ k) × (val ≡ v)))))

adds :
    (bt nb : BtreeBlock) (pos : ℕ) (key val : Bytes)
    → Inserted bt nb pos
    → key_at nb pos ≡ key
    → val_at nb pos ≡ val
    → (k v : Bytes) → Maps nb k v ↔ (Maps bt k v ⊎ ((key ≡ k) × (val ≡ v)))
adds bt nb pos key val ins ek ev k v = rw (ek, ev) at (Maps-Inserted bt nb pos ins k v)

small_key : (key val : Bytes) → bad_sizes key val ≡ false → length key ≤ 255
unfolding bad_sizes
small_key key val h = ground arith

-- On a well-formed block with room for the item, an insertion ends with one of these results.
pub insert-Inserts :
    (bt : BtreeBlock) (key val : Bytes)
    → IsValid bt
    → item_off_size + new_size key val ≤ bt.avail_free
    → Returns (ngnfs_btree_insert bt key val) (Inserts bt key val)
unfolding ngnfs_btree_insert
insert-Inserts bt key val valid fits = elim (Bool-cases (bad_sizes key val)) [
  | inl bad ↦ rw bad (inl (bad, refl))
  | inr good ↦ go good (search-Outcome bt key valid (omega (arith, small_key key val good)))
]
  where
    place :
        (pos : ℕ)
        → bad_sizes key val ≡ false
        → Splits bt key pos
        → Returns (insert_item bt pos key val >>= λ nb. done (ok 0, nb)) (Inserts bt key val)
    place pos good s =
        let (nb, e, valid', ins, ek, ev) =
          insert_item-Inserted bt pos key val valid s.in_range (small_key key val good) fits s in
        rw e (
          inr (
            inr (
              good,
              λ old. Splits-not_Maps bt key old pos s,
              refl,
              valid',
              adds bt nb pos key val ins ek ev,
            )))

    go :
        bad_sizes key val ≡ false
        → Outcome bt key
        → Returns (ngnfs_btree_insert bt key val) (Inserts bt key val)
    go good (hit pos e p k) =
        rw (good, e) (inr (inl (good, (val_at bt pos, (pos, p, k, refl)), refl)))
    go good (lower pos e s) = rw (good, e) (place pos good s)
    go good (upper pos e s) = rw (good, e) (place pos good s)

insert_item-full :
    (bt : BtreeBlock) (pos : ℕ) (key val : Bytes)
    → bad_sizes key val ≡ false
    → pos ≤ bt.nr_items
    → bt.avail_free < item_off_size + new_size key val
    → insert_item bt pos key val ≡ bug
unfolding insert_item bad_sizes key_val_size
insert_item-full bt pos key val good h tight =
    let passed : ltb bt.nr_items pos ≡ false = ground arith in
    let full : ltb bt.avail_free (item_off_size + key_val_size (length key) (length val)) ≡ true =
      ground arith in
    rw (passed, full)

-- Without that room, the insertion of a new key fails insert_item's assertion.
pub insert-full :
    (bt : BtreeBlock) (key val : Bytes)
    → IsValid bt
    → bad_sizes key val ≡ false
    → ((old : Bytes) → ¬ Maps bt key old)
    → bt.avail_free < item_off_size + new_size key val
    → ngnfs_btree_insert bt key val ≡ bug
unfolding ngnfs_btree_insert
insert-full bt key val valid good absent tight =
    go (search-Outcome bt key valid (omega (arith, small_key key val good)))
  where
    go : Outcome bt key → ngnfs_btree_insert bt key val ≡ bug
    go (hit pos e p k) = absurd (absent (val_at bt pos) (pos, p, k, refl))
    go (lower pos e s) = rw (good, e, insert_item-full bt pos key val good s.in_range tight)
    go (upper pos e s) = rw (good, e, insert_item-full bt pos key val good s.in_range tight)
