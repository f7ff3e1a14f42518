-- ===== src/Cache/Sound.antt =====
-- The sets of shared/block.c as the code needs them: a block's set lists it, a set's size is the
-- length of its list, and a set with blocks is referenced by them beside those who hold it.
use ngnfs_progs.Prelude.{
  ℕ, ◌+◌, ◌≡◌, ◌≢◌, ◌⊎◌, ◌==◌, if◌then◌else◌, Bool, true, false, Option, none, some, List, [], ◌∷◌,
  ◌++◌, length, length-append, refl, arith, inl, inr, Bool-cases, ap, ◌∙◌,
}
use ngnfs_progs.Prelude.Int.{ℤ, pos, ◌-ℤ◌, leb_ℤ}
use ngnfs_progs.Prelude.Run.{done}
use ngnfs_progs.Cache.State.{BlockInfo, set_set}
use ngnfs_progs.Cache.Queues.{get_set, put_set, is_zero, is_empty}
use ngnfs_progs.Cache.Writeback.{put_set-empty}
use ngnfs_progs.Cache.Sets.{set_of, assign_set, add_to_set, new_set, in_set, merge_sets}

-- How many of the references on `t` a pointer holds.
abbrev pub refs : Option ℕ → ℕ → ℕ
refs none t = 0
refs (some id) t = if id == t then 1 else 0

pub record IsSound (s : BlockInfo) (small large : Option ℕ) : Type 0 where
  pub member : (b t : ℕ) → set_of s b ≡ some t → in_set b (s.sets t).block_list ≡ true
  pub sized : (t : ℕ) → (s.sets t).size ≡ length (s.sets t).block_list
  pub held :
      (t : ℕ)
      → is_empty (s.sets t).block_list ≡ false
      → leb_ℤ (pos (1 + refs small t + refs large t)) (s.sets t).refcount ≡ true

-- The two pointers hold the same references in the other order.
pub swap-IsSound : (s : BlockInfo) (a b : Option ℕ) → IsSound s a b → IsSound s b a
swap-IsSound s a b sound = record {
  member = sound.member;
  sized = sound.sized;
  held = λ t h. ground (arith, sound.held t h);
}

-- A block of a set is on its list, so the list is not empty.
pub full_of_member : (b : ℕ) (xs : List ℕ) → in_set b xs ≡ true → is_empty xs ≡ false
full_of_member b [] h = cc
full_of_member b (x ∷ xs) h = refl

-- The state after a reference on a set is put.
abbrev pub put : BlockInfo → ℕ → BlockInfo
put s id = set_set s id (record (s.sets id) { refcount = (s.sets id).refcount -ℤ pos 1 })

put_set-kept :
    (s : BlockInfo) (id : ℕ)
    → is_empty (s.sets id).block_list ≡ false
    → leb_ℤ (pos 2) (s.sets id).refcount ≡ true
    → put_set s id ≡ done (put s id)
unfolding put_set
put_set-kept s id full h =
    let left : is_zero ((s.sets id).refcount -ℤ pos 1) ≡ false = ground arith in
    rw (left, put_set) refl

two_held : (n : ℤ) (k : ℕ) → leb_ℤ (pos (1 + 1 + k)) n ≡ true → leb_ℤ (pos 2) n ≡ true
two_held n k h = ground arith

pub put_set-put :
    (s : BlockInfo) (id : ℕ) (other : Option ℕ)
    → IsSound s (some id) other
    → put_set s id ≡ done (put s id)
put_set-put s id other sound = elim (Bool-cases (is_empty (s.sets id).block_list)) [
  | inl e ↦ put_set-empty s id (nil_of e) (sound.sized id ∙ ap length (nil_of e))
  | inr full ↦
      let h = sound.held id full in
      put_set-kept s id full (two_held (s.sets id).refcount (refs other id) (ground (arith, h)))
]
  where
    nil_of : {xs : List ℕ} → is_empty xs ≡ true → xs ≡ []
    nil_of {xs} e = ground arith

pub put-IsSound :
    (s : BlockInfo) (id : ℕ) (other : Option ℕ)
    → IsSound s (some id) other
    → IsSound (put s id) none other
put-IsSound s id other sound = record {
  member = λ b t h. ground (arith, sound.member b t h);
  sized = λ t. ground (arith, sound.sized t);
  held = λ t h. ground (arith, sound.held t, h);
}

pub in_set-append :
    (b : ℕ) (xs ys : List ℕ) → in_set b (xs ++ ys) ≡ (if in_set b xs then true else in_set b ys)
in_set-append b [] ys = refl
in_set-append b (x ∷ xs) ys = ground (arith, in_set-append b xs ys)

pub full_append : (xs ys : List ℕ) → is_empty ys ≡ false → is_empty (xs ++ ys) ≡ false
full_append [] ys h = h
full_append (x ∷ xs) ys h = refl

pub add_to_set-IsSound :
    (s : BlockInfo) (b id : ℕ)
    → is_empty (s.sets id).block_list ≡ false
    → IsSound s none (some id)
    → IsSound (add_to_set s b id) none (some id)
add_to_set-IsSound s b id some_block sound = record {
  member =
      λ c t h. ground (arith, sound.member c t, in_set-append c (s.sets id).block_list (b ∷ []), h);
  sized = λ t. ground (arith, sound.sized t, length-append (s.sets id).block_list (b ∷ []));
  held = λ t h. ground (arith, sound.held t, h);
}

pub get_set-IsSound :
    (s : BlockInfo) (id : ℕ) (large : Option ℕ)
    → IsSound s none large
    → IsSound (get_set s id) (some id) large
unfolding get_set
get_set-IsSound s id large sound = record {
  member = λ b t h. ground (arith, sound.member b t h);
  sized = λ t. ground (arith, sound.sized t);
  held = λ t h. ground (arith, sound.held t, h);
}

-- No block is in the set `id`.
abbrev pub IsUnused : BlockInfo → ℕ → Type 0
IsUnused s id = (b : ℕ) → set_of s b ≢ some id

pub new_set-IsSound :
    (s : BlockInfo) (b id : ℕ)
    → IsUnused s id
    → IsSound s none none
    → IsSound (set_set (assign_set s b (some id)) id (new_set (s.sets id) b)) (some id) none
new_set-IsSound s b id unused sound = record {
  member = λ c t h. ground (arith, sound.member c t, unused c, h);
  sized = λ t. ground (arith, sound.sized t);
  held = λ t h. ground (arith, sound.held t, h);
}

-- A change of the bits of a set.
pub bits-IsSound :
    (s : BlockInfo) (id : ℕ) (dirtying dirty : Bool) (small large : Option ℕ)
    → IsSound s small large
    → IsSound (set_set s id (record (s.sets id) { dirtying = dirtying; dirty = dirty })) small large
bits-IsSound s id dirtying dirty small large sound = record {
  member = λ b t h. ground (arith, sound.member b t h);
  sized = λ t. ground (arith, sound.sized t);
  held = λ t h. ground (arith, sound.held t, h);
}

module _ (s : BlockInfo) (small large : ℕ) (apart : small ≢ large) where
  pub merge_sets-IsSound :
      IsSound s (some small) (some large)
      → is_empty (s.sets large).block_list ≡ false
      → IsSound (merge_sets s small large) (some small) (some large)
  unfolding merge_sets
  merge_sets-IsSound sound some_block = record {
    member = λ b t h. ground (
      arith,
      sound.member b t,
      sound.member b small,
      apart,
      in_set-append b (s.sets small).block_list (s.sets large).block_list,
      h,
    );
    sized = λ t. ground (
      arith,
      sound.sized t,
      sound.sized small,
      sound.sized large,
      apart,
      length-append (s.sets small).block_list (s.sets large).block_list,
    );
    held = λ t h. ground (arith, sound.held t, some_block, apart, h);
  }

  -- The blocks of both sets are in the larger.
  pub set_of-merge_sets :
      IsSound s (some small) (some large)
      → (b : ℕ) → (set_of s b ≡ some small) ⊎ (set_of s b ≡ some large)
      → set_of (merge_sets s small large) b ≡ some large
  unfolding merge_sets
  set_of-merge_sets sound b (inl e) = ground (arith, sound.member b small, e)
  set_of-merge_sets sound b (inr e) = ground (arith, e)

  pub merge_sets-full :
      is_empty (s.sets large).block_list ≡ false
      → is_empty ((merge_sets s small large).sets large).block_list ≡ false
  unfolding merge_sets
  merge_sets-full some_block =
      ground (arith, apart, full_append (s.sets small).block_list (s.sets large).block_list)
