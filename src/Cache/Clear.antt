-- ===== src/Cache/Clear.antt =====
-- clear_set_dirtying of shared/block.c keeps the sets sound.
use mathlib.Core.List.{reverse, reverse-cons}
use ngnfs_progs.Prelude.{
  ℕ, ◌-◌, ◌≡◌, false, Option, none, List, [], ◌∷◌, length, length-append, refl, arith, inl, inr,
  Bool-cases, ap, ◌∙◌,
}
use ngnfs_progs.Cache.State.{BlockInfo, set_set}
use ngnfs_progs.Cache.Queues.{is_empty, should_writeback, try_queue_writeback_work}
use ngnfs_progs.Cache.Sets.{assign_set, in_set, is_dirty, clear_loop, clear_set_dirtying}
use ngnfs_progs.Cache.Sound.{IsSound, in_set-append, bits-IsSound}

abbrev with_list : BlockInfo → ℕ → List ℕ → BlockInfo
with_list s id xs = set_set s id (record (s.sets id) { block_list = xs })

in_set-reverse : (b : ℕ) (xs : List ℕ) → in_set b (reverse xs) ≡ in_set b xs
in_set-reverse b [] = refl
in_set-reverse b (x ∷ xs) =
    ap (in_set b) (reverse-cons x xs)
    ∙ ground (arith, in_set-append b (reverse xs) (x ∷ []), in_set-reverse b xs)

length-reverse : (xs : List ℕ) → length (reverse xs) ≡ length xs
length-reverse [] = refl
length-reverse (x ∷ xs) =
    ap length (reverse-cons x xs)
    ∙ omega (arith, length-append (reverse xs) (x ∷ []), length-reverse xs)

is_empty-length : (xs ys : List ℕ) → length xs ≡ length ys → is_empty xs ≡ is_empty ys
is_empty-length [] [] e = refl
is_empty-length [] (y ∷ ys) e = absurd (omega arith)
is_empty-length (x ∷ xs) [] e = absurd (omega arith)
is_empty-length (x ∷ xs) (y ∷ ys) e = refl

module _ (small large : Option ℕ) (id : ℕ) where
  -- Only the members and the length of a set's list matter.
  same_members :
      (s : BlockInfo) (xs ys : List ℕ)
      → ((b : ℕ) → in_set b ys ≡ in_set b xs)
      → length ys ≡ length xs
      → IsSound (with_list s id xs) small large
      → IsSound (with_list s id ys) small large
  same_members s xs ys same e sound = record {
    member = λ b t h. ground (arith, sound.member b t, same b, h);
    sized = λ t. ground (arith, sound.sized t);
    held = λ t h. ground (arith, sound.held t, is_empty-length ys xs e, h);
  }

  itself :
      (s : BlockInfo)
      → IsSound s small large
      → IsSound (with_list s id (s.sets id).block_list) small large
  itself s sound = record {
    member = λ b t h. ground (arith, sound.member b t, h);
    sized = λ t. ground (arith, sound.sized t);
    held = λ t h. ground (arith, sound.held t, h);
  }

  leave :
      (s : BlockInfo) (b : ℕ) (rest : List ℕ)
      → IsSound (with_list s id (b ∷ rest)) small large
      → let next = assign_set s b none in
        IsSound
          (with_list
            (set_set next id (record (next.sets id) { size = (next.sets id).size - 1 }))
            id
            rest)
          small
          large
  leave s b rest sound = record {
    member = λ c t h. ground (arith, sound.member c t, h);
    sized = λ t. ground (arith, sound.sized t);
    held = λ t h. ground (arith, sound.held t, h);
  }

  clear_loop-IsSound :
      (rs : List ℕ) (s : BlockInfo)
      → IsSound (with_list s id rs) small large
      → IsSound (clear_loop rs id s) small large
  unfolding clear_loop
  clear_loop-IsSound [] s sound = sound
  clear_loop-IsSound (b ∷ rest) s sound = elim (Bool-cases (is_dirty (s.ht b))) [
    | inl stop ↦
        rw (stop, clear_loop)
          (same_members s (b ∷ rest) (reverse (b ∷ rest)) (λ c. in_set-reverse c (b ∷ rest))
            (length-reverse (b ∷ rest)) sound)
    | inr go ↦ rw (go, clear_loop) (clear_loop-IsSound rest _ (leave s b rest sound))
  ]

  queued-IsSound :
      (s : BlockInfo) → IsSound s small large → IsSound (try_queue_writeback_work s) small large
  unfolding try_queue_writeback_work
  queued-IsSound s sound = elim (Bool-cases (should_writeback s)) [
    | inl more ↦ rw more (record { member = sound.member; sized = sound.sized; held = sound.held })
    | inr less ↦ rw less sound
  ]

  pub clear_set_dirtying-IsSound :
      (s : BlockInfo) → IsSound s small large → IsSound (clear_set_dirtying s id) small large
  unfolding clear_set_dirtying
  clear_set_dirtying-IsSound s sound =
      let list = (s.sets id).block_list in
      let start : IsSound (with_list s id (reverse list)) small large =
        same_members s list (reverse list) (λ c. in_set-reverse c list) (length-reverse list)
          (itself s sound) in
      let t = clear_loop (reverse list) id s in
      queued-IsSound _ (
        bits-IsSound t id false (t.sets id).dirty small large
          (clear_loop-IsSound (reverse list) s start))
