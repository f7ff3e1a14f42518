-- ===== src/Cache/Gather.antt =====
-- The walk of ngnfs_block_dirty_begin of shared/block.c, whatever sets its blocks are in.
use ngnfs_progs.Prelude.{
  ℕ, ◌≡◌, ◌≢◌, ◌⊎◌, ◌==◌, true, Option, none, some, List, [], ◌∷◌, refl, arith, inl, inr,
  Bool-cases, ap, sym, ◌∙◌,
}
use ngnfs_progs.Prelude.Run.{Run, Returns, Returns-bind}
use ngnfs_progs.Cache.State.{BlockInfo, set_set}
use ngnfs_progs.Cache.Queues.{get_set}
use ngnfs_progs.Cache.Sets.{set_of, assign_set, add_to_set, new_set, get_other_set, in_set}
use ngnfs_progs.Cache.Dirty.{put_opt, ready, Walk, join, join_other, walk}
use ngnfs_progs.Cache.Sound.{
  IsSound, IsUnused, full_of_member, add_to_set-IsSound, get_set-IsSound, new_set-IsSound,
  full_append,
}
use ngnfs_progs.Cache.Walk.{IsCached, Walking, PassOk, WalkEnds, put_opt-Walking}
use ngnfs_progs.Cache.Join.{join-lem}

module _ (before rest : List ℕ) (c id : ℕ) (s : BlockInfo) where
  get_set-Walking :
      (large : Option ℕ)
      → Walking before (c ∷ rest) none large s
      → large ≢ some id
      → Walking before rest (some id) large (get_set s id)
  unfolding get_set
  get_set-Walking large w apart = record {
    sound = get_set-IsSound s id large w.sound;
    full = λ l h. ground (arith, w.full l, h);
    locked = λ l h. ground (arith, w.locked l, h);
    apart = λ l h. λ e. ground (arith, h, e, apart);
    alone = w.alone;
    gathered = w.gathered;
    cached = λ b h. w.cached b (ground (arith, h));
  }

  same_set-Walking :
      Walking before (c ∷ rest) none (some id) s
      → set_of s c ≡ some id
      → Walking (c ∷ before) rest none (some id) s
  same_set-Walking w mine = record {
    sound = w.sound;
    full = w.full;
    locked = w.locked;
    apart = w.apart;
    alone = λ h. cc;
    gathered = λ b h. ground (arith, w.gathered b, mine, h);
    cached = λ b h. w.cached b (ground (arith, h));
  }

  add_to_set-Walking :
      Walking before (c ∷ rest) none (some id) s
      → Walking (c ∷ before) rest none (some id) (add_to_set s c id)
  add_to_set-Walking w = record {
    sound = add_to_set-IsSound s c id (w.full id refl) w.sound;
    full = λ l h. ground (arith, w.full l, h, full_append (s.sets id).block_list (c ∷ []) refl);
    locked = λ l h. ground (arith, w.locked l, h);
    apart = λ l h. λ e. cc;
    alone = λ h. cc;
    gathered = λ b h. ground (arith, w.gathered b, w.cached c, h);
    cached = λ b h. λ e. ground (arith, w.cached b, h, e);
  }

  new_set-Walking :
      Walking before (c ∷ rest) none none s
      → IsUnused s id
      → Walking before rest
          (some id)
          none
          (set_set (assign_set s c (some id)) id (new_set (s.sets id) c))
  new_set-Walking w unused = record {
    sound = new_set-IsSound s c id unused w.sound;
    full = λ l h. cc;
    locked = λ l h. cc;
    apart = λ l h. cc;
    alone = w.alone;
    gathered = λ b h. ground (arith, w.alone refl, h);
    cached = λ b h. λ e. ground (arith, w.cached b, h, e);
  }

module _ (list before rest : List ℕ) (c : ℕ) (next : Option ℕ → Option ℕ → BlockInfo → Run Walk)
    (rest_ok : (small : Option ℕ) (large : Option ℕ) (s : BlockInfo)
      → Walking (c ∷ before) rest small large s
      → Returns (next small large s) (WalkEnds list)) where
  held_set :
      (large : Option ℕ) (id : ℕ) (s : BlockInfo)
      → Walking before (c ∷ rest) none large s
      → large ≢ some id
      → set_of s c ≡ some id
      → Returns (join next large id (get_set s id)) (WalkEnds list)
  unfolding get_set
  held_set large id s w apart mine =
      join-lem list before rest c next rest_ok large id _
        (get_set-Walking before rest c id s large w apart)
        (ground (arith, full_of_member c (s.sets id).block_list (w.sound.member c id mine))) mine

  get_other_set-lem :
      (memory large : Option ℕ) (s : BlockInfo)
      → Walking before (c ∷ rest) none large s
      → (large ≡ none → (id : ℕ) → memory ≡ some id → IsUnused s id)
      → Returns (join_other next large (get_other_set memory s c large)) (WalkEnds list)
  unfolding join_other get_other_set
  get_other_set-lem memory large s w unused = go memory large (set_of s c) w unused refl
    where
      go :
          (m lg cs : Option ℕ)
          → Walking before (c ∷ rest) none lg s
          → (lg ≡ none → (id : ℕ) → m ≡ some id → IsUnused s id)
          → set_of s c ≡ cs
          → Returns (join_other next lg (get_other_set m s c lg)) (WalkEnds list)
      go m none (some id) v fresh e =
          rw (e, get_other_set, join_other) (held_set none id s v (λ q. cc) e)
      go m (some l) (some id) v fresh e = elim (Bool-cases (id == l)) [
        | inl same ↦
            rw (e, same, get_other_set, join_other)
              (rest_ok none (some l) s
                (same_set-Walking before rest c l s v (ground (arith, e, same))))
        | inr other ↦
            rw (e, other, get_other_set, join_other)
              (held_set (some l) id s v (λ q. ground (arith, q, other)) e)
      ]
      go m (some l) none v fresh e =
          rw (e, get_other_set, join_other)
            (rest_ok none (some l) _ (add_to_set-Walking before rest c l s v))
      go none none none v fresh e =
          rw (e, get_other_set, join_other) (record { sound = v.sound; pass = refl })
      go (some id) none none v fresh e =
          rw (e, get_other_set, join_other)
            (join-lem list before rest c next rest_ok none id _
              (new_set-Walking before rest c id s v (fresh refl id refl)) (ground arith)
              (ground (arith, v.cached c)))

ready-lem :
    (list before : List ℕ) (small large : Option ℕ) (s : BlockInfo)
    → Walking before [] small large s
    → ((b : ℕ) → in_set b list ≡ true → (in_set b before ≡ true) ⊎ (in_set b [] ≡ true))
    → PassOk list (ready large) s
ready-lem [] before small none s w whole = refl
ready-lem (b ∷ list) before small none s w whole =
    absurd (ground (arith, w.alone refl, whole b (ground arith)))
ready-lem list before small (some l) s w whole =
    (λ b h. ground (arith, w.gathered b, whole b h), w.locked l refl, w.full l refl)

-- The walk returns, whatever sets the blocks of the list `todo` are in.
pub walk-lem :
    (memory : ℕ → Option ℕ) (list before todo : List ℕ) (small large : Option ℕ) (s : BlockInfo)
    → Walking before todo small large s
    → (large ≡ none → (b id : ℕ) → memory b ≡ some id → IsUnused s id)
    → ((b : ℕ) → in_set b list ≡ true → (in_set b before ≡ true) ⊎ (in_set b todo ≡ true))
    → Returns (walk memory todo small large s) (WalkEnds list)
unfolding walk
walk-lem memory list before [] small large s w unused whole = record {
  sound = w.sound;
  pass = ready-lem list before small large s w whole;
}
walk-lem memory list before (c ∷ rest) small large s w unused whole =
    Returns-bind _ (WalkEnds list) (put_opt s small) _
      (put_opt-Walking before (c ∷ rest) small large s w)
      (λ t h.
        get_other_set-lem list before rest c _
          (λ sm lg u v.
            walk-lem memory list (c ∷ before) rest sm lg u v
              (λ e. absurd (ground (arith, v.alone e))) (λ b i. ground (arith, whole b i)))
          (memory c) large t h.0
          (λ e id m b.
            λ q. unused e c id m b (ap (λ ht. set_of (record t { ht = ht }) b) (sym h.1) ∙ q)))

-- From a state of the sets that is sound, with the blocks in the cache and every set that kmalloc
-- returns unused: the walk of ngnfs_block_dirty_begin over the list returns, fails no assertion and
-- keeps the sets sound. Where it ends ready, each block of the list is in the one set `large`, which
-- lists blocks and whose dirtying bit is on; where it fails, the error is ENOMEM.
pub walk-one_set :
    (memory : ℕ → Option ℕ) (list : List ℕ) (s : BlockInfo)
    → IsSound s none none
    → ((b : ℕ) → in_set b list ≡ true → IsCached s b)
    → ((b id : ℕ) → memory b ≡ some id → IsUnused s id)
    → Returns (walk memory list none none s) (WalkEnds list)
walk-one_set memory list s sound cached unused =
    walk-lem memory list [] list none none s
      (record {
        sound = sound;
        full = λ l h. cc;
        locked = λ l h. cc;
        apart = λ l h. cc;
        alone = λ h. refl;
        gathered = λ b h. cc;
        cached = cached;
      })
      (λ e. unused) (λ b h. inr h)
