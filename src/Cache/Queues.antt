-- ===== src/Cache/Queues.antt =====
-- The references, lists and works of shared/block.c that its other parts use.
use mathlib.Core.List.{append_assoc, append-nil}
use ngnfs_progs.Prelude.{
  ℕ, ◌≡◌, ltb, ◌==◌, not, ◌&&◌, ◌||◌, if◌then◌else◌, Bool, true, false, refl, List, [], ◌∷◌, ◌++◌,
  some, ap, sym, ◌∙◌,
}
use ngnfs_progs.Prelude.Int.{ℤ, pos, ◌+ℤ◌, ◌-ℤ◌, ltb_ℤ, leb_ℤ}
use ngnfs_progs.Prelude.Run.{Run, done, bug_on, ◌>>◌}
use ngnfs_progs.Cache.State.{Block, BlockInfo, set_block, set_set, writeback_thresh}

abbrev pub is_empty {ℓ} : {A : Type ℓ} → List A → Bool
is_empty [] = true
is_empty (x ∷ xs) = false

abbrev pub is_zero : ℤ → Bool
is_zero n = leb_ℤ n (pos 0) && leb_ℤ (pos 0) n

unfoldable pub get_block : BlockInfo → ℕ → Block → BlockInfo
get_block s bnr bl = set_block s bnr (some (record bl { refcount = bl.refcount +ℤ pos 1 }))

-- A block whose count falls to 0 is freed.
unfoldable pub put_block : BlockInfo → ℕ → Block → BlockInfo
put_block s bnr bl = set_block s bnr (some (record bl { refcount = bl.refcount -ℤ pos 1 }))

unfoldable pub get_set : BlockInfo → ℕ → BlockInfo
get_set s id = set_set s id (record (s.sets id) { refcount = (s.sets id).refcount +ℤ pos 1 })

unfoldable pub put_set : BlockInfo → ℕ → Run BlockInfo
put_set s id =
    let left = (s.sets id).refcount -ℤ pos 1 in
    let gone = is_zero left in
    do
      bug_on (gone && not (is_empty (s.sets id).block_list))
      bug_on (gone && not ((s.sets id).size == 0))
      done (set_set s id (record (s.sets id) { refcount = left }))

-- The walk over the llist adds each node at the head of a new list.
unfoldable pub reverse_onto {ℓ} : {A : Type ℓ} → List A → List A → List A
reverse_onto [] acc = acc
reverse_onto (x ∷ xs) acc = reverse_onto xs (x ∷ acc)

unfoldable pub del_all_reverse_add_tail {ℓ} : {A : Type ℓ} → List A → List A → List A
unfolding reverse_onto
del_all_reverse_add_tail list llist = list ++ reverse_onto llist []

-- llist_add of each of `xs` in turn.
abbrev pub llist_add_all {ℓ} : {A : Type ℓ} → List A → List A → List A
llist_add_all [] llist = llist
llist_add_all (x ∷ xs) llist = llist_add_all xs (x ∷ llist)

unfoldable pub try_queue_submit_work : BlockInfo → BlockInfo
try_queue_submit_work s =
    if (not (is_empty s.submit_list) || not (is_empty s.submit_llist))
      && ltb_ℤ s.nr_submitted (pos s.queue_depth)
    then record s { submit_queued = true }
    else s

unfoldable pub should_writeback : BlockInfo → Bool
should_writeback s =
    (ltb s.writeback_seq s.sync_seq || leb_ℤ (pos writeback_thresh) (s.nr_dirty -ℤ s.nr_writeback))
    && ltb_ℤ s.nr_writeback (pos s.queue_depth)

unfoldable pub try_queue_writeback_work : BlockInfo → BlockInfo
try_queue_writeback_work s = if should_writeback s then record s { writeback_queued = true } else s

reverse_onto-append {ℓ} :
    {A : Type ℓ} (xs acc : List A) → reverse_onto xs acc ≡ reverse_onto xs [] ++ acc
unfolding reverse_onto
reverse_onto-append [] acc = refl
reverse_onto-append (x ∷ xs) acc =
    reverse_onto-append xs (x ∷ acc)
    ∙ sym (append_assoc (reverse_onto xs []) (x ∷ []) acc)
    ∙ ap (λ l. l ++ acc) (sym (reverse_onto-append xs (x ∷ [])))

gathers {ℓ} :
    {A : Type ℓ} (xs llist : List A)
    → reverse_onto (llist_add_all xs llist) [] ≡ reverse_onto llist [] ++ xs
unfolding reverse_onto
gathers [] llist = sym (append-nil (reverse_onto llist []))
gathers (x ∷ xs) llist =
    gathers xs (x ∷ llist)
    ∙ ap (λ l. l ++ xs) (reverse_onto-append llist (x ∷ []))
    ∙ append_assoc (reverse_onto llist []) (x ∷ []) xs

-- Gathering an llist keeps the order of addition: what is added later stands behind the list and
-- behind all that was added before.
pub del_all_reverse_add_tail-llist_add_all {ℓ} :
    {A : Type ℓ} (list llist xs : List A)
    → del_all_reverse_add_tail list (llist_add_all xs llist)
      ≡ del_all_reverse_add_tail list llist ++ xs
unfolding del_all_reverse_add_tail
del_all_reverse_add_tail-llist_add_all list llist xs =
    ap (◌++◌ list) (gathers xs llist) ∙ sym (append_assoc list (reverse_onto llist []) xs)
