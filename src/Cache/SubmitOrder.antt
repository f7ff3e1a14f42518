-- ===== src/Cache/SubmitOrder.antt =====
-- What ngnfs_block_submit_work of shared/block.c submits: the oldest queued blocks, in order.
use ngnfs_progs.Prelude.{
  ℕ, zero, suc, ◌+◌, ◌≡◌, ◌≢◌, true, false, refl, List, [], ◌∷◌, map, none, length, take, drop,
  arith, Option-cases, Bool-cases, inl, inr, ap, ◌∙◌, sym,
}
use ngnfs_progs.Prelude.Int.{ℤ, pos, negsuc, ◌+ℤ◌, ◌-ℤ◌, ltb_ℤ}
use ngnfs_progs.Prelude.Run.{Returns, Returns-done}
use ngnfs_progs.Prelude.Errno.{Ret, ok}
use ngnfs_progs.Cache.State.{Block, BlockInfo}
use ngnfs_progs.Cache.Queues.{del_all_reverse_add_tail, put_block}
use ngnfs_progs.Cache.Submit.{Submission, submit_loop, ngnfs_block_submit_work}

-- How many blocks a loop with `space` may submit: it stops when the count is below zero as it is
-- tested, so there is room for one more than the space.
abbrev pub room : ℤ → ℕ
room (pos n) = n + 1
room (negsuc n) = 0

room_next : (space : ℤ) → ltb_ℤ space (pos 0) ≡ false → room space ≡ suc (room (space -ℤ pos 1))
room_next (pos n) h = ground arith
room_next (negsuc n) h = ground arith

room_none : (space : ℤ) → ltb_ℤ space (pos 0) ≡ true → room space ≡ 0
room_none (pos n) h = ground arith
room_none (negsuc n) h = ground arith

-- Every queued number names a cached block.
abbrev pub Known : BlockInfo → List ℕ → Type 0
Known s [] = Unit {0}
Known s (b ∷ bs) = (s.ht b ≢ none) × Known s bs

Known-mono :
    (s t : BlockInfo) (bs : List ℕ)
    → ((b : ℕ) → s.ht b ≢ none → t.ht b ≢ none)
    → Known s bs
    → Known t bs
Known-mono s t [] h k = tt
Known-mono s t (b ∷ bs) h k = (h b k.0, Known-mono s t bs h k.1)

-- The first blocks of `list` are submitted in order, the others stay queued, and the submissions
-- are counted.
pub record SubmitsSome (list : List ℕ) (space : ℤ) (s : BlockInfo) (r : List Submission × BlockInfo)
    : Type 0 where
  pub order : map (λ (x : Submission). x.bnr) r.0 ≡ take (room space) list
  pub rest : r.1.submit_list ≡ drop (room space) list
  pub counted : r.1.nr_submitted ≡ s.nr_submitted +ℤ pos (length r.0)

take_nil : (n : ℕ) → take {A = ℕ} n [] ≡ []
take_nil zero = refl
take_nil (suc n) = refl

drop_nil : (n : ℕ) → drop {A = ℕ} n [] ≡ []
drop_nil zero = refl
drop_nil (suc n) = refl

put_keeps :
    (s : BlockInfo) (b : ℕ) (bl : Block) (c : ℕ)
    → s.ht c ≢ none
    → (put_block (record s { nr_submitted = s.nr_submitted +ℤ pos 1 }) b bl).ht c ≢ none
unfolding put_block
put_keeps s b bl c h = ground arith

add_zero_ℤ : (a : ℤ) → a ≡ a +ℤ pos 0
add_zero_ℤ a = ground arith

add_suc_ℤ : (a : ℤ) (n : ℕ) → a +ℤ pos 1 +ℤ pos n ≡ a +ℤ pos (suc n)
add_suc_ℤ a n = ground arith

counts :
    (s : BlockInfo) (b : ℕ) (bl : Block) (r : List Submission × BlockInfo)
    → (put_block (record s { nr_submitted = s.nr_submitted +ℤ pos 1 }) b bl).nr_submitted
        +ℤ pos (length r.0)
      ≡ s.nr_submitted +ℤ pos (suc (length r.0))
unfolding put_block
counts s b bl r = add_suc_ℤ s.nr_submitted (length r.0)

module _ (submit_block : Submission → Ret)
    (accepts : (x : Submission) → submit_block x ≡ ok 0) where
  submit_loop-SubmitsSome :
      (list : List ℕ) (space : ℤ) (s : BlockInfo)
      → Known s list
      → Returns (submit_loop submit_block list space s) (SubmitsSome list space s)
  unfolding submit_loop
  submit_loop-SubmitsSome [] space s known = record {
    order = sym (take_nil (room space));
    rest = sym (drop_nil (room space));
    counted = add_zero_ℤ s.nr_submitted;
  }
  submit_loop-SubmitsSome (b ∷ bs) space s known = elim (Bool-cases (ltb_ℤ space (pos 0))) [
    | inl over ↦
        rw (over, submit_loop)
          (record {
            order = rw (room_none space over);
            rest = rw (room_none space over);
            counted = add_zero_ℤ s.nr_submitted;
          })
    | inr go ↦ elim (Option-cases (s.ht b)) [
      | inl missing ↦ absurd (known.0 missing)
      | inr (bl, e) ↦
          let t = put_block (record s { nr_submitted = s.nr_submitted +ℤ pos 1 }) b bl in
          let (r, run, p) = Returns-done (SubmitsSome bs (space -ℤ pos 1) t) _ (
            submit_loop-SubmitsSome bs (space -ℤ pos 1) t
              (Known-mono s t bs (put_keeps s b bl) known.1)) in
          rw (go, e, accepts, run, submit_loop)
            (record {
              order = rw (room_next space go) (ap (◌∷◌ b) p.order);
              rest = rw (room_next space go) p.rest;
              counted = p.counted ∙ counts s b bl r;
            })
    ]
  ]

  -- Run on blocks that are all cached, with a transport that accepts every block, the submit work
  -- submits the oldest queued blocks in the order in which they were queued, as many as fit in
  -- the queue depth and one more, counts them, and leaves the rest queued.
  pub submit_work-SubmitsSome :
      (s : BlockInfo)
      → Known s (del_all_reverse_add_tail s.submit_list s.submit_llist)
      → Returns (ngnfs_block_submit_work submit_block s) (
          SubmitsSome
            (del_all_reverse_add_tail s.submit_list s.submit_llist)
            (pos s.queue_depth -ℤ s.nr_submitted)
            s)
  unfolding ngnfs_block_submit_work
  submit_work-SubmitsSome s known =
      let list = del_all_reverse_add_tail s.submit_list s.submit_llist in
      let t : BlockInfo = record s { submit_llist = []; submit_list = list } in
      let (r, run, p) = Returns-done (SubmitsSome list (pos s.queue_depth -ℤ s.nr_submitted) t) _ (
        submit_loop-SubmitsSome list (pos s.queue_depth -ℤ s.nr_submitted) t
          (Known-mono s t list (λ b h. h) known)) in
      rw (run, ngnfs_block_submit_work)
        (record { order = p.order; rest = p.rest; counted = p.counted })
