-- ===== src/Trace/Sound.antt =====
-- When the buffers of shared/trace.c are sound, and that each change of one buffer keeps them so.
use ngnfs_progs.Prelude.{
  ℕ, ◌+◌, ◌≤◌, ◌≡◌, ◌≢◌, ◌==◌, Bool, true, false, not, none, some, List, [], ◌∷◌, ◌++◌, inl, inr,
  if◌then◌else◌, Bool-cases, ap, sym, arith,
}
use ngnfs_progs.Trace.Buffers.{
  buf_size, TraceInfo, set_buf, set_storing_buf, set_bufs, alloc_tbuf, put_tbuf,
  try_enqueue_writing, list_del, list_move_tail,
}
use ngnfs_progs.Trace.Store.{clear_writing, put_header, splice_queue}

abbrev pub bit : Bool → ℕ
bit false = 0
bit true = 1

abbrev pub count : ℕ → List ℕ → ℕ
count b [] = 0
count b (x ∷ xs) = bit (x == b) + count b xs

pub count-append : (b : ℕ) (xs ys : List ℕ) → count b (xs ++ ys) ≡ count b xs + count b ys
count-append b [] ys = omega arith
count-append b (x ∷ xs) ys = omega (arith, count-append b xs ys)

pub count-list_del :
    (b x : ℕ) (xs : List ℕ) → 1 ≤ count b xs → count x (list_del b xs) + bit (b == x) ≡ count x xs
count-list_del b x [] h = absurd (omega arith)
count-list_del b x (y ∷ ys) h = ground (arith, count-list_del b x ys)

pub count-list_move_tail :
    (b x : ℕ) (xs : List ℕ) → 1 ≤ count b xs → count x (list_move_tail b xs) ≡ count x xs
count-list_move_tail b x xs h =
    omega (arith, count-append x (list_del b xs) (b ∷ []), count-list_del b x xs h)

-- A buffer has a reference for the list it is in and one while it is being written; it is queued
-- once while it is written, listed once by its owner, and allocated while it has a reference. Where
-- it is neither stored into nor written it is empty, and it never holds more than its size.
pub record IsSound (s : TraceInfo) : Type 0 where
  pub refs : (b : ℕ) → (s.buf b).refcount ≡ bit (s.buf b).linked + bit (s.buf b).writing
  pub queued : (b : ℕ) → count b s.write_queue + count b s.spliced ≡ bit (s.buf b).writing
  pub held : (b : ℕ) → (s.buf b).allocated ≡ not ((s.buf b).refcount == 0)
  pub listed :
      (t b : ℕ)
      → count b (s.tpriv t).bufs ≡ (if (s.buf b).linked then bit ((s.buf b).owner == t) else 0)
  pub storing :
      (t b : ℕ)
      → (s.tpriv t).storing_buf ≡ some b
      → ((s.buf b).linked ≡ true) × ((s.buf b).owner ≡ t)
  pub idle :
      (b : ℕ)
      → (s.buf b).writing ≡ false
      → (s.tpriv (s.buf b).owner).storing_buf ≢ some b
      → (s.buf b).len ≡ 0
  pub room : (b : ℕ) → (s.buf b).len ≤ buf_size
  pub sized : (b : ℕ) → (s.buf b).linked ≡ true → (s.buf b).size ≡ buf_size
  pub fresh : (b : ℕ) → s.next ≤ b → (s.buf b).refcount ≡ 0

module _ (s : TraceInfo) (v : IsSound s) where
  pub try_enqueue_writing-IsSound :
      (b : ℕ) → (s.buf b).linked ≡ true → IsSound (try_enqueue_writing s b)
  unfolding try_enqueue_writing
  try_enqueue_writing-IsSound b linked = elim (Bool-cases (s.buf b).writing) [
    | inl w ↦ rw (w, try_enqueue_writing) v
    | inr w ↦
        rw (w, try_enqueue_writing)
          (record {
            refs = λ x. ground (arith, v.refs x, w);
            queued = λ x. ground (arith, v.queued x, w, count-append x s.write_queue (b ∷ []));
            held = λ x. ground (arith, v.held x, v.refs x, linked);
            listed = λ t x. ground (arith, v.listed t x);
            storing = λ t x e. ground (arith, v.storing t x e);
            idle = λ x f n. ground (arith, v.idle x, f, n);
            room = λ x. ground (arith, v.room x);
            sized = λ x l. ground (arith, v.sized x, l);
            fresh = λ x h. ground (arith, v.fresh x h, v.refs x, linked);
          })
  ]

  pub set_bufs-IsSound :
      (t : ℕ) (bs : List ℕ)
      → ((x : ℕ) → count x bs ≡ count x (s.tpriv t).bufs)
      → IsSound (set_bufs s t bs)
  set_bufs-IsSound t bs same = record {
    refs = λ x. v.refs x;
    queued = λ x. v.queued x;
    held = λ x. v.held x;
    listed = λ u x. ground (arith, v.listed u x, same x);
    storing = λ u x e. ground (arith, v.storing u x, e);
    idle = λ x f n. ground (arith, v.idle x f, n);
    room = λ x. v.room x;
    sized = λ x l. v.sized x l;
    fresh = λ x h. v.fresh x h;
  }

  pub leave-IsSound :
      (t : ℕ)
      → ((b : ℕ) → (s.tpriv t).storing_buf ≡ some b → (s.buf b).writing ≡ true)
      → IsSound (set_storing_buf s t none)
  leave-IsSound t written = record {
    refs = λ x. v.refs x;
    queued = λ x. v.queued x;
    held = λ x. v.held x;
    listed = λ u x. ground (arith, v.listed u x);
    storing = λ u x e. ground (arith, v.storing u x, e);
    idle = λ x f n. ground (arith, v.idle x f, n, written x);
    room = λ x. v.room x;
    sized = λ x l. v.sized x l;
    fresh = λ x h. v.fresh x h;
  }

  pub take-IsSound :
      (t b : ℕ)
      → (s.tpriv t).storing_buf ≡ none
      → (s.buf b).linked ≡ true
      → (s.buf b).owner ≡ t
      → IsSound (set_storing_buf s t (some b))
  take-IsSound t b idle linked owner = record {
    refs = λ x. v.refs x;
    queued = λ x. v.queued x;
    held = λ x. v.held x;
    listed = λ u x. ground (arith, v.listed u x);
    storing = λ u x e. ground (arith, v.storing u x, e, linked, owner);
    idle = λ x f n. ground (arith, v.idle x f, n, idle);
    room = λ x. v.room x;
    sized = λ x l. v.sized x l;
    fresh = λ x h. v.fresh x h;
  }

  pub put_header-IsSound :
      (b id total : ℕ)
      → (s.tpriv (s.buf b).owner).storing_buf ≡ some b
      → (s.buf b).len + total ≤ buf_size
      → IsSound (set_buf s b (put_header id total))
  put_header-IsSound b id total stored fits = record {
    refs = λ x. ground (arith, v.refs x);
    queued = λ x. ground (arith, v.queued x);
    held = λ x. ground (arith, v.held x);
    listed = λ u x. ground (arith, v.listed u x);
    storing = λ u x e. ground (arith, v.storing u x e);
    idle = λ x f n. ground (arith, v.idle x, f, n, stored);
    room = λ x. ground (arith, v.room x);
    sized = λ x l. ground (arith, v.sized x, l);
    fresh = λ x h. ground (arith, v.fresh x h);
  }

  pub alloc_tbuf-IsSound : (t : ℕ) → IsSound (alloc_tbuf s t)
  unfolding alloc_tbuf
  alloc_tbuf-IsSound t = record {
    refs = λ x. ground (arith, v.refs x);
    queued = λ x. ground (arith, v.queued x, v.fresh s.next, v.refs s.next);
    held = λ x. ground (arith, v.held x);
    listed = λ u x. ground (arith, v.listed u x, v.listed t x, v.fresh s.next, v.refs s.next);
    storing = λ u x e. ground (arith, v.storing u x, e, v.fresh s.next, v.refs s.next);
    idle = λ x f n. ground (arith, v.idle x, f, n);
    room = λ x. ground (arith, v.room x);
    sized = λ x l. ground (arith, v.sized x, l);
    fresh = λ x h. ground (arith, v.fresh x, h);
  }

  pub unlink-IsSound :
      (t b : ℕ) (bs : List ℕ)
      → (s.tpriv t).bufs ≡ b ∷ bs
      → (s.tpriv t).storing_buf ≡ none
      → IsSound (put_tbuf (set_buf (set_bufs s t bs) b (λ x. record x { linked = false })) b)
  unfolding put_tbuf
  unlink-IsSound t b bs e idle =
      let same = λ (x : ℕ). ap (count x) (sym e) in
      let linked : (s.buf b).linked ≡ true = ground (arith, v.listed t b, same b) in
      let owner : (s.buf b).owner ≡ t = ground (arith, v.listed t b, same b) in
      record {
        refs = λ x. ground (arith, v.refs x, linked);
        queued = λ x. ground (arith, v.queued x);
        held = λ x. ground (arith, v.held x);
        listed = λ u x. ground (arith, v.listed u x, same x, linked, owner);
        storing = λ u x f. ground (arith, v.storing u x, f, idle, owner);
        idle = λ x f n. ground (arith, v.idle x, f, n, idle);
        room = λ x. ground (arith, v.room x);
        sized = λ x l. ground (arith, v.sized x, l);
        fresh = λ x h. ground (arith, v.fresh x h);
      }

  pub give_back-IsSound :
      (b : ℕ) (bs : List ℕ)
      → s.spliced ≡ b ∷ bs
      → IsSound (put_tbuf (set_buf (record s { spliced = bs }) b clear_writing) b)
  unfolding put_tbuf
  give_back-IsSound b bs e =
      let same = λ (x : ℕ). ap (count x) (sym e) in
      let written : (s.buf b).writing ≡ true = ground (arith, v.queued b, same b) in
      record {
        refs = λ x. ground (arith, v.refs x, written);
        queued = λ x. ground (arith, v.queued x, same x, written);
        held = λ x. ground (arith, v.held x);
        listed = λ u x. ground (arith, v.listed u x);
        storing = λ u x f. ground (arith, v.storing u x, f);
        idle = λ x f n. ground (arith, v.idle x, f, n);
        room = λ x. ground (arith, v.room x);
        sized = λ x l. ground (arith, v.sized x, l);
        fresh = λ x h. ground (arith, v.fresh x h);
      }

  pub splice_queue-IsSound : IsSound (splice_queue s)
  unfolding splice_queue
  splice_queue-IsSound = record {
    refs = v.refs;
    queued = λ x. omega (arith, v.queued x, count-append x s.spliced s.write_queue);
    held = v.held;
    listed = v.listed;
    storing = v.storing;
    idle = v.idle;
    room = v.room;
    sized = v.sized;
    fresh = v.fresh;
  }
