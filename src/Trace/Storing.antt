-- ===== src/Trace/Storing.antt =====
-- trace_store_ptr of shared/trace.c keeps the buffers sound, and has room for the event.
use ngnfs_progs.Prelude.{
  ℕ, ◌+◌, ◌≤◌, ◌≡◌, ◌≢◌, ◌||◌, inl, inr, ltb, true, false, Bool-cases, Option, none, some, List, [],
  ◌∷◌, refl, ap, sym, ◌∙◌, arith,
}
use ngnfs_progs.Trace.Buffers.{
  buf_size, TraceInfo, set_storing_buf, set_bufs, try_enqueue_writing, list_move_tail,
}
use ngnfs_progs.Trace.Store.{
  total_size, retire, leave_full, take_next, next_buf, store_event, trace_store_ptr,
}
use ngnfs_progs.Trace.Sound.{
  count, count-list_move_tail, IsSound, try_enqueue_writing-IsSound, set_bufs-IsSound,
  leave-IsSound, take-IsSound, put_header-IsSound,
}

-- The buffer that a thread stores into, if there is one, has room for the event.
record IsReady (s : TraceInfo) (t total : ℕ) : Type 0 where
  sound : IsSound s
  roomy : (b : ℕ) → (s.tpriv t).storing_buf ≡ some b → (s.buf b).len + total ≤ buf_size

pub kept_tpriv : (s : TraceInfo) (b : ℕ) → (try_enqueue_writing s b).tpriv ≡ s.tpriv
unfolding try_enqueue_writing
kept_tpriv s b = ground arith

pub now_writing : (s : TraceInfo) (b : ℕ) → ((try_enqueue_writing s b).buf b).writing ≡ true
unfolding try_enqueue_writing
now_writing s b = ground arith

pub not_some : {A : Type 0} (o : Option A) (a : A) → o ≡ none → o ≢ some a
not_some o a e f = cc

pub same_buf : (o : Option ℕ) (a b : ℕ) → o ≡ some a → o ≡ some b → a ≡ b
same_buf o a b e f = ground (arith, e, f)

module _ (s : TraceInfo) (v : IsSound s) (t total : ℕ) where
  listed_once : (b : ℕ) → (s.tpriv t).storing_buf ≡ some b → 1 ≤ count b (s.tpriv t).bufs
  listed_once b e = ground (arith, v.listed t b, v.storing t b e)

  retire-IsSound : (b : ℕ) → (s.tpriv t).storing_buf ≡ some b → IsSound (retire s t b)
  retire-IsSound b e =
      let q = try_enqueue_writing s b in
      let same : q.tpriv t ≡ s.tpriv t = ap (λ f. f t) (kept_tpriv s b) in
      let qv = try_enqueue_writing-IsSound s v b (v.storing t b e).0 in
      let once : 1 ≤ count b (q.tpriv t).bufs = rw same (listed_once b e) in
      let moved = list_move_tail b (q.tpriv t).bufs in
      leave-IsSound (set_bufs q t moved)
        (set_bufs-IsSound q qv t moved (λ x. count-list_move_tail b x (q.tpriv t).bufs once)) t
        (written q moved same (now_writing s b))
    where
      written :
          (q : TraceInfo) (moved : List ℕ)
          → q.tpriv t ≡ s.tpriv t
          → (q.buf b).writing ≡ true
          → (x : ℕ) → ((set_bufs q t moved).tpriv t).storing_buf ≡ some x
          → (q.buf x).writing ≡ true
      written q moved same w x f =
          let stored : (q.tpriv t).storing_buf ≡ some x = ground (arith, f) in
          rw (same_buf (s.tpriv t).storing_buf x b (ap (λ r. r.storing_buf) (sym same) ∙ stored) e)
            w

  retire-IsReady : (b : ℕ) → (s.tpriv t).storing_buf ≡ some b → IsReady (retire s t b) t total
  retire-IsReady b e = record { sound = retire-IsSound b e; roomy = λ x f. ground (arith, f) }

  leave_full-IsReady :
      (o : Option ℕ) → (s.tpriv t).storing_buf ≡ o → IsReady (leave_full s t total o) t total
  leave_full-IsReady none e = record {
    sound = v;
    roomy = λ b f. absurd (not_some (s.tpriv t).storing_buf b e f);
  }
  leave_full-IsReady (some b) e =
      elim (Bool-cases (ltb (s.buf b).size ((s.buf b).len + total) || (s.buf b).writing)) [
        | inl full ↦ rw full (retire-IsReady b e)
        | inr free ↦ rw free (record { sound = v; roomy = roomy free })
      ]
    where
      fits :
          (ltb (s.buf b).size ((s.buf b).len + total) || (s.buf b).writing) ≡ false
          → (s.buf b).len + total ≤ buf_size
      fits free = ground (arith, free, v.sized b, v.storing t b e)

      roomy :
          (ltb (s.buf b).size ((s.buf b).len + total) || (s.buf b).writing) ≡ false
          → (x : ℕ) → (s.tpriv t).storing_buf ≡ some x
          → (s.buf x).len + total ≤ buf_size
      roomy free x f = rw (same_buf (s.tpriv t).storing_buf x b f e) (fits free)

  take_next-IsReady :
      (bs : List ℕ)
      → (s.tpriv t).bufs ≡ bs
      → (s.tpriv t).storing_buf ≡ none
      → total ≤ buf_size
      → IsReady (take_next s t bs) t total
  take_next-IsReady [] e n h = record {
    sound = v;
    roomy = λ b f. absurd (not_some (s.tpriv t).storing_buf b n f);
  }
  take_next-IsReady (b ∷ bs) e n h = elim (Bool-cases (s.buf b).writing) [
    | inl w ↦
        rw w (record { sound = v; roomy = λ x f. absurd (not_some (s.tpriv t).storing_buf x n f) })
    | inr w ↦
        rw w (record { sound = take-IsSound s v t b n (listed).0 (listed).1; roomy = roomy w })
  ]
    where
      listed : ((s.buf b).linked ≡ true) × ((s.buf b).owner ≡ t)
      listed =
          let c : count b (b ∷ bs) ≡ count b (s.tpriv t).bufs = ap (count b) (sym e) in
          (ground (arith, v.listed t b, c), ground (arith, v.listed t b, c))

      empty : (s.buf b).writing ≡ false → (s.buf b).len ≡ 0
      empty w = v.idle b w (λ f. not_some (s.tpriv t).storing_buf b n (rw (sym listed.1) f))

      roomy :
          (s.buf b).writing ≡ false
          → (x : ℕ) → ((set_storing_buf s t (some b)).tpriv t).storing_buf ≡ some x
          → (s.buf x).len + total ≤ buf_size
      roomy w x f = let q : b ≡ x = ground (arith, f) in rw (sym q) (omega (arith, empty w))

  store_event-IsSound :
      (id : ℕ) (o : Option ℕ)
      → IsReady s t total
      → (s.tpriv t).storing_buf ≡ o
      → IsSound (store_event s id total o).0
  store_event-IsSound id none r e = v
  store_event-IsSound id (some b) r e =
      put_header-IsSound s v b id total (rw (v.storing t b e).1 e) (r.roomy b e)

  next_buf-IsReady :
      (o : Option ℕ)
      → IsReady s t total
      → (s.tpriv t).storing_buf ≡ o
      → total ≤ buf_size
      → IsReady (next_buf s t o) t total
  next_buf-IsReady none r e h = take_next-IsReady (s.tpriv t).bufs refl e h
  next_buf-IsReady (some b) r e h = r

pub trace_store_ptr-IsSound :
    (s : TraceInfo) (t id len : ℕ)
    → IsSound s
    → total_size len ≤ buf_size
    → IsSound (trace_store_ptr s t id len).0
unfolding trace_store_ptr
trace_store_ptr-IsSound s t id len v h =
    let total = total_size len in
    let left = leave_full s t total (s.tpriv t).storing_buf in
    let r1 = leave_full-IsReady s v t total (s.tpriv t).storing_buf refl in
    let r2 = next_buf-IsReady left r1.sound t total (left.tpriv t).storing_buf r1 refl h in
    store_event-IsSound (next_buf left t (left.tpriv t).storing_buf) r2.sound t total id _ r2 refl
