-- ===== src/Trace/Steps.antt =====
-- The functions of shared/trace.c in any order: the buffers stay sound.
use ngnfs_progs.Prelude.{
  ℕ, zero, suc, ◌≤◌, ◌≡◌, ◌==◌, inl, inr, true, false, Bool-cases, Option, none, some, List, [],
  ◌∷◌, ◌++◌, map, refl, ap, sym, subst, ◌∙◌, arith,
}
use ngnfs_progs.Prelude.Errno.{Ret, ok, err}
use ngnfs_progs.Prelude.Run.{done}
use ngnfs_progs.Prelude.Memory.{Mem}
use ngnfs_progs.Trace.Buffers.{
  buf_size, nr_bufs, TraceInfo, set_buf, set_tpriv, set_storing_buf, set_bufs, alloc_tbuf, put_tbuf,
  list_del, put_list_bufs,
}
use ngnfs_progs.Trace.Store.{
  total_size, trace_store_ptr, flush_thread, flush_threads, trace_flush, splice_queue,
  clear_writing, give_back, total_len, write_spliced, alloc_bufs, add_thread, trace_register_thread,
  trace_unregister_thread,
}
use ngnfs_progs.Trace.Sound.{
  count, IsSound, try_enqueue_writing-IsSound, leave-IsSound, alloc_tbuf-IsSound, unlink-IsSound,
  give_back-IsSound, splice_queue-IsSound,
}
use ngnfs_progs.Trace.Storing.{trace_store_ptr-IsSound, kept_tpriv, now_writing, same_buf, not_some}

-- The parts of the state that soundness does not speak of.
others-IsSound :
    (s : TraceInfo) (threads : List ℕ) (file : List (Mem × ℕ))
    → IsSound s
    → IsSound (record s { threads = threads; file = file })
others-IsSound s threads file v = record {
  refs = v.refs;
  queued = v.queued;
  held = v.held;
  listed = v.listed;
  storing = v.storing;
  idle = v.idle;
  room = v.room;
  sized = v.sized;
  fresh = v.fresh;
}

flush_thread-IsSound :
    (s : TraceInfo) (t : ℕ) (o : Option ℕ)
    → IsSound s
    → (s.tpriv t).storing_buf ≡ o
    → IsSound (flush_thread o s)
flush_thread-IsSound s t none v e = v
flush_thread-IsSound s t (some b) v e = try_enqueue_writing-IsSound s v b (v.storing t b e).0

flush_threads-IsSound : (ts : List ℕ) (s : TraceInfo) → IsSound s → IsSound (flush_threads ts s)
flush_threads-IsSound [] s v = v
flush_threads-IsSound (t ∷ ts) s v =
    flush_threads-IsSound ts (flush_thread (s.tpriv t).storing_buf s)
      (flush_thread-IsSound s t (s.tpriv t).storing_buf v refl)

abbrev emptied : TraceInfo → TraceInfo
emptied s = record s { spliced = [] }

all_given : (s : TraceInfo) → IsSound s → s.spliced ≡ [] → IsSound (emptied s)
all_given s v e = record {
  refs = v.refs;
  queued = λ x. omega (arith, v.queued x, ap (count x) e);
  held = v.held;
  listed = v.listed;
  storing = v.storing;
  idle = v.idle;
  room = v.room;
  sized = v.sized;
  fresh = v.fresh;
}

give_back_all-IsSound :
    (bs : List ℕ) (s : TraceInfo) → IsSound s → s.spliced ≡ bs → IsSound (give_back bs s)
unfolding give_back
give_back_all-IsSound [] s v e = all_given s v e
give_back_all-IsSound (b ∷ bs) s v e =
    give_back_all-IsSound bs (put_tbuf (set_buf (record s { spliced = bs }) b clear_writing) b)
      (give_back-IsSound s v b bs e) (kept (record s { spliced = bs }) b)
  where
    kept : (r : TraceInfo) (b : ℕ) → (put_tbuf (set_buf r b clear_writing) b).spliced ≡ r.spliced
    kept r b = refl

put_list_bufs-IsSound :
    (bs : List ℕ) (s : TraceInfo) (t : ℕ)
    → IsSound s
    → (s.tpriv t).bufs ≡ bs
    → (s.tpriv t).storing_buf ≡ none
    → IsSound (put_list_bufs t bs s)
unfolding put_list_bufs
put_list_bufs-IsSound [] s t v e n = v
put_list_bufs-IsSound (b ∷ bs) s t v e n =
    put_list_bufs-IsSound bs
      (put_tbuf (set_buf (set_bufs s t bs) b (λ x. record x { linked = false })) b) t
      (unlink-IsSound s v t b bs e n) (ground arith) (ground (arith, n))

alloc_keeps :
    (s : TraceInfo) (t : ℕ)
    → (s.tpriv t).storing_buf ≡ none
    → ((alloc_tbuf s t).tpriv t).storing_buf ≡ none
unfolding alloc_tbuf
alloc_keeps s t e = ground (arith, e)

alloc_bufs-IsSound :
    (n : ℕ) (memory : Option ℕ) (s : TraceInfo) (t : ℕ)
    → IsSound s
    → (s.tpriv t).storing_buf ≡ none
    → IsSound (alloc_bufs n memory s t).1
alloc_bufs-IsSound zero memory s t v e = v
alloc_bufs-IsSound (suc n) none s t v e =
    alloc_bufs-IsSound n none (alloc_tbuf s t) t (alloc_tbuf-IsSound s v t) (alloc_keeps s t e)
alloc_bufs-IsSound (suc n) (some zero) s t v e = put_list_bufs-IsSound (s.tpriv t).bufs s t v refl e
alloc_bufs-IsSound (suc n) (some (suc j)) s t v e =
    alloc_bufs-IsSound n (some j) (alloc_tbuf s t) t (alloc_tbuf-IsSound s v t) (alloc_keeps s t e)

add_thread-IsSound : (t : ℕ) (r : Ret × TraceInfo) → IsSound r.1 → IsSound (add_thread t r).1
add_thread-IsSound t (err e, s) v = v
add_thread-IsSound t (ok n, s) v = others-IsSound s (s.threads ++ (t ∷ [])) s.file v

-- A thread that registers has no buffers yet.
reset-IsSound :
    (s : TraceInfo) (t : ℕ)
    → IsSound s
    → (s.tpriv t).bufs ≡ []
    → (s.tpriv t).storing_buf ≡ none
    → IsSound (set_tpriv s t (record { bufs = []; storing_buf = none }))
reset-IsSound s t v e n = record {
  refs = v.refs;
  queued = v.queued;
  held = v.held;
  listed = λ u x. ground (arith, v.listed u x, ap (count x) e);
  storing = λ u x f. ground (arith, v.storing u x, f);
  idle = λ x f g. ground (arith, v.idle x, f, g, n);
  room = v.room;
  sized = v.sized;
  fresh = v.fresh;
}

-- After the flush of a thread's buffer that buffer is being written.
flushed_writing :
    (s : TraceInfo) (t : ℕ) (o : Option ℕ)
    → (s.tpriv t).storing_buf ≡ o
    → (x : ℕ) → ((flush_thread o s).tpriv t).storing_buf ≡ some x
    → ((flush_thread o s).buf x).writing ≡ true
flushed_writing s t none e x f = absurd (not_some (s.tpriv t).storing_buf x e f)
flushed_writing s t (some b) e x f =
    let same = ap (λ p. (p t).storing_buf) (kept_tpriv s b) in
    rw (same_buf (s.tpriv t).storing_buf x b (sym same ∙ f) e) (now_writing s b)

unregister-IsSound : (s : TraceInfo) (t : ℕ) → IsSound s → IsSound (trace_unregister_thread s t)
unfolding trace_unregister_thread
unregister-IsSound s t v =
    let removed = record s { threads = list_del t s.threads } in
    let queued = flush_thread (s.tpriv t).storing_buf removed in
    let rv = others-IsSound s (list_del t s.threads) s.file v in
    let qv = flush_thread-IsSound removed t (s.tpriv t).storing_buf rv refl in
    let iv = leave-IsSound queued qv t (flushed_writing removed t (s.tpriv t).storing_buf refl) in
    put_list_bufs-IsSound ((set_storing_buf queued t none).tpriv t).bufs
      (set_storing_buf queued t none) t iv refl (ground arith)

write_spliced-IsSound :
    (s : TraceInfo) (sret : ℕ) (u : TraceInfo)
    → IsSound s
    → write_spliced s sret ≡ done u
    → IsSound u
unfolding write_spliced
write_spliced-IsSound s sret u v e = elim (Bool-cases (sret == total_len s s.spliced)) [
  | inl all ↦
      let file = s.file ++ map (λ b. ((s.buf b).mem, (s.buf b).len)) s.spliced in
      let r = record s { file = file } in
      let h : done (give_back s.spliced r) ≡ done u = rw all at e in
      let q : give_back s.spliced r ≡ u = cc in
      subst IsSound q (give_back_all-IsSound s.spliced r (others-IsSound s s.threads file v) refl)
  | inr short ↦ absurd (ground (arith, e, short))
]

-- A function of trace.c run by some thread, where it may be called.
pub data TraceStep : TraceInfo → TraceInfo → Type 0 where
  store :
      (s : TraceInfo) (t id len : ℕ)
      → total_size len ≤ buf_size
      → TraceStep s (trace_store_ptr s t id len).0
  flush : (s : TraceInfo) → TraceStep s (trace_flush s)
  splice : (s : TraceInfo) → TraceStep s (splice_queue s)
  write : (s u : TraceInfo) (sret : ℕ) → write_spliced s sret ≡ done u → TraceStep s u
  register :
      (s : TraceInfo) (t : ℕ) (memory : Option ℕ)
      → (s.tpriv t).bufs ≡ []
      → (s.tpriv t).storing_buf ≡ none
      → TraceStep s (trace_register_thread s t memory).1
  unregister : (s : TraceInfo) (t : ℕ) → TraceStep s (trace_unregister_thread s t)

-- What trace_init makes.
abbrev pub initial : TraceInfo
initial = record {
  buf = λ b. record {
    refcount = 0;
    linked = false;
    owner = 0;
    writing = false;
    allocated = false;
    mem = λ a. 0;
    len = 0;
    size = 0;
  };
  next = 0;
  tpriv = λ t. record { bufs = []; storing_buf = none };
  threads = [];
  write_queue = [];
  spliced = [];
  file = [];
}

pub data Reach : TraceInfo → Type 0 where
  start : Reach initial
  next : {s u : TraceInfo} → Reach s → TraceStep s u → Reach u

initial-IsSound : IsSound initial
initial-IsSound = record {
  refs = λ b. refl;
  queued = λ b. omega arith;
  held = λ b. refl;
  listed = λ t b. refl;
  storing = λ t b e. absurd (not_some none b refl e);
  idle = λ b f n. refl;
  room = λ b. omega arith;
  sized = λ b l. cc;
  fresh = λ b h. refl;
}

TraceStep-IsSound : {s u : TraceInfo} → TraceStep s u → IsSound s → IsSound u
unfolding trace_flush trace_register_thread
TraceStep-IsSound (store s t id len h) v = trace_store_ptr-IsSound s t id len v h
TraceStep-IsSound (flush s) v = flush_threads-IsSound s.threads s v
TraceStep-IsSound (splice s) v = splice_queue-IsSound s v
TraceStep-IsSound (write s u sret e) v = write_spliced-IsSound s sret u v e
TraceStep-IsSound (register s t memory e n) v =
    let clean = set_tpriv s t (record { bufs = []; storing_buf = none }) in
    add_thread-IsSound t (alloc_bufs nr_bufs memory clean t)
      (alloc_bufs-IsSound nr_bufs memory clean t (reset-IsSound s t v e n) (ground arith))
TraceStep-IsSound (unregister s t) v = unregister-IsSound s t v

-- Whatever the order in which threads register, store events of at most the size of a buffer, flush
-- and unregister, and the write thread takes and writes buffers: a buffer is queued exactly once
-- while it is written, has a reference for its list and one for the queue, is freed with the last
-- of them, and never holds more than its size; what is neither stored into nor written is empty.
pub Reach-IsSound : (s : TraceInfo) → Reach s → IsSound s
Reach-IsSound s start = initial-IsSound
Reach-IsSound s (next {s = r} w st) = TraceStep-IsSound st (Reach-IsSound r w)
