-- ===== src/Workqueue/Drain.antt =====
-- How destroy_workqueue of shared/lk/workqueue.c ends.
use ngnfs_progs.Prelude.{
  ℕ, zero, suc, ◌≡◌, ◌≢◌, ltb, Bool, true, false, not, ◌&&◌, List, [], ◌∷◌, ◌++◌, length, refl, sym,
  ◌∙◌, arith, if◌then◌else◌,
}
use ngnfs_progs.Prelude.Run.{Run, done, bug, hang, ◌>>=◌}
use ngnfs_progs.Workqueue.{
  WorkFunc, work_destroy_func, work_func, WorkqueueStruct, set_queued, queue_work, workqueue_thread,
  check_empty, destroy_workqueue,
}

-- None of the queued works is the one that stops the thread.
abbrev pub AreOthers : ℕ → List ℕ → Type 0
AreOthers dummy [] = Unit {0}
AreOthers dummy (w ∷ ws) = (w ≢ dummy) × AreOthers dummy ws

module _ {S : Type 0} (run : ℕ → S → S) where
  -- The works one after the other.
  abbrev pub run_all : List ℕ → S → S
  run_all [] s = s
  run_all (w ∷ ws) s = run_all ws (run w s)

  -- How the destruction ends, by the bit of the work struct on the stack.
  abbrev pub drained : Bool → ℕ → Bool → List ℕ → S → Run S
  drained false rounds seen ws s = if ltb (length ws) rounds then done (run_all ws s) else bug
  drained true rounds seen ws s =
      if ltb rounds (length ws)
      then bug
      else if ltb (length ws) rounds && not seen
      then hang
      else done (run_all ws s)

ltb-suc-suc : (m n : ℕ) → ltb (suc m) (suc n) ≡ ltb m n
ltb-suc-suc m n = ground arith

drained-suc :
    {S : Type 0} (run : ℕ → S → S) (bit : Bool) (rounds : ℕ) (seen : Bool) (w : ℕ) (ws : List ℕ)
    (s : S)
    → drained run bit (suc rounds) seen (w ∷ ws) s ≡ drained run bit rounds seen ws (run w s)
drained-suc run false rounds seen w ws s = rw (ltb-suc-suc (length ws) rounds) refl
drained-suc run true rounds seen w ws s =
    rw (ltb-suc-suc (length ws) rounds, ltb-suc-suc rounds (length ws)) refl

ltb-zero-suc : (n : ℕ) → ltb 0 (suc n) ≡ true
ltb-zero-suc n = ground arith

ltb-suc-zero : (n : ℕ) → ltb (suc n) 0 ≡ false
ltb-suc-zero n = ground arith

module _ {S : Type 0} (func : ℕ → WorkFunc S) (run : ℕ → S → S) (dummy : ℕ)
    (works : (w : ℕ) → w ≢ dummy → func w ≡ work_func (λ s. (run w s, [])))
    (stops : func dummy ≡ work_destroy_func) where
  abbrev finish : WorkqueueStruct × S → Run S
  finish r = check_empty func r.0.queue r.1

  thread-dummy :
      (ws : List ℕ) (rounds : ℕ) (seen : Bool) (wq : WorkqueueStruct) (s : S)
      → AreOthers dummy ws
      → wq.queue ≡ ws ++ (dummy ∷ [])
      → (workqueue_thread func rounds seen wq s >>= finish) ≡ drained run false rounds seen ws s
  unfolding workqueue_thread
  thread-dummy [] zero seen wq s others e = rw e refl
  thread-dummy (w ∷ ws) zero seen wq s others e = rw (e, ltb-suc-zero (length ws)) refl
  thread-dummy [] (suc rounds) seen wq s others e =
      rw (ltb-zero-suc rounds, e, stops, workqueue_thread) refl
  thread-dummy (w ∷ ws) (suc rounds) seen wq s (o, others) e =
      let rest = set_queued (record wq { queue = ws ++ (dummy ∷ []) }) w false in
      let q = thread-dummy ws rounds seen rest (run w s) others refl in
      rw (e, works w o, workqueue_thread) (q ∙ sym (drained-suc run false rounds seen w ws s))

  thread-no_dummy :
      (ws : List ℕ) (rounds : ℕ) (seen : Bool) (wq : WorkqueueStruct) (s : S)
      → AreOthers dummy ws
      → wq.queue ≡ ws
      → (workqueue_thread func rounds seen wq s >>= finish) ≡ drained run true rounds seen ws s
  unfolding workqueue_thread
  thread-no_dummy [] zero seen wq s others e = rw e refl
  thread-no_dummy (w ∷ ws) zero seen wq s others e = rw (e, ltb-zero-suc (length ws)) refl
  thread-no_dummy [] (suc rounds) true wq s others e =
      rw (ltb-suc-zero rounds, ltb-zero-suc rounds, e, workqueue_thread) (rw e refl)
  thread-no_dummy [] (suc rounds) false wq s others e =
      rw (ltb-suc-zero rounds, ltb-zero-suc rounds, e, workqueue_thread) refl
  thread-no_dummy (w ∷ ws) (suc rounds) seen wq s (o, others) e =
      let rest = set_queued (record wq { queue = ws }) w false in
      let q = thread-no_dummy ws rounds seen rest (run w s) others refl in
      rw (e, works w o, workqueue_thread) (q ∙ sym (drained-suc run true rounds seen w ws s))

  destroyed :
      (bit : Bool) (rounds : ℕ) (seen : Bool) (wq : WorkqueueStruct) (s : S)
      → wq.queued dummy ≡ bit
      → AreOthers dummy wq.queue
      → destroy_workqueue func rounds seen wq s dummy ≡ drained run bit rounds seen wq.queue s
  unfolding destroy_workqueue queue_work
  destroyed false rounds seen wq s e others =
      let queued = record (set_queued wq dummy true) { queue = wq.queue ++ (dummy ∷ []) } in
      rw (e, queue_work) (thread-dummy wq.queue rounds seen queued s others refl)
  destroyed true rounds seen wq s e others =
      rw (e, queue_work) (thread-no_dummy wq.queue rounds seen wq s others refl)

-- The works of a queue do not queue others, and none is the one on the stack that stops the thread.
-- If the bit of that one, which is not initialised, is clear: where the thread starts more rounds than
-- there are works before it finds its stop bit set, the destruction of the queue runs the works in
-- order, each once, and otherwise its assertion fails. If the bit is set: with fewer rounds than works
-- the assertion fails; with more, where the stop bit is not seen before the thread waits, the thread
-- never stops; else the works are run.
pub destroy_workqueue-drained :
    {S : Type 0} (func : ℕ → WorkFunc S) (run : ℕ → S → S) (rounds : ℕ) (seen : Bool) (dummy : ℕ)
    (wq : WorkqueueStruct) (s : S)
    → ((w : ℕ) → w ≢ dummy → func w ≡ work_func (λ s. (run w s, [])))
    → func dummy ≡ work_destroy_func
    → AreOthers dummy wq.queue
    → destroy_workqueue func rounds seen wq s dummy
      ≡ drained run (wq.queued dummy) rounds seen wq.queue s
destroy_workqueue-drained func run rounds seen dummy wq s works stops others =
    destroyed func run dummy works stops (wq.queued dummy) rounds seen wq s refl others
