-- ===== src/Tests/Trace.antt =====
-- shared/trace.c: a thread that registers and stores events, and the write thread.
use ngnfs_progs.Prelude.{◌≡◌, true, none, [], ◌∷◌, refl, arith}
use ngnfs_progs.Trace.Buffers.{TraceInfo, alloc_tbuf, try_enqueue_writing}
use ngnfs_progs.Trace.Store.{
  trace_store_ptr, trace_flush, splice_queue, trace_register_thread, trace_unregister_thread,
  flushed,
}
use ngnfs_progs.Trace.Sound.{IsSound}
use ngnfs_progs.Trace.Steps.{TraceStep, Reach, initial, Reach-IsSound}
use ngnfs_progs.Trace.Overlap.{SamePlace, stores-overlap}

abbrev registered : TraceInfo
registered = (trace_register_thread initial 0 none).1

-- Thread 0 has stored an event of ten bytes.
abbrev stored : TraceInfo
stored = (trace_store_ptr registered 0 5 10).0

abbrev taken : TraceInfo
taken = splice_queue (trace_flush stored)

abbrev left : TraceInfo
left = trace_unregister_thread taken 0

stored-Reach : Reach stored
stored-Reach =
    Reach.next (Reach.next Reach.start (TraceStep.register initial 0 none refl refl))
      (TraceStep.store registered 0 5 10 (omega arith))

left-Reach : Reach left
left-Reach =
    Reach.next
      (Reach.next (Reach.next stored-Reach (TraceStep.flush stored))
        (TraceStep.splice (trace_flush stored)))
      (TraceStep.unregister taken 0)

-- The buffer is still to be written where trace_flush has returned.
returns_early : (flushed taken ≡ true) × (taken.spliced ≡ 31 ∷ []) × (taken.file ≡ [])
unfolding trace_register_thread trace_store_ptr trace_flush splice_queue try_enqueue_writing
    alloc_tbuf
returns_early = (refl, refl, refl)

Reach-IsSound_example : IsSound left
Reach-IsSound_example = Reach-IsSound left left-Reach

stores-overlap_example :
    SamePlace 31 7 80
      (trace_store_ptr stored 0 6 20)
      (trace_store_ptr (trace_store_ptr stored 0 6 20).0 0 7 9)
unfolding trace_register_thread trace_store_ptr alloc_tbuf
stores-overlap_example =
    stores-overlap stored 0 31 6 20 7 9 (Reach-IsSound stored stored-Reach) refl refl (omega arith)
      (omega arith)
