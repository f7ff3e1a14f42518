-- ===== src/Trace/Overlap.antt =====
-- Where trace_store_ptr of shared/trace.c puts events that follow one another.
use ngnfs_progs.Prelude.{ℕ, ◌+◌, ◌≤◌, ◌<◌, ◌≡◌, ◌||◌, ltb, false, Option, some, refl, subst, arith}
use ngnfs_progs.Prelude.Memory.{load16, store16}
use ngnfs_progs.Trace.Buffers.{buf_size, TraceInfo, set_buf}
use ngnfs_progs.Trace.Store.{event_header_size, total_size, leave_full, put_header, trace_store_ptr}
use ngnfs_progs.Trace.Sound.{IsSound}
use ngnfs_progs.Trace.Storing.{trace_store_ptr-IsSound}

-- An event for which the thread's buffer has room.
store_here :
    (s : TraceInfo) (t id len b : ℕ)
    → IsSound s
    → (s.tpriv t).storing_buf ≡ some b
    → (s.buf b).writing ≡ false
    → (s.buf b).len + total_size len ≤ buf_size
    → trace_store_ptr s t id len
      ≡ (set_buf s b (put_header id (total_size len)), some (b, event_header_size))
unfolding trace_store_ptr
store_here s t id len b v e w h =
    let roomy : (ltb (s.buf b).size ((s.buf b).len + total_size len) || (s.buf b).writing) ≡ false =
      ground (arith, v.sized b, v.storing t b e, w, h) in
    let left : leave_full s t (total_size len) (s.tpriv t).storing_buf ≡ s = rw e (rw roomy refl) in
    rw (left, e) (rw e refl)

-- Both results are the same place, the header there is that of the second, and the length is `len`.
abbrev pub SamePlace : ℕ → ℕ → ℕ → TraceInfo × Option (ℕ × ℕ) → TraceInfo × Option (ℕ × ℕ) → Type 0
SamePlace b id len r1 r2 =
    (r1.1 ≡ some (b, event_header_size))
    × (r2.1 ≡ some (b, event_header_size))
    × (load16 (r2.0.buf b).mem 0 ≡ id)
    × ((r2.0.buf b).len ≡ len)

-- Two events that fit into the buffer of a thread: both get the same place, and the header of the
-- second stands where that of the first was, while the length counts both.
pub stores-overlap :
    (s : TraceInfo) (t b id len id2 len2 : ℕ)
    → IsSound s
    → (s.tpriv t).storing_buf ≡ some b
    → (s.buf b).writing ≡ false
    → (s.buf b).len + total_size len + total_size len2 ≤ buf_size
    → id2 < 65536
    → SamePlace b id2
        ((s.buf b).len + total_size len + total_size len2)
        (trace_store_ptr s t id len)
        (trace_store_ptr (trace_store_ptr s t id len).0 t id2 len2)
unfolding store16
stores-overlap s t b id len id2 len2 v e w h small =
    let one = store_here s t id len b v e w (omega arith) in
    let s1 = set_buf s b (put_header id (total_size len)) in
    let v1 : IsSound s1 =
      subst (λ r. IsSound r.0) one (trace_store_ptr-IsSound s t id len v (omega arith)) in
    let two = store_here s1 t id2 len2 b v1 e (ground (arith, w)) (ground (arith, h)) in
    rw one (rw two (refl, refl, ground (arith, small), ground arith))
