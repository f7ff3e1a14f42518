-- ===== src/Trace/Store.antt =====
-- The functions of shared/trace.c. Each is one step; between them other threads run. `global_trinf`
-- is there.
use ngnfs_progs.Prelude.{
  ℕ, zero, suc, ◌+◌, ◌*◌, ◌/◌, ◌==◌, ltb, ◌||◌, not, Bool, true, false, Option, none, some, List,
  [], ◌∷◌, ◌++◌, map, if◌then◌else◌,
}
use ngnfs_progs.Prelude.Run.{Run, done, bug_on, ◌>>◌}
use ngnfs_progs.Prelude.Errno.{Ret, ok, err, enomem}
use ngnfs_progs.Prelude.Memory.{store16}
use ngnfs_progs.Trace.Buffers.{
  nr_bufs, TraceBuf, TraceInfo, set_buf, set_tpriv, set_storing_buf, set_bufs, alloc_tbuf, put_tbuf,
  try_enqueue_writing, list_del, list_move_tail, put_list_bufs,
}

-- struct ngnfs_trace_event_header
abbrev pub event_header_size : ℕ
event_header_size = 8

-- The header and the event, padded to eight bytes.
abbrev pub total_size : ℕ → ℕ
total_size len = event_header_size + (len + 7) / 8 * 8

-- A full buffer, or one that flush has queued, goes to the end of the thread's list.
abbrev pub retire : TraceInfo → ℕ → ℕ → TraceInfo
retire trinf t b =
    let queued = try_enqueue_writing trinf b in
    set_storing_buf (set_bufs queued t (list_move_tail b (queued.tpriv t).bufs)) t none

abbrev pub leave_full : TraceInfo → ℕ → ℕ → Option ℕ → TraceInfo
leave_full trinf t total none = trinf
leave_full trinf t total (some b) =
    let tbuf = trinf.buf b in
    if ltb tbuf.size (tbuf.len + total) || tbuf.writing then retire trinf t b else trinf

-- The next buffer of the list, where it is not being written.
abbrev pub take_next : TraceInfo → ℕ → List ℕ → TraceInfo
take_next trinf t [] = trinf
take_next trinf t (b ∷ bs) =
    if (trinf.buf b).writing then trinf else set_storing_buf trinf t (some b)

abbrev pub next_buf : TraceInfo → ℕ → Option ℕ → TraceInfo
next_buf trinf t none = take_next trinf t (trinf.tpriv t).bufs
next_buf trinf t (some b) = trinf

-- The header goes to the start of the buffer, whatever is stored already.
abbrev pub put_header : ℕ → ℕ → TraceBuf → TraceBuf
put_header id total tbuf = record tbuf {
  mem = store16 (store16 tbuf.mem 0 id) 2 total;
  len = tbuf.len + total;
}

abbrev pub store_event : TraceInfo → ℕ → ℕ → Option ℕ → TraceInfo × Option (ℕ × ℕ)
store_event trinf id total none = (trinf, none)
store_event trinf id total (some b) =
    (set_buf trinf b (put_header id total), some (b, event_header_size))

-- The pointer is a buffer and an offset in it.
unfoldable pub trace_store_ptr : TraceInfo → ℕ → ℕ → ℕ → TraceInfo × Option (ℕ × ℕ)
trace_store_ptr trinf t id len =
    let total = total_size len in
    let left = leave_full trinf t total (trinf.tpriv t).storing_buf in
    let taken = next_buf left t (left.tpriv t).storing_buf in
    store_event taken id total (taken.tpriv t).storing_buf

abbrev pub flush_thread : Option ℕ → TraceInfo → TraceInfo
flush_thread none trinf = trinf
flush_thread (some b) trinf = try_enqueue_writing trinf b

abbrev pub flush_threads : List ℕ → TraceInfo → TraceInfo
flush_threads [] trinf = trinf
flush_threads (t ∷ ts) trinf = flush_threads ts (flush_thread (trinf.tpriv t).storing_buf trinf)

-- Up to the wait.
unfoldable pub trace_flush : TraceInfo → TraceInfo
trace_flush trinf = flush_threads trinf.threads trinf

-- What trace_flush and trace_destroy wait for.
abbrev pub flushed : TraceInfo → Bool
flushed trinf = elim trinf.write_queue [ [] ↦ true | _ ∷ _ ↦ false ]

-- The write thread takes the queue,
unfoldable pub splice_queue : TraceInfo → TraceInfo
splice_queue trinf = record trinf { spliced = trinf.spliced ++ trinf.write_queue; write_queue = [] }

-- and gives the buffers back after it has written them.
abbrev pub clear_writing : TraceBuf → TraceBuf
clear_writing tbuf = record tbuf { len = 0; writing = false }

unfoldable pub give_back : List ℕ → TraceInfo → TraceInfo
unfolding put_tbuf
give_back [] trinf = record trinf { spliced = [] }
give_back (b ∷ bs) trinf =
    give_back bs (put_tbuf (set_buf (record trinf { spliced = bs }) b clear_writing) b)

abbrev pub total_len : TraceInfo → List ℕ → ℕ
total_len trinf [] = 0
total_len trinf (b ∷ bs) = (trinf.buf b).len + total_len trinf bs

-- `sret` is what writev returns; the memory of the vector is there.
unfoldable pub write_spliced : TraceInfo → ℕ → Run TraceInfo
write_spliced trinf sret = do
  bug_on (not (sret == total_len trinf trinf.spliced))
  let iov = map (λ b. ((trinf.buf b).mem, (trinf.buf b).len)) trinf.spliced
  done (give_back trinf.spliced (record trinf { file = trinf.file ++ iov }))

-- The loop that allocates; `memory` says for which buffer there is none.
abbrev pub alloc_bufs : ℕ → Option ℕ → TraceInfo → ℕ → Ret × TraceInfo
alloc_bufs zero memory trinf t = (ok 0, trinf)
alloc_bufs (suc n) memory trinf t = elim memory [
  | none ↦ alloc_bufs n none (alloc_tbuf trinf t) t
  | some k ↦ elim k [
    | zero ↦ (err enomem, put_list_bufs t (trinf.tpriv t).bufs trinf)
    | suc j ↦ alloc_bufs n (some j) (alloc_tbuf trinf t) t
  ]
]

abbrev pub add_thread : ℕ → Ret × TraceInfo → Ret × TraceInfo
add_thread t (err e, trinf) = (err e, trinf)
add_thread t (ok n, trinf) = (ok n, record trinf { threads = trinf.threads ++ (t ∷ []) })

unfoldable pub trace_register_thread : TraceInfo → ℕ → Option ℕ → Ret × TraceInfo
trace_register_thread trinf t memory =
    add_thread t
      (alloc_bufs nr_bufs memory (set_tpriv trinf t (record { bufs = []; storing_buf = none })) t)

unfoldable pub trace_unregister_thread : TraceInfo → ℕ → TraceInfo
trace_unregister_thread trinf t =
    let removed = record trinf { threads = list_del t trinf.threads } in
    let queued = flush_thread (trinf.tpriv t).storing_buf removed in
    let idle = set_storing_buf queued t none in put_list_bufs t (idle.tpriv t).bufs idle
