-- ===== src/Trace/Buffers.antt =====
-- The buffers of shared/trace.c, their references and the queue of the write thread. Buffers and
-- threads are numbers.
use ngnfs_progs.Prelude.{
  ℕ, ◌+◌, ◌-◌, ◌*◌, ◌/◌, ◌==◌, Bool, true, false, not, Option, List, [], ◌∷◌, ◌++◌, if◌then◌else◌,
}
use ngnfs_progs.Prelude.Memory.{Mem}

abbrev pub buf_size : ℕ
buf_size = 32 * 1024

abbrev pub nr_bufs : ℕ
nr_bufs = 1024 * 1024 / buf_size

-- `linked` says whether `head` is in the list of a thread, `owner` whose list that is; `writing` is
-- the bit TB_WRITING, `allocated` whether the memory is not freed.
pub record TraceBuf : Type 0 where
  pub refcount : ℕ
  pub linked : Bool
  pub owner : ℕ
  pub writing : Bool
  pub allocated : Bool
  pub mem : Mem
  pub len : ℕ
  pub size : ℕ

-- struct trace_thread_private
pub record TracePrivate : Type 0 where
  pub bufs : List ℕ
  pub storing_buf : Option ℕ

-- struct trace_info with all buffers and threads. Buffers from `next` on have not been allocated;
-- `spliced` is the private queue of the write thread, `file` what writev was given.
pub record TraceInfo : Type 0 where
  pub buf : ℕ → TraceBuf
  pub next : ℕ
  pub tpriv : ℕ → TracePrivate
  pub threads : List ℕ
  pub write_queue : List ℕ
  pub spliced : List ℕ
  pub file : List (Mem × ℕ)

abbrev pub set_buf : TraceInfo → ℕ → (TraceBuf → TraceBuf) → TraceInfo
set_buf trinf b f = record trinf { buf = λ x. if x == b then f (trinf.buf x) else trinf.buf x }

abbrev pub set_tpriv : TraceInfo → ℕ → TracePrivate → TraceInfo
set_tpriv trinf t p = record trinf { tpriv = λ x. if x == t then p else trinf.tpriv x }

abbrev pub set_storing_buf : TraceInfo → ℕ → Option ℕ → TraceInfo
set_storing_buf trinf t b = set_tpriv trinf t (record (trinf.tpriv t) { storing_buf = b })

abbrev pub set_bufs : TraceInfo → ℕ → List ℕ → TraceInfo
set_bufs trinf t bs = set_tpriv trinf t (record (trinf.tpriv t) { bufs = bs })

-- malloc of a buffer for a thread, and list_add of it.
unfoldable pub alloc_tbuf : TraceInfo → ℕ → TraceInfo
alloc_tbuf trinf t =
    let allocated = set_buf trinf trinf.next (λ x. record x {
      refcount = 1;
      linked = true;
      owner = t;
      writing = false;
      allocated = true;
      len = 0;
      size = buf_size;
    }) in
    set_bufs (record allocated { next = trinf.next + 1 }) t (trinf.next ∷ (trinf.tpriv t).bufs)

-- The buffer is freed with its last reference.
abbrev pub drop_ref : TraceBuf → TraceBuf
drop_ref tbuf = record tbuf {
  refcount = tbuf.refcount - 1;
  allocated = not (tbuf.refcount - 1 == 0);
}

unfoldable pub put_tbuf : TraceInfo → ℕ → TraceInfo
put_tbuf trinf b = set_buf trinf b drop_ref

abbrev pub set_writing : TraceBuf → TraceBuf
set_writing tbuf = record tbuf { writing = true; refcount = tbuf.refcount + 1 }

unfoldable pub try_enqueue_writing : TraceInfo → ℕ → TraceInfo
try_enqueue_writing trinf b =
    if (trinf.buf b).writing
    then trinf
    else record (set_buf trinf b set_writing) { write_queue = trinf.write_queue ++ (b ∷ []) }

-- list_del of one element.
abbrev pub list_del : ℕ → List ℕ → List ℕ
list_del b [] = []
list_del b (x ∷ xs) = if x == b then xs else x ∷ list_del b xs

abbrev pub list_move_tail : ℕ → List ℕ → List ℕ
list_move_tail b bs = list_del b bs ++ (b ∷ [])

-- The loop takes the first buffer until the list is empty.
unfoldable pub put_list_bufs : ℕ → List ℕ → TraceInfo → TraceInfo
unfolding put_tbuf
put_list_bufs t [] trinf = trinf
put_list_bufs t (b ∷ bs) trinf =
    put_list_bufs t bs
      (put_tbuf (set_buf (set_bufs trinf t bs) b (λ x. record x { linked = false })) b)
