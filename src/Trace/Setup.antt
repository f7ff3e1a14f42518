-- ===== src/Trace/Setup.antt =====
-- trace_init, trace_setup and trace_destroy of shared/trace.c: the file of the traces and the write
-- thread.
use ngnfs_progs.Prelude.{
  ℕ, ◌≡◌, Bool, true, false, Option, none, some, List, [], ◌∷◌, ◌++◌, refl, if◌then◌else◌,
}
use ngnfs_progs.Prelude.Run.{Run, done, bug, hang, Returns}
use ngnfs_progs.Prelude.Errno.{Ret, ok, err, enomem}

-- The descriptor, and whether the thread runs.
pub record GlobalTrace : Type 0 where
  pub fd : Option ℕ
  pub write_thr : Bool

-- global_trinf, and the descriptors that were closed.
pub record Tracing : Type 0 where
  pub trinf : Option GlobalTrace
  pub closed : List ℕ

unfoldable pub trace_init : Bool → Tracing → Ret × Tracing
trace_init memory tr =
    if memory
    then (ok 0, record tr { trinf = some (record { fd = none; write_thr = false }) })
    else (err enomem, tr)

abbrev pub start_writer : ℕ → Ret → Tracing → Ret × Tracing
start_writer fd (err e) tr = (
  err e,
  record tr {
    trinf = some (record { fd = none; write_thr = false });
    closed = tr.closed ++ (fd ∷ []);
  },
)
start_writer fd (ok n) tr =
    (ok n, record tr { trinf = some (record { fd = some fd; write_thr = true }) })

-- `opened` is what open returns, `started` what thread_start does.
unfoldable pub trace_setup : Option ℕ → Ret → Tracing → Ret × Tracing
trace_setup opened started tr = elim tr.trinf [
  | none ↦ (ok 0, tr)
  | some trinf ↦ elim opened [
    | none ↦ (err enomem, record tr { trinf = some (record trinf { fd = none }) })
    | some fd ↦ start_writer fd started tr
  ]
]

abbrev pub close_fd : Option ℕ → List ℕ → List ℕ
close_fd none closed = closed
close_fd (some fd) closed = closed ++ (fd ∷ [])

-- `empty` says whether the write queue is empty, `written` whether writev takes all that the write
-- thread gives it, which that asserts. A write thread that runs takes the buffers of the queue; it is
-- woken, so it is joined. Without one, nobody empties the queue.
unfoldable pub trace_destroy : Bool → Bool → Tracing → Run Tracing
trace_destroy empty written tr = elim tr.trinf [
  | none ↦ done tr
  | some trinf ↦
      (let destroyed : Tracing = record { trinf = none; closed = close_fd trinf.fd tr.closed } in
        if empty
        then done destroyed
        else if trinf.write_thr
        then (if written then done destroyed else bug)
        else hang)
]

-- What a descriptor that open returned leaves in the list of closed ones.
abbrev pub ClosedOnce : Option ℕ → List ℕ → Type 0
ClosedOnce none closed = closed ≡ []
ClosedOnce (some fd) closed = closed ≡ fd ∷ []

-- After an initialisation, a setup and a destruction with an empty queue the descriptor is closed
-- exactly once, whether the write thread could be started or not.
setup-destroy-closed :
    (opened : Option ℕ) (started : Ret) (written : Bool)
    → Returns
        (trace_destroy true written
          (trace_setup opened started (trace_init true (record { trinf = none; closed = [] })).1).1)
        (λ tr. ClosedOnce opened tr.closed)
unfolding trace_init trace_setup trace_destroy
setup-destroy-closed none started written = refl
setup-destroy-closed (some fd) (err e) written = refl
setup-destroy-closed (some fd) (ok n) written = refl
