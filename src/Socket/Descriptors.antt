-- ===== src/Socket/Descriptors.antt =====
-- The file descriptors that shared/mtr-socket.c opens, and a connection that fails.
use ngnfs_progs.Prelude.{
  ℕ, ◌⊎◌, ◌≡◌, Option, none, some, List, [], ◌∷◌, ◌++◌, refl, sym, subst, inl, inr, Bool, true,
  false, not, ◌&&◌, ◌||◌, if◌then◌else◌,
}
use ngnfs_progs.Prelude.Errno.{Ret, ok, Errno}
use ngnfs_progs.Prelude.Memory.{Mem}
use ngnfs_progs.Prelude.Run.{Run, done, hang, ◌>>=◌, Returns}
use ngnfs_progs.Protocol.Desc.{MsgDesc}
use ngnfs_progs.Socket.Iovec.{SysRet, got, failed}
use ngnfs_progs.Socket.Threads.{
  Thread, SocketPeer, thread_stop_wait, thread_start, shutdown_peer, socket_init_peer, Ends, zeroed,
  close_fd, socket_destroy_peer,
}
use ngnfs_progs.Socket.Connect.{
  Sys, start_send_recv, socket_connect_thread, ListenRet, listening, err_ptr, socket_start_listen,
  socket_stop_listen,
}
use ngnfs_progs.Socket.Peer.{socket_send, header_bytes}
use ngnfs_progs.Socket.Message.{IsMessage, body_bytes}
use ngnfs_progs.Socket.Send.{page_bytes-lem}

abbrev pub opened : SysRet → Option ℕ
opened (got fd) = some fd
opened (failed e) = none

-- The descriptors that are closed by the end of the listening, which is stopped if it was started.
abbrev pub closed_in_the_end : Ends → ListenRet × List ℕ → Run (List ℕ)
closed_in_the_end ends (listening p, closed) =
    socket_stop_listen ends (some p) >>= λ more. done (closed ++ more)
closed_in_the_end ends (err_ptr e, closed) =
    socket_stop_listen ends none >>= λ more. done (closed ++ more)

pub SysRet-cases : (r : SysRet) → ((fd : ℕ) × (r ≡ got fd)) ⊎ ((e : Errno) × (r ≡ failed e))
SysRet-cases (got fd) = inl (fd, refl)
SysRet-cases (failed e) = inr (e, refl)

start_listen-cases :
    (ends : Ends) (sys : Sys) (socket : SysRet) (setsockopt bind listen create : Option Errno)
    → (socket_start_listen ends
          (record sys {
            socket = socket;
            setsockopt = setsockopt;
            bind = bind;
            listen = listen;
            create_listen = create;
          })
          true
        >>= closed_in_the_end ends)
      ≡ done (close_fd (opened socket))
unfolding socket_start_listen thread_start socket_destroy_peer socket_stop_listen thread_stop_wait
    shutdown_peer
start_listen-cases ends sys (failed e) o b l c = refl
start_listen-cases ends sys (got fd) (some e) b l c = refl
start_listen-cases ends sys (got fd) none (some e) l c = refl
start_listen-cases ends sys (got fd) none none (some e) c = refl
start_listen-cases ends sys (got fd) none none none (some e) = refl
start_listen-cases ends sys (got fd) none none none none = refl

-- Where the memory for the peer is there: the descriptor that socket_start_listen opens, and no
-- other, is closed once, by itself where it fails and by socket_stop_listen where it does not, which
-- both end; none is closed where none was opened.
pub start_listen-closed :
    (ends : Ends) (sys : Sys)
    → (socket_start_listen ends sys true >>= closed_in_the_end ends)
      ≡ done (close_fd (opened sys.socket))
start_listen-closed ends sys =
    start_listen-cases ends sys sys.socket sys.setsockopt sys.bind sys.listen sys.create_listen

-- A peer whose connect thread was started: it has no descriptor and no other threads.
abbrev pub connecting : ℕ → List (List ℕ) → Thread → SocketPeer
connecting addr send_q thr = record (socket_init_peer zeroed) {
  addr = addr;
  send_q = send_q;
  connect_thr = thr;
}

abbrev pub is_none : {A : Type 0} → Option A → Bool
is_none none = true
is_none (some a) = false

abbrev pub is_got : SysRet → Bool
is_got (got fd) = true
is_got (failed e) = false

-- Whether all threads that the connect thread has started end.
abbrev pub are_joined : Sys → Ends → Bool
are_joined sys ends =
    not (is_got sys.socket && (is_none sys.connect && is_none sys.setsockopt))
    || (not (is_none sys.create_send)
        || (ends.send && (not (is_none sys.create_recv) || ends.recv)))

connect_thread-cases :
    (listen send recv : Bool) (addr : ℕ) (send_q : List (List ℕ)) (created should_return : Bool)
    (sys : Sys) (socket : SysRet) (connect setsockopt create_send create_recv : Option Errno)
    → (let ends : Ends = record { listen = listen; send = send; recv = recv } in
        let sys2 : Sys = record sys {
          socket = socket;
          connect = connect;
          setsockopt = setsockopt;
          create_send = create_send;
          create_recv = create_recv;
        } in
        let (q, closed) =
          socket_connect_thread sys2 (
            connecting addr send_q (record { created = created; should_return = should_return })) in
        (socket_destroy_peer ends q >>= λ r. done (closed ++ r.1))
        ≡ (if are_joined sys2 ends then done (close_fd (opened socket)) else hang))
unfolding socket_connect_thread socket_destroy_peer thread_stop_wait shutdown_peer start_send_recv
    thread_start
connect_thread-cases li se re a q true sr sys (failed e) c o cs crv = refl
connect_thread-cases li se re a q true sr sys (got fd) (some e) o cs crv = refl
connect_thread-cases li se re a q true sr sys (got fd) none (some e) cs crv = refl
connect_thread-cases li se re a q true sr sys (got fd) none none (some e) crv = refl
connect_thread-cases li true re a q true sr sys (got fd) none none none (some e) = refl
connect_thread-cases li true true a q true sr sys (got fd) none none none none = refl
connect_thread-cases li true false a q true sr sys (got fd) none none none none = refl
connect_thread-cases li false re a q true sr sys (got fd) none none none (some e) = refl
connect_thread-cases li false true a q true sr sys (got fd) none none none none = refl
connect_thread-cases li false false a q true sr sys (got fd) none none none none = refl
connect_thread-cases li se re a q false sr sys (failed e) c o cs crv = refl
connect_thread-cases li se re a q false sr sys (got fd) (some e) o cs crv = refl
connect_thread-cases li se re a q false sr sys (got fd) none (some e) cs crv = refl
connect_thread-cases li se re a q false sr sys (got fd) none none (some e) crv = refl
connect_thread-cases li true re a q false sr sys (got fd) none none none (some e) = refl
connect_thread-cases li true true a q false sr sys (got fd) none none none none = refl
connect_thread-cases li true false a q false sr sys (got fd) none none none none = refl
connect_thread-cases li false re a q false sr sys (got fd) none none none (some e) = refl
connect_thread-cases li false true a q false sr sys (got fd) none none none none = refl
connect_thread-cases li false false a q false sr sys (got fd) none none none none = refl

-- For a peer whose connect thread was started: the descriptor that it opens, and no other, is closed
-- once, by itself or when the peer is destroyed, if the send and receive threads that it has started
-- end after their bits are set. If one of them does not end, as nothing shuts the peer down or wakes
-- the send thread, the destruction never closes it.
pub connect_thread-closed :
    (ends : Ends) (sys : Sys) (addr : ℕ) (send_q : List (List ℕ)) (thr : Thread)
    → (let (q, closed) = socket_connect_thread sys (connecting addr send_q thr) in
        socket_destroy_peer ends q >>= λ r. done (closed ++ r.1))
      ≡ (if are_joined sys ends then done (close_fd (opened sys.socket)) else hang)
connect_thread-closed ends sys addr send_q thr =
    connect_thread-cases ends.listen ends.send ends.recv addr send_q thr.created thr.should_return
      sys sys.socket sys.connect sys.setsockopt sys.create_send sys.create_recv

-- A connection that is refused is not noticed: where connect fails, the connect thread closes the
-- descriptor and leaves a peer without an error as it was, and a message that is sent to it then is
-- queued, framed, behind what the queue had, and socket_send returns 0, where the memory is there.
pub connect-unnoticed :
    (sys : Sys) (fd : ℕ) (e : Errno) (p : SocketPeer) (memory : Mem) (d : MsgDesc Mem)
    → sys.socket ≡ got fd
    → sys.connect ≡ some e
    → p.error ≡ none
    → IsMessage d
    → (socket_connect_thread sys p ≡ (p, fd ∷ []))
      × Returns (socket_send (some memory) d (socket_connect_thread sys p).0) (λ r.
        (r.0 ≡ ok 0) × (r.1.send_q ≡ p.send_q ++ ((header_bytes memory d ++ body_bytes d) ∷ [])))
unfolding socket_connect_thread socket_send
connect-unnoticed sys fd e p memory d q c none_ w =
    let run : socket_connect_thread sys p ≡ (p, fd ∷ []) = rw (q, c, socket_connect_thread) refl in
    let Queued : Ret × SocketPeer → Type 0 = λ r.
      (r.0 ≡ ok 0) × (r.1.send_q ≡ p.send_q ++ ((header_bytes memory d ++ body_bytes d) ∷ [])) in
    let queued : Returns (socket_send (some memory) d p) Queued =
      rw (none_, page_bytes-lem d w, socket_send) (refl, refl) in
    (run, subst (λ x. Returns (socket_send (some memory) d x.0) Queued) (sym run) queued)
