-- ===== src/Socket/Threads.antt =====
-- The flags of the threads of shared/thread.c, and the peers of shared/mtr-socket.c that own them.
use ngnfs_progs.Prelude.{
  ℕ, Bool, true, false, ◌||◌, if◌then◌else◌, Option, none, some, List, [], ◌∷◌, ◌≡◌, refl, inl, inr,
  Bool-cases,
}
use ngnfs_progs.Prelude.Run.{Run, done, hang, ◌>>=◌}
use ngnfs_progs.Prelude.Errno.{Ret, ok, err, Errno}

-- The bits of struct thread.
pub record Thread : Type 0 where
  pub created : Bool
  pub should_return : Bool

abbrev pub thread_init : Thread
thread_init = record { created = false; should_return = false }

-- `create` is the error that pthread_create returns, if it does.
unfoldable pub thread_start : Option Errno → Thread → Ret × Thread
thread_start none thr = (ok 0, record thr { created = true })
thread_start (some e) thr = (err e, thr)

abbrev pub thread_stop_indicate : Thread → Thread
thread_stop_indicate thr = record thr { should_return = true }

-- The join waits until the thread's function has returned. Setting the bit wakes nobody: `ends` says
-- whether the function returns once the bit is set.
unfoldable pub thread_stop_wait : Bool → Thread → Run Thread
thread_stop_wait ends thr = elim thr.created [
  | true ↦ if ends then done (thread_stop_indicate thr) else hang
  | false ↦ done thr
]

-- struct socket_peer_info: the queue holds the bytes of the packets. An `error` of 0 and an `fd`
-- of -1 are `none`. `disconnected` says that shutdown(2) was called on the socket.
pub record SocketPeer : Type 0 where
  pub addr : ℕ
  pub send_q : List (List ℕ)
  pub connect_thr : Thread
  pub listen_thr : Thread
  pub send_thr : Thread
  pub recv_thr : Thread
  pub fd : Option ℕ
  pub error : Option Errno
  pub shutdown : Bool
  pub disconnected : Bool

abbrev pub first_err : Ret → Option Errno → Option Errno
first_err (ok n) e = e
first_err (err e) none = some e
first_err (err e) (some before) = some before

abbrev pub is_fd : Option ℕ → Bool
is_fd none = false
is_fd (some fd) = true

abbrev pub stop_threads : SocketPeer → SocketPeer
stop_threads pinf = record pinf {
  shutdown = true;
  connect_thr = thread_stop_indicate pinf.connect_thr;
  listen_thr = thread_stop_indicate pinf.listen_thr;
  send_thr = thread_stop_indicate pinf.send_thr;
  recv_thr = thread_stop_indicate pinf.recv_thr;
  disconnected = is_fd pinf.fd;
}

unfoldable pub shutdown_peer : SocketPeer → Ret → SocketPeer
shutdown_peer pinf ret =
    let p : SocketPeer = elim pinf.shutdown [ true ↦ pinf | false ↦ stop_threads pinf ] in
    record p { error = first_err ret p.error }

-- What was in the memory of the other fields is kept.
abbrev pub socket_init_peer : SocketPeer → SocketPeer
socket_init_peer info = record info {
  send_q = [];
  connect_thr = thread_init;
  listen_thr = thread_init;
  send_thr = thread_init;
  recv_thr = thread_init;
  fd = none;
}

-- The peer, and the file descriptors that were closed.
abbrev pub close_fd : Option ℕ → List ℕ
close_fd none = []
close_fd (some fd) = fd ∷ []

-- Whether the threads of a peer return after their bits are set without being woken: since they are
-- neither waiting nor in a system call, or since the remote host acts.
pub record Ends : Type 0 where
  pub listen : Bool
  pub send : Bool
  pub recv : Bool

-- The connect thread waits for nothing but connect(2). On a socket that was shut down accept and
-- readv return; nothing wakes the send thread.
unfoldable pub socket_destroy_peer : Ends → SocketPeer → Run (SocketPeer × List ℕ)
socket_destroy_peer ends info = do
  connect ← thread_stop_wait true info.connect_thr
  listen ← thread_stop_wait (info.disconnected || ends.listen) info.listen_thr
  send ← thread_stop_wait ends.send info.send_thr
  recv ← thread_stop_wait (info.disconnected || ends.recv) info.recv_thr
  done (
    record info { connect_thr = connect; listen_thr = listen; send_thr = send; recv_thr = recv },
    close_fd info.fd,
  )

-- What calloc returns for a peer.
abbrev pub zeroed : SocketPeer
zeroed = record {
  addr = 0;
  send_q = [];
  connect_thr = thread_init;
  listen_thr = thread_init;
  send_thr = thread_init;
  recv_thr = thread_init;
  fd = some 0;
  error = none;
  shutdown = false;
  disconnected = false;
}

pub shutdown_peer-error :
    (pinf : SocketPeer) (n : ℕ) → (shutdown_peer pinf (ok n)).error ≡ pinf.error
unfolding shutdown_peer
shutdown_peer-error pinf n = elim (Bool-cases pinf.shutdown) [
  | inl e ↦ rw e refl
  | inr e ↦ rw e refl
]
