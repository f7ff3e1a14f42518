-- ===== src/Tests/Connect.antt =====
-- shared/mtr-socket.c: a listening peer whose thread cannot be created, and a refused connection.
use ngnfs_progs.Prelude.{
  ◌≡◌, if◌then◌else◌, false, true, none, some, [], ◌∷◌, ◌++◌, refl, arith, inr,
}
use ngnfs_progs.Prelude.Errno.{ok, eio, enomem}
use ngnfs_progs.Prelude.Memory.{Mem}
use ngnfs_progs.Prelude.Run.{done, hang, ◌>>=◌, Returns}
use ngnfs_progs.Protocol.Desc.{MsgDesc}
use ngnfs_progs.Socket.Iovec.{got}
use ngnfs_progs.Socket.Threads.{SocketPeer, thread_init, Ends, socket_destroy_peer, close_fd}
use ngnfs_progs.Socket.Connect.{Sys, socket_start_listen, socket_connect_thread}
use ngnfs_progs.Socket.Peer.{socket_send, header_bytes}
use ngnfs_progs.Socket.Message.{IsMessage, body_bytes}
use ngnfs_progs.Socket.Descriptors.{
  opened, closed_in_the_end, connecting, are_joined, start_listen-closed, connect_thread-closed,
  connect-unnoticed,
}

abbrev memory : SocketPeer
memory = record {
  addr = 0;
  send_q = [];
  connect_thr = thread_init;
  listen_thr = thread_init;
  send_thr = thread_init;
  recv_thr = thread_init;
  fd = none;
  error = none;
  shutdown = false;
  disconnected = false;
}

-- No connection can be made and no thread for listening.
abbrev refused : Sys
refused = record {
  socket = got 5;
  connect = some eio;
  setsockopt = none;
  bind = none;
  listen = none;
  create_connect = none;
  create_listen = some enomem;
  create_send = none;
  create_recv = none;
}

-- No thread ends by itself.
abbrev asleep : Ends
asleep = record { listen = false; send = false; recv = false }

start_listen-closed_example :
    (socket_start_listen asleep refused true >>= closed_in_the_end asleep)
    ≡ done (close_fd (opened refused.socket))
start_listen-closed_example = start_listen-closed asleep refused

abbrev connected : Sys
connected = record refused { connect = none }

connect_thread-closed_example :
    (let (q, closed) = socket_connect_thread connected (connecting 7 [] thread_init) in
      socket_destroy_peer asleep q >>= λ r. done (closed ++ r.1))
    ≡ (if are_joined connected asleep then done (close_fd (opened connected.socket)) else hang)
connect_thread-closed_example = connect_thread-closed asleep connected 7 [] thread_init

-- The destruction of a connected peer never ends.
not_joined : are_joined connected asleep ≡ false
not_joined = refl

abbrev message : MsgDesc Mem
message = record {
  addr = 1;
  ctl_buf = λ i. i;
  data_page = some (λ i. i);
  data_size = 2;
  ctl_size = 8;
  type = 2;
}

message-IsMessage : IsMessage message
message-IsMessage = record {
  ctl_bound = omega arith;
  data_bound = omega arith;
  some_bytes = omega arith;
  known = omega arith;
  paged = inr (λ i. i, refl);
}

connect-unnoticed_example :
    (socket_connect_thread refused memory ≡ (memory, 5 ∷ []))
    × Returns (socket_send (some (λ i. 0)) message (socket_connect_thread refused memory).0) (λ r.
      (r.0 ≡ ok 0) × (r.1.send_q ≡ (header_bytes (λ i. 0) message ++ body_bytes message) ∷ []))
connect-unnoticed_example =
    connect-unnoticed refused 5 eio memory (λ i. 0) message refl refl refl message-IsMessage
