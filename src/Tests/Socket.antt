-- ===== src/Tests/Socket.antt =====
-- shared/mtr-socket.c: a message over sockets that take one byte at a time.
use ngnfs_progs.Prelude.{
  ℕ, suc, ◌+◌, ◌-◌, ◌≤◌, ◌<◌, ◌≡◌, leb, true, false, none, some, List, [], ◌∷◌, ◌++◌, length, take,
  get_or, refl, arith, inr,
}
use ngnfs_progs.Prelude.Errno.{ok, eio}
use ngnfs_progs.Prelude.Memory.{Mem}
use ngnfs_progs.Prelude.Run.{◌>>=◌, Returns}
use ngnfs_progs.Protocol.Desc.{MsgDesc}
use ngnfs_progs.Socket.Iovec.{Place, Iovec, SysRet, got, failed, places}
use ngnfs_progs.Socket.Reads.{fill, Reads, Holds}
use ngnfs_progs.Socket.Threads.{SocketPeer, thread_init, shutdown_peer}
use ngnfs_progs.Socket.Peer.{RecvEnv, socket_recv_thread, socket_send_thread}
use ngnfs_progs.Socket.Receive.{IsRecvEnv}
use ngnfs_progs.Socket.Stream.{Packets, stream, AreMessages, ReceivesAll, recv_thread-ReceivesAll}
use ngnfs_progs.Socket.Send.{Writes, Always, concat, enqueue, one_wait, send_thread-stream}

-- The stream, the buffers and the received messages.
abbrev World : Type 0
World = List ℕ × (ℕ → Mem) × List (MsgDesc Mem)

abbrev input : World → List ℕ
input s = s.0

abbrev mem : World → ℕ → Mem
mem s = s.1

abbrev log : World → List (MsgDesc Mem)
log s = s.2

abbrev read_byte : List Place → World → SysRet × World
read_byte [] s = (got 0, s)
read_byte (p ∷ ps) ([], m, l) = (failed eio, ([], m, l))
read_byte (p ∷ ps) (b ∷ bs, m, l) = (got 1, (bs, fill (p ∷ []) (b ∷ []) m, l))

abbrev Steps : List Place → World → ℕ → Type 0
Steps ps s m =
    (n : ℕ) × ((read_byte ps s).0 ≡ got (suc n))
    × (suc n ≤ length ps)
    × Reads input mem log (take (suc n) ps) s (read_byte ps s).1
    × Holds input mem log (m - suc n) (read_byte ps s).1

read_byte-Steps :
    (ps : List Place) (s : World) (m : ℕ)
    → 0 < length ps
    → length ps ≤ m
    → Holds input mem log m s
    → Steps ps s m
read_byte-Steps [] s m h k a = absurd (omega (arith, h))
read_byte-Steps (p ∷ ps) ([], f, l) m h k a = absurd (omega (arith, k, a))
read_byte-Steps (p ∷ ps) (b ∷ bs, f, l) m h k a = (
  0,
  refl,
  omega arith,
  record { bytes = b ∷ []; count = refl; taken = refl; filled = refl; kept = refl },
  omega (arith, a),
)

abbrev receiver : RecvEnv World
receiver = record {
  readv = λ s iov. read_byte (places iov) s;
  mem = mem;
  page = λ s. true;
  recv = λ s d. (ok 0, (s.0, s.1, s.2 ++ (d ∷ [])));
  stop = λ s. leb 1 (length s.2);
}

receiver-IsRecvEnv : IsRecvEnv receiver input log
receiver-IsRecvEnv = record {
  reads = record { step = λ s iov m. read_byte-Steps (places iov) s m };
  pages = λ s. refl;
  logged = λ s d. refl;
  no_error = λ s d. refl;
  input_kept = λ s d. refl;
}

-- A message with 8 bytes of control structure and 2 of data.
abbrev message : MsgDesc Mem
message = record {
  addr = 1;
  ctl_buf = λ i. i + 40;
  data_page = some (λ i. i + 90);
  data_size = 2;
  ctl_size = 8;
  type = 2;
}

abbrev packets : Packets
packets = (λ i. 0, message) ∷ []

packets-AreMessages : AreMessages packets
packets-AreMessages = (
  record {
    ctl_bound = omega arith;
    data_bound = omega arith;
    some_bytes = omega arith;
    known = omega arith;
    paged = inr (λ i. i + 90, refl);
  },
  tt,
)

abbrev peer : SocketPeer
peer = record {
  addr = 1;
  send_q = [];
  connect_thr = thread_init;
  listen_thr = thread_init;
  send_thr = thread_init;
  recv_thr = thread_init;
  fd = some 3;
  error = none;
  shutdown = false;
  disconnected = false;
}

abbrev arrived : World
arrived = (stream packets ++ (7 ∷ []), λ i j. 0, [])

recv_thread-ReceivesAll_example :
    Returns
      (socket_recv_thread receiver 1 1 true peer arrived)
      (λ r. (r.0 ≡ shutdown_peer peer (ok 0)) × ReceivesAll input log packets (7 ∷ []) arrived r.1)
recv_thread-ReceivesAll_example =
    recv_thread-ReceivesAll receiver 1 input log receiver-IsRecvEnv 1 (λ s. refl) packets (7 ∷ [])
      peer arrived packets-AreMessages refl refl

abbrev write_byte : List ℕ → List Place → List ℕ → SysRet × List ℕ
write_byte p [] s = (got 0, s)
write_byte p (x ∷ xs) s = (got 1, s ++ (get_or p x.1 0 ∷ []))

abbrev writev : List ℕ → List ℕ → List Iovec → SysRet × List ℕ
writev p s iov = write_byte p (places iov) s

abbrev output : List ℕ → List ℕ
output s = s

write_byte-step :
    (p : List ℕ) (ps : List Place) (s : List ℕ) (m : ℕ)
    → 0 < length ps
    → (n : ℕ) × ((write_byte p ps s).0 ≡ got (suc n))
      × (suc n ≤ length ps)
      × Writes output p (take (suc n) ps) s (write_byte p ps s).1
      × Always (m - suc n) (write_byte p ps s).1
write_byte-step p [] s m h = absurd (omega (arith, h))
write_byte-step p (x ∷ xs) s m h = (0, refl, omega arith, refl, tt)

send_thread-stream_example :
    Returns
      (enqueue packets peer >>= λ q. socket_send_thread writev 2 one_wait q [])
      (λ r. (r.0.error ≡ none) × (r.1 ≡ [] ++ (concat [] ++ stream packets)))
send_thread-stream_example =
    send_thread-stream writev output
      (λ p. record { step = λ s iov m h k a. write_byte-step p (places iov) s m h }) packets peer []
      packets-AreMessages refl
