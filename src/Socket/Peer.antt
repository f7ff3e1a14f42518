-- ===== src/Socket/Peer.antt =====
-- The peers and threads of shared/mtr-socket.c: the framing of messages, the send thread and the
-- receive thread. The functions of the system are parameters.
use ngnfs_progs.Prelude.{
  ℕ, zero, suc, ◌+◌, ◌/◌, ◌%◌, ◌==◌, ◌&&◌, not, if◌then◌else◌, Bool, true, false, Option, none,
  some, List, [], ◌∷◌, ◌++◌, length,
}
use ngnfs_progs.Prelude.Errno.{Ret, ok, err, enomem}
use ngnfs_progs.Prelude.Memory.{Mem, load16, read_bytes}
use ngnfs_progs.Prelude.Run.{Run, done, bug, hang, ◌>>=◌}
use ngnfs_progs.Msg.Wire.{MsgHeader, ngnfs_msg_verify_header}
use ngnfs_progs.Protocol.Desc.{MsgDesc, load_le}
use ngnfs_progs.Socket.Threads.{SocketPeer, shutdown_peer}
use ngnfs_progs.Socket.Iovec.{Iovec, SysRet, whole_iovec, iov_append}

-- sizeof(struct ngnfs_msg_header)
abbrev pub msg_header_size : ℕ
msg_header_size = 8

-- The header, whose crc is what the memory held.
abbrev pub header_bytes : Mem → MsgDesc Mem → List ℕ
header_bytes memory mdesc =
    memory 0
    ∷ memory 1
    ∷ memory 2
    ∷ memory 3
    ∷ mdesc.data_size % 256
    ∷ mdesc.data_size / 256 % 256
    ∷ mdesc.ctl_size
    ∷ mdesc.type
    ∷ []

-- memcpy from the page; a null page traps where there are bytes to copy.
abbrev pub page_bytes : Option Mem → ℕ → Run (List ℕ)
page_bytes none zero = done []
page_bytes none (suc n) = bug
page_bytes (some page) n = done (read_bytes page 0 n)

-- `memory` is what malloc returns.
unfoldable pub socket_send : Option Mem → MsgDesc Mem → SocketPeer → Run (Ret × SocketPeer)
socket_send memory mdesc pinf = elim pinf.error [
  | some e ↦ done (err e, pinf)
  | none ↦ elim memory [
    | none ↦ done (err enomem, pinf)
    | some m ↦ do
      bytes ← page_bytes mdesc.data_page mdesc.data_size
      let packet = header_bytes m mdesc ++ (read_bytes mdesc.ctl_buf 0 mdesc.ctl_size ++ bytes)
      done (ok 0, record pinf { send_q = pinf.send_q ++ (packet ∷ []) })
  ]
]

module _ {S : Type 0} (writev : List ℕ → S → List Iovec → SysRet × S) where
  -- The packets of one splice of the queue. The fuel of each is its length.
  unfoldable pub send_packets : List (List ℕ) → S → Run (Ret × S)
  send_packets [] s = done (ok 0, s)
  send_packets (p ∷ ps) s =
      whole_iovec (writev p) (length p) (iov_append [] 0 (length p)) s >>= λ r. elim r.0 [
        | err e ↦ done (err e, r.1)
        | ok n ↦ send_packets ps r.1
      ]

  -- `wait` is the peer after each wait, and whether the thread should return before it. The fuel
  -- bounds the rounds.
  unfoldable pub socket_send_thread :
      ℕ → (ℕ → SocketPeer → Bool × SocketPeer) → SocketPeer → S → Run (SocketPeer × S)
  socket_send_thread zero wait pinf s = hang
  socket_send_thread (suc fuel) wait pinf s =
      let (stop, p) = wait fuel pinf in
      elim stop [
        | true ↦ done (shutdown_peer p (ok 0), s)
        | false ↦ send_packets p.send_q s >>= λ r. elim r.0 [
          | err e ↦ done (shutdown_peer (record p { send_q = [] }) (err e), r.1)
          | ok n ↦ socket_send_thread fuel wait (record p { send_q = [] }) r.1
        ]
      ]

-- The buffers of the receive thread: its header, its page for the control structure and the page
-- that it allocates for the data of a message.
abbrev pub hdr_buf : ℕ
hdr_buf = 0

abbrev pub ctl_page : ℕ
ctl_page = 1

abbrev pub data_page : ℕ
data_page = 2

-- What the receive thread runs on: readv, the contents of its buffers, whether alloc_page succeeds,
-- ngnfs_msg_recv, and thread_should_return.
pub record RecvEnv (S : Type 0) : Type 0 where
  pub readv : S → List Iovec → SysRet × S
  pub mem : S → ℕ → Mem
  pub page : S → Bool
  pub recv : S → MsgDesc Mem → Ret × S
  pub stop : S → Bool

abbrev pub header_of : Mem → MsgHeader
header_of m = record { crc = load_le 4 m 0; data_size = load16 m 4; ctl_size = m 6; type = m 7 }

-- The vector for what follows the header.
abbrev pub body_iov : MsgHeader → List Iovec
body_iov hdr = iov_append (iov_append [] ctl_page hdr.ctl_size) data_page hdr.data_size

abbrev pub desc_of : ℕ → MsgHeader → (ℕ → Mem) → MsgDesc Mem
desc_of addr hdr mem = record {
  addr = addr;
  ctl_buf = mem ctl_page;
  data_page = if hdr.data_size == 0 then none else some (mem data_page);
  data_size = hdr.data_size;
  ctl_size = hdr.ctl_size;
  type = hdr.type;
}

module _ {S : Type 0} (env : RecvEnv S) (addr : ℕ) where
  -- A round from the read of what follows the header on.
  abbrev pub recv_body : MsgHeader → S → Run (Ret × S)
  recv_body hdr s = whole_iovec env.readv (hdr.ctl_size + hdr.data_size) (body_iov hdr) s >>= λ r.
      elim r.0 [
        | err e ↦ done (err e, r.1)
        | ok n ↦ done (env.recv r.1 (desc_of addr hdr (env.mem r.1)))
      ]

  abbrev pub recv_header : MsgHeader → S → Run (Ret × S)
  recv_header hdr s = elim (ngnfs_msg_verify_header hdr) [
    | err e ↦ done (err e, s)
    | ok n ↦
        if not (hdr.data_size == 0) && not (env.page s)
        then done (err enomem, s)
        else recv_body hdr s
  ]

  unfoldable pub recv_round : S → Run (Ret × S)
  recv_round s =
      whole_iovec env.readv msg_header_size (iov_append [] hdr_buf msg_header_size) s >>= λ r.
      elim r.0 [
        | err e ↦ done (err e, r.1)
        | ok n ↦ recv_header (header_of (env.mem r.1 hdr_buf)) r.1
      ]

  -- The loop; the fuel bounds the messages.
  unfoldable pub recv_loop : ℕ → Ret → S → Run (Ret × S)
  recv_loop zero ret s = if env.stop s then done (ret, s) else hang
  recv_loop (suc fuel) ret s = elim (env.stop s) [
    | true ↦ done (ret, s)
    | false ↦ recv_round s >>= λ r. elim r.0 [
      | err e ↦ done (err e, r.1)
      | ok n ↦ recv_loop fuel (ok n) r.1
    ]
  ]

  -- `ctl` says whether the control page was allocated.
  unfoldable pub socket_recv_thread : ℕ → Bool → SocketPeer → S → Run (SocketPeer × S)
  socket_recv_thread fuel false pinf s = done (shutdown_peer pinf (err enomem), s)
  socket_recv_thread fuel true pinf s =
      recv_loop fuel (ok 0) s >>= λ r. done (shutdown_peer pinf r.0, r.1)
