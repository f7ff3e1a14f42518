-- ===== src/Socket/Connect.antt =====
-- The starting of peers in shared/mtr-socket.c: connecting, accepting and listening. The functions
-- of the system are parameters: each is the error it fails with, if it does.
use ngnfs_progs.Prelude.{
  ℕ, zero, suc, ◌==◌, if◌then◌else◌, Bool, true, false, Option, none, some, List, [], ◌∷◌,
}
use ngnfs_progs.Prelude.Errno.{Ret, ok, err, Errno, enomem}
use ngnfs_progs.Prelude.Run.{Run, done, hang, ◌>>=◌}
use ngnfs_progs.Socket.Iovec.{SysRet, got, failed}
use ngnfs_progs.Socket.Threads.{
  SocketPeer, thread_start, shutdown_peer, socket_init_peer, Ends, socket_destroy_peer, zeroed,
}

-- What socket(2) returns, and the errors of the others.
pub record Sys : Type 0 where
  pub socket : SysRet
  pub connect : Option Errno
  pub setsockopt : Option Errno
  pub bind : Option Errno
  pub listen : Option Errno
  pub create_connect : Option Errno
  pub create_listen : Option Errno
  pub create_send : Option Errno
  pub create_recv : Option Errno

-- A `ret` of 0, or -errno.
abbrev pub sys_ret : Option Errno → Ret
sys_ret none = ok 0
sys_ret (some e) = err e

abbrev pub set_connected_options : Sys → Ret
set_connected_options sys = sys_ret sys.setsockopt

module _ (sys : Sys) where
  unfoldable pub start_send_recv : SocketPeer → Ret × SocketPeer
  start_send_recv pinf =
      let (ret, thr) = thread_start sys.create_send pinf.send_thr in
      let p = record pinf { send_thr = thr } in
      elim ret [
        | err e ↦ (err e, p)
        | ok n ↦
            (let (ret2, thr2) = thread_start sys.create_recv p.recv_thr in
              (ret2, record p { recv_thr = thr2 }))
      ]

  -- `if (ret < 0) shutdown_peer(pinf, ret)`
  abbrev pub shutdown_failed : Ret × SocketPeer → SocketPeer
  shutdown_failed (ok n, p) = p
  shutdown_failed (err e, p) = shutdown_peer p (err e)

  -- The peer, and the file descriptors that were closed. Where connect fails, `ret` is -(-1).
  unfoldable pub socket_connect_thread : SocketPeer → SocketPeer × List ℕ
  socket_connect_thread pinf = elim sys.socket [
    | failed e ↦ (shutdown_failed (err e, pinf), [])
    | got fd ↦ elim sys.connect [
      | some e ↦ (shutdown_failed (ok 1, pinf), fd ∷ [])
      | none ↦ elim (set_connected_options sys) [
        | err e ↦ (shutdown_failed (err e, pinf), fd ∷ [])
        | ok n ↦ (shutdown_failed (start_send_recv (record pinf { fd = some fd })), [])
      ]
    ]
  ]

  -- The function returns 0 whatever `ret` is.
  unfoldable pub socket_start : SocketPeer → ℕ → Option ℕ → Ret × SocketPeer
  socket_start pinf addr accepted =
      let p = record pinf { addr = addr } in
      elim accepted [
        | some fd ↦ (ok 0, shutdown_failed (start_send_recv (record p { fd = some fd })))
        | none ↦
            (let (ret, thr) = thread_start sys.create_connect p.connect_thr in
              (ok 0, shutdown_failed (ret, record p { connect_thr = thr })))
      ]

-- What socket_start_listen returns.
pub data ListenRet : Type 0 where
  listening : SocketPeer → ListenRet
  err_ptr : Errno → ListenRet

module _ (ends : Ends) where
  -- The label `out` with an error.
  abbrev pub out_failed : SocketPeer → Errno → Run (ListenRet × List ℕ)
  out_failed pinf e = socket_destroy_peer ends pinf >>= λ r. done (err_ptr e, r.1)

  -- `memory` says whether calloc has memory.
  unfoldable pub socket_start_listen : Sys → Bool → Run (ListenRet × List ℕ)
  socket_start_listen sys false = done (err_ptr enomem, [])
  socket_start_listen sys true =
      let pinf = socket_init_peer zeroed in
      elim sys.socket [
        | failed e ↦ out_failed pinf e
        | got fd ↦
            (let p : SocketPeer = record pinf { fd = some fd } in
              elim sys.setsockopt [
                | some e ↦ out_failed p e
                | none ↦ elim sys.bind [
                  | some e ↦ out_failed p e
                  | none ↦ elim sys.listen [
                    | some e ↦ out_failed p e
                    | none ↦
                        (let (ret, thr) = thread_start sys.create_listen p.listen_thr in
                          let q : SocketPeer = record p { listen_thr = thr } in
                          elim ret [ ok n ↦ done (listening q, []) | err e ↦ out_failed q e ])
                  ]
                ]
              ])
      ]

  -- An error pointer and NULL are `none`. The descriptors that are closed.
  unfoldable pub socket_stop_listen : Option SocketPeer → Run (List ℕ)
  socket_stop_listen none = done []
  socket_stop_listen (some pinf) =
      socket_destroy_peer ends (shutdown_peer pinf (ok 0)) >>= λ r. done r.1

-- What a round of the listen thread meets: whether it should return at the round's start and after
-- a `break`, what accept(2) returns and whether its address is one of IPv4, the options' error, and
-- what ngnfs_msg_accept returns.
pub record AcceptEnv : Type 0 where
  pub stop : Bool
  pub stop_late : Bool
  pub accept : SysRet
  pub is_inet : Bool
  pub options : Ret
  pub msg_accept : ℕ → Ret

-- The listen thread returns or exits the process; with the descriptors that it closed, in order,
-- and those that it passed on.
pub record Accepted : Type 0 where
  pub exited : Bool
  pub closed : List ℕ
  pub passed : List ℕ

abbrev pub break_ : Bool → List ℕ → List ℕ → Run Accepted
break_ true closed passed = done (record { exited = false; closed = closed; passed = passed })
break_ false closed passed = done (record { exited = true; closed = closed; passed = passed })

-- ngnfs_msg_accept is called where the options were set.
abbrev pub accept_ret : AcceptEnv → ℕ → Ret
accept_ret env fd = elim env.options [
  | err e ↦ err e
  | ok n ↦ if n == 0 then env.msg_accept fd else ok n
]

-- The fuel bounds the rounds.
unfoldable pub socket_listen_thread : ℕ → (ℕ → AcceptEnv) → List ℕ → List ℕ → Run Accepted
socket_listen_thread zero envs closed passed = hang
socket_listen_thread (suc fuel) envs closed passed =
    let env = envs fuel in
    elim env.stop [
      | true ↦ break_ true closed passed
      | false ↦ elim env.accept [
        | failed e ↦ break_ env.stop_late closed passed
        | got fd ↦ elim env.is_inet [
          | false ↦ break_ env.stop_late closed passed
          | true ↦ elim (accept_ret env fd) [
            | err e ↦ socket_listen_thread fuel envs (fd ∷ closed) passed
            | ok n ↦ socket_listen_thread fuel envs closed (fd ∷ passed)
          ]
        ]
      ]
    ]
