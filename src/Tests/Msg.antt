-- ===== src/Tests/Msg.antt =====
-- shared/msg.c: a table with one peer and one handler, and the results at it.
use ngnfs_progs.Prelude.Run.{Returns}
use ngnfs_progs.Prelude.{
  ℕ, [], ◌∷◌, ◌==◌, ◌<◌, ◌≡◌, if◌then◌else◌, refl, none, some, true, false, arith,
}
use ngnfs_progs.Prelude.Errno.{Ret, ok, err, enoent, eexist}
use ngnfs_progs.Msg.Wire.{
  ngnfs_msg_err, ngnfs_msg_errno, received, passed_on, err_invalid, err_enomem, write_block,
  msg_errno-msg_err,
}
use ngnfs_progs.Msg.Handlers.{RecvFns, ngnfs_msg_register_recv, Registers, register_recv-Registers}
use ngnfs_progs.Msg.Peers.{MsgInfo, Env, ngnfs_msg_send, ngnfs_msg_accept}
use ngnfs_progs.Msg.Setup.{
  MsgTransportOps, MsgEnv, ngnfs_msg_setup, ngnfs_msg_destroy, nothing_held, LeaksOnly,
  setup-destroy-LeaksOnly,
}
use ngnfs_progs.Msg.References.{IsHeld, msg_send-IsHeld, accept-existing}

msg_errno-msg_err_example :
    (ngnfs_msg_errno (ngnfs_msg_err (err enoent)) ≡ received (err enoent))
    × (ngnfs_msg_err (err enoent) < err_invalid)
    × (ngnfs_msg_err (ngnfs_msg_errno err_enomem) ≡ passed_on err_enomem)
msg_errno-msg_err_example = msg_errno-msg_err (err enoent) err_enomem

-- No handler is registered.
abbrev no_fns : RecvFns
no_fns t = none

abbrev call : ℕ → ℕ → Ret
call f d = ok 0

abbrev type_of : ℕ → ℕ
type_of d = d

register_recv-Registers_example :
    Registers call type_of no_fns write_block 5 (ngnfs_msg_register_recv no_fns write_block 5)
register_recv-Registers_example = register_recv-Registers call type_of no_fns write_block 5

abbrev localhost : ℕ
localhost = 2130706433

abbrev connected : MsgInfo
connected = record {
  ht = λ a. if a == localhost then some 0 else none;
  peers = λ p. record { addr = localhost; refcount = 1; destroyed = false };
  next = 1;
}

-- Nothing happens in between, and the transport starts every peer.
abbrev quiet : Env
quiet = record { others = λ s. s; memory = true; start = λ p a accepted. ok 0 }

connected-IsHeld : IsHeld connected
connected-IsHeld addr p e = ground arith

msg_send-IsHeld_example : IsHeld (ngnfs_msg_send quiet (λ p. ok 0) connected 7).1
msg_send-IsHeld_example =
    msg_send-IsHeld quiet (λ p. ok 0) connected 7 connected-IsHeld connected-IsHeld

accept-existing_example :
    let (r, s) = ngnfs_msg_accept quiet connected localhost true in
    (r ≡ err eexist) × (s.ht localhost ≡ some 0) × ((s.peers 0).destroyed ≡ true)
accept-existing_example = accept-existing quiet connected localhost 0 refl refl

-- ngnfs_mtr_socket_ops of shared/mtr-socket.c has none of these functions.
abbrev socket_ops : MsgTransportOps
socket_ops = record {
  has_setup = false;
  has_shutdown = false;
  has_destroy = false;
  setup = none;
  start_listen = none;
}

abbrev roomy : MsgEnv
roomy = record { memory = true; ht_init = none }

setup-destroy-LeaksOnly_example :
    Returns
      (ngnfs_msg_destroy socket_ops
        (ngnfs_msg_setup socket_ops roomy true nothing_held).1
        (0 ∷ [])
        connected)
      (LeaksOnly socket_ops roomy (0 ∷ []) connected)
setup-destroy-LeaksOnly_example =
    setup-destroy-LeaksOnly socket_ops roomy true (0 ∷ []) connected (refl, tt, tt)
