-- ===== src/Msg/Wire.antt =====
-- The message header of shared/format-msg.h, its check and the error codes of shared/msg.c.
use ngnfs_progs.Prelude.{ℕ, ◌<◌, ◌≡◌, ltb, leb, ◌==◌, ◌&&◌, ◌||◌, if◌then◌else◌, arith}
use ngnfs_progs.Prelude.Errno.{Ret, ok, err, einval, enomem, eio, eproto, abs, errno_number}

-- Message types.
abbrev pub get_block : ℕ
get_block = 0

abbrev pub get_block_result : ℕ
get_block_result = 1

abbrev pub write_block : ℕ
write_block = 2

abbrev pub write_block_result : ℕ
write_block_result = 3

abbrev pub msg_nr : ℕ
msg_nr = 4

-- Errors on the wire.
abbrev pub err_ok : ℕ
err_ok = 0

abbrev pub err_unknown : ℕ
err_unknown = 1

abbrev pub err_eio : ℕ
err_eio = 2

abbrev pub err_enomem : ℕ
err_enomem = 3

abbrev pub err_invalid : ℕ
err_invalid = 4

abbrev pub max_ctl_size : ℕ
max_ctl_size = 255

abbrev pub max_data_size : ℕ
max_data_size = 4096

pub record MsgHeader : Type 0 where
  pub crc : ℕ
  pub data_size : ℕ
  pub ctl_size : ℕ
  pub type : ℕ

unfoldable pub ngnfs_msg_verify_header : MsgHeader → Ret
ngnfs_msg_verify_header hdr =
    if (hdr.ctl_size == 0 && hdr.data_size == 0)
      || ltb max_ctl_size hdr.ctl_size
      || ltb max_data_size hdr.data_size
      || leb msg_nr hdr.type
    then err einval
    else ok 0

-- The switch is on the absolute value, so a positive errno counts as well.
unfoldable pub ngnfs_msg_err : Ret → ℕ
ngnfs_msg_err eno =
    if abs eno == 0
    then err_ok
    else if abs eno == errno_number eio
    then err_eio
    else if abs eno == errno_number enomem
    then err_enomem
    else err_unknown

unfoldable pub ngnfs_msg_errno : ℕ → Ret
ngnfs_msg_errno e =
    if e == err_ok
    then ok 0
    else if e == err_unknown
    then err eio
    else if leb err_invalid e
    then err eproto
    else if e == err_eio
    then err eio
    else err enomem

-- What is left of a result that went over the wire: success, ENOMEM, and EIO for all other
-- errors.
abbrev pub received : Ret → Ret
received (ok n) = if n == 0 then ok 0 else if n == errno_number enomem then err enomem else err eio
received (err enomem) = err enomem
received (err e) = err eio

-- The wire error that an error is passed on as, once it was received.
abbrev pub passed_on : ℕ → ℕ
passed_on e = if e == err_unknown then err_eio else if leb err_invalid e then err_unknown else e

-- A result that is sent as a wire error is received as itself if it is success, EIO or ENOMEM,
-- and as EIO if it is another error; positive error numbers are sent like negative ones. Only
-- known wire errors are sent. A wire error that is received and sent on is itself, but unknown
-- errors are sent on as EIO and invalid ones as unknown errors.
pub msg_errno-msg_err :
    (r : Ret) (e : ℕ)
    → (ngnfs_msg_errno (ngnfs_msg_err r) ≡ received r)
      × (ngnfs_msg_err r < err_invalid)
      × (ngnfs_msg_err (ngnfs_msg_errno e) ≡ passed_on e)
unfolding ngnfs_msg_errno ngnfs_msg_err
msg_errno-msg_err (ok n) e = ground arith
msg_errno-msg_err (err einval) e = ground arith
msg_errno-msg_err (err _) e = ground arith
