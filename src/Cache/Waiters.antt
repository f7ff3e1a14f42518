-- ===== src/Cache/Waiters.antt =====
-- The counter of sync waiters of shared/block.c, whose low bit latches an IO error. Each loop of
-- atomic_read and atomic_cmpxchg is one atomic step.
use ngnfs_progs.Prelude.{
  ℕ, ◌+◌, ◌-◌, ◌*◌, ◌%◌, ◌<◌, ◌≡◌, leb, ◌==◌, not, if◌then◌else◌, arith, Bool, true, false,
}
use ngnfs_progs.Prelude.Errno.{Ret, ok, err, eio}

abbrev sync_waiters_err : ℕ
sync_waiters_err = 1

abbrev sync_waiters_incr : ℕ
sync_waiters_incr = 2

unfoldable pub sync_waiters_inc : ℕ → ℕ
sync_waiters_inc w = w + sync_waiters_incr

-- old | SYNC_WAITERS_ERR, if there is a waiter.
unfoldable pub sync_waiters_set_error : ℕ → ℕ
sync_waiters_set_error old =
    if leb sync_waiters_incr old
    then (if old % 2 == 0 then old + sync_waiters_err else old)
    else old

unfoldable pub sync_waiters_has_error : ℕ → Bool
sync_waiters_has_error w = not (w % 2 == 0)

unfoldable pub sync_waiters_dec_error : ℕ → Ret × ℕ
sync_waiters_dec_error old =
    let ret = if old % 2 == 0 then ok 0 else err eio in
    let new = old - sync_waiters_incr in (ret, if new == sync_waiters_err then 0 else new)

-- The waiters as they are meant: how many there are, and whether an error is latched.
pub record Latch : Type 0 where
  pub waiters : ℕ
  pub failed : Bool

abbrev pub encode : Latch → ℕ
encode l = 2 * l.waiters + (if l.failed then 1 else 0)

-- An error is latched only while somebody waits.
abbrev pub IsLatch : Latch → Type 0
IsLatch l = l.failed ≡ true → 0 < l.waiters

pub data Event : Type 0 where
  enter fail leave : Event

-- What each event should do: a waiter that leaves takes the error away if it is the last.
abbrev pub step : Latch → Event → Latch
step l enter = record l { waiters = l.waiters + 1 }
step l fail = record l { failed = if l.waiters == 0 then false else true }
step l leave = record l {
  waiters = l.waiters - 1;
  failed = if l.waiters == 1 then false else l.failed;
}

-- The same event on the counter.
abbrev pub step_counter : ℕ → Event → ℕ
step_counter w enter = sync_waiters_inc w
step_counter w fail = sync_waiters_set_error w
step_counter w leave = (sync_waiters_dec_error w).1

-- Nobody leaves who did not enter.
abbrev pub IsAllowed : Latch → Event → Type 0
IsAllowed l enter = Unit {0}
IsAllowed l fail = Unit {0}
IsAllowed l leave = 0 < l.waiters

-- The counter implements the latch: an event takes the encoding of a latch to the encoding of what
-- the latch should become, a waiter is told of an error exactly when one is latched, and the latch
-- stays clear while nobody waits.
pub step_counter-encode :
    (l : Latch) (e : Event)
    → IsLatch l
    → IsAllowed l e
    → (step_counter (encode l) e ≡ encode (step l e))
      × IsLatch (step l e)
      × (sync_waiters_has_error (encode l) ≡ l.failed)
      × ((sync_waiters_dec_error (encode l)).0 ≡ (if l.failed then err eio else ok 0))
unfolding sync_waiters_inc sync_waiters_set_error sync_waiters_has_error sync_waiters_dec_error
step_counter-encode l enter h a = ground arith
step_counter-encode l fail h a = ground arith
step_counter-encode l leave h a = ground arith
