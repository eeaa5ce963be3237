-- ===== src/Calls/Machine.antt =====
-- service/src/calls/stateMachine.ts.
pub mod Edges
pub mod Runs
mod Tests
use k3ncrypt.Base.{
  ℕ, ◌+◌, Bool, true, false, not, ◌&&◌, Option, none, some, ltb, leb, if◌then◌else◌, Result, ok,
  err, ◌>>=◌, ◌>>◌, throw_if, or_throw,
}
use k3ncrypt.Calls.{
  CallState, CallEvent, CallSession, CallSecurityPolicy, CallError, idle, inviting, ringing,
  accepted, connecting, reconnecting, ended, rejected, cancelled, expired, failed, invite, accept,
  reject, cancel, connect, reconnect, end, expire, fail, heartbeat, not_expired, has_expired,
  invalid_transition,
}

pub transitions : CallState → CallEvent → Option CallState
transitions idle invite = some inviting
transitions inviting invite = some ringing
transitions inviting accept = some accepted
transitions inviting reject = some rejected
transitions inviting cancel = some cancelled
transitions inviting expire = some expired
transitions inviting fail = some failed
transitions ringing accept = some accepted
transitions ringing reject = some rejected
transitions ringing cancel = some cancelled
transitions ringing expire = some expired
transitions ringing fail = some failed
transitions accepted connect = some connecting
transitions accepted cancel = some cancelled
transitions accepted expire = some expired
transitions accepted fail = some failed
transitions connecting CallEvent.connected = some CallState.connected
transitions connecting cancel = some cancelled
transitions connecting expire = some expired
transitions connecting fail = some failed
transitions CallState.connected heartbeat = some CallState.connected
transitions CallState.connected reconnect = some reconnecting
transitions CallState.connected end = some ended
transitions CallState.connected fail = some failed
transitions reconnecting connect = some connecting
transitions reconnecting end = some ended
transitions reconnecting fail = some failed
transitions _ _ = none

pub terminal : CallState → Bool
terminal ended = true
terminal rejected = true
terminal cancelled = true
terminal expired = true
terminal failed = true
terminal _ = false

pub invitation_bound : CallState → Bool
invitation_bound idle = true
invitation_bound inviting = true
invitation_bound ringing = true
invitation_bound accepted = true
invitation_bound connecting = true
invitation_bound _ = false

abbrev pub is_expire : CallEvent → Bool
is_expire expire = true
is_expire _ = false

abbrev pub is_connected : CallState → Bool
is_connected CallState.connected = true
is_connected _ = false

-- The heartbeat's own return; `now - updatedAt <= timeout`, with the subtraction moved across.
pub beat : CallSession → ℕ → CallSecurityPolicy → CallSession
beat session now policy =
    if is_connected session.state && leb now (session.updated_at + policy.heartbeat_timeout)
    then record session { updated_at = now }
    else session

-- The two tests of the deadline, as the `if` lines write them.
pub too_early : CallSession → CallEvent → ℕ → Bool
too_early session event now = is_expire event && ltb now session.expires_at

pub too_late : CallSession → CallEvent → ℕ → Bool
too_late session event now =
    not (is_expire event) && invitation_bound session.state && leb session.expires_at now

-- The body below the heartbeat's return.
pub move : CallSession → CallEvent → ℕ → Result CallError CallSession
move session event now = do
  throw_if (too_early session event now) not_expired
  throw_if (too_late session event now) has_expired
  throw_if (terminal session.state) invalid_transition
  next ← or_throw (transitions session.state event) invalid_transition
  ok (record session { state = next; updated_at = now })

pub transition_call :
    CallSession → CallEvent → ℕ → CallSecurityPolicy → Result CallError CallSession
transition_call session heartbeat now policy = ok (beat session now policy)
transition_call session event now policy = move session event now
