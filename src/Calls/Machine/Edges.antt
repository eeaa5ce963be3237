-- ===== src/Calls/Machine/Edges.antt =====
-- What one event does to a session of service/src/calls/stateMachine.ts.
use k3ncrypt.Base.{ℕ, ◌≤◌, ◌<◌, ◌≡◌, refl, ◌≢◌, ◌↔◌, true, false, some, ok, arith}
use k3ncrypt.Calls.{CallState, CallEvent, CallSession, CallSecurityPolicy, expire, heartbeat}
use k3ncrypt.Calls.Machine.{
  transitions, terminal, invitation_bound, too_early, too_late, move, transition_call,
}

-- The conditions under which an event other than the heartbeat moves a session.
pub record Allowed (s : CallSession) (e : CallEvent) (now : ℕ) (next : CallState) : Type 0 where
  pub edge : transitions s.state e ≡ some next
  pub due : e ≡ expire → s.expires_at ≤ now
  pub in_time : e ≢ expire → invitation_bound s.state ≡ true → now < s.expires_at

edge-not-terminal :
    (state : CallState) (e : CallEvent) {next : CallState}
    → transitions state e ≡ some next
    → terminal state ≡ false
unfolding transitions terminal
edge-not-terminal state e h = ground arith

too_early_iff :
    (s : CallSession) (e : CallEvent) (now : ℕ)
    → (too_early s e now ≡ false) ↔ (e ≡ expire → s.expires_at ≤ now)
unfolding too_early
too_early_iff s expire now = ground arith
too_early_iff s _ now = ground arith

too_late_iff :
    (s : CallSession) (e : CallEvent) (now : ℕ)
    → (too_late s e now ≡ false)
      ↔ (e ≢ expire → invitation_bound s.state ≡ true → now < s.expires_at)
unfolding too_late
too_late_iff s expire now = ground arith
too_late_iff s _ now = ground arith

pub move-Allowed :
    (s t : CallSession) (e : CallEvent) (now : ℕ)
    → move s e now ≡ ok t
    → Allowed s e now t.state × (t ≡ record s { state = t.state; updated_at = now })
unfolding move
move-Allowed s t e now h = ground (arith, too_early_iff s e now, too_late_iff s e now)

Allowed-move :
    (s : CallSession) (e : CallEvent) (now : ℕ) (next : CallState)
    → Allowed s e now next
    → move s e now ≡ ok (record s { state = next; updated_at = now })
unfolding move
Allowed-move s e now next a = rw (
  (too_early_iff s e now).1 a.due,
  (too_late_iff s e now).1 a.in_time,
  edge-not-terminal s.state e a.edge,
  a.edge,
)

pub transition_call-move :
    (s : CallSession) (e : CallEvent) (now : ℕ) (p : CallSecurityPolicy)
    → e ≢ heartbeat
    → transition_call s e now p ≡ move s e now
unfolding transition_call
transition_call-move s heartbeat now p h = absurd (h refl)
transition_call-move s _ now p h = refl

-- An event other than the heartbeat succeeds exactly when the table has an edge for it, `expire`
-- comes at or after the deadline, and any other event on a call that is not yet set up comes before
-- it; then only the state and the time of the last update change.
pub move_iff :
    (s t : CallSession) (e : CallEvent) (now : ℕ) (p : CallSecurityPolicy)
    → e ≢ heartbeat
    → (transition_call s e now p ≡ ok t) ↔ (
        (next : CallState) × Allowed s e now next
        × (t ≡ record s { state = next; updated_at = now }))
move_iff s t e now p h = rw (transition_call-move s e now p h) (forward, backward)
  where
    forward :
        move s e now ≡ ok t
        → (next : CallState) × Allowed s e now next
          × (t ≡ record s { state = next; updated_at = now })
    forward h = let (a, same) = move-Allowed s t e now h in (t.state, a, same)

    backward :
        (next : CallState) × Allowed s e now next
          × (t ≡ record s { state = next; updated_at = now })
        → move s e now ≡ ok t
    backward (next, a, same) = rw same (Allowed-move s e now next a)
