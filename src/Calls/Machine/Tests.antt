-- ===== src/Calls/Machine/Tests.antt =====
-- Runs of service/src/calls/stateMachine.ts at concrete sessions.
use k3ncrypt.Base.{ℕ, ◌≡◌, refl, ◌↔◌, true, List, [], ◌∷◌, ok, err, any}
use k3ncrypt.Calls.{
  CallState, CallEvent, CallSession, default_policy, audio, idle, ringing, accepted, expired,
  invite, accept, connect, expire, invalid_transition, not_expired,
}
use k3ncrypt.Calls.Machine.{
  transitions, terminal, invitation_bound, too_early, too_late, beat, move, transition_call,
}
use k3ncrypt.Calls.Machine.Edges.{Allowed, move_iff}
use k3ncrypt.Calls.Machine.Runs.{step, run, accepted_before, run-accepted_before}

-- All that a run computes through.
machine : Unit {0}
unfolding transitions terminal invitation_bound too_early too_late beat move transition_call step
    run
machine = tt

abbrev session : CallState → CallSession
session state = record {
  call_id = "call-1";
  conversation_id = "room";
  participants = [];
  media_mode = audio;
  state = state;
  created_at = 1000;
  updated_at = 1000;
  expires_at = 61_000;
  identity_binding = "binding";
  protocol_version = 2;
}

abbrev set_up : List (CallEvent × ℕ)
set_up =
    (invite, 1001)
    ∷ (invite, 1002)
    ∷ (accept, 2000)
    ∷ (connect, 2001)
    ∷ (CallEvent.connected, 3000)
    ∷ []

set_up_state : (run default_policy (session idle) set_up).state ≡ CallState.connected
unfolding machine
set_up_state = refl

late_state :
    (run default_policy (session ringing) ((accept, 61_000) ∷ (expire, 61_000) ∷ [])).state
    ≡ expired
unfolding machine
late_state = refl

early_expiry : transition_call (session ringing) expire 5 default_policy ≡ err not_expired
unfolding machine
early_expiry = refl

idle_never_expires :
    transition_call (session idle) expire 70_000 default_policy ≡ err invalid_transition
unfolding machine
idle_never_expires = refl

move_iff_example :
    (transition_call (session ringing) accept 2000 default_policy
      ≡ ok (record (session ringing) { state = accepted; updated_at = 2000 }))
    ↔ ((next : CallState) × Allowed (session ringing) accept 2000 next
        × ◌≡◌ {A = CallSession}
            (record (session ringing) { state = accepted; updated_at = 2000 })
            (record (session ringing) { state = next; updated_at = 2000 }))
move_iff_example =
    move_iff (session ringing) (record (session ringing) { state = accepted; updated_at = 2000 })
      accept 2000 default_policy (λ e. cc)

run-accepted_before_example : any (accepted_before 61_000) set_up ≡ true
unfolding machine
run-accepted_before_example = run-accepted_before default_policy (session idle) set_up refl refl
