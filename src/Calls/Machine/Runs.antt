-- ===== src/Calls/Machine/Runs.antt =====
-- Histories of service/src/calls/stateMachine.ts: events with their times, where an event that throws
-- leaves the session as it was.
use k3ncrypt.Base.{
  ℕ, ◌≤◌, ◌≡◌, refl, ◌≢◌, ◌∙◌, ◌⊎◌, some, Bool, true, false, ◌&&◌, List, [], ◌∷◌, Result, ok, err,
  arith, ltb, lt→ltb, any, Bool-cases, Result-cases, inl, inr,
}
use k3ncrypt.Calls.{
  CallState, CallEvent, CallSession, CallSecurityPolicy, accepted, connecting, reconnecting, ended,
  expired, accept, expire, heartbeat, has_expired,
}
use k3ncrypt.Calls.Machine.{
  transitions, terminal, invitation_bound, too_early, too_late, is_connected, beat, move,
  transition_call,
}
use k3ncrypt.Calls.Machine.Edges.{move-Allowed, transition_call-move}

abbrev pub after {ℓ κ} : {E : Type ℓ} {A : Type κ} → A → Result E A → A
after s (ok t) = t
after s (err e) = s

unfoldable pub step : CallSecurityPolicy → CallSession → CallEvent × ℕ → CallSession
step p s (e, now) = after s (transition_call s e now p)

unfoldable pub run : CallSecurityPolicy → CallSession → List (CallEvent × ℕ) → CallSession
run p s [] = s
run p s (x ∷ log) = run p (step p s x) log

-- Everything but the state and the time of the last update.
pub record SameCall (s t : CallSession) : Type 0 where
  pub call_id : t.call_id ≡ s.call_id
  pub conversation_id : t.conversation_id ≡ s.conversation_id
  pub participants : t.participants ≡ s.participants
  pub media_mode : t.media_mode ≡ s.media_mode
  pub created_at : t.created_at ≡ s.created_at
  pub expires_at : t.expires_at ≡ s.expires_at
  pub identity_binding : t.identity_binding ≡ s.identity_binding
  pub protocol_version : t.protocol_version ≡ s.protocol_version

pub SameCall-refl : (s : CallSession) → SameCall s s
SameCall-refl s = record {
  call_id = refl;
  conversation_id = refl;
  participants = refl;
  media_mode = refl;
  created_at = refl;
  expires_at = refl;
  identity_binding = refl;
  protocol_version = refl;
}

pub SameCall-trans : {s t u : CallSession} → SameCall s t → SameCall t u → SameCall s u
SameCall-trans a b = record {
  call_id = b.call_id ∙ a.call_id;
  conversation_id = b.conversation_id ∙ a.conversation_id;
  participants = b.participants ∙ a.participants;
  media_mode = b.media_mode ∙ a.media_mode;
  created_at = b.created_at ∙ a.created_at;
  expires_at = b.expires_at ∙ a.expires_at;
  identity_binding = b.identity_binding ∙ a.identity_binding;
  protocol_version = b.protocol_version ∙ a.protocol_version;
}

move-SameCall : (s : CallSession) (e : CallEvent) (now : ℕ) → SameCall s (after s (move s e now))
unfolding move
move-SameCall s e now = ground arith

step-SameCall :
    (p : CallSecurityPolicy) (s : CallSession) (x : CallEvent × ℕ) → SameCall s (step p s x)
unfolding step transition_call beat
step-SameCall p s (heartbeat, now) = ground arith
step-SameCall p s (e, now) = move-SameCall s e now

-- Whatever the history, a call keeps its identifiers, participants, binding, media and deadline.
pub run-SameCall :
    (p : CallSecurityPolicy) (s : CallSession) (log : List (CallEvent × ℕ))
    → SameCall s (run p s log)
unfolding run
run-SameCall p s [] = SameCall-refl s
run-SameCall p s (x ∷ log) = SameCall-trans (step-SameCall p s x) (run-SameCall p (step p s x) log)

-- The states that only an accepted invitation leads to.
abbrev pub past_accept : CallState → Bool
past_accept accepted = true
past_accept connecting = true
past_accept CallState.connected = true
past_accept reconnecting = true
past_accept ended = true
past_accept _ = false

abbrev pub is_accept : CallEvent → Bool
is_accept accept = true
is_accept _ = false

abbrev pub accepted_before : ℕ → CallEvent × ℕ → Bool
accepted_before deadline (e, now) = is_accept e && ltb now deadline

edge_past_accept :
    (state : CallState) (e : CallEvent) {next : CallState}
    → transitions state e ≡ some next
    → past_accept next ≡ true
    → (past_accept state ≡ true) ⊎ ((e ≡ accept) × (invitation_bound state ≡ true))
unfolding transitions invitation_bound
edge_past_accept state e h k = ground arith

move-past_accept :
    (s t : CallSession) (e : CallEvent) (now : ℕ)
    → move s e now ≡ ok t
    → past_accept t.state ≡ true
    → (past_accept s.state ≡ true) ⊎ (accepted_before s.expires_at (e, now) ≡ true)
move-past_accept s t e now h k =
    let (a, _) = move-Allowed s t e now h in
    elim (edge_past_accept s.state e a.edge k) [
      | inl old ↦ inl old
      | inr (yes_accept, bound) ↦
          inr (rw yes_accept (lt→ltb _ _ (a.in_time (rw yes_accept (λ e. cc)) bound)))
    ]

beat-state : (p : CallSecurityPolicy) (s : CallSession) (now : ℕ) → (beat s now p).state ≡ s.state
unfolding beat
beat-state p s now = ground arith

step-past_accept :
    (p : CallSecurityPolicy) (s : CallSession) (x : CallEvent × ℕ)
    → past_accept (step p s x).state ≡ true
    → (past_accept s.state ≡ true) ⊎ (accepted_before s.expires_at x ≡ true)
unfolding step transition_call
step-past_accept p s (heartbeat, now) k = inl (rw (beat-state p s now) at k)
step-past_accept p s (e, now) k = elim (Result-cases (move s e now)) [
  | inl (t, done) ↦ move-past_accept s t e now done (rw done at k)
  | inr (_, refused) ↦ inl (rw refused at k)
]

any_later {ℓ} :
    {A : Type ℓ} (q : A → Bool) (x : A) (xs : List A) → any q xs ≡ true → any q (x ∷ xs) ≡ true
any_later q x xs h = ground arith

-- A call that has not been accepted gets past acceptance (accepted, connecting, connected,
-- reconnecting or ended) only by a history that holds an `accept` before the deadline of the
-- invitation.
pub run-accepted_before :
    (p : CallSecurityPolicy) (s : CallSession) (log : List (CallEvent × ℕ))
    → past_accept s.state ≡ false
    → past_accept (run p s log).state ≡ true
    → any (accepted_before s.expires_at) log ≡ true
unfolding run
run-accepted_before p s [] h k = cc
run-accepted_before p s (x ∷ log) h k = elim (Bool-cases (past_accept (step p s x).state)) [
  | inl past ↦ elim (step-past_accept p s x past) [ inl old ↦ cc | inr here ↦ rw here ]
  | inr not_yet ↦
      let later = run-accepted_before p (step p s x) log not_yet k in
      any_later (accepted_before s.expires_at) x log (rw (step-SameCall p s x).expires_at at later)
]

step-terminal :
    (p : CallSecurityPolicy) (s : CallSession) (x : CallEvent × ℕ)
    → terminal s.state ≡ true
    → step p s x ≡ s
unfolding step transition_call move beat terminal
step-terminal p s (heartbeat, now) h = ground arith
step-terminal p s (e, now) h = ground arith

-- A call that has ended, was rejected, cancelled or failed, or has expired stays exactly as it is.
pub run-terminal :
    (p : CallSecurityPolicy) (s : CallSession) (log : List (CallEvent × ℕ))
    → terminal s.state ≡ true
    → run p s log ≡ s
unfolding run
run-terminal p s [] h = refl
run-terminal p s (x ∷ log) h = rw (step-terminal p s x h) (run-terminal p s log h)

expire_edge :
    (state : CallState)
    → invitation_bound state ≡ true
    → state ≢ CallState.idle
    → (transitions state expire ≡ some expired)
      × (terminal state ≡ false)
      × (is_connected state ≡ false)
unfolding transitions invitation_bound terminal
expire_edge state h k = ground arith

late_throws :
    (s : CallSession) (e : CallEvent) (now : ℕ)
    → invitation_bound s.state ≡ true
    → s.expires_at ≤ now
    → e ≢ expire
    → move s e now ≡ err has_expired
unfolding move too_early too_late
late_throws s e now bound due other = ground arith

-- From the deadline on, a call that rings or is being set up can only expire: `expire` succeeds,
-- every other event but the heartbeat throws "Call has expired", and the heartbeat changes nothing.
pub deadline_only_expires :
    (p : CallSecurityPolicy) (s : CallSession) (e : CallEvent) (now : ℕ)
    → invitation_bound s.state ≡ true
    → s.state ≢ CallState.idle
    → s.expires_at ≤ now
    → (transition_call s expire now p ≡ ok (record s { state = expired; updated_at = now }))
      × (e ≢ expire → e ≢ heartbeat → transition_call s e now p ≡ err has_expired)
      × (transition_call s heartbeat now p ≡ ok s)
unfolding transition_call move too_early too_late beat
deadline_only_expires p s e now bound set_up due =
    let (edge, live, apart) = expire_edge s.state bound set_up in
    (
      ground (arith, edge, live),
      λ other beating.
          rw (transition_call-move s e now p beating) (late_throws s e now bound due other),
      ground (arith, apart),
    )
