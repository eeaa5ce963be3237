-- ===== src/Invitations/Admission.antt =====
-- How many publications an invitation admits, and that a revoked one admits none.
use k3ncrypt.Base.{
  ℕ, ◌+◌, ◌≤◌, ◌≡◌, ◌≢◌, refl, sym, ap, ◌∙◌, inl, inr, String, string_eq, ◌==◌, Bool, true, false,
  not, Option, none, some, List, [], ◌∷◌, arith, Bool-cases, Option-cases, if◌then◌else◌, ◌||◌, ltb,
  leb, ◌&&◌,
}
use text.Mathlib.TextEquality.{eq_iff}
use k3ncrypt.Invitations.{
  Room, is_room, find_room, change_room, reserve_in, reserve_invitation_publication, is_revocable,
  revoke_pending_invitation, is_dated, is_below_limit, publication_limit, one_more,
}

pub data Request : Type 0 where
  reserve : String → Request
  revoke : String → Request

unfoldable pub request : ℕ → Request → List Room → List Room × Bool
request now (reserve channel) rooms = reserve_invitation_publication channel now rooms
request now (revoke channel) rooms = revoke_pending_invitation channel rooms

abbrev pub channel_of : Request → String
channel_of (reserve channel) = channel
channel_of (revoke channel) = channel

abbrev pub one_if : Bool → ℕ
one_if true = 1
one_if false = 0

abbrev pub is_reserve : Request → Bool
is_reserve (reserve channel) = true
is_reserve (revoke channel) = false

-- How many reservations of a channel a history grants, and how many requests of it.
unfoldable pub reserved : String → List (ℕ × Request) → List Room → ℕ
reserved channel [] rooms = 0
reserved channel ((now, r) ∷ rs) rooms =
    reserved channel rs (request now r rooms).0
    + (if channel_of r == channel && is_reserve r then one_if (request now r rooms).1 else 0)

unfoldable pub granted : String → List (ℕ × Request) → List Room → ℕ
granted channel [] rooms = 0
granted channel ((now, r) ∷ rs) rooms =
    granted channel rs (request now r rooms).0
    + (if channel_of r == channel then one_if (request now r rooms).1 else 0)

is_room_iff :
    (channel : String) (room : Room)
    → is_room channel room ≡ true
    → (room.hash ≡ channel) × ((channel == "") ≡ false)
unfolding is_room
is_room_iff channel room h = ground (arith, h, eq_iff room.hash channel)

found_lem :
    (channel : String) (rooms : List Room) (room : Room)
    → find_room channel rooms ≡ some room
    → is_room channel room ≡ true
unfolding find_room
found_lem channel [] room h = cc
found_lem channel (r ∷ rooms) room h = elim (Bool-cases (is_room channel r)) [
  | inl e ↦ ground (arith, rw (e, find_room) at h, e)
  | inr e ↦ found_lem channel rooms room (rw (e, find_room) at h)
]

-- A room changed in place, its hash kept.
find-change_same :
    (channel : String) (new room : Room) (rooms : List Room)
    → find_room channel rooms ≡ some room
    → is_room channel new ≡ true
    → find_room channel (change_room channel new rooms) ≡ some new
unfolding find_room change_room
find-change_same channel new room [] h k = cc
find-change_same channel new room (r ∷ rooms) h k = elim (Bool-cases (is_room channel r)) [
  | inl e ↦ rw (e, change_room) (rw (k, find_room) refl)
  | inr e ↦
      rw (e, change_room)
        (rw (e, find_room) (find-change_same channel new room rooms (rw (e, find_room) at h) k))
]

find-change_other :
    (channel other : String) (new : Room) (rooms : List Room)
    → is_room channel new ≡ false
    → ((r : Room) → is_room other r ≡ true → is_room channel r ≡ false)
    → find_room channel (change_room other new rooms) ≡ find_room channel rooms
unfolding find_room change_room
find-change_other channel other new [] h k = refl
find-change_other channel other new (r ∷ rooms) h k = elim (Bool-cases (is_room other r)) [
  | inl e ↦ rw (e, change_room) (rw (h, k r e, find_room) refl)
  | inr e ↦ rw (e, change_room) (ground (arith, find-change_other channel other new rooms h k))
]

-- What a request does to the room that it names, and its answer.
unfoldable answered : ℕ → Request → Room → Room × Bool
answered now (reserve channel) room =
    if room.deleted || room.expired then (room, false) else elim room.invitation_expires_at [
      | none ↦ (room, true)
      | some at ↦
          if leb at now || not (is_below_limit room.publications)
          then (room, false)
          else (record room { publications = one_more room.publications }, true)
    ]
answered now (revoke channel) room =
    if is_revocable room then (record room { deleted = true }, true) else (room, false)

abbrev Does : String → Room × Bool → List Room × Bool → Type 0
Does channel a r = (find_room channel r.0 ≡ some a.0) × (r.1 ≡ a.1)

reserve-answered :
    (now : ℕ) (channel : String) (room : Room) (rooms : List Room)
    → find_room channel rooms ≡ some room
    → Does channel (answered now (reserve channel) room) (reserve_in channel now room rooms)
unfolding answered reserve_in is_room
reserve-answered now channel room rooms h = elim (Bool-cases (room.deleted || room.expired)) [
  | inl e ↦ rw (e, answered, reserve_in) (h, refl)
  | inr e ↦ elim (Option-cases room.invitation_expires_at) [
    | inl n ↦ rw (e, n, answered, reserve_in) (h, refl)
    | inr (at, n) ↦ elim (Bool-cases (leb at now || not (is_below_limit room.publications))) [
      | inl q ↦ rw (e, n, q, answered, reserve_in) (h, refl)
      | inr q ↦
          rw (e, n, q, answered, reserve_in)
            (
              find-change_same channel (record room { publications = one_more room.publications })
                  room rooms h (found_lem channel rooms room h),
              refl,
            )
    ]
  ]
]

reserve-found :
    (now : ℕ) (channel : String) (room : Room) (rooms : List Room)
    → find_room channel rooms ≡ some room
    → Does channel
        (answered now (reserve channel) room)
        (reserve_invitation_publication channel now rooms)
unfolding reserve_invitation_publication
reserve-found now channel room rooms h =
    rw (h, reserve_invitation_publication) (reserve-answered now channel room rooms h)

revoke-answered :
    (now : ℕ) (channel : String) (room : Room) (rooms : List Room)
    → find_room channel rooms ≡ some room
    → Does channel (answered now (revoke channel) room) (revoke_pending_invitation channel rooms)
unfolding answered revoke_pending_invitation is_room
revoke-answered now channel room rooms h = elim (Bool-cases (is_revocable room)) [
  | inl q ↦
      rw (h, q, answered, revoke_pending_invitation)
        (
          find-change_same channel (record room { deleted = true }) room rooms h
              (found_lem channel rooms room h),
          refl,
        )
  | inr q ↦ rw (h, q, answered, revoke_pending_invitation) (h, refl)
]

request-answered :
    (now : ℕ) (channel : String) (r : Request) (room : Room) (rooms : List Room)
    → (channel_of r == channel) ≡ true
    → find_room channel rooms ≡ some room
    → Does channel (answered now r room) (request now r rooms)
unfolding request
request-answered now channel (reserve other) room rooms e h =
    let s : other ≡ channel = (eq_iff other channel).0 e in
    rw (s, request) (reserve-found now channel room rooms h)
request-answered now channel (revoke other) room rooms e h =
    let s : other ≡ channel = (eq_iff other channel).0 e in
    rw (s, request) (revoke-answered now channel room rooms h)

other_room :
    (channel other : String) (r : Room)
    → (other == channel) ≡ false
    → is_room other r ≡ true
    → is_room channel r ≡ false
unfolding is_room
other_room channel other r e h =
    ground (arith, e, h, eq_iff r.hash other, eq_iff r.hash channel, eq_iff other channel)

request-other :
    (now : ℕ) (channel : String) (r : Request) (rooms : List Room)
    → (channel_of r == channel) ≡ false
    → find_room channel (request now r rooms).0 ≡ find_room channel rooms
unfolding request reserve_invitation_publication revoke_pending_invitation reserve_in
request-other now channel (reserve other) rooms e = elim (Option-cases (find_room other rooms)) [
  | inl n ↦ rw (n, request, reserve_invitation_publication) refl
  | inr (room, n) ↦ rw (n, request, reserve_invitation_publication) (changed room n)
]
  where
    changed :
        (room : Room)
        → find_room other rooms ≡ some room
        → find_room channel (reserve_in other now room rooms).0 ≡ find_room channel rooms
    changed room n = ground (
      arith,
      find-change_other channel other (record room { publications = one_more room.publications })
          rooms
          (other_room channel other (record room { publications = one_more room.publications }) e
            (unfold is_room in found_lem other rooms room n))
          (λ r. other_room channel other r e),
    )
request-other now channel (revoke other) rooms e = elim (Option-cases (find_room other rooms)) [
  | inl n ↦ rw (n, request, revoke_pending_invitation) refl
  | inr (room, n) ↦
      rw (n, request, revoke_pending_invitation)
        (ground (
          arith,
          find-change_other channel other (record room { deleted = true }) rooms
              (other_room channel other (record room { deleted = true }) e
                (unfold is_room in found_lem other rooms room n))
              (λ r. other_room channel other r e),
        ))
]

-- An invitation that has admitted `n` publications so far.
pub record Admitted (n : ℕ) (room : Room) : Type 0 where
  pub dated : is_dated room.invitation_expires_at ≡ true
  pub counted : room.publications ≡ some n
  pub within : n ≤ publication_limit

some_dated : (o : Option ℕ) → is_dated o ≡ true → o ≢ none
some_dated none h = cc
some_dated (some t) h = λ e. cc

answered-Admitted :
    (now : ℕ) (r : Request) (n : ℕ) (room : Room)
    → Admitted n room
    → (k : ℕ) × Admitted k (answered now r room).0
      × (k ≡ n + (if is_reserve r then one_if (answered now r room).1 else 0))
unfolding answered
answered-Admitted now (reserve channel) n room a =
    elim (Bool-cases (room.deleted || room.expired)) [
      | inl e ↦ (n, rw (e, answered) a, rw (e, answered) (omega arith))
      | inr e ↦ elim (Option-cases room.invitation_expires_at) [
        | inl d ↦ absurd (some_dated room.invitation_expires_at a.dated d)
        | inr (at, d) ↦ elim (Bool-cases (leb at now || not (is_below_limit room.publications))) [
          | inl q ↦ (n, rw (e, d, q, answered) a, rw (e, d, q, answered) (omega arith))
          | inr q ↦
              let full : ltb n publication_limit ≡ true = ground (arith, rw a.counted at q) in
              (
                n + 1,
                rw (e, d, q, answered)
                    (record {
                      dated = a.dated;
                      counted = ap one_more a.counted;
                      within = ground (arith, full);
                    }),
                rw (e, d, q, answered) (omega arith),
              )
        ]
      ]
    ]
answered-Admitted now (revoke channel) n room a = elim (Bool-cases (is_revocable room)) [
  | inl q ↦ (
    n,
    rw (q, answered) (record { dated = a.dated; counted = a.counted; within = a.within }),
    omega arith,
  )
  | inr q ↦ (n, rw (q, answered) a, omega arith)
]

-- In any history of reservations and revocations, of this and of other channels, an invitation that
-- has admitted `n` publications grants at most `publication_limit - n` more.
pub reserved-le :
    (channel : String) (rs : List (ℕ × Request)) (rooms : List Room) (room : Room) (n : ℕ)
    → find_room channel rooms ≡ some room
    → Admitted n room
    → n + reserved channel rs rooms ≤ publication_limit
unfolding reserved
reserved-le channel [] rooms room n h a = omega (arith, a.within)
reserved-le channel ((now, r) ∷ rs) rooms room n h a = elim (Bool-cases (channel_of r == channel)) [
  | inl e ↦
      let (found, same) = request-answered now channel r room rooms e h in
      let (k, b, c) = answered-Admitted now r n room a in
      rw (e, same)
        (ground (
          arith,
          c,
          reserved-le channel rs (request now r rooms).0 (answered now r room).0 k found b,
        ))
  | inr e ↦ rw e (
      omega (
        arith,
        reserved-le channel rs (request now r rooms).0 room n
            (request-other now channel r rooms e ∙ h) a,
      ))
]

answered-deleted :
    (now : ℕ) (r : Request) (room : Room)
    → room.deleted ≡ true
    → answered now r room ≡ (room, false)
unfolding answered is_revocable
answered-deleted now (reserve channel) room h = rw (h, answered) refl
answered-deleted now (revoke channel) room h = rw (h, answered, is_revocable) refl

granted-deleted :
    (channel : String) (rs : List (ℕ × Request)) (rooms : List Room) (room : Room)
    → find_room channel rooms ≡ some room
    → room.deleted ≡ true
    → granted channel rs rooms ≡ 0
unfolding granted
granted-deleted channel [] rooms room h d = refl
granted-deleted channel ((now, r) ∷ rs) rooms room h d =
    elim (Bool-cases (channel_of r == channel)) [
      | inl e ↦
          let (found, same) = request-answered now channel r room rooms e h in
          let k : answered now r room ≡ (room, false) = answered-deleted now r room d in
          rw (e, same, k)
            (omega
              (arith, granted-deleted channel rs (request now r rooms).0 room (rw k at found) d))
      | inr e ↦ rw e (
          omega (
            arith,
            granted-deleted channel rs (request now r rooms).0 room
                (request-other now channel r rooms e ∙ h) d,
          ))
    ]

revoked_lem :
    (channel : String) (rooms after : List Room)
    → revoke_pending_invitation channel rooms ≡ (after, true)
    → (room : Room) × (find_room channel after ≡ some room) × (room.deleted ≡ true)
unfolding revoke_pending_invitation is_room
revoked_lem channel rooms after h = elim (Option-cases (find_room channel rooms)) [
  | inl n ↦ absurd (ground (arith, rw (n, revoke_pending_invitation) at h))
  | inr (room, n) ↦ elim (Bool-cases (is_revocable room)) [
    | inr q ↦ absurd (ground (arith, rw (n, q, revoke_pending_invitation) at h))
    | inl q ↦
        let k = rw (n, q, revoke_pending_invitation) at h in
        let s : after ≡ change_room channel (record room { deleted = true }) rooms =
          ap (λ x. x.0) (sym k) in
        (
          record room { deleted = true },
          rw s (
              find-change_same channel (record room { deleted = true }) room rooms n
                (found_lem channel rooms room n)),
          refl,
        )
  ]
]

-- Once a revocation of an invitation succeeds, no later reservation or revocation of its channel
-- does, whatever the history of requests for this and for other channels.
pub revoke-granted :
    (channel : String) (rooms after : List Room) (rs : List (ℕ × Request))
    → revoke_pending_invitation channel rooms ≡ (after, true)
    → granted channel rs after ≡ 0
revoke-granted channel rooms after rs h =
    let (room, found, deleted) = revoked_lem channel rooms after h in
    granted-deleted channel rs after room found deleted
