-- ===== src/Groups/History.antt =====
-- Every history of calls of service/src/groups/runtime.ts, over what is stored of the groups.
use k3ncrypt.Base.{
  ℕ, ◌+◌, ◌≤◌, ◌≡◌, refl, sym, ap, ◌∙◌, inl, inr, String, string_eq, ◌==◌, false, not, ◌||◌, some,
  List, [], ◌∷◌, ◌++◌, if◌then◌else◌, arith, Bool-cases, Option-cases, Result-cases, ok, passed,
  returned,
}
use mathlib.Core.Path.{subst}
use k3ncrypt.Base.Dict.{get, put, get-put}
use text.Mathlib.TextEquality.{eq_iff}
use k3ncrypt.Groups.{
  GroupMemberState, active, removed, GroupMember, GroupMembershipSnapshot, add, activate, remove,
  GroupMembershipEvent, is_pending, member_at, authorize_change, validate, set_state, next_snapshot,
  is_taken, added_members, is_pending_member, activated_members, is_removable, removed_members,
  matches_context, Group, Around, with_action, Request, adding, activating, removing,
  wrong_operation, changed_members, change_validated, change_stored, commit_members, change,
}
use k3ncrypt.Groups.Members.{
  rank, Grows, Distinct, has_device, refl-Grows, trans-Grows, append-Grows, append-Distinct,
  set-Distinct, set-Grows,
}

untaken :
    (m : GroupMember) (ms : List GroupMember)
    → is_taken m ms ≡ false
    → has_device m.device_id ms ≡ false
unfolding is_taken
untaken m [] h = refl
untaken m (n ∷ ms) h = ground (arith, untaken m ms, h)

abbrev pub Changes : List GroupMember → List GroupMember → Type 0
Changes ms ns = Grows ms ns × Distinct ns

added-Changes :
    (m : GroupMember) (s : GroupMembershipSnapshot) (ms : List GroupMember)
    → added_members m s ≡ ok ms
    → Distinct s.members
    → Changes s.members ms
unfolding added_members
added-Changes m s ms h d =
    let (a, h1) = passed (not (is_pending m.state) || is_taken m s.members) _ _ h in
    let e : s.members ++ m ∷ [] ≡ ms = ground (arith, h1) in
    subst (Changes s.members) e (
      append-Grows s.members m,
      append-Distinct s.members m (untaken m s.members (ground (arith, a))) d,
    )

activated-Changes :
    (id : String) (s : GroupMembershipSnapshot) (ms : List GroupMember)
    → activated_members id s ≡ ok ms
    → Distinct s.members
    → Changes s.members ms
unfolding activated_members
activated-Changes id s ms h d =
    let (a, h1) = passed (not (is_pending_member (member_at id s.members))) _ _ h in
    let e : set_state id active s.members ≡ ms = ground (arith, h1) in
    elim (Option-cases (member_at id s.members)) [
      | inl n ↦ absurd (ground (arith, rw n at a))
      | inr (m, n) ↦
          let p : rank m.state ≤ rank active = pending_rank m.state (rw n at a) in
          subst (Changes s.members) e
            (set-Grows id active s.members m n p d, set-Distinct id active s.members d)
    ]
  where
    pending_rank : (st : GroupMemberState) → not (is_pending st) ≡ false → rank st ≤ 1
    pending_rank st h = ground (arith, h)

removed-Changes :
    (actor id : String) (s : GroupMembershipSnapshot) (ms : List GroupMember)
    → removed_members actor id s ≡ ok ms
    → Distinct s.members
    → Changes s.members ms
unfolding removed_members
removed-Changes actor id s ms h d =
    let (a, h1) = passed (not (is_removable actor (member_at id s.members))) _ _ h in
    let e : set_state id removed s.members ≡ ms = ground (arith, h1) in
    elim (Option-cases (member_at id s.members)) [
      | inl n ↦ absurd (ground (arith, rw n at a))
      | inr (m, n) ↦ subst (Changes s.members) e (
        set-Grows id removed s.members m n (any_rank m.state) d,
        set-Distinct id removed s.members d,
      )
    ]
  where
    any_rank : (st : GroupMemberState) → rank st ≤ 2
    any_rank st = ground arith

changed-Changes :
    (now : ℕ) (r : Request) (e : GroupMembershipEvent) (s : GroupMembershipSnapshot)
    (ms : List GroupMember)
    → changed_members now r e s ≡ ok ms
    → Distinct s.members
    → Changes s.members ms
unfolding changed_members
changed-Changes now (adding m) e s ms h d =
    let (u, a, b) =
      returned
        (authorize_change now (with_action add e.authorization.target_device_id e.authorization) s)
        _ h in
    added-Changes m s ms b d
changed-Changes now activating e s ms h d =
    let (u, a, b) =
      returned
        (authorize_change now (with_action activate (some e.target_device_id) e.authorization) s) _
        h in
    activated-Changes e.target_device_id s ms b d
changed-Changes now removing e s ms h d =
    let (u, a, b) =
      returned
        (authorize_change now (with_action remove (some e.target_device_id) e.authorization) s) _
        h in
    removed-Changes e.authorization.actor_device_id e.target_device_id s ms b d

-- Each group stands under its identifier, with no device twice.
unfoldable pub IsSound : Group → Type 0
IsSound g =
    (id : String) (s : GroupMembershipSnapshot)
    → get id g.stored ≡ some s
    → (s.group_id ≡ id) × Distinct s.members

-- A later state of a group: no lower epoch, and the same members, moved on, with new ones after them.
pub record IsLater (s t : GroupMembershipSnapshot) : Type 0 where
  pub epochs : s.epoch ≤ t.epoch
  pub members : Grows s.members t.members

module _ (digest_of : GroupMembershipEvent → String)
    (commitment : GroupMembershipSnapshot → List GroupMember → String) where
  -- A call leaves what is stored, or stores the next state of one group.
  data Effect (g : Group) : Group → Type 0 where
    same : (h : Group) → h.stored ≡ g.stored → Effect g h
    stores :
        (h : Group) (id : String) (s : GroupMembershipSnapshot) (ms : List GroupMember)
        → get id g.stored ≡ some s
        → (Distinct s.members → Changes s.members ms)
        → h.stored ≡ put s.group_id (next_snapshot commitment s ms) g.stored
        → Effect g h

  change_validated-Effect :
      (c : Around) (r : Request) (e : GroupMembershipEvent) (id : String)
      (s : GroupMembershipSnapshot) (g h : Group)
      → get id g.stored ≡ some s
      → h.stored ≡ g.stored
      → Effect g (change_validated digest_of commitment c r e s h).0
  unfolding change_validated commit_members
  change_validated-Effect c r e id s g h k q = elim (Result-cases (changed_members c.now r e s)) [
    | inr (x, f) ↦ rw (f, change_validated) (same h q)
    | inl (ms, f) ↦ elim (Bool-cases c.writes) [
      | inr w ↦ rw (f, w, change_validated, commit_members) (same h q)
      | inl w ↦
          rw (f, w, change_validated, commit_members)
            (stores (record h { stored = put s.group_id (next_snapshot commitment s ms) h.stored })
              id s ms k (changed-Changes c.now r e s ms f)
              (ap (put s.group_id (next_snapshot commitment s ms)) q))
    ]
  ]

  change-Effect :
      (c : Around) (r : Request) (e : GroupMembershipEvent) (g : Group)
      → Effect g (change digest_of commitment c r e g).0
  unfolding change change_stored
  change-Effect c r e g = elim (Bool-cases (wrong_operation r e)) [
    | inl a ↦ rw (a, change) (same g refl)
    | inr a ↦ elim (Bool-cases c.issued) [
      | inr b ↦ rw (a, b, change) (same g refl)
      | inl b ↦ elim (Option-cases (get e.authorization.group_id g.stored)) [
        | inl n ↦ rw (a, b, n, change) (same g refl)
        | inr (s, n) ↦ rw (a, b, n, change) (change_stored-Effect s n)
      ]
    ]
  ]
    where
      change_stored-Effect :
          (s : GroupMembershipSnapshot)
          → get e.authorization.group_id g.stored ≡ some s
          → Effect g (change_stored digest_of commitment c r e s g).0
      change_stored-Effect s n =
          elim (Bool-cases
            (matches_context c.sender (member_at e.authorization.actor_device_id s.members))) [
              | inr d ↦ rw (d, change_stored) (same g refl)
              | inl d ↦ elim (Result-cases (validate digest_of c.now g.seen e s)) [
                | inr (x, f) ↦ rw (d, f, change_stored) (same g refl)
                | inl (seen, f) ↦
                    rw (d, f, change_stored)
                      (change_validated-Effect c r e e.authorization.group_id s g
                        (record g { seen = seen }) n refl)
              ]
            ]

refl-IsLater : (s : GroupMembershipSnapshot) → IsLater s s
refl-IsLater s = record { epochs = omega arith; members = refl-Grows s.members }

trans-IsLater : (s t u : GroupMembershipSnapshot) → IsLater s t → IsLater t u → IsLater s u
trans-IsLater s t u p q = record {
  epochs = omega (arith, p.epochs, q.epochs);
  members = trans-Grows s.members t.members u.members p.members q.members;
}

module _ (digest_of : GroupMembershipEvent → String)
    (commitment : GroupMembershipSnapshot → List GroupMember → String) where
  Effect-IsSound : (g h : Group) → Effect digest_of commitment g h → IsSound g → IsSound h
  unfolding IsSound next_snapshot
  Effect-IsSound g _ (same h q) sound = λ id s k. sound id s (ap (get id) (sym q) ∙ k)
  Effect-IsSound g _ (stores h i s ms k c q) sound = λ id t l.
      let (at, d) = sound i s k in
      let m : (if s.group_id == id then some (next_snapshot commitment s ms) else get id g.stored)
          ≡ some t =
        sym (get-put s.group_id id (next_snapshot commitment s ms) g.stored)
        ∙ ap (get id) (sym q)
        ∙ l in
      elim (Bool-cases (s.group_id == id)) [
        | inl e ↦
            let x : next_snapshot commitment s ms ≡ t = ground (arith, rw e at m) in
            subst (λ u. (u.group_id ≡ id) × Distinct u.members) x
              ((eq_iff s.group_id id).0 e, (c d).1)
        | inr e ↦ sound id t (rw e at m)
      ]

  Effect-IsLater :
      (g h : Group) (id : String) (s : GroupMembershipSnapshot)
      → Effect digest_of commitment g h
      → IsSound g
      → get id g.stored ≡ some s
      → (t : GroupMembershipSnapshot) × (get id h.stored ≡ some t) × IsLater s t
  unfolding IsSound next_snapshot
  Effect-IsLater g _ id s (same h q) sound k = (s, ap (get id) q ∙ k, refl-IsLater s)
  Effect-IsLater g _ id s (stores h i r ms l c q) sound k =
      let m : get id h.stored
          ≡ (if r.group_id == id then some (next_snapshot commitment r ms) else get id g.stored) =
        ap (get id) q ∙ get-put r.group_id id (next_snapshot commitment r ms) g.stored in
      let (at, d) = sound i r l in
      elim (Bool-cases (r.group_id == id)) [
        | inr e ↦ (s, rw e at m ∙ k, refl-IsLater s)
        | inl e ↦
            let same_id : i ≡ id = sym at ∙ (eq_iff r.group_id id).0 e in
            let x : r ≡ s = ground (arith, l, k, same_id) in
            (
              next_snapshot commitment r ms,
              rw e at m,
              record {
                epochs = subst (λ u. u.epoch ≤ r.epoch + 1) x (omega arith);
                members = subst (λ u. Grows u.members ms) x (c d).0;
              },
            )
      ]

  unfoldable pub run : List (Around × Request × GroupMembershipEvent) → Group → Group
  run [] g = g
  run ((c, r, e) ∷ calls) g = run calls (change digest_of commitment c r e g).0

  -- In the groups' storage where each group stands under its identifier with no device twice, after any
  -- sequence of additions, activations and removals, accepted or not, a group that was stored is still
  -- stored, at no lower epoch: each of its members stands at the same place with the same identity,
  -- device and role and a state that is the same or further from pending over active to removed, and new
  -- members stand after them.
  pub run-IsLater :
      (calls : List (Around × Request × GroupMembershipEvent)) (g : Group) (id : String)
      (s : GroupMembershipSnapshot)
      → IsSound g
      → get id g.stored ≡ some s
      → (t : GroupMembershipSnapshot) × (get id (run calls g).stored ≡ some t) × IsLater s t
  unfolding run
  run-IsLater [] g id s sound k = (s, k, refl-IsLater s)
  run-IsLater ((c, r, e) ∷ calls) g id s sound k =
      let h = (change digest_of commitment c r e g).0 in
      let eff = change-Effect digest_of commitment c r e g in
      let (t, l, p) = Effect-IsLater g h id s eff sound k in
      let (u, m, q) = run-IsLater calls h id t (Effect-IsSound g h eff sound) l in
      (u, m, trans-IsLater s t u p q)
