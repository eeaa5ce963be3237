-- ===== src/Groups/Members.antt =====
-- The relations between the members of a group before and after a change of service/src/groups/state.ts.
use k3ncrypt.Base.{
  ℕ, ◌≤◌, ◌≡◌, refl, sym, ap, ◌∙◌, inl, inr, String, string_eq, ◌==◌, Bool, false, ◌||◌, some, List,
  [], ◌∷◌, ◌++◌, any, arith, Bool-cases,
}
use text.Mathlib.TextEquality.{eq_iff}
use k3ncrypt.Groups.{GroupMemberState, pending, active, removed, GroupMember, member_at, set_state}

abbrev pub rank : GroupMemberState → ℕ
rank pending = 0
rank active = 1
rank removed = 2

-- The same member, no less far on its way from pending over active to removed.
pub record Later (m n : GroupMember) : Type 0 where
  pub same_member : m.member_id ≡ n.member_id
  pub same_device : m.device_id ≡ n.device_id
  pub same_user : m.user_identity_reference ≡ n.user_identity_reference
  pub same_role : m.role ≡ n.role
  pub further : rank m.state ≤ rank n.state

abbrev pub Grows : List GroupMember → List GroupMember → Type 0
Grows [] ns = Unit
Grows (m ∷ ms) [] = ⊥
Grows (m ∷ ms) (n ∷ ns) = Later m n × Grows ms ns

abbrev pub has_device : String → List GroupMember → Bool
has_device id ms = any (λ m. m.device_id == id) ms

-- No device stands twice among the members.
abbrev pub Distinct : List GroupMember → Type 0
Distinct [] = Unit
Distinct (m ∷ ms) = (has_device m.device_id ms ≡ false) × Distinct ms

refl-Later : (m : GroupMember) → Later m m
refl-Later m = record {
  same_member = refl;
  same_device = refl;
  same_user = refl;
  same_role = refl;
  further = omega arith;
}

pub refl-Grows : (ms : List GroupMember) → Grows ms ms
refl-Grows [] = tt
refl-Grows (m ∷ ms) = (refl-Later m, refl-Grows ms)

trans-Later : (m n o : GroupMember) → Later m n → Later n o → Later m o
trans-Later m n o p q = record {
  same_member = p.same_member ∙ q.same_member;
  same_device = p.same_device ∙ q.same_device;
  same_user = p.same_user ∙ q.same_user;
  same_role = p.same_role ∙ q.same_role;
  further = omega (arith, p.further, q.further);
}

pub trans-Grows : (ms ns os : List GroupMember) → Grows ms ns → Grows ns os → Grows ms os
trans-Grows [] ns os p q = tt
trans-Grows (m ∷ ms) [] os p q = absurd p
trans-Grows (m ∷ ms) (n ∷ ns) [] p q = absurd q
trans-Grows (m ∷ ms) (n ∷ ns) (o ∷ os) p q =
    (trans-Later m n o p.0 q.0, trans-Grows ms ns os p.1 q.1)

pub append-Grows : (ms : List GroupMember) (n : GroupMember) → Grows ms (ms ++ n ∷ [])
append-Grows [] n = tt
append-Grows (m ∷ ms) n = (refl-Later m, append-Grows ms n)

has_device-append :
    (id : String) (ms : List GroupMember) (n : GroupMember)
    → has_device id (ms ++ n ∷ []) ≡ (has_device id ms || n.device_id == id)
has_device-append id [] n = ground arith
has_device-append id (m ∷ ms) n = ground (arith, has_device-append id ms n)

pub append-Distinct :
    (ms : List GroupMember) (n : GroupMember)
    → has_device n.device_id ms ≡ false
    → Distinct ms
    → Distinct (ms ++ n ∷ [])
append-Distinct [] n h d = (refl, tt)
append-Distinct (m ∷ ms) n h d = ground (
  arith,
  append-Distinct ms n,
  has_device-append m.device_id ms n,
  eq_iff m.device_id n.device_id,
  eq_iff n.device_id m.device_id,
)

has_device-set :
    (id other : String) (state : GroupMemberState) (ms : List GroupMember)
    → has_device id (set_state other state ms) ≡ has_device id ms
unfolding set_state
has_device-set id other state [] = refl
has_device-set id other state (m ∷ ms) = ground (arith, has_device-set id other state ms)

pub set-Distinct :
    (id : String) (state : GroupMemberState) (ms : List GroupMember)
    → Distinct ms
    → Distinct (set_state id state ms)
unfolding set_state
set-Distinct id state [] d = tt
set-Distinct id state (m ∷ ms) d = elim (Bool-cases (m.device_id == id)) [
  | inl e ↦ rw e (has_device-set m.device_id id state ms ∙ d.0, set-Distinct id state ms d.1)
  | inr e ↦ rw e (has_device-set m.device_id id state ms ∙ d.0, set-Distinct id state ms d.1)
]

set_absent :
    (id : String) (state : GroupMemberState) (ms : List GroupMember)
    → has_device id ms ≡ false
    → set_state id state ms ≡ ms
unfolding set_state
set_absent id state [] h = refl
set_absent id state (m ∷ ms) h = ground (arith, set_absent id state ms)

-- A member moved on, where its device stands once.
pub set-Grows :
    (id : String) (state : GroupMemberState) (ms : List GroupMember) (m : GroupMember)
    → member_at id ms ≡ some m
    → rank m.state ≤ rank state
    → Distinct ms
    → Grows ms (set_state id state ms)
unfolding set_state member_at
set-Grows id state [] m h r d = cc
set-Grows id state (n ∷ ms) m h r d = elim (Bool-cases (n.device_id == id)) [
  | inl e ↦
      let s : n ≡ m = ground (arith, rw (e, member_at) at h) in
      let same : n.device_id ≡ id = (eq_iff n.device_id id).0 e in
      let absent : has_device id ms ≡ false = ap (λ k. has_device k ms) (sym same) ∙ d.0 in
      rw (e, set_absent id state ms absent)
        (
          record {
            same_member = refl;
            same_device = refl;
            same_user = refl;
            same_role = refl;
            further = ground (arith, s, r);
          },
          refl-Grows ms,
        )
  | inr e ↦ rw e (refl-Later n, set-Grows id state ms m (rw (e, member_at) at h) r d.1)
]
