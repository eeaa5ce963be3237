-- ===== src/Invitations/Tests.antt =====
-- One-time keys and invitations at concrete requests.
use k3ncrypt.Base.{ℕ, ◌+◌, ◌≤◌, ◌≡◌, refl, String, true, false, none, some, List, [], ◌∷◌, arith}
use k3ncrypt.Invitations.{
  OneTimeKey, PrekeyRow, has_key, take_key, claim_one_time_key, delete_expired_prekey_bundles, Room,
  is_room, find_room, change_room, reserve_in, reserve_invitation_publication, is_revocable,
  revoke_pending_invitation, publication_limit,
}
use k3ncrypt.Invitations.Keys.{KeyCall, claim, clean, call, supply, handed, handed-supply}
use k3ncrypt.Invitations.Admission.{
  Request, reserve, revoke, request, reserved, granted, reserved-le, revoke-granted,
}

abbrev key : String → OneTimeKey
key id = record { id = id; key = "public" }

abbrev bundles : List PrekeyRow
bundles =
    record {
      channel = "room";
      address = "gone";
      expires_at = some 10;
      one_time_keys = some (key "k1" ∷ []);
    }
    ∷ record {
      channel = "room";
      address = "here";
      expires_at = some 90;
      one_time_keys = some (key "k1" ∷ key "k2" ∷ []);
    }
    ∷ []

abbrev claims : List (ℕ × KeyCall)
claims = (20, claim "k1") ∷ (30, clean) ∷ (40, claim "k1") ∷ []

claim_test : (claim_one_time_key 20 "room" "here" "k1" bundles).1 ≡ some (key "k1")
unfolding claim_one_time_key has_key take_key
claim_test = refl

claim_expired_test : (claim_one_time_key 20 "room" "gone" "k1" bundles).1 ≡ none
unfolding claim_one_time_key has_key take_key
claim_expired_test = refl

handed_test : handed "room" "here" "k1" claims bundles ≡ 1
unfolding handed call claim_one_time_key has_key take_key delete_expired_prekey_bundles
handed_test = refl

handed-supply_example : handed "room" "here" "k1" claims bundles ≤ supply "room" "here" "k1" bundles
handed-supply_example = handed-supply "room" "here" "k1" claims bundles

abbrev invitation : Room
invitation = record {
  hash = "room";
  deleted = false;
  expired = false;
  invitation_expires_at = some 100;
  publications = some 0;
}

abbrev rooms : List Room
rooms = record invitation { hash = "other" } ∷ invitation ∷ []

abbrev requests : List (ℕ × Request)
requests =
    (1, reserve "room")
    ∷ (2, reserve "other")
    ∷ (3, reserve "room")
    ∷ (4, reserve "room")
    ∷ (5, revoke "room")
    ∷ []

find_test : find_room "room" rooms ≡ some invitation
unfolding find_room is_room
find_test = refl

reserved_test : reserved "room" requests rooms ≡ 2
unfolding reserved request reserve_invitation_publication reserve_in revoke_pending_invitation
    is_revocable find_room is_room change_room
reserved_test = refl

granted_test : granted "room" requests rooms ≡ 2
unfolding granted request reserve_invitation_publication reserve_in revoke_pending_invitation
    is_revocable find_room is_room change_room
granted_test = refl

reserved-le_example : 0 + reserved "room" requests rooms ≤ publication_limit
reserved-le_example =
    reserved-le "room" requests rooms invitation 0 find_test
      (record { dated = refl; counted = refl; within = omega arith })

abbrev revoked_rooms : List Room
revoked_rooms = record invitation { hash = "other" } ∷ record invitation { deleted = true } ∷ []

revoke_test : revoke_pending_invitation "room" rooms ≡ (revoked_rooms, true)
unfolding revoke_pending_invitation is_revocable find_room is_room change_room
revoke_test = refl

revoke-granted_example : granted "room" requests revoked_rooms ≡ 0
revoke-granted_example = revoke-granted "room" rooms revoked_rooms requests revoke_test
