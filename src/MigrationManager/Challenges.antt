-- ===== src/MigrationManager/Challenges.antt =====
-- The challenges of migration-manager.ts, by which a contact shows that it holds both its keys, so that
-- its migration can be accepted without the user.
use orpal.Base.{
  String, Bool, true, false, List, [], ◌∷◌, Option, none, some, ◌&&◌, if◌then◌else◌, ◌>>=◌,
}
use orpal.Dict
use orpal.Dict.{Dict}
use orpal.Frames.{Target, old, new}
use orpal.Keys.{Bytes, KeyMigration, Orp}
use orpal.MigrationManager.{Manager, ChallengeSet}
use orpal.MigrationManager.Incoming.{find_pending}

-- The nonces and the pairs of keys that are drawn for a set of challenges, and the randomness of the boxes.
pub record Randomness : Type 0 where
  pub old_nonce : Bytes
  pub new_nonce : Bytes
  pub old_ack_priv : Bytes
  pub old_ack_pub : Bytes
  pub new_ack_priv : Bytes
  pub new_ack_pub : Bytes
  pub old_box : Bytes
  pub new_box : Bytes

pub record OutboundChallenge : Type 0 where
  pub target : Target
  pub sealed_nonce : String
  pub ack_pubkey : String

pub record Verdict : Type 0 where
  pub both_verified : Bool
  pub valid : Bool

abbrev pub rejected_response : Verdict
rejected_response = record { both_verified = false; valid = false }

abbrev pub ack_priv : Target → ChallengeSet → Bytes
ack_priv old cs = cs.old_ack_priv
ack_priv new cs = cs.new_ack_priv

abbrev pub ack_pub : Target → ChallengeSet → Bytes
ack_pub old cs = cs.old_ack_pub
ack_pub new cs = cs.new_ack_pub

abbrev pub nonce : Target → ChallengeSet → Bytes
nonce old cs = cs.old_nonce
nonce new cs = cs.new_nonce

abbrev pub mark : Target → ChallengeSet → ChallengeSet
mark old cs = record cs { old_verified = true }
mark new cs = record cs { new_verified = true }

pub data Created : Type 0 where
  nothing_pending throws : Created
  created : List OutboundChallenge → Created

pub data Answered : Type 0 where
  no_answer answer_throws : Answered
  answer : (sealed_echo : String) → Answered

module _ (orp : Orp) where
  open orp use {
    Identity, verify_key_migration, make_migration_ack, seal, unseal, b64u_encode, b64u_decode,
    bytes_equal, transport_private, transport_pub,
  }

  unfoldable pub challenge_set : Randomness → KeyMigration → ChallengeSet
  challenge_set r migration = record {
    migration = migration;
    old_nonce = r.old_nonce;
    new_nonce = r.new_nonce;
    old_ack_priv = r.old_ack_priv;
    old_ack_pub = r.old_ack_pub;
    new_ack_priv = r.new_ack_priv;
    new_ack_pub = r.new_ack_pub;
    old_verified = false;
    new_verified = false;
  }

  unfoldable pub outbound :
      Randomness → (old_transport_key new_transport_key : Bytes) → Option (List OutboundChallenge)
  outbound r old_transport_key new_transport_key = do
    sealed_old ← seal r.old_nonce old_transport_key r.old_box
    sealed_new ← seal r.new_nonce new_transport_key r.new_box
    some (
        record {
          target = old;
          sealed_nonce = b64u_encode sealed_old;
          ack_pubkey = b64u_encode r.old_ack_pub;
        }
        ∷ record {
          target = new;
          sealed_nonce = b64u_encode sealed_new;
          ack_pubkey = b64u_encode r.new_ack_pub;
        }
        ∷ [])

  unfoldable pub challenges_for :
      Randomness → (old_transport_key : String) → KeyMigration → Option (List OutboundChallenge)
  unfolding outbound
  challenges_for r old_transport_key migration = do
    old_key ← b64u_decode old_transport_key
    new_key ← b64u_decode migration.new_transport_key
    outbound r old_key new_key

  unfoldable pub create_challenges :
      Randomness
      → (contact_key old_transport_key : String) → Manager Identity
      → Created × Manager Identity
  unfolding find_pending challenge_set challenges_for
  create_challenges r contact_key old_transport_key m =
      elim (find_pending contact_key m.pending_incoming) [
        | none ↦ (nothing_pending, m)
        | some p ↦ elim (challenges_for r old_transport_key p.migration) [
          | none ↦ (throws, m)
          | some challenges ↦ (
            created challenges,
            record m {
              pending_challenges =
                  Dict.set contact_key (challenge_set r p.migration) m.pending_challenges;
            },
          )
        ]
      ]

  -- The echo in a response, if its box opens.
  unfoldable pub open_echo : Target → String → ChallengeSet → Option Bytes
  open_echo target sealed_echo cs = elim (b64u_decode sealed_echo) [
    | none ↦ none
    | some box ↦ unseal box (ack_priv target cs) (ack_pub target cs)
  ]

  unfoldable pub record_verified :
      String → ChallengeSet → Manager Identity → Verdict × Manager Identity
  record_verified contact_key cs m =
      if cs.old_verified && cs.new_verified
      then (
        record { both_verified = true; valid = true },
        record m { pending_challenges = Dict.delete contact_key m.pending_challenges },
      )
      else (
        record { both_verified = false; valid = true },
        record m { pending_challenges = Dict.set contact_key cs m.pending_challenges },
      )

  unfoldable pub verify_challenge_response :
      String → Target → String → Manager Identity → Verdict × Manager Identity
  unfolding open_echo record_verified
  verify_challenge_response contact_key target sealed_echo m =
      elim (Dict.get contact_key m.pending_challenges) [
        | none ↦ (rejected_response, m)
        | some cs ↦ elim (open_echo target sealed_echo cs) [
          | none ↦ (rejected_response, m)
          | some echo ↦
              if bytes_equal echo (nonce target cs)
              then record_verified contact_key (mark target cs) m
              else (rejected_response, m)
        ]
      ]

  unfoldable pub has_pending_challenge : String → Manager Identity → Bool
  has_pending_challenge contact_key m = Dict.has contact_key m.pending_challenges

  -- The identity whose transport keys answer a challenge.
  unfoldable pub answering : Target → Identity → Manager Identity → Option Identity
  answering old current m = some current
  answering new current m = m.new_identity

  -- The nonce of a challenge, if its box opens.
  unfoldable pub open_nonce :
      Target → Identity → (sealed_nonce : String) → Manager Identity → Option Bytes
  unfolding answering
  open_nonce target current sealed_nonce m = do
    identity ← answering target current m
    box ← b64u_decode sealed_nonce
    unseal box (transport_private identity) (transport_pub identity)

  unfoldable pub seal_echo : (randomness nonce : Bytes) → (ack_pubkey : String) → Answered
  seal_echo randomness nonce ack_pubkey = elim (b64u_decode ack_pubkey) [
    | none ↦ answer_throws
    | some pub_key ↦ elim (seal nonce pub_key randomness) [
      | none ↦ answer_throws
      | some box ↦ answer (b64u_encode box)
    ]
  ]

  unfoldable pub answer_challenge :
      (randomness : Bytes)
      → Identity
      → Target
      → (sealed_nonce ack_pubkey : String) → Manager Identity
      → Answered
  unfolding open_nonce seal_echo
  answer_challenge randomness current target sealed_nonce ack_pubkey m =
      elim (open_nonce target current sealed_nonce m) [
        | none ↦ no_answer
        | some nonce ↦ seal_echo randomness nonce ack_pubkey
      ]
