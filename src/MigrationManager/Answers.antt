-- ===== src/MigrationManager/Answers.antt =====
-- The whole conversation of challenges: a contact that holds both its keys convinces the manager.
use orpal.Base.{String, true, false, List, [], ◌∷◌, some, ◌≡◌, refl, ◌∙◌, eq_refl}
use orpal.Dict
use orpal.Dict.Laws.{get-set}
use orpal.Frames.{Target, old, new}
use orpal.Keys.{Bytes, Orp}
use orpal.MigrationManager.{Manager, PendingMigration, ChallengeSet}
use orpal.MigrationManager.Incoming.{find_pending}
use orpal.MigrationManager.Challenges.{
  Randomness, OutboundChallenge, create_challenges, created, challenge_set, challenges_for,
  outbound, verify_challenge_response, open_echo, record_verified, mark, nonce, ack_priv, ack_pub,
  Verdict, rejected_response, answering, open_nonce, seal_echo, answer_challenge, answer, no_answer,
  answer_throws, nothing_pending, throws,
}

module _ (orp : Orp) where
  open orp use {
    Identity, seal, unseal, b64u_encode, b64u_decode, bytes_equal, transport_private, transport_pub,
  }

  -- The contact, with its identity, answers a challenge, and the manager checks the response.
  unfoldable pub reply :
      (randomness : Bytes)
      → (current : Identity) → (contact : Manager Identity) → (contact_key : String)
      → OutboundChallenge
      → Manager Identity
      → Verdict × Manager Identity
  reply randomness current contact contact_key c m =
      elim (answer_challenge orp randomness current c.target c.sealed_nonce c.ack_pubkey contact) [
        | no_answer ↦ (rejected_response, m)
        | answer_throws ↦ (rejected_response, m)
        | answer echo ↦ verify_challenge_response orp contact_key c.target echo m
      ]

  unfoldable pub replies :
      (randomness : Bytes)
      → (current : Identity) → (contact : Manager Identity) → (contact_key : String)
      → List OutboundChallenge
      → Verdict
      → Manager Identity
      → Verdict × Manager Identity
  unfolding reply
  replies randomness current contact contact_key [] verdict m = (verdict, m)
  replies randomness current contact contact_key (c ∷ cs) verdict m =
      let next = reply randomness current contact contact_key c m in
      replies randomness current contact contact_key cs next.0 next.1

  -- The manager makes the challenges, and the contact answers them in their order.
  unfoldable pub conversation :
      Randomness
      → (randomness : Bytes) → (current : Identity) → (contact : Manager Identity)
      → (contact_key old_transport_key : String) → Manager Identity
      → Verdict × Manager Identity
  unfolding replies
  conversation r randomness current contact contact_key old_transport_key m =
      let (made, waiting) = create_challenges orp r contact_key old_transport_key m in
      elim made [
        | nothing_pending ↦ (rejected_response, waiting)
        | throws ↦ (rejected_response, waiting)
        | created challenges ↦
            replies randomness current contact contact_key challenges rejected_response waiting
      ]

  -- What is sealed to the one key opens with the other.
  abbrev pub Opens : (pub_key priv_key : Bytes) → Type 0
  Opens pub_key priv_key =
      (text randomness : Bytes)
      → (box : Bytes) × (seal text pub_key randomness ≡ some box)
        × (unseal box priv_key pub_key ≡ some text)

  module _ (encoding : (b : Bytes) → b64u_decode (b64u_encode b) ≡ some b)
      (equal : (b : Bytes) → bytes_equal b b ≡ true) where
    -- A challenge that is sealed to a key of the one who answers is answered by its nonce.
    answer-nonce :
        (target : Target) (current identity : Identity) (contact : Manager Identity)
        (nonce box ack echo randomness : Bytes)
        → answering orp target current contact ≡ some identity
        → unseal box (transport_private identity) (transport_pub identity) ≡ some nonce
        → seal nonce ack randomness ≡ some echo
        → answer_challenge orp randomness current target (b64u_encode box) (b64u_encode ack) contact
          ≡ answer (b64u_encode echo)
    unfolding answer_challenge open_nonce seal_echo
    answer-nonce target current identity contact nonce box ack echo randomness who opens sealed =
        rw (answer_challenge, open_nonce, who, encoding box, opens, encoding ack, sealed, seal_echo)
          refl

    -- The nonce that comes back is accepted.
    verify-nonce :
        (key : String) (target : Target) (cs : ChallengeSet) (box : Bytes) (m : Manager Identity)
        → Dict.get key m.pending_challenges ≡ some cs
        → unseal box (ack_priv target cs) (ack_pub target cs) ≡ some (nonce target cs)
        → verify_challenge_response orp key target (b64u_encode box) m
          ≡ record_verified orp key (mark target cs) m
    unfolding verify_challenge_response open_echo
    verify-nonce key target cs box m found opens =
        rw
          (
            verify_challenge_response,
            found,
            open_echo,
            encoding box,
            opens,
            equal (nonce target cs),
          )
          refl

    module _ (r : Randomness) (randomness : Bytes) (current new_id : Identity)
        (contact m : Manager Identity) (key : String) (p : PendingMigration)
        (pending : find_pending key m.pending_incoming ≡ some p)
        (migrating : contact.new_identity ≡ some new_id)
        (announced : p.migration.new_transport_key ≡ b64u_encode (transport_pub new_id))
        (old_key : Opens (transport_pub current) (transport_private current))
        (new_key : Opens (transport_pub new_id) (transport_private new_id))
        (old_ack : Opens r.old_ack_pub r.old_ack_priv)
        (new_ack : Opens r.new_ack_pub r.new_ack_priv) where
      old_box : Bytes
      old_box = (old_key r.old_nonce r.old_box).0

      new_box : Bytes
      new_box = (new_key r.new_nonce r.new_box).0

      sent : List OutboundChallenge
      sent =
          record {
            target = old;
            sealed_nonce = b64u_encode old_box;
            ack_pubkey = b64u_encode r.old_ack_pub;
          }
          ∷ record {
            target = new;
            sealed_nonce = b64u_encode new_box;
            ack_pubkey = b64u_encode r.new_ack_pub;
          }
          ∷ []

      waiting : Manager Identity
      waiting = record m {
        pending_challenges = Dict.set key (challenge_set orp r p.migration) m.pending_challenges;
      }

      challenges_made :
          challenges_for orp r (b64u_encode (transport_pub current)) p.migration ≡ some sent
      unfolding challenges_for outbound sent old_box new_box
      challenges_made =
          rw
            (
              announced,
              encoding (transport_pub current),
              encoding (transport_pub new_id),
              outbound,
              (old_key r.old_nonce r.old_box).1,
              (new_key r.new_nonce r.new_box).1,
            )
            refl

      created_sent :
          create_challenges orp r key (b64u_encode (transport_pub current)) m
          ≡ (created sent, waiting)
      unfolding create_challenges waiting
      created_sent = rw (create_challenges, pending, challenges_made) refl

      halfway : Manager Identity
      halfway = record waiting {
        pending_challenges =
            Dict.set key (mark old (challenge_set orp r p.migration)) waiting.pending_challenges;
      }

      old_replied :
          reply randomness current contact key
            (record {
              target = old;
              sealed_nonce = b64u_encode old_box;
              ack_pubkey = b64u_encode r.old_ack_pub;
            })
            waiting
          ≡ (record { both_verified = false; valid = true }, halfway)
      unfolding reply old_box waiting halfway challenge_set record_verified
      old_replied =
          let (echo, sealed, opens) = old_ack r.old_nonce randomness in
          rw
            (
              reply,
              answer-nonce old current current contact r.old_nonce old_box r.old_ack_pub echo
                  randomness (unfold answering in refl) ((old_key r.old_nonce r.old_box).2) sealed,
              verify-nonce key old (challenge_set orp r p.migration) echo waiting
                  (get-set key key _ m.pending_challenges ∙ rw (eq_refl key) refl) opens,
            )
            refl

      new_replied :
          reply randomness current contact key
            (record {
              target = new;
              sealed_nonce = b64u_encode new_box;
              ack_pubkey = b64u_encode r.new_ack_pub;
            })
            halfway
          ≡ (
            record { both_verified = true; valid = true },
            record halfway { pending_challenges = Dict.delete key halfway.pending_challenges },
          )
      unfolding reply new_box waiting halfway challenge_set record_verified
      new_replied =
          let (echo, sealed, opens) = new_ack r.new_nonce randomness in
          rw
            (
              reply,
              answer-nonce new current new_id contact r.new_nonce new_box r.new_ack_pub echo
                  randomness (unfold answering in migrating) ((new_key r.new_nonce r.new_box).2)
                  sealed,
              verify-nonce key new (mark old (challenge_set orp r p.migration)) echo halfway
                  (get-set key key _ waiting.pending_challenges ∙ rw (eq_refl key) refl) opens,
            )
            refl

      -- A contact that holds its old key and the new one that its pending migration announces answers both
      -- challenges, and the manager gives the verdict that both are verified. What is sealed to one of the
      -- contact's keys, or to one of the keys drawn for the answers, opens with that key's other half; the
      -- text of bytes decodes to them; and equal bytes are found equal.
      pub conversation-both_verified :
          (conversation r randomness current contact key (b64u_encode (transport_pub current)) m).0
          ≡ record { both_verified = true; valid = true }
      unfolding conversation sent
      conversation-both_verified =
          rw (conversation, created_sent)
            (rw (created_sent) (rw (replies, old_replied, new_replied) refl))
