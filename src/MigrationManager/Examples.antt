-- ===== src/MigrationManager/Examples.antt =====
-- Two devices over a toy library: device 3 migrates to the keys of 5.
use orpal.Base.KeySet.{contains}
use orpal.Base.{String, true, false, List, [], ◌∷◌, ◌++◌, none, some, ◌≡◌, refl}
use orpal.Dict
use orpal.Json.{lookup, Json, text}
use orpal.Frames.{old, new}
use orpal.Keys.{StoredKeys, verified}
use orpal.Keys.Toy.{
  read_ack, first_byte, keys_of, same_bytes, strip, strokes, read_migration, toy, encode,
  decode_from, decode-encode, strip-append, same_bytes_refl, migration_of, two_keys,
}
use orpal.MigrationManager.{
  start_migration, mark_notified, handle_migration_ack, Manager, ChallengeSet, new_manager, active,
  retire, MigrationState,
}
use orpal.MigrationManager.Challenges.{create_challenges, challenges_for}
use orpal.MigrationManager.Incoming.{
  decline_incoming_migration, handle_incoming_migration, handle_incoming_migration, find_pending,
  Accepted, accept_incoming_migration,
}
use orpal.MigrationManager.Challenges.{create_challenges, Randomness, verify_challenge_response}
use orpal.MigrationManager.Calls.{Call, arrives, challenges, responds, declines, call, run}
use orpal.MigrationManager.Verified.{accept-verified}
use orpal.MigrationManager.Challenged.{both_verified-accepts}
use orpal.MigrationManager.Answers.{conversation, conversation-both_verified}
use orpal.MigrationManager.Stored.{initiate, Initiator, starts, notified, acked, initiate_all}
use orpal.MigrationManager.Restart.{restarted, restarted-state, retire-announced}

abbrev key_3 : String
key_3 = encode (3 ∷ [])

abbrev key_5 : String
key_5 = encode (5 ∷ [])

abbrev key_9 : String
key_9 = encode (9 ∷ [])

abbrev keys_5 : StoredKeys
keys_5 = record { signing_priv = key_5; transport_priv = key_5; created_utc = "now" }

abbrev quiet : Manager (toy.Identity)
quiet = new_manager toy none none none

abbrev drawn : Randomness
drawn = record {
  old_nonce = 1 ∷ [];
  new_nonce = 2 ∷ [];
  old_ack_priv = 10 ∷ [];
  old_ack_pub = 10 ∷ [];
  new_ack_priv = 11 ∷ [];
  new_ack_pub = 11 ∷ [];
  old_box = [];
  new_box = [];
}

abbrev arrived : List Call
arrived = arrives (two_keys key_3 key_5) key_3 "Carol" ∷ []

accepted :
    (accept_incoming_migration toy key_3 (run toy arrived quiet)).0
    ≡ some (record {
      migration = migration_of key_3 key_5;
      identity_key = key_5;
      transport_key = key_5;
      binding = text key_5;
    })
unfolding accept_incoming_migration run call handle_incoming_migration read_migration lookup encode
    strokes new_manager
accepted = refl

accept-verified_example :
    ((document : Json) × (toy.verify_key_migration document ≡ verified (migration_of key_3 key_5))
      × (key_3 ≡ key_3))
    × (key_5 ≡ key_5)
    × (key_5 ≡ key_5)
    × (text key_5 ≡ text key_5)
unfolding new_manager
accept-verified_example = accept-verified toy arrived quiet key_3 _ refl accepted

abbrev half : List Call
half = arrived ++ (challenges drawn key_3 key_3 ∷ responds key_3 old (encode (10 ∷ 1 ∷ [])) ∷ [])

both :
    (verify_challenge_response toy key_3 new
      (encode (11 ∷ 2 ∷ []))
      (run toy half quiet)).0.both_verified
    ≡ true
unfolding verify_challenge_response Dict.get run call create_challenges handle_incoming_migration
    read_migration lookup encode strokes new_manager decode_from Dict.set strip same_bytes
both = refl

both_verified-accepts_example :
    (c : ChallengeSet) × (a : Accepted) × (Dict.get key_3 (run toy half quiet).pending_challenges
      ≡ some c)
    × ((accept_incoming_migration toy key_3
          (verify_challenge_response toy key_3 new (encode (11 ∷ 2 ∷ [])) (run toy half quiet)).1).0
        ≡ some a)
    × (a.migration ≡ c.migration)
unfolding new_manager
both_verified-accepts_example =
    both_verified-accepts toy half quiet key_3 new (encode (11 ∷ 2 ∷ [])) refl (tt, (tt, (tt, tt)))
      both

-- A second migration comes in after the challenges of the first, and the user declines the first: the
-- challenges are still open, and once they are answered the second is accepted, which none was made for.
abbrev declined : List Call
declined =
    half
    ++ (arrives (two_keys key_3 key_9) key_3 "Carol"
        ∷ declines key_3
        ∷ responds key_3 new (encode (11 ∷ 2 ∷ []))
        ∷ [])

accepts_unchallenged :
    (accept_incoming_migration toy key_3 (run toy declined quiet)).0
    ≡ some (record {
      migration = migration_of key_3 key_9;
      identity_key = key_9;
      transport_key = key_9;
      binding = text key_9;
    })
unfolding accept_incoming_migration run call verify_challenge_response decline_incoming_migration
    handle_incoming_migration create_challenges challenges_for read_migration lookup encode strokes
    decode_from new_manager same_bytes strip Dict.get Dict.set Dict.delete
accepts_unchallenged = refl

conversation-both_verified_example :
    (conversation toy drawn [] 3
      (record quiet { new_identity = some 5 })
      key_3
      (encode (3 ∷ []))
      (run toy arrived quiet)).0
    ≡ record { both_verified = true; valid = true }
unfolding find_pending run call handle_incoming_migration read_migration lookup encode strokes
    new_manager
conversation-both_verified_example =
    conversation-both_verified toy decode-encode same_bytes_refl drawn [] 3 5
      (record quiet { new_identity = some 5 }) (run toy arrived quiet) key_3
      (record { contact_key = key_3; contact_name = "Carol"; migration = migration_of key_3 key_5 })
      refl refl refl (λ t r. (3 ∷ t, refl, strip-append (3 ∷ []) t))
      (λ t r. (5 ∷ t, refl, strip-append (5 ∷ []) t))
      (λ t r. (10 ∷ t, refl, strip-append (10 ∷ []) t))
      (λ t r. (11 ∷ t, refl, strip-append (11 ∷ []) t))

abbrev moving : List (Initiator toy)
moving = starts 3 [] "later" "now" keys_5 ∷ notified ∷ acked (two_keys key_3 key_5) "dave" ∷ []

busy : active toy (initiate_all toy moving quiet) ≡ true
unfolding active initiate_all initiate handle_migration_ack mark_notified start_migration
    new_manager keys_of decode_from encode strokes first_byte read_ack lookup contains
busy = refl

restarted-state_example :
    ((restarted toy (initiate_all toy moving quiet)).state ≡ (initiate_all toy moving quiet).state)
    × ((restarted toy (initiate_all toy moving quiet)).new_identity
        ≡ (initiate_all toy moving quiet).new_identity)
unfolding active new_manager
restarted-state_example = restarted-state toy moving quiet refl busy

retire-announced_example :
    let before = initiate_all toy moving quiet in
    let after = retire toy before in
    (st : MigrationState) × (keys : StoredKeys) × (identity : toy.Identity) × (before.state
      ≡ some st)
    × (after.key_store ≡ some keys)
    × (toy.from_private_keys keys ≡ some identity)
    × (toy.identity_key identity ≡ st.new_identity_key)
    × (after.pending_key_store ≡ none)
    × (after.migration_store ≡ none)
    × (active toy after ≡ false)
unfolding active new_manager
retire-announced_example = retire-announced toy moving quiet refl busy
