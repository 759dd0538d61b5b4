-- ===== src/MigrationManager/Verified.antt =====
-- What a contact's migration has to be for the manager to keep it, and to accept it.
use mathlib.Core.Option.{some-injective, none-ne-some}
use orpal.Base.{
  subst, String, List, [], ◌∷◌, ◌++◌, some, ◌==◌, ◌≡◌, refl, ◌∙◌, sym, inl, inr, Bool-cases,
  Option-cases, arith, eq_of_test, All,
}
use orpal.Json.{Json}
use orpal.Frames.{Target}
use orpal.Keys.{KeyMigration, verified, Orp}
use orpal.MigrationManager.{Manager, PendingMigration}
use orpal.MigrationManager.Incoming.{
  accepted_of, Accepted, handle_incoming_migration, enqueue_incoming, accept_incoming_migration,
  decline_incoming_migration, find_pending, remove_pending, is_pending,
}
use orpal.MigrationManager.Challenges.{Randomness, create_challenges, verify_challenge_response}
use orpal.MigrationManager.Calls.{
  find_pending_head, find_pending_tail, Checked-cases, Call, arrives, challenges, responds, accepts,
  declines, call, run, accepted_found, accepted_absent,
}

module _ (orp : Orp) where
  open orp use {Identity, verify_key_migration, bytes_equal}

  -- A record verifies, and its old key is the contact's.
  abbrev pub IsGenuine : PendingMigration → Type 0
  IsGenuine p =
      (document : Json) × (verify_key_migration document ≡ verified p.migration)
      × (p.migration.old_key ≡ p.contact_key)

  All-append :
      (ps : List PendingMigration) (p : PendingMigration)
      → All IsGenuine ps
      → IsGenuine p
      → All IsGenuine (ps ++ (p ∷ []))
  All-append [] p h g = (g, tt)
  All-append (q ∷ ps) p h g = (h.0, All-append ps p h.1 g)

  All-remove_pending :
      (key : String) (ps : List PendingMigration)
      → All IsGenuine ps
      → All IsGenuine (remove_pending key ps)
  unfolding remove_pending
  All-remove_pending key [] h = tt
  All-remove_pending key (p ∷ ps) h = elim (Bool-cases (p.contact_key == key)) [
    | inl same ↦ rw (same, remove_pending) h.1
    | inr apart ↦ rw (apart, remove_pending) (h.0, All-remove_pending key ps h.1)
  ]

  find_pending-IsGenuine :
      (key : String) (ps : List PendingMigration) (p : PendingMigration)
      → All IsGenuine ps
      → find_pending key ps ≡ some p
      → IsGenuine p × (p.contact_key ≡ key)
  find_pending-IsGenuine key [] p h e = unfold find_pending in absurd (none-ne-some p e)
  find_pending-IsGenuine key (q ∷ ps) p h e = elim (Bool-cases (q.contact_key == key)) [
    | inl same ↦
        subst (λ x. IsGenuine x × (x.contact_key ≡ key))
          (some-injective q p (sym (find_pending_head key q ps same) ∙ e))
          (h.0, eq_of_test q.contact_key key same)
    | inr apart ↦ find_pending-IsGenuine key ps p h.1 (sym (find_pending_tail key q ps apart) ∙ e)
  ]

  enqueue-IsGenuine :
      (document : Json) (key name : String) (migration : KeyMigration) (m : Manager Identity)
      → verify_key_migration document ≡ verified migration
      → migration.old_key ≡ key
      → All IsGenuine m.pending_incoming
      → All IsGenuine (enqueue_incoming orp key name migration m).pending_incoming
  unfolding enqueue_incoming
  enqueue-IsGenuine document key name migration m v o h =
      elim (Bool-cases (is_pending key migration m.pending_incoming)) [
        | inl already ↦ rw (already) h
        | inr first ↦ rw (first) (All-append m.pending_incoming _ h (document, v, o))
      ]

  arrives-IsGenuine :
      (document : Json) (key name : String) (m : Manager Identity)
      → All IsGenuine m.pending_incoming
      → All IsGenuine (handle_incoming_migration orp document key name m).1.pending_incoming
  unfolding handle_incoming_migration
  arrives-IsGenuine document key name m h = elim (Checked-cases (verify_key_migration document)) [
    | inl (reason, bad) ↦ rw (bad, handle_incoming_migration) h
    | inr (migration, good) ↦ elim (Bool-cases (migration.old_key == key)) [
      | inl own ↦
          rw (good, own, handle_incoming_migration)
            (enqueue-IsGenuine document key name migration m good (eq_of_test _ _ own) h)
      | inr other ↦ rw (good, other, handle_incoming_migration) h
    ]
  ]

  accepts-IsGenuine :
      (key : String) (m : Manager Identity)
      → All IsGenuine m.pending_incoming
      → All IsGenuine (accept_incoming_migration orp key m).1.pending_incoming
  unfolding accept_incoming_migration
  accepts-IsGenuine key m h = elim (Option-cases (find_pending key m.pending_incoming)) [
    | inl absent ↦ rw (absent, accept_incoming_migration) h
    | inr (p, found) ↦
        rw (found, accept_incoming_migration) (All-remove_pending key m.pending_incoming h)
  ]

  challenges-kept :
      (r : Randomness) (key old_key : String) (m : Manager Identity)
      → (create_challenges orp r key old_key m).1.pending_incoming ≡ m.pending_incoming
  unfolding create_challenges
  challenges-kept r key old_key m = ground arith

  responds-kept :
      (key : String) (target : Target) (echo : String) (m : Manager Identity)
      → (verify_challenge_response orp key target echo m).1.pending_incoming ≡ m.pending_incoming
  unfolding verify_challenge_response
  responds-kept key target echo m = ground arith

  call-IsGenuine :
      (c : Call) (m : Manager Identity)
      → All IsGenuine m.pending_incoming
      → All IsGenuine (call orp c m).pending_incoming
  unfolding call
  call-IsGenuine (arrives document key name) m h = arrives-IsGenuine document key name m h
  call-IsGenuine (challenges r key old_key) m h = rw (challenges-kept r key old_key m) h
  call-IsGenuine (responds key target echo) m h = rw (responds-kept key target echo m) h
  call-IsGenuine (accepts key) m h = accepts-IsGenuine key m h
  call-IsGenuine (declines key) m h =
      unfold decline_incoming_migration in All-remove_pending key m.pending_incoming h

  run-IsGenuine :
      (cs : List Call) (m : Manager Identity)
      → All IsGenuine m.pending_incoming
      → All IsGenuine (run orp cs m).pending_incoming
  unfolding run
  run-IsGenuine [] m h = h
  run-IsGenuine (c ∷ cs) m h = run-IsGenuine cs (call orp c m) (call-IsGenuine c m h)

  abbrev Follows : String → Accepted → Type 0
  Follows key a =
      ((document : Json) × (verify_key_migration document ≡ verified a.migration)
        × (a.migration.old_key ≡ key))
      × (a.identity_key ≡ a.migration.new_key)
      × (a.transport_key ≡ a.migration.new_transport_key)
      × (a.binding ≡ a.migration.new_binding)

  accepted-Follows :
      (key : String) (p : PendingMigration)
      → IsGenuine p × (p.contact_key ≡ key)
      → Follows key (accepted_of p)
  accepted-Follows key p ((document, v, o), k) = ((document, v, o ∙ k), refl, refl, refl)

  -- After any calls of a manager with nothing pending, what is accepted for a contact is a migration of a
  -- record that verified and whose old key is the contact's, and the contact gets its new key and binding.
  pub accept-verified :
      (cs : List Call) (m : Manager Identity) (key : String) (a : Accepted)
      → m.pending_incoming ≡ []
      → (accept_incoming_migration orp key (run orp cs m)).0 ≡ some a
      → ((document : Json) × (verify_key_migration document ≡ verified a.migration)
          × (a.migration.old_key ≡ key))
        × (a.identity_key ≡ a.migration.new_key)
        × (a.transport_key ≡ a.migration.new_transport_key)
        × (a.binding ≡ a.migration.new_binding)
  accept-verified cs m key a empty e =
      let after = run orp cs m in
      let genuine = run-IsGenuine cs m (rw empty tt) in
      elim (Option-cases (find_pending key after.pending_incoming)) [
        | inl absent ↦ absurd (none-ne-some a (sym (accepted_absent orp key after absent) ∙ e))
        | inr (p, found) ↦
            subst (Follows key)
              (some-injective (accepted_of p) a (sym (accepted_found orp key after p found) ∙ e))
              (accepted-Follows key p
                (find_pending-IsGenuine key after.pending_incoming p genuine found))
      ]
