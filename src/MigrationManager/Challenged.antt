-- ===== src/MigrationManager/Challenged.antt =====
-- What a set of challenges stands for: the migration that is accepted once both are answered.
use mathlib.Core.Option.{some-injective, none-ne-some}
use orpal.Base.{
  subst, String, true, List, [], ◌∷◌, ◌++◌, some, ◌==◌, ◌&&◌, ◌≡◌, refl, ◌∙◌, ap, sym, inl, inr,
  Bool-cases, Option-cases, arith, eq_of_test,
}
use orpal.Dict
use orpal.Dict.{Dict}
use orpal.Dict.Laws.{get-set, get-delete}
use orpal.Json.{Json}
use orpal.Frames.{Target, old, new}
use orpal.Keys.{KeyMigration, Orp}
use orpal.MigrationManager.{Manager, PendingMigration, ChallengeSet}
use orpal.MigrationManager.Incoming.{
  Accepted, handle_incoming_migration, enqueue_incoming, accept_incoming_migration, find_pending,
  is_pending, accepted_of,
}
use orpal.MigrationManager.Challenges.{
  Randomness, create_challenges, verify_challenge_response, record_verified, mark, open_echo,
  challenges_for, challenge_set, nonce,
}
use orpal.MigrationManager.Calls.{
  find_pending_head, find_pending_tail, Checked-cases, accepted_found, Call, arrives, challenges,
  responds, accepts, declines, call, run,
}

-- A call by which no pending migration is taken away.
abbrev pub KeepsPending : Call → Type 0
KeepsPending (accepts key) = ⊥
KeepsPending (declines key) = ⊥
KeepsPending (arrives document key name) = Unit
KeepsPending (challenges r key old_key) = Unit
KeepsPending (responds key target echo) = Unit

abbrev pub AllKeep : List Call → Type 0
AllKeep [] = Unit
AllKeep (c ∷ cs) = KeepsPending c × AllKeep cs

find_pending-append :
    (key : String) (ps qs : List PendingMigration) (p : PendingMigration)
    → find_pending key ps ≡ some p
    → find_pending key (ps ++ qs) ≡ some p
find_pending-append key [] qs p h = unfold find_pending in absurd (none-ne-some p h)
find_pending-append key (q ∷ ps) qs p h = elim (Bool-cases (q.contact_key == key)) [
  | inl same ↦ find_pending_head key q (ps ++ qs) same ∙ sym (find_pending_head key q ps same) ∙ h
  | inr apart ↦
      find_pending_tail key q (ps ++ qs) apart
      ∙ find_pending-append key ps qs p (sym (find_pending_tail key q ps apart) ∙ h)
]

module _ (orp : Orp) where
  open orp use {Identity, verify_key_migration, bytes_equal}

  -- Each set of challenges is about the migration of its contact that comes first.
  abbrev pub IsAligned : Manager Identity → Type 0
  IsAligned m =
      (key : String) (cs : ChallengeSet)
      → Dict.get key m.pending_challenges ≡ some cs
      → (p : PendingMigration) × (find_pending key m.pending_incoming ≡ some p)
        × (p.migration ≡ cs.migration)

  enqueue-IsAligned :
      (key name : String) (migration : KeyMigration) (m : Manager Identity)
      → IsAligned m
      → IsAligned (enqueue_incoming orp key name migration m)
  unfolding enqueue_incoming
  enqueue-IsAligned key name migration m h =
      elim (Bool-cases (is_pending key migration m.pending_incoming)) [
        | inl already ↦ rw (already) h
        | inr first ↦ rw (first) (λ k cs e.
            let (p, found, same) = h k cs e in
            (p, find_pending-append k m.pending_incoming _ p found, same))
      ]

  arrives-IsAligned :
      (document : Json) (key name : String) (m : Manager Identity)
      → IsAligned m
      → IsAligned (handle_incoming_migration orp document key name m).1
  unfolding handle_incoming_migration
  arrives-IsAligned document key name m h = elim (Checked-cases (verify_key_migration document)) [
    | inl (reason, bad) ↦ rw (bad, handle_incoming_migration) h
    | inr (migration, good) ↦ elim (Bool-cases (migration.old_key == key)) [
      | inl own ↦
          rw (good, own, handle_incoming_migration) (enqueue-IsAligned key name migration m h)
      | inr other ↦ rw (good, other, handle_incoming_migration) h
    ]
  ]

  -- A set of challenges that takes the place of the contact's.
  set-IsAligned :
      (key : String) (cs : ChallengeSet) (p : PendingMigration) (m : Manager Identity)
      → IsAligned m
      → find_pending key m.pending_incoming ≡ some p
      → p.migration ≡ cs.migration
      → IsAligned (record m { pending_challenges = Dict.set key cs m.pending_challenges })
  set-IsAligned key cs p m h found same k ds e = elim (Bool-cases (key == k)) [
    | inl this ↦
        let placed : Dict.get k (Dict.set key cs m.pending_challenges) ≡ some cs =
          get-set key k cs m.pending_challenges ∙ rw (this) refl in
        let eq = some-injective cs ds (sym placed ∙ e) in
        (
          p,
          subst (λ j. find_pending j m.pending_incoming ≡ some p) (eq_of_test key k this) found,
          same ∙ ap (λ d. d.migration) eq,
        )
    | inr apart ↦
        let placed : Dict.get k (Dict.set key cs m.pending_challenges)
            ≡ Dict.get k m.pending_challenges =
          get-set key k cs m.pending_challenges ∙ rw (apart) refl in
        h k ds (sym placed ∙ e)
  ]

  delete-IsAligned :
      (key : String) (m : Manager Identity)
      → IsAligned m
      → IsAligned (record m { pending_challenges = Dict.delete key m.pending_challenges })
  delete-IsAligned key m h k ds e = elim (Bool-cases (key == k)) [
    | inl this ↦
        absurd (none-ne-some ds (sym (get-delete key k m.pending_challenges ∙ rw (this) refl) ∙ e))
    | inr apart ↦ h k ds (sym (get-delete key k m.pending_challenges ∙ rw (apart) refl) ∙ e)
  ]

  challenges-IsAligned :
      (r : Randomness) (key old_key : String) (m : Manager Identity)
      → IsAligned m
      → IsAligned (create_challenges orp r key old_key m).1
  unfolding create_challenges
  challenges-IsAligned r key old_key m h =
      elim (Option-cases (find_pending key m.pending_incoming)) [
        | inl absent ↦ rw (absent, create_challenges) h
        | inr (p, found) ↦ elim (Option-cases (challenges_for orp r old_key p.migration)) [
          | inl bad ↦ rw (found, bad, create_challenges) h
          | inr (out, good) ↦
              rw (found, good, create_challenges)
                (set-IsAligned key (challenge_set orp r p.migration) p m h found
                  (unfold challenge_set in refl))
        ]
      ]

  mark_migration : (target : Target) (cs : ChallengeSet) → (mark target cs).migration ≡ cs.migration
  mark_migration old cs = refl
  mark_migration new cs = refl

  record_verified-IsAligned :
      (key : String) (target : Target) (cs : ChallengeSet) (m : Manager Identity)
      → IsAligned m
      → Dict.get key m.pending_challenges ≡ some cs
      → IsAligned (record_verified orp key (mark target cs) m).1
  unfolding record_verified
  record_verified-IsAligned key target cs m h e =
      elim (Bool-cases ((mark target cs).old_verified && (mark target cs).new_verified)) [
        | inl both ↦ rw (both) (delete-IsAligned key m h)
        | inr one ↦ rw (one) (
            let (p, found, same) = h key cs e in
            set-IsAligned key (mark target cs) p m h found (same ∙ sym (mark_migration target cs)))
      ]

  responds-IsAligned :
      (key : String) (target : Target) (echo : String) (m : Manager Identity)
      → IsAligned m
      → IsAligned (verify_challenge_response orp key target echo m).1
  unfolding verify_challenge_response
  responds-IsAligned key target echo m h = elim (Option-cases (Dict.get key m.pending_challenges)) [
    | inl absent ↦ rw (absent, verify_challenge_response) h
    | inr (cs, found) ↦ elim (Option-cases (open_echo orp target echo cs)) [
      | inl shut ↦ rw (found, shut, verify_challenge_response) h
      | inr (opened, good) ↦ elim (Bool-cases (bytes_equal opened (nonce target cs))) [
        | inl right ↦
            rw (found, good, right, verify_challenge_response)
              (record_verified-IsAligned key target cs m h found)
        | inr wrong ↦ rw (found, good, wrong, verify_challenge_response) h
      ]
    ]
  ]

  run-IsAligned :
      (cs : List Call) (m : Manager Identity) → AllKeep cs → IsAligned m → IsAligned (run orp cs m)
  unfolding run call
  run-IsAligned [] m k h = h
  run-IsAligned (arrives document key name ∷ cs) m k h =
      run-IsAligned cs _ k.1 (arrives-IsAligned document key name m h)
  run-IsAligned (challenges r key old_key ∷ cs) m k h =
      run-IsAligned cs _ k.1 (challenges-IsAligned r key old_key m h)
  run-IsAligned (responds key target echo ∷ cs) m k h =
      run-IsAligned cs _ k.1 (responds-IsAligned key target echo m h)
  run-IsAligned (accepts key ∷ cs) m k h = elim (k.0) [ ]
  run-IsAligned (declines key ∷ cs) m k h = elim (k.0) [ ]

  verified_alone :
      (key : String) (cs : ChallengeSet) (m : Manager Identity)
      → (record_verified orp key cs m).0.both_verified ≡ true
      → (record_verified orp key cs m).1.pending_incoming ≡ m.pending_incoming
  unfolding record_verified
  verified_alone key cs m h = ground arith

  -- What follows from the verdict that both challenges are answered.
  both_verified-challenged :
      (key : String) (target : Target) (echo : String) (m : Manager Identity)
      → (verify_challenge_response orp key target echo m).0.both_verified ≡ true
      → ((cs : ChallengeSet) × (Dict.get key m.pending_challenges ≡ some cs))
        × ((verify_challenge_response orp key target echo m).1.pending_incoming
            ≡ m.pending_incoming)
  unfolding verify_challenge_response record_verified
  both_verified-challenged key target echo m h =
      elim (Option-cases (Dict.get key m.pending_challenges)) [
        | inl absent ↦ cc (rw (absent, verify_challenge_response) at h)
        | inr (cs, found) ↦ ((cs, found), ground arith)
      ]

  -- After any calls by which no migration is accepted or declined, of a manager with no challenges: once
  -- both challenges of a contact are answered, accepting its migration gives the one that the challenges
  -- were made for.
  pub both_verified-accepts :
      (cs : List Call) (m : Manager Identity) (key : String) (target : Target) (echo : String)
      → m.pending_challenges ≡ []
      → AllKeep cs
      → (verify_challenge_response orp key target echo (run orp cs m)).0.both_verified ≡ true
      → (c : ChallengeSet) × (a : Accepted) × (Dict.get key (run orp cs m).pending_challenges
          ≡ some c)
        × ((accept_incoming_migration orp key
              (verify_challenge_response orp key target echo (run orp cs m)).1).0
            ≡ some a)
        × (a.migration ≡ c.migration)
  unfolding Dict.get
  both_verified-accepts cs m key target echo none_yet keeps h =
      let now = run orp cs m in
      let aligned =
        run-IsAligned cs m keeps (λ k d e. absurd (none-ne-some d (rw (none_yet) at e))) in
      let both = both_verified-challenged key target echo now h in
      let c = both.0.0 in
      let first = aligned key c (both.0.1) in
      (
        c,
        accepted_of first.0,
        both.0.1,
        accepted_found orp key _ first.0 (rw (both.1) (first.1)),
        first.2,
      )
