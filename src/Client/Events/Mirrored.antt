-- ===== src/Client/Events/Mirrored.antt =====
-- The registry and the store through calls and texts.
use orpal.Base.{String, List, [], ◌∷◌, ◌==◌, inl, inr, Option-cases}
use orpal.Contacts.{ContactCard}
use orpal.ConversationStore.{get_contact}
use orpal.Keys.{Orp}
use orpal.MigrationManager.Incoming.{Accepted}
use orpal.Client.{Outside, Client}
use orpal.Client.Contacts.Mirror.{IsMirror, register-IsMirror}
use orpal.Client.Contacts.Calls.{call-HasMirror}
use orpal.Client.Incoming.{on_card, is_news}
use orpal.Client.Migration.{replace_contact, with_keys_of}
use orpal.Client.Untouched.{Same}
use orpal.Client.Untouched.Accepting.{kept_if}
use orpal.Client.Untouched.Handled.{handle-kept}
use orpal.Client.Events.{ClientEvent, called, received, happens, run}

module _ (orp : Orp) (out : Outside) where
  abbrev pub Mirrors : Client orp → Type 0
  Mirrors c = IsMirror c.store c.contacts

  along-Mirrors : (c d : Client orp) → Same orp c d → Mirrors c → Mirrors d
  unfolding get_contact
  along-Mirrors c d s m = record {
    mirrors = λ key. rw (s.0.stored, s.0.registered) (m.mirrors key);
    keyed = λ key contact. rw (s.0.stored) (m.keyed key contact);
  }

  replaced-Mirrors :
      (key : String) (a : Accepted) (c : Client orp)
      → Mirrors c
      → Mirrors (replace_contact orp key a c)
  unfolding replace_contact
  replaced-Mirrors key a c m = elim (Option-cases (get_contact key c.store)) [
    | inl missing ↦ rw (replace_contact, missing) m
    | inr (old, found) ↦
        rw (replace_contact, found)
          (kept_if Mirrors (a.identity_key == "") m
            (register-IsMirror c.store c.contacts m (with_keys_of a old)))
  ]

  requested-Mirrors :
      (key card : String) (parsed : ContactCard) (c : Client orp)
      → Mirrors c
      → Mirrors (on_card orp out key card parsed c)
  unfolding on_card
  requested-Mirrors key card parsed c m =
      kept_if Mirrors (is_news orp out key parsed.identity_key c) m m

  happens-Mirrors : (e : ClientEvent) (c : Client orp) → Mirrors c → Mirrors (happens orp out e c)
  unfolding happens
  happens-Mirrors (called f) c m = call-HasMirror orp out f c m
  happens-Mirrors (received key input t) c m =
      handle-kept orp out Mirrors along-Mirrors replaced-Mirrors
        (λ k card parsed d good. requested-Mirrors k card parsed d) key input t c m

  -- If the registry mirrors the contacts in the store (it has the same keys, and of each contact the
  -- store's transport key, boards, relay and migration settings), it still does after any calls on the
  -- contacts and any texts that come in, contacts' key migrations included.
  pub run-Mirrors :
      (events : List ClientEvent) (c : Client orp) → Mirrors c → Mirrors (run orp out events c)
  unfolding run
  run-Mirrors [] c m = m
  run-Mirrors (e ∷ events) c m = run-Mirrors events _ (happens-Mirrors e c m)
