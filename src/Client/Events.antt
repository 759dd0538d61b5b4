-- ===== src/Client/Events.antt =====
-- The client through a sequence of calls on its contacts and of texts that come in from peers.
pub mod Mirrored
pub mod Calls
pub mod Requests
pub mod Accepted
use orpal.Base.{ℕ, String, Bool, List, [], ◌∷◌, Option}
use orpal.Json.{Json}
use orpal.Keys.{Orp, Bytes}
use orpal.Client.{Outside, Client}
use orpal.Client.Contacts.Calls.{ContactCall, call}
use orpal.Client.Incoming.{Moment, handle_incoming_frame}

pub data ClientEvent : Type 0 where
  called : ContactCall → ClientEvent
  received : (contact_key input : String) → Moment → ClientEvent

module _ (orp : Orp) (out : Outside) where
  unfoldable pub happens : ClientEvent → Client orp → Client orp
  happens (called f) c = call orp out f c
  happens (received key input t) c = handle_incoming_frame orp out key input t c

  unfoldable pub run : List ClientEvent → Client orp → Client orp
  unfolding happens
  run [] c = c
  run (e ∷ events) c = run events (happens e c)
