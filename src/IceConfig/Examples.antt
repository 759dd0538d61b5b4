-- ===== src/IceConfig/Examples.antt =====
-- A form with spaces round its addresses and an empty row.
use orpal.Base.{[], ◌∷◌, true, some, ◌≡◌, refl}
use orpal.Base.{none, Option}
use orpal.IceConfig.{
  IceServer, single, is_simple_after, add_servers, add_urls, add_url, urls_of, or_empty,
  turn_servers, Text, IceForm, is_stun_scheme, is_turn_scheme, validate_form, is_simple_config,
  form_to_ice_servers, ice_servers_to_form, not_stun, no_credential, trim, drop_start, drop_end,
  white, is_empty, is_letter, strip, starts_colon, optional_s, has_prefix, url_errors,
  credential_errors, turn_errors, stun_errors,
}
use orpal.IceConfig.RoundTrip.{form_to_ice_servers-round_trip, tidied}

-- " stun:a", in mixed case.
abbrev stun : Text
stun = 32 ∷ 83 ∷ 116 ∷ 117 ∷ 110 ∷ 58 ∷ 97 ∷ []

-- "turns:b "
abbrev turns : Text
turns = 116 ∷ 117 ∷ 114 ∷ 110 ∷ 115 ∷ 58 ∷ 98 ∷ 32 ∷ []

abbrev form : IceForm
form = record {
  stun_url = stun;
  turns =
      record { url = turns; username = 117 ∷ []; credential = 112 ∷ [] }
      ∷ record { url = 32 ∷ []; username = []; credential = [] }
      ∷ [];
}

abbrev mistaken : IceForm
mistaken = record {
  stun_url = turns;
  turns =
      record { url = turns; username = 32 ∷ []; credential = 112 ∷ [] }
      ∷ record { url = 32 ∷ []; username = []; credential = [] }
      ∷ [];
}

no_errors : validate_form form ≡ []
unfolding validate_form stun_errors turn_errors url_errors credential_errors is_stun_scheme
    is_turn_scheme has_prefix optional_s starts_colon strip is_letter is_empty trim drop_start
    drop_end white
no_errors = refl

errors : validate_form mistaken ≡ not_stun ∷ no_credential (some 1) ∷ []
unfolding validate_form stun_errors turn_errors url_errors credential_errors is_stun_scheme
    is_turn_scheme has_prefix optional_s starts_colon strip is_letter is_empty trim drop_start
    drop_end white
errors = refl

-- A STUN server with a user name, which the form does not show.
abbrev named_stun : Option Text → IceServer
named_stun username = record {
  urls = single (115 ∷ 116 ∷ 117 ∷ 110 ∷ 58 ∷ []);
  username = username;
  credential = none;
}

forgets_username :
    (is_simple_config (named_stun (some (117 ∷ [])) ∷ []) ≡ true)
    × (form_to_ice_servers (ice_servers_to_form (named_stun (some (117 ∷ [])) ∷ []))
        ≡ named_stun none ∷ [])
unfolding is_simple_config is_simple_after form_to_ice_servers ice_servers_to_form add_servers
    add_urls add_url urls_of or_empty turn_servers is_stun_scheme is_turn_scheme has_prefix
    optional_s starts_colon strip is_letter is_empty trim drop_start drop_end white
forgets_username = (refl, refl)

form_to_ice_servers-round_trip_example :
    (is_simple_config (form_to_ice_servers form) ≡ true)
    × (ice_servers_to_form (form_to_ice_servers form) ≡ tidied form)
form_to_ice_servers-round_trip_example = form_to_ice_servers-round_trip form no_errors
