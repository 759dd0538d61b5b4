-- ===== src/IceConfig.antt =====
-- The settings of the ICE servers, `apps/web/src/orpal/ice-config.ts`: the form, the servers and the
-- form's validation. A text is the list of its code units, since the code trims it and reads its start.
pub mod Trim
mod Schemes
mod Errors
pub mod RoundTrip
mod Examples
use orpal.Base.{
  ℕ, suc, ◌+◌, Bool, true, false, not, ◌&&◌, ◌||◌, List, [], ◌∷◌, ◌++◌, Option, none, some, length,
  leb, eqb, if◌then◌else◌,
}

abbrev pub Text : Type 0
Text = List ℕ

pub record TurnEntry : Type 0 where
  pub url : Text
  pub username : Text
  pub credential : Text

pub record IceForm : Type 0 where
  pub stun_url : Text
  pub turns : List TurnEntry

pub data Urls : Type 0 where
  single : Text → Urls
  several : List Text → Urls

pub record IceServer : Type 0 where
  pub urls : Urls
  pub username : Option Text
  pub credential : Option Text

-- The white space and the line ends that `trim` removes.
pub white : ℕ → Bool
white c =
    (leb 9 c && leb c 13)
    || eqb c 32
    || eqb c 160
    || eqb c 5760
    || (leb 8192 c && leb c 8202)
    || eqb c 8232
    || eqb c 8233
    || eqb c 8239
    || eqb c 8287
    || eqb c 12288
    || eqb c 65279

pub drop_start : Text → Text
drop_start [] = []
drop_start (c ∷ text) = let rest = drop_start text in if white c then rest else c ∷ text

pub is_empty : Text → Bool
is_empty [] = true
is_empty (c ∷ text) = false

pub drop_end : Text → Text
drop_end [] = []
drop_end (c ∷ text) = let rest = drop_end text in if white c && is_empty rest then [] else c ∷ rest

pub trim : Text → Text
trim text = drop_end (drop_start text)

-- A letter of the pattern, given in lower case, in either case.
is_letter : ℕ → ℕ → Bool
is_letter lower c = eqb c lower || eqb (c + 32) lower

-- The text after a prefix of the pattern, if it has one.
strip : List ℕ → Text → Option Text
strip [] text = some text
strip (p ∷ pattern) [] = none
strip (p ∷ pattern) (c ∷ text) =
    let rest = strip pattern text in if is_letter p c then rest else none

starts_colon : Text → Bool
starts_colon [] = false
starts_colon (c ∷ text) = eqb c 58

-- `s?:`
optional_s : Text → Bool
optional_s [] = false
optional_s (c ∷ text) = (is_letter 115 c && starts_colon text) || eqb c 58

has_prefix : List ℕ → Text → Bool
has_prefix pattern text = elim (strip pattern text) [ none ↦ false | some rest ↦ optional_s rest ]

pub is_stun_scheme : Text → Bool
is_stun_scheme url = has_prefix (115 ∷ 116 ∷ 117 ∷ 110 ∷ []) (trim url)

pub is_turn_scheme : Text → Bool
is_turn_scheme url = has_prefix (116 ∷ 117 ∷ 114 ∷ 110 ∷ []) (trim url)

-- The loop of `isSimpleConfig`, with the number of STUN servers so far.
pub is_simple_after : ℕ → List IceServer → Bool
is_simple_after stun_count [] = leb stun_count 1
is_simple_after stun_count (s ∷ servers) = elim s.urls [
  | several urls ↦ false
  | single url ↦
      if is_stun_scheme url
      then is_simple_after (suc stun_count) servers
      else if not (is_turn_scheme url)
      then false
      else is_simple_after stun_count servers
]

pub is_simple_config : List IceServer → Bool
is_simple_config servers = is_simple_after 0 servers

pub urls_of : IceServer → List Text
urls_of s = elim s.urls [ single url ↦ url ∷ [] | several urls ↦ urls ]

pub or_empty : Option Text → Text
or_empty none = []
or_empty (some text) = text

pub add_url : Option Text → Option Text → Text → IceForm → IceForm
add_url username credential url form =
    if is_turn_scheme url
    then record form {
      turns =
          form.turns
          ++ (record { url = url; username = or_empty username; credential = or_empty credential }
              ∷ []);
    }
    else if is_stun_scheme url && is_empty form.stun_url
    then record form { stun_url = url }
    else form

pub add_urls : Option Text → Option Text → List Text → IceForm → IceForm
add_urls username credential [] form = form
add_urls username credential (url ∷ urls) form =
    add_urls username credential urls (add_url username credential url form)

pub add_servers : List IceServer → IceForm → IceForm
add_servers [] form = form
add_servers (s ∷ servers) form =
    add_servers servers (add_urls s.username s.credential (urls_of s) form)

pub ice_servers_to_form : List IceServer → IceForm
ice_servers_to_form servers = add_servers servers (record { stun_url = []; turns = [] })

pub turn_servers : List TurnEntry → List IceServer
turn_servers [] = []
turn_servers (t ∷ turns) =
    let rest = turn_servers turns in
    if is_empty (trim t.url)
    then rest
    else record {
      urls = single (trim t.url);
      username = some t.username;
      credential = some t.credential;
    }
      ∷ rest

pub form_to_ice_servers : IceForm → List IceServer
form_to_ice_servers form =
    if is_empty (trim form.stun_url)
    then turn_servers form.turns
    else record { urls = single (trim form.stun_url); username = none; credential = none }
      ∷ turn_servers form.turns

-- The messages, with the number of the TURN server where there are several.
pub data FormError : Type 0 where
  not_stun : FormError
  not_turn no_credential : Option ℕ → FormError

pub url_errors : Option ℕ → TurnEntry → List FormError
url_errors label t = if not (is_turn_scheme (trim t.url)) then not_turn label ∷ [] else []

pub credential_errors : Option ℕ → TurnEntry → List FormError
credential_errors label t =
    if is_empty (trim t.username) || is_empty (trim t.credential)
    then no_credential label ∷ []
    else []

pub turn_errors : Bool → ℕ → List TurnEntry → List FormError
turn_errors labelled i [] = []
turn_errors labelled i (t ∷ turns) =
    let label : Option ℕ = if labelled then some (i + 1) else none in
    let rest = turn_errors labelled (i + 1) turns in
    if is_empty (trim t.url) then rest else url_errors label t ++ credential_errors label t ++ rest

pub stun_errors : Text → List FormError
stun_errors url =
    if not (is_empty (trim url)) && not (is_stun_scheme url) then not_stun ∷ [] else []

pub validate_form : IceForm → List FormError
validate_form form =
    stun_errors form.stun_url ++ turn_errors (leb 2 (length form.turns)) 0 form.turns
