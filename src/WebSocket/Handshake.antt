-- ===== src/WebSocket/Handshake.antt =====
-- crates/openwire/src/websocket/handshake.rs: the tokens of a request and the checks on the response.
-- `to_str` of a header value, which is a list of bytes, is a parameter. The
-- messages of errors are left out.
pub mod Accepted
pub mod Examples
use openwire.Base.{
  ℕ, ◌≡◌, Bool, true, false, not, ◌&&◌, ◌||◌, List, [], ◌∷◌, Option, none, some, any, all, between,
  ◌==◌, if◌then◌else◌, Result, ok, err, ◌>>=◌, ◌>>◌,
}
use openwire.Text.{text_eq, codes, to_ascii_lowercase, trim, split_on}
use openwire.Policy.Types.{WireError, WireErrorKind, wire_error}

pub data HandshakeFailure : Type 0 where
  unexpected_status missing_upgrade missing_connection invalid_accept : HandshakeFailure
  subprotocol_mismatch : List (List ℕ) → List ℕ → HandshakeFailure
  unsupported_extension other : List ℕ → HandshakeFailure

-- The status and the values of each header.
pub record HandshakeResponse : Type 0 where
  pub status : ℕ
  pub get_all : List ℕ → List (List ℕ)

pub record ValidatedHandshake : Type 0 where
  pub subprotocol : Option (List ℕ)
  pub extensions : List (List ℕ)

abbrev separators : List ℕ
separators = codes "()<>@,;:\\\"/[]?={}"

unfoldable pub is_http_token_byte : ℕ → Bool
is_http_token_byte byte = between 33 126 byte && not (any (λ s. s == byte) separators)

unfoldable pub is_subprotocol_token : List ℕ → Bool
unfolding is_http_token_byte
is_subprotocol_token [] = false
is_subprotocol_token (c ∷ cs) = all is_http_token_byte (c ∷ cs)

-- Each token is new; `seen` has the ones before.
unfoldable pub validate_subprotocols : List (List ℕ) → List (List ℕ) → Result WireError (Unit {0})
unfolding is_subprotocol_token text_eq
validate_subprotocols seen [] = ok tt
validate_subprotocols seen (protocol ∷ protocols) =
    let rest = validate_subprotocols (protocol ∷ seen) protocols in
    if not (is_subprotocol_token protocol)
    then err (wire_error WireErrorKind.invalid_request)
    else if any (text_eq protocol) seen
    then err (wire_error WireErrorKind.invalid_request)
    else rest

-- The scheme of the request that is sent.
unfoldable pub rewrite_scheme : Option (List ℕ) → Result WireError (List ℕ)
unfolding text_eq
rewrite_scheme none = err (wire_error WireErrorKind.invalid_request)
rewrite_scheme (some scheme) =
    if text_eq scheme (codes "ws")
    then ok (codes "http")
    else if text_eq scheme (codes "wss")
    then ok (codes "https")
    else if text_eq scheme (codes "http") || text_eq scheme (codes "https")
    then ok scheme
    else err (wire_error WireErrorKind.invalid_request)

module _ (to_str : List ℕ → Option (List ℕ)) where
  abbrev has_token : List ℕ → Option (List ℕ) → Bool
  has_token expected none = false
  has_token expected (some raw) =
      any (λ token. text_eq (to_ascii_lowercase (trim token)) expected) (split_on b',' raw)

  unfoldable pub header_value_has_token : List ℕ → List ℕ → Bool
  unfolding text_eq to_ascii_lowercase trim split_on
  header_value_has_token expected value = has_token expected (to_str value)

  unfoldable pub upgrade_has_websocket : HandshakeResponse → Bool
  unfolding header_value_has_token
  upgrade_has_websocket response =
      any (header_value_has_token (codes "websocket")) (response.get_all (codes "upgrade"))

  unfoldable pub connection_has_upgrade : HandshakeResponse → Bool
  unfolding header_value_has_token
  connection_has_upgrade response =
      any (header_value_has_token (codes "upgrade")) (response.get_all (codes "connection"))

  abbrev pub accepts : List ℕ → Option (List ℕ) → Result HandshakeFailure (Unit {0})
  accepts expected none = err invalid_accept
  accepts expected (some accept) = if text_eq accept expected then ok tt else err invalid_accept

  abbrev pub accept_values : List ℕ → List (List ℕ) → Result HandshakeFailure (Unit {0})
  accept_values expected [] = err invalid_accept
  accept_values expected (value ∷ []) = accepts expected (to_str value)
  accept_values expected (value ∷ next ∷ values) = err invalid_accept

  unfoldable pub validate_accept_header :
      HandshakeResponse → List ℕ → Result HandshakeFailure (Unit {0})
  unfolding text_eq
  validate_accept_header response expected =
      accept_values expected (response.get_all (codes "sec-websocket-accept"))

  -- The loop over the values, with the one that is selected so far.
  abbrev pub select_token : List ℕ → Option (List ℕ) → Result HandshakeFailure (List ℕ)
  select_token token none = if any (λ c. c == b',') token then err (other []) else ok token
  select_token token (some selected) = err (other [])

  abbrev pub select_from : Option (List ℕ) → Option (List ℕ) → Result HandshakeFailure (List ℕ)
  select_from none selected = err (other [])
  select_from (some token) selected = select_token token selected

  unfoldable pub selected_subprotocol :
      List (List ℕ) → Option (List ℕ) → Result HandshakeFailure (Option (List ℕ))
  selected_subprotocol [] selected = ok selected
  selected_subprotocol (value ∷ values) selected =
      select_from (to_str value) selected >>= λ chosen. selected_subprotocol values (some chosen)

  abbrev pub if_offered :
      List (List ℕ) → Option (List ℕ) → Result HandshakeFailure (Option (List ℕ))
  if_offered offered none = ok none
  if_offered offered (some token) =
      if any (λ o. text_eq o token) offered
      then ok (some token)
      else err (subprotocol_mismatch offered token)

  unfoldable pub validate_selected_subprotocol :
      HandshakeResponse → List (List ℕ) → Result HandshakeFailure (Option (List ℕ))
  unfolding selected_subprotocol text_eq
  validate_selected_subprotocol response offered =
      selected_subprotocol (response.get_all (codes "sec-websocket-protocol")) none
      >>= if_offered offered

  unfoldable pub first_extension : List (List ℕ) → Option (List ℕ)
  unfolding trim
  first_extension [] = none
  first_extension (piece ∷ pieces) = elim (trim piece) [
    | [] ↦ first_extension pieces
    | c ∷ cs ↦ some (c ∷ cs)
  ]

  abbrev pub no_extension : Option (List ℕ) → Result HandshakeFailure (Unit {0})
  no_extension none = ok tt
  no_extension (some extension) = err (unsupported_extension extension)

  abbrev pub reject_from : Option (List ℕ) → Result HandshakeFailure (Unit {0})
  reject_from none = err (unsupported_extension (codes "<invalid>"))
  reject_from (some raw) = no_extension (first_extension (split_on b',' raw))

  unfoldable pub reject_extensions : List (List ℕ) → Result HandshakeFailure (Unit {0})
  unfolding first_extension split_on
  reject_extensions [] = ok tt
  reject_extensions (value ∷ values) =
      reject_from (to_str value) >>= λ done. reject_extensions values

  unfoldable pub validate_handshake_response :
      HandshakeResponse → List ℕ → List (List ℕ) → Result HandshakeFailure ValidatedHandshake
  unfolding upgrade_has_websocket connection_has_upgrade validate_accept_header
      validate_selected_subprotocol reject_extensions
  validate_handshake_response response expected offered =
      if not (response.status == 101)
      then err unexpected_status
      else if not (upgrade_has_websocket response)
      then err missing_upgrade
      else if not (connection_has_upgrade response)
      then err missing_connection
      else (validate_accept_header response expected >>= λ accepted.
          validate_selected_subprotocol response offered >>= λ subprotocol.
          reject_extensions (response.get_all (codes "sec-websocket-extensions")) >>= λ done.
          ok record { subprotocol = subprotocol; extensions = [] })
