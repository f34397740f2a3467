-- ===== src/Policy/Request.antt =====
-- crates/openwire/src/policy/follow_up.rs: requests, the snapshot kept of one, and the requests built
-- from it. The header map is a parameter, with the laws of `HeaderMap::remove` that the code relies
-- on; methods are byte strings, and a proxy is a token. A version is a number.
use openwire.Base.{
  ℕ, ◌≡◌, Bool, true, false, not, ◌&&◌, List, [], ◌∷◌, Option, none, some, ◌==◌, if◌then◌else◌, any,
  Result, ok, err, ◌>>=◌,
}
use openwire.Text.{text_eq}
use openwire.Policy.Types.{WireErrorKind, WireError, wire_error}
use openwire.Policy.Redirect.{Uri, same_origin}

-- The names of http::header that the code uses, and the names it spells out.
pub data HeaderName : Type 0 where
  authorization cookie host location retry_after set_cookie : HeaderName
  content_length content_type content_encoding transfer_encoding expect : HeaderName
  x_api_key x_auth_token x_csrf_token x_access_token x_session_token : HeaderName
  other : List ℕ → HeaderName

-- `remove` takes every value of a name, and adds none.
pub record HeaderMap (H : Type 0) : Type 0 where
  pub contains_key : HeaderName → H → Bool
  pub remove : HeaderName → H → H
  pub insert : HeaderName → List ℕ → H → H
  pub contains_key-remove : (n : HeaderName) (h : H) → contains_key n (remove n h) ≡ false
  pub contains_key-remove_other :
      (m n : HeaderName) (h : H) → contains_key m h ≡ false → contains_key m (remove n h) ≡ false

pub data RequestBody : Type 0 where
  absent explicit_empty : RequestBody
  replayable : List ℕ → RequestBody
  streaming : ℕ → RequestBody

unfoldable pub try_clone : RequestBody → Option RequestBody
try_clone absent = some absent
try_clone explicit_empty = some explicit_empty
try_clone (replayable bytes) = some (replayable bytes)
try_clone (streaming stream) = none

abbrev pub get_method : List ℕ
get_method = b'G' ∷ b'E' ∷ b'T' ∷ []

abbrev pub head_method : List ℕ
head_method = b'H' ∷ b'E' ∷ b'A' ∷ b'D' ∷ []

pub record PolicyTraceContext : Type 0 where
  pub retry_count : ℕ
  pub redirect_count : ℕ
  pub auth_count : ℕ

pub record EffectiveRequestConfig : Type 0 where
  pub follow_redirects : Bool
  pub max_redirects : ℕ
  pub retry_on_connection_failure : Bool
  pub max_retries : ℕ
  pub retry_canceled_requests : Bool
  pub allow_insecure_redirects : Bool

-- The extensions that the policies read or write.
pub record Extensions : Type 0 where
  pub request_config : Option EffectiveRequestConfig
  pub has_retry_overrides : Bool
  pub has_redirect_overrides : Bool
  pub policy_trace : Option PolicyTraceContext
  pub cached_addresses : Option ℕ
  pub selected_proxy : Option ℕ
  pub dispatcher_queued : Bool
  pub no_coalesced_connections : Bool

pub record Request (H : Type 0) : Type 0 where
  pub method : List ℕ
  pub uri : Uri
  pub version : ℕ
  pub headers : H
  pub extensions : Extensions
  pub body : RequestBody

pub data SnapshotCaptureMode : Type 0 where
  light rebuildable : SnapshotCaptureMode

pub record RequestSnapshot (H : Type 0) : Type 0 where
  pub method : List ℕ
  pub uri : Uri
  pub version : ℕ
  pub headers : Option H
  pub extensions : Option Extensions
  pub body : Option RequestBody

abbrev captured : {A : Type 0} → SnapshotCaptureMode → A → Option A
captured SnapshotCaptureMode.light a = none
captured SnapshotCaptureMode.rebuildable a = some a

unfoldable pub reset_network_attempt_extensions : Extensions → Option ℕ → Extensions
reset_network_attempt_extensions e selected_proxy = record e {
  cached_addresses = none;
  selected_proxy = selected_proxy;
  dispatcher_queued = false;
}

-- Any failure of the crate's own invariants.
abbrev pub internal_or : {A : Type 0} → Option A → Result WireError A
internal_or none = err (wire_error WireErrorKind.internal)
internal_or (some a) = ok a

abbrev clone_body : Option RequestBody → Option RequestBody
clone_body none = none
clone_body (some body) = try_clone body

module _ {H : Type 0} where
  unfoldable pub capture : Request H → SnapshotCaptureMode → RequestSnapshot H
  unfolding try_clone
  capture request mode = record {
    method = request.method;
    uri = request.uri;
    version = request.version;
    headers = captured mode request.headers;
    extensions = captured mode request.extensions;
    body = try_clone request.body;
  }

  abbrev pub is_replayable : RequestSnapshot H → Bool
  is_replayable snapshot = elim snapshot.body [ none ↦ false | some body ↦ true ]

  unfoldable pub to_retry_request :
      RequestSnapshot H → PolicyTraceContext → Result WireError (Request H)
  unfolding try_clone wire_error reset_network_attempt_extensions
  to_retry_request snapshot trace = do
    body ← internal_or (clone_body snapshot.body)
    headers ← internal_or snapshot.headers
    extensions ← internal_or snapshot.extensions
    ok (record {
      method = snapshot.method;
      uri = snapshot.uri;
      version = snapshot.version;
      headers = headers;
      extensions = record (reset_network_attempt_extensions extensions extensions.selected_proxy) {
        policy_trace = some trace;
      };
      body = body;
    })

-- 301, 302, 303; and 307, 308.
abbrev pub may_switch_to_get : ℕ → Bool
may_switch_to_get status = any (λ s. s == status) (301 ∷ 302 ∷ 303 ∷ [])

abbrev pub preserves_body : ℕ → Bool
preserves_body status = any (λ s. s == status) (307 ∷ 308 ∷ [])

unfoldable pub switches_to_get : ℕ → List ℕ → Bool
unfolding text_eq
switches_to_get status method =
    may_switch_to_get status
    && (not (text_eq method get_method) && not (text_eq method head_method))

abbrev pub sensitive_headers : List HeaderName
sensitive_headers =
    HeaderName.authorization ∷ HeaderName.cookie ∷ HeaderName.x_api_key ∷ HeaderName.x_auth_token
    ∷ HeaderName.x_csrf_token ∷ HeaderName.x_access_token ∷ HeaderName.x_session_token ∷ []

abbrev pub body_headers : List HeaderName
body_headers =
    HeaderName.content_length ∷ HeaderName.content_type ∷ HeaderName.content_encoding
    ∷ HeaderName.transfer_encoding ∷ HeaderName.expect ∷ []

-- The body that the redirected request carries; `none` where the redirect cannot be followed.
unfoldable pub redirect_body : ℕ → List ℕ → Option RequestBody → Option RequestBody
unfolding switches_to_get
redirect_body status method body =
    if preserves_body status
    then body
    else if switches_to_get status method
    then some absent
    else elim body [ none ↦ some absent | some b ↦ some b ]

unfoldable pub redirect_method : ℕ → List ℕ → List ℕ
unfolding switches_to_get
redirect_method status method =
    if preserves_body status
    then method
    else if switches_to_get status method
    then get_method
    else method

module _ {H : Type 0} (map : HeaderMap H) where
  open map use {remove}

  unfoldable pub remove_all : List HeaderName → H → H
  remove_all [] headers = headers
  remove_all (n ∷ names) headers = remove_all names (remove n headers)

  unfoldable pub strip_sensitive_cross_origin_headers : H → H
  unfolding remove_all
  strip_sensitive_cross_origin_headers headers = remove_all sensitive_headers headers

  unfoldable pub redirect_headers : Bool → Bool → H → H
  unfolding remove_all strip_sensitive_cross_origin_headers
  redirect_headers same_origin switch_to_get headers =
      let a = remove HeaderName.host headers in
      let b = if same_origin then a else strip_sensitive_cross_origin_headers a in
      if switch_to_get then remove_all body_headers b else b

  unfoldable pub rebuild :
      RequestSnapshot H
      → ℕ
      → Uri
      → PolicyTraceContext
      → Option ℕ
      → Bool
      → Option RequestBody
      → Result WireError (Option (Request H))
  unfolding redirect_headers redirect_method switches_to_get reset_network_attempt_extensions
      wire_error
  rebuild snapshot status next_uri trace selected_proxy same_origin none = ok none
  rebuild snapshot status next_uri trace selected_proxy same_origin (some body) = do
    headers ← internal_or snapshot.headers
    extensions ← internal_or snapshot.extensions
    ok (
        some (record {
          method = redirect_method status snapshot.method;
          uri = next_uri;
          version = snapshot.version;
          headers = redirect_headers same_origin (switches_to_get status snapshot.method) headers;
          extensions = record (reset_network_attempt_extensions extensions selected_proxy) {
            policy_trace = some trace;
          };
          body = body;
        }))

  unfoldable pub into_redirect_request :
      RequestSnapshot H
      → ℕ
      → Uri
      → PolicyTraceContext
      → Option ℕ
      → Result WireError (Option (Request H))
  unfolding same_origin redirect_body rebuild
  into_redirect_request snapshot status next_uri trace selected_proxy = do
    same ← same_origin snapshot.uri next_uri
    rebuild snapshot status next_uri trace selected_proxy same
        (redirect_body status snapshot.method snapshot.body)
