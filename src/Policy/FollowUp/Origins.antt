-- ===== src/Policy/FollowUp/Origins.antt =====
-- What it means that two URIs have the same origin, beside the comparison of
-- crates/openwire/src/policy/follow_up.rs.
use openwire.Base.{
  ℕ, ◌≡◌, refl, sym, ap, ◌∙◌, true, List, Option, none, some, ==_iff, Bool-cases, inl, inr, arith,
  ok, Result-cases, if◌then◌else◌,
}
use openwire.Text.{codes, text_eq, text_eq_sound, to_ascii_lowercase}
use openwire.Policy.Redirect.{
  Uri, OriginKey, http_scheme, https_scheme, port_or, origin_with_host, origin_with_scheme,
  from_uri, same_origin, origin_eq,
}

-- The host of a URI, letter case aside.
abbrev pub host_of : Option (List ℕ) → Option (List ℕ)
host_of none = none
host_of (some host) = some (to_ascii_lowercase host)

-- The port, or the scheme's: 443 for https, 80 for http.
abbrev pub port_of : Option (List ℕ) → Option ℕ → ℕ
port_of scheme (some port) = port
port_of none none = 80
port_of (some scheme) none = if text_eq scheme (codes "https") then 443 else 80

pub record SameOrigin (left right : Uri) : Type 0 where
  pub schemes : left.scheme_str ≡ right.scheme_str
  pub hosts : host_of left.host ≡ host_of right.host
  pub ports : port_of left.scheme_str left.port_u16 ≡ port_of right.scheme_str right.port_u16

-- What the key of a URI holds.
record IsKey (uri : Uri) (key : OriginKey) : Type 0 where
  scheme : uri.scheme_str ≡ some key.scheme
  host : host_of uri.host ≡ some key.host
  port : port_of uri.scheme_str uri.port_u16 ≡ key.port

port_or_lem :
    (scheme : List ℕ) (n : ℕ) (port : Option ℕ)
    → n ≡ (if text_eq scheme (codes "https") then 443 else 80)
    → port_of (some scheme) port ≡ port_or port n
port_or_lem scheme n none e = sym e
port_or_lem scheme n (some port) e = refl

host-IsKey :
    (scheme : List ℕ) (n : ℕ) (uri : Uri) (host : Option (List ℕ)) (key : OriginKey)
    → origin_with_host scheme n uri host ≡ ok key
    → uri.scheme_str ≡ some scheme
    → uri.host ≡ host
    → n ≡ (if text_eq scheme (codes "https") then 443 else 80)
    → IsKey uri key
unfolding origin_with_host
host-IsKey scheme n uri none key e s h p = absurd (ground arith)
host-IsKey scheme n uri (some host) key e s h p =
    let a : scheme ≡ key.scheme = ground arith in
    let b : to_ascii_lowercase host ≡ key.host = ground arith in
    let c : port_or uri.port_u16 n ≡ key.port = ground arith in
    record {
      scheme = s ∙ ap some a;
      host = ap host_of h ∙ ap some b;
      port = ap (λ x. port_of x uri.port_u16) s ∙ (port_or_lem scheme n uri.port_u16 p ∙ c);
    }

scheme-IsKey :
    (scheme : Option (List ℕ)) (uri : Uri) (key : OriginKey)
    → origin_with_scheme scheme uri ≡ ok key
    → uri.scheme_str ≡ scheme
    → IsKey uri key
unfolding origin_with_scheme text_eq
scheme-IsKey none uri key e s = absurd (ground arith)
scheme-IsKey (some scheme) uri key e s = elim (Bool-cases (text_eq scheme http_scheme)) [
  | inl a ↦
      host-IsKey http_scheme 80 uri uri.host key (ground arith)
        (s ∙ ap some (text_eq_sound scheme http_scheme a)) refl refl
  | inr a ↦ elim (Bool-cases (text_eq scheme https_scheme)) [
    | inl b ↦
        host-IsKey https_scheme 443 uri uri.host key (ground arith)
          (s ∙ ap some (text_eq_sound scheme https_scheme b)) refl refl
    | inr b ↦ absurd (ground arith)
  ]
]

from_uri-IsKey : (uri : Uri) (key : OriginKey) → from_uri uri ≡ ok key → IsKey uri key
unfolding from_uri
from_uri-IsKey uri key e = scheme-IsKey uri.scheme_str uri key e refl

equal_keys :
    (left right : Uri) (l r : OriginKey)
    → IsKey left l
    → IsKey right r
    → origin_eq l r ≡ true
    → SameOrigin left right
equal_keys left right l r kl kr e =
    let a = text_eq_sound l.scheme r.scheme (ground arith) in
    let b = text_eq_sound l.host r.host (ground arith) in
    let c = (==_iff l.port r.port).0 (ground arith) in
    record {
      schemes = kl.scheme ∙ (ap some a ∙ sym kr.scheme);
      hosts = kl.host ∙ (ap some b ∙ sym kr.host);
      ports = kl.port ∙ (c ∙ sym kr.port);
    }

-- URIs that the code takes to have the same origin agree in scheme, host and port.
pub same_origin-SameOrigin :
    (left right : Uri) → same_origin left right ≡ ok true → SameOrigin left right
unfolding same_origin
same_origin-SameOrigin left right e = elim (Result-cases (from_uri left)) [
  | inr (x, f) ↦ absurd (ground arith)
  | inl (l, f) ↦ elim (Result-cases (from_uri right)) [
    | inr (x, g) ↦ absurd (ground arith)
    | inl (r, g) ↦
        equal_keys left right l r (from_uri-IsKey left l f) (from_uri-IsKey right r g)
          (ground arith)
  ]
]
