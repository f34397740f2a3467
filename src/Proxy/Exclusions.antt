-- ===== src/Proxy/Exclusions.antt =====
-- crates/openwire/src/proxy.rs: the hosts that a rule leaves out. The parser of IP addresses is a
-- parameter; an address is its number.
use openwire.Base.{
  ℕ, ◌-◌, ◌/◌, ◌%◌, ◌^◌, Bool, true, false, ◌&&◌, ◌||◌, List, [], ◌∷◌, ◌++◌, Option, none, some,
  is_some, any, leb, ◌==◌, if◌then◌else◌, Result, ok, err, ◌>>=◌,
}
use openwire.Text.{text_eq, codes, to_ascii_lowercase, strip_suffix, trim, split_on, parse_unsigned}
use openwire.Policy.Types.{WireError, WireErrorKind, wire_error}

pub data IpAddr : Type 0 where
  v4 v6 : ℕ → IpAddr

pub record CidrBlock : Type 0 where
  pub network : IpAddr
  pub prefix : ℕ

pub record NoProxy : Type 0 where
  pub matches_all : Bool
  pub exact_hosts : List (List ℕ)
  pub domain_suffixes : List (List ℕ)
  pub cidr_blocks : List CidrBlock
  pub bypass_loopback : Bool

abbrev pub invalid : {A : Type 0} → Result WireError A
invalid = err (wire_error WireErrorKind.invalid_request)

-- Hosts without the dots at the end, in lower case.
unfoldable pub trim_end_dots : List ℕ → List ℕ
trim_end_dots [] = []
trim_end_dots (c ∷ cs) = elim (trim_end_dots cs) [
  | [] ↦ if c == b'.' then [] else c ∷ []
  | d ∷ ds ↦ c ∷ d ∷ ds
]

unfoldable pub trim_start_dots : List ℕ → List ℕ
trim_start_dots [] = []
trim_start_dots (c ∷ cs) = let rest = trim_start_dots cs in if c == b'.' then rest else c ∷ cs

unfoldable pub normalize_proxy_host : List ℕ → List ℕ
unfolding trim_end_dots to_ascii_lowercase
normalize_proxy_host host = to_ascii_lowercase (trim_end_dots host)

unfoldable pub normalize_domain_suffix : List ℕ → List ℕ
unfolding normalize_proxy_host trim_start_dots
normalize_domain_suffix suffix = normalize_proxy_host (trim_start_dots suffix)

-- The bits of an address of `width` bits past the prefix become 0.
unfoldable pub canonicalize_network : ℕ → ℕ → ℕ → ℕ
canonicalize_network width address prefix =
    if prefix == 0 then 0 else address - address % 2 ^ (width - prefix)

-- `CidrBlock::matches`.
unfoldable pub cidr_matches : CidrBlock → IpAddr → Bool
unfolding canonicalize_network
cidr_matches block candidate = elim block.network [
  | v4 network ↦ elim candidate [
    | v4 address ↦ canonicalize_network 32 address block.prefix == network
    | v6 address ↦ false
  ]
  | v6 network ↦ elim candidate [
    | v4 address ↦ false
    | v6 address ↦ canonicalize_network 128 address block.prefix == network
  ]
]

abbrev is_loopback : IpAddr → Bool
is_loopback (v4 address) = address / 2 ^ 24 == 127
is_loopback (v6 address) = address == 1

abbrev some_ip : Option IpAddr → (IpAddr → Bool) → Bool
some_ip none test = false
some_ip (some ip) test = test ip

abbrev has_suffix : List ℕ → List ℕ → Bool
has_suffix host suffix = text_eq host suffix || is_some (strip_suffix (b'.' ∷ suffix) host)

-- `NoProxy::matches`.
unfoldable pub no_proxy_matches : (List ℕ → Option IpAddr) → NoProxy → List ℕ → Bool
unfolding normalize_proxy_host text_eq strip_suffix cidr_matches
no_proxy_matches parse_ip rules given =
    let host = normalize_proxy_host given in
    let ip = parse_ip host in
    rules.matches_all
    || (any (λ candidate. text_eq candidate host) rules.exact_hosts
        || (any (has_suffix host) rules.domain_suffixes
            || ((rules.bypass_loopback
                  && (text_eq host (codes "localhost") || some_ip ip is_loopback))
                || some_ip ip (λ a. any (λ cidr. cidr_matches cidr a) rules.cidr_blocks))))

abbrev pub no_rules : NoProxy
no_rules = record {
  matches_all = false;
  exact_hosts = [];
  domain_suffixes = [];
  cidr_blocks = [];
  bypass_loopback = false;
}

abbrev pub add_host : List ℕ → NoProxy → NoProxy
add_host host rules = record rules {
  exact_hosts = rules.exact_hosts ++ (normalize_proxy_host host ∷ []);
}

abbrev pub add_domain : List ℕ → NoProxy → NoProxy
add_domain suffix rules = record rules {
  domain_suffixes = rules.domain_suffixes ++ (normalize_domain_suffix suffix ∷ []);
}

abbrev pub add_block : NoProxy → CidrBlock → NoProxy
add_block rules block = record rules { cidr_blocks = rules.cidr_blocks ++ (block ∷ []) }

unfoldable pub rsplit_once : ℕ → List ℕ → Option (List ℕ × List ℕ)
rsplit_once c [] = none
rsplit_once c (x ∷ xs) = elim (rsplit_once c xs) [
  | some pair ↦ some (x ∷ pair.0, pair.1)
  | none ↦ if x == c then some ([], xs) else none
]

-- A prefix that is no longer than the address.
unfoldable pub cidr_block : IpAddr → ℕ → Result WireError CidrBlock
unfolding canonicalize_network
cidr_block (v4 address) prefix =
    if leb prefix 32
    then ok record { network = v4 (canonicalize_network 32 address prefix); prefix = prefix }
    else invalid
cidr_block (v6 address) prefix =
    if leb prefix 128
    then ok record { network = v6 (canonicalize_network 128 address prefix); prefix = prefix }
    else invalid

abbrev required : {A : Type 0} → Option A → Result WireError A
required none = invalid
required (some a) = ok a

unfoldable pub parse_cidr_block : (List ℕ → Option IpAddr) → List ℕ → Result WireError CidrBlock
unfolding rsplit_once parse_unsigned cidr_block
parse_cidr_block parse_ip token = do
  (address, prefix) ← required (rsplit_once b'/' token)
  ip ← required (parse_ip address)
  bits ← required (parse_unsigned 256 prefix)
  cidr_block ip bits

unfoldable pub add_token : (List ℕ → Option IpAddr) → NoProxy → List ℕ → Result WireError NoProxy
unfolding text_eq to_ascii_lowercase parse_cidr_block normalize_domain_suffix normalize_proxy_host
add_token parse_ip rules token =
    if text_eq token (codes "*")
    then ok record rules { matches_all = true }
    else if text_eq (to_ascii_lowercase token) (codes "localhost")
    then ok (add_host (codes "localhost") (record rules { bypass_loopback = true }))
    else if any (λ c. c == b'/') token
    then (elim (parse_cidr_block parse_ip token) [
      | ok block ↦ ok (add_block rules block)
      | err e ↦ err e
    ])
    else if is_some (parse_ip token)
    then ok (add_host token rules)
    else ok (add_domain token rules)

unfoldable pub add_tokens :
    (List ℕ → Option IpAddr) → List (List ℕ) → NoProxy → Result WireError NoProxy
unfolding trim add_token
add_tokens parse_ip [] rules = ok rules
add_tokens parse_ip (piece ∷ pieces) rules = elim (trim piece) [
  | [] ↦ add_tokens parse_ip pieces rules
  | c ∷ token ↦ add_token parse_ip rules (c ∷ token) >>= add_tokens parse_ip pieces
]

unfoldable pub parse_no_proxy : (List ℕ → Option IpAddr) → List ℕ → Result WireError NoProxy
unfolding add_tokens split_on
parse_no_proxy parse_ip value = add_tokens parse_ip (split_on b',' value) no_rules
