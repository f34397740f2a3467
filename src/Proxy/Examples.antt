-- ===== src/Proxy/Examples.antt =====
-- Proxy rules at concrete inputs.
use openwire.Base.{
  ℕ, ◌+◌, ◌*◌, ◌^◌, ◌≡◌, ◌↔◌, refl, true, false, List, [], ◌∷◌, Option, none, some, ok, arith,
}
use openwire.Text.{text_eq, codes}
use openwire.Proxy.Exclusions.{IpAddr, v4, CidrBlock, cidr_block, cidr_matches}
use openwire.Proxy.Rules.{
  ProxyUrls, all_schemes, Proxy, SelectedProxy, ProxyChoice, connect_directly, through, select,
  RequestUri,
}
use openwire.Proxy.Cidr.{SharesPrefix, cidr_matches-cidr_block}
use openwire.Proxy.Candidates.{selected_of, resolved_proxy_candidates}

-- 10.0.0.5/8.
abbrev ten : IpAddr
ten = v4 (10 * 2 ^ 24 + 5)

abbrev ten_block : CidrBlock
ten_block = record { network = v4 (10 * 2 ^ 24); prefix = 8 }

cidr_matches-cidr_block_example :
    (cidr_matches ten_block (v4 (10 * 2 ^ 24 + 77)) ≡ true)
    ↔ SharesPrefix ten 8 (v4 (10 * 2 ^ 24 + 77))
unfolding cidr_block
cidr_matches-cidr_block_example =
    cidr_matches-cidr_block ten 8 ten_block (v4 (10 * 2 ^ 24 + 77)) (omega arith) (omega arith) refl

block_test : cidr_matches ten_block (v4 (11 * 2 ^ 24)) ≡ false
unfolding cidr_matches
block_test = refl

abbrev no_ip : List ℕ → Option IpAddr
no_ip text = none

-- URLs as text, with one scheme.
abbrev text_urls : ProxyUrls (List ℕ)
text_urls = record {
  parse = some;
  scheme = λ url. codes "http";
  host_str = some;
  username = λ url. [];
  password = λ url. none;
  clear_credentials = λ url. url;
  same_url = text_eq;
  parse_ip = no_ip;
}

abbrev proxy_at : List ℕ → Proxy (List ℕ)
proxy_at target = record {
  target = target;
  intercept = all_schemes;
  no_proxy = none;
  credentials = none;
}

abbrev three_choices : List (ProxyChoice (List ℕ))
three_choices =
    through (proxy_at (codes "a"))
    ∷ through (proxy_at (codes "b"))
    ∷ through (proxy_at (codes "a"))
    ∷ connect_directly
    ∷ []

abbrev last_used : SelectedProxy (List ℕ)
last_used = selected_of (proxy_at (codes "b"))

candidates_test :
    resolved_proxy_candidates text_urls three_choices (some last_used)
    ≡ some last_used ∷ some (selected_of (proxy_at (codes "a"))) ∷ none ∷ []
unfolding resolved_proxy_candidates
candidates_test = refl

abbrev variables : List (List ℕ × List ℕ)
variables =
    (codes "HTTP_PROXY", codes "p") ∷ (codes "no_proxy", codes " .Internal , LOCALHOST") ∷ []

abbrev uri_of : List ℕ → RequestUri
uri_of host = record { scheme_str = some (codes "http"); host = some host }

excluded_test :
    select text_urls [] true variables (uri_of (codes "db.internal.")) ≡ ok (connect_directly ∷ [])
unfolding select
excluded_test = refl
