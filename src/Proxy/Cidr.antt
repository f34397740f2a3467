-- ===== src/Proxy/Cidr.antt =====
-- crates/openwire/src/proxy.rs: what a block of addresses contains.
use native.Mathlib.Nat.{mul-div_cancel_left, div-add-mod, div-eq_of_lt, one-le-pow}
use openwire.Base.{
  ℕ, ◌*◌, ◌-◌, ◌/◌, ◌%◌, ◌^◌, ◌<◌, ◌≡◌, refl, sym, ◌∙◌, ap, subst, inl, inr, ◌↔◌, Bool, true, false,
  leb, ◌==◌, if◌then◌else◌, ok, Bool-cases, ==_iff, arith,
}
use openwire.Proxy.Exclusions.{
  IpAddr, v4, v6, CidrBlock, invalid, canonicalize_network, cidr_matches, cidr_block,
}

-- Addresses of one width that agree on the first bits.
abbrev pub SamePrefix : ℕ → ℕ → ℕ → ℕ → Type 0
SamePrefix width prefix a b = a / 2 ^ (width - prefix) ≡ b / 2 ^ (width - prefix)

cut_lem : (a d : ℕ) → a - a % d ≡ d * (a / d)
cut_lem a d = omega (arith, div-add-mod a d)

cut_iff : (a b d : ℕ) → 0 < d → (a - a % d ≡ b - b % d) ↔ (a / d ≡ b / d)
cut_iff a b d h = (
  λ e.
      sym (mul-div_cancel_left (a / d) h)
      ∙ ap (λ x. x / d) (sym (cut_lem a d) ∙ e ∙ cut_lem b d)
      ∙ mul-div_cancel_left (b / d) h,
  λ e. cut_lem a d ∙ ap (λ x. d * x) e ∙ sym (cut_lem b d),
)

power_positive : (n : ℕ) → 0 < 2 ^ n
power_positive n = one-le-pow n 2 (omega arith)

canonical_lem :
    (width prefix a b : ℕ)
    → a < 2 ^ width
    → b < 2 ^ width
    → (canonicalize_network width a prefix ≡ canonicalize_network width b prefix)
      ↔ SamePrefix width prefix a b
unfolding canonicalize_network
canonical_lem width prefix a b h k = elim (Bool-cases (prefix == 0)) [
  | inl e ↦
      let whole : width - prefix ≡ width = ground arith in
      rw e (
        λ q.
            ap (λ n. a / 2 ^ n) whole
            ∙ div-eq_of_lt h
            ∙ sym (div-eq_of_lt k)
            ∙ ap (λ n. b / 2 ^ n) (sym whole),
        λ q. refl,
      )
  | inr e ↦ rw e (cut_iff a b (2 ^ (width - prefix)) (power_positive (width - prefix)))
]

-- An address is a number of 32 or 128 bits.
abbrev pub InRange : IpAddr → Type 0
InRange (v4 a) = a < 2 ^ 32
InRange (v6 a) = a < 2 ^ 128

-- Two addresses of one family whose first `prefix` bits agree.
abbrev pub SharesPrefix : IpAddr → ℕ → IpAddr → Type 0
SharesPrefix (v4 n) prefix (v4 a) = SamePrefix 32 prefix a n
SharesPrefix (v6 n) prefix (v6 a) = SamePrefix 128 prefix a n
SharesPrefix _ prefix _ = ⊥

test_iff : (a b : ℕ) {P : Type 0} → (a ≡ b) ↔ P → ((a == b) ≡ true) ↔ P
test_iff a b (f, g) = (λ e. f ((==_iff a b).0 e), λ p. (==_iff a b).1 (g p))

abbrev canonical_block : IpAddr → ℕ → CidrBlock
canonical_block (v4 n) prefix = record {
  network = v4 (canonicalize_network 32 n prefix);
  prefix = prefix;
}
canonical_block (v6 n) prefix = record {
  network = v6 (canonicalize_network 128 n prefix);
  prefix = prefix;
}

if_ok : (b : Bool) (x block : CidrBlock) → (if b then ok x else invalid) ≡ ok block → x ≡ block
if_ok true x block e = ground arith
if_ok false x block e = absurd (ground arith)

cidr_block_lem :
    (ip : IpAddr) (prefix : ℕ) (block : CidrBlock)
    → cidr_block ip prefix ≡ ok block
    → canonical_block ip prefix ≡ block
unfolding cidr_block
cidr_block_lem (v4 n) prefix block e = if_ok (leb prefix 32) _ block e
cidr_block_lem (v6 n) prefix block e = if_ok (leb prefix 128) _ block e

canonical_block-matches :
    (ip : IpAddr) (prefix : ℕ) (candidate : IpAddr)
    → InRange ip
    → InRange candidate
    → (cidr_matches (canonical_block ip prefix) candidate ≡ true) ↔ SharesPrefix ip prefix candidate
unfolding cidr_matches
canonical_block-matches (v4 n) prefix (v4 a) h k =
    test_iff (canonicalize_network 32 a prefix) (canonicalize_network 32 n prefix)
      (canonical_lem 32 prefix a n k h)
canonical_block-matches (v6 n) prefix (v6 a) h k =
    test_iff (canonicalize_network 128 a prefix) (canonicalize_network 128 n prefix)
      (canonical_lem 128 prefix a n k h)
canonical_block-matches (v4 n) prefix (v6 a) h k = (λ e. absurd (ground arith), λ p. absurd p)
canonical_block-matches (v6 n) prefix (v4 a) h k = (λ e. absurd (ground arith), λ p. absurd p)

-- A block that is read from an address and a prefix length no longer than the address contains
-- exactly the addresses of the same family that agree with it on that many first bits.
pub cidr_matches-cidr_block :
    (ip : IpAddr) (prefix : ℕ) (block : CidrBlock) (candidate : IpAddr)
    → InRange ip
    → InRange candidate
    → cidr_block ip prefix ≡ ok block
    → (cidr_matches block candidate ≡ true) ↔ SharesPrefix ip prefix candidate
cidr_matches-cidr_block ip prefix block candidate h k e =
    subst (λ b. (cidr_matches b candidate ≡ true) ↔ SharesPrefix ip prefix candidate)
      (cidr_block_lem ip prefix block e) (canonical_block-matches ip prefix candidate h k)
