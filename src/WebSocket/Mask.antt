-- ===== src/WebSocket/Mask.antt =====
-- crates/openwire/src/websocket/native/mask.rs. The random key itself is an argument of the
-- operations that draw one.
use native.Mathlib.Nat.{add-zero, zero-add}
use openwire.Base.{
  ◌∙◌, ℕ, zero, suc, ◌+◌, ◌%◌, ◌/◌, ◌<◌, ◌≡◌, refl, ap, true, List, [], ◌∷◌, arith, bit_xor, ◌==◌,
  ==_iff, length, get_or, every_below, every_below_sound,
}
use openwire.WebSocket.Bytes.{IsBytes}

mask_from : ℕ → List ℕ → List ℕ → List ℕ
mask_from index key [] = []
mask_from index key (b ∷ bs) = bit_xor b (get_or key (index % 4) 0) ∷ mask_from (index + 1) key bs

pub mask_in_place : List ℕ → List ℕ → List ℕ
unfolding mask_from
mask_in_place payload key = mask_from 0 key payload

xor_table : every_below 256 (λ x. every_below 256 (λ k. (bit_xor (bit_xor x k) k == x))) ≡ true
unfolding every_below
xor_table = refl

xor_range_table : every_below 256 (λ x. every_below 256 (λ k. bit_xor x k / 256 == 0)) ≡ true
unfolding every_below
xor_range_table = refl

xor_twice : (x k : ℕ) → x < 256 → k < 256 → bit_xor (bit_xor x k) k ≡ x
xor_twice x k hx hk =
    let row =
      every_below_sound 256 (λ x. every_below 256 (λ k. bit_xor (bit_xor x k) k == x)) x hx
        xor_table in
    (==_iff _ x).0 (every_below_sound 256 (λ k. bit_xor (bit_xor x k) k == x) k hk row)

xor_range : (x k : ℕ) → x < 256 → k < 256 → bit_xor x k < 256
xor_range x k hx hk =
    let row =
      every_below_sound 256 (λ x. every_below 256 (λ k. bit_xor x k / 256 == 0)) x hx
        xor_range_table in
    let e : bit_xor x k / 256 ≡ 0 =
      (==_iff _ 0).0 (every_below_sound 256 (λ k. bit_xor x k / 256 == 0) k hk row) in
    omega arith

get_or-IsBytes : (key : List ℕ) (i : ℕ) → IsBytes key → get_or key i 0 < 256
get_or-IsBytes [] i h = omega arith
get_or-IsBytes (k ∷ ks) zero h = h.0
get_or-IsBytes (k ∷ ks) (suc i) h = get_or-IsBytes ks i h.1

mask_from_twice :
    (index : ℕ) (key payload : List ℕ)
    → IsBytes key
    → IsBytes payload
    → mask_from index key (mask_from index key payload) ≡ payload
unfolding mask_from
mask_from_twice index key [] hk hp = refl
mask_from_twice index key (b ∷ bs) hk hp =
    rw (xor_twice b (get_or key (index % 4) 0) hp.0 (get_or-IsBytes key (index % 4) hk))
      (ap (◌∷◌ b) (mask_from_twice (index + 1) key bs hk hp.1))

get_or-mask_from :
    (index i : ℕ) (key payload : List ℕ)
    → i < length payload
    → get_or (mask_from index key payload) i 0
      ≡ bit_xor (get_or payload i 0) (get_or key ((index + i) % 4) 0)
unfolding mask_from
get_or-mask_from index i key [] h = absurd (omega arith)
get_or-mask_from index zero key (b ∷ bs) h = rw (add-zero index)
get_or-mask_from index (suc i) key (b ∷ bs) h =
    let e : index + suc i ≡ (index + 1) + i = omega arith in
    rw e (get_or-mask_from (index + 1) i key bs (omega arith))

-- Masking joins each byte of the payload by an exclusive or with the key's byte at its index modulo
-- four, and masking twice with one key gives the payload back: the receiver unmasks by the same loop.
pub mask_in_place-mask_in_place :
    (key payload : List ℕ) (i : ℕ)
    → IsBytes key
    → IsBytes payload
    → i < length payload
    → (get_or (mask_in_place payload key) i 0 ≡ bit_xor (get_or payload i 0) (get_or key (i % 4) 0))
      × (mask_in_place (mask_in_place payload key) key ≡ payload)
unfolding mask_in_place
mask_in_place-mask_in_place key payload i hk hp h = (
  get_or-mask_from 0 i key payload h
      ∙ ap (λ j. bit_xor (get_or payload i 0) (get_or key (j % 4) 0)) (zero-add i),
  mask_from_twice 0 key payload hk hp,
)

mask_from-IsBytes :
    (index : ℕ) (key payload : List ℕ)
    → IsBytes key
    → IsBytes payload
    → IsBytes (mask_from index key payload)
unfolding mask_from
mask_from-IsBytes index key [] hk hp = tt
mask_from-IsBytes index key (b ∷ bs) hk hp = (
  xor_range b _ hp.0 (get_or-IsBytes key (index % 4) hk),
  mask_from-IsBytes (index + 1) key bs hk hp.1,
)

length-mask_from :
    (index : ℕ) (key payload : List ℕ) → length (mask_from index key payload) ≡ length payload
unfolding mask_from
length-mask_from index key [] = refl
length-mask_from index key (b ∷ bs) = ap suc (length-mask_from (index + 1) key bs)

pub mask_in_place-IsBytes :
    (key payload : List ℕ) → IsBytes key → IsBytes payload → IsBytes (mask_in_place payload key)
unfolding mask_in_place
mask_in_place-IsBytes key payload hk hp = mask_from-IsBytes 0 key payload hk hp

pub length-mask_in_place :
    (key payload : List ℕ) → length (mask_in_place payload key) ≡ length payload
unfolding mask_in_place
length-mask_in_place key payload = length-mask_from 0 key payload

-- The example of RFC 6455, section 5.3.
mask_hello :
    mask_in_place (0x48 ∷ 0x65 ∷ 0x6c ∷ 0x6c ∷ 0x6f ∷ []) (0x37 ∷ 0xfa ∷ 0x21 ∷ 0x3d ∷ [])
    ≡ 0x7f ∷ 0x9f ∷ 0x4d ∷ 0x51 ∷ 0x58 ∷ []
unfolding mask_in_place
mask_hello = refl
