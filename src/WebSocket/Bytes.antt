-- ===== src/WebSocket/Bytes.antt =====
-- Byte sequences as the engine handles them: lists of numbers below 256, big-endian integers
-- (`to_be_bytes`, `from_be_bytes`) and the validity of UTF-8 (`std::str::from_utf8`).
use native.Mathlib.Nat.{pow-suc}
use openwire.Base.{
  ℕ, zero, suc, ◌+◌, ◌*◌, ◌/◌, ◌%◌, ◌^◌, ◌<◌, ◌≡◌, refl, Bool, true, false, List, [], ◌∷◌, ◌++◌,
  arith, leb, between, ◌==◌, if◌then◌else◌, length, length-append, All, All-append,
}

-- A sequence of bytes.
abbrev pub IsBytes : List ℕ → Type 0
IsBytes = All (λ b. b < 256)

-- The `n` low bytes of `x`, the highest first.
unfoldable pub to_be_bytes : ℕ → ℕ → List ℕ
to_be_bytes zero x = []
to_be_bytes (suc n) x = to_be_bytes n (x / 256) ++ ((x % 256) ∷ [])

be_loop : ℕ → List ℕ → ℕ
be_loop acc [] = acc
be_loop acc (b ∷ bs) = be_loop (acc * 256 + b) bs

unfoldable pub from_be_bytes : List ℕ → ℕ
unfolding be_loop
from_be_bytes bs = be_loop 0 bs

pub length-to_be_bytes : (n x : ℕ) → length (to_be_bytes n x) ≡ n
unfolding to_be_bytes
length-to_be_bytes zero x = refl
length-to_be_bytes (suc n) x = omega (
  arith,
  length-append (to_be_bytes n (x / 256)) ((x % 256) ∷ []),
  length-to_be_bytes n (x / 256),
)

pub to_be_bytes-IsBytes : (n x : ℕ) → IsBytes (to_be_bytes n x)
unfolding to_be_bytes
to_be_bytes-IsBytes zero x = tt
to_be_bytes-IsBytes (suc n) x =
    All-append (λ b. b < 256) (to_be_bytes n (x / 256)) ((x % 256) ∷ [])
      (to_be_bytes-IsBytes n (x / 256)) (omega arith, tt)

pub to_be_bytes-two : (x : ℕ) → to_be_bytes 2 x ≡ (x / 256 % 256) ∷ (x % 256) ∷ []
unfolding to_be_bytes
to_be_bytes-two x = refl

be_loop-append :
    (acc : ℕ) (xs : List ℕ) (b : ℕ) → be_loop acc (xs ++ b ∷ []) ≡ be_loop acc xs * 256 + b
unfolding be_loop
be_loop-append acc [] b = refl
be_loop-append acc (x ∷ xs) b = be_loop-append (acc * 256 + x) xs b

-- Reading back what `to_be_bytes` wrote, when the value fits.
pub from_be_bytes-to_be_bytes : (n x : ℕ) → x < 256 ^ n → from_be_bytes (to_be_bytes n x) ≡ x
unfolding from_be_bytes to_be_bytes
from_be_bytes-to_be_bytes zero x h = omega arith
from_be_bytes-to_be_bytes (suc n) x h =
    let h' : x < 256 ^ n * 256 = rw (← pow-suc 256 n) h in
    let ih : from_be_bytes (to_be_bytes n (x / 256)) ≡ x / 256 =
      from_be_bytes-to_be_bytes n (x / 256) (omega arith) in
    rw (be_loop-append 0 (to_be_bytes n (x / 256)) (x % 256)) (omega arith)

-- What the next byte of a UTF-8 text may be: the start of a character, or one of `need`
-- continuation bytes, the next of which lies in `lo..=hi`.
pub data Utf8State : Type 0 where
  start : Utf8State
  cont : ℕ → ℕ → ℕ → Utf8State
  malformed : Utf8State

utf8_lead : ℕ → Utf8State
utf8_lead b =
    if leb b 0x7f
    then start
    else if between 0xc2 0xdf b
    then cont 1 0x80 0xbf
    else if b == 0xe0
    then cont 2 0xa0 0xbf
    else if b == 0xed
    then cont 2 0x80 0x9f
    else if between 0xe1 0xef b
    then cont 2 0x80 0xbf
    else if b == 0xf0
    then cont 3 0x90 0xbf
    else if between 0xf1 0xf3 b
    then cont 3 0x80 0xbf
    else if b == 0xf4
    then cont 3 0x80 0x8f
    else malformed

utf8_step : Utf8State → ℕ → Utf8State
unfolding utf8_lead
utf8_step start b = utf8_lead b
utf8_step (cont zero lo hi) b = malformed
utf8_step (cont (suc zero) lo hi) b = if between lo hi b then start else malformed
utf8_step (cont (suc (suc n)) lo hi) b =
    if between lo hi b then cont (suc n) 0x80 0xbf else malformed
utf8_step malformed b = malformed

abbrev at_boundary : Utf8State → Bool
at_boundary start = true
at_boundary _ = false

utf8_loop : Utf8State → List ℕ → Bool
unfolding utf8_step
utf8_loop s [] = at_boundary s
utf8_loop s (b ∷ bs) = utf8_loop (utf8_step s b) bs

unfoldable pub is_utf8 : List ℕ → Bool
unfolding utf8_loop
is_utf8 bs = utf8_loop start bs

-- "é€😀" is valid; an overlong form, a surrogate and a cut character are not.
utf8_valid_text : is_utf8 (0xc3 ∷ 0xa9 ∷ 0xe2 ∷ 0x82 ∷ 0xac ∷ 0xf0 ∷ 0x9f ∷ 0x98 ∷ 0x80 ∷ []) ≡ true
unfolding is_utf8
utf8_valid_text = refl

utf8_overlong : is_utf8 (0xc0 ∷ 0x80 ∷ []) ≡ false
unfolding is_utf8
utf8_overlong = refl

utf8_surrogate : is_utf8 (0xed ∷ 0xa0 ∷ 0x80 ∷ []) ≡ false
unfolding is_utf8
utf8_surrogate = refl

utf8_cut : is_utf8 (0x61 ∷ 0xe2 ∷ 0x82 ∷ []) ≡ false
unfolding is_utf8
utf8_cut = refl
