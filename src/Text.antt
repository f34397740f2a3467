-- ===== src/Text.antt =====
-- Text as lists of code points: the operations of `str` that the sources use. Header values are
-- visible ASCII where they are read as text, so white space is that of ASCII.
use Prim.Native.Char.{code}
use Prim.Native.String.{String}
use openwire.Base.{
  ℕ, zero, suc, ◌+◌, ◌-◌, ◌*◌, ◌/◌, ◌%◌, ◌≡◌, refl, ap₂, Bool, true, false, ◌&&◌, ◌||◌, List, [],
  ◌∷◌, map, Option, none, some, ltb, leb, between, ◌==◌, ==_iff, ==_self, if◌then◌else◌, length,
  take, drop, arith,
}

abbrev pub codes : String → List ℕ
codes String.[] = []
codes (String.◌∷◌ letter text) = code letter ∷ codes text

unfoldable pub text_eq : List ℕ → List ℕ → Bool
text_eq [] [] = true
text_eq [] (y ∷ ys) = false
text_eq (x ∷ xs) [] = false
text_eq (x ∷ xs) (y ∷ ys) = x == y && text_eq xs ys

pub text_eq_sound : (xs ys : List ℕ) → text_eq xs ys ≡ true → xs ≡ ys
unfolding text_eq
text_eq_sound [] [] h = refl
text_eq_sound [] (y ∷ ys) h = absurd (ground arith)
text_eq_sound (x ∷ xs) [] h = absurd (ground arith)
text_eq_sound (x ∷ xs) (y ∷ ys) h =
    ap₂ (λ a b. a ∷ b) ((==_iff x y).0 (ground arith)) (text_eq_sound xs ys (ground arith))

pub text_eq_self : (xs : List ℕ) → text_eq xs xs ≡ true
unfolding text_eq
text_eq_self [] = refl
text_eq_self (x ∷ xs) = ground (arith, ==_self x, text_eq_self xs)

-- `to_ascii_lowercase`.
unfoldable pub to_ascii_lowercase : List ℕ → List ℕ
to_ascii_lowercase = map (λ c. if between b'A' b'Z' c then c + 32 else c)

unfoldable pub strip_prefix : List ℕ → List ℕ → Option (List ℕ)
strip_prefix [] text = some text
strip_prefix (p ∷ prefix) [] = none
strip_prefix (p ∷ prefix) (c ∷ text) =
    let rest = strip_prefix prefix text in if p == c then rest else none

unfoldable pub strip_suffix : List ℕ → List ℕ → Option (List ℕ)
unfolding text_eq
strip_suffix suffix text =
    let n = length text - length suffix in
    if leb (length suffix) (length text) && text_eq (drop n text) suffix
    then some (take n text)
    else none

abbrev pub is_whitespace : ℕ → Bool
is_whitespace c = c == 32 || between 9 13 c

unfoldable pub trim_start : List ℕ → List ℕ
trim_start [] = []
trim_start (c ∷ text) = let rest = trim_start text in if is_whitespace c then rest else c ∷ text

unfoldable pub trim_end : List ℕ → List ℕ
trim_end [] = []
trim_end (c ∷ text) =
    let rest = trim_end text in
    elim rest [ [] ↦ (if is_whitespace c then [] else c ∷ []) | d ∷ ds ↦ c ∷ d ∷ ds ]

unfoldable pub trim : List ℕ → List ℕ
unfolding trim_start trim_end
trim text = trim_end (trim_start text)

-- A piece in front of the first one.
abbrev pub onto_first : ℕ → List (List ℕ) → List (List ℕ)
onto_first c [] = (c ∷ []) ∷ []
onto_first c (piece ∷ pieces) = (c ∷ piece) ∷ pieces

-- `split` at each separator: one piece more than there are separators.
unfoldable pub split_on : ℕ → List ℕ → List (List ℕ)
split_on sep [] = [] ∷ []
split_on sep (c ∷ text) =
    let rest = split_on sep text in if c == sep then [] ∷ rest else onto_first c rest

abbrev before : ℕ → Option (List ℕ × List ℕ) → Option (List ℕ × List ℕ)
before c none = none
before c (some (left, right)) = some (c ∷ left, right)

-- `split_once`.
unfoldable pub split_once : ℕ → List ℕ → Option (List ℕ × List ℕ)
split_once sep [] = none
split_once sep (c ∷ text) =
    let rest = split_once sep text in if c == sep then some ([], text) else before c rest

-- The decimal digits after `n`, most significant first, below the bound.
unfoldable pub parse_digits : ℕ → ℕ → List ℕ → Option ℕ
parse_digits bound n [] = some n
parse_digits bound n (c ∷ cs) =
    let rest = parse_digits bound (n * 10 + (c - b'0')) cs in
    if between b'0' b'9' c && ltb (n * 10 + (c - b'0')) bound then rest else none

-- `str::parse` for an unsigned integer below the bound: a plus sign may come first, and there is a
-- digit.
unfoldable pub parse_unsigned : ℕ → List ℕ → Option ℕ
unfolding parse_digits
parse_unsigned bound [] = none
parse_unsigned bound (c ∷ []) = if c == b'+' then none else parse_digits bound 0 (c ∷ [])
parse_unsigned bound (c ∷ d ∷ cs) =
    if c == b'+' then parse_digits bound 0 (d ∷ cs) else parse_digits bound 0 (c ∷ d ∷ cs)

-- The decimal digits of a number below `10 ^ fuel`, before those that are there.
unfoldable pub decimal_onto : ℕ → ℕ → List ℕ → List ℕ
decimal_onto zero n rest = rest
decimal_onto (suc fuel) n rest =
    let more = decimal_onto fuel (n / 10) ((b'0' + n % 10) ∷ rest) in
    if ltb n 10 then (b'0' + n) ∷ rest else more

-- `to_string` of a number of 64 bits.
unfoldable pub decimal : ℕ → List ℕ
unfolding decimal_onto
decimal n = decimal_onto 20 n []
