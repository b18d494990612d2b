-- ===== src/Prelude/Strings.antt =====
-- Rust's `str`, as the list of its characters by their Unicode numbers, and reading by lines.
use Prim.Native.Nat.{ℕ, zero, suc, ◌+◌, ◌-◌, ◌*◌, ◌/◌, ◌%◌}
use mathlib.Core.Path.{◌≡◌, refl, ap}
use mathlib.Core.Bool.{Bool, true, false, ◌&&◌, ◌||◌}
use mathlib.Core.Option.{Option, none, some}
use mathlib.Core.List.{List, [], ◌∷◌, ◌++◌, reverse, reverse-append}
use native.Mathlib.Omega.{arith}
use sleepwalk.Prelude.Tests.{leb, ltb, ◌==◌, if◌then◌else◌}
use sleepwalk.Prelude.Lists.{All}

-- `char::is_whitespace`: the characters with the Unicode property White_Space.
abbrev pub is_whitespace : ℕ → Bool
is_whitespace c =
    (leb 0x09 c && leb c 0x0d)
    || c == 0x20
    || c == 0x85
    || c == 0xa0
    || c == 0x1680
    || (leb 0x2000 c && leb c 0x200a)
    || c == 0x2028
    || c == 0x2029
    || c == 0x202f
    || c == 0x205f
    || c == 0x3000

unfoldable pub trim_start : List ℕ → List ℕ
trim_start [] = []
trim_start (c ∷ t) = let rest = trim_start t in if is_whitespace c then rest else c ∷ t

unfoldable pub trim_end : List ℕ → List ℕ
trim_end t = reverse (trim_start (reverse t))

-- `str::trim`
unfoldable pub trim : List ℕ → List ℕ
trim t = trim_end (trim_start t)

-- `str::starts_with`
unfoldable pub starts_with : List ℕ → List ℕ → Bool
starts_with t [] = true
starts_with [] (p ∷ ps) = false
starts_with (c ∷ t) (p ∷ ps) = c == p && starts_with t ps

abbrev pub newline : ℕ
newline = 10

-- `read_line`: the first line with its newline, if it has one, and what comes after it.
unfoldable pub read_line : List ℕ → List ℕ × List ℕ
read_line [] = ([], [])
read_line (c ∷ s) =
    let (line, rest) = read_line s in if c == newline then (c ∷ [], s) else (c ∷ line, rest)

abbrev pub OneLine : List ℕ → Type 0
OneLine t = All (λ c. (c == newline) ≡ false) t

pub read_line-append :
    (t rest : List ℕ) → OneLine t → read_line (t ++ newline ∷ rest) ≡ (t ++ newline ∷ [], rest)
unfolding read_line
read_line-append [] rest h = refl
read_line-append (c ∷ t) rest h = ground (arith, read_line-append t rest h.1)

-- A newline at the end is trimmed away.
pub trim_end-newline : (t : List ℕ) → trim_end (t ++ newline ∷ []) ≡ trim_end t
unfolding trim_end trim_start
trim_end-newline t = ap (λ r. reverse (trim_start r)) (reverse-append t (newline ∷ []))

-- A digit below 36, in lower case.
abbrev pub digit : ℕ → ℕ
digit d = if ltb d 10 then 48 + d else 87 + d

-- The digits of a number in a base, without zeros in front; the number itself is fuel enough.
unfoldable pub digits_in : ℕ → ℕ → ℕ → List ℕ
digits_in base zero n = digit (n % base) ∷ []
digits_in base (suc fuel) n =
    let above = digits_in base fuel (n / base) in
    if ltb n base then digit n ∷ [] else above ++ digit (n % base) ∷ []

-- `Display` of an unsigned integer.
unfoldable pub decimal : ℕ → List ℕ
decimal n = digits_in 10 n n

abbrev onto : ℕ → List (List ℕ) → List (List ℕ)
onto c [] = (c ∷ []) ∷ []
onto c (w ∷ ws) = (c ∷ w) ∷ ws

-- `str::split` at a character.
unfoldable pub split : ℕ → List ℕ → List (List ℕ)
split sep [] = [] ∷ []
split sep (c ∷ t) = let rest = split sep t in if c == sep then [] ∷ rest else (onto c rest)

abbrev pub cons_first {ℓ} : {B : Type ℓ} → ℕ → Option (List ℕ × B) → Option (List ℕ × B)
cons_first c none = none
cons_first c (some (a, b)) = some (c ∷ a, b)

-- `str::split_once` at a character.
unfoldable pub split_once : ℕ → List ℕ → Option (List ℕ × List ℕ)
split_once sep [] = none
split_once sep (c ∷ t) =
    let later = cons_first c (split_once sep t) in if c == sep then some ([], t) else later

-- `char::to_digit`
unfoldable pub digit_value : ℕ → ℕ → Option ℕ
digit_value base c =
    let v : ℕ =
      if leb 48 c && leb c 57
      then c - 48
      else if leb 97 c && leb c 122
      then c - 87
      else if leb 65 c && leb c 90
      then c - 55
      else 36 in
    if ltb v base then some v else none

unfoldable pub parse_digits : ℕ → ℕ → List ℕ → Option ℕ
parse_digits base acc [] = some acc
parse_digits base acc (c ∷ t) = elim (digit_value base c) [
  | none ↦ none
  | some v ↦ elim (leb (acc * base + v) 255) [
    | true ↦ parse_digits base (acc * base + v) t
    | false ↦ none
  ]
]

-- `u8::from_str_radix`: a sign may stand in front, and a digit must follow.
unfoldable pub parse_u8 : ℕ → List ℕ → Option ℕ
parse_u8 base [] = none
parse_u8 base (c ∷ []) = if c == 43 then none else parse_digits base 0 (c ∷ [])
parse_u8 base (c ∷ d ∷ t) =
    if c == 43 then parse_digits base 0 (d ∷ t) else parse_digits base 0 (c ∷ d ∷ t)

-- No character of the text is the separator.
abbrev pub Free : ℕ → List ℕ → Type 0
Free sep t = All (λ c. (c == sep) ≡ false) t

pub split-Free : (sep : ℕ) (t : List ℕ) → Free sep t → split sep t ≡ t ∷ []
unfolding split
split-Free sep [] h = refl
split-Free sep (c ∷ t) h = ground (arith, split-Free sep t h.1)

sep_is : (sep : ℕ) → (sep == sep) ≡ true
sep_is sep = ground arith

pub split-append :
    (sep : ℕ) (t rest : List ℕ) → Free sep t → split sep (t ++ sep ∷ rest) ≡ t ∷ split sep rest
unfolding split
split-append sep [] rest h = ground (arith, sep_is sep)
split-append sep (c ∷ t) rest h = ground (arith, split-append sep t rest h.1)
