-- ===== src/Base/Text.antt =====
-- Text as its characters, and what the program uses of the standard library to take it apart:
-- `split_once`, `split`, `parse::<u32>` and `parse::<Ipv4Addr>`.
use Prim.Native.Nat.{ℕ, ◌+◌, ◌-◌, ◌*◌, ◌^◌}
use Prim.Native.Char.{code}
use Prim.Native.String
use Prim.Native.String.{String}
use mathlib.Core.Bool.{Bool, true, false, not, ◌&&◌, ◌||◌}
use mathlib.Core.Option.{Option, none, some}
use mathlib.Core.List.{List, [], ◌∷◌}
use rtain.Base.Tests.{leb, ltb, ◌==◌, if◌then◌else◌}
use rtain.Base.Lists.{length}
use rtain.Base.Failure.{Outcome, ok, err, panic, ◌>>=◌}

abbrev pub codes : String → List ℕ
codes String.[] = []
codes (String.◌∷◌ c s) = code c ∷ codes s

-- `split_once`: before and behind the first separator.
unfoldable pub split_once : ℕ → List ℕ → Option (List ℕ × List ℕ)
split_once sep [] = none
split_once sep (c ∷ cs) =
    let rest = split_once sep cs in
    if c == sep then some ([], cs) else elim rest [ none ↦ none | some (a, b) ↦ some (c ∷ a, b) ]

abbrev push_first : ℕ → List (List ℕ) → List (List ℕ)
push_first c [] = (c ∷ []) ∷ []
push_first c (part ∷ parts) = (c ∷ part) ∷ parts

-- `split`: the parts between the separators, one more than there are separators.
unfoldable pub split : ℕ → List ℕ → List (List ℕ)
split sep [] = [] ∷ []
split sep (c ∷ cs) = let rest = split sep cs in if c == sep then [] ∷ rest else push_first c rest

abbrev pub is_digit : ℕ → Bool
is_digit c = leb b'0' c && leb c b'9'

-- The digits of a number below `limit`, behind those that gave `acc`.
unfoldable pub digits : ℕ → ℕ → List ℕ → Outcome ℕ
digits limit acc [] = ok acc
digits limit acc (c ∷ cs) =
    let n = acc * 10 + (c - b'0') in
    let rest = digits limit n cs in
    if not (is_digit c)
    then err "invalid digit found in string"
    else if ltb n limit
    then rest
    else err "number too large to fit in target type"

-- `parse` at an unsigned type of `limit` values. A sign `+` may stand in front of a digit.
unfoldable pub parse_unsigned : ℕ → List ℕ → Outcome ℕ
unfolding digits
parse_unsigned limit [] = err "cannot parse integer from empty string"
parse_unsigned limit (c ∷ []) = digits limit 0 (c ∷ [])
parse_unsigned limit (c ∷ d ∷ cs) =
    if c == b'+' then digits limit 0 (d ∷ cs) else digits limit 0 (c ∷ d ∷ cs)

abbrev no_ip : String
no_ip = "invalid IPv4 address syntax"

-- One of the four numbers of an address: up to three digits, no zero in front of others.
unfoldable pub octet : List ℕ → Outcome ℕ
unfolding digits
octet [] = err no_ip
octet (c ∷ cs) =
    if (c == b'0' && ltb 0 (length cs)) || ltb 2 (length cs)
    then err no_ip
    else elim (digits 256 0 (c ∷ cs)) [ ok n ↦ ok n | err e ↦ err no_ip | panic ↦ panic ]

abbrev pub four : List (List ℕ) → Outcome ℕ
four (a ∷ b ∷ c ∷ d ∷ []) = do
  w ← octet a
  x ← octet b
  y ← octet c
  z ← octet d
  ok (w * 2 ^ 24 + x * 2 ^ 16 + y * 2 ^ 8 + z)
four _ = err no_ip

-- An address is the number of its 32 bits.
unfoldable pub parse_ipv4 : List ℕ → Outcome ℕ
parse_ipv4 text = four (split b'.' text)

abbrev pub starts_with : List ℕ → List ℕ → Bool
starts_with [] text = true
starts_with (p ∷ prefix) [] = false
starts_with (p ∷ prefix) (c ∷ text) = (p == c) && starts_with prefix text

-- `contains`, at a pattern that is a text.
unfoldable pub contains : List ℕ → List ℕ → Bool
contains pattern [] = starts_with pattern []
contains pattern (c ∷ text) =
    let rest = contains pattern text in if starts_with pattern (c ∷ text) then true else rest

-- Parts of a text put together: `format!`.
infixr 65 ◌⧺◌
abbrev pub ◌⧺◌ : String → String → String
a ⧺ b = Prim.Native.String.◌++◌ a b
