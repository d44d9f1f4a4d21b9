-- ===== src/Cmd/Memory.antt =====
-- What a memory size is read as.
use rtain.Base.{
  ℕ, ◌+◌, ◌-◌, ◌*◌, ◌^◌, ◌<◌, ◌≤◌, ◌≡◌, refl, String, true, ◌||◌, List, [], ◌∷◌, ◌++◌, some, All,
  arith, pos, ◌==◌, if◌then◌else◌, ok,
}
use rtain.Base.Text.{codes, digits}
use rtain.Base.Words.{Profile, mul_i64}
use rtain.Cmd.{
  unit_of, trim_start, push_back, trim_end, to_lower, to_lowercase, split_last, parse_i64,
  parse_memory_size,
}

-- The number that decimal digits stand for, behind others.
unfoldable pub value : ℕ → List ℕ → ℕ
value acc [] = acc
value acc (c ∷ cs) = value (acc * 10 + (c - b'0')) cs

abbrev pub Digit : ℕ → Type 0
Digit c = (b'0' ≤ c) × (c ≤ b'9')

value_le : (acc : ℕ) (cs : List ℕ) → acc ≤ value acc cs
unfolding value
value_le acc [] = omega arith
value_le acc (c ∷ cs) = omega (arith, value_le (acc * 10 + (c - b'0')) cs)

-- `digits` reads the number when it is below the limit.
digits-value :
    (limit acc : ℕ) (cs : List ℕ)
    → All Digit cs
    → value acc cs < limit
    → digits limit acc cs ≡ ok (value acc cs)
unfolding digits value
digits-value limit acc [] h small = refl
digits-value limit acc (c ∷ cs) (d, h) small =
    let later = digits-value limit (acc * 10 + (c - b'0')) cs h small in
    ground (arith, later, value_le (acc * 10 + (c - b'0')) cs)

-- Digits survive the trimming and the change of case, and are no unit.
trim_start-Digit : (c : ℕ) (cs : List ℕ) → Digit c → trim_start (c ∷ cs) ≡ c ∷ cs
unfolding trim_start
trim_start-Digit c cs d = ground arith

-- A unit's letter, as it is typed.
abbrev pub multiplier : ℕ → ℕ
multiplier u =
    if u == b'g' || u == b'G'
    then 1024 * 1024 * 1024
    else if u == b'm' || u == b'M'
    then 1024 * 1024
    else 1024

abbrev pub IsUnit : ℕ → Type 0
IsUnit u = (u == b'g' || u == b'G' || u == b'm' || u == b'M' || u == b'k' || u == b'K') ≡ true

-- A letter is no space.
push_back-unit : (u : ℕ) → IsUnit u → trim_end (u ∷ []) ≡ u ∷ []
unfolding trim_end
push_back-unit u h = ground arith

trim_end-digits :
    (cs : List ℕ) (u : ℕ) → All Digit cs → IsUnit u → trim_end (cs ++ u ∷ []) ≡ cs ++ u ∷ []
unfolding trim_end
trim_end-digits [] u h unit = push_back-unit u unit
trim_end-digits (c ∷ cs) u (d, h) unit = rw (trim_end-digits cs u h unit) (kept cs)
  where
    kept : (cs : List ℕ) → push_back c (cs ++ u ∷ []) ≡ c ∷ cs ++ u ∷ []
    kept [] = refl
    kept (d ∷ ds) = refl

to_lowercase-digits :
    (cs : List ℕ) (u : ℕ) → All Digit cs → to_lowercase (cs ++ u ∷ []) ≡ cs ++ to_lower u ∷ []
unfolding to_lowercase
to_lowercase-digits [] u h = refl
to_lowercase-digits (c ∷ cs) u (d, h) =
    let same : to_lower c ≡ c = ground arith in rw (same, to_lowercase-digits cs u h) refl

split_last-snoc : (cs : List ℕ) (u : ℕ) → split_last (cs ++ u ∷ []) ≡ some (cs, u)
unfolding split_last
split_last-snoc [] u = refl
split_last-snoc (c ∷ cs) u = rw (split_last-snoc cs u) refl

parse_i64-digits :
    (c : ℕ) (cs : List ℕ)
    → All Digit (c ∷ cs)
    → value 0 (c ∷ cs) < 2 ^ 63
    → parse_i64 (c ∷ cs) ≡ ok (pos (value 0 (c ∷ cs)))
unfolding parse_i64
parse_i64-digits c [] h small = rw (digits-value (2 ^ 63) 0 (c ∷ []) h small) refl
parse_i64-digits c (d ∷ cs) h small =
    let read = digits-value (2 ^ 63) 0 (c ∷ d ∷ cs) h small in rw read (ground arith)

unit_of-unit :
    (input front : List ℕ) (u : ℕ)
    → IsUnit u
    → unit_of input (some (front, to_lower u)) ≡ ok (front, multiplier u)
unit_of-unit input front u h = ground arith

-- A factor of at least one only makes a number larger.
factor_lt : (v m limit : ℕ) → 1 ≤ m → v * m < limit → v < limit
factor_lt v m limit h small = let grown : v * 1 ≤ v * m = grind arith in omega arith

-- Digits and a unit are read as the number times 1024, 1024 ^ 2 or 1024 ^ 3 bytes, in either case
-- of the letter, when the number of bytes is one of 63 bits.
pub parse_memory_size-unit :
    (profile : Profile) (text : String) (c : ℕ) (cs : List ℕ) (u : ℕ)
    → codes text ≡ (c ∷ cs) ++ u ∷ []
    → All Digit (c ∷ cs)
    → IsUnit u
    → value 0 (c ∷ cs) * multiplier u < 2 ^ 63
    → parse_memory_size profile text ≡ ok (pos (value 0 (c ∷ cs) * multiplier u))
unfolding parse_memory_size mul_i64
parse_memory_size-unit profile text c cs u e h unit small =
    let start = trim_start-Digit c (cs ++ u ∷ []) h.0 in
    let trimmed = trim_end-digits (c ∷ cs) u h unit in
    let lower = to_lowercase-digits (c ∷ cs) u h in
    let last = split_last-snoc (c ∷ cs) (to_lower u) in
    let one : 1 ≤ multiplier u = ground arith in
    let bound = factor_lt (value 0 (c ∷ cs)) (multiplier u) (2 ^ 63) one small in
    let number = parse_i64-digits c cs h bound in
    let unit_is = unit_of-unit ((c ∷ cs) ++ to_lower u ∷ []) (c ∷ cs) u unit in
    rw (e, start, trimmed, lower)
      (rw last (rw unit_is (rw number (fits (value 0 (c ∷ cs)) (multiplier u) small))))
  where
    fits : (v m : ℕ) → v * m < 2 ^ 63 → mul_i64 profile (pos v) m ≡ ok (pos (v * m))
    fits v m small = ground arith
