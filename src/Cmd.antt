-- ===== src/Cmd.antt =====
-- The commands of src/core/cmd.rs and the parser of a memory size. The parser `clap` makes of the
-- declarations is not modelled.
pub mod Memory
use rtain.Base.{
  ℕ, zero, suc, ◌+◌, ◌-◌, ◌*◌, ◌%◌, ◌^◌, String, Bool, true, false, ◌&&◌, ◌||◌, List, [], ◌∷◌,
  Option, some, none, ℤ, pos, negsuc, leb, ltb, ◌==◌, if◌then◌else◌, Outcome, ok, err, panic, ◌>>=◌,
}
use rtain.Base.Text.{codes, digits, is_digit}
use rtain.Base.Words.{Profile, mul_i64}

pub record RunArgs : Type 0 where
  pub name : Option String
  pub memory : Option ℤ
  pub volume : Option String
  pub detach : Bool
  pub image : String
  pub command : List String

pub record StartArgs : Type 0 where
  pub name : String
  pub detach : Bool

pub record ExecArgs : Type 0 where
  pub name : String
  pub command : List String

pub record StopArgs : Type 0 where
  pub name : String

pub record RmArgs : Type 0 where
  pub name : String

pub record PsArgs : Type 0 where
  pub all : Bool

pub record LogsArgs : Type 0 where
  pub name : String

pub record CommitArgs : Type 0 where
  pub name : String
  pub image : String

pub record NetCreateArgs : Type 0 where
  pub subnet : String
  pub driver : String
  pub name : String

pub data NetworkCommands : Type 0 where
  create : NetCreateArgs → NetworkCommands

pub data Commands : Type 0 where
  run : RunArgs → Commands
  start : StartArgs → Commands
  exec : ExecArgs → Commands
  stop : StopArgs → Commands
  rm : RmArgs → Commands
  ps : PsArgs → Commands
  logs : LogsArgs → Commands
  commit : CommitArgs → Commands
  network : NetworkCommands → Commands

pub record Cli : Type 0 where
  pub command : Commands

-- `trim` and `to_lowercase`, of texts of ASCII characters.
abbrev is_space : ℕ → Bool
is_space c = c == b' ' || (leb 9 c && leb c 13)

unfoldable pub trim_start : List ℕ → List ℕ
trim_start [] = []
trim_start (c ∷ cs) = let rest = trim_start cs in if is_space c then rest else c ∷ cs

abbrev pub push_back : ℕ → List ℕ → List ℕ
push_back c [] = if is_space c then [] else c ∷ []
push_back c (d ∷ rest) = c ∷ d ∷ rest

unfoldable pub trim_end : List ℕ → List ℕ
trim_end [] = []
trim_end (c ∷ cs) = push_back c (trim_end cs)

abbrev pub to_lower : ℕ → ℕ
to_lower c = if leb b'A' c && leb c b'Z' then c + 32 else c

unfoldable pub to_lowercase : List ℕ → List ℕ
to_lowercase [] = []
to_lowercase (c ∷ cs) = to_lower c ∷ to_lowercase cs

-- The text before its last character, and this character.
unfoldable pub split_last : List ℕ → Option (List ℕ × ℕ)
split_last [] = none
split_last (c ∷ cs) = elim (split_last cs) [
  | none ↦ some ([], c)
  | some (front, last) ↦ some (c ∷ front, last)
]

unfoldable pub all_digits : List ℕ → Bool
all_digits [] = true
all_digits (c ∷ cs) = is_digit c && all_digits cs

abbrev negated : ℕ → ℤ
negated zero = pos 0
negated (suc n) = negsuc n

abbrev minus : Outcome ℕ → Outcome ℤ
minus n = n >>= λ k. ok (negated k)

abbrev plus : Outcome ℕ → Outcome ℤ
plus n = n >>= λ k. ok (pos k)

-- `parse::<i64>`
unfoldable pub parse_i64 : List ℕ → Outcome ℤ
unfolding digits
parse_i64 [] = err "cannot parse integer from empty string"
parse_i64 (c ∷ []) = plus (digits (2 ^ 63) 0 (c ∷ []))
parse_i64 (c ∷ d ∷ cs) =
    if c == b'-'
    then minus (digits (2 ^ 63 + 1) 0 (d ∷ cs))
    else if c == b'+'
    then plus (digits (2 ^ 63) 0 (d ∷ cs))
    else plus (digits (2 ^ 63) 0 (c ∷ d ∷ cs))

-- The number and its multiplier.
abbrev pub unit_of : List ℕ → Option (List ℕ × ℕ) → Outcome (List ℕ × ℕ)
unit_of input none = ok (input, 1)
unit_of input (some (front, last)) =
    if last == b'g'
    then ok (front, 1024 * 1024 * 1024)
    else if last == b'm'
    then ok (front, 1024 * 1024)
    else if last == b'k'
    then ok (front, 1024)
    else if all_digits input
    then ok (input, 1)
    else err "Invalid memory size"

unfoldable pub parse_memory_size : Profile → String → Outcome ℤ
unfolding split_last all_digits parse_i64
parse_memory_size profile text = do
  let input = to_lowercase (trim_end (trim_start (codes text)))
  (number, multiplier) ← unit_of input (split_last input)
  n ← parse_i64 number
  mul_i64 profile n multiplier
