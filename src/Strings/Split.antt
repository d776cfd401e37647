-- ===== src/Strings/Split.antt =====
-- strsplit of lib/string.c. The arguments are the strings that argv points to afterwards; the blanks in
-- front of each are overwritten with zeros, which ends the argument before. The outer `while` runs
-- on fuel: each round but the last takes a byte at least.
pub mod Arguments
use fos_project.Strings.{strchr}
use fos_project.Prelude.{
  if◌then◌else◌, length, ℕ, zero, suc, Bool, true, false, Option, none, some, List, [], ◌∷◌,
}

-- `strchr(SPLIT_CHARS, c)`
abbrev pub is_found : Option (List ℕ) → Bool
is_found none = false
is_found (some s) = true

pub is_split : List ℕ → ℕ → Bool
is_split chars c = is_found (strchr chars c)

pub trim : List ℕ → List ℕ → List ℕ
trim chars [] = []
trim chars (c ∷ s) = let rest = trim chars s in if is_split chars c then rest else c ∷ s

-- a byte in front of an argument and the string behind it; a split byte ends the argument before
pub grow : Bool → ℕ → List ℕ → List ℕ × List ℕ → List ℕ × List ℕ
grow true c s r = ([], c ∷ s)
grow false c s (word, rest) = (c ∷ word, rest)

-- an argument, and the string from its end on
pub scan_argument : List ℕ → List ℕ → List ℕ × List ℕ
scan_argument chars [] = ([], [])
scan_argument chars (c ∷ s) = grow (is_split chars c) c s (scan_argument chars s)

pub add_argument : List ℕ → Bool × List (List ℕ) → Bool × List (List ℕ)
add_argument word (all, words) = (all, word ∷ words)

-- The rounds on a string without blanks in front, with `left` arguments to go before
-- MAX_ARGUMENTS - 1; the result says whether all of the string was split.
pub split_loop : ℕ → ℕ → List ℕ → List ℕ → Bool × List (List ℕ)
split_loop zero left chars s = (true, [])
split_loop (suc fuel) left chars [] = (true, [])
split_loop (suc fuel) zero chars (c ∷ s) = (false, [])
split_loop (suc fuel) (suc left) chars (c ∷ s) =
    let (word, rest) = scan_argument chars (c ∷ s) in
    add_argument word (split_loop fuel left chars (trim chars rest))

pub strsplit : List ℕ → List ℕ → Bool × List (List ℕ)
strsplit s chars = split_loop (suc (length s)) 15 chars (trim chars s)
