-- ===== src/Strings/Numbers.antt =====
-- strtol and ltostr of lib/string.c. A long is a 32-bit word; ltostr takes the integer that it stands
-- for, which is above -2^31.
pub mod RoundTrip
use fos_project.Prelude.Words.{u32_mod, add32, sub32}
use fos_project.Strings.{byte}
use fos_project.Strings.Copy.{rest_of}
use fos_project.Prelude.Int.{ℤ, pos, negsuc, neg}
use fos_project.Prelude.{
  leb, ◌==◌, if◌then◌else◌, ℕ, zero, suc, ◌+◌, ◌-◌, ◌*◌, ◌/◌, ◌%◌, Bool, true, false, ◌&&◌, ◌||◌,
  Option, none, some, List, [], ◌∷◌,
}

-- `while (*s == ' ' || *s == '\t') s++;`
pub skip_blanks : List ℕ → List ℕ
skip_blanks [] = []
skip_blanks (c ∷ s) = if (c == 32) || (c == 9) then skip_blanks s else c ∷ s

-- the sign, and what follows it
pub sign : List ℕ → Bool × List ℕ
sign s =
    if byte s == 43
    then (false, rest_of s)
    else if byte s == 45
    then (true, rest_of s)
    else (false, s)

-- the base, and what follows its prefix
pub prefix : ℕ → List ℕ → ℕ × List ℕ
prefix base s =
    if ((base == 0) || (base == 16)) && ((byte s == 48) && (byte (rest_of s) == 120))
    then (16, rest_of (rest_of s))
    else if (base == 0) && (byte s == 48)
    then (8, rest_of s)
    else if base == 0
    then (10, s)
    else (base, s)

pub digit : ℕ → Option ℕ
digit c =
    if leb 48 c && leb c 57
    then some (c - 48)
    else if leb 97 c && leb c 122
    then some (c - 97 + 10)
    else if leb 65 c && leb c 90
    then some (c - 65 + 10)
    else none

-- the loop over the digits
pub digits : ℕ → ℕ → List ℕ → ℕ × List ℕ
digits base val [] = (val, [])
digits base val (c ∷ s) = elim (digit c) [
  | none ↦ (val, c ∷ s)
  | some d ↦
      let rest = digits base (add32 (val * base % u32_mod) d) s in
      if leb base d then (val, c ∷ s) else rest
]

pub signed : Bool → ℕ × List ℕ → ℕ × List ℕ
signed neg (val, s) = (if neg then sub32 0 val else val, s)

-- the value, and what `endptr` points to
pub with_base : Bool → ℕ × List ℕ → ℕ × List ℕ
with_base neg (base, s) = signed neg (digits base 0 s)

pub after_sign : ℕ → Bool × List ℕ → ℕ × List ℕ
after_sign base (neg, s) = with_base neg (prefix base s)

pub strtol : List ℕ → ℕ → ℕ × List ℕ
strtol s base = after_sign base (sign (skip_blanks s))

-- The do loop of ltostr on `n` digits at most. It writes the lowest digit first and the loop behind it
-- turns the digits round; here each digit goes in front of those before it.
pub digits_loop : ℕ → ℕ → List ℕ → List ℕ
digits_loop zero value str = str
digits_loop (suc n) value str =
    let more = digits_loop n (value / 10) ((value % 10 + 48) ∷ str) in
    if value / 10 % 10 == 0 then (value % 10 + 48) ∷ str else more

-- A long has ten digits at most.
pub ltostr : ℤ → List ℕ
ltostr (pos n) = digits_loop 10 n []
ltostr (negsuc n) = 45 ∷ digits_loop 10 (n + 1) []
