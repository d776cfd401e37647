-- ===== src/Strings/Numbers/RoundTrip.antt =====
-- What strtol makes of the digits that ltostr writes.
use fos_project.Prelude.Int.{ℤ, pos, negsuc}
use fos_project.Prelude.Words.{u32_mod}
use fos_project.Strings.Numbers.{
  skip_blanks, sign, prefix, digit, digits, signed, with_base, after_sign, strtol, digits_loop,
  ltostr,
}
use fos_project.Prelude.{
  ◌==◌, if◌then◌else◌, Bool-cases, eq→==, ne→==, ℕ, zero, suc, ◌+◌, ◌-◌, ◌*◌, ◌/◌, ◌%◌, ◌^◌, ◌≤◌,
  ◌<◌, ◌≡◌, refl, sym, ap, ◌∙◌, ◌≢◌, ◌⊎◌, inl, inr, Bool, true, false, some, List, [], ◌∷◌, arith,
  ℕ_discrete,
}

-- The number whose digits are the lowest one of `value` and those up to the first zero above it.
abbrev pub kept : ℕ → ℕ → ℕ
kept zero value = 0
kept (suc n) value =
    if value / 10 % 10 == 0 then value % 10 else kept n (value / 10) * 10 + value % 10

abbrev power : ℕ → ℕ
power zero = 1
power (suc n) = 10 * power n

kept-le : (n value : ℕ) → kept n value ≤ value
kept-le zero value = omega arith
kept-le (suc n) value = ground (arith, kept-le n (value / 10))

digit-eq : (d : ℕ) → d < 10 → digit (d + 48) ≡ some d
unfolding digit
digit-eq d h = ground arith

digits-step :
    (val d : ℕ) (s : List ℕ)
    → d < 10
    → val * 10 + d < u32_mod
    → digits 10 val ((d + 48) ∷ s) ≡ digits 10 (val * 10 + d) s
unfolding digits
digits-step val d s h b = ground (arith, digit-eq d h)

digits-end : (val : ℕ) → digits 10 val [] ≡ (val, [])
unfolding digits
digits-end val = refl

loop-stops :
    (n value : ℕ) (s : List ℕ)
    → value / 10 % 10 ≡ 0
    → digits_loop (suc n) value s ≡ (value % 10 + 48) ∷ s
unfolding digits_loop
loop-stops n value s h = rw (eq→== (value / 10 % 10) 0 h) refl

loop-goes :
    (n value : ℕ) (s : List ℕ)
    → value / 10 % 10 ≢ 0
    → digits_loop (suc n) value s ≡ digits_loop n (value / 10) ((value % 10 + 48) ∷ s)
unfolding digits_loop
loop-goes n value s h = rw (ne→== (value / 10 % 10) 0 h) refl

kept-stops : (n value : ℕ) → value / 10 % 10 ≡ 0 → kept (suc n) value ≡ value % 10
kept-stops n value h = rw (eq→== (value / 10 % 10) 0 h) refl

kept-goes :
    (n value : ℕ) → value / 10 % 10 ≢ 0 → kept (suc n) value ≡ kept n (value / 10) * 10 + value % 10
kept-goes n value h = rw (ne→== (value / 10 % 10) 0 h) refl

stopped :
    (n value : ℕ) (s : List ℕ)
    → value / 10 % 10 ≡ 0
    → digits 10 0 (digits_loop (suc n) value s) ≡ digits 10 (kept (suc n) value) s
stopped n value s z =
    ap (digits 10 0) (loop-stops n value s z)
    ∙ digits-step 0 (value % 10) s (omega arith) (omega arith)
    ∙ ap (λ v. digits 10 v s) (omega arith ∙ sym (kept-stops n value z))

loop-digits :
    (n value : ℕ) (s : List ℕ)
    → value < power (suc n)
    → value < u32_mod
    → digits 10 0 (digits_loop (suc n) value s) ≡ digits 10 (kept (suc n) value) s
loop-digits zero value s h b = stopped zero value s (omega (arith, h))
loop-digits (suc n) value s h b = elim (ℕ_discrete (value / 10 % 10) 0) [
  | yes z ↦ stopped (suc n) value s z
  | no z ↦
      ap (digits 10 0) (loop-goes (suc n) value s z)
      ∙ loop-digits n (value / 10) ((value % 10 + 48) ∷ s) (omega (arith, h)) (omega (arith, b))
      ∙ digits-step (kept (suc n) (value / 10)) (value % 10) s (omega arith)
          (omega (arith, kept-le (suc n) (value / 10), b))
      ∙ ap (λ v. digits 10 v s) (sym (kept-goes (suc n) value z))
]

-- a string that begins with a digit
abbrev HasDigit : List ℕ → Type 0
HasDigit [] = ⊥
HasDigit (c ∷ s) = (48 ≤ c) × (c ≤ 57)

loop-HasDigit : (n value : ℕ) (s : List ℕ) → HasDigit s → HasDigit (digits_loop n value s)
unfolding digits_loop
loop-HasDigit zero value s h = h
loop-HasDigit (suc n) value s h = elim (Bool-cases (value / 10 % 10 == 0)) [
  | inl e ↦ rw e (omega arith, omega arith)
  | inr e ↦ rw e (loop-HasDigit n (value / 10) ((value % 10 + 48) ∷ s) (omega arith, omega arith))
]

ltostr-HasDigit : (n value : ℕ) → HasDigit (digits_loop (suc n) value [])
unfolding digits_loop
ltostr-HasDigit n value = elim (Bool-cases (value / 10 % 10 == 0)) [
  | inl e ↦ rw e (omega arith, omega arith)
  | inr e ↦ rw e (loop-HasDigit n (value / 10) ((value % 10 + 48) ∷ []) (omega arith, omega arith))
]

strtol-digits : (s : List ℕ) → HasDigit s → strtol s 10 ≡ signed false (digits 10 0 s)
unfolding strtol skip_blanks sign prefix after_sign with_base
strtol-digits [] h = elim h [ ]
strtol-digits (c ∷ s) h = ground (arith, h)

strtol-minus : (s : List ℕ) → HasDigit s → strtol (45 ∷ s) 10 ≡ signed true (digits 10 0 s)
unfolding strtol skip_blanks sign prefix after_sign with_base
strtol-minus [] h = elim h [ ]
strtol-minus (c ∷ s) h = ground (arith, h)

-- the 32-bit word of an integer
abbrev pub word : ℤ → ℕ
word (pos n) = n
word (negsuc n) = u32_mod - (n + 1)

abbrev pub magnitude : ℤ → ℕ
magnitude (pos n) = n
magnitude (negsuc n) = n + 1

abbrev pub negative : ℤ → Bool
negative (pos n) = false
negative (negsuc n) = true

-- No digit of the number but the lowest is 0.
abbrev pub NoZero : ℕ → ℕ → Type 0
NoZero zero value = Unit
NoZero (suc n) value = (value < 10) ⊎ ((value / 10 % 10 ≢ 0) × NoZero n (value / 10))

kept-NoZero : (n value : ℕ) → NoZero n value → value < power n → kept n value ≡ value
kept-NoZero zero value z h = omega (arith, h)
kept-NoZero (suc n) value (inl l) h = kept-stops n value (omega (arith, l)) ∙ omega (arith, l)
kept-NoZero (suc n) value (inr (d, z)) h =
    kept-goes n value d
    ∙ ap (λ v. v * 10 + value % 10) (kept-NoZero n (value / 10) z (omega (arith, h)))
    ∙ omega arith

signed-word :
    (value : ℤ)
    → magnitude value < 2 ^ 31
    → signed (negative value) (magnitude value, []) ≡ (word value, [])
unfolding signed
signed-word (pos n) h = refl
signed-word (negsuc n) h = ap (λ v. (v, [])) (omega (arith, h))

-- strtol in base 10 of what ltostr writes for an integer above -2^31 and below 2^31 ends at the end of
-- the string and gives, with the sign of the integer, the number of its lowest digit and the digits
-- up to the first 0 above it.
pub strtol-ltostr-kept :
    (value : ℤ)
    → magnitude value < 2 ^ 31
    → strtol (ltostr value) 10 ≡ signed (negative value) (kept 10 (magnitude value), [])
unfolding ltostr
strtol-ltostr-kept (pos n) h =
    strtol-digits (digits_loop 10 n []) (ltostr-HasDigit 9 n)
    ∙ ap (signed false)
        (loop-digits 9 n [] (omega (arith, h)) (omega (arith, h)) ∙ digits-end (kept 10 n))
strtol-ltostr-kept (negsuc n) h =
    strtol-minus (digits_loop 10 (n + 1) []) (ltostr-HasDigit 9 (n + 1))
    ∙ ap (signed true) (
        loop-digits 9 (n + 1) [] (omega (arith, h)) (omega (arith, h))
        ∙ digits-end (kept 10 (n + 1)))

-- An integer above -2^31 and below 2^31 that has no digit 0 but perhaps the lowest is read back by
-- strtol in base 10 from what ltostr writes, to the end of the string.
pub strtol-ltostr :
    (value : ℤ)
    → magnitude value < 2 ^ 31
    → NoZero 10 (magnitude value)
    → strtol (ltostr value) 10 ≡ (word value, [])
strtol-ltostr value h z =
    strtol-ltostr-kept value h
    ∙ ap (λ v. signed (negative value) (v, []))
        (kept-NoZero 10 (magnitude value) z (omega (arith, h)))
    ∙ signed-word value h
