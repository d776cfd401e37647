-- ===== src/Strings/Split/Arguments.antt =====
-- The arguments of strsplit.
use fos_project.Strings.{strchr}
use mathlib.Core.List.{append-nil}
use mathlib.Core.Path.{subst⁻¹}
use fos_project.Strings.Split.{
  is_found, is_split, trim, grow, scan_argument, add_argument, split_loop, strsplit,
}
use fos_project.Prelude.{
  if◌then◌else◌, Bool-cases, eq→==, ne→==, length, ℕ, zero, suc, ◌+◌, ◌≤◌, ◌<◌, ◌≡◌, refl, sym, ap,
  ◌∙◌, ◌≢◌, ◌⊎◌, inl, inr, Bool, true, false, some, List, [], ◌∷◌, ◌++◌, arith, ℕ_discrete,
}

abbrev pub In : ℕ → List ℕ → Type 0
In c [] = ⊥
In c (d ∷ s) = (d ≡ c) ⊎ In c s

strchr-In : (c : ℕ) (s : List ℕ) → is_split s c ≡ true → In c s
unfolding is_split strchr
strchr-In c [] e = cc
strchr-In c (d ∷ s) e = elim (ℕ_discrete d c) [
  | yes h ↦ inl h
  | no h ↦ inr (
      strchr-In c s
        (sym (ap (λ b. is_found (if b then some (d ∷ s) else strchr s c)) (ne→== d c h)) ∙ e))
]

strchr-NotIn : (c : ℕ) (s : List ℕ) → is_split s c ≡ false → In c s → ⊥
unfolding is_split strchr
strchr-NotIn c [] e i = i
strchr-NotIn c (d ∷ s) e i = elim (ℕ_discrete d c) [
  | yes h ↦ absurd (
      true-false
        (sym (ap (λ b. is_found (if b then some (d ∷ s) else strchr s c)) (eq→== d c h)) ∙ e))
  | no h ↦ elim i [
    | inl a ↦ h a
    | inr a ↦
        strchr-NotIn c s
          (sym (ap (λ b. is_found (if b then some (d ∷ s) else strchr s c)) (ne→== d c h)) ∙ e) a
  ]
]
  where
    true-false : true ≡ false → ⊥
    true-false q = cc

module _ (chars : List ℕ) where
  -- nothing but split characters
  abbrev pub IsBlank : List ℕ → Type 0
  IsBlank [] = Unit
  IsBlank (c ∷ s) = In c chars × IsBlank s

  abbrev pub IsWord : List ℕ → Type 0
  IsWord [] = Unit
  IsWord (c ∷ s) = (In c chars → ⊥) × IsWord s

  -- the end of the string, or a split character
  abbrev pub IsEnd : List ℕ → Type 0
  IsEnd [] = Unit
  IsEnd (c ∷ s) = In c chars

  -- The string is split characters, a word that is not empty and reaches up to a split character or
  -- the end, and so on for every word; `r` is what follows the last word.
  abbrev pub Layout : List ℕ → List (List ℕ) → List ℕ → Type 0
  Layout s [] r = s ≡ r
  Layout s (w ∷ ws) r =
      (blanks : List ℕ) × (rest : List ℕ) × (s ≡ blanks ++ (w ++ rest))
      × IsBlank blanks
      × (w ≢ [])
      × IsWord w
      × IsEnd rest
      × Layout rest ws r

  abbrev IsTrimmed : List ℕ → Type 0
  IsTrimmed [] = Unit
  IsTrimmed (c ∷ s) = is_split chars c ≡ false

  trim-IsTrimmed : (s : List ℕ) → IsTrimmed (trim chars s)
  unfolding trim
  trim-IsTrimmed [] = tt
  trim-IsTrimmed (c ∷ s) = elim (Bool-cases (is_split chars c)) [
    | inl e ↦ rw e (trim-IsTrimmed s)
    | inr e ↦ rw e e
  ]

  -- The characters that trim takes away.
  trim-Blank : (s : List ℕ) → (blanks : List ℕ) × (s ≡ blanks ++ trim chars s) × IsBlank blanks
  unfolding trim
  trim-Blank [] = ([], refl, tt)
  trim-Blank (c ∷ s) = elim (Bool-cases (is_split chars c)) [
    | inl e ↦
        let (blanks, h, b) = trim-Blank s in
        (c ∷ blanks, rw e (ap (λ t. c ∷ t) h), (strchr-In c chars e, b))
    | inr e ↦ ([], rw e refl, tt)
  ]

  trim-none : (s : List ℕ) → trim chars s ≡ [] → IsBlank s
  trim-none s h =
      let (blanks, e, b) = trim-Blank s in
      subst⁻¹ IsBlank (e ∙ ap (λ t. blanks ++ t) h ∙ append-nil blanks) b

  trim-word : (s : List ℕ) → IsBlank s → trim chars s ≡ []
  unfolding trim
  trim-word [] b = refl
  trim-word (c ∷ s) (b, bs) = elim (Bool-cases (is_split chars c)) [
    | inl e ↦ rw e (trim-word s bs)
    | inr e ↦ absurd (strchr-NotIn c chars e b)
  ]

  length-trim : (s : List ℕ) → length (trim chars s) ≤ length s
  unfolding trim
  length-trim [] = omega arith
  length-trim (c ∷ s) = elim (Bool-cases (is_split chars c)) [
    | inl e ↦ rw e (omega (arith, length-trim s))
    | inr e ↦ rw e (omega arith)
  ]

  -- What is scanned: a word up to a split character or the end, and the rest.
  abbrev Scans : List ℕ → List ℕ × List ℕ → Type 0
  Scans s (w, rest) = (s ≡ w ++ rest) × IsWord w × IsEnd rest × (length w + length rest ≡ length s)

  grow-Scans :
      (c : ℕ) (s : List ℕ) (r : List ℕ × List ℕ)
      → is_split chars c ≡ false
      → Scans s r
      → Scans (c ∷ s) (grow false c s r)
  unfolding grow
  grow-Scans c s (w, rest) e (l, k, z, n) =
      (ap (λ t. c ∷ t) l, (strchr-NotIn c chars e, k), z, omega (arith, n))

  scan_argument-Scans : (s : List ℕ) → Scans s (scan_argument chars s)
  unfolding scan_argument grow
  scan_argument-Scans [] = (refl, tt, tt, omega arith)
  scan_argument-Scans (c ∷ s) = elim (Bool-cases (is_split chars c)) [
    | inl e ↦
        subst⁻¹ (Scans (c ∷ s)) (ap (λ b. grow b c s (scan_argument chars s)) e)
          (refl, tt, strchr-In c chars e, omega arith)
    | inr e ↦
        subst⁻¹ (Scans (c ∷ s)) (ap (λ b. grow b c s (scan_argument chars s)) e)
          (grow-Scans c s (scan_argument chars s) e (scan_argument-Scans s))
  ]

  -- At a byte that is not split the word is not empty.
  scan-nonempty :
      (c : ℕ) (s : List ℕ) → is_split chars c ≡ false → (scan_argument chars (c ∷ s)).0 ≢ []
  unfolding scan_argument grow
  scan-nonempty c s e h = cons-nil (sym (ap (λ b. (grow b c s (scan_argument chars s)).0) e) ∙ h)
    where
      cons-nil : c ∷ (scan_argument chars s).0 ≡ [] → ⊥
      cons-nil q = cc

  word-positive : (w : List ℕ) → w ≢ [] → 0 < length w
  word-positive [] n = absurd (n refl)
  word-positive (c ∷ w) n = omega arith

  -- The arguments of `s`, of which there are `left` at most: either all of its words, or as many and
  -- there is a further word.
  abbrev pub Splits : ℕ → List ℕ → Bool × List (List ℕ) → Type 0
  Splits left s (true, words) = (r : List ℕ) × Layout s words r × IsBlank r × (length words ≤ left)
  Splits left s (false, words) =
      (r : List ℕ) × Layout s words r × (IsBlank r → ⊥) × (length words ≡ left)

  add_argument-Splits :
      (left : ℕ) (s blanks w rest : List ℕ) (r : Bool × List (List ℕ))
      → s ≡ blanks ++ (w ++ rest)
      → IsBlank blanks
      → w ≢ []
      → IsWord w
      → IsEnd rest
      → Splits left rest r
      → Splits (suc left) s (add_argument w r)
  unfolding add_argument
  add_argument-Splits left s blanks w rest (true, words) e b n k z (r, l, c, h) =
      (r, (blanks, rest, e, b, n, k, z, l), c, omega (arith, h))
  add_argument-Splits left s blanks w rest (false, words) e b n k z (r, l, c, h) =
      (r, (blanks, rest, e, b, n, k, z, l), c, ap suc h)

  split_loop-Splits :
      (fuel left : ℕ) (s t : List ℕ)
      → trim chars s ≡ t
      → length t < fuel
      → IsTrimmed t
      → Splits left s (split_loop fuel left chars t)
  unfolding split_loop
  split_loop-Splits zero left s t e h i = absurd (omega (arith, h))
  split_loop-Splits (suc fuel) left s [] e h i = (s, refl, trim-none s e, omega arith)
  split_loop-Splits (suc fuel) zero s (c ∷ t) e h i =
      (s, refl, (λ b. cons-nil (sym e ∙ trim-word s b)), refl)
    where
      cons-nil : c ∷ t ≡ [] → ⊥
      cons-nil q = cc
  split_loop-Splits (suc fuel) (suc left) s (c ∷ t) e h i =
      let (blanks, q, b) = trim-Blank s in
      let (l, w, z, n) = scan_argument-Scans (c ∷ t) in
      let word = (scan_argument chars (c ∷ t)).0 in
      let rest = (scan_argument chars (c ∷ t)).1 in
      let full = scan-nonempty c t i in
      let some_byte = word-positive word full in
      add_argument-Splits left s blanks word rest (split_loop fuel left chars (trim chars rest))
        (q ∙ ap (λ x. blanks ++ x) (e ∙ l)) b full w z
        (split_loop-Splits fuel left rest (trim chars rest) refl
          (omega (arith, n, h, some_byte, length-trim rest)) (trim-IsTrimmed rest))

  -- strsplit gives 15 arguments at most, which are the words of the string in their order: between
  -- the arguments, and in front of the first, stand only split characters, no argument is empty or has
  -- a split character, and each reaches up to a split character or the end of the string. Where it says
  -- that all of the string was split, only split characters follow the last argument; otherwise there
  -- are 15 and another byte follows.
  pub strsplit-Splits : (s : List ℕ) → Splits 15 s (strsplit s chars)
  unfolding strsplit
  strsplit-Splits s =
      split_loop-Splits (suc (length s)) 15 s (trim chars s) refl (omega (arith, length-trim s))
        (trim-IsTrimmed s)
