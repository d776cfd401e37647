-- ===== src/Strings/Scan.antt =====
-- strlen, strnlen, strcmp, strncmp, strchr and strfind of lib/string.c.
use fos_project.Prelude.Int.{pos, neg}
use fos_project.Prelude.{
  eq→==, ne→==, length, take, ℕ, zero, suc, ◌+◌, ◌<◌, min, ◌≡◌, refl, ap, ◌≢◌, ◌↔◌, Option, none,
  some, List, [], ◌∷◌, ◌++◌, arith, ℕ_discrete,
}
use fos_project.Strings.{
  strlen_loop, strlen, strnlen_loop, strnlen, strcmp, strncmp, strchr, strfind,
}

-- A string has no byte 0 before its end.
abbrev pub IsString : List ℕ → Type 0
IsString [] = Unit
IsString (c ∷ s) = (0 < c) × IsString s

strlen_loop-eq : (n : ℕ) (s : List ℕ) → strlen_loop n s ≡ n + length s
unfolding strlen_loop
strlen_loop-eq n [] = omega arith
strlen_loop-eq n (c ∷ s) = omega (arith, strlen_loop-eq (n + 1) s)

strnlen_loop-eq : (n size : ℕ) (s : List ℕ) → strnlen_loop n size s ≡ n + min size (length s)
unfolding strnlen_loop
strnlen_loop-eq n zero s = omega arith
strnlen_loop-eq n (suc size) [] = omega arith
strnlen_loop-eq n (suc size) (c ∷ s) = omega (arith, strnlen_loop-eq (n + 1) size s)

-- strlen counts the bytes before the terminator, and strnlen the same up to `size`.
strlen_strnlen_lem :
    (s : List ℕ) (size : ℕ) → (strlen s ≡ length s) × (strnlen s size ≡ min size (strlen s))
unfolding strlen strnlen
strlen_strnlen_lem s size = omega (arith, strlen_loop-eq 0 s, strnlen_loop-eq 0 size s)

-- strcmp gives 0 for equal strings and for no others.
pub strcmp-eq-zero_iff : (p q : List ℕ) → IsString p → IsString q → (strcmp p q ≡ pos 0) ↔ (p ≡ q)
unfolding strcmp
strcmp-eq-zero_iff [] [] h k = ((λ e. refl), (λ e. refl))
strcmp-eq-zero_iff [] (d ∷ q) h k = (ground arith, (λ e. cc))
strcmp-eq-zero_iff (c ∷ p) [] h k = (ground arith, (λ e. cc))
strcmp-eq-zero_iff (c ∷ p) (d ∷ q) h k =
    let ih = strcmp-eq-zero_iff p q h.1 k.1 in ground (arith, ih)

-- strcmp with its arguments swapped gives the opposite number.
pub strcmp_swap : (p q : List ℕ) → strcmp q p ≡ neg (strcmp p q)
unfolding strcmp
strcmp_swap [] [] = refl
strcmp_swap [] (d ∷ q) = ground arith
strcmp_swap (c ∷ p) [] = ground arith
strcmp_swap (c ∷ p) (d ∷ q) = ground (arith, strcmp_swap p q)

-- strncmp compares as strcmp does what is left of the two strings when they are cut after `n`
-- bytes.
pub strncmp-eq-strcmp : (p q : List ℕ) (n : ℕ) → strncmp p q n ≡ strcmp (take n p) (take n q)
unfolding strncmp strcmp
strncmp-eq-strcmp p q zero = refl
strncmp-eq-strcmp [] [] (suc n) = refl
strncmp-eq-strcmp [] (d ∷ q) (suc n) = refl
strncmp-eq-strcmp (c ∷ p) [] (suc n) = refl
strncmp-eq-strcmp (c ∷ p) (d ∷ q) (suc n) = ground (arith, strncmp-eq-strcmp p q n)

-- The byte is not in the string.
abbrev pub Lacks : ℕ → List ℕ → Type 0
Lacks c [] = Unit
Lacks c (d ∷ s) = (d ≢ c) × Lacks c s

-- What a search for `c` in `s` may give: the rest of the string from the first `c` on, or nothing
-- if the string has none.
abbrev pub FirstAt : ℕ → List ℕ → Option (List ℕ) → Type 0
FirstAt c s none = Lacks c s
FirstAt c s (some r) =
    (before : List ℕ) × (after : List ℕ) × (s ≡ before ++ r) × (r ≡ c ∷ after) × Lacks c before

FirstAt-cons :
    (c d : ℕ) (s : List ℕ) (r : Option (List ℕ)) → d ≢ c → FirstAt c s r → FirstAt c (d ∷ s) r
FirstAt-cons c d s none n h = (n, h)
FirstAt-cons c d s (some r) n (b, a, e, f, l) = (d ∷ b, a, ap (◌∷◌ d) e, f, (n, l))

-- strchr gives the part of the string from the first `c` on, and NULL if and only if there is none.
-- strfind gives the same part, or else the end of the string.
strchr_strfind_lem :
    (s : List ℕ) (c : ℕ)
    → FirstAt c s (strchr s c) × (strfind s c ≡ elim (strchr s c) [ none ↦ [] | some r ↦ r ])
unfolding strchr strfind
strchr_strfind_lem [] c = (tt, refl)
strchr_strfind_lem (d ∷ s) c = elim (ℕ_discrete d c) [
  | yes e ↦ rw (eq→== d c e) (([], s, refl, ap (λ x. x ∷ s) e, tt), refl)
  | no n ↦
      rw (ne→== d c n)
        (FirstAt-cons c d s (strchr s c) n (strchr_strfind_lem s c).0, (strchr_strfind_lem s c).1)
]
