-- ===== src/Strings/Tests.antt =====
-- The string functions' theorems at concrete strings.
use fos_project.Strings.Split.{strsplit}
use fos_project.Strings.Copy.Bounds.{Writes, strlcpy-Writes}
use fos_project.Strings.Split.Arguments.{Splits, strsplit-Splits}
use fos_project.Strings.Copy.{strlcpy}
use fos_project.Strings.Scan.{strcmp_swap, strncmp-eq-strcmp}
use fos_project.Prelude.Int.{pos, negsuc, neg}
use fos_project.Strings.Numbers.{signed, strtol, ltostr}
use fos_project.Strings.Numbers.RoundTrip.{
  kept, word, magnitude, negative, NoZero, strtol-ltostr-kept, strtol-ltostr,
}
use fos_project.Strings.{strcmp, strncmp}
use fos_project.Prelude.{length, take, ℕ, suc, ◌≤◌, min, ◌≡◌, inl, inr, List, [], ◌∷◌, arith}

abbrev fos : List ℕ
fos = 70 ∷ 79 ∷ 83 ∷ []

abbrev foo : List ℕ
foo = 70 ∷ 79 ∷ 79 ∷ []

strcmp_swap_example : strcmp foo fos ≡ neg (strcmp fos foo)
strcmp_swap_example = strcmp_swap fos foo

strncmp-eq-strcmp_example : strncmp fos foo 2 ≡ strcmp (take 2 fos) (take 2 foo)
strncmp-eq-strcmp_example = strncmp-eq-strcmp fos foo 2

strlcpy-Writes_example :
    ((strlcpy 16 fos 3 (λ a. a)).0 ≡ min 2 (length fos))
    × Writes 16 (take 2 fos) (suc (min 2 (length fos))) (λ a. a) (strlcpy 16 fos 3 (λ a. a)).1
    × ((a : ℕ) → 19 ≤ a → (strlcpy 16 fos 3 (λ a. a)).1 a ≡ a)
strlcpy-Writes_example = strlcpy-Writes 16 2 fos (λ a. a) (omega arith)

strsplit-Splits_example :
    Splits (32 ∷ []) 15 (70 ∷ 32 ∷ 32 ∷ 79 ∷ []) (strsplit (70 ∷ 32 ∷ 32 ∷ 79 ∷ []) (32 ∷ []))
strsplit-Splits_example = strsplit-Splits (32 ∷ []) (70 ∷ 32 ∷ 32 ∷ 79 ∷ [])

strtol-ltostr-kept_example :
    strtol (ltostr (pos 4096)) 10
    ≡ signed (negative (pos 4096)) (kept 10 (magnitude (pos 4096)), [])
strtol-ltostr-kept_example = strtol-ltostr-kept (pos 4096) (omega arith)

year-NoZero : NoZero 10 1230
year-NoZero = inr (omega arith, inr (omega arith, inr (omega arith, inl (omega arith))))

strtol-ltostr_example : strtol (ltostr (negsuc 1229)) 10 ≡ (word (negsuc 1229), [])
strtol-ltostr_example = strtol-ltostr (negsuc 1229) (omega arith) year-NoZero
