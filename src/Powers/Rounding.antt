-- ===== src/Powers/Rounding.antt =====
-- What nearest_pow2_ceil and log2_ceil make of a word.
use native.Mathlib.Numerals.{unary_clauses}
use mathlib.Core.Path.{subst⁻¹}
use fos_project.Prelude.Words.{u32_mod}
use fos_project.Prelude.{
  leb, if◌then◌else◌, eq→==, ne→==, ℕ, zero, suc, ◌+◌, ◌-◌, ◌*◌, ◌/◌, ◌%◌, ◌^◌, ◌≤◌, ◌<◌, ◌≡◌, refl,
  ap, ◌∙◌, ◌⊎◌, inl, inr, false, arith, ℕ_discrete,
}
use fos_project.Powers.{pow2_loop, nearest_pow2_ceil, log2_loop, log2_ceil}

double : (k : ℕ) → 2 ^ suc k ≡ 2 ^ k * 2
double k = simp unary_clauses (omega arith)

-- What the loops on `x` give, which both do `j` rounds.
abbrev Rounds : ℕ → ℕ → ℕ → ℕ → ℕ → Type 0
Rounds x k bits power j =
    (bits ≡ suc (k + j))
    × (power ≡ 2 ^ (k + j) % u32_mod)
    × (x < 2 ^ suc j)
    × ((j ≡ 0) ⊎ (2 ^ j ≤ x))

loops-Rounds :
    (fuel x k : ℕ)
    → x < 2 ^ suc fuel
    → (j : ℕ) × Rounds x k (log2_loop fuel x (suc k)) (pow2_loop fuel x (2 ^ k % u32_mod)) j
unfolding log2_loop pow2_loop
loops-Rounds zero x k h = (0, (omega arith, ap (λ i. 2 ^ i % u32_mod) (omega arith), h, inl refl))
loops-Rounds (suc fuel) x k h = elim (ℕ_discrete (x / 2) 0) [
  | yes z ↦ (
    0,
    (
      rw (log2_loop, eq→== (x / 2) 0 z) (omega arith),
      rw (pow2_loop, eq→== (x / 2) 0 z) (ap (λ i. 2 ^ i % u32_mod) (omega arith)),
      omega (arith, z),
      inl refl,
    ),
  )
  | no n ↦
      let (j, (a, b, c, d)) =
        loops-Rounds fuel (x / 2) (suc k) (omega (arith, h, double (suc fuel))) in
      (
        suc j,
        (
          rw (log2_loop, ne→== (x / 2) 0 n)
              (ap (log2_loop fuel (x / 2)) (omega arith) ∙ a ∙ omega arith),
          rw (pow2_loop, ne→== (x / 2) 0 n)
              (ap (pow2_loop fuel (x / 2)) (omega (arith, double k))
                ∙ b
                ∙ ap (λ i. 2 ^ i % u32_mod) (omega arith)),
          omega (arith, c, double (suc j)),
          inr (elim d [
            | inl z ↦ subst⁻¹ (λ i. 2 ^ suc i ≤ x) z (omega (arith, n))
            | inr l ↦ omega (arith, l, double j)
          ]),
        ),
      )
]

-- nearest_pow2_ceil of a word from 1 to 2^31 - 1 is the least power of two that is not below it, and
-- log2_ceil is one more than its exponent.
pub nearest_pow2_ceil-log2_ceil :
    (x : ℕ)
    → 0 < x
    → x < 2 ^ 31
    → (k : ℕ) × (nearest_pow2_ceil x ≡ 2 ^ k)
      × (log2_ceil x ≡ suc k)
      × (x ≤ 2 ^ k)
      × (2 ^ k < 2 * x)
unfolding nearest_pow2_ceil log2_ceil
nearest_pow2_ceil-log2_ceil x p b = elim (ℕ_discrete x 1) [
  | yes o ↦ (0, ap nearest_pow2_ceil o, ap log2_ceil o, omega (arith, o), omega (arith, o))
  | no o ↦
      let (j, (l, n, c, d)) = loops-Rounds 32 (x - 1) 1 (omega (arith, b)) in
      let large : leb x 1 ≡ false = ground (arith, o, p) in
      let next : 1 + j ≡ suc j = omega arith in
      let low : 2 ^ suc j < 2 * x = elim d [
        | inl z ↦ subst⁻¹ (λ i. 2 ^ suc i < 2 * x) z (omega (arith, o, p))
        | inr g ↦ omega (arith, g, double j)
      ] in
      (
        suc j,
        ap (λ t. if t then 1 else pow2_loop 32 (x - 1) 2) large
            ∙ n
            ∙ ap (λ i. 2 ^ i % u32_mod) next
            ∙ omega (arith, low, b),
        ap (λ t. if t then 1 else log2_loop 32 (x - 1) 2) large ∙ l ∙ omega arith,
        omega (arith, c),
        low,
      )
]
