-- ===== src/Allocator/BestFit/Choices.antt =====
-- The first three loops of alloc_block_BF: an exact fit, and the choice of a block to split.
use fos_project.Prelude.{
  ltb, Bool-cases, Option-cases, eq→==, ne→==, All, ℕ, suc, ◌+◌, ◌≤◌, ◌<◌, ◌≡◌, refl, ◌∙◌, ◌≢◌, ◌⊎◌,
  inl, inr, ◌&&◌, Option, none, some, List, [], ◌∷◌, arith, dec_lt, ℕ_discrete,
}
use mathlib.Core.Path.{subst⁻¹}
use fos_project.Allocator.{Block, take_exact, Choice, first_larger, smaller, smallest_larger}
use fos_project.Allocator.Space.{Coalesced}
use fos_project.Allocator.Fit.{Taken, exact-Taken, keep-Taken}

-- A block of the list has the size and the start of the choice.
abbrev pub Member : Choice → List Block → Type 0
Member c [] = ⊥
Member c (b ∷ rest) = ((b.size ≡ c.0) × (b.sva ≡ c.1)) ⊎ Member c rest

-- The choice is a block of the list, and the smallest one of at least `size` bytes.
pub record Smallest (size : ℕ) (c : Choice) (xs : List Block) : Type 0 where
  pub member : Member c xs
  pub enough : size ≤ c.0
  pub least : All (λ b. size ≤ b.size → c.0 ≤ b.size) xs

pub take_exact-none :
    (size : ℕ) (xs : List Block) → take_exact size xs ≡ none → All (λ b. b.size ≢ size) xs
unfolding take_exact
take_exact-none size [] e = tt
take_exact-none size (b ∷ rest) e = elim (Option-cases (take_exact size rest)) [
  | inl n ↦ (ground arith, take_exact-none size rest n)
  | inr (r, n) ↦ ground arith
]

abbrev pub Exact : ℕ → ℕ → List Block → Option (Block × List Block) → Type 0
Exact lo size xs none = Unit
Exact lo size xs (some (b, free')) = Taken lo size xs b free' × Member (size, b.sva) xs

pub Member-le : (lo : ℕ) (c : Choice) (xs : List Block) → Coalesced lo xs → Member c xs → lo ≤ c.1
Member-le lo c [] k m = elim m [ ]
Member-le lo c (b ∷ rest) k (inl m) = omega arith
Member-le lo c (b ∷ rest) k (inr m) = omega (arith, Member-le (suc (b.sva + b.size)) c rest k.3 m)

pub take_exact-Exact :
    (lo size : ℕ) (xs : List Block) → Coalesced lo xs → Exact lo size xs (take_exact size xs)
unfolding take_exact
take_exact-Exact lo size [] c = tt
take_exact-Exact lo size (b ∷ rest) c = elim (ℕ_discrete b.size size) [
  | yes e ↦ rw (eq→== b.size size e) (exact-Taken lo size b rest e c, inl (e, refl))
  | no n ↦
      rw (ne→== b.size size n)
        (go (take_exact size rest) (take_exact-Exact (suc (b.sva + b.size)) size rest c.3))
]
  where
    go :
        (r : Option (Block × List Block))
        → Exact (suc (b.sva + b.size)) size rest r
        → Exact lo size (b ∷ rest) (elim r [ none ↦ none | some (x, free) ↦ some (x, b ∷ free) ])
    go none h = tt
    go (some (x, free)) h =
        (keep-Taken lo size b x rest free c (Member-le _ (size, x.sva) rest c.3 h.1) h.0, inr h.1)

-- The third loop from a choice that is large enough: it is kept or replaced by a block of the
-- list, and no larger block is below it.
abbrev pub Improved : ℕ → Choice → List Block → Choice → Type 0
Improved size c xs d =
    (size < d.0)
    × (d.0 ≤ c.0)
    × All (λ b. size < b.size → d.0 ≤ b.size) xs
    × ((d ≡ c) ⊎ Member d xs)

pub smaller-Improved :
    (size : ℕ) (c : Choice) (b : Block) → size < c.0 → Improved size c (b ∷ []) (smaller size c b)
unfolding smaller
smaller-Improved size c b h = elim (Bool-cases (ltb b.size c.0 && ltb size b.size)) [
  | inl e ↦ rw e (ground arith, ground arith, (ground arith, tt), inr (inl (refl, refl)))
  | inr e ↦ rw e (h, omega arith, (ground arith, tt), inl refl)
]

pub Improved-trans :
    (size : ℕ) (c d e : Choice) (b : Block) (rest : List Block)
    → Improved size c (b ∷ []) d
    → Improved size d rest e
    → Improved size c (b ∷ rest) e
Improved-trans size c d e b rest f g =
    (g.0, omega arith, (λ h. omega (arith, f.2.0 h), g.2), go f.3 g.3)
  where
    go : (d ≡ c) ⊎ Member d (b ∷ []) → (e ≡ d) ⊎ Member e rest → (e ≡ c) ⊎ Member e (b ∷ rest)
    go (inl p) (inl q) = inl (q ∙ p)
    go (inr (inl m)) (inl q) = inr (inl (rw q m))
    go (inr (inr m)) (inl q) = elim m [ ]
    go (inl p) (inr m) = inr (inr m)
    go (inr p) (inr m) = inr (inr m)

pub smallest_larger-Improved :
    (size : ℕ) (c : Choice) (xs : List Block)
    → size < c.0
    → Improved size c xs (smallest_larger size c xs)
unfolding smallest_larger
smallest_larger-Improved size c [] h = (h, omega arith, tt, inl refl)
smallest_larger-Improved size c (b ∷ rest) h =
    let f : Improved size c (b ∷ []) (smaller size c b) = smaller-Improved size c b h in
    Improved-trans size c (smaller size c b) (smallest_larger size c (b ∷ rest)) b rest f
      (smallest_larger-Improved size (smaller size c b) rest f.0)

-- With no larger block the first and third loop leave the choice as it was.
abbrev pub NoneLarger : ℕ → List Block → Type 0
NoneLarger size xs = All (λ b. b.size ≤ size) xs

pub first_larger-none :
    (size : ℕ) (c : Choice) (xs : List Block) → NoneLarger size xs → first_larger size c xs ≡ c
unfolding first_larger
first_larger-none size c [] h = refl
first_larger-none size c (b ∷ rest) h = ground (arith, first_larger-none size c rest h.1)

pub smaller-skip : (size : ℕ) (c : Choice) (b : Block) → b.size ≤ size → smaller size c b ≡ c
unfolding smaller
smaller-skip size c b h = ground arith

pub smallest_larger-none :
    (size : ℕ) (c : Choice) (xs : List Block) → NoneLarger size xs → smallest_larger size c xs ≡ c
unfolding smallest_larger
smallest_larger-none size c [] h = refl
smallest_larger-none size c (b ∷ rest) h =
    rw (smaller-skip size c b h.0) (smallest_larger-none size c rest h.1)

pub first_larger-hit :
    (size : ℕ) (c : Choice) (b : Block) (rest : List Block)
    → size < b.size
    → first_larger size c (b ∷ rest) ≡ (b.size, b.sva)
unfolding first_larger
first_larger-hit size c b rest h = ground arith

pub first_larger-skip :
    (size : ℕ) (c : Choice) (b : Block) (rest : List Block)
    → b.size ≤ size
    → first_larger size c (b ∷ rest) ≡ first_larger size c rest
unfolding first_larger
first_larger-skip size c b rest h = ground arith

pub first_larger-cases :
    (size : ℕ) (c : Choice) (xs : List Block)
    → NoneLarger size xs
      ⊎ ((size < (first_larger size c xs).0) × Member (first_larger size c xs) xs)
first_larger-cases size c [] = inl tt
first_larger-cases size c (b ∷ rest) = elim (dec_lt size b.size) [
  | yes h ↦ subst⁻¹ P (first_larger-hit size c b rest h) (inr (h, inl (refl, refl)))
  | no h ↦
      subst⁻¹ P (first_larger-skip size c b rest (omega arith))
        (elim (first_larger-cases size c rest) [
          | inl n ↦ inl (omega arith, n)
          | inr (l, m) ↦ inr (l, inr m)
        ])
]
  where
    P : Choice → Type 0
    P d = NoneLarger size (b ∷ rest) ⊎ ((size < d.0) × Member d (b ∷ rest))
