-- ===== src/Allocator/BestFit/Chosen.antt =====
-- The fourth loop of alloc_block_BF: the chosen block is found again and split.
use fos_project.Prelude.{
  ◌==◌, Bool-cases, Result, ok, panic, ℕ, suc, ◌+◌, ◌<◌, ◌≡◌, refl, ◌↔◌, inl, inr, true, ◌&&◌, none,
  some, List, [], ◌∷◌, arith, ℕ_discrete,
}
use fos_project.Allocator.{Block, Found, split, keep, Choice, split_chosen}
use fos_project.Allocator.Space.{Coalesced}
use fos_project.Allocator.Fit.{Taken, split-FirstFit, keep-Taken}
use fos_project.Allocator.BestFit.Choices.{Member, Member-le}

-- The fourth loop: it splits the chosen block, if the list has it.
abbrev pub SplitChosen : ℕ → ℕ → Choice → List Block → List Block → Result Found → Type 0
SplitChosen lo size c avail xs (ok (none, avail', free')) = ⊥
SplitChosen lo size c avail xs (ok (some x, avail', free')) =
    Taken lo size xs x free' × (x.sva ≡ c.1)
SplitChosen lo size c avail xs panic = avail ≡ []

pub split-SplitChosen :
    (lo size : ℕ) (c : Choice) (avail : List Block) (b : Block) (rest : List Block)
    → 0 < size
    → size < b.size
    → Coalesced lo (b ∷ rest)
    → b.sva ≡ c.1
    → SplitChosen lo size c avail (b ∷ rest) (split size avail b rest)
unfolding split
split-SplitChosen lo size c [] b rest z h k e = refl
split-SplitChosen lo size c (new ∷ avail) b rest z h k e =
    ((split-FirstFit lo size (new ∷ avail) b rest z h k).0, e)

pub keep-SplitChosen :
    (lo size : ℕ) (c : Choice) (avail : List Block) (b : Block) (rest : List Block)
    (r : Result Found)
    → Coalesced lo (b ∷ rest)
    → Member c rest
    → SplitChosen (suc (b.sva + b.size)) size c avail rest r
    → SplitChosen lo size c avail (b ∷ rest) (keep b r)
keep-SplitChosen lo size c avail b rest (ok (none, avail', free')) k m h = h
keep-SplitChosen lo size c avail b rest (ok (some x, avail', free')) k m h = (
  keep-Taken lo size b x rest free' k (omega (arith, Member-le (suc (b.sva + b.size)) c rest k.3 m))
      h.0,
  h.1,
)
keep-SplitChosen lo size c avail b rest panic k m h = h

-- The test of the fourth loop says whether the block is the chosen one.
pub chosen_iff :
    (c : Choice) (b : Block)
    → (((b.size == c.0) && (b.sva == c.1)) ≡ true) ↔ ((b.size ≡ c.0) × (b.sva ≡ c.1))
chosen_iff c b = ground arith

pub split_chosen-hit :
    (size : ℕ) (c : Choice) (avail : List Block) (b : Block) (rest : List Block)
    → (b.size ≡ c.0) × (b.sva ≡ c.1)
    → split_chosen size c avail (b ∷ rest) ≡ split size avail b rest
unfolding split_chosen
split_chosen-hit size c avail b rest h = rw ((chosen_iff c b).1 h)

pub split_chosen-miss :
    (size : ℕ) (c : Choice) (avail : List Block) (b : Block) (rest : List Block)
    → ¬ ((b.size ≡ c.0) × (b.sva ≡ c.1))
    → split_chosen size c avail (b ∷ rest) ≡ keep b (split_chosen size c avail rest)
unfolding split_chosen
split_chosen-miss size c avail b rest h = elim (Bool-cases ((b.size == c.0) && (b.sva == c.1))) [
  | inl e ↦ absurd (h ((chosen_iff c b).0 e))
  | inr e ↦ rw e
]

pub chosen? : (c : Choice) (b : Block) → Dec ((b.size ≡ c.0) × (b.sva ≡ c.1))
chosen? c b = elim (ℕ_discrete b.size c.0) [
  | yes e ↦ elim (ℕ_discrete b.sva c.1) [ yes f ↦ yes (e, f) | no f ↦ no (λ h. f h.1) ]
  | no e ↦ no (λ h. e h.0)
]

pub split_chosen-SplitChosen :
    (lo size : ℕ) (c : Choice) (avail xs : List Block)
    → 0 < size
    → size < c.0
    → Coalesced lo xs
    → Member c xs
    → SplitChosen lo size c avail xs (split_chosen size c avail xs)
split_chosen-SplitChosen lo size c avail [] z h k m = elim m [ ]
split_chosen-SplitChosen lo size c avail (b ∷ rest) z h k m = elim (chosen? c b) [
  | yes e ↦
      rw (split_chosen-hit size c avail b rest e)
        (split-SplitChosen lo size c avail b rest z (omega arith) k e.1)
  | no n ↦ rw (split_chosen-miss size c avail b rest n) (
      keep-SplitChosen lo size c avail b rest _ k (later n m)
        (split_chosen-SplitChosen (suc (b.sva + b.size)) size c avail rest z h k.3 (later n m)))
]
  where
    later : ¬ ((b.size ≡ c.0) × (b.sva ≡ c.1)) → Member c (b ∷ rest) → Member c rest
    later n (inl e) = absurd (n e)
    later n (inr m) = m

pub split_chosen-none :
    (size : ℕ) (c : Choice) (avail xs : List Block)
    → ¬ Member c xs
    → split_chosen size c avail xs ≡ ok (none, avail, xs)
split_chosen-none size c avail [] h = unfold split_chosen in refl
split_chosen-none size c avail (b ∷ rest) h = rw (
  split_chosen-miss size c avail b rest (λ e. h (inl e)),
  split_chosen-none size c avail rest (λ m. h (inr m)),
)
