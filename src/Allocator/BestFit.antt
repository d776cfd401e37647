-- ===== src/Allocator/BestFit.antt =====
-- alloc_block_BF of lib/dynamic_allocator.c on a well formed free list.
mod Choices
mod Chosen
use fos_project.Prelude.{
  All, Result, ok, panic, ℕ, ◌≤◌, ◌<◌, ◌≡◌, refl, ◌≢◌, ◌⊎◌, inl, inr, Option, none, some, List, [],
  ◌∷◌, arith,
}
use mathlib.Core.Path.{subst⁻¹}
use fos_project.Allocator.{
  Block, Lists, Found, split, keep, with_lists, take_exact, Choice, first_larger, smallest_larger,
  split_chosen, best_fit, alloc_block_bf,
}
use fos_project.Allocator.Space.{Coalesced}
use fos_project.Allocator.Fit.{Taken}
use Choices.{
  Member, Smallest, take_exact-none, Exact, take_exact-Exact, Improved, smallest_larger-Improved,
  NoneLarger, first_larger-none, smallest_larger-none, first_larger-cases,
}
use Chosen.{
  SplitChosen, split_chosen-hit, split_chosen-miss, chosen?, split_chosen-SplitChosen,
  split_chosen-none,
}

-- What best fit promises. `uninit` stands for the two locals that it does not initialise.
abbrev pub BestFit : ℕ → Lists → Result (Option Block × Lists) → Type 0
BestFit size l (ok (none, l')) = All (λ b. b.size < size) l.free × (l' ≡ l)
BestFit size l (ok (some b, l')) =
    Taken 0 size l.free b l'.free
    × ((n : ℕ) × Smallest size (n, b.sva) l.free)
    × (l'.alloc ≡ l.alloc)
BestFit size l panic = l.avail ≡ []

none_fits :
    (size : ℕ) (xs : List Block)
    → All (λ b. b.size ≢ size) xs
    → NoneLarger size xs
    → All (λ b. b.size < size) xs
none_fits size [] h n = tt
none_fits size (b ∷ rest) h n = (omega arith, none_fits size rest h.1 n.1)

at_least :
    (size n : ℕ) (xs : List Block)
    → All (λ b. b.size ≢ size) xs
    → All (λ b. size < b.size → n ≤ b.size) xs
    → All (λ b. size ≤ b.size → n ≤ b.size) xs
at_least size n [] h k = tt
at_least size n (b ∷ rest) h k = (λ e. k.0 (omega arith), at_least size n rest h.1 k.1)

exact_least : (size : ℕ) (xs : List Block) → All (λ b. size ≤ b.size → size ≤ b.size) xs
exact_least size [] = tt
exact_least size (b ∷ rest) = (λ h. h, exact_least size rest)

alloc_block_bf-exact :
    (uninit : Choice) (size : ℕ) (l : Lists) (b : Block) (rest : List Block)
    → take_exact size l.free ≡ some (b, rest)
    → alloc_block_bf uninit size l ≡ ok (some b, record l { free = rest })
unfolding alloc_block_bf best_fit
alloc_block_bf-exact uninit size l b rest e = ground arith

abbrev choose : Choice → ℕ → List Block → Choice
choose uninit size free = smallest_larger size (first_larger size uninit free) free

alloc_block_bf-choose :
    (uninit : Choice) (size : ℕ) (l : Lists)
    → take_exact size l.free ≡ none
    → alloc_block_bf uninit size l
      ≡ with_lists l (split_chosen size (choose uninit size l.free) l.avail l.free)
unfolding alloc_block_bf best_fit
alloc_block_bf-choose uninit size l e = ground arith

choose-none :
    (uninit : Choice) (size : ℕ) (free : List Block)
    → NoneLarger size free
    → choose uninit size free ≡ uninit
choose-none uninit size free h =
    rw (first_larger-none size uninit free h) (smallest_larger-none size uninit free h)

-- With a larger block the choice is a smallest one, whatever the locals held.
choose-Smallest :
    (uninit : Choice) (size : ℕ) (free : List Block)
    → All (λ b. b.size ≢ size) free
    → (size < (first_larger size uninit free).0) × Member (first_larger size uninit free) free
    → (size < (choose uninit size free).0) × Smallest size (choose uninit size free) free
choose-Smallest uninit size free n (l, m) =
    let i : Improved size first free (choose uninit size free) =
      smallest_larger-Improved size first free l in
    (
      i.0,
      record {
        member = pick i.3;
        enough = omega arith;
        least = at_least size (choose uninit size free).0 free n i.2;
      },
    )
  where
    first : Choice
    first = first_larger size uninit free

    pick :
        (choose uninit size free ≡ first) ⊎ Member (choose uninit size free) free
        → Member (choose uninit size free) free
    pick (inl e) = subst⁻¹ (λ d. Member d free) e m
    pick (inr k) = k

chosen-BestFit :
    (size : ℕ) (c : Choice) (l : Lists) (r : Result Found)
    → Smallest size c l.free
    → SplitChosen 0 size c l.avail l.free r
    → BestFit size l (with_lists l r)
chosen-BestFit size c l (ok (none, avail', free')) k h = elim h [ ]
chosen-BestFit size c l (ok (some x, avail', free')) k h =
    (h.0, (c.0, subst⁻¹ (λ s. Smallest size (c.0, s) l.free) h.1 k), refl)
chosen-BestFit size c l panic k h = h

-- alloc_block_BF on a well formed free list, for a size above 0, where no free block has by chance
-- the size and start that the two uninitialised locals hold. If no free block has the size, it
-- returns NULL and changes nothing. Otherwise it returns a block of exactly the size at the start
-- of a smallest free block that is large enough; the free list stays well formed, the block lies
-- apart from it, the two cover exactly the addresses that were free, and the allocated list stays.
-- It panics only where no node is available.
pub alloc_block_bf_lem :
    (uninit : Choice) (size : ℕ) (l : Lists)
    → 0 < size
    → Coalesced 0 l.free
    → ¬ Member uninit l.free
    → BestFit size l (alloc_block_bf uninit size l)
alloc_block_bf_lem uninit size l z c u =
    go (take_exact size l.free) refl (take_exact-Exact 0 size l.free c)
  where
    P : Result (Option Block × Lists) → Type 0
    P = BestFit size l

    go :
        (t : Option (Block × List Block))
        → take_exact size l.free ≡ t
        → Exact 0 size l.free t
        → BestFit size l (alloc_block_bf uninit size l)
    go (some (b, rest)) e h = subst⁻¹ P (alloc_block_bf-exact uninit size l b rest e) (
      h.0,
      (size, record { member = h.1; enough = omega arith; least = exact_least size l.free }),
      refl,
    )
    go none e h =
        let d = choose uninit size l.free in
        let n : All (λ b. b.size ≢ size) l.free = take_exact-none size l.free e in
        subst⁻¹ P (alloc_block_bf-choose uninit size l e)
          (elim (first_larger-cases size uninit l.free) [
            | inl k ↦
                rw
                  (choose-none uninit size l.free k, split_chosen-none size uninit l.avail l.free u)
                  (none_fits size l.free n k, refl)
            | inr m ↦
                let s = choose-Smallest uninit size l.free n m in
                chosen-BestFit size d l (split_chosen size d l.avail l.free) s.1
                  (split_chosen-SplitChosen 0 size d l.avail l.free z s.0 c s.1.member)
          ])

abbrev Hands : ℕ → Result Found → Type 0
Hands size (ok (none, avail, free)) = ⊥
Hands size (ok (some b, avail, free)) = b.size ≡ size
Hands size panic = ⊥

keep-Hands : (size : ℕ) (b : Block) (r : Result Found) → Hands size r → Hands size (keep b r)
keep-Hands size b (ok (none, avail, free)) h = h
keep-Hands size b (ok (some x, avail, free)) h = h
keep-Hands size b panic h = h

split_chosen-Hands :
    (size : ℕ) (c : Choice) (new : Block) (avail xs : List Block)
    → Member c xs
    → Hands size (split_chosen size c (new ∷ avail) xs)
unfolding split
split_chosen-Hands size c new avail [] m = elim m [ ]
split_chosen-Hands size c new avail (b ∷ rest) m = elim (chosen? c b) [
  | yes e ↦ subst⁻¹ (Hands size) (split_chosen-hit size c (new ∷ avail) b rest e) refl
  | no n ↦ subst⁻¹ (Hands size) (split_chosen-miss size c (new ∷ avail) b rest n) (
      keep-Hands size b (split_chosen size c (new ∷ avail) rest)
        (split_chosen-Hands size c new avail rest (later n m)))
]
  where
    later : ¬ ((b.size ≡ c.0) × (b.sva ≡ c.1)) → Member c (b ∷ rest) → Member c rest
    later n (inl e) = absurd (n e)
    later n (inr m) = m

-- The call hands out a block of the size.
abbrev pub HandsOut : ℕ → Result (Option Block × Lists) → Type 0
HandsOut size (ok (none, l')) = ⊥
HandsOut size (ok (some b, l')) = b.size ≡ size
HandsOut size panic = ⊥

Hands-HandsOut :
    (size : ℕ) (l : Lists) (r : Result Found) → Hands size r → HandsOut size (with_lists l r)
Hands-HandsOut size l (ok (none, avail, free)) h = h
Hands-HandsOut size l (ok (some x, avail, free)) h = h
Hands-HandsOut size l panic h = h

take_exact-too_small :
    (size : ℕ) (xs : List Block) → All (λ b. b.size < size) xs → take_exact size xs ≡ none
unfolding take_exact
take_exact-too_small size [] h = refl
take_exact-too_small size (b ∷ rest) h = ground (arith, take_exact-too_small size rest h.1)

too_small-NoneLarger :
    (size : ℕ) (xs : List Block) → All (λ b. b.size < size) xs → NoneLarger size xs
too_small-NoneLarger size [] h = tt
too_small-NoneLarger size (b ∷ rest) h = (omega arith, too_small-NoneLarger size rest h.1)

-- A flaw of alloc_block_BF: where every free block is too small, a node is available, and the two
-- uninitialised locals happen to hold the size and start of a free block, the call does not return
-- NULL but hands out a block of the size that it was asked for.
pub alloc_block_bf-uninit :
    (uninit : Choice) (size : ℕ) (l : Lists) (new : Block) (avail : List Block)
    → l.avail ≡ new ∷ avail
    → All (λ b. b.size < size) l.free
    → Member uninit l.free
    → HandsOut size (alloc_block_bf uninit size l)
alloc_block_bf-uninit uninit size l new avail e h m =
    subst⁻¹ (HandsOut size)
      (alloc_block_bf-choose uninit size l (take_exact-too_small size l.free h))
      (rw (choose-none uninit size l.free (too_small-NoneLarger size l.free h), e)
        (Hands-HandsOut size l _ (split_chosen-Hands size uninit new avail l.free m)))
