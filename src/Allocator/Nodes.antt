-- ===== src/Allocator/Nodes.antt =====
-- No call of lib/dynamic_allocator.c loses a MemBlock node or has it in two places.
use fos_project.Allocator.Fit.{alloc_block_nf-eq-ff}
use fos_project.Prelude.{
  ltb, ◌==◌, if◌then◌else◌, Bool-cases, Result, ok, panic, ℕ, ◌+◌, ◌≡◌, refl, inl, inr, ◌&&◌,
  Option, none, some, List, [], ◌∷◌, ◌++◌, arith,
}
use fos_project.Allocator.{
  Block, Lists, Found, split, keep, first_fit, with_lists, alloc_block_ff, alloc_block_nf,
  take_exact, Choice, first_larger, smallest_larger, split_chosen, best_fit, alloc_block_bf,
}

-- how often the node `k` is in a list
unfoldable pub count : ℕ → List Block → ℕ
count k [] = 0
count k (b ∷ rest) = (if b.node == k then 1 else 0) + count k rest

pub count-append : (k : ℕ) (xs ys : List Block) → count k (xs ++ ys) ≡ count k xs + count k ys
unfolding count
count-append k [] ys = omega arith
count-append k (x ∷ xs) ys = omega (arith, count-append k xs ys)

-- how often the node `k` is in the three lists
unfoldable pub total : ℕ → Lists → ℕ
total k l = count k l.avail + count k l.free + count k l.alloc

-- and in a block that a call returned
unfoldable pub held : ℕ → Option Block → ℕ
held k none = 0
held k (some b) = if b.node == k then 1 else 0

abbrev Kept : ℕ → ℕ → Result Found → Type 0
Kept k n (ok (r, avail, free)) = held k r + count k avail + count k free ≡ n
Kept k n panic = Unit

split-Kept :
    (k size : ℕ) (avail : List Block) (b : Block) (rest : List Block)
    → Kept k (count k avail + count k (b ∷ rest)) (split size avail b rest)
unfolding split count held
split-Kept k size [] b rest = tt
split-Kept k size (new ∷ avail) b rest = ground arith

exact-Kept :
    (k : ℕ) (avail : List Block) (b : Block) (rest : List Block)
    → Kept k (count k avail + count k (b ∷ rest)) (ok (some b, avail, rest))
unfolding count held
exact-Kept k avail b rest = omega arith

skip-Kept :
    (k : ℕ) (avail : List Block) (b : Block) (rest : List Block) (r : Result Found)
    → Kept k (count k avail + count k rest) r
    → Kept k (count k avail + count k (b ∷ rest)) (keep b r)
unfolding count
skip-Kept k avail b rest (ok (r, avail', free)) h = omega arith
skip-Kept k avail b rest panic h = tt

first_fit-Kept :
    (k size : ℕ) (avail free : List Block)
    → Kept k (count k avail + count k free) (first_fit size avail free)
unfolding first_fit
first_fit-Kept k size avail [] = unfold count held in omega arith
first_fit-Kept k size avail (b ∷ rest) = elim (Bool-cases (b.size == size)) [
  | inl e ↦ rw e (exact-Kept k avail b rest)
  | inr e ↦ rw e (elim (Bool-cases (ltb size b.size)) [
    | inl g ↦ rw g (split-Kept k size avail b rest)
    | inr g ↦ rw g (skip-Kept k avail b rest _ (first_fit-Kept k size avail rest))
  ])
]

split_chosen-Kept :
    (k size : ℕ) (c : Choice) (avail free : List Block)
    → Kept k (count k avail + count k free) (split_chosen size c avail free)
unfolding split_chosen
split_chosen-Kept k size c avail [] = unfold count held in omega arith
split_chosen-Kept k size c avail (b ∷ rest) =
    elim (Bool-cases ((b.size == c.0) && (b.sva == c.1))) [
      | inl e ↦ rw e (split-Kept k size avail b rest)
      | inr e ↦ rw e (skip-Kept k avail b rest _ (split_chosen-Kept k size c avail rest))
    ]

abbrev Removed : ℕ → List Block → Option (Block × List Block) → Type 0
Removed k xs none = Unit
Removed k xs (some (b, rest)) = held k (some b) + count k rest ≡ count k xs

cons-Removed :
    (k : ℕ) (b : Block) (xs : List Block) (r : Option (Block × List Block))
    → Removed k xs r
    → Removed k (b ∷ xs) (elim r [ none ↦ none | some (x, free) ↦ some (x, b ∷ free) ])
unfolding count held
cons-Removed k b xs none h = tt
cons-Removed k b xs (some (x, rest)) h = omega arith

take_exact-Removed : (k size : ℕ) (xs : List Block) → Removed k xs (take_exact size xs)
unfolding take_exact
take_exact-Removed k size [] = tt
take_exact-Removed k size (b ∷ rest) = elim (Bool-cases (b.size == size)) [
  | inl e ↦ rw e (unfold count held in refl)
  | inr e ↦ rw e (cons-Removed k b rest _ (take_exact-Removed k size rest))
]

best_fit-Kept :
    (k size : ℕ) (uninit : Choice) (avail free : List Block)
    → Kept k (count k avail + count k free) (best_fit uninit size avail free)
unfolding best_fit
best_fit-Kept k size uninit avail free = go (take_exact size free) (take_exact-Removed k size free)
  where
    go :
        (t : Option (Block × List Block))
        → Removed k free t
        → Kept k (count k avail + count k free) (elim t [
          | some (b, rest) ↦ ok (some b, avail, rest)
          | none ↦
              split_chosen size
                (smallest_larger size (first_larger size uninit free) free)
                avail
                free
        ])
    go none h = split_chosen-Kept k size _ avail free
    go (some (b, rest)) h = omega arith

-- A call that returns keeps the number of times that the node is in the lists or in its result.
abbrev pub KeepsNode : ℕ → Lists → Result (Option Block × Lists) → Type 0
KeepsNode k l (ok (r, l')) = held k r + total k l' ≡ total k l
KeepsNode k l panic = Unit

Kept-KeepsNode :
    (k : ℕ) (l : Lists) (r : Result Found)
    → Kept k (count k l.avail + count k l.free) r
    → KeepsNode k l (with_lists l r)
unfolding total
Kept-KeepsNode k l (ok (r, avail, free)) h = omega arith
Kept-KeepsNode k l panic h = tt

-- The three searches for a free block neither lose a node nor make one up: however often a node is
-- in the three lists before a call, it is so often in them and the returned block afterwards.
pub alloc-KeepsNode :
    (k size : ℕ) (uninit : Choice) (l : Lists)
    → KeepsNode k l (alloc_block_ff size l)
      × KeepsNode k l (alloc_block_bf uninit size l)
      × KeepsNode k l (alloc_block_nf size l)
unfolding alloc_block_ff alloc_block_bf
alloc-KeepsNode k size uninit l = (
  ff,
  Kept-KeepsNode k l _ (best_fit-Kept k size uninit l.avail l.free),
  rw (alloc_block_nf-eq-ff size l) ff,
)
  where
    ff : KeepsNode k l (alloc_block_ff size l)
    ff = Kept-KeepsNode k l _ (first_fit-Kept k size l.avail l.free)
