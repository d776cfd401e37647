-- ===== src/Allocator/Fit.antt =====
-- alloc_block_FF and alloc_block_NF of lib/dynamic_allocator.c on a well formed free list.
use fos_project.Prelude.{
  leb, if◌then◌else◌, lt→ltb, le→ltb, eq→==, ne→==, trichotomy, All, Result, ok, panic, ℕ, suc, ◌+◌,
  ◌≤◌, ◌<◌, ◌≡◌, refl, ap, inl, inr, ◌||◌, Option, none, some, List, [], ◌∷◌, arith,
}
use fos_project.Prelude.Words.{u32_mod}
use fos_project.Allocator.{
  Block, Lists, Found, split, keep, first_fit, with_lists, alloc_block_ff, next_fit, alloc_block_nf,
}
use fos_project.Allocator.Space.{holds, covers, Coalesced, Apart, Coalesced-lower}

-- The start of the first block of at least `size` bytes.
pub first_start : ℕ → List Block → Option ℕ
first_start size [] = none
first_start size (b ∷ rest) = if leb size b.size then some b.sva else first_start size rest

-- What a block taken out of `free` must be, and the free list that is left.
pub record Taken (lo size : ℕ) (free : List Block) (b : Block) (free' : List Block) : Type 0 where
  pub sized : b.size ≡ size
  pub bounded : b.sva + b.size < u32_mod
  pub apart : Apart b free'
  pub coalesced : Coalesced lo free'
  pub same_space : (a : ℕ) → covers free a ≡ (holds b a || covers free' a)

-- What first fit promises. It panics only where it has to split and no node is available.
abbrev pub FirstFit : ℕ → ℕ → List Block → List Block → Result Found → Type 0
FirstFit lo size avail free (ok (none, avail', free')) =
    All (λ b. b.size < size) free × (avail' ≡ avail) × (free' ≡ free)
FirstFit lo size avail free (ok (some b, avail', free')) =
    Taken lo size free b free' × (first_start size free ≡ some b.sva)
FirstFit lo size avail free panic = (avail ≡ []) × ((b : ℕ) × (first_start size free ≡ some b))

Apart-above :
    (lo : ℕ) (x : Block) (xs : List Block) → x.sva + x.size < lo → Coalesced lo xs → Apart x xs
Apart-above lo x [] h c = tt
Apart-above lo x (b ∷ rest) h c =
    (inl (omega arith), Apart-above (suc (b.sva + b.size)) x rest (omega arith) c.3)

pub exact-Taken :
    (lo size : ℕ) (b : Block) (rest : List Block)
    → b.size ≡ size
    → Coalesced lo (b ∷ rest)
    → Taken lo size (b ∷ rest) b rest
unfolding covers
exact-Taken lo size b rest e c = record {
  sized = e;
  bounded = c.2;
  apart = Apart-above (suc (b.sva + b.size)) b rest (omega arith) c.3;
  coalesced = Coalesced-lower _ lo rest (omega arith) c.3;
  same_space = λ a. refl;
}

pub split-FirstFit :
    (lo size : ℕ) (avail : List Block) (b : Block) (rest : List Block)
    → 0 < size
    → size < b.size
    → Coalesced lo (b ∷ rest)
    → FirstFit lo size avail (b ∷ rest) (split size avail b rest)
unfolding split covers first_start
split-FirstFit lo size [] b rest z h c = (refl, (b.sva, ground arith))
split-FirstFit lo size (new ∷ avail) b rest z h c = (
  record {
    sized = refl;
    bounded = omega arith;
    apart = (
      inl (omega arith),
      Apart-above (suc (b.sva + b.size)) (record new { sva = b.sva; size = size }) rest
          (omega arith) c.3,
    );
    coalesced = ground arith;
    same_space = λ a. ground arith;
  },
  ground arith,
)

pub keep-Taken :
    (lo size : ℕ) (b x : Block) (rest free' : List Block)
    → Coalesced lo (b ∷ rest)
    → suc (b.sva + b.size) ≤ x.sva
    → Taken (suc (b.sva + b.size)) size rest x free'
    → Taken lo size (b ∷ rest) x (b ∷ free')
unfolding covers
keep-Taken lo size b x rest free' c h t = record {
  sized = t.sized;
  bounded = t.bounded;
  apart = (inr (omega arith), t.apart);
  coalesced = (c.0, c.1, c.2, t.coalesced);
  same_space = λ a. ground (arith, t.same_space a);
}

first_start-le :
    (lo size s : ℕ) (xs : List Block) → Coalesced lo xs → first_start size xs ≡ some s → lo ≤ s
unfolding first_start
first_start-le lo size s [] c e = cc
first_start-le lo size s (b ∷ rest) c e =
    ground (arith, first_start-le (suc (b.sva + b.size)) size s rest c.3)

keep-FirstFit :
    (lo size : ℕ) (avail : List Block) (b : Block) (rest : List Block) (r : Result Found)
    → b.size < size
    → Coalesced lo (b ∷ rest)
    → FirstFit (suc (b.sva + b.size)) size avail rest r
    → FirstFit lo size avail (b ∷ rest) (keep b r)
unfolding first_start
keep-FirstFit lo size avail b rest (ok (none, avail', free')) h c r =
    ((h, r.0), r.1, ap (◌∷◌ b) r.2)
keep-FirstFit lo size avail b rest (ok (some x, avail', free')) h c r = (
  keep-Taken lo size b x rest free' c (first_start-le _ size x.sva rest c.3 r.1) r.0,
  ground arith,
)
keep-FirstFit lo size avail b rest panic h c r = (r.0, (r.1.0, ground arith))

first_fit-FirstFit :
    (lo size : ℕ) (avail free : List Block)
    → 0 < size
    → Coalesced lo free
    → FirstFit lo size avail free (first_fit size avail free)
unfolding first_fit first_start
first_fit-FirstFit lo size avail [] z c = (tt, refl, refl)
first_fit-FirstFit lo size avail (b ∷ rest) z c = elim (trichotomy b.size size) [
  | inl l ↦
      rw (ne→== b.size size (omega arith), le→ltb size b.size (omega arith))
        (keep-FirstFit lo size avail b rest _ l c
          (first_fit-FirstFit (suc (b.sva + b.size)) size avail rest z c.3))
  | inr (inl e) ↦ rw (eq→== b.size size e) (exact-Taken lo size b rest e c, ground arith)
  | inr (inr g) ↦
      rw (ne→== b.size size (omega arith), lt→ltb size b.size g)
        (split-FirstFit lo size avail b rest z g c)
]

first_fit-eq-next_fit :
    (size : ℕ) (avail free : List Block) → next_fit size avail free ≡ first_fit size avail free
unfolding first_fit next_fit
first_fit-eq-next_fit size avail [] = refl
first_fit-eq-next_fit size avail (b ∷ rest) = rw (first_fit-eq-next_fit size avail rest) refl

-- The same of a call, over the three lists.
abbrev pub FirstFitCall : ℕ → Lists → Result (Option Block × Lists) → Type 0
FirstFitCall size l (ok (none, l')) = All (λ b. b.size < size) l.free × (l' ≡ l)
FirstFitCall size l (ok (some b, l')) =
    Taken 0 size l.free b l'.free × (first_start size l.free ≡ some b.sva) × (l'.alloc ≡ l.alloc)
FirstFitCall size l panic = (l.avail ≡ []) × ((s : ℕ) × (first_start size l.free ≡ some s))

with_lists-FirstFitCall :
    (size : ℕ) (l : Lists) (r : Result Found)
    → FirstFit 0 size l.avail l.free r
    → FirstFitCall size l (with_lists l r)
with_lists-FirstFitCall size l (ok (none, avail', free')) h = (h.0, ground arith)
with_lists-FirstFitCall size l (ok (some x, avail', free')) h = (h.0, h.1, refl)
with_lists-FirstFitCall size l panic h = h

-- alloc_block_FF on a well formed free list, for a size above 0. If no free block has the size,
-- it returns NULL and changes nothing. Otherwise it returns a block of exactly the size, which
-- starts where the first free block that is large enough starts; the free list stays well formed,
-- the block lies apart from it, the two cover exactly the addresses that were free, and the
-- allocated list stays. It panics only if a block is large enough and no node is available.
pub alloc_block_ff_lem :
    (size : ℕ) (l : Lists)
    → 0 < size
    → Coalesced 0 l.free
    → FirstFitCall size l (alloc_block_ff size l)
unfolding alloc_block_ff
alloc_block_ff_lem size l z c =
    with_lists-FirstFitCall size l (first_fit size l.avail l.free)
      (first_fit-FirstFit 0 size l.avail l.free z c)

-- alloc_block_NF gives on every input what alloc_block_FF gives: it starts at the head of the free
-- list at each call, and keeps no position from one call to the next.
pub alloc_block_nf-eq-ff : (size : ℕ) (l : Lists) → alloc_block_nf size l ≡ alloc_block_ff size l
unfolding alloc_block_nf alloc_block_ff
alloc_block_nf-eq-ff size l = ap (with_lists l) (first_fit-eq-next_fit size l.avail l.free)
