-- ===== src/Allocator/Space.antt =====
-- The address space that a list of blocks stands for, and what a well formed free list is.
use fos_project.Prelude.{
  ltb, leb, ℕ, suc, ◌+◌, ◌≤◌, ◌<◌, ◌≡◌, refl, ◌⊎◌, Bool, false, ◌&&◌, ◌||◌, List, [], ◌∷◌, arith,
}
use fos_project.Prelude.Words.{u32_mod}
use fos_project.Allocator.{Block}

-- The address `a` lies in the block.
abbrev pub holds : Block → ℕ → Bool
holds b a = leb b.sva a && ltb a (b.sva + b.size)

unfoldable pub covers : List Block → ℕ → Bool
covers [] a = false
covers (b ∷ rest) a = holds b a || covers rest a

-- No block is empty, none runs past the end of the address space, and each starts above the end
-- of the one before it: in address order, disjoint, and with neighbours joined. The first block
-- starts at `lo` or above.
abbrev pub Coalesced : ℕ → List Block → Type 0
Coalesced lo [] = Unit
Coalesced lo (b ∷ rest) =
    (lo ≤ b.sva) × (0 < b.size) × (b.sva + b.size < u32_mod) × Coalesced (suc (b.sva + b.size)) rest

-- `x` lies apart from every block of the list.
abbrev pub Apart : Block → List Block → Type 0
Apart x [] = Unit
Apart x (b ∷ rest) = ((x.sva + x.size ≤ b.sva) ⊎ (b.sva + b.size ≤ x.sva)) × Apart x rest

pub Coalesced-lower : (lo lo' : ℕ) (xs : List Block) → lo' ≤ lo → Coalesced lo xs → Coalesced lo' xs
Coalesced-lower lo lo' [] h c = tt
Coalesced-lower lo lo' (b ∷ rest) h c = (omega arith, c.1, c.2, c.3)

-- A well formed list covers no address below its start.
pub covers_below : (lo a : ℕ) (xs : List Block) → Coalesced lo xs → a < lo → covers xs a ≡ false
unfolding covers
covers_below lo a [] c h = refl
covers_below lo a (b ∷ rest) c h = ground (arith, covers_below (suc (b.sva + b.size)) a rest c.3)
