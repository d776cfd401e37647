-- ===== src/Allocator/Canonical.antt =====
-- A well formed free list is determined by the addresses that it covers; so freeing a block that
-- was just allocated restores the free list.
use fos_project.Allocator.Merge.Inserted.{insert_sorted_with_merge-Inserted}
use fos_project.Allocator.Merge.{insert_sorted_with_merge_free_list}
use fos_project.Allocator.Fit.{Taken, FirstFitCall, alloc_block_ff_lem}
use fos_project.Prelude.{
  Result, panic, ok, ℕ, suc, ◌+◌, ◌≤◌, ◌<◌, ◌≡◌, refl, sym, ◌∙◌, true, false, ◌||◌, Option, none,
  some, List, [], ◌∷◌, arith, dec_lt,
}
use mathlib.Core.Path.{ap₂}
use fos_project.Allocator.{Block, Lists, alloc_block_ff}
use fos_project.Allocator.Space.{holds, covers, Coalesced, Coalesced-lower, covers_below}

-- the ranges of a list, without its nodes
abbrev pub extents : List Block → List (ℕ × ℕ)
extents [] = []
extents (b ∷ rest) = (b.sva, b.size) ∷ extents rest

covers_start : (b : Block) (rest : List Block) → 0 < b.size → covers (b ∷ rest) b.sva ≡ true
unfolding covers
covers_start b rest h = ground arith

-- Two lists that cover the same start at the same address: none starts below the other.
start_le :
    (lo : ℕ) (b d : Block) (xs ys : List Block)
    → Coalesced lo (b ∷ xs)
    → Coalesced lo (d ∷ ys)
    → ((a : ℕ) → covers (b ∷ xs) a ≡ covers (d ∷ ys) a)
    → d.sva ≤ b.sva
start_le lo b d xs ys c k same = elim (dec_lt b.sva d.sva) [
  | no h ↦ omega arith
  | yes h ↦ cc (
    same b.sva,
    covers_start b xs c.1,
    covers_below d.sva b.sva (d ∷ ys) (omega arith, k.1, k.2, k.3) h,
  )
]

covers_inside :
    (b : Block) (rest : List Block) (a : ℕ)
    → b.sva ≤ a
    → a < b.sva + b.size
    → covers (b ∷ rest) a ≡ true
unfolding covers
covers_inside b rest a h k = ground arith

covers_end :
    (lo : ℕ) (b : Block) (rest : List Block)
    → Coalesced lo (b ∷ rest)
    → covers (b ∷ rest) (b.sva + b.size) ≡ false
unfolding covers
covers_end lo b rest c =
    ground (arith, covers_below (suc (b.sva + b.size)) (b.sva + b.size) rest c.3 (omega arith))

end_le :
    (lo : ℕ) (b d : Block) (xs ys : List Block)
    → Coalesced lo (b ∷ xs)
    → Coalesced lo (d ∷ ys)
    → ((a : ℕ) → covers (b ∷ xs) a ≡ covers (d ∷ ys) a)
    → b.sva ≡ d.sva
    → d.sva + d.size ≤ b.sva + b.size
end_le lo b d xs ys c k same e = elim (dec_lt (b.sva + b.size) (d.sva + d.size)) [
  | no h ↦ omega arith
  | yes h ↦ cc (
    same (b.sva + b.size),
    covers_end lo b xs c,
    covers_inside d ys (b.sva + b.size) (omega arith) h,
  )
]

covers_tail :
    (lo : ℕ) (b d : Block) (xs ys : List Block)
    → Coalesced lo (b ∷ xs)
    → Coalesced lo (d ∷ ys)
    → ((a : ℕ) → covers (b ∷ xs) a ≡ covers (d ∷ ys) a)
    → b.sva ≡ d.sva
    → b.size ≡ d.size
    → (a : ℕ) → covers xs a ≡ covers ys a
unfolding covers
covers_tail lo b d xs ys c k same e f a = elim (dec_lt a (suc (b.sva + b.size))) [
  | yes h ↦
      covers_below (suc (b.sva + b.size)) a xs c.3 h
      ∙ sym (covers_below (suc (d.sva + d.size)) a ys k.3 (omega arith))
  | no h ↦ ground (arith, same a)
]

covers_none : (a : ℕ) → covers [] a ≡ false
unfolding covers
covers_none a = refl

Coalesced-unique :
    (lo : ℕ) (xs ys : List Block)
    → Coalesced lo xs
    → Coalesced lo ys
    → ((a : ℕ) → covers xs a ≡ covers ys a)
    → extents xs ≡ extents ys
Coalesced-unique lo [] [] c k same = refl
Coalesced-unique lo [] (d ∷ ys) c k same = cc (same d.sva, covers_none d.sva, covers_start d ys k.1)
Coalesced-unique lo (b ∷ xs) [] c k same = cc (same b.sva, covers_none b.sva, covers_start b xs c.1)
Coalesced-unique lo (b ∷ xs) (d ∷ ys) c k same = ap₂ ◌∷◌ (ap₂ (λ v n. (v, n)) starts sizes) (
    Coalesced-unique (suc (b.sva + b.size)) xs ys c.3
      (Coalesced-lower (suc (d.sva + d.size)) (suc (b.sva + b.size)) ys
        (omega (arith, starts, sizes)) k.3)
      (covers_tail lo b d xs ys c k same starts sizes))
  where
    back : (a : ℕ) → covers (d ∷ ys) a ≡ covers (b ∷ xs) a
    back a = sym (same a)

    starts : b.sva ≡ d.sva
    starts = omega (arith, start_le lo b d xs ys c k same, start_le lo d b ys xs k c back)

    sizes : b.size ≡ d.size
    sizes = omega (
      arith,
      starts,
      end_le lo b d xs ys c k same starts,
      end_le lo d b ys xs k c back (sym starts),
    )

-- The free list after the block that a call returned is freed again.
abbrev pub Restores : Lists → Result (Option Block × Lists) → Type 0
Restores l (ok (none, l')) = Unit
Restores l (ok (some b, l')) =
    extents (insert_sorted_with_merge_free_list b l').free ≡ extents l.free
Restores l panic = Unit

pub Taken-Restores :
    (size : ℕ) (l l' : Lists) (b : Block)
    → 0 < size
    → Coalesced 0 l.free
    → Taken 0 size l.free b l'.free
    → extents (insert_sorted_with_merge_free_list b l').free ≡ extents l.free
Taken-Restores size l l' b z c t =
    Coalesced-unique 0 (insert_sorted_with_merge_free_list b l').free l.free m.0 c
      (λ a. m.1 a ∙ sym (t.same_space a))
  where
    m :
        Coalesced 0 (insert_sorted_with_merge_free_list b l').free
        × ((a : ℕ)
            → covers (insert_sorted_with_merge_free_list b l').free a
              ≡ (holds b a || covers l'.free a))
        × ((insert_sorted_with_merge_free_list b l').alloc ≡ l'.alloc)
    m =
        insert_sorted_with_merge-Inserted b l'
          (record { above = omega arith; positive = omega (arith, t.sized); bounded = t.bounded })
          t.coalesced t.apart

FirstFitCall-Restores :
    (size : ℕ) (l : Lists) (r : Result (Option Block × Lists))
    → 0 < size
    → Coalesced 0 l.free
    → FirstFitCall size l r
    → Restores l r
FirstFitCall-Restores size l (ok (none, l')) z c h = tt
FirstFitCall-Restores size l (ok (some b, l')) z c h = Taken-Restores size l l' b z c h.0
FirstFitCall-Restores size l panic z c h = tt

-- On a well formed free list, for a size above 0: if alloc_block_FF returns a block, then
-- insert_sorted_with_merge_freeList on that block gives back the free list of before the call,
-- range by range.
pub insert_sorted_with_merge-alloc_block_ff :
    (size : ℕ) (l : Lists) → 0 < size → Coalesced 0 l.free → Restores l (alloc_block_ff size l)
insert_sorted_with_merge-alloc_block_ff size l z c =
    FirstFitCall-Restores size l (alloc_block_ff size l) z c (alloc_block_ff_lem size l z c)
