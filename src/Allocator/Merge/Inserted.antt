-- ===== src/Allocator/Merge/Inserted.antt =====
-- insert_sorted_with_merge_freeList on a well formed free list.
use fos_project.Prelude.{
  lt→ltb, le→ltb, ℕ, suc, ◌+◌, ◌≤◌, ◌<◌, ◌≡◌, refl, ◌||◌, List, [], ◌∷◌, arith, dec_lt,
}
use fos_project.Prelude.Words.{u32_mod}
use fos_project.Allocator.{Block, Lists, last}
use fos_project.Allocator.Space.{holds, covers, Coalesced, Apart}
use fos_project.Allocator.Merge.{
  Merged, between, before_first, insert_after, append_last, merge_free,
  insert_sorted_with_merge_free_list,
}

-- what the block to insert must satisfy
pub record Fits (lo : ℕ) (x : Block) : Type 0 where
  pub above : lo ≤ x.sva
  pub positive : 0 < x.size
  pub bounded : x.sva + x.size < u32_mod

-- What an insertion into `xs` has to give: a well formed list that covers `xs` and `x`.
abbrev pub Inserted : ℕ → Block → List Block → Merged → Type 0
Inserted lo x xs m = Coalesced lo m.0 × ((a : ℕ) → covers m.0 a ≡ (holds x a || covers xs a))

between-Coalesced :
    (lo : ℕ) (x prev it : Block) (rest : List Block)
    → Fits lo x
    → Coalesced lo (prev ∷ it ∷ rest)
    → prev.sva + prev.size ≤ x.sva
    → x.sva + x.size ≤ it.sva
    → Coalesced lo (between x prev it rest).0
unfolding between
between-Coalesced lo x prev it rest f c below above = ground arith

covers-between :
    (lo : ℕ) (x prev it : Block) (rest : List Block) (a : ℕ)
    → Fits lo x
    → Coalesced lo (prev ∷ it ∷ rest)
    → prev.sva + prev.size ≤ x.sva
    → x.sva + x.size ≤ it.sva
    → covers (between x prev it rest).0 a ≡ (holds x a || covers (prev ∷ it ∷ rest) a)
unfolding between covers
covers-between lo x prev it rest a f c below above = ground arith

insert_after-Coalesced :
    (lo : ℕ) (x prev : Block) (rest : List Block)
    → Fits lo x
    → Coalesced lo (prev ∷ rest)
    → Apart x (prev ∷ rest)
    → prev.sva < x.sva
    → x.sva ≤ (last prev rest).sva
    → Coalesced lo (insert_after x prev rest).0
unfolding insert_after
insert_after-Coalesced lo x prev [] f c p below top = absurd (omega arith)
insert_after-Coalesced lo x prev (it ∷ rest) f c p below top = elim (dec_lt x.sva it.sva) [
  | yes h ↦
      rw (lt→ltb x.sva it.sva h)
        (between-Coalesced lo x prev it rest f c (omega arith) (omega arith))
  | no h ↦ rw (le→ltb x.sva it.sva (omega arith)) (
    c.0,
    c.1,
    c.2,
    insert_after-Coalesced (suc (prev.sva + prev.size)) x it rest
        (record { above = omega arith; positive = f.positive; bounded = f.bounded }) c.3 p.1
        (omega arith) top,
  )
]

covers-insert_after :
    (lo : ℕ) (x prev : Block) (rest : List Block) (a : ℕ)
    → Fits lo x
    → Coalesced lo (prev ∷ rest)
    → Apart x (prev ∷ rest)
    → prev.sva < x.sva
    → x.sva ≤ (last prev rest).sva
    → covers (insert_after x prev rest).0 a ≡ (holds x a || covers (prev ∷ rest) a)
unfolding insert_after covers
covers-insert_after lo x prev [] a f c p below top = absurd (omega arith)
covers-insert_after lo x prev (it ∷ rest) a f c p below top = elim (dec_lt x.sva it.sva) [
  | yes h ↦
      rw (lt→ltb x.sva it.sva h)
        (covers-between lo x prev it rest a f c (omega arith) (omega arith))
  | no h ↦ rw (le→ltb x.sva it.sva (omega arith)) (
      ground (
        arith,
        covers-insert_after (suc (prev.sva + prev.size)) x it rest a
            (record { above = omega arith; positive = f.positive; bounded = f.bounded }) c.3 p.1
            (omega arith) top,
      ))
]

first-le-last :
    (lo : ℕ) (b : Block) (rest : List Block) → Coalesced lo (b ∷ rest) → b.sva ≤ (last b rest).sva
first-le-last lo b [] c = omega arith
first-le-last lo b (d ∷ rest) c = omega (arith, first-le-last (suc (b.sva + b.size)) d rest c.3)

Fits-behind :
    {lo : ℕ} (x b d : Block) (rest : List Block)
    → Fits lo x
    → Coalesced lo (b ∷ d ∷ rest)
    → (last d rest).sva < x.sva
    → Fits (suc (b.sva + b.size)) x
Fits-behind x b d rest f c top = omega (arith, first-le-last (suc (b.sva + b.size)) d rest c.3)

append_last-Coalesced :
    (lo : ℕ) (x b : Block) (rest : List Block)
    → Fits lo x
    → Coalesced lo (b ∷ rest)
    → Apart x (b ∷ rest)
    → (last b rest).sva < x.sva
    → Coalesced lo (append_last x b rest).0
unfolding append_last
append_last-Coalesced lo x b [] f c p top = ground arith
append_last-Coalesced lo x b (d ∷ rest) f c p top = (
  c.0,
  c.1,
  c.2,
  append_last-Coalesced (suc (b.sva + b.size)) x d rest (Fits-behind x b d rest f c top) c.3 p.1
      top,
)

covers-append_last :
    (lo : ℕ) (x b : Block) (rest : List Block) (a : ℕ)
    → Fits lo x
    → Coalesced lo (b ∷ rest)
    → Apart x (b ∷ rest)
    → (last b rest).sva < x.sva
    → covers (append_last x b rest).0 a ≡ (holds x a || covers (b ∷ rest) a)
unfolding append_last covers
covers-append_last lo x b [] a f c p top = ground arith
covers-append_last lo x b (d ∷ rest) a f c p top = ground (
  arith,
  covers-append_last (suc (b.sva + b.size)) x d rest a (Fits-behind x b d rest f c top) c.3 p.1 top,
)

-- A block that lies apart from a well formed free list goes into it: the list stays well formed,
-- and covers exactly what it covered before and the block.
merge_free-Inserted :
    (lo : ℕ) (x : Block) (xs : List Block)
    → Fits lo x
    → Coalesced lo xs
    → Apart x xs
    → Inserted lo x xs (merge_free x xs)
unfolding merge_free before_first covers
merge_free-Inserted lo x [] f c p = (ground arith, λ a. refl)
merge_free-Inserted lo x (b ∷ rest) f c p = elim (dec_lt (last b rest).sva x.sva) [
  | yes h ↦
      rw (lt→ltb (last b rest).sva x.sva h)
        (append_last-Coalesced lo x b rest f c p h, λ a. covers-append_last lo x b rest a f c p h)
  | no h ↦ rw (le→ltb (last b rest).sva x.sva (omega arith)) (elim (dec_lt x.sva b.sva) [
    | yes k ↦ rw (lt→ltb x.sva b.sva k) (ground arith, λ a. ground arith)
    | no k ↦ rw (le→ltb x.sva b.sva (omega arith)) (
      insert_after-Coalesced lo x b rest f c p (omega arith) (omega arith),
      λ a. covers-insert_after lo x b rest a f c p (omega arith) (omega arith),
    )
  ])
]

-- Called on a well formed free list with a block that is not empty, does not run past the end of
-- the address space and lies apart from it, insert_sorted_with_merge_freeList leaves the
-- free list well formed (in address order, disjoint, with no two blocks that touch) and covering
-- exactly the addresses that it covered before and those of the block; the allocated list stays.
pub insert_sorted_with_merge-Inserted :
    (x : Block) (l : Lists)
    → Fits 0 x
    → Coalesced 0 l.free
    → Apart x l.free
    → let l' = insert_sorted_with_merge_free_list x l in
      Coalesced 0 l'.free
      × ((a : ℕ) → covers l'.free a ≡ (holds x a || covers l.free a))
      × (l'.alloc ≡ l.alloc)
unfolding insert_sorted_with_merge_free_list
insert_sorted_with_merge-Inserted x l f c p =
    let m : Inserted 0 x l.free (merge_free x l.free) = merge_free-Inserted 0 x l.free f c p in
    (m.0, m.1, refl)
