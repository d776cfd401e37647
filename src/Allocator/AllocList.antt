-- ===== src/Allocator/AllocList.antt =====
-- insert_sorted_allocList and find_block of lib/dynamic_allocator.c.
use fos_project.Prelude.{
  ◌==◌, if◌then◌else◌, lt→ltb, le→ltb, ℕ, suc, ◌≤◌, ◌<◌, ◌≡◌, refl, ◌≢◌, some, List, [], ◌∷◌, ◌++◌,
  arith, dec_lt,
}
use fos_project.Allocator.{
  Block, Lists, find_loop, find_block, last, insert_between, insert_sorted,
  insert_sorted_alloc_list,
}

-- The blocks start one above the other, the first at `lo` or above.
abbrev pub IsAscending : ℕ → List Block → Type 0
IsAscending lo [] = Unit
IsAscending lo (b ∷ rest) = (lo ≤ b.sva) × IsAscending (suc b.sva) rest

-- No block of the list starts at `va`.
abbrev pub StartFree : ℕ → List Block → Type 0
StartFree va [] = Unit
StartFree va (b ∷ rest) = (b.sva ≢ va) × StartFree va rest

insert_between-IsAscending :
    (lo : ℕ) (x b : Block) (rest : List Block)
    → IsAscending lo (b ∷ rest)
    → StartFree x.sva (b ∷ rest)
    → b.sva < x.sva
    → x.sva ≤ (last b rest).sva
    → IsAscending lo (insert_between x b rest)
unfolding insert_between
insert_between-IsAscending lo x b [] a f l t = absurd (omega arith)
insert_between-IsAscending lo x b (n ∷ rest) a f l t = elim (dec_lt x.sva n.sva) [
  | yes h ↦
      rw (lt→ltb b.sva x.sva l, lt→ltb x.sva n.sva h) (a.0, (omega arith, (omega arith, a.1.1)))
  | no h ↦
      rw (lt→ltb b.sva x.sva l, le→ltb x.sva n.sva (omega arith))
        (a.0, insert_between-IsAscending (suc b.sva) x n rest a.1 f.1 (omega arith) t)
]

append-IsAscending :
    (lo : ℕ) (x b : Block) (rest : List Block)
    → IsAscending lo (b ∷ rest)
    → (last b rest).sva < x.sva
    → IsAscending lo (b ∷ rest ++ (x ∷ []))
append-IsAscending lo x b [] a t = omega arith
append-IsAscending lo x b (n ∷ rest) a t = (a.0, append-IsAscending (suc b.sva) x n rest a.1 t)

insert_sorted-IsAscending :
    (lo : ℕ) (x : Block) (xs : List Block)
    → lo ≤ x.sva
    → IsAscending lo xs
    → StartFree x.sva xs
    → IsAscending lo (insert_sorted x xs)
unfolding insert_sorted
insert_sorted-IsAscending lo x [] l a f = (l, tt)
insert_sorted-IsAscending lo x (b ∷ rest) l a f = elim (dec_lt x.sva b.sva) [
  | yes h ↦ rw (lt→ltb x.sva b.sva h) (l, (omega arith, a.1))
  | no h ↦ rw (le→ltb x.sva b.sva (omega arith)) (elim (dec_lt (last b rest).sva x.sva) [
    | yes k ↦ rw (lt→ltb (last b rest).sva x.sva k) (append-IsAscending lo x b rest a k)
    | no k ↦
        rw (le→ltb (last b rest).sva x.sva (omega arith))
          (insert_between-IsAscending lo x b rest a f (omega arith) (omega arith))
  ])
]

find_loop-append :
    (va : ℕ) (x : Block) (xs : List Block)
    → StartFree x.sva xs
    → find_loop va (xs ++ (x ∷ [])) ≡ (if x.sva == va then some x else find_loop va xs)
unfolding find_loop
find_loop-append va x [] f = refl
find_loop-append va x (b ∷ rest) f = ground (arith, find_loop-append va x rest f.1)

find_loop-insert_between :
    (va : ℕ) (x b : Block) (rest : List Block)
    → StartFree x.sva (b ∷ rest)
    → b.sva < x.sva
    → x.sva ≤ (last b rest).sva
    → find_loop va (insert_between x b rest)
      ≡ (if x.sva == va then some x else find_loop va (b ∷ rest))
unfolding find_loop insert_between
find_loop-insert_between va x b [] f l t = absurd (omega arith)
find_loop-insert_between va x b (n ∷ rest) f l t = elim (dec_lt x.sva n.sva) [
  | yes h ↦ rw (lt→ltb b.sva x.sva l, lt→ltb x.sva n.sva h) (ground arith)
  | no h ↦
      let ih = find_loop-insert_between va x n rest f.1 (omega arith) t in
      rw (lt→ltb b.sva x.sva l, le→ltb x.sva n.sva (omega arith)) (ground (arith, ih))
]

find_loop-insert_sorted :
    (va : ℕ) (x : Block) (xs : List Block)
    → StartFree x.sva xs
    → find_loop va (insert_sorted x xs) ≡ (if x.sva == va then some x else find_loop va xs)
unfolding insert_sorted find_loop
find_loop-insert_sorted va x [] f = refl
find_loop-insert_sorted va x (b ∷ rest) f = elim (dec_lt x.sva b.sva) [
  | yes h ↦ rw (lt→ltb x.sva b.sva h) refl
  | no h ↦ rw (le→ltb x.sva b.sva (omega arith)) (elim (dec_lt (last b rest).sva x.sva) [
    | yes k ↦ rw (lt→ltb (last b rest).sva x.sva k) (find_loop-append va x (b ∷ rest) f)
    | no k ↦
        rw (le→ltb (last b rest).sva x.sva (omega arith))
          (find_loop-insert_between va x b rest f (omega arith) (omega arith))
  ])
]

-- insert_sorted_allocList on an allocated list in address order, with a block whose start no
-- allocated block has: the list stays in address order, and find_block then finds the block at its
-- own start and at any other address what it found before, whatever list it is asked to search.
pub insert_sorted_alloc_list_lem :
    (x : Block) (l : Lists)
    → IsAscending 0 l.alloc
    → StartFree x.sva l.alloc
    → let l' = insert_sorted_alloc_list x l in
      IsAscending 0 l'.alloc
      × ((search : List Block) (va : ℕ)
          → find_block l' search va ≡ (if x.sva == va then some x else find_block l search va))
      × (l'.free ≡ l.free)
unfolding insert_sorted_alloc_list find_block
insert_sorted_alloc_list_lem x l a f = (
  insert_sorted-IsAscending 0 x l.alloc (omega arith) a f,
  λ search va. find_loop-insert_sorted va x l.alloc f,
  refl,
)

pub alloc_list_keeps_free : (x : Block) (l : Lists) → (insert_sorted_alloc_list x l).free ≡ l.free
unfolding insert_sorted_alloc_list
alloc_list_keeps_free x l = refl
