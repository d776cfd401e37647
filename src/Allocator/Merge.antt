-- ===== src/Allocator/Merge.antt =====
-- insert_sorted_with_merge_freeList of lib/dynamic_allocator.c: a block goes back to the free list,
-- in address order, and joins its neighbours. Each function returns the free list and the nodes
-- that the joins leave over, in the order in which they go back to the available list.
pub mod Inserted
pub mod Nodes
use fos_project.Prelude.{ltb, ◌==◌, if◌then◌else◌, ℕ, ◌≡◌, refl, List, [], ◌∷◌, ◌++◌}
use fos_project.Prelude.Words.{add32}
use fos_project.Allocator.{Block, Lists, last}

abbrev pub Merged : Type 0
Merged = List Block × List Block

-- addToAvailMemBlocksList clears the node's fields.
pub cleared : Block → Block
cleared b = record b { sva = 0; size = 0 }

-- end of a block, `sva + size`
abbrev pub end_of : Block → ℕ
end_of b = add32 b.sva b.size

abbrev pub grown : Block → Block → Block
grown b x = record b { size = add32 b.size x.size }

abbrev pub lowered : Block → Block → Block
lowered it x = record it { sva = x.sva; size = add32 it.size x.size }

abbrev pub behind : Block → Merged → Merged
behind b (free, spare) = (b ∷ free, spare)

-- the loop body at an iterator with a previous node
pub between : Block → Block → Block → List Block → Merged
unfolding cleared
between x prev it rest =
    if add32 (end_of prev) x.size == it.sva
    then (grown (grown prev x) it ∷ rest, cleared x ∷ cleared it ∷ [])
    else if end_of prev == x.sva
    then (grown prev x ∷ it ∷ rest, cleared x ∷ [])
    else if add32 x.size x.sva == it.sva
    then (prev ∷ lowered it x ∷ rest, cleared x ∷ [])
    else (prev ∷ x ∷ it ∷ rest, [])

-- the loop body at the first node
pub before_first : Block → Block → List Block → Merged
unfolding cleared
before_first x it rest =
    if add32 x.size x.sva == it.sva
    then (lowered it x ∷ rest, cleared x ∷ [])
    else (x ∷ it ∷ rest, [])

-- the search for the first node above `x`; `prev` is the node before the iterator
pub insert_after : Block → Block → List Block → Merged
unfolding between
insert_after x prev [] = (prev ∷ [], [])
insert_after x prev (it ∷ rest) =
    if ltb x.sva it.sva then between x prev it rest else behind prev (insert_after x it rest)

-- `last->sva < blockToInsert->sva`
pub append_last : Block → Block → List Block → Merged
unfolding cleared
append_last x b [] =
    if end_of b == x.sva then (grown b x ∷ [], cleared x ∷ []) else (b ∷ x ∷ [], [])
append_last x b (c ∷ rest) = behind b (append_last x c rest)

pub merge_free : Block → List Block → Merged
unfolding append_last before_first insert_after
merge_free x [] = (x ∷ [], [])
merge_free x (first ∷ rest) =
    if ltb (last first rest).sva x.sva
    then append_last x first rest
    else if ltb x.sva first.sva
    then before_first x first rest
    else insert_after x first rest

pub insert_sorted_with_merge_free_list : Block → Lists → Lists
unfolding merge_free
insert_sorted_with_merge_free_list x l =
    let (free, spare) = merge_free x l.free in record l { free = free; avail = l.avail ++ spare }

pub free_is_merge :
    (b : Block) (l : Lists)
    → (insert_sorted_with_merge_free_list b l).free ≡ (merge_free b l.free).0
unfolding insert_sorted_with_merge_free_list
free_is_merge b l = refl
