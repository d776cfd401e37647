-- ===== src/Allocator.antt =====
-- lib/dynamic_allocator.c: the allocator of memory blocks that the kernel heap and the user heap
-- share. A list of MemBlock nodes is the sequence of its nodes from first to last; a node is its
-- index in MemBlockNodes with the two fields that the code gives it. A call returns the three lists
-- beside its result, or `panic` where the code hands a null pointer to a list macro.
pub mod Space
pub mod Merge
pub mod Fit
pub mod BestFit
pub mod AllocList
pub mod Canonical
pub mod Nodes
mod Tests
use fos_project.Prelude.{
  ltb, ◌==◌, if◌then◌else◌, Result, ok, panic, ℕ, zero, suc, ◌+◌, ◌&&◌, Option, none, some, List,
  [], ◌∷◌, ◌++◌,
}
use fos_project.Prelude.Words.{add32, sub32}

-- struct MemBlock
pub record Block : Type 0 where
  pub node : ℕ
  pub sva : ℕ
  pub size : ℕ

-- AvailableMemBlocksList, FreeMemBlocksList and AllocMemBlocksList
pub record Lists : Type 0 where
  pub avail : List Block
  pub free : List Block
  pub alloc : List Block

-- the loop of initialize_MemBlocksList: nodes i, i + 1, …, each put before the ones already there
pub init_loop : ℕ → ℕ → List Block → List Block
init_loop zero i avail = avail
init_loop (suc n) i avail = init_loop n (i + 1) (record { node = i; sva = 0; size = 0 } ∷ avail)

pub initialize_mem_blocks_list : ℕ → Lists → Lists
initialize_mem_blocks_list n l = record l { avail = init_loop n 0 [] }

-- find_block: the code searches AllocMemBlocksList whatever list it is given.
pub find_loop : ℕ → List Block → Option Block
find_loop va [] = none
find_loop va (blk ∷ rest) = if blk.sva == va then some blk else find_loop va rest

pub find_block : Lists → List Block → ℕ → Option Block
find_block l block_list va = find_loop va l.alloc

abbrev pub last : Block → List Block → Block
last b [] = b
last b (c ∷ rest) = last c rest

-- the LIST_FOREACH of insert_sorted_allocList: after the first node that is below the new block
-- and has a next node that is above it
pub insert_between : Block → Block → List Block → List Block
insert_between x blk [] = blk ∷ []
insert_between x blk (next ∷ rest) =
    if ltb blk.sva x.sva && ltb x.sva next.sva
    then blk ∷ x ∷ next ∷ rest
    else blk ∷ insert_between x next rest

pub insert_sorted : Block → List Block → List Block
insert_sorted x [] = x ∷ []
insert_sorted x (first ∷ rest) =
    if ltb x.sva first.sva
    then x ∷ first ∷ rest
    else if ltb (last first rest).sva x.sva
    then first ∷ rest ++ (x ∷ [])
    else insert_between x first rest

pub insert_sorted_alloc_list : Block → Lists → Lists
insert_sorted_alloc_list x l = record l { alloc = insert_sorted x l.alloc }

-- What a search of the free list gives: the block (if any), the available nodes, the free list.
abbrev pub Found : Type 0
Found = Option Block × List Block × List Block

-- A node from the head of AvailableMemBlocksList takes the low end of the free block `blk`.
pub split : ℕ → List Block → Block → List Block → Result Found
split size [] blk rest = panic
split size (new ∷ avail) blk rest = ok (
  some (record new { sva = blk.sva; size = size }),
  avail,
  record blk { sva = add32 blk.sva size; size = sub32 blk.size size } ∷ rest,
)

abbrev pub keep : Block → Result Found → Result Found
keep blk (ok (r, avail, free)) = ok (r, avail, blk ∷ free)
keep blk panic = panic

-- the LIST_FOREACH of alloc_block_FF
pub first_fit : ℕ → List Block → List Block → Result Found
first_fit size avail [] = ok (none, avail, [])
first_fit size avail (blk ∷ rest) =
    if blk.size == size
    then ok (some blk, avail, rest)
    else if ltb size blk.size
    then split size avail blk rest
    else keep blk (first_fit size avail rest)

abbrev pub with_lists : Lists → Result Found → Result (Option Block × Lists)
with_lists l (ok (r, avail, free)) = ok (r, record l { avail = avail; free = free })
with_lists l panic = panic

pub alloc_block_ff : ℕ → Lists → Result (Option Block × Lists)
alloc_block_ff size l = with_lists l (first_fit size l.avail l.free)

-- alloc_block_NF: its own loop, written as alloc_block_FF's.
pub next_fit : ℕ → List Block → List Block → Result Found
next_fit size avail [] = ok (none, avail, [])
next_fit size avail (blk ∷ rest) =
    if blk.size == size
    then ok (some blk, avail, rest)
    else if ltb size blk.size
    then split size avail blk rest
    else keep blk (next_fit size avail rest)

pub alloc_block_nf : ℕ → Lists → Result (Option Block × Lists)
alloc_block_nf size l = with_lists l (next_fit size l.avail l.free)

-- the four loops of alloc_block_BF
pub take_exact : ℕ → List Block → Option (Block × List Block)
take_exact size [] = none
take_exact size (blk ∷ rest) =
    if blk.size == size
    then some (blk, rest)
    else elim (take_exact size rest) [ none ↦ none | some (b, free) ↦ some (b, blk ∷ free) ]

-- `newsize` and `newveradd`
abbrev pub Choice : Type 0
Choice = ℕ × ℕ

pub first_larger : ℕ → Choice → List Block → Choice
first_larger size c [] = c
first_larger size c (blk ∷ rest) =
    if ltb size blk.size then (blk.size, blk.sva) else first_larger size c rest

pub smaller : ℕ → Choice → Block → Choice
smaller size c blk = if ltb blk.size c.0 && ltb size blk.size then (blk.size, blk.sva) else c

pub smallest_larger : ℕ → Choice → List Block → Choice
smallest_larger size c [] = c
smallest_larger size c (blk ∷ rest) = smallest_larger size (smaller size c blk) rest

pub split_chosen : ℕ → Choice → List Block → List Block → Result Found
split_chosen size c avail [] = ok (none, avail, [])
split_chosen size c avail (blk ∷ rest) =
    if (blk.size == c.0) && (blk.sva == c.1)
    then split size avail blk rest
    else keep blk (split_chosen size c avail rest)

-- `uninit` is what the two locals hold on entry: the code does not initialise them.
pub best_fit : Choice → ℕ → List Block → List Block → Result Found
best_fit uninit size avail free = elim (take_exact size free) [
  | some (b, rest) ↦ ok (some b, avail, rest)
  | none ↦ split_chosen size (smallest_larger size (first_larger size uninit free) free) avail free
]

pub alloc_block_bf : Choice → ℕ → Lists → Result (Option Block × Lists)
alloc_block_bf uninit size l = with_lists l (best_fit uninit size l.avail l.free)
