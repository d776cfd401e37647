-- ===== src/Allocator/Tests.antt =====
-- The allocator's theorems at concrete lists of blocks.
use fos_project.Allocator.Merge.Nodes.{total-insert_sorted_with_merge}
use fos_project.Allocator.AllocList.{IsAscending, insert_sorted_alloc_list_lem}
use fos_project.Allocator.BestFit.{BestFit, alloc_block_bf_lem, HandsOut, alloc_block_bf-uninit}
use fos_project.Allocator.Nodes.{total, held, KeepsNode, alloc-KeepsNode}
use fos_project.Allocator.Fit.{FirstFitCall, alloc_block_ff_lem}
use fos_project.Allocator.Merge.Inserted.{Fits, insert_sorted_with_merge-Inserted}
use fos_project.Allocator.{
  Block, Lists, find_block, insert_sorted_alloc_list, alloc_block_ff, alloc_block_nf,
  alloc_block_bf,
}
use fos_project.Allocator.Space.{holds, covers, Coalesced, Apart}
use fos_project.Allocator.Canonical.{Restores, insert_sorted_with_merge-alloc_block_ff}
use fos_project.Allocator.Merge.{insert_sorted_with_merge_free_list}
use fos_project.Prelude.{
  ◌==◌, if◌then◌else◌, ℕ, ◌+◌, ◌≡◌, refl, inl, inr, ◌||◌, some, List, [], ◌∷◌, arith,
}

abbrev low : Block
low = record { node = 0; sva = 100; size = 50 }

abbrev high : Block
high = record { node = 1; sva = 200; size = 80 }

abbrev spare : Block
spare = record { node = 2; sva = 0; size = 0 }

abbrev gap : Block
gap = record { node = 3; sva = 150; size = 50 }

abbrev state : Lists
state = record { free = low ∷ high ∷ []; alloc = gap ∷ []; avail = spare ∷ [] }

gap-Fits : Fits 0 gap
gap-Fits = record { above = omega arith; positive = omega arith; bounded = omega arith }

state-Coalesced : Coalesced 0 state.free
state-Coalesced = ground arith

gap-Apart : Apart gap state.free
gap-Apart = ground arith

insert_sorted_with_merge-Inserted_example :
    let l' = insert_sorted_with_merge_free_list gap state in
    Coalesced 0 l'.free
    × ((a : ℕ) → covers l'.free a ≡ (holds gap a || covers state.free a))
    × (l'.alloc ≡ state.alloc)
insert_sorted_with_merge-Inserted_example =
    insert_sorted_with_merge-Inserted gap state gap-Fits state-Coalesced gap-Apart

total-insert_sorted_with_merge_example :
    total 2 (insert_sorted_with_merge_free_list gap state) ≡ held 2 (some gap) + total 2 state
total-insert_sorted_with_merge_example =
    total-insert_sorted_with_merge 2 gap state gap-Fits state-Coalesced gap-Apart

alloc_block_ff_lem_example : FirstFitCall 60 state (alloc_block_ff 60 state)
alloc_block_ff_lem_example = alloc_block_ff_lem 60 state (omega arith) state-Coalesced

alloc-KeepsNode_example :
    KeepsNode 1 state (alloc_block_ff 60 state)
    × KeepsNode 1 state (alloc_block_bf (0, 0) 60 state)
    × KeepsNode 1 state (alloc_block_nf 60 state)
alloc-KeepsNode_example = alloc-KeepsNode 1 60 (0, 0) state

alloc_block_bf_lem_example : BestFit 40 state (alloc_block_bf (0, 0) 40 state)
alloc_block_bf_lem_example =
    alloc_block_bf_lem (0, 0) 40 state (omega arith) state-Coalesced (ground arith)

alloc_block_bf-uninit_example : HandsOut 500 (alloc_block_bf (80, 200) 500 state)
alloc_block_bf-uninit_example =
    alloc_block_bf-uninit (80, 200) 500 state spare [] refl (ground arith) (inr (inl (refl, refl)))

insert_sorted_alloc_list_lem_example :
    let l' = insert_sorted_alloc_list high state in
    IsAscending 0 l'.alloc
    × ((search : List Block) (va : ℕ)
        → find_block l' search va
          ≡ (if high.sva == va then some high else find_block state search va))
    × (l'.free ≡ state.free)
insert_sorted_alloc_list_lem_example =
    insert_sorted_alloc_list_lem high state (ground arith) (ground arith)

insert_sorted_with_merge-alloc_block_ff_example : Restores state (alloc_block_ff 60 state)
insert_sorted_with_merge-alloc_block_ff_example =
    insert_sorted_with_merge-alloc_block_ff 60 state (omega arith) state-Coalesced
