-- ===== src/Heap/RoundTrip.antt =====
-- malloc followed by free gives the free space back.
use mathlib.Core.Path.{subst⁻¹}
use fos_project.Allocator.AllocList.{
  IsAscending, StartFree, insert_sorted_alloc_list_lem, alloc_list_keeps_free,
}
use fos_project.Heap.{
  without, Syscalls, UserHeap, initialize_uheap, keep_block, malloc_ready, malloc, free,
}
use fos_project.Allocator.Merge.{merge_free, insert_sorted_with_merge_free_list, free_is_merge}
use fos_project.Allocator.Canonical.{extents, Taken-Restores}
use fos_project.Allocator.Fit.{Taken, FirstFitCall, alloc_block_ff_lem}
use fos_project.Prelude.Words.{roundup}
use fos_project.Allocator.Space.{covers, Coalesced}
use fos_project.Allocator.{Block, Lists, find_block, insert_sorted_alloc_list, alloc_block_ff}
use fos_project.Prelude.{
  eq→==, ne→==, All, Result, panic, ok, ◌>>=◌, ℕ, ◌<◌, ◌≡◌, refl, sym, ap, ◌∙◌, ◌≢◌, true, false,
  Option, none, some, [], arith,
}

-- What the lists of a heap must satisfy: a well formed free list, the allocated list in address
-- order, no allocated block that starts in free space, and an available node.
pub record Sound (l : Lists) : Type 0 where
  pub coalesced : Coalesced 0 l.free
  pub ascending : IsAscending 0 l.alloc
  pub disjoint : (a : ℕ) → covers l.free a ≡ true → StartFree a l.alloc
  pub has_node : l.avail ≢ []

module _ {S : Type 0} (sys : Syscalls S) where
  -- After free the free list has the ranges of before.
  abbrev pub Restored : UserHeap S → Result (UserHeap S) → Type 0
  Restored h panic = ⊥
  Restored h (ok h') = extents h'.lists.free ≡ extents h.lists.free

  -- What malloc may give: no pointer, where no free block has the size, or one that free accepts.
  abbrev pub FreesAgain : ℕ → UserHeap S → Result (Option ℕ × UserHeap S) → Type 0
  FreesAgain size h panic = ⊥
  FreesAgain size h (ok (none, h')) = All (λ b. b.size < roundup size) h.lists.free
  FreesAgain size h (ok (some va, h')) = Restored h (free sys va h')

  free-eq :
      (va : ℕ) (b : Block) (h : UserHeap S)
      → find_block h.lists h.lists.alloc va ≡ some b
      → free sys va h
        ≡ ok (record h {
          lists =
              insert_sorted_with_merge_free_list b
                (record h.lists { alloc = without b.node h.lists.alloc });
          kernel = sys.free_user_mem va b.size h.kernel;
        })
  unfolding free
  free-eq va b h e = ground arith

  start_is_covered :
      (size : ℕ) (l l' : Lists) (b : Block)
      → 0 < size
      → Taken 0 size l.free b l'.free
      → covers l.free b.sva ≡ true
  start_is_covered size l l' b z t = t.same_space b.sva ∙ ground (arith, t.sized)

  found_again :
      (size : ℕ) (l l' : Lists) (b : Block)
      → 0 < size
      → Sound l
      → Taken 0 size l.free b l'.free
      → l'.alloc ≡ l.alloc
      → find_block (insert_sorted_alloc_list b l') (insert_sorted_alloc_list b l').alloc b.sva
        ≡ some b
  found_again size l l' b z s t same =
      let f = s.disjoint b.sva (start_is_covered size l l' b z t) in
      let v =
        insert_sorted_alloc_list_lem b l' (subst⁻¹ (IsAscending 0) same s.ascending)
          (subst⁻¹ (StartFree b.sva) same f) in
      v.1 (insert_sorted_alloc_list b l').alloc b.sva ∙ rw (eq→== b.sva b.sva refl) refl

  malloc-eq :
      (size : ℕ) (h : UserHeap S)
      → h.first_time_flag ≡ false
      → sys.is_first_fit h.kernel ≡ true
      → size ≢ 0
      → malloc sys size h ≡ (alloc_block_ff (roundup size) h.lists >>= keep_block sys h)
  unfolding malloc initialize_uheap malloc_ready
  malloc-eq size h once fits nonzero = rw (once, ne→== size 0 nonzero, fits) refl

  free_of_merge :
      (b : Block) (l l' : Lists)
      → l'.free ≡ l.free
      → (insert_sorted_with_merge_free_list b l').free
        ≡ (insert_sorted_with_merge_free_list b l).free
  free_of_merge b l l' e =
      free_is_merge b l' ∙ ap (λ f. (merge_free b f).0) e ∙ sym (free_is_merge b l)

  kept-FreesAgain :
      (size : ℕ) (h : UserHeap S) (r : Result (Option Block × Lists))
      → 0 < roundup size
      → Sound h.lists
      → FirstFitCall (roundup size) h.lists r
      → FreesAgain size h (r >>= keep_block sys h)
  unfolding keep_block
  kept-FreesAgain size h panic z s r = absurd (s.has_node r.0)
  kept-FreesAgain size h (ok (none, l)) z s r = r.0
  kept-FreesAgain size h (ok (some b, l)) z s (t, first, same) =
      let kept = insert_sorted_alloc_list b l in
      let freed = record kept { alloc = without b.node kept.alloc } in
      subst⁻¹ (Restored h)
        (free-eq b.sva b (record h { lists = kept })
          (found_again (roundup size) h.lists l b z s t same))
        (ap extents (free_of_merge b l freed (alloc_list_keeps_free b l))
          ∙ Taken-Restores (roundup size) h.lists l b z s.coalesced t)

  -- malloc on an initialised user heap with sound lists (the free list is well formed, the allocated
  -- one is in address order and none of its blocks starts in free space, and a node is available),
  -- under the first fit strategy, for a size above 0 that does not wrap when it is rounded up: it
  -- returns; without a pointer only where every free block is too small; and free on the pointer that
  -- it gives returns, with the free space of before, range by range.
  pub malloc-FreesAgain :
      (size : ℕ) (h : UserHeap S)
      → h.first_time_flag ≡ false
      → sys.is_first_fit h.kernel ≡ true
      → size ≢ 0
      → 0 < roundup size
      → Sound h.lists
      → FreesAgain size h (malloc sys size h)
  malloc-FreesAgain size h once fits nonzero z s =
      subst⁻¹ (FreesAgain size h) (malloc-eq size h once fits nonzero) (
        kept-FreesAgain size h (alloc_block_ff (roundup size) h.lists) z s
          (alloc_block_ff_lem (roundup size) h.lists z s.coalesced))
