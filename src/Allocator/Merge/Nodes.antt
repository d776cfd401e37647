-- ===== src/Allocator/Merge/Nodes.antt =====
-- insert_sorted_with_merge_freeList does not lose a node.
use fos_project.Prelude.{
  lt→ltb, le→ltb, ℕ, suc, ◌+◌, ◌≤◌, ◌<◌, ◌≡◌, ◌≢◌, some, List, [], ◌∷◌, arith, dec_lt,
}
use fos_project.Allocator.{Block, Lists, last}
use fos_project.Allocator.Space.{Coalesced, Apart}
use fos_project.Allocator.Nodes.{count, count-append, total, held}
use fos_project.Allocator.Merge.{
  Merged, between, before_first, insert_after, append_last, merge_free,
  insert_sorted_with_merge_free_list,
}
use fos_project.Allocator.Merge.Inserted.{Fits}

-- A node of the free list or of the block is in the free list or among the spare nodes.
abbrev Kept : ℕ → Block → List Block → Merged → Type 0
Kept k x xs m = count k m.0 + count k m.1 ≡ count k (x ∷ xs)

between-Kept :
    (k : ℕ) (x prev it : Block) (rest : List Block)
    → Kept k x (prev ∷ it ∷ rest) (between x prev it rest)
unfolding between count
between-Kept k x prev it rest = ground arith

before_first-Kept :
    (k : ℕ) (x it : Block) (rest : List Block) → Kept k x (it ∷ rest) (before_first x it rest)
unfolding before_first count
before_first-Kept k x it rest = ground arith

insert_after-Kept :
    (k : ℕ) (x prev : Block) (rest : List Block)
    → prev.sva ≤ x.sva
    → x.sva < (last prev rest).sva
    → Kept k x (prev ∷ rest) (insert_after x prev rest)
unfolding insert_after count
insert_after-Kept k x prev [] l t = absurd (omega arith)
insert_after-Kept k x prev (it ∷ rest) l t = elim (dec_lt x.sva it.sva) [
  | yes h ↦ rw (lt→ltb x.sva it.sva h) (between-Kept k x prev it rest)
  | no h ↦
      rw (le→ltb x.sva it.sva (omega arith))
        (omega (arith, insert_after-Kept k x it rest (omega arith) t))
]

-- A block that lies apart does not start where the last one starts.
last-ne :
    (lo : ℕ) (x b : Block) (rest : List Block)
    → 0 < x.size
    → Coalesced lo (b ∷ rest)
    → Apart x (b ∷ rest)
    → x.sva ≢ (last b rest).sva
last-ne lo x b [] z c p = omega arith
last-ne lo x b (d ∷ rest) z c p = last-ne (suc (b.sva + b.size)) x d rest z c.3 p.1

append_last-Kept :
    (k : ℕ) (x b : Block) (rest : List Block) → Kept k x (b ∷ rest) (append_last x b rest)
unfolding append_last count
append_last-Kept k x b [] = ground arith
append_last-Kept k x b (c ∷ rest) = omega (arith, append_last-Kept k x c rest)

merge_free-Kept :
    (lo k : ℕ) (x : Block) (xs : List Block)
    → Fits lo x
    → Coalesced lo xs
    → Apart x xs
    → Kept k x xs (merge_free x xs)
unfolding merge_free
merge_free-Kept lo k x [] f c p = unfold count in omega arith
merge_free-Kept lo k x (b ∷ rest) f c p = elim (dec_lt (last b rest).sva x.sva) [
  | yes h ↦ rw (lt→ltb (last b rest).sva x.sva h) (append_last-Kept k x b rest)
  | no h ↦ rw (le→ltb (last b rest).sva x.sva (omega arith)) (elim (dec_lt x.sva b.sva) [
    | yes j ↦ rw (lt→ltb x.sva b.sva j) (before_first-Kept k x b rest)
    | no j ↦ rw (le→ltb x.sva b.sva (omega arith)) (
        insert_after-Kept k x b rest (omega arith)
          (omega (arith, last-ne lo x b rest f.positive c p)))
  ])
]

-- Under the conditions of the insertion, a node is afterwards in the lists as often as it was in
-- the lists and in the block together: where blocks are joined, the nodes left over are available.
pub total-insert_sorted_with_merge :
    (k : ℕ) (x : Block) (l : Lists)
    → Fits 0 x
    → Coalesced 0 l.free
    → Apart x l.free
    → total k (insert_sorted_with_merge_free_list x l) ≡ held k (some x) + total k l
unfolding insert_sorted_with_merge_free_list total count held
total-insert_sorted_with_merge k x l f c p =
    let m : Kept k x l.free (merge_free x l.free) = merge_free-Kept 0 k x l.free f c p in
    omega (arith, count-append k l.avail (merge_free x l.free).1, m)
