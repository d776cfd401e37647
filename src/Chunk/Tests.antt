-- ===== src/Chunk/Tests.antt =====
-- The theorem on ranges at a directory with one table, in which one page is mapped.
use fos_project.Prelude.Words.{add32, roundup, rounddown}
use fos_project.Chunk.Range.{chunk_refuses, SomeMapped, Resident}
use fos_project.Paging.{Machine, Paging}
use fos_project.Chunk.{cut_paste_pages, pages_between, share_chunk, allocate_chunk}
use fos_project.Prelude.{
  ◌==◌, if◌then◌else◌, eq→==, ne→==, ok, ◌+◌, ◌≡◌, refl, inl, inr, false, none, [], ◌∷◌, arith,
  ℕ_discrete,
}

abbrev machine : Machine
machine = record { fault_handler = λ va s. s; kmalloc_page = λ s. none }

abbrev paging : Paging
paging = record {
  directory = λ d. if d == 0 then 20480 + 7 else 0;
  table = λ d i. if d == 0 then (if i == 1 then 12288 + 7 else 0) else 0;
  references = λ f. if f == 3 then 1 else 0;
  va = λ f. 0;
  free_frame_list = 4 ∷ 6 ∷ [];
}

paging-Resident : Resident paging
paging-Resident d = elim (ℕ_discrete d 0) [
  | yes e ↦ inl (rw (eq→== d 0 e) refl)
  | no e ↦ inr (rw (ne→== d 0 e) refl)
]

second_is_mapped : SomeMapped 3 (rounddown 100) paging
unfolding rounddown
second_is_mapped = inr (inl (refl, omega arith))

three_pages : pages_between (rounddown 100) (roundup (add32 100 8192)) ≡ 3
unfolding rounddown roundup
three_pages = refl

chunk_refuses_example :
    (allocate_chunk machine 100 8192 6 paging ≡ ok (false, paging))
    × (share_chunk machine 65536 100 8192 6 paging ≡ ok (false, paging))
    × (cut_paste_pages machine 65536 100 3 paging ≡ ok (false, paging))
chunk_refuses_example =
    chunk_refuses machine 65536 100 8192 6 3 paging paging-Resident second_is_mapped three_pages
