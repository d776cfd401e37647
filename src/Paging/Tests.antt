-- ===== src/Paging/Tests.antt =====
-- The paging theorems at a directory with one table, in which one page is mapped.
use fos_project.Paging.Mapping.{unmap_frame-get_frame_info, map_frame-get_frame_info, Aside, Maps}
use fos_project.Paging.{map_frame, unmap_frame, Machine, Paging, get_frame_info}
use fos_project.Prelude.{◌==◌, if◌then◌else◌, ◌+◌, ◌≡◌, refl, none, [], ◌∷◌, arith}

abbrev machine : Machine
machine = record { fault_handler = λ va s. s; kmalloc_page = λ s. none }

abbrev paging : Paging
paging = record {
  directory = λ d. if d == 0 then 20480 + 7 else 0;
  table = λ d i. if d == 0 then (if i == 1 then 12288 + 7 else 0) else 0;
  references = λ f. if f == 3 then 1 else 0;
  va = λ f. 0;
  free_frame_list = 4 ∷ 6 ∷ [];
}

unmap_frame-get_frame_info_example :
    ((get_frame_info machine 4096 (unmap_frame machine 4096 paging)).0 ≡ none)
    × Aside 4096 paging (unmap_frame machine 4096 paging)
unmap_frame-get_frame_info_example = unmap_frame-get_frame_info machine 4096 paging refl

map_frame-get_frame_info_example : Maps machine 4 4096 paging (map_frame machine 4 4096 6 paging)
map_frame-get_frame_info_example =
    map_frame-get_frame_info machine 4 4096 6 paging (omega arith) refl
