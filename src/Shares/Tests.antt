-- ===== src/Shares/Tests.antt =====
-- An array of two entries, the first in use, and the object "a" of owner 5.
use fos_project.Strings.{strcmp}
use fos_project.Prelude.{ok, Returning, ◌+◌, ◌≡◌, refl, false, none, some, [], ◌∷◌, arith}
use fos_project.Paging.{
  Machine, initialize_frame_info, allocate_frame, get_page_table, link_frame, map_in_table,
  with_table, map_frame,
}
use fos_project.Shares.{
  Share, share_id, ShareSystem, empty_share, first_empty_share, find_share, get_share_object_id,
  with_frame, kernel_page, take_entry, allocate_entry, allocate_share_object, add_frame_to_storage,
  create_loop, fill_share, create_unless, create_shared_object,
}
use fos_project.Shares.Lookup.{Created, create_shared_object-Created}
use fos_project.Shares.Storage.{Adds, add_frame_to_storage-Adds}

abbrev machine : Machine
machine = record { fault_handler = λ va s. s; kmalloc_page = λ s. some (9, s) }

abbrev used_share : Share
used_share = record empty_share { owner_id = 5; name = 98 ∷ []; size = 4096; empty = false }

abbrev system : ShareSystem
system = record {
  shares = used_share ∷ empty_share ∷ [];
  paging = record {
    directory = λ d. 20480 + 7;
    table = λ d i. 0;
    references = λ f. 0;
    va = λ f. 0;
    free_frame_list = 4 ∷ 6 ∷ [];
  };
}

created :
    (s : ShareSystem) × (create_shared_object machine 5 (97 ∷ []) 5000 1 2147483648 system
      ≡ ok (share_id 1, s))
unfolding create_shared_object create_unless allocate_share_object allocate_entry take_entry
    fill_share create_loop kernel_page add_frame_to_storage get_share_object_id find_share
    first_empty_share strcmp allocate_frame map_frame with_table get_page_table map_in_table
    link_frame initialize_frame_info with_frame
created = (_, refl)

create_shared_object-Created_example :
    Created machine 5 (97 ∷ []) 5000 1 2147483648 (share_id 1, created.0)
create_shared_object-Created_example =
    create_shared_object-Created machine 5 (97 ∷ []) 5000 1 2147483648 1 system created.0
      (omega arith, tt) (omega arith) created.1

add_frame_to_storage-Adds_example :
    Returning
      (Adds (λ d. none) 4 1025)
      (add_frame_to_storage machine (λ d. none) 4 1025 system.paging)
add_frame_to_storage-Adds_example =
    add_frame_to_storage-Adds machine (λ d. none) 4 1025 system.paging (omega arith)
