-- ===== src/Paging.antt =====
-- The frames and page tables of kern/mem/memory_manager.c and kern/mem/paging_helpers.c, for one page
-- directory. Entries are 32-bit words: a frame's address in the upper 20 bits, its permissions in the
-- lower 12. The table that a directory entry points to is kept under the entry's index, and a frame is
-- its number. No code sets isBuffered, so the branches on buffered frames are left out; the
-- translation cache holds no state of its own.
pub mod Mapping
pub mod Permissions
mod Tests
use fos_project.Prelude.Words.{bit_or, and_not}
use fos_project.Prelude.{
  ◌==◌, if◌then◌else◌, set, Result, panic, ok, ◌>>=◌, ℕ, ◌+◌, ◌-◌, ◌*◌, ◌/◌, ◌%◌, ◌^◌, Bool, Option,
  none, some, List, [], ◌∷◌,
}

pub record Paging : Type 0 where
  pub directory : ℕ → ℕ
  pub table : ℕ → ℕ → ℕ
  pub references : ℕ → ℕ
  pub va : ℕ → ℕ
  pub free_frame_list : List ℕ

-- What is called from outside: the fault handler, which brings a table into memory, and kmalloc of one
-- page, which gives the number of the page's frame or NULL.
pub record Machine : Type 0 where
  pub fault_handler : ℕ → Paging → Paging
  pub kmalloc_page : Paging → Option (ℕ × Paging)

-- PDX and PTX
abbrev pub pdx : ℕ → ℕ
pdx va = va / 2 ^ 22 % 1024

abbrev pub ptx : ℕ → ℕ
ptx va = va / 2 ^ 12 % 1024

-- PERM_PRESENT of an entry, its frame, and its permissions
abbrev pub is_present : ℕ → Bool
is_present entry = entry % 2 == 1

abbrev pub frame_of : ℕ → ℕ
frame_of entry = entry / 4096

abbrev pub permissions_of : ℕ → ℕ
permissions_of entry = entry % 4096

-- CONSTRUCT_ENTRY of a frame's address and `perm | PERM_PRESENT`
abbrev pub construct_entry : ℕ → ℕ → ℕ
construct_entry frame perm = frame * 4096 + (perm - perm % 2 + 1)

abbrev pub put : (ℕ → ℕ) → ℕ → ℕ → ℕ → ℕ
put f i v j = if i == j then v else f j

abbrev pub put_entry : ℕ → ℕ → Paging → Paging
put_entry va v s = record s {
  table = λ d. if pdx va == d then put (s.table d) (ptx va) v else s.table d;
}

-- an entry of the table at an address
abbrev pub entry_at : ℕ → Paging → ℕ
entry_at va s = s.table (pdx va) (ptx va)

unfoldable pub initialize_frame_info : ℕ → Paging → Paging
initialize_frame_info f s = record s { references = put s.references f 0; va = put s.va f 0 }

unfoldable pub allocate_frame : Paging → Result (ℕ × Paging)
allocate_frame s = elim s.free_frame_list [
  | [] ↦ panic
  | f ∷ rest ↦ ok (f, initialize_frame_info f (record s { free_frame_list = rest }))
]

pub free_frame : ℕ → Paging → Paging
free_frame f s =
    let s' = initialize_frame_info f s in record s' { free_frame_list = f ∷ s'.free_frame_list }

-- The count has 16 bits.
pub decrement_references : ℕ → Paging → Paging
decrement_references f s =
    let n = (s.references f + 65535) % 65536 in
    let s' = record s { references = put s.references f n } in
    if n == 0 then free_frame f s' else s'

-- what get_page_table returns: TABLE_IN_MEMORY or TABLE_NOT_EXIST
pub data Table : Type 0 where
  in_memory not_exist : Table

-- get_frame_info after the table: the frame of the entry, where there is a table and the entry is not 0
unfoldable pub frame_at : ℕ → Table × Paging → Option ℕ × Paging
frame_at va (not_exist, s) = (none, s)
frame_at va (in_memory, s) =
    if entry_at va s == 0 then (none, s) else (some (frame_of (entry_at va s)), s)

-- unmap_frame after get_frame_info
pub unmap_found : ℕ → Option ℕ × Paging → Paging
unmap_found va (none, s) = s
unmap_found va (some f, s) = put_entry va 0 (decrement_references f s)

module _ (m : Machine) where
  unfoldable pub get_page_table : ℕ → Paging → Table × Paging
  get_page_table va s =
      if is_present (s.directory (pdx va))
      then (in_memory, s)
      else if s.directory (pdx va) == 0
      then (not_exist, s)
      else (in_memory, m.fault_handler va s)

  pub create_page_table : ℕ → Paging → Result Paging
  create_page_table va s = elim (m.kmalloc_page s) [
    | none ↦ panic
    | some (f, s') ↦ ok (record s' {
      directory = put s'.directory (pdx va) (construct_entry f 7);
      table = λ d. if pdx va == d then (λ i. 0) else s'.table d;
    })
  ]

  unfoldable pub get_frame_info : ℕ → Paging → Option ℕ × Paging
  get_frame_info va s = frame_at va (get_page_table va s)

  pub unmap_frame : ℕ → Paging → Paging
  unmap_frame va s = unmap_found va (get_frame_info va s)

  -- the last two assignments of map_frame
  unfoldable pub link_frame : ℕ → ℕ → ℕ → Paging → Paging
  link_frame f va perm s =
      put_entry va (construct_entry f perm)
        (record s { references = put s.references f ((s.references f + 1) % 65536) })

  -- map_frame with the table in memory
  unfoldable pub map_in_table : ℕ → ℕ → ℕ → Paging → Paging
  map_in_table f va perm s =
      if is_present (entry_at va s)
      then if frame_of (entry_at va s) == f then s else link_frame f va perm (unmap_frame va s)
      else link_frame f va perm s

  -- map_frame after get_page_table: a table that is not there is made.
  unfoldable pub with_table : ℕ → Table × Paging → Result Paging
  with_table va (in_memory, s) = ok s
  with_table va (not_exist, s) = create_page_table va s

  unfoldable pub map_frame : ℕ → ℕ → ℕ → Paging → Result Paging
  map_frame f va perm s =
      with_table va (get_page_table va s) >>= λ s'. ok (map_in_table f va perm s')

  pub loadtime_map_frame : ℕ → ℕ → ℕ → Paging → Result Paging
  loadtime_map_frame f va perm s =
      if s.directory (pdx va) == 0
      then (create_page_table va s >>= λ s'. ok (link_frame f va perm s'))
      else ok (link_frame f va perm s)

  -- -1 where there is no table
  pub pt_get_page_permissions : ℕ → Paging → Option ℕ × Paging
  pt_get_page_permissions va s =
      let (r, s') = get_page_table va s in
      elim r [ in_memory ↦ (some (permissions_of (entry_at va s')), s') | not_exist ↦ (none, s') ]

  -- `set` and `clear` are masks.
  unfoldable pub pt_set_page_permissions : ℕ → ℕ → ℕ → Paging → Result Paging
  pt_set_page_permissions va set clear s =
      let (r, s') = get_page_table va s in
      let e = entry_at va s' in
      elim r [
        | in_memory ↦
            ok (put_entry va (if clear == 0 then bit_or e set else and_not (bit_or e set) clear) s')
        | not_exist ↦ panic
      ]

  pub pt_clear_page_table_entry : ℕ → Paging → Result Paging
  pt_clear_page_table_entry va s =
      let (r, s') = get_page_table va s in
      elim r [ in_memory ↦ ok (put_entry va 0 s') | not_exist ↦ panic ]

  -- -1 where there is no table
  pub virtual_to_physical : ℕ → Paging → Option ℕ × Paging
  virtual_to_physical va s =
      let (r, s') = get_page_table va s in
      elim r [ in_memory ↦ (some (frame_of (entry_at va s') * 4096), s') | not_exist ↦ (none, s') ]

-- the PERM_USED bit of a directory entry
pub pd_is_table_used : ℕ → Paging → Bool
pd_is_table_used va s = s.directory (pdx va) / 32 % 2 == 1

pub pd_set_table_unused : ℕ → Paging → Paging
pd_set_table_unused va s =
    let e = s.directory (pdx va) in
    record s { directory = put s.directory (pdx va) (e - e / 32 % 2 * 32) }

pub pd_clear_page_dir_entry : ℕ → Paging → Paging
pd_clear_page_dir_entry va s = record s { directory = put s.directory (pdx va) 0 }
