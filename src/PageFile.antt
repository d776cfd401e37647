-- ===== src/PageFile.antt =====
-- kern/disk/pagefile_manager.c: the page file of an environment. A disk frame is its number, and 0 is
-- none. A disk directory or table that is not there is none; kmalloc of a page for one is that of
-- Paging. `C` is what a page holds and `D` what the disk holds; reading and writing sectors
-- (lib/disk.c, port input and output) is a parameter. A null pointer that is used is `panic`.
pub mod Slots
pub mod Ownership
pub mod Adding
pub mod Writing
pub mod Updating
pub mod Freeing
pub mod Releasing
pub mod Tables
pub mod Steps
pub mod Removal
pub mod RoundTrip
mod Tests
use fos_project.Prelude.Words.{u32_mod, add32, sub32, page_size, rounddown, roundup}
use fos_project.Paging.{
  Paging, Machine, pdx, ptx, put, get_frame_info, unmap_frame, map_frame, pt_set_page_permissions,
}
use fos_project.Prelude.{
  ltb, leb, ◌==◌, if◌then◌else◌, length, Result, panic, ok, ◌>>=◌, ℕ, zero, suc, ◌+◌, ◌-◌, ◌*◌, ◌/◌,
  ◌%◌, Bool, ◌&&◌, ◌||◌, Option, none, some, List, [], ◌∷◌,
}

-- ide_read and ide_write of a page's sectors: success, and what the page or the disk holds then
pub record Ide (C D : Type 0) : Type 0 where
  pub ide_read : ℕ → D → C → Bool × C
  pub ide_write : ℕ → C → D → Bool × D

-- the fields of struct Env that the page file uses, the disk's free frames, and what the memory
-- frames and the disk hold
pub record Env (C D : Type 0) : Type 0 where
  pub disk_env_pgdir : Option (ℕ → Option (ℕ → ℕ))
  pub disk_env_tabledir : Option (ℕ → ℕ)
  pub disk_free_frame_list : List ℕ
  pub paging : Paging
  pub memory : ℕ → C
  pub disk : D
  pub n_page_in : ℕ
  pub n_page_out : ℕ
  pub n_new_page_added : ℕ
  pub init_num_stack_pages : ℕ

-- 0, E_NO_PAGE_FILE_SPACE, E_PAGE_NOT_EXIST_IN_PF or an error of the disk
pub data Status : Type 0 where
  done no_page_file_space page_not_exist disk_error : Status

-- KERNEL_BASE, USER_LIMIT, USER_TOP and the bounds of the user heap
abbrev pub kernel_base : ℕ
kernel_base = 4026531840

abbrev pub user_limit : ℕ
user_limit = 4018143232

abbrev pub user_top : ℕ
user_top = 4005560320

-- USER_PAGES_WS_MAX with its 32-bit product, the size of a working set element being 24 bytes
abbrev pub ustackbottom : ℕ
ustackbottom = roundup (2684354560 + 24 * user_top % u32_mod / page_size)

abbrev pub ustacktop : ℕ
ustacktop = user_top - 2 * page_size

-- in the user heap or on the stack
pub is_heap_or_stack : ℕ → Bool
is_heap_or_stack va =
    (leb 2147483648 va && ltb va 2684354560) || (leb ustackbottom va && ltb va ustacktop)

abbrev pub set_at {ℓ} : {A : Type ℓ} → (ℕ → A) → ℕ → A → ℕ → A
set_at f i v j = if i == j then v else f j

-- the loop of initialize_disk_page_file from frame `i` on
pub free_frames : ℕ → ℕ → List ℕ → List ℕ
free_frames zero i free = free
free_frames (suc n) i free = free_frames n (i + 1) (i ∷ free)

pub free_disk_frame : ℕ → List ℕ → List ℕ
free_disk_frame dfn free = if dfn == 0 then free else dfn ∷ free

-- the first sector of a disk frame
abbrev pub start_sector : ℕ → ℕ
start_sector dfn = 40960 + dfn * 8

-- the inner loop of pf_calculate_allocated_pages
pub count_table : ℕ → (ℕ → ℕ) → ℕ
count_table zero t = 0
count_table (suc n) t = count_table n t + (if t n == 0 then 0 else 1)

pub count_dir : ℕ → (ℕ → Option (ℕ → ℕ)) → ℕ
count_dir zero dir = 0
count_dir (suc n) dir = count_dir n dir + (elim (dir n) [ none ↦ 0 | some t ↦ count_table 1024 t ])

-- the loop of pf_free_env over a table's first `n` entries, and over the directory's
pub free_table : ℕ → (ℕ → ℕ) → List ℕ → List ℕ
free_table zero t free = free
free_table (suc n) t free = free_disk_frame (t n) (free_table n t free)

pub free_dir : ℕ → (ℕ → Option (ℕ → ℕ)) → List ℕ → List ℕ
free_dir zero dir free = free
free_dir (suc n) dir free =
    let rest = free_dir n dir free in elim (dir n) [ none ↦ rest | some t ↦ free_table 1024 t rest ]

module _ {C D : Type 0} where
  -- PAGES_PER_FILE is 133120, and frame 0 is not used.
  pub initialize_disk_page_file : Env C D → Env C D
  initialize_disk_page_file e = record e { disk_free_frame_list = free_frames 133119 1 [] }

  pub allocate_disk_frame : Env C D → Option (ℕ × Env C D)
  allocate_disk_frame e = elim e.disk_free_frame_list [
    | [] ↦ none
    | dfn ∷ rest ↦ some (dfn, record e { disk_free_frame_list = rest })
  ]

  -- the disk table of an address, and the frame in it
  unfoldable pub table_of : ℕ → Env C D → Option (ℕ → ℕ)
  table_of va e = elim e.disk_env_pgdir [ none ↦ none | some dir ↦ dir (pdx va) ]

  unfoldable pub dfn_of : ℕ → Env C D → ℕ
  dfn_of va e = elim (table_of va e) [ none ↦ 0 | some t ↦ t (ptx va) ]

  abbrev pub write_dir : (ℕ → Option (ℕ → ℕ)) → ℕ → (ℕ → ℕ) → Env C D → Env C D
  write_dir dir va t e = record e { disk_env_pgdir = some (set_at dir (pdx va) (some t)) }

  -- `ptr_disk_page_table[PTX(va)] = dfn`
  pub set_dfn : ℕ → ℕ → Env C D → Result (Env C D)
  set_dfn va dfn e = elim e.disk_env_pgdir [
    | none ↦ panic
    | some dir ↦ elim (dir (pdx va)) [
      | none ↦ panic
      | some t ↦ ok (write_dir dir va (set_at t (ptx va) dfn) e)
    ]
  ]

  -- the frame of the page's entry, or a new one that is entered
  pub enter_frame : ℕ → Env C D → Result (Option ℕ × Env C D)
  enter_frame va e =
      if dfn_of va e == 0
      then elim (allocate_disk_frame e) [
        | none ↦ ok (none, e)
        | some (dfn, e') ↦ set_dfn va dfn e' >>= λ e''. ok (some dfn, e'')
      ]
      else ok (some (dfn_of va e), e)

  pub pf_calculate_free_frames : Env C D → ℕ
  pf_calculate_free_frames e = length e.disk_free_frame_list

  pub pf_calculate_allocated_pages : Env C D → Result ℕ
  pf_calculate_allocated_pages e = elim e.disk_env_pgdir [
    | none ↦ panic
    | some dir ↦ ok (count_dir (pdx user_top) dir)
  ]

  pub pf_remove_env_page : ℕ → Env C D → Env C D
  pf_remove_env_page va e = elim e.disk_env_pgdir [
    | none ↦ e
    | some dir ↦ elim (dir (pdx va)) [
      | none ↦ e
      | some t ↦
          let e' = write_dir dir va (set_at t (ptx va) 0) e in
          record e' { disk_free_frame_list = free_disk_frame (t (ptx va)) e.disk_free_frame_list }
    ]
  ]

  pub pf_remove_env_all_tables : Env C D → Env C D
  pf_remove_env_all_tables e = elim e.disk_env_tabledir [
    | none ↦ e
    | some t ↦ record e {
      disk_env_tabledir = some (λ d. if ltb d (pdx user_top) then 0 else t d);
      disk_free_frame_list = free_table (pdx user_top) t e.disk_free_frame_list;
    }
  ]

  -- The kernel's pages of the tables, which kfree takes back, are left out.
  pub pf_free_env : Env C D → Result (Env C D)
  pf_free_env e = elim e.disk_env_pgdir [
    | none ↦ panic
    | some dir ↦
        let e' = record e {
          disk_env_pgdir = none;
          disk_free_frame_list = free_dir (pdx user_top) dir e.disk_free_frame_list;
        } in
        ok (record (pf_remove_env_all_tables e') { disk_env_tabledir = none })
  ]

  pub pf_remove_env_table : ℕ → Env C D → Env C D
  pf_remove_env_table va e = elim e.disk_env_tabledir [
    | none ↦ e
    | some t ↦ record e {
      disk_env_tabledir = some (set_at t (pdx va) 0);
      disk_free_frame_list = free_disk_frame (t (pdx va)) e.disk_free_frame_list;
    }
  ]

  pub count_new_page : Env C D → Env C D
  count_new_page e = record e { n_new_page_added = add32 e.n_new_page_added 1 }

  pub keep_entry : Option ℕ × Env C D → Result (Status × Env C D)
  keep_entry (none, e) = ok (no_page_file_space, e)
  keep_entry (some dfn, e) = ok (done, e)

  -- the checks of pf_update_env_page on a call that added a page
  pub unless_full : Status × Env C D → Result (Env C D)
  unless_full (no_page_file_space, e) = panic
  unless_full (r, e) = ok (count_new_page e)

  -- the frame of the table's entry, or a new one that is entered
  pub enter_table : ℕ → Env C D → Result (Option ℕ × Env C D)
  enter_table va e = elim e.disk_env_tabledir [
    | none ↦ panic
    | some t ↦
        if t (pdx va) == 0
        then elim (allocate_disk_frame e) [
          | none ↦ ok (none, e)
          | some (dfn, e') ↦
              ok (some dfn, record e' { disk_env_tabledir = some (set_at t (pdx va) dfn) })
        ]
        else ok (some (t (pdx va)), e)
  ]

module _ {C D : Type 0} (m : Machine) (ide : Ide C D) where
  -- kmalloc(PAGE_SIZE): NULL is not looked at by the callers, who then write through it.
  pub new_page : Env C D → Result (Env C D)
  new_page e = elim (m.kmalloc_page e.paging) [
    | none ↦ panic
    | some (f, p) ↦ ok (record e { paging = p })
  ]

  pub get_disk_page_directory : Env C D → Result (Env C D)
  get_disk_page_directory e = elim e.disk_env_pgdir [
    | some dir ↦ ok e
    | none ↦ new_page e >>= λ e'. ok (record e' { disk_env_pgdir = some (λ d. none) })
  ]

  -- with `create`: the table is there afterwards, cleared if it is new
  pub get_disk_page_table : ℕ → Env C D → Result (Env C D)
  get_disk_page_table va e = elim e.disk_env_pgdir [
    | none ↦ panic
    | some dir ↦ elim (dir (pdx va)) [
      | some t ↦ ok e
      | none ↦ new_page e >>= λ e'. ok (write_dir dir va (λ i. 0) e')
    ]
  ]

  -- The page at an address: what its frame holds. An access to an address without a frame faults.
  pub frame_at_va : ℕ → Env C D → Result ℕ
  frame_at_va va e = elim (get_frame_info m va e.paging).0 [ none ↦ panic | some f ↦ ok f ]

  pub write_disk_page : ℕ → C → Env C D → Result (Env C D)
  write_disk_page dfn c e =
      let (success, d) = ide.ide_write (start_sector dfn) c e.disk in
      if success then ok (record e { disk = d }) else panic

  pub read_disk_page : ℕ → ℕ → Env C D → Bool × Env C D
  read_disk_page dfn f e =
      let (success, c) = ide.ide_read (start_sector dfn) e.disk (e.memory f) in
      (success, record e { memory = set_at e.memory f c })

  -- the part that the functions which add a page share
  pub make_entry : ℕ → Env C D → Result (Option ℕ × Env C D)
  make_entry va e =
      if ltb va kernel_base
      then (get_disk_page_directory e >>= get_disk_page_table va >>= enter_frame va)
      else panic

  pub write_entry : C → Option ℕ × Env C D → Result (Status × Env C D)
  write_entry c (none, e) = ok (no_page_file_space, e)
  write_entry c (some dfn, e) = write_disk_page dfn c e >>= λ e'. ok (done, e')

  -- `c` is what is at dataSrc.
  pub pf_add_env_page : ℕ → C → Env C D → Result (Status × Env C D)
  pf_add_env_page va c e = make_entry va e >>= write_entry c

  -- `zero_page` is what ptr_zero_page holds.
  pub pf_add_empty_env_page : C → ℕ → Bool → Env C D → Result (Status × Env C D)
  pf_add_empty_env_page zero_page va initialize_by_zero e =
      if initialize_by_zero
      then pf_add_env_page va zero_page (
          if ltb ustackbottom va && ltb va (sub32 ustacktop (e.init_num_stack_pages * page_size))
          then count_new_page e
          else e)
      else (make_entry va e >>= keep_entry)

  -- the end of pf_update_env_page: frame `f` is mapped at USER_LIMIT for the time of the write
  pub unmap_written : ℕ → Env C D → Env C D
  unmap_written f e =
      let r = e.paging.references in
      let raised = record e.paging { references = put r f ((r f + 1) % 65536) } in
      let p = unmap_frame m user_limit raised in
      let r' = p.references in
      let lowered = record p { references = put r' f ((r' f + 65535) % 65536) } in
      record e { paging = lowered; n_page_out = add32 e.n_page_out 1 }

  pub write_frame : ℕ → ℕ → Env C D → Result (Status × Env C D)
  write_frame dfn f e = map_frame m f user_limit 0 e.paging >>= λ p.
      write_disk_page dfn (e.memory f) (record e { paging = p }) >>= λ e'.
      ok (done, unmap_written f e')

  -- pf_update_env_page with a page that it adds empty first, by pf_add_empty_env_page with 0
  pub update_new_page : ℕ → ℕ → Env C D → Result (Status × Env C D)
  update_new_page va f e =
      make_entry va e >>= keep_entry >>= unless_full >>= λ e'. write_frame (dfn_of va e') f e'

  -- pf_update_env_page of a page that is not in the page file, after get_frame_info
  pub update_absent : ℕ → ℕ → Option ℕ × Paging → Env C D → Result (Status × Env C D)
  update_absent va f (none, p) e = update_new_page va f (record e { paging = p })
  update_absent va f (some g, p) e =
      if g == f
      then (pf_add_env_page va (e.memory f) (record e { paging = p }) >>= unless_full >>= λ e'.
          ok (done, e'))
      else update_new_page va f (record e { paging = p })

  pub pf_update_env_page : ℕ → ℕ → Env C D → Result (Status × Env C D)
  pf_update_env_page va f e =
      if ltb va kernel_base
      then (get_disk_page_directory e >>= λ e1.
          if dfn_of va e1 == 0
          then (if is_heap_or_stack va
              then update_absent va f (get_frame_info m va e1.paging) e1
              else panic)
          else write_frame (dfn_of va e1) f e1)
      else panic

  pub pf_read_env_page : ℕ → Env C D → Result (Status × Env C D)
  pf_read_env_page va e =
      let va' = rounddown va in
      if dfn_of va' e == 0
      then ok (page_not_exist, e)
      else (frame_at_va va' e >>= λ f.
          let (success, e1) = read_disk_page (dfn_of va' e) f e in
          pt_set_page_permissions m va' 0 64 e1.paging >>= λ p. ok (
            if success then done else disk_error,
            record e1 { paging = p; n_page_in = add32 e1.n_page_in 1 },
          ))

  pub get_disk_table_directory : Env C D → Result (Env C D)
  get_disk_table_directory e = elim e.disk_env_tabledir [
    | some t ↦ ok e
    | none ↦ new_page e >>= λ e'. ok (record e' { disk_env_tabledir = some (λ d. 0) })
  ]

  pub pf_write_env_table : ℕ → C → Env C D → Result (Status × Env C D)
  pf_write_env_table va c e =
      if ltb va kernel_base
      then (get_disk_table_directory e >>= enter_table va >>= write_entry c)
      else panic

  -- none for E_TABLE_NOT_EXIST_IN_PF; `old` is what the page at tableKVirtualAddress held.
  pub pf_read_env_table : ℕ → C → Env C D → Option (Bool × C)
  pf_read_env_table va old e = elim e.disk_env_tabledir [
    | none ↦ none
    | some t ↦
        if t (pdx va) == 0 then none else some (ide.ide_read (start_sector (t (pdx va))) e.disk old)
  ]
