-- ===== src/Chunk.antt =====
-- kern/mem/chunk_operations.c: operations on ranges of pages of one directory. A loop over the pages
-- of a range runs as many rounds as the range has pages. A false result stands for -1, a true one
-- for 0. A page table that is read and is not there is a null pointer: `panic`.
pub mod Range
mod Tests
use fos_project.Paging.{
  Paging, Machine, pdx, permissions_of, put, entry_at, allocate_frame, Table, in_memory, not_exist,
  get_page_table, create_page_table, get_frame_info, unmap_frame, map_frame,
}
use fos_project.Prelude.Words.{add32, sub32, page_size, rounddown, roundup}
use fos_project.Prelude.{
  ◌==◌, if◌then◌else◌, Result, panic, ok, ◌>>=◌, ℕ, zero, suc, ◌+◌, ◌-◌, ◌/◌, Bool, true, false,
  not, Option, none, some,
}

-- the rounds of `for (i = sva; i < eva; i += PAGE_SIZE)`
abbrev pub pages_between : ℕ → ℕ → ℕ
pages_between sva eva = (eva - sva + 4095) / 4096

-- counters of calculate_allocated_space
pub record Counters : Type 0 where
  pub num_tables : ℕ
  pub num_pages : ℕ

-- the `return -1` of the first loop, where a frame is found
pub unless_found : Option ℕ × Paging → (Paging → Bool × Paging) → Bool × Paging
unless_found (none, s) rest = rest s
unless_found (some f, s) rest = (false, s)

-- the part of an operation behind its first loop
pub proceed : Bool × Paging → (Paging → Result Paging) → Result (Bool × Paging)
proceed (false, s) rest = ok (false, s)
proceed (true, s) rest = rest s >>= λ s'. ok (true, s')

module _ (m : Machine) where
  -- The first loop of most operations: no page of the range has a frame.
  pub no_frames : ℕ → ℕ → Paging → Bool × Paging
  no_frames zero va s = (true, s)
  no_frames (suc n) va s =
      unless_found (get_frame_info m va s) (λ s'. no_frames n (add32 va page_size) s')

  -- get_page_table, and create_page_table where there is none
  pub ensure_table : ℕ → Table × Paging → Result Paging
  ensure_table va (in_memory, s) = ok s
  ensure_table va (not_exist, s) = create_page_table m va s

  -- the entry of the source page
  pub source_entry : ℕ → Table × Paging → Result (ℕ × Paging)
  source_entry va (in_memory, s) = ok (entry_at va s, s)
  source_entry va (not_exist, s) = panic

  -- map_frame of what get_frame_info gave; to_physical_address of a null pointer is not an address.
  pub map_found : ℕ → ℕ → Option ℕ × Paging → Result Paging
  map_found va perm (none, s) = panic
  map_found va perm (some f, s) = map_frame m f va perm s

  -- one round of the second loop of cut_paste_pages, without the unmapping
  pub link_page : ℕ → ℕ → Option ℕ → Paging → Result Paging
  link_page source dest perms s = ensure_table dest (get_page_table m dest s) >>= λ s1.
      source_entry source (get_page_table m source s1) >>= λ (e, s2).
      map_found dest (elim perms [ none ↦ permissions_of e | some p ↦ p ])
        (get_frame_info m source s2)

  pub cut_loop : ℕ → ℕ → ℕ → Paging → Result Paging
  cut_loop zero source dest s = ok s
  cut_loop (suc n) source dest s = link_page source dest none s >>= λ s'.
      cut_loop n (add32 source page_size) (add32 dest page_size) (unmap_frame m source s')

  pub cut_paste_pages : ℕ → ℕ → ℕ → Paging → Result (Bool × Paging)
  cut_paste_pages source_va dest_va num_of_pages s =
      proceed (no_frames num_of_pages (rounddown dest_va) s)
        (cut_loop num_of_pages (rounddown source_va) (rounddown dest_va))

  pub share_loop : ℕ → ℕ → ℕ → ℕ → Paging → Result Paging
  share_loop zero source dest perms s = ok s
  share_loop (suc n) source dest perms s = link_page source dest (some perms) s >>= λ s'.
      share_loop n (add32 source page_size) (add32 dest page_size) perms s'

  pub share_chunk : ℕ → ℕ → ℕ → ℕ → Paging → Result (Bool × Paging)
  share_chunk source_va dest_va size perms s =
      let start = rounddown dest_va in
      let ends = roundup (add32 dest_va size) in
      proceed (no_frames (pages_between start ends) start s)
        (share_loop (sub32 ends start / page_size) (rounddown source_va) start perms)

  -- one round of the second loop of allocate_chunk
  pub allocate_page : ℕ → ℕ → Paging → Result Paging
  allocate_page va perms s =
      ensure_table va (get_page_table m va s) >>= allocate_frame >>= λ (f, s1).
      map_frame m f va perms s1 >>= λ s2. ok (record s2 { va = put s2.va f va })

  pub allocate_loop : ℕ → ℕ → ℕ → Paging → Result Paging
  allocate_loop zero va perms s = ok s
  allocate_loop (suc n) va perms s =
      allocate_page va perms s >>= λ s'. allocate_loop n (add32 va page_size) perms s'

  pub allocate_chunk : ℕ → ℕ → ℕ → Paging → Result (Bool × Paging)
  allocate_chunk va size perms s =
      let sva = rounddown va in
      let n = pages_between sva (roundup (add32 va size)) in
      proceed (no_frames n sva s) (allocate_loop n sva perms)

  -- the tables of a range: `global` is the table of the page before, a table being its index in the
  -- directory
  pub count_tables : ℕ → ℕ → Option ℕ → ℕ → Paging → ℕ × Paging
  count_tables zero va global count s = (count, s)
  count_tables (suc n) va global count s =
      let (r, s') = get_page_table m va s in
      let second = elim r as (λ t. Option ℕ) [ in_memory ↦ some (pdx va) | not_exist ↦ none ] in
      let differs = elim second as (λ t. Bool) [
        | none ↦ false
        | some d ↦ elim global as (λ t. Bool) [ none ↦ true | some g ↦ not (d == g) ]
      ] in
      count_tables n (add32 va page_size) second (if differs then count + 1 else count) s'

  pub count_pages : ℕ → ℕ → ℕ → Paging → ℕ × Paging
  count_pages zero va count s = (count, s)
  count_pages (suc n) va count s =
      let (r, s') = get_frame_info m va s in
      count_pages n (add32 va page_size) (elim r as (λ t. ℕ) [ none ↦ count | some f ↦ count + 1 ])
        s'

  pub calculate_allocated_space : ℕ → ℕ → Counters → Paging → Counters × Paging
  calculate_allocated_space sva eva c s =
      let start = rounddown sva in
      let n = pages_between start (roundup eva) in
      let (tables, s') = count_tables n start none c.num_tables s in
      let (pages, s'') = count_pages n start c.num_pages s' in
      (record { num_tables = tables; num_pages = pages }, s'')

  pub missing_pages : ℕ → ℕ → ℕ → Paging → ℕ × Paging
  missing_pages zero va count s = (count, s)
  missing_pages (suc n) va count s =
      let (r, s') = get_frame_info m va s in
      missing_pages n (add32 va page_size)
        (elim r as (λ t. ℕ) [ none ↦ count + 1 | some f ↦ count ]) s'

  pub missing_tables : ℕ → ℕ → ℕ → ℕ → Paging → ℕ × Paging
  missing_tables zero va global count s = (count, s)
  missing_tables (suc n) va global count s =
      let (r, s') = get_page_table m va s in
      let new = elim r as (λ t. Bool) [
        | in_memory ↦ false
        | not_exist ↦ not (pdx va == pdx global)
      ] in
      missing_tables n (add32 va page_size) va (if new then count + 1 else count) s'

  pub calculate_required_frames : ℕ → ℕ → Paging → ℕ × Paging
  calculate_required_frames sva size s =
      let svm = rounddown sva in
      let n = pages_between svm (roundup (add32 sva size)) in
      let (pages, s1) = missing_pages n svm 0 s in
      let (r, s2) = get_page_table m svm s1 in
      let (tables, s3) =
        missing_tables n svm svm (elim r as (λ t. ℕ) [ in_memory ↦ 0 | not_exist ↦ 1 ]) s2 in
      (add32 pages tables, s3)
