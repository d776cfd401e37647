-- ===== src/UserMem.antt =====
-- free_user_mem of kern/mem/chunk_operations.c: a range of an environment's memory is freed in its
-- working set, its page tables and its page file. kfree of an empty page table, which gives the
-- kernel's page back, is left out. The loop over pages runs over their number, so the range ends a
-- page or more below 2^32.
pub mod Entries
pub mod Freed
mod Tests
use fos_project.Prelude.Words.{add32, page_size, rounddown, roundup}
use fos_project.Paging.{
  Paging, Machine, pdx, put, Table, in_memory, not_exist, get_page_table, unmap_frame,
}
use fos_project.PageFile.{Env, pf_remove_env_page}
use fos_project.PageFault.{FaultEnv, set_paging}
use fos_project.Chunk.{pages_between}
use fos_project.WorkingSet.{Element, down, env_page_ws_clear_entry}
use fos_project.Prelude.{
  ltb, leb, ◌==◌, if◌then◌else◌, length, get_elem?, Result, panic, ok, ◌>>=◌, ℕ, zero, suc, ◌+◌,
  Bool, true, ◌&&◌, not, Option, none, some,
}

-- the loop of free_user_mem over the first `n` entries of a page table
pub table_empty : ℕ → (ℕ → ℕ) → Bool
table_empty zero t = true
table_empty (suc n) t = table_empty n t && (t n == 0)

-- the table of a page after get_page_table: an empty one is removed
pub remove_table : ℕ → Table × Paging → Paging
remove_table va (not_exist, p) = p
remove_table va (in_memory, p) =
    if table_empty 1024 (p.table (pdx va))
    then record p { directory = put p.directory (pdx va) 0 }
    else p

module _ {C D : Type 0} (m : Machine) where
  -- one entry `j` of the working set, which is `x`
  pub free_entry : ℕ → ℕ → ℕ → Option Element → FaultEnv C D → Result (FaultEnv C D)
  free_entry va size j none e = panic
  free_entry va size j (some x) e =
      if not x.empty
        && (leb va (down page_size x.virtual_address)
            && ltb (down page_size x.virtual_address) (add32 va size))
      then (env_page_ws_clear_entry j e.pages >>= λ ws.
          ok
            (record (set_paging (unmap_frame m (down page_size x.virtual_address) e.file.paging)
              e) { pages = ws; page_last_ws_index = j }))
      else ok e

  -- the working set from entry `j` on
  pub free_entries : ℕ → ℕ → ℕ → ℕ → FaultEnv C D → Result (FaultEnv C D)
  free_entries zero j va size e = ok e
  free_entries (suc n) j va size e =
      free_entry va size j (get_elem? e.pages j) e >>= free_entries n (j + 1) va size

  pub free_page : ℕ → Env C D → Env C D
  free_page va e =
      let e' = pf_remove_env_page va e in
      record e' { paging = remove_table va (get_page_table m va e'.paging) }

  pub free_pages : ℕ → ℕ → Env C D → Env C D
  free_pages zero va e = e
  free_pages (suc n) va e = free_pages n (add32 va page_size) (free_page va e)

  -- free_user_mem of a range that starts and ends at pages
  pub free_range : ℕ → ℕ → FaultEnv C D → Result (FaultEnv C D)
  free_range va size e = free_entries (length e.pages) 0 va size e >>= λ e'.
      ok (record e' { file = free_pages (pages_between va (add32 va size)) va e'.file })

  pub free_user_mem : ℕ → ℕ → FaultEnv C D → Result (FaultEnv C D)
  free_user_mem va size e = free_range (rounddown va) (roundup size) e
