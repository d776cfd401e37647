-- ===== src/PageFault.antt =====
-- kern/trap/fault_handler.c: the page fault handler. With room in the working set the page is placed;
-- otherwise the clock looks for a victim, sweep after sweep. The `while` of page_fault_handler runs on
-- fuel, one unit for each sweep. The sectors of the disk are a parameter, as in PageFile.
pub mod Placement
pub mod Evicting
pub mod Rounds
pub mod Clock
pub mod Victim
mod Tests
use fos_project.Paging.{
  Paging, Machine, allocate_frame, create_page_table, get_frame_info, unmap_frame, map_frame,
  pt_get_page_permissions, pt_set_page_permissions,
}
use fos_project.PageFile.{
  Ide, Env, Status, done, no_page_file_space, page_not_exist, disk_error, is_heap_or_stack,
  pf_update_env_page, pf_read_env_page,
}
use fos_project.Prelude.Words.{add32}
use fos_project.WorkingSet.{
  Element, env_page_ws_get_size, env_page_ws_set_entry, env_page_ws_clear_entry,
  env_page_ws_get_virtual_address,
}
use fos_project.Prelude.{
  ltb, ◌==◌, if◌then◌else◌, length, Result, panic, ok, ◌>>=◌, ℕ, zero, suc, ◌+◌, ◌-◌, ◌/◌, ◌%◌,
  Bool, true, false, Option, none, some, List,
}

-- the fields of struct Env that the handler uses; those of the page file stand in PageFile
pub record FaultEnv (C D : Type 0) : Type 0 where
  pub pages : List Element
  pub page_last_ws_index : ℕ
  pub file : Env C D

-- PERM_USED and PERM_MODIFIED of the permissions; -1 has every bit
abbrev pub bit_set : ℕ → Option ℕ → Bool
bit_set bit none = true
bit_set bit (some perms) = perms / bit % 2 == 1

module _ {C D : Type 0} where
  -- the clock hand at the end of the working set goes to its start
  pub wrap_index : FaultEnv C D → FaultEnv C D
  wrap_index e =
      if e.page_last_ws_index == length e.pages then record e { page_last_ws_index = 0 } else e

  pub put_page : ℕ → FaultEnv C D → Result (FaultEnv C D)
  put_page va e = env_page_ws_set_entry e.page_last_ws_index va e.pages >>= λ ws.
      ok (record e { pages = ws; page_last_ws_index = add32 e.page_last_ws_index 1 })

  -- placment after the read
  pub placed : ℕ → Status → FaultEnv C D → Result (FaultEnv C D)
  placed va done e = put_page va e >>= λ e'. ok (wrap_index e')
  placed va page_not_exist e =
      if is_heap_or_stack va then (put_page va e >>= λ e'. ok (wrap_index e')) else panic
  placed va disk_error e = ok (wrap_index e)
  placed va no_page_file_space e = ok (wrap_index e)

  abbrev pub set_paging : Paging → FaultEnv C D → FaultEnv C D
  set_paging p e = record e { file = record e.file { paging = p } }

  pub table_fault_handler : Machine → ℕ → FaultEnv C D → Result (FaultEnv C D)
  table_fault_handler m fault_va e =
      create_page_table m fault_va e.file.paging >>= λ p. ok (set_paging p e)

  module _ (m : Machine) (ide : Ide C D) where
    -- placment, and the branch of page_fault_handler with room in the working set
    pub placment : ℕ → FaultEnv C D → Result (FaultEnv C D)
    placment va e =
        if ltb (env_page_ws_get_size e.pages) (length e.pages)
        then (allocate_frame e.file.paging >>= λ (f, p). map_frame m f va 70 p >>= λ p'.
            pf_read_env_page m ide va (record e.file { paging = p' }) >>= λ (r, file).
            placed va r (record e { file = file }))
        else ok e

    -- pf_update_env_page of a page that was modified; no frame is a null pointer
    pub write_back : ℕ → Bool → Option ℕ → FaultEnv C D → Result (FaultEnv C D)
    write_back va false frame e = ok e
    write_back va true none e = panic
    write_back va true (some f) e =
        pf_update_env_page m ide va f e.file >>= λ (r, file). ok (record e { file = file })

    -- the entry `i` as the victim; `modified` is PERM_MODIFIED of its page
    pub evict : ℕ → ℕ → ℕ → Bool → Option ℕ → FaultEnv C D → Result (FaultEnv C D)
    evict i va fault_va modified frame e = write_back va modified frame e >>= λ e'.
        env_page_ws_clear_entry i e'.pages >>= λ ws.
        placment fault_va (record (set_paging (unmap_frame m va e'.file.paging) e') {
          pages = ws;
          page_last_ws_index = i;
        })

    -- One round of the inner loops: a page that was used loses PERM_USED, any other is the victim.
    pub inspect :
        ℕ → ℕ → ℕ → Option ℕ → Option ℕ × Paging → FaultEnv C D → Result (Bool × FaultEnv C D)
    inspect i va fault_va frame (perms, p) e =
        if bit_set 32 perms
        then (pt_set_page_permissions m va 0 32 p >>= λ p'. ok (false, set_paging p' e))
        else (evict i va fault_va (bit_set 64 perms) frame (set_paging p e) >>= λ e'. ok (true, e'))

    pub with_frame : ℕ → ℕ → ℕ → Option ℕ × Paging → FaultEnv C D → Result (Bool × FaultEnv C D)
    with_frame i va fault_va (frame, p) e =
        inspect i va fault_va frame (pt_get_page_permissions m va p) e

    pub visit : ℕ → ℕ → FaultEnv C D → Result (Bool × FaultEnv C D)
    visit i fault_va e = env_page_ws_get_virtual_address i e.pages >>= λ va.
        with_frame i va fault_va (get_frame_info m va e.file.paging) e

    pub scan : ℕ → ℕ → ℕ → FaultEnv C D → Result (Bool × FaultEnv C D)
    scan zero i fault_va e = ok (false, e)
    scan (suc n) i fault_va e = visit i fault_va e >>= λ (found, e').
        if found then ok (true, e') else scan n (i + 1) fault_va e'

    -- from the clock hand to the end, and then from the start to the hand
    pub sweep : ℕ → FaultEnv C D → Result (Bool × FaultEnv C D)
    sweep fault_va e =
        scan (length e.pages - e.page_last_ws_index) e.page_last_ws_index fault_va e
        >>= λ (found, e'). if found then ok (true, e') else scan e'.page_last_ws_index 0 fault_va e'

    -- the `while`; false is that the fuel ran out
    pub replace : ℕ → ℕ → FaultEnv C D → Result (Bool × FaultEnv C D)
    replace zero fault_va e = ok (false, e)
    replace (suc fuel) fault_va e = sweep fault_va e >>= λ (found, e').
        if found then ok (true, e') else replace fuel fault_va e'

    pub page_fault_handler : ℕ → ℕ → FaultEnv C D → Result (Bool × FaultEnv C D)
    page_fault_handler fuel fault_va e =
        if ltb (env_page_ws_get_size e.pages) (length e.pages)
        then (placment fault_va e >>= λ e'. ok (true, e'))
        else replace fuel fault_va e
