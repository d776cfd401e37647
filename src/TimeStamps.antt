-- ===== src/TimeStamps.antt =====
-- update_WS_time_stamps of kern/cpu/sched.c: the ageing of the working sets at a clock interrupt.
pub mod Visits
pub mod Ageing
mod Tests
use fos_project.Paging.{
  Paging, Machine, pt_get_page_permissions, pt_set_page_permissions, pd_is_table_used,
  pd_set_table_unused,
}
use fos_project.PageFault.{bit_set}
use fos_project.WorkingSet.{Element}
use fos_project.Prelude.{
  if◌then◌else◌, Result, ok, ◌>>=◌, ℕ, ◌+◌, ◌/◌, ◌^◌, Bool, true, false, Option, none, some, List,
  [], ◌∷◌,
}

-- the fields of struct Env that are aged
pub record Aged : Type 0 where
  pub pages : List Element
  pub tables : List Element
  pub paging : Paging

-- `oldTimeStamp >> 2`, with the highest bit set where the page was used
pub aged_stamp : Bool → ℕ → ℕ
aged_stamp true stamp = stamp / 4 + 2 ^ 31
aged_stamp false stamp = stamp / 4

abbrev pub age : Bool → Element → Element
age used x = record x { time_stamp = aged_stamp used x.time_stamp }

module _ (m : Machine) where
  -- an entry after pt_get_page_permissions
  pub age_page : Element → Option ℕ × Paging → Result (Element × Paging)
  age_page x (perms, p) =
      if bit_set 32 perms
      then (pt_set_page_permissions m x.virtual_address 0 32 p >>= λ p'. ok (age true x, p'))
      else ok (age false x, p)

  pub visit_page : Element → Paging → Result (Element × Paging)
  visit_page x p =
      if x.empty then ok (x, p) else age_page x (pt_get_page_permissions m x.virtual_address p)

  pub age_pages : List Element → Paging → Result (List Element × Paging)
  age_pages [] p = ok ([], p)
  age_pages (x ∷ rest) p =
      visit_page x p >>= λ (x', p1). age_pages rest p1 >>= λ (rest', p2). ok (x' ∷ rest', p2)

-- an entry of the table working set: PERM_USED stands in the page directory
pub visit_table : Element → Paging → Element × Paging
visit_table x p =
    if x.empty
    then (x, p)
    else if pd_is_table_used x.virtual_address p
    then (age true x, pd_set_table_unused x.virtual_address p)
    else (age false x, p)

pub age_tables : List Element → Paging → List Element × Paging
age_tables [] p = ([], p)
age_tables (x ∷ rest) p =
    let (x', p1) = visit_table x p in let (rest', p2) = age_tables rest p1 in (x' ∷ rest', p2)

-- update_WS_time_stamps after the pages
pub aged_pages : List Element → List Element × Paging → Aged
aged_pages tables (pages, p) =
    let (tables', p') = age_tables tables p in
    record { pages = pages; tables = tables'; paging = p' }

-- none where no environment runs
pub update_ws_time_stamps : Machine → Option Aged → Result (Option Aged)
update_ws_time_stamps m none = ok none
update_ws_time_stamps m (some e) =
    age_pages m e.pages e.paging >>= λ r. ok (some (aged_pages e.tables r))
