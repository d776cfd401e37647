-- ===== src/WorkingSet.antt =====
-- kern/mem/working_set_manager.c: the working sets of an environment, the one of pages and the one of
-- page tables. A working set is the sequence of its entries; its length is page_WS_max_size, or
-- __TWS_MAX_SIZE for tables. The two differ in what they round addresses down to, which is the first
-- argument of the shared functions. A failed assert is `panic`.
pub mod Entries
mod Tests
use fos_project.Prelude.Words.{page_size}
use fos_project.Prelude.{
  ltb, ◌==◌, if◌then◌else◌, length, get_elem?, set, Result, panic, ok, ℕ, ◌+◌, ◌-◌, ◌*◌, ◌%◌, ◌^◌,
  Bool, true, false, ◌&&◌, none, some, List, [], ◌∷◌,
}

pub record Element : Type 0 where
  pub virtual_address : ℕ
  pub empty : Bool
  pub time_stamp : ℕ

-- USER_TOP, and the bytes that a page and a page table map
abbrev pub user_top : ℕ
user_top = 4005560320

abbrev pub table_size : ℕ
table_size = 4096 * 1024

-- ROUNDDOWN to `n`
abbrev pub down : ℕ → ℕ → ℕ
down n a = a - a % n

abbrev pub cleared_element : Element
cleared_element = record { virtual_address = 0; empty = true; time_stamp = 0 }

abbrev pub filled : ℕ → ℕ → Element
filled n va = record { virtual_address = down n va; empty = false; time_stamp = 2 ^ 31 }

-- the loops of env_page_ws_get_size and env_table_ws_get_size
unfoldable pub ws_size : List Element → ℕ
ws_size [] = 0
ws_size (x ∷ rest) = (if x.empty then 0 else 1) + ws_size rest

-- The first entry of the page or table is cleared, an empty one with that address too.
pub ws_invalidate : ℕ → ℕ → List Element → List Element
ws_invalidate n va [] = []
ws_invalidate n va (x ∷ rest) =
    if down n x.virtual_address == down n va
    then cleared_element ∷ rest
    else x ∷ ws_invalidate n va rest

pub ws_set_entry : ℕ → ℕ → ℕ → List Element → Result (List Element)
ws_set_entry n i va ws =
    if ltb i (length ws) && ltb va user_top then ok (set ws i (filled n va)) else panic

unfoldable pub ws_clear_entry : ℕ → List Element → Result (List Element)
ws_clear_entry i ws = if ltb i (length ws) then ok (set ws i cleared_element) else panic

pub ws_get_virtual_address : ℕ → ℕ → List Element → Result ℕ
ws_get_virtual_address n i ws = elim (get_elem? ws i) [
  | none ↦ panic
  | some x ↦ ok (down n x.virtual_address)
]

pub ws_get_time_stamp : ℕ → List Element → Result ℕ
ws_get_time_stamp i ws = elim (get_elem? ws i) [ none ↦ panic | some x ↦ ok x.time_stamp ]

unfoldable pub env_page_ws_get_size : List Element → ℕ
env_page_ws_get_size ws = ws_size ws

pub env_page_ws_invalidate : ℕ → List Element → List Element
env_page_ws_invalidate va ws = ws_invalidate page_size va ws

pub env_page_ws_set_entry : ℕ → ℕ → List Element → Result (List Element)
env_page_ws_set_entry i va ws = ws_set_entry page_size i va ws

unfoldable pub env_page_ws_clear_entry : ℕ → List Element → Result (List Element)
env_page_ws_clear_entry i ws = ws_clear_entry i ws

pub env_page_ws_get_virtual_address : ℕ → List Element → Result ℕ
env_page_ws_get_virtual_address i ws = ws_get_virtual_address page_size i ws

pub env_page_ws_get_time_stamp : ℕ → List Element → Result ℕ
env_page_ws_get_time_stamp i ws = ws_get_time_stamp i ws

pub env_table_ws_get_size : List Element → ℕ
env_table_ws_get_size ws = ws_size ws

pub env_table_ws_invalidate : ℕ → List Element → List Element
env_table_ws_invalidate va ws = ws_invalidate table_size va ws

pub env_table_ws_set_entry : ℕ → ℕ → List Element → Result (List Element)
env_table_ws_set_entry i va ws = ws_set_entry table_size i va ws

pub env_table_ws_clear_entry : ℕ → List Element → Result (List Element)
env_table_ws_clear_entry i ws = ws_clear_entry i ws

pub env_table_ws_get_virtual_address : ℕ → List Element → Result ℕ
env_table_ws_get_virtual_address i ws = ws_get_virtual_address table_size i ws

pub env_table_ws_get_time_stamp : ℕ → List Element → Result ℕ
env_table_ws_get_time_stamp i ws = ws_get_time_stamp i ws
