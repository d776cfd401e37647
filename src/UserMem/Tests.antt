-- ===== src/UserMem/Tests.antt =====
-- A range of two pages, of which one is in the working set.
use fos_project.UserMem.{free_user_mem}
use fos_project.Queue.Seg.{NotIn}
use fos_project.Prelude.{
  ◌==◌, if◌then◌else◌, Returns, ℕ, ◌+◌, ◌≡◌, refl, Bool, true, false, none, some, [], ◌∷◌, arith,
}
use fos_project.Paging.{Machine}
use fos_project.PageFile.{Env}
use fos_project.PageFault.{FaultEnv}
use fos_project.PageFile.Slots.{Slot, page_slot, table_slot, table_entry, frame_in, IsOwned}
use fos_project.UserMem.Freed.{Freed, free_user_mem-Freed}
use fos_project.Prelude.Words.{rounddown, roundup}
use mathlib.Core.Path.{subst⁻¹}

abbrev machine : Machine
machine = record { fault_handler = λ va s. s; kmalloc_page = λ s. none }

abbrev file : Env ℕ ℕ
file = record {
  disk_env_pgdir = some (λ d. if d == 0 then some (λ i. 0) else none);
  disk_env_tabledir = none;
  disk_free_frame_list = 2 ∷ 1 ∷ [];
  paging = record {
    directory = λ d. 20480 + 7;
    table = λ d i. if i == 1 then 12288 + 39 else 0;
    references = λ f. if f == 3 then 1 else 0;
    va = λ f. 0;
    free_frame_list = 4 ∷ 6 ∷ [];
  };
  memory = λ f. 0;
  disk = 0;
  n_page_in = 0;
  n_page_out = 0;
  n_new_page_added = 0;
  init_num_stack_pages = 1;
}

file-IsOwned : IsOwned file
file-IsOwned = record {
  apart = λ p q n. absurd (n (unused p));
  used = λ p. subst⁻¹ (λ v. NotIn v (2 ∷ 1 ∷ [])) (unused p) ((λ e. cc), ((λ e. cc), tt));
  zero_used = ((λ e. cc), ((λ e. cc), tt));
  distinct = (((λ e. cc), tt), (tt, tt));
}
  where
    page_table : (b : Bool) (i : ℕ) → table_entry (if b then some (λ j. 0) else none) i ≡ 0
    page_table true i = refl
    page_table false i = refl

    unused : (p : Slot) → frame_in file p ≡ 0
    unused (page_slot d i) = page_table (d == 0) i
    unused (table_slot d) = refl

abbrev env : FaultEnv ℕ ℕ
env = record {
  pages =
      record { virtual_address = 4096; empty = false; time_stamp = 7 }
      ∷ record { virtual_address = 12288; empty = false; time_stamp = 7 }
      ∷ [];
  page_last_ws_index = 1;
  file = file;
}

free_user_mem-Freed_example :
    Returns (Freed machine (rounddown 4100) (roundup 5000)) (free_user_mem machine 4100 5000 env)
unfolding rounddown roundup
free_user_mem-Freed_example = free_user_mem-Freed machine 4100 5000 env (omega arith) file-IsOwned
