-- ===== src/PageFault/Tests.antt =====
-- A working set of three entries, with the clock hand at an entry in use, and one that is full.
use fos_project.Prelude.Words.{rounddown}
use fos_project.Prelude.{
  ◌==◌, if◌then◌else◌, Returning, ℕ, ◌+◌, ◌<◌, ◌≡◌, refl, ◌≢◌, true, false, none, some, [], ◌∷◌,
  arith,
}
use fos_project.Paging.{Machine, ptx}
use fos_project.PageFile.{Ide, Env, start_sector, table_of, dfn_of}
use fos_project.PageFault.{FaultEnv, placment, page_fault_handler}
use fos_project.WorkingSet.{Element, ws_size, env_page_ws_get_size}
use fos_project.PageFault.Placement.{Places, placment-Places}
use fos_project.PageFault.Victim.{Placed, page_fault_handler-Found}
use fos_project.PageFault.Rounds.{HasTables}

abbrev machine : Machine
machine = record { fault_handler = λ va s. s; kmalloc_page = λ s. none }

abbrev ide : Ide ℕ (ℕ → ℕ)
ide = record {
  ide_read = λ sector d old. (true, d sector);
  ide_write = λ sector c d. (true, λ i. if sector == i then c else d i);
}

abbrev used : Element
used = record { virtual_address = 8192; empty = false; time_stamp = 9 }

-- page 12288 is in disk frame 2, and page 8192, which was modified, in disk frame 3
abbrev file : Env ℕ (ℕ → ℕ)
file = record {
  disk_env_pgdir = some (λ d. some (λ i. if i == 3 then 2 else (if i == 2 then 3 else 0)));
  disk_env_tabledir = none;
  disk_free_frame_list = 1 ∷ [];
  paging = record {
    directory = λ d. 20480 + 7;
    table = λ d i. if i == 1 then 12288 + 39 else (if i == 2 then 16384 + 103 else 0);
    references = λ f. if f == 3 then 1 else 0;
    va = λ f. 0;
    free_frame_list = 4 ∷ 6 ∷ [];
  };
  memory = λ f. 0;
  disk = λ s. s;
  n_page_in = 0;
  n_page_out = 0;
  n_new_page_added = 0;
  init_num_stack_pages = 1;
}

abbrev env : FaultEnv ℕ (ℕ → ℕ)
env = record {
  pages =
      record { virtual_address = 0; empty = true; time_stamp = 0 }
      ∷ record { virtual_address = 4096; empty = false; time_stamp = 7 }
      ∷ used
      ∷ [];
  page_last_ws_index = 2;
  file = file;
}

has_room : env_page_ws_get_size env.pages < 3
unfolding env_page_ws_get_size ws_size
has_room = omega arith

in_page_file : dfn_of (rounddown 12289) file ≢ 0
unfolding rounddown dfn_of table_of
in_page_file = λ e. omega (arith, e)

disk_reads :
    ide.ide_read (start_sector (dfn_of (rounddown 12289) file)) file.disk (file.memory 4)
    ≡ (true, 40976)
unfolding rounddown dfn_of table_of
disk_reads = refl

placment-Places_example : Places machine 12289 4 40976 used env (placment machine ide 12289 env)
placment-Places_example =
    placment-Places machine ide 12289 4 (6 ∷ []) 40976 used env has_room refl (omega arith)
      (omega arith) refl refl (omega arith) (omega arith) in_page_file disk_reads

abbrev full_env : FaultEnv ℕ (ℕ → ℕ)
full_env = record {
  pages = record { virtual_address = 4096; empty = false; time_stamp = 7 } ∷ used ∷ [];
  page_last_ws_index = 1;
  file = file;
}

full_env-HasTables : HasTables full_env
full_env-HasTables i va h = (refl, entry_bound (ptx va))
  where
    entry_bound : (n : ℕ) → file.paging.table 0 n < 4294967296
    entry_bound n = ground arith

page_fault_handler-Found_example :
    Returning (Placed machine ide 12289 full_env) (page_fault_handler machine ide 2 12289 full_env)
page_fault_handler-Found_example =
    page_fault_handler-Found machine ide 12289 0 full_env full_env-HasTables (omega arith)
