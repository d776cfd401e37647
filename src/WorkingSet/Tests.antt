-- ===== src/WorkingSet/Tests.antt =====
-- The working set's theorems at a set of two pages and an empty entry.
use fos_project.WorkingSet.Entries.{Lacks, env_page_ws_invalidate-Lacks}
use fos_project.WorkingSet.{Element, env_page_ws_invalidate}
use fos_project.Prelude.{true, false, List, [], ◌∷◌, arith}

abbrev pages : List Element
pages =
    record { virtual_address = 4096; empty = false; time_stamp = 7 }
    ∷ record { virtual_address = 0; empty = true; time_stamp = 0 }
    ∷ record { virtual_address = 8192; empty = false; time_stamp = 9 }
    ∷ []

env_page_ws_invalidate-Lacks_example : Lacks 8200 (env_page_ws_invalidate 8200 pages)
env_page_ws_invalidate-Lacks_example =
    env_page_ws_invalidate-Lacks 8200 pages (ground arith) (ground arith) (omega arith)
