-- ===== src/TimeStamps/Tests.antt =====
-- A working set of three entries: a used page, an empty entry and a page that was not used.
use fos_project.TimeStamps.Visits.{AllOthers, Ticked}
use fos_project.TimeStamps.{age_pages}
use fos_project.Prelude.{
  ◌==◌, if◌then◌else◌, ◌+◌, ◌≡◌, refl, inr, true, false, none, List, [], ◌∷◌, arith,
}
use fos_project.Paging.{Paging, Machine}
use fos_project.WorkingSet.{Element}
use fos_project.TimeStamps.Ageing.{age_pages-Ticked}

abbrev machine : Machine
machine = record { fault_handler = λ va s. s; kmalloc_page = λ s. none }

abbrev paging : Paging
paging = record {
  directory = λ d. 20480 + 7;
  table = λ d i. if i == 1 then 12288 + 39 else 16384 + 7;
  references = λ f. 1;
  va = λ f. 0;
  free_frame_list = [];
}

abbrev pages : List Element
pages =
    record { virtual_address = 4096; empty = false; time_stamp = 2147483648 }
    ∷ record { virtual_address = 0; empty = true; time_stamp = 0 }
    ∷ record { virtual_address = 8192; empty = false; time_stamp = 12 }
    ∷ []

pages-AllOthers : AllOthers pages
pages-AllOthers = (
  ((λ a b. absurd (true-false b)), ((λ a b. inr (omega arith)), tt)),
  (((λ a b. absurd (true-false a)), tt), (tt, tt)),
)
  where
    true-false : true ≡ false → ⊥
    true-false e = cc

age_pages-Ticked_example : Ticked paging pages (age_pages machine pages paging)
age_pages-Ticked_example =
    age_pages-Ticked machine pages paging pages-AllOthers
      ((λ a. (refl, omega arith)), ((λ a. (refl, omega arith)), ((λ a. (refl, omega arith)), tt)))
