-- ===== src/PageFile/Tests.antt =====
-- A disk of numbers, and an environment with one page in the page file.
use fos_project.Prelude.Words.{add32, rounddown}
use fos_project.PageFile.Steps.{add_page, remove_page, none_yet, then_step, Steps-IsOwned}
use fos_project.Queue.Seg.{NotIn}
use mathlib.Core.Path.{subst⁻¹}
use fos_project.PageFile.Slots.{Slot, page_slot, table_slot, frame_in, IsOwned}
use fos_project.Prelude.{
  ◌==◌, if◌then◌else◌, eq→==, ok, ℕ, zero, suc, ◌+◌, ◌≡◌, refl, sym, ap, ◌∙◌, true, none, some,
  List, [], ◌∷◌, arith,
}
use fos_project.Paging.{
  Paging, Machine, frame_at, get_page_table, get_frame_info, pt_set_page_permissions,
}
use fos_project.PageFile.{
  Ide, Env, done, set_at, free_frames, initialize_disk_page_file, allocate_disk_frame, table_of,
  dfn_of, set_dfn, enter_frame, pf_remove_env_page, new_page, get_disk_page_directory,
  get_disk_page_table, frame_at_va, write_disk_page, make_entry, write_entry, pf_add_env_page,
  pf_read_env_page,
}
use fos_project.PageFile.RoundTrip.{Stores, pf_read_env_page-pf_add_env_page}

abbrev machine : Machine
machine = record {
  fault_handler = λ va s. s;
  kmalloc_page = λ s. some (9, record s { free_frame_list = [] });
}

abbrev ide : Ide ℕ (ℕ → ℕ)
ide = record {
  ide_read = λ sector d old. (true, d sector);
  ide_write = λ sector c d. (true, λ i. if sector == i then c else d i);
}

ide-Stores : Stores ide
ide-Stores sector c old d d' h =
    ap (λ r. (true, r.1 sector)) (sym h)
    ∙ ap (λ x. (true, (if x then c else d sector))) (eq→== sector sector refl)

abbrev new_env : Env ℕ (ℕ → ℕ)
new_env = record {
  disk_env_pgdir = none;
  disk_env_tabledir = none;
  disk_free_frame_list = [];
  paging = record {
    directory = λ d. if d == 0 then 20480 + 7 else 0;
    table = λ d i. if d == 0 then (if i == 1 then 12288 + 7 else 0) else 0;
    references = λ f. if f == 3 then 1 else 0;
    va = λ f. 0;
    free_frame_list = 4 ∷ 6 ∷ [];
  };
  memory = λ f. f;
  disk = λ s. 0;
  n_page_in = 0;
  n_page_out = 0;
  n_new_page_added = 0;
  init_num_stack_pages = 1;
}

abbrev two_free : Env ℕ (ℕ → ℕ)
two_free = record new_env { disk_free_frame_list = 2 ∷ 1 ∷ [] }

two_free-IsOwned : IsOwned two_free
two_free-IsOwned = record {
  apart = λ p q n. absurd (n (unused p));
  used = λ p. subst⁻¹ (λ v. NotIn v (2 ∷ 1 ∷ [])) (unused p) ((λ e. cc), ((λ e. cc), tt));
  zero_used = ((λ e. cc), ((λ e. cc), tt));
  distinct = (((λ e. cc), tt), (tt, tt));
}
  where
    unused : (p : Slot) → frame_in two_free p ≡ 0
    unused (page_slot d i) = refl
    unused (table_slot d) = refl

added : (e : Env ℕ (ℕ → ℕ)) × (pf_add_env_page machine ide 4096 7 two_free ≡ ok (done, e))
unfolding pf_add_env_page make_entry get_disk_page_directory get_disk_page_table enter_frame
    new_page table_of dfn_of allocate_disk_frame set_dfn write_entry write_disk_page
added = (_, refl)

free_frames-suc :
    (n i : ℕ) (free : List ℕ) → free_frames (suc n) i free ≡ (i + n) ∷ free_frames n i free
unfolding free_frames
free_frames-suc zero i free = ap (λ x. x ∷ free) (omega arith)
free_frames-suc (suc n) i free =
    free_frames-suc n (i + 1) (i ∷ free)
    ∙ ap (λ x. x ∷ free_frames n (i + 1) (i ∷ free)) (omega arith)

abbrev all_free : Env ℕ (ℕ → ℕ)
all_free = record new_env { disk_free_frame_list = 133119 ∷ free_frames 133118 1 [] }

initialized : initialize_disk_page_file new_env ≡ all_free
unfolding initialize_disk_page_file
initialized = ap (λ x. record new_env { disk_free_frame_list = x }) (free_frames-suc 133118 1 [])

added_first : (e : Env ℕ (ℕ → ℕ)) × (pf_add_env_page machine ide 4096 7 all_free ≡ ok (done, e))
unfolding pf_add_env_page make_entry get_disk_page_directory get_disk_page_table enter_frame
    new_page table_of dfn_of allocate_disk_frame set_dfn write_entry write_disk_page
added_first = (_, refl)

Steps-IsOwned_example : IsOwned (pf_remove_env_page 8192 added_first.0)
Steps-IsOwned_example =
    Steps-IsOwned machine ide new_env (pf_remove_env_page 8192 added_first.0) refl refl (
      then_step
        (then_step none_yet (
          add_page 4096 7 done
            (ap (pf_add_env_page machine ide 4096 7) initialized ∙ added_first.1)))
        (remove_page 8192))

mapped : frame_at_va machine ide 4096 added.0 ≡ ok 3
unfolding frame_at_va added get_frame_info get_page_table frame_at
mapped = refl

permissions : (p : Paging) × (pt_set_page_permissions machine 4096 0 64 added.0.paging ≡ ok p)
unfolding added pt_set_page_permissions get_page_table
permissions = (_, refl)

pf_read_env_page-pf_add_env_page_example :
    pf_read_env_page machine ide 4096 added.0
    ≡ ok (
      done,
      record added.0 {
        memory = set_at added.0.memory 3 7;
        paging = permissions.0;
        n_page_in = add32 added.0.n_page_in 1;
      },
    )
unfolding rounddown
pf_read_env_page-pf_add_env_page_example =
    pf_read_env_page-pf_add_env_page machine ide ide-Stores 4096 3 7 two_free added.0 permissions.0
      two_free-IsOwned refl added.1 mapped permissions.1
