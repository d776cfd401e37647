-- ===== src/PageFile/Updating.antt =====
-- Updating a page keeps the frames of the page file apart, and so do the functions for page tables.
use fos_project.Prelude.Words.{sub32, page_size}
use fos_project.Prelude.{
  ltb, ◌==◌, if◌then◌else◌, Result, panic, ok, ◌>>=◌, Returning, then_Returning, always_Returning,
  weaken_Returning, if_Returning, ℕ, ◌*◌, Bool, true, false, ◌&&◌, Option, none, some,
}
use fos_project.Paging.{Paging, Machine, get_frame_info, map_frame}
use fos_project.PageFile.{
  Ide, Env, Status, done, no_page_file_space, page_not_exist, disk_error, kernel_base, user_limit,
  ustackbottom, ustacktop, is_heap_or_stack, dfn_of, count_new_page, keep_entry, unless_full,
  get_disk_page_directory, write_disk_page, make_entry, pf_add_env_page, pf_add_empty_env_page,
  unmap_written, write_frame, update_new_page, update_absent, pf_update_env_page,
}
use fos_project.PageFile.Slots.{IsOwned}
use fos_project.PageFile.Adding.{Added, SameFrames, SameFrames-IsOwned}
use fos_project.PageFile.Writing.{
  get_disk_page_directory-IsOwned, make_entry-Owned, write_disk_page-Same, pf_add_env_page-Owned,
}

module _ {C D : Type 0} (m : Machine) (ide : Ide C D) where
  keep_entry-Owned : (r : Option ℕ × Env C D) → Added r → Returning Added (keep_entry r)
  unfolding keep_entry
  keep_entry-Owned (none, e) o = o
  keep_entry-Owned (some dfn, e) o = o

  pub pf_add_empty_env_page-Owned :
      (zero_page : C) (va : ℕ) (initialize_by_zero : Bool) (e : Env C D)
      → IsOwned e
      → Returning Added (pf_add_empty_env_page m ide zero_page va initialize_by_zero e)
  unfolding pf_add_empty_env_page count_new_page
  pf_add_empty_env_page-Owned zero_page va true e o =
      pf_add_env_page-Owned m ide va zero_page
        (if ltb ustackbottom va && ltb va (sub32 ustacktop (e.init_num_stack_pages * page_size))
          then count_new_page e
          else e)
        (counted
          (ltb ustackbottom va && ltb va (sub32 ustacktop (e.init_num_stack_pages * page_size))))
    where
      counted : (b : Bool) → IsOwned (if b then count_new_page e else e)
      counted true = o
      counted false = o
  pf_add_empty_env_page-Owned zero_page va false e o =
      then_Returning Added Added (make_entry m ide va e) keep_entry (make_entry-Owned m ide va e o)
        keep_entry-Owned

  write_frame-Same :
      (dfn f : ℕ) (e : Env C D) → Returning (λ r. SameFrames e r.1) (write_frame m ide dfn f e)
  unfolding write_frame unmap_written
  write_frame-Same dfn f e =
      then_Returning (λ p. Unit) (λ r. SameFrames e r.1) (map_frame m f user_limit 0 e.paging)
        (λ p. write_disk_page m ide dfn (e.memory f) (record e { paging = p }) >>= λ e'.
          ok (done, unmap_written m ide f e'))
        (always_Returning (λ p. Unit) (map_frame m f user_limit 0 e.paging) (λ p. tt))
        (λ p h.
          then_Returning (SameFrames e) (λ r. SameFrames e r.1)
            (write_disk_page m ide dfn (e.memory f) (record e { paging = p }))
            (λ e'. ok (done, unmap_written m ide f e'))
            (write_disk_page-Same m ide dfn (e.memory f) (record e { paging = p })) (λ e' s. s))

  unless_full-Owned : (r : Status × Env C D) → Added r → Returning IsOwned (unless_full r)
  unfolding unless_full count_new_page
  unless_full-Owned (no_page_file_space, e) o = tt
  unless_full-Owned (done, e) o = o
  unless_full-Owned (page_not_exist, e) o = o
  unless_full-Owned (disk_error, e) o = o

  write_frame-Owned :
      (dfn f : ℕ) (e : Env C D) → IsOwned e → Returning Added (write_frame m ide dfn f e)
  write_frame-Owned dfn f e o =
      weaken_Returning (λ r. SameFrames e r.1) Added (write_frame m ide dfn f e)
        (write_frame-Same dfn f e) (λ r s. SameFrames-IsOwned e r.1 s o)

  update_new_page-Owned :
      (va f : ℕ) (e : Env C D) → IsOwned e → Returning Added (update_new_page m ide va f e)
  unfolding update_new_page
  update_new_page-Owned va f e o =
      then_Returning IsOwned Added (make_entry m ide va e >>= keep_entry >>= unless_full)
        (λ e'. write_frame m ide (dfn_of va e') f e')
        (then_Returning Added IsOwned (make_entry m ide va e >>= keep_entry) unless_full
          (then_Returning Added Added (make_entry m ide va e) keep_entry
            (make_entry-Owned m ide va e o) keep_entry-Owned)
          unless_full-Owned)
        (λ e' o'. write_frame-Owned (dfn_of va e') f e' o')

  update_absent-Owned :
      (va f : ℕ) (r : Option ℕ × Paging) (e : Env C D)
      → IsOwned e
      → Returning Added (update_absent m ide va f r e)
  unfolding update_absent
  update_absent-Owned va f (none, p) e o = update_new_page-Owned va f (record e { paging = p }) o
  update_absent-Owned va f (some g, p) e o =
      if_Returning Added (g == f)
        (pf_add_env_page m ide va (e.memory f) e' >>= unless_full >>= λ x. ok (done, x))
        (update_new_page m ide va f e')
        (then_Returning IsOwned Added (pf_add_env_page m ide va (e.memory f) e' >>= unless_full)
          (λ x. ok (done, x))
          (then_Returning Added IsOwned (pf_add_env_page m ide va (e.memory f) e') unless_full
            (pf_add_env_page-Owned m ide va (e.memory f) e' o) unless_full-Owned)
          (λ x u. u))
        (update_new_page-Owned va f e' o)
    where
      e' : Env C D
      e' = record e { paging = p }

  pub pf_update_env_page-Owned :
      (va f : ℕ) (e : Env C D) → IsOwned e → Returning Added (pf_update_env_page m ide va f e)
  unfolding pf_update_env_page
  pf_update_env_page-Owned va f e o =
      if_Returning Added (ltb va kernel_base) (get_disk_page_directory m ide e >>= after) panic
        (then_Returning IsOwned Added (get_disk_page_directory m ide e) after
          (get_disk_page_directory-IsOwned m ide e o)
          (λ e1 o1.
            if_Returning Added (dfn_of va e1 == 0) (adding e1)
              (write_frame m ide (dfn_of va e1) f e1)
              (if_Returning Added (is_heap_or_stack va)
                (update_absent m ide va f (get_frame_info m va e1.paging) e1) panic
                (update_absent-Owned va f (get_frame_info m va e1.paging) e1 o1) tt)
              (write_frame-Owned (dfn_of va e1) f e1 o1)))
        tt
    where
      adding : Env C D → Result (Status × Env C D)
      adding e1 =
          if is_heap_or_stack va
          then update_absent m ide va f (get_frame_info m va e1.paging) e1
          else panic

      after : Env C D → Result (Status × Env C D)
      after e1 = if dfn_of va e1 == 0 then adding e1 else write_frame m ide (dfn_of va e1) f e1
