-- ===== src/PageFile/Writing.antt =====
-- The functions that write to the page file keep its frames apart.
use fos_project.PageFile.Ownership.{new_table-IsOwned, new_directory-IsOwned}
use fos_project.PageFile.Slots.{IsOwned}
use fos_project.Prelude.{
  ltb, if◌then◌else◌, Bool-cases, Option-cases, panic, ok, ◌>>=◌, Returning, then_Returning, ℕ, ◌≡◌,
  refl, ◌∙◌, inl, inr, Bool, true, false, Option, none, some, arith,
}
use fos_project.Paging.{Machine, pdx}
use fos_project.PageFile.{
  Ide, Env, done, kernel_base, start_sector, write_dir, enter_frame, new_page,
  get_disk_page_directory, get_disk_page_table, write_disk_page, make_entry, write_entry,
  pf_add_env_page,
}
use fos_project.PageFile.Adding.{
  Added, enter_frame-Owned, SameFrames, SameFrames-IsOwned, new_page-Same,
}
use mathlib.Core.Path.{subst⁻¹}

module _ {C D : Type 0} (m : Machine) (ide : Ide C D) where
  directory_there :
      (dir : ℕ → Option (ℕ → ℕ)) (e : Env C D)
      → e.disk_env_pgdir ≡ some dir
      → get_disk_page_directory m ide e ≡ ok e
  unfolding get_disk_page_directory
  directory_there dir e h = ground arith

  directory_new :
      (e : Env C D)
      → e.disk_env_pgdir ≡ none
      → get_disk_page_directory m ide e
        ≡ new_page m ide e >>= λ e'. ok (record e' { disk_env_pgdir = some (λ d. none) })
  unfolding get_disk_page_directory
  directory_new e h = rw h refl

  pub get_disk_page_directory-IsOwned :
      (e : Env C D) → IsOwned e → Returning IsOwned (get_disk_page_directory m ide e)
  get_disk_page_directory-IsOwned e o = elim (Option-cases e.disk_env_pgdir) [
    | inr (dir, h) ↦ subst⁻¹ (Returning IsOwned) (directory_there dir e h) o
    | inl h ↦ subst⁻¹ (Returning IsOwned) (directory_new e h) (
        then_Returning (SameFrames e) IsOwned (new_page m ide e)
          (λ e'. ok (record e' { disk_env_pgdir = some (λ d. none) })) (new_page-Same m ide e)
          (λ e' s. new_directory-IsOwned e' (s.0 ∙ h) (SameFrames-IsOwned e e' s o)))
  ]

  table_there :
      (va : ℕ) (dir : ℕ → Option (ℕ → ℕ)) (t : ℕ → ℕ) (e : Env C D)
      → e.disk_env_pgdir ≡ some dir
      → dir (pdx va) ≡ some t
      → get_disk_page_table m ide va e ≡ ok e
  unfolding get_disk_page_table
  table_there va dir t e h k = ground arith

  table_new :
      (va : ℕ) (dir : ℕ → Option (ℕ → ℕ)) (e : Env C D)
      → e.disk_env_pgdir ≡ some dir
      → dir (pdx va) ≡ none
      → get_disk_page_table m ide va e
        ≡ new_page m ide e >>= λ e'. ok (write_dir dir va (λ i. 0) e')
  unfolding get_disk_page_table
  table_new va dir e h k = rw (h, k) refl

  no_directory :
      (va : ℕ) (e : Env C D) → e.disk_env_pgdir ≡ none → get_disk_page_table m ide va e ≡ panic
  unfolding get_disk_page_table
  no_directory va e h = ground arith

  pub get_disk_page_table-IsOwned :
      (va : ℕ) (e : Env C D) → IsOwned e → Returning IsOwned (get_disk_page_table m ide va e)
  get_disk_page_table-IsOwned va e o = elim (Option-cases e.disk_env_pgdir) [
    | inl h ↦ subst⁻¹ (Returning IsOwned) (no_directory va e h) tt
    | inr (dir, h) ↦ elim (Option-cases (dir (pdx va))) [
      | inr (t, k) ↦ subst⁻¹ (Returning IsOwned) (table_there va dir t e h k) o
      | inl k ↦ subst⁻¹ (Returning IsOwned) (table_new va dir e h k) (
          then_Returning (SameFrames e) IsOwned (new_page m ide e)
            (λ e'. ok (write_dir dir va (λ i. 0) e')) (new_page-Same m ide e)
            (λ e' s. new_table-IsOwned va dir e' (s.0 ∙ h) k (SameFrames-IsOwned e e' s o)))
    ]
  ]

  pub make_entry-Owned :
      (va : ℕ) (e : Env C D) → IsOwned e → Returning Added (make_entry m ide va e)
  unfolding make_entry
  make_entry-Owned va e o = elim (Bool-cases (ltb va kernel_base)) [
    | inr h ↦ rw h tt
    | inl h ↦ rw h (
        then_Returning IsOwned Added
          (get_disk_page_directory m ide e >>= get_disk_page_table m ide va) (enter_frame va)
          (then_Returning IsOwned IsOwned (get_disk_page_directory m ide e)
            (get_disk_page_table m ide va) (get_disk_page_directory-IsOwned e o)
            (get_disk_page_table-IsOwned va))
          (enter_frame-Owned va))
  ]

  pub write_disk_page-Same :
      (dfn : ℕ) (c : C) (e : Env C D) → Returning (SameFrames e) (write_disk_page m ide dfn c e)
  unfolding write_disk_page
  write_disk_page-Same dfn c e = go (ide.ide_write (start_sector dfn) c e.disk)
    where
      go :
          (r : Bool × D)
          → Returning (SameFrames e) (if r.0 then ok (record e { disk = r.1 }) else panic)
      go (true, d) = (refl, (refl, refl))
      go (false, d) = tt

  pub write_entry-Owned :
      (c : C) (r : Option ℕ × Env C D) → Added r → Returning Added (write_entry m ide c r)
  unfolding write_entry
  write_entry-Owned c (none, e) o = o
  write_entry-Owned c (some dfn, e) o =
      then_Returning (SameFrames e) Added (write_disk_page m ide dfn c e) (λ e'. ok (done, e'))
        (write_disk_page-Same dfn c e) (λ e' s. SameFrames-IsOwned e e' s o)

  pub pf_add_env_page-Owned :
      (va : ℕ) (c : C) (e : Env C D) → IsOwned e → Returning Added (pf_add_env_page m ide va c e)
  unfolding pf_add_env_page
  pf_add_env_page-Owned va c e o =
      then_Returning Added Added (make_entry m ide va e) (write_entry m ide c)
        (make_entry-Owned va e o) (write_entry-Owned c)
