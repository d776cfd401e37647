-- ===== src/PageFile/Releasing.antt =====
-- The page file of an environment when all of it is released.
use fos_project.PageFile.Ownership.{same-Owned}
use fos_project.PageFile.Freeing.{
  cleared, passed, passed_tables, fewer-Owned, free_dir-Owned, free_tables-Owned,
}
use fos_project.Prelude.{
  ltb, if◌then◌else◌, Option-cases, panic, ok, Returning, ℕ, ◌≡◌, refl, sym, ap, ◌⊎◌, inl, inr,
  Option, none, some, arith,
}
use fos_project.Paging.{pdx}
use fos_project.PageFile.{
  Env, user_top, free_table, free_dir, pf_remove_env_all_tables, pf_free_env,
}
use fos_project.PageFile.Slots.{
  Slot, page_slot, table_slot, table_entry, dir_entry, frame_in, IsOwned,
}
use mathlib.Core.Path.{subst⁻¹}

module _ {C D : Type 0} where
  all_tables-eq :
      (t : ℕ → ℕ) (e : Env C D)
      → e.disk_env_tabledir ≡ some t
      → pf_remove_env_all_tables e ≡ record e {
        disk_env_tabledir = some (λ d. if ltb d (pdx user_top) then 0 else t d);
        disk_free_frame_list = free_table (pdx user_top) t e.disk_free_frame_list;
      }
  unfolding pf_remove_env_all_tables
  all_tables-eq t e h = rw h refl

  all_tables-none : (e : Env C D) → e.disk_env_tabledir ≡ none → pf_remove_env_all_tables e ≡ e
  unfolding pf_remove_env_all_tables
  all_tables-none e h = ground arith

  pub pf_remove_env_all_tables-IsOwned :
      (e : Env C D) → IsOwned e → IsOwned (pf_remove_env_all_tables e)
  pf_remove_env_all_tables-IsOwned e o = elim (Option-cases e.disk_env_tabledir) [
    | inl h ↦ subst⁻¹ IsOwned (all_tables-none e h) o
    | inr (t, h) ↦ subst⁻¹ IsOwned (all_tables-eq t e h) (
        same-Owned (cleared (frame_in e) (passed_tables (pdx user_top))) (frame_in (after t))
          (free_table (pdx user_top) t e.disk_free_frame_list) (same t h)
          (free_tables-Owned (frame_in e) (pdx user_top) t e.disk_free_frame_list
            (λ d. ap (λ x. table_entry x d) h) o))
  ]
    where
      after : (ℕ → ℕ) → Env C D
      after t = record e { disk_env_tabledir = some (λ d. if ltb d (pdx user_top) then 0 else t d) }

      same :
          (t : ℕ → ℕ)
          → e.disk_env_tabledir ≡ some t
          → (p : Slot)
          → frame_in (after t) p ≡ cleared (frame_in e) (passed_tables (pdx user_top)) p
      same t h (page_slot c i) = refl
      same t h (table_slot c) =
          ap (λ x. if ltb c (pdx user_top) then 0 else x) (sym (ap (λ x. table_entry x c) h))

  forget_tables-IsOwned :
      (e : Env C D) → IsOwned e → IsOwned (record e { disk_env_tabledir = none })
  forget_tables-IsOwned e o =
      fewer-Owned (frame_in e) (frame_in (record e { disk_env_tabledir = none }))
        e.disk_free_frame_list fewer o
    where
      fewer :
          (p : Slot)
          → (frame_in (record e { disk_env_tabledir = none }) p ≡ frame_in e p)
            ⊎ (frame_in (record e { disk_env_tabledir = none }) p ≡ 0)
      fewer (page_slot c i) = inl refl
      fewer (table_slot c) = inr refl

  freed_pages : (ℕ → Option (ℕ → ℕ)) → Env C D → Env C D
  freed_pages dir e = record e {
    disk_env_pgdir = none;
    disk_free_frame_list = free_dir (pdx user_top) dir e.disk_free_frame_list;
  }

  freed_pages-IsOwned :
      (dir : ℕ → Option (ℕ → ℕ)) (e : Env C D)
      → e.disk_env_pgdir ≡ some dir
      → IsOwned e
      → IsOwned (freed_pages dir e)
  unfolding freed_pages
  freed_pages-IsOwned dir e h o =
      fewer-Owned (cleared (frame_in e) (passed (pdx user_top) 0)) (frame_in (freed_pages dir e))
        (free_dir (pdx user_top) dir e.disk_free_frame_list) fewer
        (free_dir-Owned (frame_in e) (pdx user_top) dir e.disk_free_frame_list
          (λ d i. ap (λ x. dir_entry x d i) h) o)
    where
      fewer :
          (p : Slot)
          → (frame_in (freed_pages dir e) p ≡ cleared (frame_in e) (passed (pdx user_top) 0) p)
            ⊎ (frame_in (freed_pages dir e) p ≡ 0)
      fewer (page_slot c i) = inr refl
      fewer (table_slot c) = inl refl

  free_env-eq :
      (dir : ℕ → Option (ℕ → ℕ)) (e : Env C D)
      → e.disk_env_pgdir ≡ some dir
      → pf_free_env e
        ≡ ok (record (pf_remove_env_all_tables (freed_pages dir e)) { disk_env_tabledir = none })
  unfolding pf_free_env freed_pages
  free_env-eq dir e h = rw h refl

  free_env-none : (e : Env C D) → e.disk_env_pgdir ≡ none → pf_free_env e ≡ panic
  unfolding pf_free_env
  free_env-none e h = ground arith

  pub pf_free_env-IsOwned : (e : Env C D) → IsOwned e → Returning IsOwned (pf_free_env e)
  pf_free_env-IsOwned e o = elim (Option-cases e.disk_env_pgdir) [
    | inl h ↦ subst⁻¹ (Returning IsOwned) (free_env-none e h) tt
    | inr (dir, h) ↦ subst⁻¹ (Returning IsOwned) (free_env-eq dir e h) (
        forget_tables-IsOwned (pf_remove_env_all_tables (freed_pages dir e))
          (pf_remove_env_all_tables-IsOwned (freed_pages dir e) (freed_pages-IsOwned dir e h o)))
  ]
