-- ===== src/PageFile/Tables.antt =====
-- The page tables that are kept in the page file have frames of their own.
use fos_project.PageFile.Ownership.{same-Owned, set_at-same, set_at-other}
use fos_project.PageFile.Writing.{write_entry-Owned}
use fos_project.Prelude.{
  ltb, Option-cases, panic, ok, ◌>>=◌, Returning, then_Returning, if_Returning, ℕ, ◌≡◌, refl, sym,
  ap, ◌∙◌, ◌≢◌, inl, inr, none, some, List, [], ◌∷◌, arith, ℕ_discrete,
}
use fos_project.Paging.{Machine, pdx}
use fos_project.PageFile.{
  Ide, Env, kernel_base, set_at, free_disk_frame, allocate_disk_frame, pf_remove_env_table,
  enter_table, new_page, write_entry, get_disk_table_directory, pf_write_env_table,
}
use fos_project.PageFile.Slots.{
  Slot, page_slot, table_slot, Owned, Changes, taken-Owned, given-Owned, table_entry, frame_in,
  IsOwned,
}
use fos_project.PageFile.Adding.{Added, List-cases, SameFrames, SameFrames-IsOwned, new_page-Same}
use mathlib.Core.Path.{subst, subst⁻¹}

module _ {C D : Type 0} where
  set_table-Changes :
      (d v : ℕ) (t : ℕ → ℕ) (free : List ℕ) (e : Env C D)
      → e.disk_env_tabledir ≡ some t
      → Changes
          (frame_in e)
          (frame_in
            (record e { disk_env_tabledir = some (set_at t d v); disk_free_frame_list = free }))
          (table_slot d)
          v
  set_table-Changes d v t free e h = record {
    at_slot = set_at-same t d d v refl;
    elsewhere = others;
  }
    where
      others :
          (p : Slot)
          → p ≢ table_slot d
          → frame_in
              (record e { disk_env_tabledir = some (set_at t d v); disk_free_frame_list = free })
              p
            ≡ frame_in e p
      others (page_slot c i) n = refl
      others (table_slot c) n =
          set_at-other t d c v (λ a. n (ap table_slot (sym a))) ∙ sym (ap (λ x. table_entry x c) h)

  remove_table-eq :
      (va : ℕ) (t : ℕ → ℕ) (e : Env C D)
      → e.disk_env_tabledir ≡ some t
      → pf_remove_env_table va e ≡ record e {
        disk_env_tabledir = some (set_at t (pdx va) 0);
        disk_free_frame_list = free_disk_frame (t (pdx va)) e.disk_free_frame_list;
      }
  unfolding pf_remove_env_table
  remove_table-eq va t e h = rw h refl

  remove_table-none :
      (va : ℕ) (e : Env C D) → e.disk_env_tabledir ≡ none → pf_remove_env_table va e ≡ e
  unfolding pf_remove_env_table
  remove_table-none va e h = ground arith

  pub pf_remove_env_table-IsOwned :
      (va : ℕ) (e : Env C D) → IsOwned e → IsOwned (pf_remove_env_table va e)
  pf_remove_env_table-IsOwned va e o = elim (Option-cases e.disk_env_tabledir) [
    | inl h ↦ subst⁻¹ IsOwned (remove_table-none va e h) o
    | inr (t, h) ↦ subst⁻¹ IsOwned (remove_table-eq va t e h) (
        subst
          (λ v.
            Owned (frame_in (record e { disk_env_tabledir = some (set_at t (pdx va) 0) }))
              (free_disk_frame v e.disk_free_frame_list))
          (ap (λ x. table_entry x (pdx va)) h)
          (given-Owned (frame_in e)
            (frame_in (record e { disk_env_tabledir = some (set_at t (pdx va) 0) }))
            (table_slot (pdx va)) e.disk_free_frame_list o
            (set_table-Changes (pdx va) 0 t e.disk_free_frame_list e h)))
  ]

  enter_table-kept :
      (va : ℕ) (t : ℕ → ℕ) (e : Env C D)
      → e.disk_env_tabledir ≡ some t
      → t (pdx va) ≢ 0
      → enter_table va e ≡ ok (some (t (pdx va)), e)
  unfolding enter_table
  enter_table-kept va t e h n = ground arith

  enter_table-full :
      (va : ℕ) (t : ℕ → ℕ) (e : Env C D)
      → e.disk_env_tabledir ≡ some t
      → t (pdx va) ≡ 0
      → e.disk_free_frame_list ≡ []
      → enter_table va e ≡ ok (none, e)
  unfolding enter_table allocate_disk_frame
  enter_table-full va t e h z k = ground arith

  enter_table-none : (va : ℕ) (e : Env C D) → e.disk_env_tabledir ≡ none → enter_table va e ≡ panic
  unfolding enter_table
  enter_table-none va e h = ground arith

  enter_table-new :
      (va dfn : ℕ) (rest : List ℕ) (t : ℕ → ℕ) (e : Env C D)
      → e.disk_env_tabledir ≡ some t
      → t (pdx va) ≡ 0
      → e.disk_free_frame_list ≡ dfn ∷ rest
      → enter_table va e
        ≡ ok (
          some dfn,
          record e {
            disk_env_tabledir = some (set_at t (pdx va) dfn);
            disk_free_frame_list = rest;
          },
        )
  unfolding enter_table allocate_disk_frame
  enter_table-new va dfn rest t e h z k = ground arith

  enter_table-Owned : (va : ℕ) (e : Env C D) → IsOwned e → Returning Added (enter_table va e)
  enter_table-Owned va e o = elim (Option-cases e.disk_env_tabledir) [
    | inl h ↦ subst⁻¹ (Returning Added) (enter_table-none va e h) tt
    | inr (t, h) ↦ elim (ℕ_discrete (t (pdx va)) 0) [
      | no n ↦ subst⁻¹ (Returning Added) (enter_table-kept va t e h n) o
      | yes z ↦ elim (List-cases e.disk_free_frame_list) [
        | inl k ↦ subst⁻¹ (Returning Added) (enter_table-full va t e h z k) o
        | inr (dfn, (rest, k)) ↦ subst⁻¹ (Returning Added) (enter_table-new va dfn rest t e h z k) (
            taken-Owned (frame_in e)
              (frame_in (record e {
                disk_env_tabledir = some (set_at t (pdx va) dfn);
                disk_free_frame_list = rest;
              }))
              (table_slot (pdx va)) dfn rest (subst (Owned (frame_in e)) k o)
              (set_table-Changes (pdx va) dfn t rest e h) (ap (λ x. table_entry x (pdx va)) h ∙ z))
      ]
    ]
  ]

module _ {C D : Type 0} (m : Machine) (ide : Ide C D) where
  table_directory_there :
      (t : ℕ → ℕ) (e : Env C D)
      → e.disk_env_tabledir ≡ some t
      → get_disk_table_directory m ide e ≡ ok e
  unfolding get_disk_table_directory
  table_directory_there t e h = ground arith

  table_directory_new :
      (e : Env C D)
      → e.disk_env_tabledir ≡ none
      → get_disk_table_directory m ide e
        ≡ new_page m ide e >>= λ e'. ok (record e' { disk_env_tabledir = some (λ d. 0) })
  unfolding get_disk_table_directory
  table_directory_new e h = rw h refl

  get_disk_table_directory-IsOwned :
      (e : Env C D) → IsOwned e → Returning IsOwned (get_disk_table_directory m ide e)
  get_disk_table_directory-IsOwned e o = elim (Option-cases e.disk_env_tabledir) [
    | inr (t, h) ↦ subst⁻¹ (Returning IsOwned) (table_directory_there t e h) o
    | inl h ↦ subst⁻¹ (Returning IsOwned) (table_directory_new e h) (
        then_Returning (SameFrames e) IsOwned (new_page m ide e)
          (λ e'. ok (record e' { disk_env_tabledir = some (λ d. 0) })) (new_page-Same m ide e)
          (λ e' s.
            same-Owned (frame_in e') (frame_in (record e' { disk_env_tabledir = some (λ d. 0) }))
              e'.disk_free_frame_list (same e' (s.1.0 ∙ h)) (SameFrames-IsOwned e e' s o)))
  ]
    where
      same :
          (e' : Env C D)
          → e'.disk_env_tabledir ≡ none
          → (p : Slot)
          → frame_in (record e' { disk_env_tabledir = some (λ d. 0) }) p ≡ frame_in e' p
      same e' k (page_slot c i) = refl
      same e' k (table_slot c) = sym (ap (λ x. table_entry x c) k)

  pub pf_write_env_table-Owned :
      (va : ℕ) (c : C) (e : Env C D) → IsOwned e → Returning Added (pf_write_env_table m ide va c e)
  unfolding pf_write_env_table
  pf_write_env_table-Owned va c e o =
      if_Returning Added (ltb va kernel_base)
        (get_disk_table_directory m ide e >>= enter_table va >>= write_entry m ide c) panic
        (then_Returning Added Added (get_disk_table_directory m ide e >>= enter_table va)
          (write_entry m ide c)
          (then_Returning IsOwned Added (get_disk_table_directory m ide e) (enter_table va)
            (get_disk_table_directory-IsOwned e o) (enter_table-Owned va))
          (write_entry-Owned m ide c))
        tt
