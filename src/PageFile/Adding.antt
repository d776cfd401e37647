-- ===== src/PageFile/Adding.antt =====
-- A page or a table that is added to the page file gets a frame of its own.
use fos_project.Prelude.{
  Option-cases, panic, ok, Returning, ℕ, ◌≡◌, refl, sym, ap, ◌∙◌, ◌≢◌, ◌⊎◌, inl, inr, Option, none,
  some, List, [], ◌∷◌, arith, ℕ_discrete,
}
use fos_project.Paging.{Paging, Machine, pdx, ptx}
use fos_project.PageFile.{
  Ide, Env, set_at, allocate_disk_frame, table_of, dfn_of, write_dir, set_dfn, enter_frame,
  new_page,
}
use fos_project.PageFile.Slots.{
  Slot, page_slot, table_slot, Owned, taken-Owned, table_entry, dir_entry, frame_in, IsOwned,
}
use fos_project.PageFile.Ownership.{same-Owned, write_dir-Changes, frame_in-eq}
use mathlib.Core.Path.{subst, subst⁻¹}

abbrev pub Added : {A C D : Type 0} → A × Env C D → Type 0
Added (a, e) = IsOwned e

pub taken-eq :
    {C D : Type 0}
    → (va dfn : ℕ) (rest : List ℕ) (dir : ℕ → Option (ℕ → ℕ)) (t : ℕ → ℕ) (e : Env C D)
    → dfn_of va e ≡ 0
    → e.disk_free_frame_list ≡ dfn ∷ rest
    → e.disk_env_pgdir ≡ some dir
    → dir (pdx va) ≡ some t
    → enter_frame va e
      ≡ ok (
        some dfn,
        write_dir dir va (set_at t (ptx va) dfn) (record e { disk_free_frame_list = rest }),
      )
unfolding enter_frame allocate_disk_frame set_dfn
taken-eq va dfn rest dir t e z h k l = ground arith

pub full-eq :
    {C D : Type 0}
    → (va : ℕ) (e : Env C D) → dfn_of va e ≡ 0
    → e.disk_free_frame_list ≡ []
    → enter_frame va e ≡ ok (none, e)
unfolding enter_frame allocate_disk_frame
full-eq va e z h = ground arith

pub kept-eq :
    {C D : Type 0}
    → (va : ℕ) (e : Env C D) → dfn_of va e ≢ 0
    → enter_frame va e ≡ ok (some (dfn_of va e), e)
unfolding enter_frame
kept-eq va e z = ground arith

pub no_table-eq :
    {C D : Type 0}
    → (va dfn : ℕ) (rest : List ℕ) (e : Env C D) → dfn_of va e ≡ 0
    → e.disk_free_frame_list ≡ dfn ∷ rest
    → table_of va e ≡ none
    → enter_frame va e ≡ panic
unfolding enter_frame allocate_disk_frame set_dfn table_of
no_table-eq va dfn rest e z h k = ground arith

pub dfn_of-eq :
    {C D : Type 0}
    → (va : ℕ) (dir : ℕ → Option (ℕ → ℕ)) (t : ℕ → ℕ) (e : Env C D) → e.disk_env_pgdir ≡ some dir
    → dir (pdx va) ≡ some t
    → dfn_of va e ≡ t (ptx va)
unfolding dfn_of table_of
dfn_of-eq va dir t e h k = ground arith

pub table_of-eq :
    {C D : Type 0}
    → (va : ℕ) (dir : ℕ → Option (ℕ → ℕ)) (e : Env C D) → e.disk_env_pgdir ≡ some dir
    → table_of va e ≡ dir (pdx va)
unfolding table_of
table_of-eq va dir e h = ground arith

pub table_of-none :
    {C D : Type 0} → (va : ℕ) (e : Env C D) → e.disk_env_pgdir ≡ none → table_of va e ≡ none
unfolding table_of
table_of-none va e h = ground arith

pub List-cases : (free : List ℕ) → (free ≡ []) ⊎ ((x : ℕ) × ((rest : List ℕ) × (free ≡ x ∷ rest)))
List-cases [] = inl refl
List-cases (x ∷ rest) = inr (x, (rest, refl))

module _ {C D : Type 0} where
  taken-IsOwned :
      (va dfn : ℕ) (rest : List ℕ) (dir : ℕ → Option (ℕ → ℕ)) (t : ℕ → ℕ) (e : Env C D)
      → dfn_of va e ≡ 0
      → e.disk_free_frame_list ≡ dfn ∷ rest
      → e.disk_env_pgdir ≡ some dir
      → dir (pdx va) ≡ some t
      → IsOwned e
      → IsOwned
          (write_dir dir va (set_at t (ptx va) dfn) (record e { disk_free_frame_list = rest }))
  taken-IsOwned va dfn rest dir t e z h k l o =
      taken-Owned (frame_in e) (frame_in (write_dir dir va (set_at t (ptx va) dfn) e))
        (page_slot (pdx va) (ptx va)) dfn rest (subst (Owned (frame_in e)) h o)
        (write_dir-Changes va dfn dir t e k l)
        (frame_in-eq va dir t e k l ∙ sym (dfn_of-eq va dir t e k l) ∙ z)

  enter_new-Owned :
      (va dfn : ℕ) (rest : List ℕ) (e : Env C D)
      → dfn_of va e ≡ 0
      → e.disk_free_frame_list ≡ dfn ∷ rest
      → IsOwned e
      → Returning Added (enter_frame va e)
  enter_new-Owned va dfn rest e z h o = elim (Option-cases e.disk_env_pgdir) [
    | inl k ↦ subst⁻¹ (Returning Added) (no_table-eq va dfn rest e z h (table_of-none va e k)) tt
    | inr (dir, k) ↦ elim (Option-cases (dir (pdx va))) [
      | inl l ↦
          subst⁻¹ (Returning Added) (no_table-eq va dfn rest e z h (table_of-eq va dir e k ∙ l)) tt
      | inr (t, l) ↦
          subst⁻¹ (Returning Added) (taken-eq va dfn rest dir t e z h k l)
            (taken-IsOwned va dfn rest dir t e z h k l o)
    ]
  ]

  pub enter_frame-Owned : (va : ℕ) (e : Env C D) → IsOwned e → Returning Added (enter_frame va e)
  enter_frame-Owned va e o = elim (ℕ_discrete (dfn_of va e) 0) [
    | no n ↦ subst⁻¹ (Returning Added) (kept-eq va e n) o
    | yes z ↦ elim (List-cases e.disk_free_frame_list) [
      | inl h ↦ subst⁻¹ (Returning Added) (full-eq va e z h) o
      | inr (dfn, (rest, h)) ↦ enter_new-Owned va dfn rest e z h o
    ]
  ]

module _ {C D : Type 0} where
  -- the page file of two environments is the same
  abbrev pub SameFrames : Env C D → Env C D → Type 0
  SameFrames e e' =
      (e'.disk_env_pgdir ≡ e.disk_env_pgdir)
      × ((e'.disk_env_tabledir ≡ e.disk_env_tabledir)
          × (e'.disk_free_frame_list ≡ e.disk_free_frame_list))

  pub SameFrames-IsOwned : (e e' : Env C D) → SameFrames e e' → IsOwned e → IsOwned e'
  SameFrames-IsOwned e e' (h, (k, l)) o =
      subst⁻¹ (λ x. Owned (frame_in e') x) l
        (same-Owned (frame_in e) (frame_in e') e.disk_free_frame_list same o)
    where
      same : (p : Slot) → frame_in e' p ≡ frame_in e p
      same (page_slot d i) = ap (λ x. dir_entry x d i) h
      same (table_slot d) = ap (λ x. table_entry x d) k

module _ {C D : Type 0} (m : Machine) (ide : Ide C D) where
  pub new_page-Same : (e : Env C D) → Returning (SameFrames e) (new_page m ide e)
  unfolding new_page
  new_page-Same e = go (m.kmalloc_page e.paging)
    where
      go :
          (r : Option (ℕ × Paging))
          → Returning
              (SameFrames e)
              (elim r [ none ↦ panic | some (f, p) ↦ ok (record e { paging = p }) ])
      go none = tt
      go (some (f, p)) = (refl, (refl, refl))
