-- ===== src/PageFile/Ownership.antt =====
-- Every operation of the page file keeps its frames apart.
use fos_project.Paging.{pdx, ptx}
use fos_project.Queue.Seg.{NotIn}
use mathlib.Core.Path.{ap₂, subst, subst⁻¹}
use fos_project.PageFile.{Env, set_at, free_disk_frame, write_dir, pf_remove_env_page}
use fos_project.PageFile.Slots.{
  Slot, page_slot, table_slot, Owned, Changes, given-Owned, table_entry, dir_entry, frame_in,
  IsOwned,
}
use fos_project.Prelude.{
  Option-cases, eq→==, ne→==, ℕ, ◌≡◌, refl, sym, ap, ◌∙◌, ◌≢◌, inl, inr, Option, none, some, List,
  arith, ℕ_discrete,
}

pub same-Owned :
    (f g : Slot → ℕ) (free : List ℕ) → ((p : Slot) → g p ≡ f p) → Owned f free → Owned g free
same-Owned f g free same o = record {
  apart = λ p q n e. o.apart p q (λ h. n (same p ∙ h)) (sym (same p) ∙ e ∙ same q);
  used = λ p. subst⁻¹ (λ v. NotIn v free) (same p) (o.used p);
  zero_used = o.zero_used;
  distinct = o.distinct;
}

pub set_at-same : {A : Type 0} → (f : ℕ → A) (i j : ℕ) (v : A) → i ≡ j → set_at f i v j ≡ v
set_at-same f i j v a = rw (eq→== i j a) refl

pub set_at-other : {A : Type 0} → (f : ℕ → A) (i j : ℕ) (v : A) → i ≢ j → set_at f i v j ≡ f j
set_at-other f i j v a = rw (ne→== i j a) refl

-- The entries of a directory in which table `c` is replaced.
replaced-other :
    (dir : ℕ → Option (ℕ → ℕ)) (c d i : ℕ) (t : ℕ → ℕ)
    → c ≢ d
    → dir_entry (some (set_at dir c (some t))) d i ≡ dir_entry (some dir) d i
replaced-other dir c d i t n = ap (λ x. table_entry x i) (set_at-other dir c d (some t) n)

replaced-same :
    (dir : ℕ → Option (ℕ → ℕ)) (c d i : ℕ) (t : ℕ → ℕ)
    → c ≡ d
    → dir_entry (some (set_at dir c (some t))) d i ≡ t i
replaced-same dir c d i t n = ap (λ x. table_entry x i) (set_at-same dir c d (some t) n)

entry-eq :
    (p : Option (ℕ → Option (ℕ → ℕ))) (dir : ℕ → Option (ℕ → ℕ)) (c d i : ℕ) (t : Option (ℕ → ℕ))
    → p ≡ some dir
    → dir c ≡ t
    → c ≡ d
    → dir_entry p d i ≡ table_entry t i
entry-eq p dir c d i t h k a =
    ap (λ x. dir_entry x d i) h
    ∙ ap (λ x. table_entry (dir x) i) (sym a)
    ∙ ap (λ x. table_entry x i) k

module _ {C D : Type 0} where
  -- the disk directory with one table replaced
  pub write_dir-Changes :
      (va v : ℕ) (dir : ℕ → Option (ℕ → ℕ)) (t : ℕ → ℕ) (e : Env C D)
      → e.disk_env_pgdir ≡ some dir
      → dir (pdx va) ≡ some t
      → Changes
          (frame_in e)
          (frame_in (write_dir dir va (set_at t (ptx va) v) e))
          (page_slot (pdx va) (ptx va))
          v
  write_dir-Changes va v dir t e h k = record {
    at_slot =
        replaced-same dir (pdx va) (pdx va) (ptx va) (set_at t (ptx va) v) refl
        ∙ set_at-same t (ptx va) (ptx va) v refl;
    elsewhere = others;
  }
    where
      others :
          (p : Slot)
          → p ≢ page_slot (pdx va) (ptx va)
          → frame_in (write_dir dir va (set_at t (ptx va) v) e) p ≡ frame_in e p
      others (table_slot d) n = refl
      others (page_slot d i) n = elim (ℕ_discrete (pdx va) d) [
        | no a ↦
            replaced-other dir (pdx va) d i (set_at t (ptx va) v) a
            ∙ sym (ap (λ x. dir_entry x d i) h)
        | yes a ↦ elim (ℕ_discrete (ptx va) i) [
          | yes b ↦ absurd (n (ap₂ page_slot (sym a) (sym b)))
          | no b ↦
              replaced-same dir (pdx va) d i (set_at t (ptx va) v) a
              ∙ set_at-other t (ptx va) i v b
              ∙ sym (entry-eq e.disk_env_pgdir dir (pdx va) d i (some t) h k a)
        ]
      ]

  pub frame_in-eq :
      (va : ℕ) (dir : ℕ → Option (ℕ → ℕ)) (t : ℕ → ℕ) (e : Env C D)
      → e.disk_env_pgdir ≡ some dir
      → dir (pdx va) ≡ some t
      → frame_in e (page_slot (pdx va) (ptx va)) ≡ t (ptx va)
  frame_in-eq va dir t e h k = rw (h, k) refl

  pub remove_page-eq :
      (va : ℕ) (dir : ℕ → Option (ℕ → ℕ)) (t : ℕ → ℕ) (e : Env C D)
      → e.disk_env_pgdir ≡ some dir
      → dir (pdx va) ≡ some t
      → pf_remove_env_page va e ≡ record (write_dir dir va (set_at t (ptx va) 0) e) {
        disk_free_frame_list = free_disk_frame (t (ptx va)) e.disk_free_frame_list;
      }
  unfolding pf_remove_env_page
  remove_page-eq va dir t e h k = ground arith

  pub remove_page-absent :
      (va : ℕ) (dir : ℕ → Option (ℕ → ℕ)) (e : Env C D)
      → e.disk_env_pgdir ≡ some dir
      → dir (pdx va) ≡ none
      → pf_remove_env_page va e ≡ e
  unfolding pf_remove_env_page
  remove_page-absent va dir e h k = ground arith

  pub remove_page-none :
      (va : ℕ) (e : Env C D) → e.disk_env_pgdir ≡ none → pf_remove_env_page va e ≡ e
  unfolding pf_remove_env_page
  remove_page-none va e h = ground arith

  pub pf_remove_env_page-IsOwned :
      (va : ℕ) (e : Env C D) → IsOwned e → IsOwned (pf_remove_env_page va e)
  pf_remove_env_page-IsOwned va e o = elim (Option-cases e.disk_env_pgdir) [
    | inl h ↦ subst⁻¹ IsOwned (remove_page-none va e h) o
    | inr (dir, h) ↦ elim (Option-cases (dir (pdx va))) [
      | inl k ↦ subst⁻¹ IsOwned (remove_page-absent va dir e h k) o
      | inr (t, k) ↦ subst⁻¹ IsOwned (remove_page-eq va dir t e h k) (
          subst
            (λ v.
              Owned (frame_in (write_dir dir va (set_at t (ptx va) 0) e))
                (free_disk_frame v e.disk_free_frame_list))
            (frame_in-eq va dir t e h k)
            (given-Owned (frame_in e) (frame_in (write_dir dir va (set_at t (ptx va) 0) e))
              (page_slot (pdx va) (ptx va)) e.disk_free_frame_list o
              (write_dir-Changes va 0 dir t e h k)))
    ]
  ]

  -- A new table has no frames, and neither has a new directory.
  pub new_table-IsOwned :
      (va : ℕ) (dir : ℕ → Option (ℕ → ℕ)) (e : Env C D)
      → e.disk_env_pgdir ≡ some dir
      → dir (pdx va) ≡ none
      → IsOwned e
      → IsOwned (write_dir dir va (λ i. 0) e)
  new_table-IsOwned va dir e h k o =
      same-Owned (frame_in e) (frame_in (write_dir dir va (λ i. 0) e)) e.disk_free_frame_list same o
    where
      same : (p : Slot) → frame_in (write_dir dir va (λ i. 0) e) p ≡ frame_in e p
      same (table_slot d) = refl
      same (page_slot d i) = elim (ℕ_discrete (pdx va) d) [
        | no a ↦ replaced-other dir (pdx va) d i (λ j. 0) a ∙ sym (ap (λ x. dir_entry x d i) h)
        | yes a ↦
            replaced-same dir (pdx va) d i (λ j. 0) a
            ∙ sym (entry-eq e.disk_env_pgdir dir (pdx va) d i none h k a)
      ]

  pub new_directory-IsOwned :
      (e : Env C D)
      → e.disk_env_pgdir ≡ none
      → IsOwned e
      → IsOwned (record e { disk_env_pgdir = some (λ d. none) })
  new_directory-IsOwned e h o =
      same-Owned (frame_in e) (frame_in (record e { disk_env_pgdir = some (λ d. none) }))
        e.disk_free_frame_list same o
    where
      same : (p : Slot) → frame_in (record e { disk_env_pgdir = some (λ d. none) }) p ≡ frame_in e p
      same (table_slot d) = refl
      same (page_slot d i) = rw h refl
