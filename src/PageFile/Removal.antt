-- ===== src/PageFile/Removal.antt =====
-- pf_remove_env_page takes one page out of the page file.
use fos_project.Paging.{pdx, ptx}
use fos_project.Prelude.{
  Option-cases, ℕ, ◌≡◌, refl, sym, ap, ◌∙◌, ◌⊎◌, inl, inr, Option, none, some,
}
use fos_project.PageFile.{Env, set_at, table_of, dfn_of, write_dir, pf_remove_env_page}
use fos_project.PageFile.Slots.{Slot, page_slot, slot_dec, table_entry, dir_entry, frame_in}
use fos_project.PageFile.Ownership.{
  write_dir-Changes, remove_page-eq, remove_page-absent, remove_page-none,
}
use mathlib.Core.Path.{subst⁻¹}

module _ {C D : Type 0} where
  dfn_of-frame_in : (a : ℕ) (e : Env C D) → dfn_of a e ≡ frame_in e (page_slot (pdx a) (ptx a))
  unfolding dfn_of table_of
  dfn_of-frame_in a e = go e.disk_env_pgdir
    where
      inner :
          (t : Option (ℕ → ℕ)) → (elim t [ none ↦ 0 | some u ↦ u (ptx a) ]) ≡ table_entry t (ptx a)
      inner none = refl
      inner (some u) = refl

      go :
          (o : Option (ℕ → Option (ℕ → ℕ)))
          → (elim (elim o as (λ x. Option (ℕ → ℕ)) [ none ↦ none | some dir ↦ dir (pdx a) ]) [
            | none ↦ 0
            | some u ↦ u (ptx a)
          ])
            ≡ dir_entry o (pdx a) (ptx a)
      go none = refl
      go (some dir) = inner (dir (pdx a))

  -- Nothing but the page's own entry changes, and that is 0 afterwards.
  abbrev Removes : ℕ → Env C D → Env C D → Type 0
  Removes b e e' =
      (frame_in e' (page_slot (pdx b) (ptx b)) ≡ 0)
      × ((p : Slot) → (frame_in e' p ≡ frame_in e p) ⊎ (frame_in e' p ≡ 0))

  pf_remove_env_page-Removes : (b : ℕ) (e : Env C D) → Removes b e (pf_remove_env_page b e)
  pf_remove_env_page-Removes b e = elim (Option-cases e.disk_env_pgdir) [
    | inl h ↦
        subst⁻¹ (Removes b e) (remove_page-none b e h)
          (ap (λ o. dir_entry o (pdx b) (ptx b)) h, λ p. inl refl)
    | inr (dir, h) ↦ elim (Option-cases (dir (pdx b))) [
      | inl k ↦ subst⁻¹ (Removes b e) (remove_page-absent b dir e h k) (
        ap (λ o. dir_entry o (pdx b) (ptx b)) h ∙ ap (λ t. table_entry t (ptx b)) k,
        λ p. inl refl,
      )
      | inr (t, k) ↦ subst⁻¹ (Removes b e) (remove_page-eq b dir t e h k) (
        (write_dir-Changes b 0 dir t e h k).at_slot,
        λ p. elim (slot_dec p (page_slot (pdx b) (ptx b))) [
          | yes s ↦ inr (
              ap (frame_in (write_dir dir b (set_at t (ptx b) 0) e)) s
              ∙ (write_dir-Changes b 0 dir t e h k).at_slot)
          | no s ↦ inl ((write_dir-Changes b 0 dir t e h k).elsewhere p s)
        ],
      )
    ]
  ]

  -- After pf_remove_env_page of a page, the page has no frame in the page file.
  pub dfn_of-pf_remove_env_page : (b : ℕ) (e : Env C D) → dfn_of b (pf_remove_env_page b e) ≡ 0
  dfn_of-pf_remove_env_page b e =
      dfn_of-frame_in b (pf_remove_env_page b e) ∙ (pf_remove_env_page-Removes b e).0

  -- A page without a frame has none after another page is removed.
  pub dfn_of-pf_remove_other :
      (a b : ℕ) (e : Env C D) → dfn_of a e ≡ 0 → dfn_of a (pf_remove_env_page b e) ≡ 0
  dfn_of-pf_remove_other a b e h =
      elim ((pf_remove_env_page-Removes b e).1 (page_slot (pdx a) (ptx a))) [
        | inl s ↦ dfn_of-frame_in a (pf_remove_env_page b e) ∙ s ∙ sym (dfn_of-frame_in a e) ∙ h
        | inr z ↦ dfn_of-frame_in a (pf_remove_env_page b e) ∙ z
      ]
