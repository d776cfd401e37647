-- ===== src/UserMem/Freed.antt =====
-- What free_user_mem leaves in the working set and in the page file.
use fos_project.PageFile.Removal.{dfn_of-pf_remove_env_page, dfn_of-pf_remove_other}
use fos_project.Prelude.Words.{u32_mod, add32, page_size, rounddown, roundup, add32-eq}
use fos_project.Chunk.{pages_between}
use fos_project.UserMem.{free_entries, free_page, free_pages, free_range, free_user_mem}
use fos_project.Prelude.{
  length, ok, Returns, then_Returns, ℕ, zero, suc, ◌+◌, ◌*◌, ◌<◌, ◌≡◌, refl, ap, ◌∙◌, arith,
}
use fos_project.Paging.{Machine}
use fos_project.PageFile.{Env, table_of, dfn_of}
use fos_project.PageFault.{FaultEnv}
use fos_project.PageFile.Slots.{IsOwned}
use fos_project.PageFile.Ownership.{pf_remove_env_page-IsOwned}
use mathlib.Core.Path.{subst}
use fos_project.UserMem.Entries.{get_elem?-bound, Before, AllOutside, free_entries-Before}

-- The pages of the range in the page file.
module _ {C D : Type 0} (m : Machine) where
  free_page-kept : (a b : ℕ) (e : Env C D) → dfn_of a e ≡ 0 → dfn_of a (free_page m b e) ≡ 0
  unfolding free_page dfn_of table_of
  free_page-kept a b e h = dfn_of-pf_remove_other a b e h

  free_page-gone : (b : ℕ) (e : Env C D) → dfn_of b (free_page m b e) ≡ 0
  unfolding free_page dfn_of table_of
  free_page-gone b e = dfn_of-pf_remove_env_page b e

  free_pages-kept : (n a va : ℕ) (e : Env C D) → dfn_of a e ≡ 0 → dfn_of a (free_pages m n va e) ≡ 0
  unfolding free_pages
  free_pages-kept zero a va e h = h
  free_pages-kept (suc n) a va e h =
      free_pages-kept n a (add32 va page_size) (free_page m va e) (free_page-kept a va e h)

  free_pages-gone :
      (n k va : ℕ) (e : Env C D)
      → k < n
      → va + 4096 * n < u32_mod
      → dfn_of (va + 4096 * k) (free_pages m n va e) ≡ 0
  unfolding free_pages
  free_pages-gone zero k va e h b = absurd (omega (arith, h))
  free_pages-gone (suc n) zero va e h b =
      ap (λ a. dfn_of a (free_pages m n (add32 va page_size) (free_page m va e))) (omega arith)
      ∙ free_pages-kept n va (add32 va page_size) (free_page m va e) (free_page-gone va e)
  free_pages-gone (suc n) (suc k) va e h b =
      ap (λ a. dfn_of a (free_pages m n (add32 va page_size) (free_page m va e))) (omega arith)
      ∙ ap (λ v. dfn_of (va + 4096 + 4096 * k) (free_pages m n v (free_page m va e)))
          (add32-eq va page_size (omega (arith, b)))
      ∙ free_pages-gone n k (va + 4096) (free_page m va e) (omega (arith, h)) (omega (arith, b))

  free_pages-IsOwned : (n va : ℕ) (e : Env C D) → IsOwned e → IsOwned (free_pages m n va e)
  unfolding free_pages free_page
  free_pages-IsOwned zero va e o = o
  free_pages-IsOwned (suc n) va e o =
      free_pages-IsOwned n (add32 va page_size) (free_page m va e)
        (pf_remove_env_page-IsOwned va e o)

  -- What is left of a range: no page of it in the working set, none in the page file, and the disk
  -- frames that are in use still apart.
  abbrev pub Freed : ℕ → ℕ → FaultEnv C D → Type 0
  Freed va size e =
      AllOutside m va size e
      × ((k : ℕ) → k < pages_between va (add32 va size) → dfn_of (va + 4096 * k) e.file ≡ 0)
      × IsOwned e.file

  free_range-Freed :
      (va size : ℕ) (e : FaultEnv C D)
      → va + size + 4096 < u32_mod
      → IsOwned e.file
      → Returns (Freed va size) (free_range m va size e)
  unfolding free_range
  free_range-Freed va size e b o =
      then_Returns (Before m va size n n) (Freed va size) (free_entries m n 0 va size e)
        (λ e'. ok (record e' { file = free_pages m pages va e'.file }))
        (subst (λ i. Returns (Before m va size n i) (free_entries m n 0 va size e)) (omega arith)
          (free_entries-Before m va size n n 0 e (refl, (λ i x l g. absurd (omega (arith, l))), o)
            (omega arith)))
        (λ e' (l, w, o'). (
          (λ i x g. w i x (subst (λ k. i < k) l (get_elem?-bound e'.pages i x g)) g),
          (λ k h. free_pages-gone pages k va e'.file h (omega (arith, b))),
          free_pages-IsOwned pages va e'.file o',
        ))
    where
      n : ℕ
      n = length e.pages

      pages : ℕ
      pages = pages_between va (add32 va size)

  -- The disk frames in use are apart, and the range, rounded to pages, ends more than a page below
  -- 2^32. Then free_user_mem returns; no entry of the working set is of a page of the range, no page
  -- of the range has a frame in the page file, and the disk frames in use are still apart.
  pub free_user_mem-Freed :
      (va size : ℕ) (e : FaultEnv C D)
      → rounddown va + roundup size + 4096 < u32_mod
      → IsOwned e.file
      → Returns (Freed (rounddown va) (roundup size)) (free_user_mem m va size e)
  unfolding free_user_mem
  free_user_mem-Freed va size e b o = free_range-Freed (rounddown va) (roundup size) e b o
