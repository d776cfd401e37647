-- ===== src/TimeStamps/Ageing.antt =====
-- Ageing the pages of a working set.
use fos_project.TimeStamps.Visits.{
  was_used, stamp_after, HasEntries, Others, AllOthers, Ticked, Visited, cleared, cleared-Visited,
  same-Visited, visited-HasEntries, visited-Ticked,
}
use fos_project.Prelude.Words.{u32_mod}
use fos_project.Prelude.{
  if◌then◌else◌, Bool-cases, eq→==, ne→==, ok, ◌>>=◌, ℕ, ◌/◌, ◌%◌, ◌^◌, ◌<◌, ◌≡◌, refl, sym, ◌∙◌,
  ◌≢◌, inl, inr, true, false, List, [], ◌∷◌, arith, ℕ_discrete,
}
use fos_project.Paging.{Paging, Machine, pdx, is_present, permissions_of, entry_at}
use fos_project.Paging.Permissions.{get_permissions-present, clear_used}
use fos_project.WorkingSet.{Element}
use fos_project.TimeStamps.{aged_stamp, age, age_page, visit_page, age_pages}
use mathlib.Core.Path.{subst⁻¹}

module _ (m : Machine) where
  empty-eq : (x : Element) (p : Paging) → x.empty ≡ true → visit_page m x p ≡ ok (x, p)
  unfolding visit_page
  empty-eq x p h = rw h refl

  used-eq :
      (x : Element) (p : Paging)
      → x.empty ≡ false
      → is_present (p.directory (pdx x.virtual_address)) ≡ true
      → entry_at x.virtual_address p < u32_mod
      → entry_at x.virtual_address p / 32 % 2 ≡ 1
      → visit_page m x p ≡ ok (age true x, cleared x p)
  unfolding visit_page age_page
  used-eq x p e h b u =
      rw (e, get_permissions-present m x.virtual_address p h)
        (rw
          (
            eq→== (permissions_of (entry_at x.virtual_address p) / 32 % 2) 1 (omega (arith, u)),
            clear_used m x.virtual_address p h b,
          )
          refl)

  unused-eq :
      (x : Element) (p : Paging)
      → x.empty ≡ false
      → is_present (p.directory (pdx x.virtual_address)) ≡ true
      → entry_at x.virtual_address p / 32 % 2 ≢ 1
      → visit_page m x p ≡ ok (age false x, p)
  unfolding visit_page age_page
  unused-eq x p e h u =
      rw (e, get_permissions-present m x.virtual_address p h)
        (rw
          (ne→== (permissions_of (entry_at x.virtual_address p) / 32 % 2) 1
            (λ a. u (omega (arith, a))))
          refl)

  then-Ticked :
      (x x' : Element) (p p1 : Paging) (rest : List Element)
      → visit_page m x p ≡ ok (x', p1)
      → x'
        ≡ (if x.empty then x else record x { time_stamp = stamp_after (was_used p x) x.time_stamp })
      → Visited x p p1
      → Others x rest
      → Ticked p1 rest (age_pages m rest p1)
      → Ticked p (x ∷ rest) (age_pages m (x ∷ rest) p)
  unfolding age_pages
  then-Ticked x x' p p1 rest e a v o h =
      subst⁻¹
        (λ r.
          Ticked p (x ∷ rest) (r >>= λ (y, q). age_pages m rest q >>= λ (ys, q'). ok (y ∷ ys, q')))
        e (visited-Ticked x p p1 v x' rest (age_pages m rest p1) o a h)

  -- The working set has no page twice, the page tables of its pages are in memory and their entries are
  -- words. Then ageing it returns. The time stamp of a page is divided by 4, and 2^31 is added if the
  -- page's own used bit was set before the tick; empty entries stay. Afterwards no page of the working
  -- set has its used bit, the rest of its page table entry is as before, and so are the entries of all
  -- other pages.
  pub age_pages-Ticked :
      (xs : List Element) (p : Paging)
      → AllOthers xs
      → HasEntries p xs
      → Ticked p xs (age_pages m xs p)
  unfolding age_pages aged_stamp
  age_pages-Ticked [] p o h = (refl, tt, λ va c. refl)
  age_pages-Ticked (x ∷ rest) p (o, os) (h, hs) = elim (Bool-cases x.empty) [
    | inl e ↦
        let v = same-Visited x p (λ a. absurd (true-false (sym e ∙ a))) in
        then-Ticked x x p p rest (empty-eq x p e) (rw e refl) v o (age_pages-Ticked rest p os hs)
    | inr e ↦ elim (ℕ_discrete (entry_at x.virtual_address p / 32 % 2) 1) [
      | yes u ↦
          let v = cleared-Visited x p e in
          then-Ticked x (age true x) p (cleared x p) rest (used-eq x p e (h e).0 (h e).1 u)
            (rw (e, eq→== (entry_at x.virtual_address p / 32 % 2) 1 u) refl) v o
            (age_pages-Ticked rest (cleared x p) os
              (visited-HasEntries x p (cleared x p) v rest o hs))
      | no u ↦
          then-Ticked x (age false x) p p rest (unused-eq x p e (h e).0 u)
            (rw (e, ne→== (entry_at x.virtual_address p / 32 % 2) 1 u) refl)
            (same-Visited x p (λ a. u)) o (age_pages-Ticked rest p os hs)
    ]
  ]
    where
      true-false : true ≡ false → ⊥
      true-false q = cc

-- A time stamp below 2^32 stays below 2^32; that of a page that was used is 2^31 or more and so above
-- that of every page that was not used, which is below 2^30.
aged_stamp-bounds :
    (a b : ℕ)
    → a < u32_mod
    → b < u32_mod
    → (aged_stamp true a < u32_mod)
      × (aged_stamp false b < 2 ^ 30)
      × (aged_stamp false b < aged_stamp true a)
unfolding aged_stamp
aged_stamp-bounds a b h k = (omega (arith, h), omega (arith, k), omega (arith, h, k))
