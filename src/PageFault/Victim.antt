-- ===== src/PageFault/Victim.antt =====
-- The clock finds a victim in two sweeps.
use fos_project.PageFault.Evicting.{Evicted, evict-Evicted}
use fos_project.WorkingSet.{Element, env_page_ws_get_size, env_page_ws_get_virtual_address}
use mathlib.Core.Path.{subst, subst⁻¹}
use fos_project.Prelude.{
  ltb, if◌then◌else◌, length, Result, panic, ok, ◌>>=◌, Returning, then_Returning, ℕ, zero, suc,
  ◌+◌, ◌-◌, ◌<◌, ◌≡◌, refl, ◌∙◌, Bool, true, false, some, List, arith,
}
use fos_project.Paging.{Machine, permissions_of, entry_at, get_frame_info}
use fos_project.PageFile.{Ide}
use fos_project.PageFault.{
  FaultEnv, bit_set, set_paging, placment, evict, with_frame, visit, scan, sweep, replace,
  page_fault_handler,
}
use fos_project.PageFault.Rounds.{
  HasTables, Unused, get_frame_info-same, Cleared, with_frame-eq, unused-eq,
}
use fos_project.PageFault.Clock.{sweep-Cleared}

false-true : false ≡ true → ⊥
false-true e = cc

module _ {C D : Type 0} (m : Machine) (ide : Ide C D) (fault_va : ℕ) where
  -- the loop has come to its end with a victim
  abbrev Found : List Element → Bool × FaultEnv C D → Type 0
  Found ps (found, e') = (found ≡ true) × Evicted m ide fault_va ps e'

  visit-Found :
      (i : ℕ) (e : FaultEnv C D)
      → HasTables e
      → Unused i e
      → Returning (Found e.pages) (visit m ide i fault_va e)
  unfolding visit
  visit-Found i e t u = go (env_page_ws_get_virtual_address i e.pages) refl
    where
      go :
          (r : Result ℕ)
          → env_page_ws_get_virtual_address i e.pages ≡ r
          → Returning
              (Found e.pages)
              (r >>= λ va. with_frame m ide i va fault_va (get_frame_info m va e.file.paging) e)
      go panic h = tt
      go (ok va) h =
          subst⁻¹ (Returning (Found e.pages))
            (with_frame-eq m ide fault_va i va (get_frame_info m va e.file.paging) e (t i va h).0
                (get_frame_info-same m va e.file.paging (t i va h).0)
              ∙ unused-eq m ide fault_va i va (get_frame_info m va e.file.paging).0 e
                  (λ a. omega (arith, a, u va h)))
            (then_Returning (Evicted m ide fault_va e.pages) (Found e.pages)
              (evict m ide i va fault_va
                (bit_set 64 (some (permissions_of (entry_at va e.file.paging))))
                (get_frame_info m va e.file.paging).0 (set_paging e.file.paging e))
              (λ e'. ok (true, e'))
              (evict-Evicted m ide fault_va i va
                (bit_set 64 (some (permissions_of (entry_at va e.file.paging))))
                (get_frame_info m va e.file.paging).0 (set_paging e.file.paging e) h)
              (λ e' c. (refl, c)))

  scan-Found :
      (n i : ℕ) (e : FaultEnv C D)
      → 0 < n
      → HasTables e
      → Unused i e
      → Returning (Found e.pages) (scan m ide n i fault_va e)
  unfolding scan
  scan-Found zero i e h t u = absurd (omega (arith, h))
  scan-Found (suc n) i e h t u =
      then_Returning (Found e.pages) (Found e.pages) (visit m ide i fault_va e)
        (λ (found, e'). if found then ok (true, e') else scan m ide n (i + 1) fault_va e')
        (visit-Found i e t u) next
    where
      next :
          (r : Bool × FaultEnv C D)
          → Found e.pages r
          → Returning
              (Found e.pages)
              (if r.0 then ok (true, r.1) else scan m ide n (i + 1) fault_va r.1)
      next (true, e') c = c
      next (false, e') c = absurd (false-true c.0)

  sweep-Found :
      (e : FaultEnv C D)
      → HasTables e
      → e.page_last_ws_index < length e.pages
      → Unused e.page_last_ws_index e
      → Returning (Found e.pages) (sweep m ide fault_va e)
  unfolding sweep
  sweep-Found e t b u =
      then_Returning (Found e.pages) (Found e.pages)
        (scan m ide (length e.pages - e.page_last_ws_index) e.page_last_ws_index fault_va e)
        (λ (found, e').
          if found then ok (true, e') else scan m ide e'.page_last_ws_index 0 fault_va e')
        (scan-Found (length e.pages - e.page_last_ws_index) e.page_last_ws_index e
          (omega (arith, b)) t u)
        next
    where
      next :
          (r : Bool × FaultEnv C D)
          → Found e.pages r
          → Returning
              (Found e.pages)
              (if r.0 then ok (true, r.1) else scan m ide r.1.page_last_ws_index 0 fault_va r.1)
      next (true, e') c = c
      next (false, e') c = absurd (false-true c.0)

  replace_again :
      (fuel : ℕ) (e e' : FaultEnv C D)
      → HasTables e'
      → e.page_last_ws_index < length e.pages
      → e'.pages ≡ e.pages
      → e'.page_last_ws_index ≡ e.page_last_ws_index
      → Unused e.page_last_ws_index e'
      → Returning (Found e'.pages) (replace m ide (suc fuel) fault_va e')
  unfolding replace
  replace_again fuel e e' t b p h u =
      then_Returning (Found e'.pages) (Found e'.pages) (sweep m ide fault_va e')
        (λ (found, x). if found then ok (true, x) else replace m ide fuel fault_va x)
        (sweep-Found e' t
          (subst⁻¹ (λ x. x < length e'.pages) h
            (subst⁻¹ (λ x. e.page_last_ws_index < length x) p b))
          (subst⁻¹ (λ x. Unused x e') h u))
        next
    where
      next :
          (r : Bool × FaultEnv C D)
          → Found e'.pages r
          → Returning
              (Found e'.pages)
              (if r.0 then ok (true, r.1) else replace m ide fuel fault_va r.1)
      next (true, x) c = c
      next (false, x) c = absurd (false-true c.0)

  replace-Found :
      (fuel : ℕ) (e : FaultEnv C D)
      → HasTables e
      → e.page_last_ws_index < length e.pages
      → Returning (Found e.pages) (replace m ide (suc (suc fuel)) fault_va e)
  unfolding replace
  replace-Found fuel e t b =
      then_Returning (Cleared m ide fault_va (λ j. j ≡ e.page_last_ws_index) e) (Found e.pages)
        (sweep m ide fault_va e)
        (λ (found, e'). if found then ok (true, e') else replace m ide (suc fuel) fault_va e')
        (sweep-Cleared m ide fault_va e t b) next
    where
      next :
          (r : Bool × FaultEnv C D)
          → Cleared m ide fault_va (λ j. j ≡ e.page_last_ws_index) e r
          → Returning
              (Found e.pages)
              (if r.0 then ok (true, r.1) else replace m ide (suc fuel) fault_va r.1)
      next (true, e') c = (refl, c)
      next (false, e') (p, h, t', s) =
          subst (λ ps. Returning (Found ps) (replace m ide (suc fuel) fault_va e')) p
            (replace_again fuel e e' t' b p h (s e.page_last_ws_index refl))

  -- The handler has come to its end by placment: at once where there is room, and else after one
  -- entry was given up.
  abbrev pub Placed : FaultEnv C D → Bool × FaultEnv C D → Type 0
  Placed e (found, e') =
      (found ≡ true)
      × (if ltb (env_page_ws_get_size e.pages) (length e.pages)
          then (placment m ide fault_va e ≡ ok e')
          else Evicted m ide fault_va e.pages e')

  handler-Placed :
      (b : Bool) (e : FaultEnv C D) (r : Result (Bool × FaultEnv C D))
      → Returning (Found e.pages) r
      → Returning
          (λ (found, e').
            (found ≡ true)
            × (if b
                then (placment m ide fault_va e ≡ ok e')
                else Evicted m ide fault_va e.pages e'))
          (if b then (placment m ide fault_va e >>= λ e'. ok (true, e')) else r)
  handler-Placed true e r h = go (placment m ide fault_va e)
    where
      go :
          (q : Result (FaultEnv C D))
          → Returning (λ (found, e'). (found ≡ true) × (q ≡ ok e')) (q >>= λ e'. ok (true, e'))
      go panic = tt
      go (ok e') = (refl, refl)
  handler-Placed false e r h = h

  -- The page table of every page of the working set is in memory and the clock hand is at an entry.
  -- Then two rounds of the `while` are enough: whatever the fuel is from 2 on, the page fault handler
  -- does not run out of it. It panics or comes to an end, and then its result is that of placment of the
  -- faulting address: where the working set has room, in the state that the handler was called in; else
  -- in a state with room whose working set is the old one with the entry at the clock hand cleared, and
  -- from which the page of that entry was unmapped. What placment itself does is not part of this.
  pub page_fault_handler-Found :
      (fuel : ℕ) (e : FaultEnv C D)
      → HasTables e
      → e.page_last_ws_index < length e.pages
      → Returning (Placed e) (page_fault_handler m ide (suc (suc fuel)) fault_va e)
  unfolding page_fault_handler
  page_fault_handler-Found fuel e t b =
      handler-Placed (ltb (env_page_ws_get_size e.pages) (length e.pages)) e
        (replace m ide (suc (suc fuel)) fault_va e) (replace-Found fuel e t b)
