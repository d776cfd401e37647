-- ===== src/PageFault/Clock.antt =====
-- A sweep of the clock that finds no victim has cleared the used bits.
use fos_project.PageFault.Evicting.{Evicted}
use mathlib.Core.Path.{subst}
use fos_project.Prelude.{
  if◌then◌else◌, length, ok, Returning, then_Returning, weaken_Returning, ℕ, zero, suc, ◌+◌, ◌-◌,
  ◌≤◌, ◌<◌, ◌≡◌, refl, ◌∙◌, ◌⊎◌, inl, inr, Bool, true, false, arith, ℕ_discrete,
}
use fos_project.Paging.{Machine}
use fos_project.PageFile.{Ide}
use fos_project.PageFault.{FaultEnv, visit, scan, sweep}
use fos_project.PageFault.Rounds.{HasTables, Before, Cleared, visit-Cleared}

module _ {C D : Type 0} (m : Machine) (ide : Ide C D) (fault_va : ℕ) where
  -- the entries from `i` on that a scan sees
  abbrev From : (ℕ → Type 0) → ℕ → ℕ → ℕ → Type 0
  From seen n i j = seen j ⊎ ((i ≤ j) × (j < i + n))

  From-next :
      (seen : ℕ → Type 0) (n i j : ℕ)
      → From seen (suc n) i j
      → From (λ k. seen k ⊎ (k ≡ i)) n (i + 1) j
  From-next seen n i j (inl a) = inl (inl a)
  From-next seen n i j (inr (a, b)) = elim (ℕ_discrete j i) [
    | yes c ↦ inl (inr c)
    | no c ↦ inr (omega (arith, c), omega (arith, b))
  ]

  lift-Cleared :
      (seen more : ℕ → Type 0) (e e' : FaultEnv C D) (r : Bool × FaultEnv C D)
      → ((j : ℕ) → seen j → more j)
      → e'.pages ≡ e.pages
      → e'.page_last_ws_index ≡ e.page_last_ws_index
      → Cleared m ide fault_va more e' r
      → Cleared m ide fault_va seen e r
  lift-Cleared seen more e e' (true, x) f p h c = subst (λ ps. Evicted m ide fault_va ps x) p c
  lift-Cleared seen more e e' (false, x) f p h (q, k, t, s) = (q ∙ p, k ∙ h, t, λ j a. s j (f j a))

  scan-Cleared :
      (n i : ℕ) (seen : ℕ → Type 0) (e : FaultEnv C D)
      → Before seen e
      → Returning (Cleared m ide fault_va (From seen n i) e) (scan m ide n i fault_va e)
  unfolding scan
  scan-Cleared zero i seen e (t, s) =
      (refl, refl, t, λ j o. elim o [ inl a ↦ s j a | inr (a, b) ↦ absurd (omega (arith, a, b)) ])
  scan-Cleared (suc n) i seen e b =
      then_Returning (Cleared m ide fault_va (λ j. seen j ⊎ (j ≡ i)) e)
        (Cleared m ide fault_va (From seen (suc n) i) e) (visit m ide i fault_va e)
        (λ (found, e'). if found then ok (true, e') else scan m ide n (i + 1) fault_va e')
        (visit-Cleared m ide fault_va i seen e b)
        (next (λ e'. scan-Cleared n (i + 1) (λ k. seen k ⊎ (k ≡ i)) e'))
    where
      next :
          ((e' : FaultEnv C D)
            → Before (λ k. seen k ⊎ (k ≡ i)) e'
            → Returning
                (Cleared m ide fault_va (From (λ k. seen k ⊎ (k ≡ i)) n (i + 1)) e')
                (scan m ide n (i + 1) fault_va e'))
          → (r : Bool × FaultEnv C D) → Cleared m ide fault_va (λ j. seen j ⊎ (j ≡ i)) e r
          → Returning
              (Cleared m ide fault_va (From seen (suc n) i) e)
              (if r.0 then ok (true, r.1) else scan m ide n (i + 1) fault_va r.1)
      next rest (true, e') c = c
      next rest (false, e') (p, h, t, s) =
          weaken_Returning (Cleared m ide fault_va (From (λ k. seen k ⊎ (k ≡ i)) n (i + 1)) e')
            (Cleared m ide fault_va (From seen (suc n) i) e) (scan m ide n (i + 1) fault_va e')
            (rest e' (t, s))
            (λ r.
              lift-Cleared (From seen (suc n) i) (From (λ k. seen k ⊎ (k ≡ i)) n (i + 1)) e e' r
                (From-next seen n i) p h)

  -- A sweep without a victim has cleared the used bit at the hand.
  pub sweep-Cleared :
      (e : FaultEnv C D)
      → HasTables e
      → e.page_last_ws_index < length e.pages
      → Returning
          (Cleared m ide fault_va (λ j. j ≡ e.page_last_ws_index) e)
          (sweep m ide fault_va e)
  unfolding sweep
  sweep-Cleared e t b =
      then_Returning (Cleared m ide fault_va first e)
        (Cleared m ide fault_va (λ j. j ≡ e.page_last_ws_index) e)
        (scan m ide (length e.pages - e.page_last_ws_index) e.page_last_ws_index fault_va e)
        (λ (found, e').
          if found then ok (true, e') else scan m ide e'.page_last_ws_index 0 fault_va e')
        (scan-Cleared (length e.pages - e.page_last_ws_index) e.page_last_ws_index (λ j. ⊥) e
          (t, λ j a. absurd a))
        next
    where
      first : ℕ → Type 0
      first = From (λ j. ⊥) (length e.pages - e.page_last_ws_index) e.page_last_ws_index

      next :
          (r : Bool × FaultEnv C D)
          → Cleared m ide fault_va first e r
          → Returning
              (Cleared m ide fault_va (λ j. j ≡ e.page_last_ws_index) e)
              (if r.0 then ok (true, r.1) else scan m ide r.1.page_last_ws_index 0 fault_va r.1)
      next (true, e') c = c
      next (false, e') (p, h, t', s) =
          weaken_Returning (Cleared m ide fault_va (From first e'.page_last_ws_index 0) e')
            (Cleared m ide fault_va (λ j. j ≡ e.page_last_ws_index) e)
            (scan m ide e'.page_last_ws_index 0 fault_va e')
            (scan-Cleared e'.page_last_ws_index 0 first e' (t', s))
            (λ r.
              lift-Cleared (λ j. j ≡ e.page_last_ws_index) (From first e'.page_last_ws_index 0) e e'
                r (λ j a. inl (inr (omega (arith, a), omega (arith, a, b)))) p h)
