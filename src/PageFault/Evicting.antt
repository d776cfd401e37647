-- ===== src/PageFault/Evicting.antt =====
-- The victim of the clock gives its entry and its mapping to the page that was not there.
use mathlib.Core.Path.{subst}
use fos_project.PageFault.{FaultEnv, set_paging, placment, write_back, evict}
use fos_project.PageFile.{Ide, pf_update_env_page}
use fos_project.Paging.{Paging, Machine, unmap_frame}
use fos_project.WorkingSet.{
  Element, cleared_element, ws_size, ws_clear_entry, env_page_ws_get_size, env_page_ws_clear_entry,
  env_page_ws_get_virtual_address,
}
use fos_project.Prelude.{
  ltb, if◌then◌else◌, ltb→lt, Bool-cases, length, set, length-set, Result, panic, ok, ◌>>=◌,
  Returning, then_Returning, always_Returning, weaken_Returning, ℕ, zero, suc, ◌≤◌, ◌<◌, ◌≡◌, refl,
  sym, ap, ◌∙◌, inl, inr, Bool, true, false, Option, none, some, List, [], ◌∷◌, arith,
}

-- no more pages than entries
size-bound : (ws : List Element) → ws_size ws ≤ length ws
unfolding ws_size
size-bound [] = omega arith
size-bound (x ∷ ws) = elim (Bool-cases x.empty) [
  | inl e ↦ rw e (omega (arith, size-bound ws))
  | inr e ↦ rw e (omega (arith, size-bound ws))
]

cleared-size :
    (i : ℕ) (ws : List Element) → i < length ws → ws_size (set ws i cleared_element) < length ws
unfolding ws_size
cleared-size i [] h = absurd (omega (arith, h))
cleared-size zero (x ∷ ws) h = omega (arith, size-bound ws)
cleared-size (suc i) (x ∷ ws) h = elim (Bool-cases x.empty) [
  | inl e ↦ rw e (omega (arith, cleared-size i ws (omega (arith, h))))
  | inr e ↦ rw e (omega (arith, cleared-size i ws (omega (arith, h))))
]

-- A cleared entry makes room.
clear_entry-room :
    (i : ℕ) (ws ws' : List Element)
    → env_page_ws_clear_entry i ws ≡ ok ws'
    → env_page_ws_get_size ws' < length ws'
unfolding env_page_ws_get_size env_page_ws_clear_entry ws_clear_entry
clear_entry-room i ws ws' h = elim (Bool-cases (ltb i (length ws))) [
  | inl e ↦
      subst (λ v. ws_size v < length v)
        (ok-injective (sym (ap (λ b. if b then ok (set ws i cleared_element) else panic) e) ∙ h))
        (omega (arith, cleared-size i ws (ltb→lt i (length ws) e), length-set ws i cleared_element))
  | inr e ↦
      absurd (panic-ok (sym (ap (λ b. if b then ok (set ws i cleared_element) else panic) e) ∙ h))
]
  where
    ok-injective : ok (set ws i cleared_element) ≡ ok ws' → set ws i cleared_element ≡ ws'
    ok-injective q = cc

    panic-ok : panic ≡ ok ws' → ⊥
    panic-ok q = cc

self_Returning {ℓ} : {V : Type ℓ} (r : Result V) → Returning (λ v. r ≡ ok v) r
self_Returning panic = tt
self_Returning (ok v) = refl

module _ {C D : Type 0} (m : Machine) (ide : Ide C D) (fault_va : ℕ) where
  -- `e'` is what placment makes of a state `x` with room in the working set, which is `ps` with one entry
  -- cleared. The clock hand of `x` stands at this entry, and the page that it held is unmapped.
  abbrev pub Evicted : List Element → FaultEnv C D → Type 0
  Evicted ps e' =
      (x : FaultEnv C D) × (va : ℕ) × (p : Paging) × (env_page_ws_get_virtual_address
          x.page_last_ws_index ps
        ≡ ok va)
      × (env_page_ws_clear_entry x.page_last_ws_index ps ≡ ok x.pages)
      × (x.file.paging ≡ unmap_frame m va p)
      × (env_page_ws_get_size x.pages < length x.pages)
      × (placment m ide fault_va x ≡ ok e')

  write_back-pages :
      (va : ℕ) (modified : Bool) (frame : Option ℕ) (e : FaultEnv C D)
      → Returning (λ e'. e'.pages ≡ e.pages) (write_back m ide va modified frame e)
  unfolding write_back
  write_back-pages va false frame e = refl
  write_back-pages va true none e = tt
  write_back-pages va true (some f) e =
      then_Returning (λ r. Unit) (λ e'. e'.pages ≡ e.pages) (pf_update_env_page m ide va f e.file)
        (λ (r, file). ok (record e { file = file }))
        (always_Returning (λ r. Unit) (pf_update_env_page m ide va f e.file) (λ r. tt))
        (λ r u. refl)

  pub evict-Evicted :
      (i va : ℕ) (modified : Bool) (frame : Option ℕ) (e : FaultEnv C D)
      → env_page_ws_get_virtual_address i e.pages ≡ ok va
      → Returning (Evicted e.pages) (evict m ide i va fault_va modified frame e)
  unfolding evict
  evict-Evicted i va modified frame e h =
      then_Returning (λ e'. e'.pages ≡ e.pages) (Evicted e.pages)
        (write_back m ide va modified frame e)
        (λ e1. env_page_ws_clear_entry i e1.pages >>= λ ws.
          placment m ide fault_va (record (set_paging (unmap_frame m va e1.file.paging) e1) {
            pages = ws;
            page_last_ws_index = i;
          }))
        (write_back-pages va modified frame e)
        (λ e1 q. go e1 q (env_page_ws_clear_entry i e1.pages) refl)
    where
      go :
          (e1 : FaultEnv C D)
          → e1.pages ≡ e.pages
          → (r : Result (List Element)) → env_page_ws_clear_entry i e1.pages ≡ r
          → Returning (Evicted e.pages) (
              r >>= λ ws.
              placment m ide fault_va (record (set_paging (unmap_frame m va e1.file.paging) e1) {
                pages = ws;
                page_last_ws_index = i;
              }))
      go e1 q panic c = tt
      go e1 q (ok ws) c =
          let x = record (set_paging (unmap_frame m va e1.file.paging) e1) {
            pages = ws;
            page_last_ws_index = i;
          } in
          weaken_Returning (λ e'. placment m ide fault_va x ≡ ok e') (Evicted e.pages)
            (placment m ide fault_va x) (self_Returning (placment m ide fault_va x))
            (λ e' t. (
              x,
              va,
              e1.file.paging,
              h,
              sym (ap (env_page_ws_clear_entry i) q) ∙ c,
              refl,
              clear_entry-room i e1.pages ws c,
              t,
            ))
