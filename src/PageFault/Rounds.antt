-- ===== src/PageFault/Rounds.antt =====
-- One round of the clock: what it knows of the pages that it has passed.
use fos_project.PageFault.Evicting.{Evicted, evict-Evicted}
use fos_project.Prelude.Words.{u32_mod}
use fos_project.WorkingSet.{env_page_ws_get_virtual_address}
use mathlib.Core.Path.{subst, subst⁻¹}
use fos_project.Prelude.{
  eq→==, ne→==, Result, panic, ok, ◌>>=◌, Returning, then_Returning, ℕ, ◌/◌, ◌%◌, ◌<◌, ◌≡◌, refl,
  ap, ◌∙◌, ◌≢◌, ◌⊎◌, inl, inr, Bool, true, false, Option, some, arith, ℕ_discrete,
}
use fos_project.Paging.{
  Paging, Machine, pdx, ptx, is_present, permissions_of, put_entry, entry_at, frame_at,
  get_page_table, get_frame_info, pt_get_page_permissions,
}
use fos_project.Paging.Permissions.{get_permissions-present, unused, clear_used}
use fos_project.PageFile.{Ide}
use fos_project.PageFault.{FaultEnv, bit_set, set_paging, evict, inspect, with_frame, visit}

module _ {C D : Type 0} where
  -- The page table of every entry is in memory, and its entry for the page is a 32-bit word.
  abbrev pub HasTables : FaultEnv C D → Type 0
  HasTables e =
      (i va : ℕ)
      → env_page_ws_get_virtual_address i e.pages ≡ ok va
      → (is_present (e.file.paging.directory (pdx va)) ≡ true)
        × (entry_at va e.file.paging < u32_mod)

  abbrev pub Unused : ℕ → FaultEnv C D → Type 0
  Unused i e =
      (va : ℕ)
      → env_page_ws_get_virtual_address i e.pages ≡ ok va
      → entry_at va e.file.paging / 32 % 2 ≡ 0

  -- what is known before a round: the tables are there, and what was seen is unused
  abbrev pub Before : (ℕ → Type 0) → FaultEnv C D → Type 0
  Before seen e = HasTables e × ((j : ℕ) → seen j → Unused j e)

put_entry-eq :
    (va w v : ℕ) (s : Paging)
    → (entry_at w (put_entry va v s) ≡ v) ⊎ (entry_at w (put_entry va v s) ≡ entry_at w s)
put_entry-eq va w v s = elim (ℕ_discrete (pdx va) (pdx w)) [
  | no a ↦ inr (rw (ne→== (pdx va) (pdx w) a) refl)
  | yes a ↦ elim (ℕ_discrete (ptx va) (ptx w)) [
    | yes b ↦ inl (rw (eq→== (pdx va) (pdx w) a, eq→== (ptx va) (ptx w) b) refl)
    | no b ↦ inr (rw (eq→== (pdx va) (pdx w) a, ne→== (ptx va) (ptx w) b) refl)
  ]
]

unused-zero : (e : ℕ) → unused e / 32 % 2 ≡ 0
unused-zero e = omega arith

unused-lt : (e : ℕ) → e < u32_mod → unused e < u32_mod
unused-lt e h = omega (arith, h)

pub get_frame_info-same :
    (m : Machine) (va : ℕ) (s : Paging)
    → is_present (s.directory (pdx va)) ≡ true
    → (get_frame_info m va s).1 ≡ s
unfolding get_frame_info get_page_table frame_at
get_frame_info-same m va s h = ground arith

cleared_entry :
    (va w : ℕ) (s : Paging)
    → entry_at w s < u32_mod
    → entry_at va s < u32_mod
    → entry_at w (put_entry va (unused (entry_at va s)) s) < u32_mod
cleared_entry va w s h k = elim (put_entry-eq va w (unused (entry_at va s)) s) [
  | inl a ↦ subst⁻¹ (λ x. x < u32_mod) a (unused-lt (entry_at va s) k)
  | inr a ↦ subst⁻¹ (λ x. x < u32_mod) a h
]

cleared_used :
    (va w : ℕ) (s : Paging)
    → (entry_at w s / 32 % 2 ≡ 0) ⊎ ((pdx va ≡ pdx w) × (ptx va ≡ ptx w))
    → entry_at w (put_entry va (unused (entry_at va s)) s) / 32 % 2 ≡ 0
cleared_used va w s (inr (a, b)) =
    rw (eq→== (pdx va) (pdx w) a, eq→== (ptx va) (ptx w) b) (unused-zero (entry_at va s))
cleared_used va w s (inl h) = elim (put_entry-eq va w (unused (entry_at va s)) s) [
  | inl a ↦ subst⁻¹ (λ x. x / 32 % 2 ≡ 0) a (unused-zero (entry_at va s))
  | inr a ↦ subst⁻¹ (λ x. x / 32 % 2 ≡ 0) a h
]

same_ok : (r : Result ℕ) (v w : ℕ) → r ≡ ok v → r ≡ ok w → v ≡ w
same_ok r v w h k = cc

module _ {C D : Type 0} (m : Machine) (ide : Ide C D) (fault_va : ℕ) where
  -- A round that found a victim, or that only cleared used bits.
  abbrev pub Cleared : (ℕ → Type 0) → FaultEnv C D → Bool × FaultEnv C D → Type 0
  Cleared seen e (true, e') = Evicted m ide fault_va e.pages e'
  Cleared seen e (false, e') =
      (e'.pages ≡ e.pages)
      × (e'.page_last_ws_index ≡ e.page_last_ws_index)
      × HasTables e'
      × ((i : ℕ) → seen i → Unused i e')

  visit-eq :
      (i va : ℕ) (e : FaultEnv C D)
      → env_page_ws_get_virtual_address i e.pages ≡ ok va
      → visit m ide i fault_va e
        ≡ with_frame m ide i va fault_va (get_frame_info m va e.file.paging) e
  unfolding visit
  visit-eq i va e h = rw h refl

  pub with_frame-eq :
      (i va : ℕ) (r : Option ℕ × Paging) (e : FaultEnv C D)
      → is_present (e.file.paging.directory (pdx va)) ≡ true
      → r.1 ≡ e.file.paging
      → with_frame m ide i va fault_va r e
        ≡ inspect m ide i va fault_va r.0
            (some (permissions_of (entry_at va e.file.paging)), e.file.paging)
            e
  unfolding with_frame
  with_frame-eq i va (frame, p) e h k =
      ap (λ x. inspect m ide i va fault_va frame x e)
        (ap (pt_get_page_permissions m va) k ∙ get_permissions-present m va e.file.paging h)

  used-eq :
      (i va : ℕ) (frame : Option ℕ) (e : FaultEnv C D)
      → is_present (e.file.paging.directory (pdx va)) ≡ true
      → entry_at va e.file.paging < u32_mod
      → entry_at va e.file.paging / 32 % 2 ≡ 1
      → inspect m ide i va fault_va frame
          (some (permissions_of (entry_at va e.file.paging)), e.file.paging)
          e
        ≡ ok (false, set_paging (put_entry va (unused (entry_at va e.file.paging)) e.file.paging) e)
  unfolding inspect
  used-eq i va frame e h b u =
      rw
        (
          eq→== (permissions_of (entry_at va e.file.paging) / 32 % 2) 1 (omega (arith, u)),
          clear_used m va e.file.paging h b,
        )
        refl

  pub unused-eq :
      (i va : ℕ) (frame : Option ℕ) (e : FaultEnv C D)
      → entry_at va e.file.paging / 32 % 2 ≢ 1
      → inspect m ide i va fault_va frame
          (some (permissions_of (entry_at va e.file.paging)), e.file.paging)
          e
        ≡ evict m ide i va fault_va
            (bit_set 64 (some (permissions_of (entry_at va e.file.paging))))
            frame
            (set_paging e.file.paging e)
          >>= λ e'. ok (true, e')
  unfolding inspect
  unused-eq i va frame e n =
      rw (ne→== (permissions_of (entry_at va e.file.paging) / 32 % 2) 1 (λ u. n (omega (arith, u))))
        refl

  after_used :
      (i va : ℕ) (seen : ℕ → Type 0) (e : FaultEnv C D)
      → env_page_ws_get_virtual_address i e.pages ≡ ok va
      → Before seen e
      → Cleared
          (λ j. seen j ⊎ (j ≡ i))
          e
          (false, set_paging (put_entry va (unused (entry_at va e.file.paging)) e.file.paging) e)
  after_used i va seen e h (t, s) = (
    refl,
    refl,
    (λ j w k. ((t j w k).0, cleared_entry va w e.file.paging (t j w k).1 (t i va h).1)),
    λ j o w k. elim o [
      | inl a ↦ cleared_used va w e.file.paging (inl (s j a w k))
      | inr a ↦ cleared_used va w e.file.paging (inr (same va w j a h k))
    ],
  )
    where
      same :
          (va w j : ℕ)
          → j ≡ i
          → env_page_ws_get_virtual_address i e.pages ≡ ok va
          → env_page_ws_get_virtual_address j e.pages ≡ ok w
          → (pdx va ≡ pdx w) × (ptx va ≡ ptx w)
      same va w j a h k = (ap (λ x. pdx x) q, ap (λ x. ptx x) q)
        where
          q : va ≡ w
          q =
              same_ok (env_page_ws_get_virtual_address i e.pages) va w h
                (subst (λ x. env_page_ws_get_virtual_address x e.pages ≡ ok w) a k)

  inspect-Cleared :
      (i va : ℕ) (frame : Option ℕ) (seen : ℕ → Type 0) (e : FaultEnv C D)
      → env_page_ws_get_virtual_address i e.pages ≡ ok va
      → Before seen e
      → Returning (Cleared (λ j. seen j ⊎ (j ≡ i)) e) (
          inspect m ide i va fault_va frame
            (some (permissions_of (entry_at va e.file.paging)), e.file.paging)
            e)
  inspect-Cleared i va frame seen e h b = elim (ℕ_discrete (entry_at va e.file.paging / 32 % 2) 1) [
    | yes u ↦
        subst⁻¹ (Returning (Cleared (λ j. seen j ⊎ (j ≡ i)) e))
          (used-eq i va frame e (b.0 i va h).0 (b.0 i va h).1 u) (after_used i va seen e h b)
    | no n ↦ subst⁻¹ (Returning (Cleared (λ j. seen j ⊎ (j ≡ i)) e)) (unused-eq i va frame e n) (
        then_Returning (Evicted m ide fault_va e.pages) (Cleared (λ j. seen j ⊎ (j ≡ i)) e)
          (evict m ide i va fault_va
            (bit_set 64 (some (permissions_of (entry_at va e.file.paging)))) frame
            (set_paging e.file.paging e))
          (λ e'. ok (true, e'))
          (evict-Evicted m ide fault_va i va
            (bit_set 64 (some (permissions_of (entry_at va e.file.paging)))) frame
            (set_paging e.file.paging e) h)
          (λ e' c. c))
  ]

  pub visit-Cleared :
      (i : ℕ) (seen : ℕ → Type 0) (e : FaultEnv C D)
      → Before seen e
      → Returning (Cleared (λ j. seen j ⊎ (j ≡ i)) e) (visit m ide i fault_va e)
  unfolding visit
  visit-Cleared i seen e b = go (env_page_ws_get_virtual_address i e.pages) refl
    where
      go :
          (r : Result ℕ)
          → env_page_ws_get_virtual_address i e.pages ≡ r
          → Returning
              (Cleared (λ j. seen j ⊎ (j ≡ i)) e)
              (r >>= λ va. with_frame m ide i va fault_va (get_frame_info m va e.file.paging) e)
      go panic h = tt
      go (ok va) h =
          subst⁻¹ (Returning (Cleared (λ j. seen j ⊎ (j ≡ i)) e))
            (with_frame-eq i va (get_frame_info m va e.file.paging) e (b.0 i va h).0
              (get_frame_info-same m va e.file.paging (b.0 i va h).0))
            (inspect-Cleared i va (get_frame_info m va e.file.paging).0 seen e h b)
