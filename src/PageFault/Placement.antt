-- ===== src/PageFault/Placement.antt =====
-- placment: a page comes into the working set from the page file.
use fos_project.WorkingSet.Entries.{Sets, env_page_ws_set_entry-Sets}
use fos_project.Paging.Permissions.{unmodified, clear_modified}
use fos_project.PageFile.RoundTrip.{read-eq, frame_at_va-eq}
use fos_project.Prelude.Words.{u32_mod, add32, page_size, rounddown}
use fos_project.WorkingSet.{
  Element, user_top, down, env_page_ws_get_size, env_page_ws_set_entry,
  env_page_ws_get_virtual_address,
}
use mathlib.Core.Path.{subst⁻¹, ap₂}
use fos_project.Paging.Mapping.{
  get_frame_info-present, get_frame_info-zero, Maps, allocate_frame-Maps,
}
use fos_project.PageFile.{Ide, Env, done, set_at, start_sector, table_of, dfn_of, pf_read_env_page}
use fos_project.PageFault.{FaultEnv, wrap_index, put_page, placed, placment}
use fos_project.Paging.{
  Paging, Machine, pdx, ptx, is_present, frame_of, put_entry, entry_at, allocate_frame,
  get_frame_info, map_frame,
}
use fos_project.Prelude.{
  ◌==◌, if◌then◌else◌, lt→ltb, eq→==, ne→==, length, get_elem?, Result, panic, ok, ◌>>=◌, ℕ, suc,
  ◌+◌, ◌/◌, ◌<◌, ◌≡◌, refl, sym, ap, ◌∙◌, ◌≢◌, true, none, some, List, ◌∷◌, arith, ℕ_discrete,
}

rounddown-pdx : (va : ℕ) → pdx (rounddown va) ≡ pdx va
unfolding rounddown
rounddown-pdx va = omega arith

rounddown-ptx : (va : ℕ) → ptx (rounddown va) ≡ ptx va
unfolding rounddown
rounddown-ptx va = omega arith

rounddown-entry : (va : ℕ) (p : Paging) → entry_at (rounddown va) p ≡ entry_at va p
rounddown-entry va p = ap₂ (λ d i. p.table d i) (rounddown-pdx va) (rounddown-ptx va)

-- What get_frame_info's result says of the entry.
frame-entry :
    (m : Machine) (va f : ℕ) (p : Paging)
    → is_present (p.directory (pdx va)) ≡ true
    → (get_frame_info m va p).0 ≡ some f
    → (entry_at va p ≢ 0) × (entry_at va p / 4096 ≡ f)
frame-entry m va f p h g = elim (ℕ_discrete (entry_at va p) 0) [
  | yes z ↦ absurd (none-some (sym (ap (λ r. r.0) (get_frame_info-zero m va p h z)) ∙ g))
  | no n ↦ (n, some-injective (sym (ap (λ r. r.0) (get_frame_info-present m va p h n)) ∙ g))
]
  where
    none-some : none ≡ some f → ⊥
    none-some e = cc

    some-injective : some (entry_at va p / 4096) ≡ some f → entry_at va p / 4096 ≡ f
    some-injective e = cc

-- The entry without PERM_MODIFIED still has the frame.
unmodified-frame :
    (m : Machine) (va f : ℕ) (p : Paging)
    → 0 < f
    → is_present (p.directory (pdx va)) ≡ true
    → entry_at va p / 4096 ≡ f
    → (get_frame_info m va (put_entry (rounddown va) (unmodified (entry_at va p)) p)).0 ≡ some f
unmodified-frame m va f p z h g =
    ap (λ r. r.0)
      (get_frame_info-present m va after h (λ a. absurd (omega (arith, value, a, z, g))))
    ∙ ap (λ x. some (frame_of x)) value
    ∙ ap some (omega (arith, g))
  where
    after : Paging
    after = put_entry (rounddown va) (unmodified (entry_at va p)) p

    value : entry_at va after ≡ unmodified (entry_at va p)
    value =
        rw
          (
            eq→== (pdx (rounddown va)) (pdx va) (rounddown-pdx va),
            eq→== (ptx (rounddown va)) (ptx va) (rounddown-ptx va),
          )
          refl

module _ {C D : Type 0} (m : Machine) where
  -- What the placement of the page at `va` in the frame `f` gives, where the page file has `c` for the
  -- page and entry `x` was at the hand.
  abbrev pub Places : ℕ → ℕ → C → Element → FaultEnv C D → Result (FaultEnv C D) → Type 0
  Places va f c x e panic = ⊥
  Places va f c x e (ok e') =
      (env_page_ws_get_virtual_address e.page_last_ws_index e'.pages ≡ ok (down page_size va))
      × (env_page_ws_get_size e'.pages ≡ env_page_ws_get_size e.pages + (if x.empty then 1 else 0))
      × ((get_frame_info m va e'.file.paging).0 ≡ some f)
      × (e'.file.memory f ≡ c)
      × (e'.page_last_ws_index
          ≡ (if suc e.page_last_ws_index == length e.pages then 0 else suc e.page_last_ws_index))

  put-Places :
      (va f : ℕ) (c : C) (x : Element) (e : FaultEnv C D) (file : Env C D)
      (r : Result (List Element))
      → suc e.page_last_ws_index < u32_mod
      → (get_frame_info m va file.paging).0 ≡ some f
      → file.memory f ≡ c
      → Sets e.page_last_ws_index va e.pages x r
      → Places va f c x e (
          r >>= λ ws. ok (
            wrap_index (record {
              pages = ws;
              page_last_ws_index = add32 e.page_last_ws_index 1;
              file = file;
            })))
  unfolding wrap_index
  put-Places va f c x e file panic b g w s = s
  put-Places va f c x e file (ok ws) b g w (n, a, o, k) =
      elim (ℕ_discrete (suc e.page_last_ws_index) (length e.pages)) [
        | yes h ↦
            rw
              (
                eq→== (add32 e.page_last_ws_index 1) (length ws) (omega (arith, n)),
                eq→== (suc e.page_last_ws_index) (length e.pages) h,
              )
              (a, k, g, w, refl)
        | no h ↦
            rw
              (
                ne→== (add32 e.page_last_ws_index 1) (length ws) (omega (arith, n)),
                ne→== (suc e.page_last_ws_index) (length e.pages) h,
              )
              (a, k, g, w, omega arith)
      ]

  placed-eq :
      (va : ℕ) (e : FaultEnv C D)
      → placed va done e ≡ (
          env_page_ws_set_entry e.page_last_ws_index va e.pages >>= λ ws.
          ok (
            wrap_index
              (record e { pages = ws; page_last_ws_index = add32 e.page_last_ws_index 1 })))
  unfolding placed put_page
  placed-eq va e = bind_twice (env_page_ws_set_entry e.page_last_ws_index va e.pages) e
    where
      bind_twice :
          (r : Result (List Element)) (e : FaultEnv C D)
          → (r
              >>= (λ ws.
                  ok (record e { pages = ws; page_last_ws_index = add32 e.page_last_ws_index 1 }))
              >>= λ e'. ok (wrap_index e'))
            ≡ (r >>= λ ws. ok (
                wrap_index
                  (record e { pages = ws; page_last_ws_index = add32 e.page_last_ws_index 1 })))
      bind_twice panic e = refl
      bind_twice (ok ws) e = refl

  -- the page's file after the read into frame `f`
  read_into : ℕ → ℕ → C → Env C D → Env C D
  read_into va f c file = record file {
    memory = set_at file.memory f c;
    paging = put_entry (rounddown va) (unmodified (entry_at va file.paging)) file.paging;
    n_page_in = add32 file.n_page_in 1;
  }

  reading-eq :
      (ide : Ide C D) (va f : ℕ) (c : C) (file : Env C D)
      → f < 1048576
      → is_present (file.paging.directory (pdx va)) ≡ true
      → (get_frame_info m va file.paging).0 ≡ some f
      → dfn_of (rounddown va) file ≢ 0
      → ide.ide_read (start_sector (dfn_of (rounddown va) file)) file.disk (file.memory f)
        ≡ (true, c)
      → pf_read_env_page m ide va file ≡ ok (done, read_into va f c file)
  unfolding read_into
  reading-eq ide va f c file b h g n r =
      read-eq m ide va (rounddown va) f c
        (put_entry (rounddown va) (unmodified (entry_at va file.paging)) file.paging) file refl n r
        (frame_at_va-eq m ide (rounddown va) f file (
          ap (λ x. x.0)
            (get_frame_info-present m (rounddown va) file.paging here
              (λ a. entry.0 (sym (rounddown-entry va file.paging) ∙ a)))
          ∙ ap (λ x. some (frame_of x)) (rounddown-entry va file.paging)
          ∙ ap some entry.1))
        (clear_modified m (rounddown va) file.paging here (
            subst⁻¹ (λ x. x < u32_mod) (rounddown-entry va file.paging) (omega (arith, entry.1, b)))
          ∙ ap (λ x. ok (put_entry (rounddown va) (unmodified x) file.paging))
              (rounddown-entry va file.paging))
    where
      entry : (entry_at va file.paging ≢ 0) × (entry_at va file.paging / 4096 ≡ f)
      entry = frame-entry m va f file.paging h g

      here : is_present (file.paging.directory (pdx (rounddown va))) ≡ true
      here = subst⁻¹ (λ d. is_present (file.paging.directory d) ≡ true) (rounddown-pdx va) h

  read-Places :
      (ide : Ide C D) (va f : ℕ) (c : C) (x : Element) (e : FaultEnv C D) (r : Result Paging)
      → 0 < f
      → f < 1048576
      → is_present (e.file.paging.directory (pdx va)) ≡ true
      → get_elem? e.pages e.page_last_ws_index ≡ some x
      → suc e.page_last_ws_index < u32_mod
      → va < user_top
      → dfn_of (rounddown va) e.file ≢ 0
      → ide.ide_read (start_sector (dfn_of (rounddown va) e.file)) e.file.disk (e.file.memory f)
        ≡ (true, c)
      → Maps m f va e.file.paging r
      → Places va f c x e (
          r >>= λ p. pf_read_env_page m ide va (record e.file { paging = p }) >>= λ (t, file).
          placed va t (record e { file = file }))
  unfolding read_into dfn_of table_of
  read-Places ide va f c x e panic z l t g b u n q h = h
  read-Places ide va f c x e (ok p) z l t g b u n q (h, aside) =
      subst⁻¹ (λ y. Places va f c x e (y >>= λ (t, file). placed va t (record e { file = file })))
        (reading-eq ide va f c (record e.file { paging = p }) l there h n q)
        (subst⁻¹ (Places va f c x e)
          (placed-eq va (record e { file = read_into va f c (record e.file { paging = p }) }))
          (put-Places va f c x e (read_into va f c (record e.file { paging = p }))
            (env_page_ws_set_entry e.page_last_ws_index va e.pages) b
            (unmodified-frame m va f p z there (frame-entry m va f p there h).1)
            (ap (λ y. if y then c else e.file.memory f) (eq→== f f refl))
            (env_page_ws_set_entry-Sets e.page_last_ws_index va e.pages x g u)))
    where
      there : is_present (p.directory (pdx va)) ≡ true
      there = ap (λ d. is_present (d (pdx va))) aside.directory_is ∙ t

  -- the frame and the mapping, and then the rest
  frame_then :
      (va : ℕ) (a : Result (ℕ × Paging)) (rest : Paging → Result (FaultEnv C D))
      → (a >>= λ (f, p). map_frame m f va 70 p >>= rest)
        ≡ ((a >>= λ (f, p). map_frame m f va 70 p) >>= rest)
  frame_then va panic rest = refl
  frame_then va (ok (f, p)) rest = refl

  -- There is room in the working set, the first free frame has a number from 1 to 2^20 - 1, the table
  -- of the address is in memory, the clock hand is at an entry, the page is in the page file and the
  -- disk reads `c` for it. Then placment of a user address returns: the entry at the hand holds the
  -- page, the address is mapped to that frame, the frame holds `c`, and the hand is one further, or at
  -- the start. The working set has one page more if that entry was empty, and as many as before if it
  -- was in use.
  pub placment-Places :
      (ide : Ide C D) (va f : ℕ) (rest : List ℕ) (c : C) (x : Element) (e : FaultEnv C D)
      → env_page_ws_get_size e.pages < length e.pages
      → e.file.paging.free_frame_list ≡ f ∷ rest
      → 0 < f
      → f < 1048576
      → is_present (e.file.paging.directory (pdx va)) ≡ true
      → get_elem? e.pages e.page_last_ws_index ≡ some x
      → suc e.page_last_ws_index < u32_mod
      → va < user_top
      → dfn_of (rounddown va) e.file ≢ 0
      → ide.ide_read (start_sector (dfn_of (rounddown va) e.file)) e.file.disk (e.file.memory f)
        ≡ (true, c)
      → Places va f c x e (placment m ide va e)
  unfolding placment
  placment-Places ide va f rest c x e room free z l table g b u n q =
      rw (lt→ltb (env_page_ws_get_size e.pages) (length e.pages) room) (
        subst⁻¹ (Places va f c x e) (frame_then va (allocate_frame e.file.paging) _) (
          read-Places ide va f c x e
            (allocate_frame e.file.paging >>= λ (f', p). map_frame m f' va 70 p) z l table g b u n q
            (allocate_frame-Maps m f va 70 rest e.file.paging free (omega arith) table)))
