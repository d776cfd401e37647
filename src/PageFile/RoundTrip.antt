-- ===== src/PageFile/RoundTrip.antt =====
-- A page that is added to the page file is read back.
use fos_project.Queue.Seg.{NotIn}
use fos_project.PageFile.Ownership.{set_at-same}
use fos_project.Prelude.Words.{add32, rounddown}
use fos_project.Prelude.{
  ltb, if◌then◌else◌, Option-cases, ne→==, Result, panic, ok, ◌>>=◌, Returning, then_Returning,
  if_Returning, ℕ, ◌≡◌, refl, sym, ap, ◌∙◌, ◌≢◌, inl, inr, Bool, true, false, Option, none, some,
  List, ◌∷◌, ℕ_discrete,
}
use fos_project.Paging.{Paging, Machine, pdx, ptx, get_frame_info, pt_set_page_permissions}
use fos_project.PageFile.{
  Ide, Env, Status, done, no_page_file_space, page_not_exist, disk_error, kernel_base, set_at,
  start_sector, table_of, dfn_of, write_dir, enter_frame, get_disk_page_directory,
  get_disk_page_table, frame_at_va, write_disk_page, read_disk_page, make_entry, write_entry,
  pf_add_env_page, pf_read_env_page,
}
use fos_project.PageFile.Slots.{IsOwned}
use fos_project.PageFile.Adding.{
  taken-eq, full-eq, kept-eq, no_table-eq, dfn_of-eq, table_of-eq, table_of-none, List-cases,
}
use fos_project.PageFile.Writing.{get_disk_page_directory-IsOwned, get_disk_page_table-IsOwned}
use mathlib.Core.Path.{subst, subst⁻¹}

-- A disk that gives back what was last written to a sector.
abbrev pub Stores : {C D : Type 0} → Ide C D → Type 0
Stores {C = C} {D = D} ide =
    (sector : ℕ) (c old : C) (d d' : D)
    → ide.ide_write sector c d ≡ (true, d')
    → ide.ide_read sector d' old ≡ (true, c)

module _ {C D : Type 0} (m : Machine) (ide : Ide C D) where
  pub read-eq :
      (va va' f : ℕ) (c : C) (p : Paging) (e : Env C D)
      → rounddown va ≡ va'
      → dfn_of va' e ≢ 0
      → ide.ide_read (start_sector (dfn_of va' e)) e.disk (e.memory f) ≡ (true, c)
      → frame_at_va m ide va' e ≡ ok f
      → pt_set_page_permissions m va' 0 64 e.paging ≡ ok p
      → pf_read_env_page m ide va e
        ≡ ok (
          done,
          record e { memory = set_at e.memory f c; paging = p; n_page_in = add32 e.n_page_in 1 },
        )
  unfolding pf_read_env_page read_disk_page
  read-eq va va' f c p e a n h k l = rw (a, ne→== (dfn_of va' e) 0 n, k, h, l) refl

  pub frame_at_va-eq :
      (va f : ℕ) (e : Env C D)
      → (get_frame_info m va e.paging).0 ≡ some f
      → frame_at_va m ide va e ≡ ok f
  unfolding frame_at_va
  frame_at_va-eq va f e h = ap found h
    where
      found : Option ℕ → Result ℕ
      found r = elim r [ none ↦ panic | some g ↦ ok g ]

module _ {C D : Type 0} (m : Machine) (ide : Ide C D) (stores : Stores ide) where
  abbrev Entered : ℕ → Option ℕ × Env C D → Type 0
  Entered va (none, e) = Unit
  Entered va (some dfn, e) = (dfn_of va e ≡ dfn) × (dfn ≢ 0)

  -- the page's frame holds `c`
  abbrev Stored : ℕ → C → Status × Env C D → Type 0
  Stored va c (done, e) =
      (dfn_of va e ≢ 0)
      × ((old : C) → ide.ide_read (start_sector (dfn_of va e)) e.disk old ≡ (true, c))
  Stored va c (no_page_file_space, e) = Unit
  Stored va c (page_not_exist, e) = Unit
  Stored va c (disk_error, e) = Unit

  enter_new-Entered :
      (va dfn : ℕ) (rest : List ℕ) (e : Env C D)
      → dfn_of va e ≡ 0
      → e.disk_free_frame_list ≡ dfn ∷ rest
      → IsOwned e
      → Returning (Entered va) (enter_frame va e)
  enter_new-Entered va dfn rest e z h o = elim (Option-cases e.disk_env_pgdir) [
    | inl k ↦
        subst⁻¹ (Returning (Entered va)) (no_table-eq va dfn rest e z h (table_of-none va e k)) tt
    | inr (dir, k) ↦ elim (Option-cases (dir (pdx va))) [
      | inl l ↦
          subst⁻¹ (Returning (Entered va))
            (no_table-eq va dfn rest e z h (table_of-eq va dir e k ∙ l)) tt
      | inr (t, l) ↦ subst⁻¹ (Returning (Entered va)) (taken-eq va dfn rest dir t e z h k l) (
        dfn_of-eq va (set_at dir (pdx va) (some (set_at t (ptx va) dfn))) (set_at t (ptx va) dfn)
              (write_dir dir va (set_at t (ptx va) dfn) (record e { disk_free_frame_list = rest }))
              refl (set_at-same dir (pdx va) (pdx va) (some (set_at t (ptx va) dfn)) refl)
            ∙ set_at-same t (ptx va) (ptx va) dfn refl,
        λ a. (subst (NotIn 0) h o.zero_used).0 (sym a),
      )
    ]
  ]

  enter_frame-Entered :
      (va : ℕ) (e : Env C D) → IsOwned e → Returning (Entered va) (enter_frame va e)
  enter_frame-Entered va e o = elim (ℕ_discrete (dfn_of va e) 0) [
    | no n ↦ subst⁻¹ (Returning (Entered va)) (kept-eq va e n) (refl, n)
    | yes z ↦ elim (List-cases e.disk_free_frame_list) [
      | inl h ↦ subst⁻¹ (Returning (Entered va)) (full-eq va e z h) tt
      | inr (dfn, (rest, h)) ↦ enter_new-Entered va dfn rest e z h o
    ]
  ]

  make_entry-Entered :
      (va : ℕ) (e : Env C D) → IsOwned e → Returning (Entered va) (make_entry m ide va e)
  unfolding make_entry
  make_entry-Entered va e o =
      if_Returning (Entered va) (ltb va kernel_base)
        (get_disk_page_directory m ide e >>= get_disk_page_table m ide va >>= enter_frame va) panic
        (then_Returning IsOwned (Entered va)
          (get_disk_page_directory m ide e >>= get_disk_page_table m ide va) (enter_frame va)
          (then_Returning IsOwned IsOwned (get_disk_page_directory m ide e)
            (get_disk_page_table m ide va) (get_disk_page_directory-IsOwned m ide e o)
            (get_disk_page_table-IsOwned m ide va))
          (enter_frame-Entered va))
        tt

  write_entry-Stored :
      (va : ℕ) (c : C) (r : Option ℕ × Env C D)
      → Entered va r
      → Returning (Stored va c) (write_entry m ide c r)
  unfolding write_entry write_disk_page dfn_of table_of
  write_entry-Stored va c (none, e) h = tt
  write_entry-Stored va c (some dfn, e) (h, n) = go (ide.ide_write (start_sector dfn) c e.disk) refl
    where
      go :
          (r : Bool × D)
          → ide.ide_write (start_sector dfn) c e.disk ≡ r
          → Returning
              (Stored va c)
              ((if r.0 then ok (record e { disk = r.1 }) else panic) >>= λ e'. ok (done, e'))
      go (false, d) w = tt
      go (true, d) w = (
        (λ a. n (sym h ∙ a)),
        λ old.
            subst⁻¹ (λ x. ide.ide_read (start_sector x) d old ≡ (true, c)) h
              (stores (start_sector dfn) c old e.disk d w),
      )

  pf_add_env_page-Stored :
      (va : ℕ) (c : C) (e : Env C D)
      → IsOwned e
      → Returning (Stored va c) (pf_add_env_page m ide va c e)
  unfolding pf_add_env_page
  pf_add_env_page-Stored va c e o =
      then_Returning (Entered va) (Stored va c) (make_entry m ide va e) (write_entry m ide c)
        (make_entry-Entered va e o) (write_entry-Stored va c)

  -- The disk gives back what was last written to a sector, and the disk frames in use are apart and
  -- not free. If adding a page with the contents `c` succeeds, and the page's address then is mapped
  -- to a frame whose permissions can be set, then reading the page succeeds and puts `c` into that
  -- frame.
  pub pf_read_env_page-pf_add_env_page :
      (va f : ℕ) (c : C) (e e' : Env C D) (p : Paging)
      → IsOwned e
      → rounddown va ≡ va
      → pf_add_env_page m ide va c e ≡ ok (done, e')
      → frame_at_va m ide va e' ≡ ok f
      → pt_set_page_permissions m va 0 64 e'.paging ≡ ok p
      → pf_read_env_page m ide va e'
        ≡ ok (
          done,
          record e' { memory = set_at e'.memory f c; paging = p; n_page_in = add32 e'.n_page_in 1 },
        )
  pf_read_env_page-pf_add_env_page va f c e e' p o a h k l =
      read-eq m ide va va f c p e' a stored.0 (stored.1 (e'.memory f)) k l
    where
      stored : Stored va c (done, e')
      stored = subst (Returning (Stored va c)) h (pf_add_env_page-Stored va c e o)
