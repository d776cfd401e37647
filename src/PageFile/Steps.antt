-- ===== src/PageFile/Steps.antt =====
-- The page file of an environment through any sequence of its operations.
use fos_project.PageFile.Releasing.{pf_remove_env_all_tables-IsOwned, pf_free_env-IsOwned}
use fos_project.PageFile.Tables.{pf_remove_env_table-IsOwned, pf_write_env_table-Owned}
use fos_project.PageFile.Ownership.{pf_remove_env_page-IsOwned}
use fos_project.PageFile.Updating.{pf_add_empty_env_page-Owned, pf_update_env_page-Owned}
use fos_project.PageFile.Writing.{pf_add_env_page-Owned}
use fos_project.Prelude.Words.{add32, rounddown}
use fos_project.PageFile.Slots.{
  Slot, page_slot, table_slot, table_entry, dir_entry, frame_in, IsOwned,
}
use mathlib.Core.Path.{subst⁻¹, subst}
use fos_project.PageFile.Adding.{Added, SameFrames, SameFrames-IsOwned}
use fos_project.Queue.Seg.{NotIn, Distinct}
use fos_project.Prelude.{
  ◌==◌, if◌then◌else◌, Result, ok, ◌>>=◌, Returning, then_Returning, always_Returning, if_Returning,
  ℕ, zero, suc, ◌+◌, ◌≤◌, ◌≡◌, refl, ap, Bool, none, List, [], ◌∷◌, arith,
}
use fos_project.Paging.{Machine, pt_set_page_permissions}
use fos_project.PageFile.{
  Ide, Env, Status, done, page_not_exist, disk_error, free_frames, initialize_disk_page_file,
  dfn_of, pf_remove_env_page, pf_remove_env_all_tables, pf_free_env, pf_remove_env_table,
  frame_at_va, read_disk_page, pf_add_env_page, pf_add_empty_env_page, pf_update_env_page,
  pf_read_env_page, pf_write_env_table,
}

free_frames-Distinct :
    (n i : ℕ) (free : List ℕ)
    → 1 ≤ i
    → ((j : ℕ) → i ≤ j → NotIn j free)
    → NotIn 0 free
    → Distinct free
    → NotIn 0 (free_frames n i free) × Distinct (free_frames n i free)
unfolding free_frames
free_frames-Distinct zero i free l h z d = (z, d)
free_frames-Distinct (suc n) i free l h z d =
    free_frames-Distinct n (i + 1) (i ∷ free) (omega arith)
      (λ j k. ((λ e. omega (arith, e, k)), h j (omega arith))) ((λ e. omega (arith, e, l)), z)
      (h i (omega arith), d)

module _ {C D : Type 0} (m : Machine) (ide : Ide C D) where
  -- one call of the page file's functions that returns
  pub data Step : Env C D → Env C D → Type 0 where
    add_page :
        {e e' : Env C D} (va : ℕ) (c : C) (r : Status)
        → pf_add_env_page m ide va c e ≡ ok (r, e')
        → Step e e'
    add_empty_page :
        {e e' : Env C D} (c : C) (va : ℕ) (by_zero : Bool) (r : Status)
        → pf_add_empty_env_page m ide c va by_zero e ≡ ok (r, e')
        → Step e e'
    update_page :
        {e e' : Env C D} (va f : ℕ) (r : Status)
        → pf_update_env_page m ide va f e ≡ ok (r, e')
        → Step e e'
    remove_page : {e : Env C D} (va : ℕ) → Step e (pf_remove_env_page va e)
    write_table :
        {e e' : Env C D} (va : ℕ) (c : C) (r : Status)
        → pf_write_env_table m ide va c e ≡ ok (r, e')
        → Step e e'
    remove_table : {e : Env C D} (va : ℕ) → Step e (pf_remove_env_table va e)
    remove_tables : {e : Env C D} → Step e (pf_remove_env_all_tables e)
    free_env : {e e' : Env C D} → pf_free_env e ≡ ok e' → Step e e'
    read_page :
        {e e' : Env C D} (va : ℕ) (r : Status)
        → pf_read_env_page m ide va e ≡ ok (r, e')
        → Step e e'

  -- any number of them
  pub data Steps : Env C D → Env C D → Type 0 where
    none_yet : {e : Env C D} → Steps e e
    then_step : {e e' e'' : Env C D} → Steps e e' → Step e' e'' → Steps e e''

  returned :
      {V : Type 0} (P : V → Type 0) (call : Result V) (v : V) → call ≡ ok v → Returning P call → P v
  returned P call v h k = subst (Returning P) h k

  pf_read_env_page-Same :
      (va : ℕ) (e : Env C D) → Returning (λ r. SameFrames e r.1) (pf_read_env_page m ide va e)
  unfolding pf_read_env_page read_disk_page
  pf_read_env_page-Same va e =
      if_Returning (λ r. SameFrames e r.1) (dfn_of (rounddown va) e == 0) (ok (page_not_exist, e))
        (frame_at_va m ide (rounddown va) e >>= go) (refl, (refl, refl))
        (then_Returning (λ f. Unit) (λ r. SameFrames e r.1) (frame_at_va m ide (rounddown va) e) go
          (always_Returning (λ f. Unit) (frame_at_va m ide (rounddown va) e) (λ f. tt))
          (λ f u. go-Same f))
    where
      go : ℕ → Result (Status × Env C D)
      go f =
          let (success, e1) = read_disk_page m ide (dfn_of (rounddown va) e) f e in
          pt_set_page_permissions m (rounddown va) 0 64 e1.paging >>= λ p. ok (
            if success then done else disk_error,
            record e1 { paging = p; n_page_in = add32 e1.n_page_in 1 },
          )

      go-Same : (f : ℕ) → Returning (λ r. SameFrames e r.1) (go f)
      go-Same f =
          then_Returning (λ p. Unit) (λ r. SameFrames e r.1)
            (pt_set_page_permissions m (rounddown va) 0 64 e.paging)
            (λ p.
              let (success, e1) = read_disk_page m ide (dfn_of (rounddown va) e) f e in
              ok (
                if success then done else disk_error,
                record e1 { paging = p; n_page_in = add32 e1.n_page_in 1 },
              ))
            (always_Returning (λ p. Unit) (pt_set_page_permissions m (rounddown va) 0 64 e.paging)
              (λ p. tt))
            (λ p u. (refl, (refl, refl)))

  Step-IsOwned : (e e' : Env C D) → Step e e' → IsOwned e → IsOwned e'
  Step-IsOwned e e' (add_page va c r h) o =
      returned Added (pf_add_env_page m ide va c e) (r, e') h (pf_add_env_page-Owned m ide va c e o)
  Step-IsOwned e e' (add_empty_page c va by_zero r h) o =
      returned Added (pf_add_empty_env_page m ide c va by_zero e) (r, e') h
        (pf_add_empty_env_page-Owned m ide c va by_zero e o)
  Step-IsOwned e e' (update_page va f r h) o =
      returned Added (pf_update_env_page m ide va f e) (r, e') h
        (pf_update_env_page-Owned m ide va f e o)
  Step-IsOwned e e' (remove_page va) o = pf_remove_env_page-IsOwned va e o
  Step-IsOwned e e' (write_table va c r h) o =
      returned Added (pf_write_env_table m ide va c e) (r, e') h
        (pf_write_env_table-Owned m ide va c e o)
  Step-IsOwned e e' (remove_table va) o = pf_remove_env_table-IsOwned va e o
  Step-IsOwned e e' (remove_tables) o = pf_remove_env_all_tables-IsOwned e o
  Step-IsOwned e e' (free_env h) o = returned IsOwned (pf_free_env e) e' h (pf_free_env-IsOwned e o)
  Step-IsOwned e e' (read_page va r h) o =
      SameFrames-IsOwned e e'
        (returned (λ x. SameFrames e x.1) (pf_read_env_page m ide va e) (r, e') h
          (pf_read_env_page-Same va e))
        o

  -- An environment that has nothing in the page file, after the disk's frames have been listed.
  initial-IsOwned :
      (e : Env C D)
      → e.disk_env_pgdir ≡ none
      → e.disk_env_tabledir ≡ none
      → IsOwned (initialize_disk_page_file e)
  unfolding initialize_disk_page_file
  initial-IsOwned e h k = record {
    apart = λ p q n. absurd (n (unused p));
    used = λ p. subst⁻¹ (λ v. NotIn v (free_frames 133119 1 [])) (unused p) frames.0;
    zero_used = frames.0;
    distinct = frames.1;
  }
    where
      frames : NotIn 0 (free_frames 133119 1 []) × Distinct (free_frames 133119 1 [])
      frames = free_frames-Distinct 133119 1 [] (omega arith) (λ j l. tt) tt tt

      unused : (p : Slot) → frame_in (initialize_disk_page_file e) p ≡ 0
      unused (page_slot d i) = ap (λ x. dir_entry x d i) h
      unused (table_slot d) = ap (λ x. table_entry x d) k

  -- Start with an environment that has nothing in the page file and with all of the disk's frames
  -- free. After any sequence of calls that return (pages added, updated, read and removed, tables
  -- written and removed, the environment freed), no two pages or tables have the same disk frame, no
  -- frame that is in use is free, and no frame is free twice.
  pub Steps-IsOwned :
      (e e' : Env C D)
      → e.disk_env_pgdir ≡ none
      → e.disk_env_tabledir ≡ none
      → Steps (initialize_disk_page_file e) e'
      → IsOwned e'
  Steps-IsOwned e e' h k s = go e' s
    where
      go : (x : Env C D) → Steps (initialize_disk_page_file e) x → IsOwned x
      go x (none_yet) = initial-IsOwned e h k
      go x (then_step {e' = y} more step) = Step-IsOwned y x step (go y more)
