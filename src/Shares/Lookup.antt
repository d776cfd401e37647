-- ===== src/Shares/Lookup.antt =====
-- A shared object that was created is found by its owner and name.
use fos_project.Shares.Search.{set-set, Matches, filled-Found, first_empty-bound}
use fos_project.Strings.Scan.{IsString, strcmp-eq-zero_iff}
use fos_project.Prelude.Words.{add32}
use mathlib.Core.Path.{subst, subst⁻¹}
use fos_project.Chunk.{pages_between}
use fos_project.Paging.{Paging, Machine}
use fos_project.Strings.{strcmp}
use fos_project.Semaphores.{is_zero}
use fos_project.Prelude.{
  ltb, if◌then◌else◌, length, get_elem?, set, length-set, get_elem?-set_self, Result, panic, ok,
  ◌>>=◌, Returning, then_Returning, always_Returning, if_Returning, ℕ, ◌+◌, ◌<◌, ◌≡◌, refl, ap, ◌∙◌,
  true, false, Option, none, some, List, arith,
}
use fos_project.Shares.{
  Share, ShareId, share_id, no_share, share_exists, share_not_exists, ShareSystem,
  first_empty_share, find_share, get_share_object_id, size_at, size_of, get_size_of_shared_object,
  kernel_page, take_entry, allocate_entry, allocate_share_object, create_loop, fill_share,
  create_unless, create_shared_object,
}

-- Creating an object again.
again-eq :
    (m : Machine) (owner : ℕ) (name : List ℕ) (size is_writable va k : ℕ) (s : ShareSystem)
    → get_share_object_id owner name s ≡ share_id k
    → create_shared_object m owner name size is_writable va s ≡ ok (share_exists, s)
unfolding create_shared_object create_unless
again-eq m owner name size is_writable va k s h =
    ap (λ i. create_unless m owner name size is_writable va i s) h

size-eq :
    (owner : ℕ) (name : List ℕ) (k : ℕ) (x : Share) (s : ShareSystem)
    → get_share_object_id owner name s ≡ share_id k
    → get_elem? s.shares k ≡ some x
    → get_size_of_shared_object owner name s ≡ ok (some x.size)
unfolding get_size_of_shared_object size_of size_at
size-eq owner name k x s h g = ap (λ i. size_of i s) h ∙ ap size_at g

module _ (m : Machine) (owner : ℕ) (name : List ℕ) (size is_writable va : ℕ) where
  -- what is known of an object that was created
  abbrev pub Created : ShareId × ShareSystem → Type 0
  Created (share_id k, s) =
      (get_share_object_id owner name s ≡ share_id k)
      × (get_size_of_shared_object owner name s ≡ ok (some size))
      × ((size' is_writable' va' : ℕ)
          → create_shared_object m owner name size' is_writable' va' s ≡ ok (share_exists, s))
  Created (no_share, s) = Unit
  Created (share_exists, s) = Unit
  Created (share_not_exists, s) = Unit

  set-Created :
      (k : ℕ) (x y : Share) (p : Paging) (s : ShareSystem)
      → first_empty_share 0 s.shares ≡ some k
      → get_share_object_id owner name s ≡ share_not_exists
      → Matches owner name x
      → x.size ≡ size
      → Created (share_id k, record s { shares = set (set s.shares k y) k x; paging = p })
  unfolding get_share_object_id
  set-Created k x y p s f g h z = (
    here,
    size-eq owner name k x after here (
          get_elem?-set_self (set s.shares k y) k x
            (subst⁻¹ (λ n. k < n) (length-set s.shares k y) (first_empty-bound 0 k s.shares at_k)))
        ∙ ap (λ n. ok (some n)) z,
    λ size' is_writable' va'. again-eq m owner name size' is_writable' va' k after here,
  )
    where
      after : ShareSystem
      after = record s { shares = set (set s.shares k y) k x; paging = p }

      at_k : first_empty_share 0 s.shares ≡ some (k + 0)
      at_k = f ∙ ap some (omega arith)

      here : get_share_object_id owner name after ≡ share_id k
      here =
          ap (find_share 0 owner name) (set-set s.shares k y x)
          ∙ filled-Found s.shares 0 k owner name x at_k g h
          ∙ ap share_id (omega arith)

  fill-Created :
      (k : ℕ) (x : Share) (p : Paging) (s : ShareSystem)
      → first_empty_share 0 s.shares ≡ some k
      → get_share_object_id owner name s ≡ share_not_exists
      → x.empty ≡ false
      → is_zero (strcmp name name) ≡ true
      → Returning Created (
          fill_share m owner name size is_writable va
            (some (k, x), record s { shares = set s.shares k x; paging = p }))
  unfolding fill_share
  fill-Created k x p s f g e n =
      then_Returning (λ r. Unit) Created
        (create_loop m (pages_between va (add32 va size)) va 0 x.frames_storage p)
        (λ (storage, p').
          let x' = record x {
            owner_id = owner;
            name = name;
            size = size;
            references = 1;
            is_writable = is_writable;
            frames_storage = storage;
          } in
          if ltb (length name) 64
          then ok (share_id k, record s { shares = set (set s.shares k x) k x'; paging = p' })
          else panic)
        (always_Returning (λ r. Unit)
          (create_loop m (pages_between va (add32 va size)) va 0 x.frames_storage p) (λ r. tt))
        (λ (storage, p') u.
          let x' = record x {
            owner_id = owner;
            name = name;
            size = size;
            references = 1;
            is_writable = is_writable;
            frames_storage = storage;
          } in
          if_Returning Created (ltb (length name) 64)
            (ok (share_id k, record s { shares = set (set s.shares k x) k x'; paging = p' })) panic
            (set-Created k x' x p' s f g (e, refl, n) refl) tt)

  take-Created :
      (k : ℕ) (r : Option Share) (s : ShareSystem)
      → first_empty_share 0 s.shares ≡ some k
      → get_share_object_id owner name s ≡ share_not_exists
      → is_zero (strcmp name name) ≡ true
      → Returning Created (take_entry m k r s >>= fill_share m owner name size is_writable va)
  unfolding take_entry
  take-Created k none s f g n = tt
  take-Created k (some x) s f g n = go (kernel_page m s.paging)
    where
      x' : Share
      x' = record x { empty = false; frames_storage = λ d. none }

      go :
          (r : Result Paging)
          → Returning Created (
              r
              >>= (λ p. ok (some (k, x'), record s { shares = set s.shares k x'; paging = p }))
              >>= fill_share m owner name size is_writable va)
      go panic = tt
      go (ok p) = fill-Created k x' p s f g refl n

  allocate-Created :
      (r : Option ℕ) (s : ShareSystem)
      → first_empty_share 0 s.shares ≡ r
      → get_share_object_id owner name s ≡ share_not_exists
      → is_zero (strcmp name name) ≡ true
      → Returning Created (allocate_entry m r s >>= fill_share m owner name size is_writable va)
  unfolding allocate_entry fill_share
  allocate-Created none s f g n = tt
  allocate-Created (some k) s f g n = take-Created k (get_elem? s.shares k) s f g n

  unless-Created :
      (r : ShareId) (s : ShareSystem)
      → get_share_object_id owner name s ≡ r
      → is_zero (strcmp name name) ≡ true
      → Returning Created (create_unless m owner name size is_writable va r s)
  unfolding create_unless allocate_share_object
  unless-Created (share_id i) s g n = tt
  unless-Created no_share s g n = tt
  unless-Created share_exists s g n = tt
  unless-Created share_not_exists s g n = allocate-Created (first_empty_share 0 s.shares) s refl g n

  -- The name has no zero bytes and less than 64 bytes. If creating an object under it returns an
  -- identifier, then the owner and the name lead to this identifier, the size asked for is the size that
  -- is found, and every further attempt to create an object of this owner and name is refused and
  -- changes nothing.
  pub create_shared_object-Created :
      (k : ℕ) (s s' : ShareSystem)
      → IsString name
      → length name < 64
      → create_shared_object m owner name size is_writable va s ≡ ok (share_id k, s')
      → Created (share_id k, s')
  unfolding create_shared_object
  create_shared_object-Created k s s' n b h = subst (Returning Created) h (
      unless-Created (get_share_object_id owner name s) s refl
        (ap is_zero ((strcmp-eq-zero_iff name name n n).1 refl)))
