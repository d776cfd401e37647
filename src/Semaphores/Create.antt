-- ===== src/Semaphores/Create.antt =====
-- createSemaphore does not look whether the semaphore is there.
use fos_project.Semaphores.Balance.{get_elem?-bound}
use mathlib.Core.Path.{subst⁻¹}
use fos_project.Strings.{strcmp}
use fos_project.Semaphores.{
  Semaphore, SemaphoreId, id, System, first_empty, allocate_semaphore_object, is_zero, get_loop,
  get_semaphore_object_id, fill, create_semaphore,
}
use fos_project.Prelude.{
  ◌==◌, lt→ltb, Bool-cases, length, get_elem?, set, length-set, get_elem?-set_self,
  get_elem?-set_ne, Result, panic, ok, ◌>>=◌, ℕ, zero, suc, ◌+◌, ◌<◌, ◌≡◌, refl, ap, ◌∙◌, ◌≢◌, inl,
  inr, true, false, ◌&&◌, some, List, [], ◌∷◌, arith,
}

-- The entry at an index of the array.
abbrev HasEntry : (Semaphore → Type 0) → List Semaphore → ℕ → Type 0
HasEntry P xs i = (x : Semaphore) × (get_elem? xs i ≡ some x) × P x

first_empty-HasEntry :
    (i j : ℕ) (xs : List Semaphore)
    → first_empty i xs ≡ some j
    → (k : ℕ) × (j ≡ i + k) × HasEntry (λ x. x.empty ≡ true) xs k
unfolding first_empty
first_empty-HasEntry i j [] h = cc
first_empty-HasEntry i j (x ∷ xs) h = elim (Bool-cases x.empty) [
  | inl e ↦ (zero, ground arith, (x, refl, e))
  | inr e ↦
      let (k, a, v) = first_empty-HasEntry (i + 1) j xs (ground arith) in (suc k, omega arith, v)
]

get_loop-HasEntry :
    (i j owner : ℕ) (name : List ℕ) (xs : List Semaphore)
    → get_loop i owner name xs ≡ id j
    → (k : ℕ) × (j ≡ i + k) × HasEntry (λ x. x.empty ≡ false) xs k
unfolding get_loop
get_loop-HasEntry i j owner name [] h = ground arith
get_loop-HasEntry i j owner name (x ∷ xs) h = elim (Bool-cases x.empty) [
  | inl e ↦
      let (k, a, v) = get_loop-HasEntry (i + 1) j owner name xs (ground arith) in
      (suc k, omega arith, v)
  | inr e ↦ elim (Bool-cases ((x.owner_id == owner) && is_zero (strcmp name x.name))) [
    | inl f ↦ (zero, ground arith, (x, refl, e))
    | inr f ↦
        let (k, a, v) = get_loop-HasEntry (i + 1) j owner name xs (ground arith) in
        (suc k, omega arith, v)
  ]
]

-- What a second creation makes: a new entry with the given owner, name and value, while the entry at
-- `i` stays.
abbrev pub Doubles : ℕ → ℕ → List ℕ → ℕ → System → Result (SemaphoreId × System) → Type 0
Doubles i owner name initial s panic = ⊥
Doubles i owner name initial s (ok (r, s')) =
    (j : ℕ) × (r ≡ id j)
    × (j ≢ i)
    × (get_elem? s'.semaphores i ≡ get_elem? s.semaphores i)
    × HasEntry (λ x. (x.owner_id ≡ owner) × (x.name ≡ name) × (x.value ≡ initial)) s'.semaphores j

get_id-HasEntry :
    (j owner : ℕ) (name : List ℕ) (s : System)
    → get_semaphore_object_id owner name s ≡ id j
    → (k : ℕ) × (j ≡ 0 + k) × HasEntry (λ x. x.empty ≡ false) s.semaphores k
unfolding get_semaphore_object_id
get_id-HasEntry j owner name s h = get_loop-HasEntry 0 j owner name s.semaphores h

create_semaphore-eq :
    (i owner : ℕ) (name : List ℕ) (initial : ℕ) (s : System)
    → get_semaphore_object_id owner name s ≡ id i
    → create_semaphore owner name initial s
      ≡ (allocate_semaphore_object s >>= fill owner name initial)
unfolding create_semaphore
create_semaphore-eq i owner name initial s found = ground arith

allocate-eq :
    (j : ℕ) (s : System) (x : Semaphore)
    → get_elem? s.semaphores j ≡ some x
    → first_empty 0 s.semaphores ≡ some j
    → allocate_semaphore_object s
      ≡ ok (j, record s { semaphores = set s.semaphores j (record x { empty = false }) })
unfolding allocate_semaphore_object
allocate-eq j s x g f = ground arith

fill-eq :
    (j owner : ℕ) (name : List ℕ) (initial : ℕ) (s : System) (x : Semaphore)
    → get_elem? s.semaphores j ≡ some x
    → length name < 64
    → fill owner name initial (j, s)
      ≡ ok (
        id j,
        record s {
          semaphores =
              set s.semaphores j (record x { owner_id = owner; name = name; value = initial });
        },
      )
unfolding fill
fill-eq j owner name initial s x g b = let c = lt→ltb (length name) 64 b in ground arith

fill-Doubles :
    (i j owner : ℕ) (name : List ℕ) (initial : ℕ) (s : System) (x : Semaphore)
    → j ≢ i
    → length name < 64
    → get_elem? s.semaphores j ≡ some x
    → Doubles i owner name initial s (
        fill owner name initial
          (j, record s { semaphores = set s.semaphores j (record x { empty = false }) }))
fill-Doubles i j owner name initial s x apart short g =
    let b = get_elem?-bound s.semaphores j x g in
    let x' = record x { empty = false } in
    let x'' = record x' { owner_id = owner; name = name; value = initial } in
    subst⁻¹ (Doubles i owner name initial s)
      (fill-eq j owner name initial (record s { semaphores = set s.semaphores j x' }) x'
        (get_elem?-set_self s.semaphores j x' b) short)
      (
        j,
        refl,
        apart,
        get_elem?-set_ne (set s.semaphores j x') j i x'' apart
            ∙ get_elem?-set_ne s.semaphores j i x' apart,
        (
          x'',
          get_elem?-set_self (set s.semaphores j x') j x''
              (omega (arith, b, length-set s.semaphores j x')),
          (refl, refl, refl),
        ),
      )

differ :
    (s : List Semaphore) (i j : ℕ)
    → HasEntry (λ x. x.empty ≡ false) s i
    → HasEntry (λ x. x.empty ≡ true) s j
    → j ≢ i
differ s i j (x, g, e) (y, h, f) same = ground arith

-- A flaw of createSemaphore: where a semaphore of the owner and name exists, the name has less than 64
-- bytes and an entry is empty, it does not answer E_SEMAPHORE_EXISTS but makes a second semaphore of the same owner and name, in
-- another entry, and leaves the first.
pub create_semaphore-Doubles :
    (i j owner : ℕ) (name : List ℕ) (initial : ℕ) (s : System)
    → get_semaphore_object_id owner name s ≡ id i
    → first_empty 0 s.semaphores ≡ some j
    → length name < 64
    → Doubles i owner name initial s (create_semaphore owner name initial s)
create_semaphore-Doubles i j owner name initial s found f short =
    let old = at_index i s (get_id-HasEntry i owner name s found) in
    let new = at_index j s (first_empty-HasEntry 0 j s.semaphores f) in
    subst⁻¹ (Doubles i owner name initial s)
      (create_semaphore-eq i owner name initial s found
        ∙ ap (λ r. r >>= fill owner name initial) (allocate-eq j s new.0 new.1 f))
      (fill-Doubles i j owner name initial s new.0 (differ s.semaphores i j old new) short new.1)
  where
    at_index :
        {P : Semaphore → Type 0} (i : ℕ) (s : System)
        → ((k : ℕ) × (i ≡ 0 + k) × HasEntry P s.semaphores k)
        → HasEntry P s.semaphores i
    at_index {P} i s (k, e, v) = subst⁻¹ (HasEntry P s.semaphores) (e ∙ omega arith) v
