-- ===== src/Shares/Search.antt =====
-- The loops over the shared objects: the first empty entry, and the entry of an owner and name.
use fos_project.Strings.{strcmp}
use fos_project.Semaphores.{is_zero}
use fos_project.Prelude.{
  ◌==◌, Bool-cases, eq→==, length, set, ℕ, zero, suc, ◌+◌, ◌≤◌, ◌<◌, ◌≡◌, refl, sym, ap, ◌∙◌, inl,
  inr, true, false, ◌&&◌, none, some, List, [], ◌∷◌, arith,
}
use fos_project.Shares.{Share, share_id, share_not_exists, first_empty_share, find_share}

some-injective : (a b : ℕ) → some a ≡ some b → a ≡ b
some-injective a b h = cc

first_empty-none : (k : ℕ) → first_empty_share k [] ≡ none
unfolding first_empty_share
first_empty-none k = refl

first_empty-here :
    (k : ℕ) (x : Share) (rest : List Share)
    → x.empty ≡ true
    → first_empty_share k (x ∷ rest) ≡ some k
unfolding first_empty_share
first_empty-here k x rest e = rw e refl

first_empty-later :
    (k : ℕ) (x : Share) (rest : List Share)
    → x.empty ≡ false
    → first_empty_share k (x ∷ rest) ≡ first_empty_share (k + 1) rest
unfolding first_empty_share
first_empty-later k x rest e = rw e refl

first_empty-from : (k j : ℕ) (xs : List Share) → first_empty_share k xs ≡ some j → k ≤ j
first_empty-from k j [] h = absurd (none-some (sym (first_empty-none k) ∙ h))
  where
    none-some : none ≡ some j → ⊥
    none-some e = cc
first_empty-from k j (x ∷ rest) h = elim (Bool-cases x.empty) [
  | inl e ↦ omega (arith, some-injective k j (sym (first_empty-here k x rest e) ∙ h))
  | inr e ↦ omega (arith, first_empty-from (k + 1) j rest (sym (first_empty-later k x rest e) ∙ h))
]

pub set-set : (xs : List Share) (i : ℕ) (x y : Share) → set (set xs i x) i y ≡ set xs i y
set-set [] i x y = refl
set-set (z ∷ xs) zero x y = refl
set-set (z ∷ xs) (suc i) x y = ap (λ r. z ∷ r) (set-set xs i x y)

-- A used entry with the owner and the name.
abbrev pub Matches : ℕ → List ℕ → Share → Type 0
Matches owner name x =
    (x.empty ≡ false) × (x.owner_id ≡ owner) × (is_zero (strcmp name x.name) ≡ true)

find_share-same :
    (k owner : ℕ) (name : List ℕ) (x : Share) (rest : List Share)
    → x.empty ≡ false
    → (x.owner_id == owner && is_zero (strcmp name x.name)) ≡ true
    → find_share k owner name (x ∷ rest) ≡ share_id k
unfolding find_share
find_share-same k owner name x rest e a = rw (e, a) refl

find_share-differs :
    (k owner : ℕ) (name : List ℕ) (x : Share) (rest : List Share)
    → x.empty ≡ false
    → (x.owner_id == owner && is_zero (strcmp name x.name)) ≡ false
    → find_share k owner name (x ∷ rest) ≡ find_share (k + 1) owner name rest
unfolding find_share
find_share-differs k owner name x rest e a = rw (e, a) refl

find_share-first :
    (k owner : ℕ) (name : List ℕ) (x : Share) (rest : List Share)
    → Matches owner name x
    → find_share k owner name (x ∷ rest) ≡ share_id k
find_share-first k owner name x rest (e, o, z) =
    find_share-same k owner name x rest e (rw (eq→== x.owner_id owner o, z) refl)

not_found : (k : ℕ) → share_id k ≡ share_not_exists → ⊥
not_found k e = cc

pub filled-Found :
    (xs : List Share) (k i owner : ℕ) (name : List ℕ) (x : Share)
    → first_empty_share k xs ≡ some (i + k)
    → find_share k owner name xs ≡ share_not_exists
    → Matches owner name x
    → find_share k owner name (set xs i x) ≡ share_id (i + k)
filled-Found [] k i owner name x f g h = absurd (none-some (sym (first_empty-none k) ∙ f))
  where
    none-some : none ≡ some (i + k) → ⊥
    none-some e = cc
filled-Found (y ∷ ys) k zero owner name x f g h =
    find_share-first k owner name x ys h ∙ ap share_id (omega arith)
filled-Found (y ∷ ys) k (suc i) owner name x f g h = elim (Bool-cases y.empty) [
  | inl e ↦
      absurd (omega (arith, some-injective k (suc i + k) (sym (first_empty-here k y ys e) ∙ f)))
  | inr e ↦ elim (Bool-cases (y.owner_id == owner && is_zero (strcmp name y.name))) [
    | inl a ↦ absurd (not_found k (sym (find_share-same k owner name y ys e a) ∙ g))
    | inr a ↦
        find_share-differs k owner name y (set ys i x) e a
        ∙ filled-Found ys (k + 1) i owner name x
            (sym (first_empty-later k y ys e) ∙ f ∙ ap some (omega arith))
            (sym (find_share-differs k owner name y ys e a) ∙ g) h
        ∙ ap share_id (omega arith)
  ]
]

pub first_empty-bound :
    (k i : ℕ) (xs : List Share) → first_empty_share k xs ≡ some (i + k) → i < length xs
first_empty-bound k i [] h = absurd (none-some (sym (first_empty-none k) ∙ h))
  where
    none-some : none ≡ some (i + k) → ⊥
    none-some e = cc
first_empty-bound k zero (x ∷ rest) h = omega arith
first_empty-bound k (suc i) (x ∷ rest) h = elim (Bool-cases x.empty) [
  | inl e ↦ omega (arith, some-injective k (suc i + k) (sym (first_empty-here k x rest e) ∙ h))
  | inr e ↦ omega (
    arith,
    first_empty-bound (k + 1) i rest
        (sym (first_empty-later k x rest e) ∙ h ∙ ap some (omega arith)),
  )
]
