-- ===== src/UserMem/Entries.antt =====
-- What free_user_mem leaves in the working set.
use fos_project.Prelude.Words.{add32, page_size}
use fos_project.UserMem.{free_entry, free_entries}
use fos_project.Prelude.{
  ltb, leb, lt→ltb, Bool-cases, length, get_elem?, set, length-set, get_elem?-set_self,
  get_elem?-set_ne, ok, Returns, then_Returns, ℕ, zero, suc, ◌+◌, ◌≤◌, ◌<◌, ◌≡◌, refl, sym, ap, ◌∙◌,
  ◌⊎◌, inl, inr, Bool, true, false, ◌&&◌, not, Option, none, some, List, [], ◌∷◌, arith, ℕ_discrete,
}
use fos_project.Paging.{Machine, unmap_frame}
use fos_project.PageFault.{FaultEnv, set_paging}
use fos_project.PageFile.Slots.{IsOwned}
use fos_project.WorkingSet.{Element, down, cleared_element, ws_clear_entry, env_page_ws_clear_entry}
use mathlib.Core.Path.{subst, subst⁻¹}

-- the test of free_user_mem
abbrev pub in_range : ℕ → ℕ → Element → Bool
in_range va size x =
    not x.empty
    && (leb va (down page_size x.virtual_address)
        && ltb (down page_size x.virtual_address) (add32 va size))

some-eq : (x y : Element) → some x ≡ some y → x ≡ y
some-eq x y h = cc

-- An entry that is empty or of a page outside the range.
abbrev pub Outside : ℕ → ℕ → Element → Type 0
Outside va size x = (x.empty ≡ true) ⊎ (in_range va size x ≡ false)

pub get_elem?-bound :
    (xs : List Element) (i : ℕ) (x : Element) → get_elem? xs i ≡ some x → i < length xs
get_elem?-bound [] i x h = absurd (none-some h)
  where
    none-some : none ≡ some x → ⊥
    none-some e = cc
get_elem?-bound (y ∷ xs) zero x h = omega arith
get_elem?-bound (y ∷ xs) (suc i) x h = omega (arith, get_elem?-bound xs i x h)

get_elem?-end : (xs : List Element) (i : ℕ) → get_elem? xs i ≡ none → length xs ≤ i
get_elem?-end [] i h = omega arith
get_elem?-end (y ∷ xs) zero h = absurd (some-none h)
  where
    some-none : some y ≡ none → ⊥
    some-none e = cc
get_elem?-end (y ∷ xs) (suc i) h = omega (arith, get_elem?-end xs i h)

clear-eq :
    (j : ℕ) (ws : List Element)
    → j < length ws
    → env_page_ws_clear_entry j ws ≡ ok (set ws j cleared_element)
unfolding env_page_ws_clear_entry ws_clear_entry
clear-eq j ws h = rw (lt→ltb j (length ws) h) refl

module _ {C D : Type 0} (m : Machine) (va size : ℕ) where
  -- The first `j` entries are outside the range.
  abbrev pub Before : ℕ → ℕ → FaultEnv C D → Type 0
  Before n j e =
      (length e.pages ≡ n)
      × ((i : ℕ) (x : Element) → i < j → get_elem? e.pages i ≡ some x → Outside va size x)
      × IsOwned e.file

  abbrev pub AllOutside : FaultEnv C D → Type 0
  AllOutside e = (i : ℕ) (x : Element) → get_elem? e.pages i ≡ some x → Outside va size x

  -- the environment after entry `j` is cleared
  after_clear : ℕ → Element → FaultEnv C D → FaultEnv C D
  after_clear j x e =
      record (set_paging (unmap_frame m (down page_size x.virtual_address) e.file.paging) e) {
        pages = set e.pages j cleared_element;
        page_last_ws_index = j;
      }

  entry-cleared :
      (j : ℕ) (x : Element) (e : FaultEnv C D)
      → j < length e.pages
      → in_range va size x ≡ true
      → free_entry m va size j (some x) e ≡ ok (after_clear j x e)
  unfolding free_entry after_clear
  entry-cleared j x e l h = rw (h, clear-eq j e.pages l) refl

  entry-kept :
      (j : ℕ) (x : Element) (e : FaultEnv C D)
      → in_range va size x ≡ false
      → free_entry m va size j (some x) e ≡ ok e
  unfolding free_entry
  entry-kept j x e h = rw h refl

  cleared-Before :
      (n j : ℕ) (x : Element) (e : FaultEnv C D)
      → Before n j e
      → j < n
      → Before n (j + 1) (after_clear j x e)
  unfolding after_clear
  cleared-Before n j x e (l, b, o) h = (length-set e.pages j cleared_element ∙ l, outside, o)
    where
      outside :
          (i : ℕ) (y : Element)
          → i < j + 1
          → get_elem? (set e.pages j cleared_element) i ≡ some y
          → Outside va size y
      outside i y k g = elim (ℕ_discrete j i) [
        | no a ↦
            b i y (omega (arith, k, a)) (sym (get_elem?-set_ne e.pages j i cleared_element a) ∙ g)
        | yes a ↦ inl (
            sym (
              ap (λ z. z.empty)
                (some-eq cleared_element y (
                  sym (get_elem?-set_self e.pages j cleared_element (subst⁻¹ (λ k. j < k) l h))
                  ∙ ap (get_elem? (set e.pages j cleared_element)) a
                  ∙ g))))
      ]

  kept-Before :
      (n j : ℕ) (x : Element) (e : FaultEnv C D)
      → Before n j e
      → get_elem? e.pages j ≡ some x
      → in_range va size x ≡ false
      → Before n (j + 1) e
  kept-Before n j x e (l, b, o) g r = (
    l,
    (λ i y k h. elim (ℕ_discrete i j) [
      | no a ↦ b i y (omega (arith, k, a)) h
      | yes a ↦
          subst (Outside va size) (some-eq x y (sym g ∙ sym (ap (get_elem? e.pages) a) ∙ h)) (inr r)
    ]),
    o,
  )

  free_entry-Before :
      (n j : ℕ) (r : Option Element) (e : FaultEnv C D)
      → Before n j e
      → j < n
      → get_elem? e.pages j ≡ r
      → Returns (Before n (j + 1)) (free_entry m va size j r e)
  unfolding free_entry
  free_entry-Before n j none e b l g = omega (arith, l, b.0, get_elem?-end e.pages j g)
  free_entry-Before n j (some x) e b l g = elim (Bool-cases (in_range va size x)) [
    | inl h ↦
        subst⁻¹ (Returns (Before n (j + 1))) (entry-cleared j x e (get_elem?-bound e.pages j x g) h)
          (cleared-Before n j x e b (subst (λ k. j < k) b.0 (get_elem?-bound e.pages j x g)))
    | inr h ↦ subst⁻¹ (Returns (Before n (j + 1))) (entry-kept j x e h) (kept-Before n j x e b g h)
  ]

  pub free_entries-Before :
      (k n j : ℕ) (e : FaultEnv C D)
      → Before n j e
      → j + k ≤ n
      → Returns (Before n (j + k)) (free_entries m k j va size e)
  unfolding free_entries
  free_entries-Before zero n j e b l = subst (λ i. Before n i e) (omega arith) b
  free_entries-Before (suc k) n j e b l =
      then_Returns (Before n (j + 1)) (Before n (j + suc k))
        (free_entry m va size j (get_elem? e.pages j) e) (free_entries m k (j + 1) va size)
        (free_entry-Before n j (get_elem? e.pages j) e b (omega (arith, l)) refl)
        (λ e' b'.
          subst (λ i. Returns (Before n i) (free_entries m k (j + 1) va size e')) (omega arith)
            (free_entries-Before k n (j + 1) e' b' (omega (arith, l))))
