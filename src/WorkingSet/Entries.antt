-- ===== src/WorkingSet/Entries.antt =====
-- Setting, clearing and invalidating entries of a page working set.
use mathlib.Core.Path.{subst⁻¹}
use fos_project.Prelude.Words.{page_size}
use fos_project.WorkingSet.{
  Element, user_top, down, filled, ws_size, ws_invalidate, ws_set_entry, ws_get_virtual_address,
  env_page_ws_get_size, env_page_ws_invalidate, env_page_ws_set_entry,
  env_page_ws_get_virtual_address,
}
use fos_project.Prelude.{
  if◌then◌else◌, lt→ltb, Bool-cases, eq→==, ne→==, length, get_elem?, set, length-set,
  get_elem?-set_self, get_elem?-set_ne, Result, panic, ok, ℕ, zero, suc, ◌+◌, ◌≤◌, ◌<◌, ◌≡◌, refl,
  sym, ap, ◌∙◌, ◌≢◌, inl, inr, true, false, some, List, [], ◌∷◌, arith, ℕ_discrete,
}

abbrev taken : Element → ℕ
taken x = if x.empty then 0 else 1

size-set :
    (ws : List Element) (i : ℕ) (x y : Element)
    → get_elem? ws i ≡ some x
    → ws_size (set ws i y) + taken x ≡ ws_size ws + taken y
unfolding ws_size
size-set [] i x y h = cc
size-set (z ∷ ws) zero x y h = ground arith
size-set (z ∷ ws) (suc i) x y h = omega (arith, size-set ws i x y h)

-- What setting entry `i` gives.
abbrev pub Sets : ℕ → ℕ → List Element → Element → Result (List Element) → Type 0
Sets i va ws x panic = ⊥
Sets i va ws x (ok ws') =
    (length ws' ≡ length ws)
    × (env_page_ws_get_virtual_address i ws' ≡ ok (down page_size va))
    × ((j : ℕ) → i ≢ j → get_elem? ws' j ≡ get_elem? ws j)
    × (env_page_ws_get_size ws' ≡ env_page_ws_get_size ws + (if x.empty then 1 else 0))

entry-bound : (ws : List Element) (i : ℕ) (x : Element) → get_elem? ws i ≡ some x → i < length ws
entry-bound [] i x h = cc
entry-bound (y ∷ ws) zero x h = omega arith
entry-bound (y ∷ ws) (suc i) x h = omega (arith, entry-bound ws i x h)

set_entry-eq :
    (i va : ℕ) (ws : List Element)
    → i < length ws
    → va < user_top
    → env_page_ws_set_entry i va ws ≡ ok (set ws i (filled page_size va))
unfolding env_page_ws_set_entry ws_set_entry
set_entry-eq i va ws h k = rw (lt→ltb i (length ws) h, lt→ltb va user_top k) refl

address-eq :
    (i : ℕ) (ws : List Element) (x : Element)
    → get_elem? ws i ≡ some x
    → env_page_ws_get_virtual_address i ws ≡ ok (down page_size x.virtual_address)
unfolding env_page_ws_get_virtual_address ws_get_virtual_address
address-eq i ws x h = ground arith

-- env_page_ws_set_entry at an index of the working set, for a user address, returns: the entry holds
-- the address of the page, the others stay, and the set has one page more if the entry was empty and
-- as many as before if it was not.
pub env_page_ws_set_entry-Sets :
    (i va : ℕ) (ws : List Element) (x : Element)
    → get_elem? ws i ≡ some x
    → va < user_top
    → Sets i va ws x (env_page_ws_set_entry i va ws)
env_page_ws_set_entry-Sets i va ws x h k =
    let b = entry-bound ws i x h in
    let y = filled page_size va in
    subst⁻¹ (Sets i va ws x) (set_entry-eq i va ws b k) (
      length-set ws i y,
      address-eq i (set ws i y) y (get_elem?-set_self ws i y b) ∙ ap ok (omega arith),
      (λ j n. get_elem?-set_ne ws i j y n),
      unfold env_page_ws_get_size in ground (arith, size-set ws i x y h),
    )

-- The entries that are not empty hold different pages.
abbrev pub Lacks : ℕ → List Element → Type 0
Lacks va [] = Unit
Lacks va (x ∷ ws) =
    ((x.empty ≡ false) → down page_size x.virtual_address ≢ down page_size va) × Lacks va ws

abbrev pub Unique : List Element → Type 0
Unique [] = Unit
Unique (x ∷ ws) = ((x.empty ≡ false) → Lacks x.virtual_address ws) × Unique ws

-- An empty entry has the address 0, which clearing gives it.
abbrev pub Tidy : List Element → Type 0
Tidy [] = Unit
Tidy (x ∷ ws) = ((x.empty ≡ true) → x.virtual_address ≡ 0) × Tidy ws

Lacks-same :
    (a b : ℕ) (ws : List Element) → down page_size a ≡ down page_size b → Lacks a ws → Lacks b ws
Lacks-same a b [] e l = tt
Lacks-same a b (x ∷ ws) e l = ((λ f h. l.0 f (h ∙ sym e)), Lacks-same a b ws e l.1)

-- env_page_ws_invalidate on a working set whose pages differ and whose empty entries have the address
-- 0, for an address outside page 0: no entry holds the page afterwards.
pub env_page_ws_invalidate-Lacks :
    (va : ℕ) (ws : List Element)
    → Unique ws
    → Tidy ws
    → page_size ≤ va
    → Lacks va (env_page_ws_invalidate va ws)
unfolding env_page_ws_invalidate ws_invalidate
env_page_ws_invalidate-Lacks va [] u t h = tt
env_page_ws_invalidate-Lacks va (x ∷ ws) u t h =
    elim (ℕ_discrete (down page_size x.virtual_address) (down page_size va)) [
      | no n ↦
          rw (ne→== (down page_size x.virtual_address) (down page_size va) n)
            ((λ f. n), env_page_ws_invalidate-Lacks va ws u.1 t.1 h)
      | yes e ↦
          rw (eq→== (down page_size x.virtual_address) (down page_size va) e)
            ((λ f. cc), Lacks-same x.virtual_address va ws e (u.0 (used e)))
    ]
  where
    used : down page_size x.virtual_address ≡ down page_size va → x.empty ≡ false
    used e = elim (Bool-cases x.empty) [ inr f ↦ f | inl f ↦ absurd (omega (arith, e, t.0 f)) ]

-- A flaw of env_page_ws_invalidate: it does not look whether an entry is in use, so that for an address
-- of page 0 an empty entry in front of the one of that page is cleared, and the page stays.
env_page_ws_invalidate-zero :
    (va : ℕ) (x y : Element) (ws : List Element)
    → va < page_size
    → x.virtual_address ≡ 0
    → y.virtual_address < page_size
    → y.empty ≡ false
    → ¬ Lacks va (env_page_ws_invalidate va (x ∷ y ∷ ws))
unfolding env_page_ws_invalidate ws_invalidate
env_page_ws_invalidate-zero va x y ws h e k f =
    rw (eq→== (down page_size x.virtual_address) (down page_size va) (omega (arith, e, h)))
      (λ l. l.1.0 f (omega arith))
