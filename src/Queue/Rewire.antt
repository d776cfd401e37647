-- ===== src/Queue/Rewire.antt =====
-- What the writes of a list macro do to the chain in front of a place in the list and to the chain
-- behind it.
use mathlib.Core.Path.{subst}
use fos_project.Prelude.{ℕ, ◌≡◌, refl, sym, ◌∙◌, ◌≢◌, Option, none, some, List, [], ◌∷◌, ◌++◌}
use fos_project.Queue.Seg.{front, back, NotIn, Distinct, back-in, Seg}

-- Outside the element `e`, the writes set the next link of `p` to `t` and the previous link of `n`
-- to `u`, where `p` and `n` are no null pointers, and nothing else.
pub record Rewired (nx pv nx' pv' : ℕ → Option ℕ) (e : ℕ) (p n t u : Option ℕ) : Type 0 where
  pub next_p : (a : ℕ) → p ≡ some a → nx' a ≡ t
  pub prev_n : (b : ℕ) → n ≡ some b → pv' b ≡ u
  pub next_else : (y : ℕ) → y ≢ e → p ≢ some y → nx' y ≡ nx y
  pub prev_else : (y : ℕ) → y ≢ e → n ≢ some y → pv' y ≡ pv y

abbrev pub Avoids : Option ℕ → List ℕ → Type 0
Avoids none xs = Unit
Avoids (some a) xs = NotIn a xs

pub Avoids-head : (p : Option ℕ) (x : ℕ) (xs : List ℕ) → Avoids p (x ∷ xs) → p ≢ some x
Avoids-head none x xs o = λ h. cc
Avoids-head (some a) x xs o = λ h. o.0 (cc)

Avoids-tail : (p : Option ℕ) (x : ℕ) (xs : List ℕ) → Avoids p (x ∷ xs) → Avoids p xs
Avoids-tail none x xs o = tt
Avoids-tail (some a) x xs o = o.1

pub back-some : (x : ℕ) (xs : List ℕ) → (l : ℕ) × (back (some x) xs ≡ some l)
back-some x [] = (x, refl)
back-some x (y ∷ xs) = back-some y xs

module _ {nx pv nx' pv' : ℕ → Option ℕ} {e : ℕ} {p n t u : Option ℕ}
    (r : Rewired nx pv nx' pv' e p n t u) where
  Seg-same :
      (q : Option ℕ) (xs : List ℕ) (m : Option ℕ)
      → NotIn e xs
      → Avoids p xs
      → Avoids n xs
      → Seg nx pv q xs m
      → Seg nx' pv' q xs m
  Seg-same q [] m o a b s = tt
  Seg-same q (x ∷ xs) m o a b s = (
    r.prev_else x (λ h. o.0 (sym h)) (Avoids-head n x xs b) ∙ s.0,
    r.next_else x (λ h. o.0 (sym h)) (Avoids-head p x xs a) ∙ s.1,
    Seg-same (some x) xs m o.1 (Avoids-tail p x xs a) (Avoids-tail n x xs b) s.2,
  )

  -- the chain in front, which ends at `p`
  pub Seg-in_front :
      (q : Option ℕ) (xs : List ℕ) (m : Option ℕ)
      → back q xs ≡ p
      → Distinct xs
      → NotIn e xs
      → Avoids n xs
      → Seg nx pv q xs m
      → Seg nx' pv' q xs t
  Seg-in_front q [] m l d o b s = tt
  Seg-in_front q (x ∷ []) m l d o b s =
      (r.prev_else x (λ h. o.0 (sym h)) (Avoids-head n x [] b) ∙ s.0, r.next_p x (sym l), tt)
  Seg-in_front q (x ∷ y ∷ xs) m l d o b s = (
    r.prev_else x (λ h. o.0 (sym h)) (Avoids-head n x (y ∷ xs) b) ∙ s.0,
    r.next_else x (λ h. o.0 (sym h)) (λ h. back-in x y xs x d.0 (l ∙ h) refl) ∙ s.1,
    Seg-in_front (some x) (y ∷ xs) m l d.1 o.1 (Avoids-tail n x (y ∷ xs) b) s.2,
  )

  -- the chain behind, which starts at `n`
  pub Seg-behind :
      (q : Option ℕ) (xs : List ℕ) (m : Option ℕ)
      → front xs none ≡ n
      → Distinct xs
      → NotIn e xs
      → Avoids p xs
      → Seg nx pv q xs m
      → Seg nx' pv' u xs m
  Seg-behind q [] m l d o a s = tt
  Seg-behind q (x ∷ xs) m l d o a s = (
    r.prev_n x (sym l),
    r.next_else x (λ h. o.0 (sym h)) (Avoids-head p x xs a) ∙ s.1,
    Seg-same (some x) xs m o.1 (Avoids-tail p x xs a) (subst (λ z. Avoids z xs) l d.0) s.2,
  )

-- Facts on lists without repetition.
pub NotIn-left : (e : ℕ) (xs ys : List ℕ) → NotIn e (xs ++ ys) → NotIn e xs
NotIn-left e [] ys o = tt
NotIn-left e (x ∷ xs) ys o = (o.0, NotIn-left e xs ys o.1)

pub NotIn-right : (e : ℕ) (xs ys : List ℕ) → NotIn e (xs ++ ys) → NotIn e ys
NotIn-right e [] ys o = o
NotIn-right e (x ∷ xs) ys o = NotIn-right e xs ys o.1

NotIn-append : (e : ℕ) (xs ys : List ℕ) → NotIn e xs → NotIn e ys → NotIn e (xs ++ ys)
NotIn-append e [] ys o k = k
NotIn-append e (x ∷ xs) ys o k = (o.0, NotIn-append e xs ys o.1 k)

pub Distinct-left : (xs ys : List ℕ) → Distinct (xs ++ ys) → Distinct xs
Distinct-left [] ys d = tt
Distinct-left (x ∷ xs) ys d = (NotIn-left x xs ys d.0, Distinct-left xs ys d.1)

pub Distinct-right : (xs ys : List ℕ) → Distinct (xs ++ ys) → Distinct ys
Distinct-right [] ys d = d
Distinct-right (x ∷ xs) ys d = Distinct-right xs ys d.1

-- The last element of the front part is not in the rear part, nor the first one of the rear part
-- in the front part.
pub Avoids-back :
    (q : Option ℕ) (xs ys : List ℕ)
    → Avoids q (xs ++ ys)
    → Distinct (xs ++ ys)
    → Avoids (back q xs) ys
Avoids-back q [] ys a d = a
Avoids-back q (x ∷ xs) ys a d = Avoids-back (some x) xs ys d.0 d.1

pub Avoids-front : (xs ys : List ℕ) → Distinct (xs ++ ys) → Avoids (front ys none) xs
Avoids-front xs [] d = tt
Avoids-front [] (y ∷ ys) d = tt
Avoids-front (x ∷ xs) (y ∷ ys) d =
    (λ h. (NotIn-right x xs (y ∷ ys) d.0).0 (sym h), Avoids-front xs (y ∷ ys) d.1)

pub Distinct-insert :
    (e : ℕ) (xs ys : List ℕ) → NotIn e (xs ++ ys) → Distinct (xs ++ ys) → Distinct (xs ++ (e ∷ ys))
Distinct-insert e [] ys o d = (o, d)
Distinct-insert e (x ∷ xs) ys o d = (
  NotIn-append x xs (e ∷ ys) (NotIn-left x xs ys d.0) (λ h. o.0 (sym h), NotIn-right x xs ys d.0),
  Distinct-insert e xs ys o.1 d.1,
)

pub Distinct-delete :
    (e : ℕ) (xs ys : List ℕ) → Distinct (xs ++ (e ∷ ys)) → NotIn e (xs ++ ys) × Distinct (xs ++ ys)
Distinct-delete e [] ys d = d
Distinct-delete e (x ∷ xs) ys d =
    let r = Distinct-delete e xs ys d.1 in
    let o : NotIn x (e ∷ ys) = NotIn-right x xs (e ∷ ys) d.0 in
    ((λ h. o.0 (sym h), r.0), (NotIn-append x xs ys (NotIn-left x xs (e ∷ ys) d.0) o.1, r.1))
