-- ===== src/Queue/Seg.antt =====
-- Chains of elements in the store.
use fos_project.Prelude.{ℕ, ◌≡◌, ◌≢◌, Option, some, List, [], ◌∷◌, ◌++◌, arith}
use fos_project.Queue.{update}

-- what stands at the front of a list, and at its end, with a default
abbrev pub front : List ℕ → Option ℕ → Option ℕ
front [] n = n
front (x ∷ xs) n = some x

abbrev pub back : Option ℕ → List ℕ → Option ℕ
back p [] = p
back p (x ∷ xs) = back (some x) xs

abbrev pub NotIn : ℕ → List ℕ → Type 0
NotIn e [] = Unit
NotIn e (x ∷ xs) = (e ≢ x) × NotIn e xs

abbrev pub Distinct : List ℕ → Type 0
Distinct [] = Unit
Distinct (x ∷ xs) = NotIn x xs × Distinct xs

pub back-in : (x y : ℕ) (xs : List ℕ) (l : ℕ) → NotIn x (y ∷ xs) → back (some y) xs ≡ some l → x ≢ l
back-in x y [] l o b = ground arith
back-in x y (z ∷ xs) l o b = back-in x z xs l o.1 b

-- `xs` is linked in both directions, with `p` before it and `n` behind it.
abbrev pub Seg : (ℕ → Option ℕ) → (ℕ → Option ℕ) → Option ℕ → List ℕ → Option ℕ → Type 0
Seg nx pv p [] n = Unit
Seg nx pv p (x ∷ xs) n = (pv x ≡ p) × (nx x ≡ front xs n) × Seg nx pv (some x) xs n

module _ (nx pv : ℕ → Option ℕ) where
  pub Seg-append :
      (p : Option ℕ) (xs ys : List ℕ) (n : Option ℕ)
      → Seg nx pv p xs (front ys n)
      → Seg nx pv (back p xs) ys n
      → Seg nx pv p (xs ++ ys) n
  Seg-append p [] ys n s t = t
  Seg-append p (x ∷ []) ys n s t = (s.0, s.1, t)
  Seg-append p (x ∷ y ∷ xs) ys n s t = (s.0, s.1, Seg-append (some x) (y ∷ xs) ys n s.2 t)

  pub Seg-split :
      (p : Option ℕ) (xs ys : List ℕ) (n : Option ℕ)
      → Seg nx pv p (xs ++ ys) n
      → Seg nx pv p xs (front ys n) × Seg nx pv (back p xs) ys n
  Seg-split p [] ys n s = (tt, s)
  Seg-split p (x ∷ []) ys n s = ((s.0, s.1, tt), s.2)
  Seg-split p (x ∷ y ∷ xs) ys n s =
      let (a, b) = Seg-split (some x) (y ∷ xs) ys n s.2 in ((s.0, s.1, a), b)

  -- A write to the links of an element outside the chain leaves the chain.
  pub Seg-update_next :
      (e : ℕ) (v p : Option ℕ) (xs : List ℕ) (n : Option ℕ)
      → NotIn e xs
      → Seg nx pv p xs n
      → Seg (update nx e v) pv p xs n
  Seg-update_next e v p [] n o s = tt
  Seg-update_next e v p (x ∷ xs) n o s =
      (s.0, ground arith, Seg-update_next e v (some x) xs n o.1 s.2)

  pub Seg-update_prev :
      (e : ℕ) (v p : Option ℕ) (xs : List ℕ) (n : Option ℕ)
      → NotIn e xs
      → Seg nx pv p xs n
      → Seg nx (update pv e v) p xs n
  Seg-update_prev e v p [] n o s = tt
  Seg-update_prev e v p (x ∷ xs) n o s =
      (ground arith, s.1, Seg-update_prev e v (some x) xs n o.1 s.2)

  -- A write to the last element's next link changes what is behind the chain.
  pub Seg-set_behind :
      (p v : Option ℕ) (x : ℕ) (xs : List ℕ) (l : ℕ) (n : Option ℕ)
      → Distinct (x ∷ xs)
      → back (some x) xs ≡ some l
      → Seg nx pv p (x ∷ xs) n
      → Seg (update nx l v) pv p (x ∷ xs) v
  Seg-set_behind p v x [] l n d b s = (s.0, ground arith, tt)
  Seg-set_behind p v x (y ∷ xs) l n d b s = (
    s.0,
    let o : x ≢ l = back-in x y xs l d.0 b in ground arith,
    Seg-set_behind (some x) v y xs l n d.1 b s.2,
  )
