-- ===== src/Queue/Remove.antt =====
-- LIST_REMOVE of inc/queue.h on a well linked list.
use fos_project.Prelude.Words.{sub32}
use fos_project.Queue.Rewire.{
  Rewired, Avoids-head, back-some, Seg-in_front, Seg-behind, NotIn-left, NotIn-right, Distinct-left,
  Distinct-right, Avoids-back, Avoids-front, Distinct-delete,
}
use fos_project.Queue.Seg.{front, back, NotIn, Distinct, Seg, Seg-append, Seg-split}
use fos_project.Prelude.{
  length, length-append, ℕ, ◌≤◌, ◌≡◌, refl, sym, ap, ◌∙◌, ◌≢◌, Option, none, some, List, [], ◌∷◌,
  ◌++◌, arith,
}
use fos_project.Queue.{Store, remove, walk}
use fos_project.Queue.Dll.{Dll, walk-Seg, front-append, back-append}

-- A store got from `s` by unlinking `e` from between `xs` and `ys`.
record Unlinked (s t : Store) (e : ℕ) (xs ys : List ℕ) : Type 0 where
  rewired :
      Rewired s.next s.prev t.next t.prev e
        (back none xs)
        (front ys none)
        (front ys none)
        (back none xs)
  first_is : t.first ≡ front xs (front ys none)
  last_is : t.last ≡ back (back none xs) ys
  size_is : t.size ≡ sub32 s.size 1

Unlinked-Dll :
    (s t : Store) (e : ℕ) (xs ys : List ℕ)
    → Dll s (xs ++ (e ∷ ys))
    → Unlinked s t e xs ys
    → Dll t (xs ++ ys)
Unlinked-Dll s t e xs ys d l = record {
  first_is = l.first_is ∙ sym (front-append xs ys none);
  last_is = l.last_is ∙ sym (back-append none xs ys);
  size_is = omega (arith, l.size_is, d.size_is, length-append xs ys, length-append xs (e ∷ ys));
  linked =
      Seg-append t.next t.prev none xs ys none
        (Seg-in_front l.rewired none xs (some e) refl (Distinct-left xs ys rest.1)
          (NotIn-left e xs ys rest.0) (Avoids-front xs ys rest.1) parts.0)
        (Seg-behind l.rewired (some e) ys none refl (Distinct-right xs ys rest.1)
          (NotIn-right e xs ys rest.0) (Avoids-back none xs ys tt rest.1) parts.1.2);
  distinct = rest.1;
}
  where
    rest : NotIn e (xs ++ ys) × Distinct (xs ++ ys)
    rest = Distinct-delete e xs ys d.distinct

    parts : Seg s.next s.prev none xs (some e) × Seg s.next s.prev (back none xs) (e ∷ ys) none
    parts = Seg-split s.next s.prev none xs (e ∷ ys) none d.linked

remove-Unlinked :
    (e : ℕ) (s : Store) (xs ys : List ℕ) (p n : Option ℕ)
    → s.prev e ≡ p
    → s.next e ≡ n
    → back none xs ≡ p
    → front ys none ≡ n
    → p ≢ some e
    → n ≢ some e
    → s.first ≡ front xs (some e)
    → s.last ≡ back (some e) ys
    → (p ≡ none → front xs (front ys none) ≡ n)
    → (n ≡ none → back (back none xs) ys ≡ p)
    → (p ≢ none → front xs (front ys none) ≡ front xs (some e))
    → (n ≢ none → back (back none xs) ys ≡ back (some e) ys)
    → Unlinked s (remove e s) e xs ys
unfolding remove
remove-Unlinked e s xs ys none none hp hn bp fn dp dn f l a b c d = ground arith
remove-Unlinked e s xs ys none (some n) hp hn bp fn dp dn f l a b c d = ground arith
remove-Unlinked e s xs ys (some p) none hp hn bp fn dp dn f l a b c d = ground arith
remove-Unlinked e s xs ys (some p) (some n) hp hn bp fn dp dn f l a b c d = ground arith

front_of_none : (xs : List ℕ) (n : Option ℕ) → back none xs ≡ none → front xs n ≡ n
front_of_none [] n h = refl
front_of_none (x ∷ xs) n h = let (l, b) = back-some x xs in cc

front_of_some : (xs : List ℕ) (m n : Option ℕ) → back none xs ≢ none → front xs m ≡ front xs n
front_of_some [] m n h = absurd (h refl)
front_of_some (x ∷ xs) m n h = refl

back_of_none : (ys : List ℕ) (p : Option ℕ) → front ys none ≡ none → back p ys ≡ p
back_of_none [] p h = refl
back_of_none (y ∷ ys) p h = cc

back_of_some : (ys : List ℕ) (p q : Option ℕ) → front ys none ≢ none → back p ys ≡ back q ys
back_of_some [] p q h = absurd (h refl)
back_of_some (y ∷ ys) p q h = refl

front-ne : (e : ℕ) (ys : List ℕ) → NotIn e ys → front ys none ≢ some e
front-ne e [] o = λ h. cc
front-ne e (y ∷ ys) o = λ h. o.0 (cc)

-- LIST_REMOVE of an element of the list takes it out and leaves the order of the others.
pub remove-Dll :
    (e : ℕ) (s : Store) (xs ys : List ℕ) → Dll s (xs ++ (e ∷ ys)) → Dll (remove e s) (xs ++ ys)
remove-Dll e s xs ys d = Unlinked-Dll s (remove e s) e xs ys d (
    remove-Unlinked e s xs ys (back none xs) (front ys none) parts.1.0 parts.1.1 refl refl
      (Avoids-head (back none xs) e ys (Avoids-back none xs (e ∷ ys) tt d.distinct))
      (front-ne e ys (Distinct-right xs (e ∷ ys) d.distinct).0)
      (d.first_is ∙ front-append xs (e ∷ ys) none) (d.last_is ∙ back-append none xs (e ∷ ys))
      (front_of_none xs (front ys none)) (back_of_none ys (back none xs))
      (front_of_some xs (front ys none) (some e)) (back_of_some ys (back none xs) (some e)))
  where
    parts : Seg s.next s.prev none xs (some e) × Seg s.next s.prev (back none xs) (e ∷ ys) none
    parts = Seg-split s.next s.prev none xs (e ∷ ys) none d.linked

-- With fuel for each element of a well linked list, or more, LIST_FOREACH comes to its end and has
-- visited the elements, in their order.
pub walk-Dll :
    (fuel : ℕ) (s : Store) (xs : List ℕ)
    → Dll s xs
    → length xs ≤ fuel
    → walk fuel s.first s ≡ some xs
walk-Dll fuel s xs d b = ap (λ p. walk fuel p s) d.first_is ∙ walk-Seg fuel s none xs b d.linked
