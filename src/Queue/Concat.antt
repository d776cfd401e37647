-- ===== src/Queue/Concat.antt =====
-- LIST_CONCAT of inc/queue.h, of two lists that share the store of links.
use mathlib.Core.List.{append-nil}
use fos_project.Queue.Rewire.{Avoids, back-some, Avoids-back, Avoids-front}
use mathlib.Core.Path.{subst⁻¹, subst}
use fos_project.Queue.Seg.{
  front, back, NotIn, Distinct, Seg, Seg-append, Seg-update_next, Seg-update_prev, Seg-set_behind,
}
use fos_project.Queue.Dll.{Dll, back-append}
use fos_project.Queue.{Store, update, set_prev, set_next}
use fos_project.Prelude.{
  length, ℕ, ◌%◌, ◌≡◌, sym, ◌∙◌, Option, none, some, List, [], ◌∷◌, ◌++◌, arith,
}
use fos_project.Prelude.Words.{u32_mod, add32}

-- the head of a second list
pub record Head : Type 0 where
  pub first : Option ℕ
  pub last : Option ℕ
  pub size : ℕ

-- the macro on the first elements of both lists; the last pointer of a list that is not empty is
-- not NULL
join : Option ℕ → Option ℕ → Head → Store → Store × Head
join none q h s = (record s { first = h.first; last = h.last; size = add32 s.size h.size }, h)
join (some x) none h s = (record s { size = add32 s.size h.size }, h)
join (some x) (some y) h s =
    let s1 = set_next s.last h.first s in
    let s2 = set_prev h.first s1.last s1 in
    let k : Head = record { first = none; last = none; size = 0 } in
    (record s2 { last = h.last; size = add32 s2.size k.size }, k)

-- LIST_CONCAT
pub concat : Head → Store → Store × Head
concat h s = join s.first h.first h s

-- the second list, as a list of the same store
abbrev pub with_head : Head → Store → Store
with_head h s = record s { first = h.first; last = h.last; size = h.size }

-- The store links `xs` from first to last, and counts `n` elements.
pub record Chained (t : Store) (xs : List ℕ) (n : ℕ) : Type 0 where
  pub first_is : t.first ≡ front xs none
  pub last_is : t.last ≡ back none xs
  pub size_is : t.size ≡ n % u32_mod
  pub linked : Seg t.next t.prev none xs none

-- the elements that the macro counts
abbrev pub counted : List ℕ → List ℕ → ℕ
counted [] ys = length ys
counted (x ∷ xs) ys = length (x ∷ xs)

NotIn-outside :
    (l x : ℕ) (xs ys : List ℕ) → Distinct ((x ∷ xs) ++ ys) → back (some x) xs ≡ some l → NotIn l ys
NotIn-outside l x xs ys d b = subst (λ p. Avoids p ys) b (Avoids-back none (x ∷ xs) ys tt d)

Seg-set_front :
    (nx pv : ℕ → Option ℕ) (p v : Option ℕ) (y : ℕ) (ys : List ℕ)
    → NotIn y ys
    → Seg nx pv p (y ∷ ys) none
    → Seg nx (update pv y v) v (y ∷ ys) none
Seg-set_front nx pv p v y ys o s =
    (ground arith, s.1, Seg-update_prev nx pv y v (some y) ys none o s.2)

joined :
    (l : ℕ) (s : Store) (h : Head) (x y : ℕ) (xs ys : List ℕ)
    → Dll s (x ∷ xs)
    → Dll (with_head h s) (y ∷ ys)
    → Distinct ((x ∷ xs) ++ (y ∷ ys))
    → back (some x) xs ≡ some l
    → Chained (join (some x) (some y) h s).0 ((x ∷ xs) ++ (y ∷ ys)) (length (x ∷ xs))
unfolding join set_next set_prev
joined l s h x y xs ys d e n b =
    rw (e.first_is, d.last_is, b)
      (record {
        first_is = d.first_is;
        last_is = e.last_is ∙ sym (back-append none (x ∷ xs) (y ∷ ys));
        size_is = omega (arith, d.size_is);
        linked =
            Seg-append (update s.next l (some y)) (update s.prev y (some l)) none (x ∷ xs) (y ∷ ys)
              none
              (Seg-update_prev (update s.next l (some y)) s.prev y (some l) none (x ∷ xs) (some y)
                (Avoids-front (x ∷ xs) (y ∷ ys) n)
                (Seg-set_behind s.next s.prev none (some y) x xs l none d.distinct b d.linked))
              (subst⁻¹
                (λ p. Seg (update s.next l (some y)) (update s.prev y (some l)) p (y ∷ ys) none) b
                (Seg-set_front (update s.next l (some y)) s.prev none (some l) y ys e.distinct.0 (
                  Seg-update_next s.next s.prev l (some y) none (y ∷ ys) none
                    (NotIn-outside l x xs (y ∷ ys) n b) e.linked)));
      })

from_join :
    (h : Head) (s : Store) (xs ys : List ℕ) (n : ℕ)
    → Dll s xs
    → Dll (with_head h s) ys
    → Chained (join (front xs none) (front ys none) h s).0 (xs ++ ys) n
    → Chained (concat h s).0 (xs ++ ys) n
unfolding concat
from_join h s xs ys n d e c =
    subst⁻¹ (λ p. Chained (join p h.first h s).0 (xs ++ ys) n) d.first_is
      (subst⁻¹ (λ q. Chained (join (front xs none) q h s).0 (xs ++ ys) n) e.first_is c)

-- Two lists of one store have no element in common. Then LIST_CONCAT links the elements of the first
-- and behind them those of the second, in both directions and in their order. It counts all of them
-- only if one of the lists is empty: when neither is, the size stays that of the first list.
pub concat-Chained :
    (h : Head) (s : Store) (xs ys : List ℕ)
    → Dll s xs
    → Dll (with_head h s) ys
    → Distinct (xs ++ ys)
    → Chained (concat h s).0 (xs ++ ys) (counted xs ys)
unfolding join
concat-Chained h s [] ys d e n = from_join h s [] ys (length ys) d e (record {
  first_is = e.first_is;
  last_is = e.last_is;
  size_is = omega (arith, d.size_is, e.size_is);
  linked = e.linked;
})
concat-Chained h s (x ∷ xs) [] d e n = from_join h s (x ∷ xs) [] (length (x ∷ xs)) d e (record {
  first_is = d.first_is;
  last_is = d.last_is ∙ sym (back-append none (x ∷ xs) []);
  size_is = omega (arith, d.size_is, e.size_is);
  linked = subst⁻¹ (λ zs. Seg s.next s.prev none zs none) (append-nil (x ∷ xs)) d.linked;
})
concat-Chained h s (x ∷ xs) (y ∷ ys) d e n =
    let (l, b) = back-some x xs in
    from_join h s (x ∷ xs) (y ∷ ys) (length (x ∷ xs)) d e (joined l s h x y xs ys d e n b)
