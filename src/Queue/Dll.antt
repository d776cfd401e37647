-- ===== src/Queue/Dll.antt =====
-- The list macros of inc/queue.h keep a list well linked, and act on it as on a sequence.
use fos_project.Queue.Rewire.{
  Rewired, Seg-in_front, Seg-behind, NotIn-left, NotIn-right, Distinct-left, Distinct-right,
  Avoids-back, Avoids-front, Distinct-insert,
}
use fos_project.Prelude.Words.{u32_mod, add32}
use fos_project.Prelude.{
  length, length-append, ℕ, zero, suc, ◌%◌, ◌≤◌, ◌≡◌, refl, sym, ◌∙◌, ◌≢◌, ◌↔◌, true, Option, none,
  some, List, [], ◌∷◌, ◌++◌, arith,
}
use fos_project.Queue.{
  Store, list_empty, list_init, insert_after, insert_before, insert_head, insert_tail, walk,
}
use fos_project.Queue.Seg.{front, back, NotIn, Distinct, Seg, Seg-append, Seg-split}

-- The store holds the list `xs`: linked in both directions from first to last, with no element
-- twice, and with its length counted modulo 2^32.
pub record Dll (s : Store) (xs : List ℕ) : Type 0 where
  pub first_is : s.first ≡ front xs none
  pub last_is : s.last ≡ back none xs
  pub size_is : s.size ≡ length xs % u32_mod
  pub linked : Seg s.next s.prev none xs none
  pub distinct : Distinct xs

-- LIST_INIT makes the empty list.
pub list_init-Dll : (s : Store) → Dll (list_init s) []
unfolding list_init
list_init-Dll s = record {
  first_is = refl;
  last_is = refl;
  size_is = refl;
  linked = tt;
  distinct = tt;
}

pub list_empty-Dll : (s : Store) (xs : List ℕ) → Dll s xs → (list_empty s ≡ true) ↔ (xs ≡ [])
unfolding list_empty
list_empty-Dll s [] d = rw d.first_is ((λ h. refl), (λ h. refl))
list_empty-Dll s (x ∷ xs) d = rw d.first_is ((λ h. cc), (λ h. cc))

-- LIST_FOREACH visits the elements in their order, given fuel for each.
pub walk-Seg :
    (fuel : ℕ) (s : Store) (p : Option ℕ) (xs : List ℕ)
    → length xs ≤ fuel
    → Seg s.next s.prev p xs none
    → walk fuel (front xs none) s ≡ some xs
unfolding walk
walk-Seg fuel s p [] b l = refl
walk-Seg zero s p (x ∷ xs) b l = absurd (omega (arith, b))
walk-Seg (suc fuel) s p (x ∷ xs) b l =
    rw (l.1, walk-Seg fuel s (some x) xs (omega (arith, b)) l.2) refl

pub front-append : (xs ys : List ℕ) (n : Option ℕ) → front (xs ++ ys) n ≡ front xs (front ys n)
front-append [] ys n = refl
front-append (x ∷ xs) ys n = refl

pub back-append : (p : Option ℕ) (xs ys : List ℕ) → back p (xs ++ ys) ≡ back (back p xs) ys
back-append p [] ys = refl
back-append p (x ∷ xs) ys = back-append (some x) xs ys

-- The element in front of a place in the list links to the one behind it, and the other way round.
pub next-back :
    (nx pv : ℕ → Option ℕ) (p m : Option ℕ) (l : ℕ) (x : ℕ) (xs : List ℕ)
    → Seg nx pv p (x ∷ xs) m
    → back (some x) xs ≡ some l
    → nx l ≡ m
next-back nx pv p m l x [] s h = ground arith
next-back nx pv p m l x (y ∷ xs) s h = next-back nx pv (some x) m l y xs s.2 h

-- A store got from `s` by linking `e` in between `xs` and `ys`.
pub record Linked (s t : Store) (e : ℕ) (xs ys : List ℕ) : Type 0 where
  pub rewired :
      Rewired s.next s.prev t.next t.prev e (back none xs) (front ys none) (some e) (some e)
  pub next_e : t.next e ≡ front ys none
  pub prev_e : t.prev e ≡ back none xs
  pub first_is : t.first ≡ front xs (some e)
  pub last_is : t.last ≡ back (some e) ys
  pub size_is : t.size ≡ add32 s.size 1

pub Linked-Dll :
    (s t : Store) (e : ℕ) (xs ys : List ℕ)
    → Dll s (xs ++ ys)
    → NotIn e (xs ++ ys)
    → Linked s t e xs ys
    → Dll t (xs ++ (e ∷ ys))
Linked-Dll s t e xs ys d o l = record {
  first_is = l.first_is ∙ sym (front-append xs (e ∷ ys) none);
  last_is = l.last_is ∙ sym (back-append none xs (e ∷ ys));
  size_is = omega (arith, l.size_is, d.size_is, length-append xs ys, length-append xs (e ∷ ys));
  linked =
      Seg-append t.next t.prev none xs (e ∷ ys) none
        (Seg-in_front l.rewired none xs (front ys none) refl (Distinct-left xs ys d.distinct)
          (NotIn-left e xs ys o) (Avoids-front xs ys d.distinct) parts.0)
        (
          l.prev_e,
          l.next_e,
          Seg-behind l.rewired (back none xs) ys none refl (Distinct-right xs ys d.distinct)
              (NotIn-right e xs ys o) (Avoids-back none xs ys tt d.distinct) parts.1,
        );
  distinct = Distinct-insert e xs ys o d.distinct;
}
  where
    parts : Seg s.next s.prev none xs (front ys none) × Seg s.next s.prev (back none xs) ys none
    parts = Seg-split s.next s.prev none xs ys none d.linked

pub insert_head-Linked :
    (e : ℕ) (s : Store) (ys : List ℕ) → Dll s ys → NotIn e ys → Linked s (insert_head e s) e [] ys
unfolding insert_head
insert_head-Linked e s [] d o = ground arith
insert_head-Linked e s (y ∷ ys) d o = ground arith

pub insert_tail-Linked_nil : (e : ℕ) (s : Store) → Dll s [] → Linked s (insert_tail e s) e [] []
unfolding insert_tail
insert_tail-Linked_nil e s d = ground arith

pub insert_tail-Linked :
    (e l : ℕ) (s : Store) (x : ℕ) (xs : List ℕ)
    → Dll s (x ∷ xs)
    → NotIn e (x ∷ xs)
    → back (some x) xs ≡ some l
    → e ≢ l
    → Linked s (insert_tail e s) e (x ∷ xs) []
unfolding insert_tail
insert_tail-Linked e l s x xs d o b n = ground (arith, d.last_is)

pub insert_after-Linked :
    (l e : ℕ) (s : Store) (x : ℕ) (xs ys : List ℕ)
    → Dll s ((x ∷ xs) ++ ys)
    → s.next l ≡ front ys none
    → s.last ≡ back (some l) ys
    → back (some x) xs ≡ some l
    → e ≢ l
    → NotIn e ys
    → NotIn l ys
    → Linked s (insert_after l e s) e (x ∷ xs) ys
unfolding insert_after
insert_after-Linked l e s x xs [] d h t b n o m = ground arith
insert_after-Linked l e s x xs (y ∷ ys) d h t b n o m = ground arith

pub insert_before-Linked_nil :
    (l e : ℕ) (s : Store) (ys : List ℕ)
    → s.last ≡ back (some l) ys
    → s.prev l ≡ none
    → e ≢ l
    → Linked s (insert_before l e s) e [] (l ∷ ys)
unfolding insert_before
insert_before-Linked_nil l e s ys b h n = ground arith

pub insert_before-Linked :
    (l e a : ℕ) (s : Store) (x : ℕ) (xs ys : List ℕ)
    → s.first ≡ some x
    → s.last ≡ back (some l) ys
    → s.prev l ≡ some a
    → back (some x) xs ≡ some a
    → e ≢ l
    → a ≢ l
    → a ≢ e
    → Linked s (insert_before l e s) e (x ∷ xs) (l ∷ ys)
unfolding insert_before
insert_before-Linked l e a s x xs ys f b h k n m j = ground arith
