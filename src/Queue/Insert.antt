-- ===== src/Queue/Insert.antt =====
-- The four insertion macros of inc/queue.h on a well linked list.
use fos_project.Queue.Rewire.{Avoids, back-some, NotIn-left, NotIn-right, Avoids-back}
use fos_project.Queue.Seg.{front, back, NotIn, Seg, Seg-split}
use mathlib.Core.List.{append_assoc, append-nil}
use mathlib.Core.Path.{subst, subst⁻¹}
use fos_project.Prelude.{ℕ, ◌≡◌, refl, sym, ap, ◌∙◌, ◌≢◌, none, some, List, [], ◌∷◌, ◌++◌, arith}
use fos_project.Queue.{Store, insert_after, insert_before, insert_head, insert_tail}
use fos_project.Queue.Dll.{
  Dll, back-append, next-back, Linked-Dll, insert_head-Linked, insert_tail-Linked_nil,
  insert_tail-Linked, insert_after-Linked, insert_before-Linked_nil, insert_before-Linked,
}

back-in_list :
    (x : ℕ) (xs : List ℕ) (l e : ℕ) → NotIn e (x ∷ xs) → back (some x) xs ≡ some l → e ≢ l
back-in_list x [] l e o b = ground arith
back-in_list x (y ∷ xs) l e o b = back-in_list y xs l e o.1 b

-- LIST_INSERT_HEAD of an element that is not in the list puts it in front of the list.
insert_head-Dll :
    (e : ℕ) (s : Store) (xs : List ℕ) → Dll s xs → NotIn e xs → Dll (insert_head e s) (e ∷ xs)
insert_head-Dll e s xs d o =
    Linked-Dll s (insert_head e s) e [] xs d o (insert_head-Linked e s xs d o)

-- LIST_INSERT_TAIL of an element that is not in the list puts it behind the list.
pub insert_tail-Dll :
    (e : ℕ) (s : Store) (xs : List ℕ)
    → Dll s xs
    → NotIn e xs
    → Dll (insert_tail e s) (xs ++ (e ∷ []))
insert_tail-Dll e s [] d o =
    Linked-Dll s (insert_tail e s) e [] [] d o (insert_tail-Linked_nil e s d)
insert_tail-Dll e s (x ∷ xs) d o =
    let (l, b) = back-some x xs in
    Linked-Dll s (insert_tail e s) e (x ∷ xs) [] (subst⁻¹ (Dll s) (append-nil (x ∷ xs)) d)
      (subst⁻¹ (NotIn e) (append-nil (x ∷ xs)) o)
      (insert_tail-Linked e l s x xs d o b (back-in_list x xs l e o b))

after_last :
    (l e : ℕ) (s : Store) (x : ℕ) (xs ys : List ℕ)
    → Dll s ((x ∷ xs) ++ ys)
    → back (some x) xs ≡ some l
    → NotIn e ((x ∷ xs) ++ ys)
    → Dll (insert_after l e s) ((x ∷ xs) ++ (e ∷ ys))
after_last l e s x xs ys d b o = Linked-Dll s (insert_after l e s) e (x ∷ xs) ys d o (
    insert_after-Linked l e s x xs ys d
      (next-back s.next s.prev none (front ys none) l x xs parts.0 b)
      (d.last_is ∙ back-append none (x ∷ xs) ys ∙ ap (λ p. back p ys) b) b
      (back-in_list x xs l e (NotIn-left e (x ∷ xs) ys o) b) (NotIn-right e (x ∷ xs) ys o)
      (subst (λ p. Avoids p ys) b (Avoids-back none (x ∷ xs) ys tt d.distinct)))
  where
    parts :
        Seg s.next s.prev none (x ∷ xs) (front ys none)
        × Seg s.next s.prev (back (some x) xs) ys none
    parts = Seg-split s.next s.prev none (x ∷ xs) ys none d.linked

-- LIST_INSERT_AFTER of an element that is not in the list puts it right behind the given one.
insert_after-Dll :
    (l e : ℕ) (s : Store) (xs ys : List ℕ)
    → Dll s (xs ++ (l ∷ ys))
    → NotIn e (xs ++ (l ∷ ys))
    → Dll (insert_after l e s) (xs ++ (l ∷ e ∷ ys))
insert_after-Dll l e s [] ys d o = after_last l e s l [] ys d refl o
insert_after-Dll l e s (x ∷ xs) ys d o =
    subst (Dll (insert_after l e s)) (append_assoc (x ∷ xs) (l ∷ []) (e ∷ ys)) (
      after_last l e s x (xs ++ (l ∷ [])) ys (subst⁻¹ (Dll s) (append_assoc (x ∷ xs) (l ∷ []) ys) d)
        (back-append (some x) xs (l ∷ []))
        (subst⁻¹ (NotIn e) (append_assoc (x ∷ xs) (l ∷ []) ys) o))

-- LIST_INSERT_BEFORE of an element that is not in the list puts it right in front of the given one.
insert_before-Dll :
    (l e : ℕ) (s : Store) (xs ys : List ℕ)
    → Dll s (xs ++ (l ∷ ys))
    → NotIn e (xs ++ (l ∷ ys))
    → Dll (insert_before l e s) (xs ++ (e ∷ l ∷ ys))
insert_before-Dll l e s [] ys d o =
    Linked-Dll s (insert_before l e s) e [] (l ∷ ys) d o
      (insert_before-Linked_nil l e s ys d.last_is d.linked.0 o.0)
insert_before-Dll l e s (x ∷ xs) ys d o =
    let (a, b) = back-some x xs in
    Linked-Dll s (insert_before l e s) e (x ∷ xs) (l ∷ ys) d o (
      insert_before-Linked l e a s x xs ys d.first_is
        (d.last_is ∙ back-append none (x ∷ xs) (l ∷ ys)) (parts.1.0 ∙ b) b
        (NotIn-right e (x ∷ xs) (l ∷ ys) o).0 (apart b).0
        (λ h. back-in_list x xs a e (NotIn-left e (x ∷ xs) (l ∷ ys) o) b (sym h)))
  where
    parts :
        Seg s.next s.prev none (x ∷ xs) (some l)
        × Seg s.next s.prev (back (some x) xs) (l ∷ ys) none
    parts = Seg-split s.next s.prev none (x ∷ xs) (l ∷ ys) none d.linked

    apart : {a : ℕ} → back (some x) xs ≡ some a → NotIn a (l ∷ ys)
    apart h = subst (λ p. Avoids p (l ∷ ys)) h (Avoids-back none (x ∷ xs) (l ∷ ys) tt d.distinct)
