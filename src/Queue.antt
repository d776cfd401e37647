-- ===== src/Queue.antt =====
-- inc/queue.h: the doubly linked lists of the kernel, on an explicit store of links. An element is
-- the number of its node; a pointer is an option. LIST_FOREACH is read off the links by `walk`.
pub mod Seg
pub mod Rewire
pub mod Dll
pub mod Insert
pub mod Remove
pub mod Concat
mod Tests
use fos_project.Prelude.Words.{add32, sub32}
use fos_project.Prelude.{
  ◌==◌, if◌then◌else◌, ℕ, zero, suc, Bool, true, false, Option, none, some, List, [], ◌∷◌,
}

-- prev_next_info of every element, and the head of one list
pub record Store : Type 0 where
  pub next : ℕ → Option ℕ
  pub prev : ℕ → Option ℕ
  pub first : Option ℕ
  pub last : Option ℕ
  pub size : ℕ

abbrev pub update : (ℕ → Option ℕ) → ℕ → Option ℕ → ℕ → Option ℕ
update f k v j = if k == j then v else f j

-- LIST_EMPTY
pub list_empty : Store → Bool
list_empty s = elim s.first [ none ↦ true | some e ↦ false ]

-- LIST_INIT
pub list_init : Store → Store
list_init s = record s { first = none; last = none; size = 0 }

-- `if (p != NULL) LIST_PREV(p) = elm`, and the same of LIST_NEXT
pub set_prev : Option ℕ → Option ℕ → Store → Store
set_prev none v s = s
set_prev (some p) v s = record s { prev = update s.prev p v }

pub set_next : Option ℕ → Option ℕ → Store → Store
set_next none v s = s
set_next (some p) v s = record s { next = update s.next p v }

-- the assignments of an `else` branch, made where the pointer is NULL
pub last_unless : Option ℕ → Option ℕ → Store → Store
last_unless none v s = record s { last = v }
last_unless (some p) v s = s

pub first_unless : Option ℕ → Option ℕ → Store → Store
first_unless none v s = record s { first = v }
first_unless (some p) v s = s

abbrev grow : Store → Store
grow s = record s { size = add32 s.size 1 }

-- LIST_INSERT_AFTER, of two elements that are not NULL
pub insert_after : ℕ → ℕ → Store → Store
unfolding set_prev last_unless
insert_after listelm elm s =
    let s1 = record s { next = update s.next elm (s.next listelm) } in
    let s2 = set_prev (s.next listelm) (some elm) s1 in
    let s3 = record s2 { next = update s2.next listelm (some elm) } in
    let s4 = record s3 { prev = update s3.prev elm (some listelm) } in
    grow (last_unless (s4.next elm) (some elm) s4)

-- LIST_INSERT_BEFORE, of two elements that are not NULL
pub insert_before : ℕ → ℕ → Store → Store
unfolding set_next first_unless
insert_before listelm elm s =
    let s1 = record s { prev = update s.prev elm (s.prev listelm) } in
    let s2 = record s1 { next = update s1.next elm (some listelm) } in
    let s3 = first_unless (s2.prev listelm) (some elm) (set_next (s2.prev listelm) (some elm) s2) in
    let s4 = record s3 { prev = update s3.prev listelm (some elm) } in grow s4

-- LIST_INSERT_HEAD, of an element that is not NULL
pub insert_head : ℕ → Store → Store
unfolding set_prev last_unless
insert_head elm s =
    let s1 = record s { next = update s.next elm s.first } in
    let s2 = last_unless s.first (some elm) (set_prev s.first (some elm) s1) in
    let s3 = record s2 { first = some elm } in grow (record s3 { prev = update s3.prev elm none })

-- LIST_INSERT_TAIL, of an element that is not NULL
pub insert_tail : ℕ → Store → Store
unfolding set_next first_unless
insert_tail elm s =
    let s1 = record s { prev = update s.prev elm s.last } in
    let s2 = first_unless s.last (some elm) (set_next s.last (some elm) s1) in
    let s3 = record s2 { last = some elm } in grow (record s3 { next = update s3.next elm none })

-- LIST_REMOVE, of an element that is not NULL
pub remove : ℕ → Store → Store
unfolding set_prev set_next last_unless first_unless
remove elm s =
    let s1 = last_unless (s.next elm) (s.prev elm) (set_prev (s.next elm) (s.prev elm) s) in
    let s2 = first_unless (s1.prev elm) (s1.next elm) (set_next (s1.prev elm) (s1.next elm) s1) in
    let s3 = record s2 { next = update s2.next elm none } in
    let s4 = record s3 { prev = update s3.prev elm none } in record s4 { size = sub32 s4.size 1 }

-- LIST_FOREACH: the elements that the loop visits; none is that the fuel ran out before its end
pub walk : ℕ → Option ℕ → Store → Option (List ℕ)
walk fuel none s = some []
walk zero (some e) s = none
walk (suc fuel) (some e) s = elim (walk fuel (s.next e) s) [ none ↦ none | some es ↦ some (e ∷ es) ]
