-- ===== src/Queue/Tests.antt =====
-- The list macros at a concrete store: the list 1, 2, 3.
use fos_project.Queue.Concat.{Head, concat, with_head, Chained, concat-Chained}
use fos_project.Queue.Insert.{insert_tail-Dll}
use fos_project.Queue.Remove.{remove-Dll, walk-Dll}
use fos_project.Queue.{Store, list_empty, list_init, insert_tail, remove, walk}
use fos_project.Queue.Dll.{Dll, list_init-Dll, list_empty-Dll}
use fos_project.Prelude.{
  ◌==◌, if◌then◌else◌, ℕ, ◌≡◌, refl, ◌↔◌, true, none, some, List, [], ◌∷◌, arith,
}

abbrev empty : Store
empty = record { next = λ e. none; prev = λ e. none; first = none; last = none; size = 0 }

one-Dll : Dll (insert_tail 1 (list_init empty)) (1 ∷ [])
one-Dll = insert_tail-Dll 1 (list_init empty) [] (list_init-Dll empty) tt

abbrev three : Store
three = insert_tail 3 (insert_tail 2 (insert_tail 1 (list_init empty)))

three-Dll : Dll three (1 ∷ 2 ∷ 3 ∷ [])
three-Dll =
    insert_tail-Dll 3 (insert_tail 2 (insert_tail 1 (list_init empty))) (1 ∷ 2 ∷ [])
      (insert_tail-Dll 2 (insert_tail 1 (list_init empty)) (1 ∷ []) one-Dll (ground arith))
      (ground arith)

abbrev numbers : List ℕ
numbers = 1 ∷ 2 ∷ 3 ∷ []

list_init-Dll_example : Dll (list_init three) []
list_init-Dll_example = list_init-Dll three

list_empty-Dll_example : (list_empty three ≡ true) ↔ (numbers ≡ [])
list_empty-Dll_example = list_empty-Dll three numbers three-Dll

remove-Dll_example : Dll (remove 2 three) (1 ∷ 3 ∷ [])
remove-Dll_example = remove-Dll 2 three (1 ∷ []) (3 ∷ []) three-Dll

walk-Dll_example : walk 5 three.first three ≡ some (1 ∷ 2 ∷ 3 ∷ [])
walk-Dll_example = walk-Dll 5 three (1 ∷ 2 ∷ 3 ∷ []) three-Dll (omega arith)

-- a store of the lists 1, 2 and 3, 4
abbrev two_lists : Store
two_lists = record {
  next = λ e. if e == 1 then some 2 else if e == 3 then some 4 else none;
  prev = λ e. if e == 2 then some 1 else if e == 4 then some 3 else none;
  first = some 1;
  last = some 2;
  size = 2;
}

abbrev second : Head
second = record { first = some 3; last = some 4; size = 2 }

first-Dll : Dll two_lists (1 ∷ 2 ∷ [])
first-Dll = record {
  first_is = refl;
  last_is = refl;
  size_is = refl;
  linked = (refl, refl, (refl, refl, tt));
  distinct = (((λ e. cc), tt), (tt, tt));
}

second-Dll : Dll (with_head second two_lists) (3 ∷ 4 ∷ [])
second-Dll = record {
  first_is = refl;
  last_is = refl;
  size_is = refl;
  linked = (refl, refl, (refl, refl, tt));
  distinct = (((λ e. cc), tt), (tt, tt));
}

concat-Chained_example : Chained (concat second two_lists).0 (1 ∷ 2 ∷ 3 ∷ 4 ∷ []) 2
concat-Chained_example =
    concat-Chained second two_lists (1 ∷ 2 ∷ []) (3 ∷ 4 ∷ []) first-Dll second-Dll (
      ((λ e. cc), ((λ e. cc), ((λ e. cc), tt))),
      (((λ e. cc), ((λ e. cc), tt)), (((λ e. cc), tt), (tt, tt))),
    )
