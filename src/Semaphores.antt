-- ===== src/Semaphores.antt =====
-- kern/conc/semaphore_manager.c: the array of semaphores, and waiting and signalling on top of the
-- scheduler. A semaphore's value is a 32-bit word that stands for a signed number. An access outside
-- the array (an identifier that is an error code) is undefined in the source and `panic` here, and so
-- is a name that does not fit into the 64 bytes of the entry's name with its zero byte.
pub mod Balance
pub mod Create
mod Tests
use fos_project.Prelude.Words.{add32, sub32}
use fos_project.Prelude.Int.{ℤ, pos, negsuc}
use fos_project.Strings.{strcmp}
use fos_project.Sched.{
  Status, ready, blocked, Kernel, set_status, enqueue, dequeue, sched_insert_ready, fos_scheduler,
}
use fos_project.Prelude.{
  ltb, leb, ◌==◌, if◌then◌else◌, length, get_elem?, set, replicate, Result, panic, ok, ◌>>=◌, ℕ,
  ◌+◌, ◌^◌, Bool, true, false, ◌&&◌, ◌||◌, Option, none, some, List, [], ◌∷◌,
}

pub record Semaphore : Type 0 where
  pub owner_id : ℕ
  pub name : List ℕ
  pub value : ℕ
  pub env_queue : List ℕ
  pub empty : Bool

-- what the functions that return an identifier give: it, or an error code
pub data SemaphoreId : Type 0 where
  id : ℕ → SemaphoreId
  no_semaphore semaphore_exists semaphore_not_exists : SemaphoreId

pub record System : Type 0 where
  pub semaphores : List Semaphore
  pub kernel : Kernel

-- an entry after memset and LIST_INIT
abbrev pub empty_semaphore : Semaphore
empty_semaphore = record { owner_id = 0; name = []; value = 0; env_queue = []; empty = true }

-- `memory` says whether kmalloc finds room for the array.
pub create_semaphores_array : Bool → ℕ → System → Result System
create_semaphores_array memory n s =
    if memory then ok (record s { semaphores = replicate n empty_semaphore }) else panic

-- the loop of allocate_semaphore_object: the first empty entry, as an index from `i` on
pub first_empty : ℕ → List Semaphore → Option ℕ
first_empty i [] = none
first_empty i (x ∷ rest) = if x.empty then some i else first_empty (i + 1) rest

-- With no empty entry the code calls krealloc, which panics.
pub allocate_semaphore_object : System → Result (ℕ × System)
allocate_semaphore_object s = elim (first_empty 0 s.semaphores) [
  | none ↦ panic
  | some i ↦ elim (get_elem? s.semaphores i) [
    | none ↦ panic
    | some x ↦ ok (i, record s { semaphores = set s.semaphores i (record x { empty = false }) })
  ]
]

abbrev pub is_zero : ℤ → Bool
is_zero (pos n) = n == 0
is_zero (negsuc n) = false

pub get_loop : ℕ → ℕ → List ℕ → List Semaphore → SemaphoreId
get_loop i owner name [] = semaphore_not_exists
get_loop i owner name (x ∷ rest) =
    if x.empty
    then get_loop (i + 1) owner name rest
    else if (x.owner_id == owner) && is_zero (strcmp name x.name)
    then id i
    else get_loop (i + 1) owner name rest

pub get_semaphore_object_id : ℕ → List ℕ → System → SemaphoreId
get_semaphore_object_id owner name s = get_loop 0 owner name s.semaphores

-- none for E_SEMAPHORE_NOT_EXISTS
pub free_semaphore_object : ℕ → System → Option System
free_semaphore_object i s =
    if leb (length s.semaphores) i
    then none
    else some (record s { semaphores = set s.semaphores i empty_semaphore })

-- createSemaphore from the allocation on
pub fill : ℕ → List ℕ → ℕ → ℕ × System → Result (SemaphoreId × System)
fill owner name initial (i, s) = elim (get_elem? s.semaphores i) [
  | none ↦ panic
  | some x ↦
      let x' = record x { owner_id = owner; name = name; value = initial } in
      if ltb (length name) 64
      then ok (id i, record s { semaphores = set s.semaphores i x' })
      else panic
]

pub create_semaphore : ℕ → List ℕ → ℕ → System → Result (SemaphoreId × System)
create_semaphore owner name initial s = elim (get_semaphore_object_id owner name s) [
  | semaphore_exists ↦ ok (semaphore_exists, s)
  | id i ↦ allocate_semaphore_object s >>= fill owner name initial
  | no_semaphore ↦ allocate_semaphore_object s >>= fill owner name initial
  | semaphore_not_exists ↦ allocate_semaphore_object s >>= fill owner name initial
]

-- the sign bit of a word
abbrev pub negative : ℕ → Bool
negative v = leb (2 ^ 31) v

abbrev pub with_semaphore : ℕ → Semaphore → Kernel → System → System
with_semaphore i x k s = record s { semaphores = set s.semaphores i x; kernel = k }

abbrev pub schedule : System → Result System
schedule s = fos_scheduler s.kernel >>= λ k. ok (record s { kernel = k })

-- waitSemaphore from the decrement on
pub wait_on : ℕ → Semaphore → System → Result System
wait_on i x s =
    let x' = record x { value = sub32 x.value 1 } in
    if negative x'.value
    then elim s.kernel.curenv [
      | none ↦ panic
      | some e ↦
          let x'' = record x' { env_queue = enqueue x'.env_queue (some e) } in
          let k = set_status e Status.blocked s.kernel in
          schedule (with_semaphore i x'' (record k { curenv = none }) s)
    ]
    else schedule (with_semaphore i x' s.kernel s)

pub wait_semaphore : ℕ → List ℕ → System → Result System
wait_semaphore owner name s = elim (get_semaphore_object_id owner name s) [
  | id i ↦ elim (get_elem? s.semaphores i) [ none ↦ panic | some x ↦ wait_on i x s ]
  | no_semaphore ↦ panic
  | semaphore_exists ↦ panic
  | semaphore_not_exists ↦ panic
]

-- signalSemaphore from the increment on
pub signal_on : ℕ → Semaphore → System → Result System
signal_on i x s =
    let x' = record x { value = add32 x.value 1 } in
    if negative x'.value || (x'.value == 0)
    then elim (dequeue x'.env_queue) [
      | none ↦ panic
      | some (e, others) ↦
          let k = sched_insert_ready (some e) s.kernel in
          ok (with_semaphore i (record x' { env_queue = others }) (set_status e Status.ready k) s)
    ]
    else ok (with_semaphore i x' s.kernel s)

pub signal_semaphore : ℕ → List ℕ → System → Result System
signal_semaphore owner name s = elim (get_semaphore_object_id owner name s) [
  | id i ↦ elim (get_elem? s.semaphores i) [ none ↦ panic | some x ↦ signal_on i x s ]
  | no_semaphore ↦ panic
  | semaphore_exists ↦ panic
  | semaphore_not_exists ↦ panic
]
