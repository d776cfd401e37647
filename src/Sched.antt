-- ===== src/Sched.antt =====
-- kern/cpu/sched.c: the environment queues and the round-robin scheduler. An environment is the
-- number of its Env structure. A queue is the sequence of its elements from LIST_FIRST to
-- LIST_LAST. Where the kernel stops (`panic`, a failed `assert`, a null pointer that is read) the
-- result is `panic`. cleanup_buffers and env_free act on frames and page tables, which are no part
-- of this state.
pub mod RoundRobin
pub mod Places
pub mod Exit
mod Tests
use fos_project.Prelude.{
  ◌==◌, if◌then◌else◌, length, Result, panic, ok, ◌>>=◌, ℕ, ◌+◌, ◌%◌, Bool, true, false, Option,
  none, some, List, [], ◌∷◌,
}

-- env_status
pub data Status : Type 0 where
  free ready runnable blocked new exit unknown : Status

-- scheduler_status and scheduler_method
pub data SchedulerStatus : Type 0 where
  started stopped : SchedulerStatus

pub data Method : Type 0 where
  rr mlfq : Method

pub record Kernel : Type 0 where
  pub env_id : ℕ → ℕ
  pub env_status : ℕ → Status
  pub env_runs : ℕ → ℕ
  pub new_queue : List ℕ
  pub ready_queue : List ℕ
  pub exit_queue : List ℕ
  pub curenv : Option ℕ
  pub status : SchedulerStatus
  pub method : Method
  pub quantum : ℕ
  pub clock : ℕ

abbrev pub set_status : ℕ → Status → Kernel → Kernel
set_status e v k = record k { env_status = λ j. if e == j then v else k.env_status j }

-- LIST_REMOVE of an environment from a queue
unfoldable pub erase : ℕ → List ℕ → List ℕ
erase e [] = []
erase e (x ∷ xs) = if x == e then xs else x ∷ erase e xs

unfoldable pub enqueue : List ℕ → Option ℕ → List ℕ
enqueue queue none = queue
enqueue queue (some env) = env ∷ queue

-- the last element and the others
unfoldable pub dequeue : List ℕ → Option (ℕ × List ℕ)
dequeue [] = none
dequeue (x ∷ []) = some (x, [])
dequeue (x ∷ y ∷ rest) = elim (dequeue (y ∷ rest)) [
  | none ↦ none
  | some (e, others) ↦ some (e, x ∷ others)
]

pub find_env_in_queue : Kernel → List ℕ → ℕ → Option ℕ
find_env_in_queue k [] id = none
find_env_in_queue k (e ∷ rest) id = if k.env_id e == id then some e else find_env_in_queue k rest id

unfoldable pub sched_insert_ready : Option ℕ → Kernel → Kernel
unfolding enqueue
sched_insert_ready none k = k
sched_insert_ready (some e) k =
    let k' = set_status e Status.ready k in
    record k' { ready_queue = enqueue k'.ready_queue (some e) }

-- There is one ready queue under round robin.
pub sched_remove_ready : Option ℕ → Kernel → Kernel
unfolding find_env_in_queue erase
sched_remove_ready none k = k
sched_remove_ready (some e) k = elim (find_env_in_queue k k.ready_queue (k.env_id e)) [
  | none ↦ k
  | some found ↦ set_status e Status.unknown (record k { ready_queue = erase e k.ready_queue })
]

pub sched_insert_new : Option ℕ → Kernel → Kernel
unfolding enqueue
sched_insert_new none k = k
sched_insert_new (some e) k =
    let k' = set_status e Status.new k in record k' { new_queue = enqueue k'.new_queue (some e) }

pub sched_remove_new : Option ℕ → Kernel → Kernel
unfolding erase
sched_remove_new none k = k
sched_remove_new (some e) k =
    set_status e Status.unknown (record k { new_queue = erase e k.new_queue })

pub sched_insert_exit : Option ℕ → Kernel → Kernel
unfolding enqueue
sched_insert_exit none k = k
sched_insert_exit (some e) k =
    let k' = set_status e Status.exit k in record k' { exit_queue = enqueue k'.exit_queue (some e) }

pub sched_remove_exit : Option ℕ → Kernel → Kernel
unfolding erase
sched_remove_exit none k = k
sched_remove_exit (some e) k =
    set_status e Status.unknown (record k { exit_queue = erase e k.exit_queue })

-- env_run of kern/proc/user_environment.c, up to the return to user mode
pub env_run : ℕ → Kernel → Kernel
env_run e k =
    let switched = record k {
      curenv = some e;
      env_runs = λ j. if e == j then k.env_runs j + 1 else k.env_runs j;
    } in
    set_status e Status.runnable
      (elim k.curenv [ none ↦ switched | some c ↦ if c == e then k else switched ])

-- the round-robin branch up to the choice of the next environment
pub pick_next : Kernel → Option ℕ × Kernel
unfolding enqueue dequeue
pick_next k =
    let queue = enqueue k.ready_queue k.curenv in
    elim (dequeue queue) [
      | none ↦ (none, record k { ready_queue = queue; clock = k.quantum })
      | some (e, others) ↦ (some e, record k { ready_queue = others; clock = k.quantum })
    ]

-- With no environment left the kernel goes back to its command prompt.
pub run_or_stop : Option ℕ × Kernel → Kernel
unfolding env_run
run_or_stop (none, k) = record k { curenv = none; status = stopped }
run_or_stop (some e, k) = env_run e k

unfoldable pub fos_scheduler : Kernel → Result Kernel
unfolding pick_next run_or_stop
fos_scheduler k = elim k.method [
  | rr ↦ ok (run_or_stop (pick_next (record k { status = started })))
  | mlfq ↦ panic
]

-- the loop of sched_run_all, over the new queue as it was
pub run_loop : List ℕ → Kernel → Kernel
unfolding sched_remove_new sched_insert_ready
run_loop [] k = k
run_loop (e ∷ rest) k = run_loop rest (sched_insert_ready (some e) (sched_remove_new (some e) k))

abbrev pub if_stopped : Kernel → Result Kernel
if_stopped k = elim k.status [ started ↦ ok k | stopped ↦ fos_scheduler k ]

pub sched_run_all : Kernel → Result Kernel
unfolding run_loop fos_scheduler
sched_run_all k = if_stopped (run_loop k.new_queue k)

pub sched_run_env : ℕ → Kernel → Result Kernel
unfolding find_env_in_queue sched_remove_new sched_insert_ready fos_scheduler
sched_run_env id k = elim (find_env_in_queue k k.new_queue id) [
  | none ↦ ok k
  | some e ↦ if_stopped (sched_insert_ready (some e) (sched_remove_new (some e) k))
]

-- The loop over the new queue has no break: it ends with ptr_env null, found or not. No two
-- environments have one id, so it removes one at most.
-- The result is the environment that goes to the exit queue, where `found` is set.
pub record Search : Type 0 where
  pub found : Bool
  pub ptr_env : Option ℕ
  pub kernel : Kernel

-- the removals of sched_exit_env; the comparison with curenv reads a null pointer when no
-- environment runs
pub search_exit : ℕ → Kernel → Result Search
unfolding find_env_in_queue sched_remove_new erase
search_exit id k = elim (find_env_in_queue k k.new_queue id) [
  | some e ↦ ok record { found = true; ptr_env = none; kernel = sched_remove_new (some e) k }
  | none ↦ elim (find_env_in_queue k k.ready_queue id) [
    | some e ↦ ok record {
      found = true;
      ptr_env = some e;
      kernel = record k { ready_queue = erase e k.ready_queue };
    }
    | none ↦ elim k.curenv [
      | none ↦ panic
      | some c ↦
          if k.env_id c == id
          then ok record { found = true; ptr_env = some c; kernel = k }
          else ok record { found = false; ptr_env = none; kernel = k }
    ]
  ]
]

pub finish_exit : ℕ → Search → Result Kernel
unfolding sched_insert_exit fos_scheduler
finish_exit id s =
    if s.found
    then elim (sched_insert_exit s.ptr_env s.kernel).curenv [
      | none ↦ panic
      | some c ↦
          let k = sched_insert_exit s.ptr_env s.kernel in
          if k.env_id c == id then fos_scheduler (record k { curenv = none }) else ok k
    ]
    else ok s.kernel

pub sched_exit_env : ℕ → Kernel → Result Kernel
unfolding search_exit finish_exit
sched_exit_env id k = search_exit id k >>= finish_exit id

-- the loop of sched_exit_all_ready_envs over the ready queue as it was
pub exit_loop : List ℕ → Kernel → Kernel
unfolding erase sched_insert_exit
exit_loop [] k = k
exit_loop (e ∷ rest) k =
    exit_loop rest (sched_insert_exit (some e) (record k { ready_queue = erase e k.ready_queue }))

pub sched_exit_all_ready_envs : Kernel → Kernel
unfolding exit_loop
sched_exit_all_ready_envs k = exit_loop k.ready_queue k

pub queue_size : List ℕ → ℕ
queue_size queue = length queue

-- `memory` says whether kmalloc finds room for the queue and the quantum; the code writes through a
-- null pointer if not.
pub sched_init_rr : Bool → ℕ → Kernel → Result Kernel
sched_init_rr memory quantum k =
    if memory
    then ok (record k {
      quantum = quantum % 256;
      clock = quantum % 256;
      ready_queue = [];
      status = stopped;
      method = rr;
    })
    else panic

pub sched_new_env : Option ℕ → Kernel → Kernel
unfolding sched_insert_new
sched_new_env e k = sched_insert_new e k
