-- ===== src/Semaphores/Tests.antt =====
-- The semaphores' theorems at a system with one used and one empty entry.
use fos_project.Strings.{strcmp}
use fos_project.Sched.{Status, started, rr, Kernel}
use fos_project.Semaphores.Create.{Doubles, create_semaphore-Doubles}
use fos_project.Semaphores.Balance.{
  Balanced, Waits, wait_semaphore-Waits, Signals, signal_semaphore-Signals,
}
use fos_project.Semaphores.{
  Semaphore, id, System, empty_semaphore, first_empty, get_loop, get_semaphore_object_id,
  create_semaphore, wait_semaphore, signal_semaphore,
}
use fos_project.Prelude.{◌+◌, ◌-◌, ◌^◌, ◌≡◌, refl, false, some, [], ◌∷◌, arith}

abbrev lock : Semaphore
lock = record {
  owner_id = 7;
  name = 65 ∷ [];
  value = 2 ^ 32 - 1;
  env_queue = 5 ∷ [];
  empty = false;
}

abbrev kernel : Kernel
kernel = record {
  env_id = λ e. e + 1000;
  env_status = λ e. Status.ready;
  env_runs = λ e. 0;
  new_queue = [];
  ready_queue = 2 ∷ [];
  exit_queue = [];
  curenv = some 1;
  status = started;
  method = rr;
  quantum = 10;
  clock = 0;
}

abbrev system : System
system = record { semaphores = lock ∷ empty_semaphore ∷ []; kernel = kernel }

found : get_semaphore_object_id 7 (65 ∷ []) system ≡ id 0
unfolding get_semaphore_object_id get_loop strcmp
found = refl

lock-Balanced : Balanced lock
lock-Balanced = record {
  word = omega arith;
  free = λ l. absurd (omega arith);
  counts = λ l. omega arith;
}

wait_semaphore-Waits_example : Waits 0 lock 1 (wait_semaphore 7 (65 ∷ []) system)
wait_semaphore-Waits_example =
    wait_semaphore-Waits 7 (65 ∷ []) system 0 1 lock found refl lock-Balanced (omega arith) refl
      refl

signal_semaphore-Signals_example : Signals 0 lock system (signal_semaphore 7 (65 ∷ []) system)
signal_semaphore-Signals_example =
    signal_semaphore-Signals 7 (65 ∷ []) system 0 lock found refl lock-Balanced (omega arith)

second_is_empty : first_empty 0 system.semaphores ≡ some 1
unfolding first_empty
second_is_empty = refl

create_semaphore-Doubles_example :
    Doubles 0 7 (65 ∷ []) 1 system (create_semaphore 7 (65 ∷ []) 1 system)
create_semaphore-Doubles_example =
    create_semaphore-Doubles 0 1 7 (65 ∷ []) 1 system found second_is_empty (omega arith)
