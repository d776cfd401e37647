-- ===== src/Sched/Tests.antt =====
-- The scheduler's theorems at a kernel with a new, a running and two ready environments.
use fos_project.Sched.{
  Status, started, rr, Kernel, find_env_in_queue, fos_scheduler, sched_exit_env,
}
use fos_project.Sched.RoundRobin.{
  turn_order, TookTurn, fos_scheduler-TookTurn, rounds, Runs, rounds-Runs,
}
use fos_project.Sched.Places.{KeepsPlaces, fos_scheduler-KeepsPlaces}
use fos_project.Sched.Exit.{Loses, sched_exit_env-Loses, Exits, sched_exit_env-Exits}
use fos_project.Prelude.{length, ◌+◌, ◌<◌, ◌≡◌, refl, none, some, [], ◌∷◌, arith}

abbrev kernel : Kernel
kernel = record {
  env_id = λ e. e + 1000;
  env_status = λ e. Status.ready;
  env_runs = λ e. 0;
  new_queue = 4 ∷ [];
  ready_queue = 2 ∷ 3 ∷ [];
  exit_queue = [];
  curenv = some 1;
  status = started;
  method = rr;
  quantum = 10;
  clock = 0;
}

fos_scheduler-TookTurn_example : TookTurn kernel (fos_scheduler kernel)
fos_scheduler-TookTurn_example = fos_scheduler-TookTurn kernel refl

three_wait : 2 < length (turn_order kernel)
unfolding turn_order
three_wait = omega arith

rounds-Runs_example : Runs 2 kernel (rounds 3 kernel)
rounds-Runs_example = rounds-Runs 2 kernel refl three_wait

fos_scheduler-KeepsPlaces_example : KeepsPlaces kernel (fos_scheduler kernel)
fos_scheduler-KeepsPlaces_example = fos_scheduler-KeepsPlaces kernel refl

four_is_new : find_env_in_queue kernel kernel.new_queue 1004 ≡ some 4
unfolding find_env_in_queue
four_is_new = refl

sched_exit_env-Loses_example : Loses 4 kernel (sched_exit_env 1004 kernel)
sched_exit_env-Loses_example = sched_exit_env-Loses kernel 1004 4 1 four_is_new refl (omega arith)

three_is_not_new : find_env_in_queue kernel kernel.new_queue 1003 ≡ none
unfolding find_env_in_queue
three_is_not_new = refl

three_is_ready : find_env_in_queue kernel kernel.ready_queue 1003 ≡ some 3
unfolding find_env_in_queue
three_is_ready = refl

sched_exit_env-Exits_example : Exits 3 kernel (sched_exit_env 1003 kernel)
sched_exit_env-Exits_example =
    sched_exit_env-Exits kernel 1003 3 1 three_is_not_new three_is_ready refl (omega arith)
