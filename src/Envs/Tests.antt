-- ===== src/Envs/Tests.antt =====
-- A table of ten environments, all free.
use fos_project.Sched.{unknown}
use fos_project.Prelude.{ok, ◌+◌, ◌*◌, ◌≡◌, ◌≢◌, false, none, some, [], ◌∷◌, arith}
use fos_project.Envs.{
  Table, found_env, bad_env, free_environment, near, complete_environment_initialization, envid2env,
}
use fos_project.Envs.Identifiers.{envid2env_complete, free_environment-SameId}

abbrev table : Table
table = record {
  env_id = λ e. 0;
  env_status = λ e. unknown;
  env_parent_id = λ e. 0;
  env_runs = λ e. 0;
  env_free_list = 3 ∷ 4 ∷ [];
  curenv = none;
}

abbrev created : Table
created = complete_environment_initialization 10 3 table

envid2env_complete_example :
    (created.env_id 3 ≢ 0)
    × (envid2env 10 (created.env_id 3) false created ≡ ok (found_env (some 3)))
    × (envid2env 10 (created.env_id 3) false (free_environment 3 created) ≡ ok bad_env)
envid2env_complete_example = envid2env_complete 10 3 table (omega arith) (omega arith)

abbrev first : Table
first = complete_environment_initialization 10 3 (free_environment 3 table)

abbrev second : Table
second = complete_environment_initialization 10 3 (free_environment 3 first)

free_environment-SameId_example :
    (first.env_id 3 ≡ 2 * near 10 + 3)
    × (second.env_id 3 ≡ first.env_id 3)
    × (envid2env 10 (first.env_id 3) false second ≡ ok (found_env (some 3)))
free_environment-SameId_example = free_environment-SameId 10 3 table (omega arith) (omega arith)
