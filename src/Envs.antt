-- ===== src/Envs.antt =====
-- kern/proc/user_environment.c: the table of environments, the free ones, and the identifiers. An
-- environment is its index in envs. NENV comes from the size of struct Env and is a parameter. What complete_environment_initialization
-- does to the page directory, the page file and the registers is left out.
pub mod Identifiers
mod Tests
use fos_project.Powers.{nearest_pow2_ceil, log2_ceil}
use fos_project.Sched.{Status, free, ready, runnable, blocked, new, exit, unknown, erase}
use fos_project.Prelude.Words.{u32_mod, add32}
use fos_project.Prelude.{
  ltb, leb, ◌==◌, if◌then◌else◌, Result, panic, ok, ◌>>=◌, ℕ, zero, suc, ◌+◌, ◌*◌, ◌/◌, ◌%◌, ◌^◌,
  Bool, true, false, ◌&&◌, ◌||◌, not, Option, none, some, List, [], ◌∷◌,
}

pub record Table : Type 0 where
  pub env_id : ℕ → ℕ
  pub env_status : ℕ → Status
  pub env_parent_id : ℕ → ℕ
  pub env_runs : ℕ → ℕ
  pub env_free_list : List ℕ
  pub curenv : Option ℕ

-- what envid2env stores, with 0 or with E_BAD_ENV
pub data Lookup : Type 0 where
  found_env : Option ℕ → Lookup
  bad_env : Lookup

abbrev pub is_free : Status → Bool
is_free free = true
is_free ready = false
is_free runnable = false
is_free blocked = false
is_free new = false
is_free exit = false
is_free unknown = false

abbrev pub update {ℓ} : {A : Type ℓ} → (ℕ → A) → ℕ → A → ℕ → A
update f e v j = if e == j then v else f j

-- the loop of env_init, with `n` environments left
pub env_init : ℕ → Table → Table
env_init zero s = s
env_init (suc n) s = env_init n (record s {
  env_status = update s.env_status n free;
  env_id = update s.env_id n 0;
  env_free_list = n ∷ s.env_free_list;
})

-- none for E_NO_FREE_ENV; the environment leaves the list when its initialisation is complete.
pub allocate_environment : Table → Option (ℕ × Table)
allocate_environment s = elim s.env_free_list [
  | [] ↦ none
  | e ∷ rest ↦ some (e, record s { env_status = update s.env_status e unknown })
]

pub free_environment : ℕ → Table → Table
free_environment e s = record s {
  env_id = update s.env_id e 0;
  env_status = update s.env_status e free;
  env_parent_id = update s.env_parent_id e 0;
  env_runs = update s.env_runs e 0;
  env_free_list = e ∷ s.env_free_list;
}

abbrev pub parent_of : Table → ℕ
parent_of s = elim s.curenv [ none ↦ 0 | some e ↦ s.env_id e ]

-- `e != curenv && e->env_parent_id != curenv->env_id`; curenv that is NULL is used.
pub not_permitted : ℕ → Table → Result Bool
not_permitted e s = elim s.curenv [
  | none ↦ panic
  | some c ↦ ok (not (e == c) && not (s.env_parent_id e == s.env_id c))
]

module _ (nenv : ℕ) where
  -- NEARPOW2NENV
  abbrev pub near : ℕ
  near = nearest_pow2_ceil nenv

  -- `1 << ENVGENSHIFT`
  abbrev pub step : ℕ
  step = 2 ^ log2_ceil nenv % u32_mod

  -- `(env_id + (1 << ENVGENSHIFT)) & ~(NEARPOW2NENV - 1)`, where NEARPOW2NENV is a power of two; a
  -- word from 2^31 on is negative
  pub generation : ℕ → ℕ
  generation env_id =
      let g = add32 env_id step / near * near in if (g == 0) || leb (2 ^ 31) g then step else g

  -- `generation | index`, where the low bits of the generation are 0
  pub complete_environment_initialization : ℕ → Table → Table
  complete_environment_initialization e s = record s {
    env_id = update s.env_id e (generation (s.env_id e) + e);
    env_parent_id = update s.env_parent_id e (parent_of s);
    env_status = update s.env_status e new;
    env_runs = update s.env_runs e 0;
    env_free_list = erase e s.env_free_list;
  }

  -- the checks of the environment with the index of the identifier
  pub check_env : ℕ → Bool → ℕ → Table → Result Lookup
  check_env envid checkperm e s =
      if is_free (s.env_status e) || not (s.env_id e == envid)
      then ok bad_env
      else if checkperm
      then (not_permitted e s >>= λ b. ok (if b then bad_env else found_env (some e)))
      else ok (found_env (some e))

  -- An index behind the end of envs is read in the source, and panics here.
  pub envid2env : ℕ → Bool → Table → Result Lookup
  envid2env envid checkperm s =
      if envid == 0
      then ok (found_env s.curenv)
      else if ltb (envid % near) nenv
      then check_env envid checkperm (envid % near) s
      else panic
