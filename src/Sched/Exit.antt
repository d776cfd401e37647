-- ===== src/Sched/Exit.antt =====
-- sched_exit_env: an environment that is ready or running reaches the exit queue; one that is new
-- is lost.
use mathlib.Core.Path.{subst⁻¹}
use fos_project.Sched.Places.{count, places}
use fos_project.Sched.{
  Status, Kernel, erase, enqueue, find_env_in_queue, sched_remove_new, sched_insert_exit,
  search_exit, finish_exit, sched_exit_env,
}
use fos_project.Prelude.{
  ◌==◌, if◌then◌else◌, ==_iff, Bool-cases, eq→==, ne→==, Result, ok, panic, ℕ, ◌+◌, ◌≡◌, refl, sym,
  ap, ◌∙◌, ◌≢◌, inl, inr, false, none, some, List, [], ◌∷◌, arith,
}

record Erased (k : Kernel) (id e : ℕ) (q : List ℕ) : Type 0 where
  has_id : k.env_id e ≡ id
  once : (f : ℕ) → count f q ≡ count f (erase e q) + (if e == f then 1 else 0)

apart-ids : (k : Kernel) (id x e : ℕ) → (k.env_id x == id) ≡ false → k.env_id e ≡ id → x ≢ e
apart-ids k id x e away has same = let found = eq→== (k.env_id x) id (ap k.env_id same ∙ has) in cc

find-Erased :
    (k : Kernel) (id e : ℕ) (q : List ℕ) → find_env_in_queue k q id ≡ some e → Erased k id e q
unfolding find_env_in_queue count erase
find-Erased k id e [] h = ground arith
find-Erased k id e (x ∷ q) h = elim (Bool-cases (k.env_id x == id)) [
  | inl here ↦
      let same : x ≡ e = ground arith in
      record {
        has_id = (==_iff (k.env_id e) id).0 (ap (λ y. k.env_id y == id) (sym same) ∙ here);
        once = λ f. rw (same, eq→== e e refl) (omega arith);
      }
  | inr away ↦
      let v = find-Erased k id e q (ground arith) in
      record {
        has_id = v.has_id;
        once = λ f. ground (arith, v.once f, apart-ids k id x e away v.has_id);
      }
]

-- What it means that an exit loses an environment, and that it succeeds.
abbrev pub Loses : ℕ → Kernel → Result Kernel → Type 0
Loses e k panic = ⊥
Loses e k (ok k') = (places e k ≡ places e k' + 1) × (k'.exit_queue ≡ k.exit_queue)

exit_new-eq :
    (k : Kernel) (id e c : ℕ)
    → find_env_in_queue k k.new_queue id ≡ some e
    → k.curenv ≡ some c
    → ¬ (k.env_id c ≡ id)
    → sched_exit_env id k ≡ ok (sched_remove_new (some e) k)
unfolding sched_exit_env search_exit finish_exit sched_insert_exit sched_remove_new
exit_new-eq k id e c h cur other = ground (arith, ne→== (k.env_id c) id other)

-- Where another environment is running, sched_exit_env on the id of an environment of the new queue
-- returns and loses it: it is in one place less afterwards, and the exit queue has not changed.
pub sched_exit_env-Loses :
    (k : Kernel) (id e c : ℕ)
    → find_env_in_queue k k.new_queue id ≡ some e
    → k.curenv ≡ some c
    → ¬ (k.env_id c ≡ id)
    → Loses e k (sched_exit_env id k)
sched_exit_env-Loses k id e c h cur other = subst⁻¹ (Loses e k) (exit_new-eq k id e c h cur other) (
  (unfold places sched_remove_new in
      ground (arith, (find-Erased k id e k.new_queue h).once e, eq→== e e refl)),
  unfold sched_remove_new in refl,
)

exit_ready-eq :
    (k : Kernel) (id e c : ℕ)
    → find_env_in_queue k k.new_queue id ≡ none
    → find_env_in_queue k k.ready_queue id ≡ some e
    → k.curenv ≡ some c
    → ¬ (k.env_id c ≡ id)
    → sched_exit_env id k
      ≡ ok (sched_insert_exit (some e) (record k { ready_queue = erase e k.ready_queue }))
unfolding sched_exit_env search_exit finish_exit sched_insert_exit
exit_ready-eq k id e c h r cur other = ground (arith, ne→== (k.env_id c) id other)

abbrev pub Exits : ℕ → Kernel → Result Kernel → Type 0
Exits e k panic = ⊥
Exits e k (ok k') =
    ((f : ℕ) → places f k' ≡ places f k)
    × (k'.env_status e ≡ Status.exit)
    × (k'.exit_queue ≡ e ∷ k.exit_queue)

-- Where another environment is running, sched_exit_env on an id that is not in the new queue and is
-- in the ready queue returns; the environment found is then the head of the exit queue with status
-- EXIT, and every environment is in as many places as before.
pub sched_exit_env-Exits :
    (k : Kernel) (id e c : ℕ)
    → find_env_in_queue k k.new_queue id ≡ none
    → find_env_in_queue k k.ready_queue id ≡ some e
    → k.curenv ≡ some c
    → ¬ (k.env_id c ≡ id)
    → Exits e k (sched_exit_env id k)
sched_exit_env-Exits k id e c h r cur other =
    subst⁻¹ (Exits e k) (exit_ready-eq k id e c h r cur other) (
      (unfold places count sched_insert_exit enqueue in
          λ f. ground (arith, (find-Erased k id e k.ready_queue r).once f)),
      (unfold sched_insert_exit in rw (eq→== e e refl) refl),
      unfold sched_insert_exit enqueue in refl,
    )
