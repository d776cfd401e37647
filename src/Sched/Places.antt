-- ===== src/Sched/Places.antt =====
-- Where an environment is: no scheduler operation has it in two places, and one loses it.
use mathlib.Core.Path.{subst⁻¹}
use fos_project.Sched.RoundRobin.{
  Dequeued, dequeue-Dequeued, requeued, env_run_lem, fos_scheduler-none, fos_scheduler-some,
}
use mathlib.Core.List.{append_assoc, reverse-cons, reverse}
use fos_project.Prelude.{
  ◌==◌, if◌then◌else◌, Result, ok, panic, ℕ, ◌+◌, ◌≡◌, refl, sym, ap, ◌∙◌, Option, none, some, List,
  [], ◌∷◌, ◌++◌, arith,
}
use fos_project.Sched.{
  SchedulerStatus, started, stopped, rr, Kernel, erase, enqueue, dequeue, sched_insert_ready,
  sched_remove_new, env_run, fos_scheduler, run_loop, if_stopped, sched_run_all,
}

-- how often an environment is in a queue
unfoldable pub count : ℕ → List ℕ → ℕ
count e [] = 0
count e (x ∷ xs) = (if x == e then 1 else 0) + count e xs

-- how often it is in the three queues or the current one
unfoldable pub places : ℕ → Kernel → ℕ
unfolding count
places e k =
    count e k.new_queue
    + count e k.ready_queue
    + count e k.exit_queue
    + (elim k.curenv [ none ↦ 0 | some c ↦ if c == e then 1 else 0 ])

count-append : (e : ℕ) (xs ys : List ℕ) → count e (xs ++ ys) ≡ count e xs + count e ys
unfolding count
count-append e [] ys = omega arith
count-append e (x ∷ xs) ys = omega (arith, count-append e xs ys)

-- A call that returns keeps the number of places of every environment.
abbrev pub KeepsPlaces : Kernel → Result Kernel → Type 0
KeepsPlaces k panic = Unit
KeepsPlaces k (ok k') = (e : ℕ) → places e k' ≡ places e k

count-requeued :
    (e : ℕ) (k : Kernel) (c : Option ℕ)
    → k.curenv ≡ c
    → places e k ≡ count e k.new_queue + count e (requeued k) + count e k.exit_queue
unfolding places enqueue
count-requeued e k none h = rw h (omega arith)
count-requeued e k (some c) h = rw h (omega arith)

places-current :
    (e x : ℕ) (k : Kernel)
    → k.curenv ≡ some x
    → places e k ≡ count e k.new_queue + count e (k.ready_queue ++ (x ∷ [])) + count e k.exit_queue
unfolding places
places-current e x k h = rw (h, count-append e k.ready_queue (x ∷ [])) (omega arith)

-- Under round robin a scheduler call leaves every environment in as many places as it was.
pub fos_scheduler-KeepsPlaces : (k : Kernel) → k.method ≡ rr → KeepsPlaces k (fos_scheduler k)
fos_scheduler-KeepsPlaces k m = go (dequeue (requeued k)) refl (dequeue-Dequeued (requeued k))
  where
    go :
        (r : Option (ℕ × List ℕ))
        → dequeue (requeued k) ≡ r
        → Dequeued (requeued k) r
        → KeepsPlaces k (fos_scheduler k)
    go none d h =
        subst⁻¹ (KeepsPlaces k) (fos_scheduler-none k m d)
          (λ e. unfold places in omega (arith, count-requeued e k k.curenv refl))
    go (some (x, others)) d h =
        let k' = record k { ready_queue = others; clock = k.quantum; status = started } in
        let v = env_run_lem x k' in
        subst⁻¹ (KeepsPlaces k) (fos_scheduler-some k x others m d) (λ e. omega (
          arith,
          count-requeued e k k.curenv refl,
          places-current e x (env_run x k') v.0,
          ap (count e) v.3,
          ap (count e) v.4,
          ap (λ q. count e (q ++ (x ∷ []))) v.1,
          ap (count e) h,
        ))

-- What run_loop makes of the queues.
record Moved (xs : List ℕ) (k k' : Kernel) : Type 0 where
  new_queue : k'.new_queue ≡ []
  ready_queue : k'.ready_queue ≡ reverse xs ++ k.ready_queue
  exit_queue : k'.exit_queue ≡ k.exit_queue
  curenv : k'.curenv ≡ k.curenv
  method : k'.method ≡ k.method

run_loop-Moved : (xs : List ℕ) (k : Kernel) → k.new_queue ≡ xs → Moved xs k (run_loop xs k)
unfolding run_loop sched_insert_ready sched_remove_new
run_loop-Moved [] k h = record {
  new_queue = h;
  ready_queue = refl;
  exit_queue = refl;
  curenv = refl;
  method = refl;
}
run_loop-Moved (x ∷ xs) k h =
    let k' = sched_insert_ready (some x) (sched_remove_new (some x) k) in
    let v = run_loop-Moved xs k' (erase-first x xs k h) in
    record {
      new_queue = v.new_queue;
      ready_queue =
          v.ready_queue
          ∙ sym (
              ap (λ q. q ++ k.ready_queue) (reverse-cons x xs)
              ∙ append_assoc (reverse xs) (x ∷ []) k.ready_queue);
      exit_queue = v.exit_queue;
      curenv = v.curenv;
      method = v.method;
    }
  where
    erase-first :
        (x : ℕ) (xs : List ℕ) (k : Kernel) → k.new_queue ≡ x ∷ xs → erase x k.new_queue ≡ xs
    erase-first x xs k h = rw h (unfold erase in ground arith)

count-reverse : (e : ℕ) (xs : List ℕ) → count e (reverse xs) ≡ count e xs
unfolding count
count-reverse e [] = refl
count-reverse e (x ∷ xs) =
    ap (count e) (reverse-cons x xs)
    ∙ count-append e (reverse xs) (x ∷ [])
    ∙ omega (arith, count-reverse e xs)

run_loop-places : (k : Kernel) (e : ℕ) → places e (run_loop k.new_queue k) ≡ places e k
unfolding places
run_loop-places k e =
    let v = run_loop-Moved k.new_queue k refl in
    rw
      (
        v.new_queue,
        v.ready_queue,
        v.exit_queue,
        v.curenv,
        count-append e (reverse k.new_queue) k.ready_queue,
        count-reverse e k.new_queue,
      )
      (omega arith)

started-stays : (k : Kernel) → k.status ≡ started → if_stopped k ≡ ok k
started-stays k h = ground arith

stopped-schedules : (k : Kernel) → k.status ≡ stopped → if_stopped k ≡ fos_scheduler k
stopped-schedules k h = ground arith

keeps-after :
    (k k' : Kernel) (r : Result Kernel)
    → ((e : ℕ) → places e k' ≡ places e k)
    → KeepsPlaces k' r
    → KeepsPlaces k r
keeps-after k k' panic same h = tt
keeps-after k k' (ok k'') same h = λ e. h e ∙ same e

-- Under round robin sched_run_all leaves every environment in as many places as it was.
sched_run_all-KeepsPlaces : (k : Kernel) → k.method ≡ rr → KeepsPlaces k (sched_run_all k)
unfolding sched_run_all
sched_run_all-KeepsPlaces k m =
    let k' = run_loop k.new_queue k in
    keeps-after k k' (if_stopped k') (run_loop-places k)
      (started-or-not k' k'.status refl ((run_loop-Moved k.new_queue k refl).method ∙ m))
  where
    started-or-not :
        (k' : Kernel) (s : SchedulerStatus)
        → k'.status ≡ s
        → k'.method ≡ rr
        → KeepsPlaces k' (if_stopped k')
    started-or-not k' started h m = subst⁻¹ (KeepsPlaces k') (started-stays k' h) (λ e. refl)
    started-or-not k' stopped h m =
        subst⁻¹ (KeepsPlaces k') (stopped-schedules k' h) (fos_scheduler-KeepsPlaces k' m)
