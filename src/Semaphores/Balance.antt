-- ===== src/Semaphores/Balance.antt =====
-- waitSemaphore and signalSemaphore: the value of a semaphore counts the environments in its queue.
use mathlib.Core.Path.{subst⁻¹}
use fos_project.Sched.RoundRobin.{Dequeued, dequeue-Dequeued, TookTurn, fos_scheduler-TookTurn}
use fos_project.Sched.{
  Status, rr, Kernel, set_status, enqueue, dequeue, sched_insert_ready, fos_scheduler,
}
use fos_project.Prelude.Words.{u32_mod, add32, sub32}
use fos_project.Semaphores.{
  Semaphore, id, System, get_semaphore_object_id, negative, with_semaphore, schedule, wait_on,
  wait_semaphore, signal_on, signal_semaphore,
}
use fos_project.Prelude.{
  ◌==◌, if◌then◌else◌, le→leb, lt→leb, eq→==, length, get_elem?, set, length-append,
  get_elem?-set_self, Result, panic, ok, ◌>>=◌, ℕ, zero, suc, ◌+◌, ◌-◌, ◌^◌, ◌≤◌, ◌<◌, ◌≡◌, refl,
  ap, ◌∙◌, ◌≢◌, ◌⊎◌, inl, inr, true, false, ◌||◌, Option, none, some, List, [], ◌∷◌, ◌++◌, arith,
  dec_lt, dec_le,
}

-- The queue is empty while the value is not negative, and otherwise has as many environments as the
-- value is below 0.
pub record Balanced (x : Semaphore) : Type 0 where
  pub word : x.value < u32_mod
  pub free : x.value < 2 ^ 31 → x.env_queue ≡ []
  pub counts : 2 ^ 31 ≤ x.value → length x.env_queue + x.value ≡ u32_mod

wait-Balanced_negative :
    (x : Semaphore) (c : ℕ)
    → Balanced x
    → x.value ≢ 2 ^ 31
    → 2 ^ 31 ≤ sub32 x.value 1
    → Balanced (record x { value = sub32 x.value 1; env_queue = c ∷ x.env_queue })
wait-Balanced_negative x c b r h = elim (dec_lt x.value 1) [
  | yes z ↦ record {
    word = omega arith;
    free = λ l. absurd (omega arith);
    counts = λ l. rw (b.free (omega arith)) (omega arith);
  }
  | no z ↦ record {
    word = omega arith;
    free = λ l. absurd (omega arith);
    counts = λ l. omega (arith, b.counts (omega (arith, b.word)), b.word);
  }
]

wait-Balanced_positive :
    (x : Semaphore)
    → Balanced x
    → x.value ≢ 2 ^ 31
    → sub32 x.value 1 < 2 ^ 31
    → Balanced (record x { value = sub32 x.value 1 })
wait-Balanced_positive x b r h = record {
  word = omega arith;
  free = λ l. b.free (omega (arith, b.word));
  counts = λ l. absurd (omega arith);
}

empty_if-none : (xs : List ℕ) → length xs ≡ 0 → xs ≡ []
empty_if-none [] h = refl
empty_if-none (x ∷ xs) h = absurd (omega arith)

signal-Balanced_blocked :
    (x : Semaphore) (others : List ℕ) (e : ℕ)
    → Balanced x
    → 2 ^ 31 ≤ x.value
    → x.env_queue ≡ others ++ (e ∷ [])
    → Balanced (record x { value = add32 x.value 1; env_queue = others })
signal-Balanced_blocked x others e b h q =
    let n = ap length q ∙ length-append others (e ∷ []) in
    record {
      word = omega arith;
      free = λ l. empty_if-none others (omega (arith, n, b.counts h, b.word));
      counts = λ l. omega (arith, n, b.counts h, b.word);
    }

signal-Balanced_free :
    (x : Semaphore)
    → Balanced x
    → suc x.value < 2 ^ 31
    → Balanced (record x { value = add32 x.value 1 })
signal-Balanced_free x b h = record {
  word = omega arith;
  free = λ l. b.free (omega arith);
  counts = λ l. absurd (omega arith);
}

-- What a wait on the semaphore `x` at `i` by the environment `c` gives: the call returns, and the
-- queue has grown by `c` if the value has become negative.
abbrev pub Waits : ℕ → Semaphore → ℕ → Result System → Type 0
Waits i x c panic = ⊥
Waits i x c (ok s) =
    (x' : Semaphore) × (get_elem? s.semaphores i ≡ some x')
    × Balanced x'
    × (x'.value ≡ sub32 x.value 1)
    × (x'.env_queue ≡ (if negative x'.value then c ∷ x.env_queue else x.env_queue))

-- With the semaphore stored, what is left of the call is the scheduler.
schedule-Waits :
    (i c : ℕ) (x x' : Semaphore) (k : Kernel) (s : System)
    → k.method ≡ rr
    → get_elem? (set s.semaphores i x') i ≡ some x'
    → Balanced x'
    → x'.value ≡ sub32 x.value 1
    → x'.env_queue ≡ (if negative x'.value then c ∷ x.env_queue else x.env_queue)
    → Waits i x c (schedule (with_semaphore i x' k s))
schedule-Waits i c x x' k s m g b v q = go (fos_scheduler k) (fos_scheduler-TookTurn k m)
  where
    go :
        (r : Result Kernel)
        → TookTurn k r
        → Waits i x c (r >>= λ k'. ok (record (with_semaphore i x' k s) { kernel = k' }))
    go panic t = t
    go (ok k') t = (x', g, b, v, q)

pub get_elem?-bound :
    (xs : List Semaphore) (i : ℕ) (x : Semaphore) → get_elem? xs i ≡ some x → i < length xs
get_elem?-bound [] i x h = cc
get_elem?-bound (y ∷ xs) zero x h = omega arith
get_elem?-bound (y ∷ xs) (suc i) x h = omega (arith, get_elem?-bound xs i x h)

stored :
    (xs : List Semaphore) (i : ℕ) (x x' : Semaphore)
    → get_elem? xs i ≡ some x
    → get_elem? (set xs i x') i ≡ some x'
stored xs i x x' h = get_elem?-set_self xs i x' (get_elem?-bound xs i x h)

wait_on-Waits :
    (i c : ℕ) (x : Semaphore) (s : System)
    → get_elem? s.semaphores i ≡ some x
    → Balanced x
    → x.value ≢ 2 ^ 31
    → s.kernel.curenv ≡ some c
    → s.kernel.method ≡ rr
    → Waits i x c (wait_on i x s)
unfolding wait_on enqueue
wait_on-Waits i c x s g b r cur m = elim (dec_le (2 ^ 31) (sub32 x.value 1)) [
  | yes h ↦
      rw (le→leb (2 ^ 31) (sub32 x.value 1) h, cur)
        (schedule-Waits i c x _ (record (set_status c Status.blocked s.kernel) { curenv = none }) s
          m (stored s.semaphores i x _ g) (wait-Balanced_negative x c b r h) refl
          (rw (le→leb (2 ^ 31) (sub32 x.value 1) h) refl))
  | no h ↦ rw (lt→leb (2 ^ 31) (sub32 x.value 1) (omega arith)) (
      schedule-Waits i c x _ s.kernel s m (stored s.semaphores i x _ g)
        (wait-Balanced_positive x b r (omega arith)) refl
        (rw (lt→leb (2 ^ 31) (sub32 x.value 1) (omega arith)) refl))
]

wait_semaphore-eq :
    (owner : ℕ) (name : List ℕ) (s : System) (i : ℕ) (x : Semaphore)
    → get_semaphore_object_id owner name s ≡ id i
    → get_elem? s.semaphores i ≡ some x
    → wait_semaphore owner name s ≡ wait_on i x s
unfolding wait_semaphore
wait_semaphore-eq owner name s i x found g = ground arith

-- waitSemaphore on a semaphore that is there and balanced (its value, where negative, counts the
-- environments in its queue), under round robin and with a current environment, fewer than 2^31
-- environments being blocked on it: the call returns, the semaphore is one lower and balanced again,
-- and the environment is at the head of its queue if the new value is negative.
pub wait_semaphore-Waits :
    (owner : ℕ) (name : List ℕ) (s : System) (i c : ℕ) (x : Semaphore)
    → get_semaphore_object_id owner name s ≡ id i
    → get_elem? s.semaphores i ≡ some x
    → Balanced x
    → x.value ≢ 2 ^ 31
    → s.kernel.curenv ≡ some c
    → s.kernel.method ≡ rr
    → Waits i x c (wait_semaphore owner name s)
wait_semaphore-Waits owner name s i c x found g b r cur m =
    subst⁻¹ (Waits i x c) (wait_semaphore-eq owner name s i x found g)
      (wait_on-Waits i c x s g b r cur m)

-- What a signal gives: the call returns, and if an environment was blocked then the one that has
-- waited longest is out of the queue and at the head of the ready queue with status READY.
abbrev pub Signals : ℕ → Semaphore → System → Result System → Type 0
Signals i x s panic = ⊥
Signals i x s (ok s') =
    (x' : Semaphore) × (get_elem? s'.semaphores i ≡ some x')
    × Balanced x'
    × (x'.value ≡ add32 x.value 1)
    × (((x.env_queue ≡ []) × (x'.env_queue ≡ []) × (s'.kernel ≡ s.kernel))
        ⊎ ((e : ℕ) × (x.env_queue ≡ x'.env_queue ++ (e ∷ []))
            × (s'.kernel.ready_queue ≡ e ∷ s.kernel.ready_queue)
            × (s'.kernel.env_status e ≡ Status.ready)))

out_of_range :
    (x : Semaphore)
    → Balanced x
    → 2 ^ 31 ≤ x.value
    → (negative (add32 x.value 1) || (add32 x.value 1 == 0)) ≡ true
out_of_range x b h = let w = b.word in ground arith

signal_blocked :
    (i : ℕ) (x : Semaphore) (s : System) (r : Option (ℕ × List ℕ))
    → get_elem? s.semaphores i ≡ some x
    → Balanced x
    → 2 ^ 31 ≤ x.value
    → Dequeued x.env_queue r
    → dequeue x.env_queue ≡ r
    → Signals i x s (signal_on i x s)
unfolding signal_on sched_insert_ready enqueue
signal_blocked i x s none g b h q d = absurd (omega (arith, ap length q, b.counts h, b.word))
signal_blocked i x s (some (e, others)) g b h q d =
    rw (out_of_range x b h, d)
      (
        record x { value = add32 x.value 1; env_queue = others },
        stored s.semaphores i x _ g,
        signal-Balanced_blocked x others e b h q,
        refl,
        inr (e, q, refl, rw (eq→== e e refl) refl),
      )

signal_free :
    (i : ℕ) (x : Semaphore) (s : System)
    → get_elem? s.semaphores i ≡ some x
    → Balanced x
    → suc x.value < 2 ^ 31
    → Signals i x s (signal_on i x s)
unfolding signal_on
signal_free i x s g b h = rw (in_range x h) (
  record x { value = add32 x.value 1 },
  stored s.semaphores i x _ g,
  signal-Balanced_free x b h,
  refl,
  inl (b.free (omega arith), b.free (omega arith), refl),
)
  where
    in_range :
        (x : Semaphore)
        → suc x.value < 2 ^ 31
        → (negative (add32 x.value 1) || (add32 x.value 1 == 0)) ≡ false
    in_range x h = ground arith

signal_semaphore-eq :
    (owner : ℕ) (name : List ℕ) (s : System) (i : ℕ) (x : Semaphore)
    → get_semaphore_object_id owner name s ≡ id i
    → get_elem? s.semaphores i ≡ some x
    → signal_semaphore owner name s ≡ signal_on i x s
unfolding signal_semaphore
signal_semaphore-eq owner name s i x found g = ground arith

-- signalSemaphore on a semaphore that is there and balanced, below the largest value: the call
-- returns and the semaphore is one higher and balanced again. If an environment was blocked on it, the
-- one that has waited longest leaves the queue, has status READY and is at the head of the ready
-- queue; if none was, the environments stay as they are.
pub signal_semaphore-Signals :
    (owner : ℕ) (name : List ℕ) (s : System) (i : ℕ) (x : Semaphore)
    → get_semaphore_object_id owner name s ≡ id i
    → get_elem? s.semaphores i ≡ some x
    → Balanced x
    → x.value ≢ 2 ^ 31 - 1
    → Signals i x s (signal_semaphore owner name s)
signal_semaphore-Signals owner name s i x found g b r =
    subst⁻¹ (Signals i x s) (signal_semaphore-eq owner name s i x found g)
      (elim (dec_le (2 ^ 31) x.value) [
        | yes h ↦
            signal_blocked i x s (dequeue x.env_queue) g b h (dequeue-Dequeued x.env_queue) refl
        | no h ↦ signal_free i x s g b (omega arith)
      ])
