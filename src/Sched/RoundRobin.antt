-- ===== src/Sched/RoundRobin.antt =====
-- The order in which the round-robin scheduler runs the environments.
use mathlib.Core.Path.{subst⁻¹}
use mathlib.Core.List.{reverse-cons, append-nil, reverse-append, reverse}
use fos_project.Prelude.{
  length, get_elem?, length-append, Result, ok, panic, ◌>>=◌, ℕ, zero, suc, ◌<◌, ◌≡◌, refl, sym, ap,
  ◌∙◌, Option, none, some, List, [], ◌∷◌, ◌++◌, arith,
}
use fos_project.Sched.{
  started, stopped, rr, Kernel, enqueue, dequeue, env_run, pick_next, run_or_stop, fos_scheduler,
}

-- The current environment and the ready ones, in the order in which the queue gives them out:
-- the oldest in the queue first, the current one last.
abbrev pub current : Kernel → List ℕ
current k = elim k.curenv [ none ↦ [] | some e ↦ e ∷ [] ]

unfoldable pub turn_order : Kernel → List ℕ
turn_order k = reverse k.ready_queue ++ current k

-- the first of a list goes to its end
pub rotate : List ℕ → List ℕ
rotate [] = []
rotate (x ∷ xs) = xs ++ (x ∷ [])

abbrev pub head_of : List ℕ → Option ℕ
head_of [] = none
head_of (x ∷ xs) = some x

-- What dequeue gives, seen from the other end of the queue.
abbrev pub Dequeued : List ℕ → Option (ℕ × List ℕ) → Type 0
Dequeued xs none = xs ≡ []
Dequeued xs (some (e, others)) = xs ≡ others ++ (e ∷ [])

pub dequeue-Dequeued : (xs : List ℕ) → Dequeued xs (dequeue xs)
unfolding dequeue
dequeue-Dequeued [] = refl
dequeue-Dequeued (x ∷ []) = refl
dequeue-Dequeued (x ∷ y ∷ rest) = go (dequeue (y ∷ rest)) (dequeue-Dequeued (y ∷ rest))
  where
    go :
        (r : Option (ℕ × List ℕ))
        → Dequeued (y ∷ rest) r
        → Dequeued (x ∷ y ∷ rest) (elim r [ none ↦ none | some (e, others) ↦ some (e, x ∷ others) ])
    go none h = cc
    go (some (e, others)) h = ap (◌∷◌ x) h

-- A scheduler call that returned `r` gave the turn to the first in the order and put it last.
abbrev pub TookTurn : Kernel → Result Kernel → Type 0
TookTurn k panic = ⊥
TookTurn k (ok k') =
    (k'.curenv ≡ head_of (turn_order k))
    × (turn_order k' ≡ rotate (turn_order k))
    × (k'.method ≡ k.method)
    × (k'.new_queue ≡ k.new_queue)
    × (k'.exit_queue ≡ k.exit_queue)

-- the ready queue with the current environment put back
abbrev pub requeued : Kernel → List ℕ
requeued k = enqueue k.ready_queue k.curenv

turn_order-requeued :
    (k : Kernel) (c : Option ℕ) → k.curenv ≡ c → turn_order k ≡ reverse (requeued k)
unfolding turn_order enqueue
turn_order-requeued k none h = rw h (append-nil (reverse k.ready_queue))
turn_order-requeued k (some e) h = rw h (sym (reverse-cons e k.ready_queue))

-- env_run makes the environment the current one.
pub env_run_lem :
    (e : ℕ) (k : Kernel)
    → ((env_run e k).curenv ≡ some e)
      × ((env_run e k).ready_queue ≡ k.ready_queue)
      × ((env_run e k).method ≡ k.method)
      × ((env_run e k).new_queue ≡ k.new_queue)
      × ((env_run e k).exit_queue ≡ k.exit_queue)
unfolding env_run
env_run_lem e k = ground arith

pub fos_scheduler-none :
    (k : Kernel)
    → k.method ≡ rr
    → dequeue (requeued k) ≡ none
    → fos_scheduler k
      ≡ ok (record k {
        ready_queue = requeued k;
        clock = k.quantum;
        curenv = none;
        status = stopped;
      })
unfolding fos_scheduler pick_next run_or_stop
fos_scheduler-none k m h = ground arith

pub fos_scheduler-some :
    (k : Kernel) (e : ℕ) (others : List ℕ)
    → k.method ≡ rr
    → dequeue (requeued k) ≡ some (e, others)
    → fos_scheduler k
      ≡ ok (env_run e (record k { ready_queue = others; clock = k.quantum; status = started }))
unfolding fos_scheduler pick_next run_or_stop
fos_scheduler-some k e others m h = ground arith

order_of_dequeued :
    (k : Kernel) (e : ℕ) (others : List ℕ)
    → requeued k ≡ others ++ (e ∷ [])
    → turn_order k ≡ e ∷ reverse others
order_of_dequeued k e others h =
    turn_order-requeued k k.curenv refl ∙ ap reverse h ∙ reverse-append others (e ∷ [])

turn_order-current :
    (x : ℕ) (k : Kernel) → k.curenv ≡ some x → turn_order k ≡ reverse k.ready_queue ++ (x ∷ [])
unfolding turn_order
turn_order-current x k h = rw h

turn_order-ended :
    (k : Kernel)
    → requeued k ≡ []
    → turn_order
        (record k { ready_queue = requeued k; clock = k.quantum; curenv = none; status = stopped })
      ≡ []
unfolding turn_order
turn_order-ended k h = rw h

-- Under round robin a scheduler call returns, gives the turn to the first environment in the order
-- (or to none, if there is no environment), puts that one last in the order, keeps the order of the
-- others, and leaves the new and the exit queue.
pub fos_scheduler-TookTurn : (k : Kernel) → k.method ≡ rr → TookTurn k (fos_scheduler k)
unfolding rotate
fos_scheduler-TookTurn k m = go (dequeue (requeued k)) refl (dequeue-Dequeued (requeued k))
  where
    go :
        (r : Option (ℕ × List ℕ))
        → dequeue (requeued k) ≡ r
        → Dequeued (requeued k) r
        → TookTurn k (fos_scheduler k)
    go none e h =
        let o : turn_order k ≡ [] = turn_order-requeued k k.curenv refl ∙ ap reverse h in
        subst⁻¹ (TookTurn k) (fos_scheduler-none k m e)
          (rw o refl, turn_order-ended k h ∙ rw o refl, refl, refl, refl)
    go (some (x, others)) e h =
        let o : turn_order k ≡ x ∷ reverse others = order_of_dequeued k x others h in
        let k' = record k { ready_queue = others; clock = k.quantum; status = started } in
        let v = env_run_lem x k' in
        subst⁻¹ (TookTurn k) (fos_scheduler-some k x others m e) (
          rw o v.0,
          turn_order-current x (env_run x k') v.0 ∙ ap (λ q. reverse q ++ (x ∷ [])) v.1 ∙ rw o refl,
          v.2,
          v.3,
          v.4,
        )

-- `i` rounds of the scheduler
pub rounds : ℕ → Kernel → Result Kernel
rounds zero k = ok k
rounds (suc i) k = fos_scheduler k >>= λ k'. rounds i k'

abbrev pub Runs : ℕ → Kernel → Result Kernel → Type 0
Runs i k panic = ⊥
Runs i k (ok k') = k'.curenv ≡ get_elem? (turn_order k) i

head_of-eq-get_elem? : (xs : List ℕ) → head_of xs ≡ get_elem? xs 0
head_of-eq-get_elem? [] = refl
head_of-eq-get_elem? (x ∷ xs) = refl

get_elem?-append_left :
    (xs ys : List ℕ) (i : ℕ) → i < length xs → get_elem? (xs ++ ys) i ≡ get_elem? xs i
get_elem?-append_left [] ys i h = absurd (omega arith)
get_elem?-append_left (x ∷ xs) ys zero h = refl
get_elem?-append_left (x ∷ xs) ys (suc i) h = get_elem?-append_left xs ys i (omega arith)

get_elem?-rotate :
    (xs : List ℕ) (i : ℕ) → suc i < length xs → get_elem? (rotate xs) i ≡ get_elem? xs (suc i)
unfolding rotate
get_elem?-rotate [] i h = absurd (omega arith)
get_elem?-rotate (x ∷ xs) i h = get_elem?-append_left xs (x ∷ []) i (omega arith)

length-rotate : (xs : List ℕ) → length (rotate xs) ≡ length xs
unfolding rotate
length-rotate [] = refl
length-rotate (x ∷ xs) = omega (arith, length-append xs (x ∷ []))

Runs-later :
    (i : ℕ) (k k' : Kernel) (r : Result Kernel)
    → turn_order k' ≡ rotate (turn_order k)
    → suc i < length (turn_order k)
    → Runs i k' r
    → Runs (suc i) k r
Runs-later i k k' panic e h x = x
Runs-later i k k' (ok k'') e h x =
    x ∙ ap (λ q. get_elem? q i) e ∙ get_elem?-rotate (turn_order k) i h

first_round : (k : Kernel) (r : Result Kernel) → TookTurn k r → Runs 0 k (r >>= λ k'. rounds 0 k')
unfolding rounds
first_round k panic t = t
first_round k (ok k') t = t.0 ∙ head_of-eq-get_elem? (turn_order k)

later_round :
    (i : ℕ) (k : Kernel) (r : Result Kernel)
    → k.method ≡ rr
    → TookTurn k r
    → suc i < length (turn_order k)
    → ((k' : Kernel) → k'.method ≡ rr → i < length (turn_order k') → Runs i k' (rounds (suc i) k'))
    → Runs (suc i) k (r >>= λ k'. rounds (suc i) k')
later_round i k panic m t h rec = t
later_round i k (ok k') m t h rec =
    Runs-later i k k' (rounds (suc i) k') t.1 h
      (rec k' (t.2 ∙ m) (omega (arith, ap length t.1, length-rotate (turn_order k))))

-- Round robin starves nobody: with `n` environments in the order and under round robin, the calls
-- number 1 to `n` of the scheduler return, and call number `i + 1` gives the turn to the
-- environment at position `i` of the order at the start.
pub rounds-Runs :
    (i : ℕ) (k : Kernel) → k.method ≡ rr → i < length (turn_order k) → Runs i k (rounds (suc i) k)
unfolding rounds
rounds-Runs zero k m h = first_round k (fos_scheduler k) (fos_scheduler-TookTurn k m)
rounds-Runs (suc i) k m h =
    later_round i k (fos_scheduler k) m (fos_scheduler-TookTurn k m) h
      (λ k' m' h'. rounds-Runs i k' m' h')
