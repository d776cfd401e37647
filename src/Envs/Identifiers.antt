-- ===== src/Envs/Identifiers.antt =====
-- Identifiers of environments: they lead back to the environment that has them.
use fos_project.Powers.Rounding.{nearest_pow2_ceil-log2_ceil}
use fos_project.Prelude.Words.{u32_mod, add32}
use fos_project.Prelude.{
  leb, ◌==◌, if◌then◌else◌, lt→ltb, Bool-cases, eq→==, ne→==, ok, ℕ, ◌+◌, ◌*◌, ◌/◌, ◌%◌, ◌^◌, ◌≤◌,
  ◌<◌, ◌≡◌, refl, sym, ap, ◌∙◌, ◌≢◌, ◌⊎◌, inl, inr, Bool, true, false, ◌||◌, not, some, arith,
  ℕ_discrete,
}
use fos_project.Envs.{
  Table, found_env, bad_env, is_free, free_environment, near, step, generation,
  complete_environment_initialization, check_env, envid2env,
}
use native.Mathlib.Nat.{two-pow-succ, mul-div_cancel, mul-add-mod_self_right, mod-eq_of_lt}

-- What the numbers of environments are to each other.
record Sizes (nenv : ℕ) : Type 0 where
  step_is : step nenv ≡ 2 * near nenv
  fits : nenv ≤ near nenv
  bound : near nenv < 2 ^ 30

Sizes-of : (nenv i : ℕ) → i < nenv → nenv ≤ 2 ^ 29 → Sizes nenv
Sizes-of nenv i l b =
    let (k, n, s, f, g) = nearest_pow2_ceil-log2_ceil nenv (omega (arith, l)) (omega (arith, b)) in
    record {
      step_is = ap (λ e. 2 ^ e % u32_mod) s ∙ omega (arith, n, g, b, two-pow-succ k);
      fits = omega (arith, n, f);
      bound = omega (arith, n, g, b);
    }

module _ (nenv : ℕ) where
  generation-cases :
      (x : ℕ)
      → (generation nenv x ≡ step nenv)
        ⊎ ((generation nenv x ≡ add32 x (step nenv) / near nenv * near nenv)
            × (add32 x (step nenv) / near nenv * near nenv ≢ 0))
  unfolding generation
  generation-cases x = go (add32 x (step nenv) / near nenv * near nenv)
    where
      go :
          (g : ℕ)
          → ((if (g == 0) || leb (2 ^ 31) g then step nenv else g) ≡ step nenv)
            ⊎ (((if (g == 0) || leb (2 ^ 31) g then step nenv else g) ≡ g) × (g ≢ 0))
      go g = elim (ℕ_discrete g 0) [
        | yes z ↦ inl (rw (eq→== g 0 z) refl)
        | no z ↦ elim (Bool-cases (leb (2 ^ 31) g)) [
          | inl e ↦ inl (rw (ne→== g 0 z, e) refl)
          | inr e ↦ inr (rw (ne→== g 0 z, e) refl, z)
        ]
      ]

  -- The low bits of an identifier are the index.
  index-eq : (x i : ℕ) → Sizes nenv → i < nenv → (generation nenv x + i) % near nenv ≡ i
  index-eq x i z h = elim (generation-cases x) [
    | inl e ↦
        ap (λ g. (g + i) % near nenv) (e ∙ z.step_is)
        ∙ mul-add-mod_self_right 2 (near nenv) i
        ∙ mod-eq_of_lt (omega (arith, h, z.fits))
    | inr (e, n) ↦
        ap (λ g. (g + i) % near nenv) e
        ∙ mul-add-mod_self_right (add32 x (step nenv) / near nenv) (near nenv) i
        ∙ mod-eq_of_lt (omega (arith, h, z.fits))
  ]

  id-positive : (x i : ℕ) → Sizes nenv → i < nenv → generation nenv x + i ≢ 0
  id-positive x i z h a = elim (generation-cases x) [
    | inl e ↦ omega (arith, e, a, h, z.step_is, z.fits)
    | inr (e, n) ↦ n (sym e ∙ omega (arith, a))
  ]

  lookup-eq :
      (envid e : ℕ) (s : Table)
      → envid ≢ 0
      → envid % near nenv ≡ e
      → e < nenv
      → envid2env nenv envid false s
        ≡ ok (
            if is_free (s.env_status e) || not (s.env_id e == envid)
            then bad_env
            else found_env (some e))
  unfolding envid2env check_env
  lookup-eq envid e s n m l =
      rw (ne→== envid 0 n, m, lt→ltb e nenv l)
        (checked (is_free (s.env_status e) || not (s.env_id e == envid)))
    where
      checked :
          (b : Bool)
          → (if b then ok bad_env else ok (found_env (some e)))
            ≡ ok (if b then bad_env else found_env (some e))
      checked true = refl
      checked false = refl

  completed : ℕ → Table → Table
  completed i s = complete_environment_initialization nenv i s

  completed-eq :
      (i : ℕ) (s : Table)
      → ((completed i s).env_id i ≡ generation nenv (s.env_id i) + i)
        × (is_free ((completed i s).env_status i) ≡ false)
  unfolding completed complete_environment_initialization
  completed-eq i s = (rw (eq→== i i refl) refl, rw (eq→== i i refl) refl)

  freed-eq :
      (i : ℕ) (s : Table)
      → ((free_environment i s).env_id i ≡ 0)
        × (is_free ((free_environment i s).env_status i) ≡ true)
  unfolding free_environment
  freed-eq i s = (rw (eq→== i i refl) refl, rw (eq→== i i refl) refl)

  found-Live :
      (i id : ℕ) (s : Table)
      → i < nenv
      → id ≢ 0
      → id % near nenv ≡ i
      → s.env_id i ≡ id
      → is_free (s.env_status i) ≡ false
      → envid2env nenv id false s ≡ ok (found_env (some i))
  found-Live i id s l n m e t =
      lookup-eq id i s n m l ∙ ap (λ b. ok (if b then bad_env else found_env (some i))) live
    where
      live : (is_free (s.env_status i) || not (s.env_id i == id)) ≡ false
      live = rw (t, eq→== (s.env_id i) id e) refl

  freed-Bad :
      (i id : ℕ) (s : Table)
      → i < nenv
      → id ≢ 0
      → id % near nenv ≡ i
      → is_free (s.env_status i) ≡ true
      → envid2env nenv id false s ≡ ok bad_env
  freed-Bad i id s l n m t =
      lookup-eq id i s n m l
      ∙ ap (λ b. ok (if b then bad_env else found_env (some i)))
          (ap (λ f. f || not (s.env_id i == id)) t)

  -- The index of an environment is below NENV, and NENV is at most 2^29. Once its initialisation is
  -- complete, its identifier is not 0 and envid2env without the check of permissions finds it by this
  -- identifier; after the environment is freed, the same identifier is E_BAD_ENV.
  pub envid2env_complete :
      (i : ℕ) (s : Table)
      → i < nenv
      → nenv ≤ 2 ^ 29
      → let id = (complete_environment_initialization nenv i s).env_id i in
        let s' = complete_environment_initialization nenv i s in
        (id ≢ 0)
        × (envid2env nenv id false s' ≡ ok (found_env (some i)))
        × (envid2env nenv id false (free_environment i s') ≡ ok bad_env)
  unfolding completed
  envid2env_complete i s l b = (
    positive,
    found-Live i (s'.env_id i) s' l positive index refl (completed-eq i s).1,
    freed-Bad i (s'.env_id i) (free_environment i s') l positive index (freed-eq i s').1,
  )
    where
      s' : Table
      s' = completed i s

      positive : s'.env_id i ≢ 0
      positive a = id-positive (s.env_id i) i (Sizes-of nenv i l b) l (sym (completed-eq i s).0 ∙ a)

      index : s'.env_id i % near nenv ≡ i
      index =
          ap (λ x. x % near nenv) (completed-eq i s).0
          ∙ index-eq (s.env_id i) i (Sizes-of nenv i l b) l

  first_generation : (x : ℕ) → x ≡ 0 → 0 < nenv → Sizes nenv → generation nenv x ≡ 2 * near nenv
  first_generation x e p z = elim (generation-cases x) [
    | inl g ↦ g ∙ z.step_is
    | inr (g, n) ↦
        g ∙ ap (λ y. y / near nenv * near nenv) start ∙ whole (near nenv) (omega (arith, p, z.fits))
  ]
    where
      start : add32 x (step nenv) ≡ 2 * near nenv
      start = omega (arith, e, z.step_is, z.bound)

      whole : (n : ℕ) → 0 < n → 2 * n / n * n ≡ 2 * n
      whole n h = ap (λ q. q * n) (mul-div_cancel 2 h)

  -- NENV is at most 2^29. An environment that is created at an index that was freed always gets the
  -- identifier 2 * NEARPOW2NENV plus the index, whatever identifier the index had before: so after it
  -- is freed and created once more, the identifier of the former environment finds the new one.
  pub free_environment-SameId :
      (i : ℕ) (s : Table)
      → i < nenv
      → nenv ≤ 2 ^ 29
      → let s1 = complete_environment_initialization nenv i (free_environment i s) in
        let s2 = complete_environment_initialization nenv i (free_environment i s1) in
        (s1.env_id i ≡ 2 * near nenv + i)
        × (s2.env_id i ≡ s1.env_id i)
        × (envid2env nenv (s1.env_id i) false s2 ≡ ok (found_env (some i)))
  unfolding completed
  free_environment-SameId i s l b = (
    same s,
    same s1 ∙ sym (same s),
    found-Live i (s1.env_id i) s2 l (λ a. omega (arith, a, same s, l, sizes.fits))
        (ap (λ x. x % near nenv) (same s)
          ∙ mul-add-mod_self_right 2 (near nenv) i
          ∙ mod-eq_of_lt (omega (arith, l, sizes.fits)))
        (same s1 ∙ sym (same s)) (completed-eq i (free_environment i s1)).1,
  )
    where
      sizes : Sizes nenv
      sizes = Sizes-of nenv i l b

      same : (t : Table) → (completed i (free_environment i t)).env_id i ≡ 2 * near nenv + i
      same t =
          (completed-eq i (free_environment i t)).0
          ∙ ap (λ g. g + i)
              (first_generation ((free_environment i t).env_id i) (freed-eq i t).0
                (omega (arith, l)) sizes)

      s1 : Table
      s1 = completed i (free_environment i s)

      s2 : Table
      s2 = completed i (free_environment i s1)
