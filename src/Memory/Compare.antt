-- ===== src/Memory/Compare.antt =====
-- memcmp and memfind of lib/string.c.
use fos_project.Prelude.Words.{u32_mod, add32, add32-eq}
use fos_project.Prelude.Int.{ℤ, pos, sub_ℕ}
use mathlib.Core.Path.{subst⁻¹}
use fos_project.Prelude.{
  eq→==, ne→==, ℕ, zero, suc, ◌+◌, ◌%◌, ◌<◌, ◌≡◌, refl, sym, ap, ◌∙◌, ◌≢◌, ◌⊎◌, inl, inr, arith,
  ℕ_discrete,
}
use fos_project.Memory.{Mem, memcmp, memfind}

-- The two ranges of `n` bytes hold the same bytes.
abbrev pub SameBytes : Mem → ℕ → ℕ → ℕ → Type 0
SameBytes m p q n = (i : ℕ) → i < n → m (p + i) ≡ m (q + i)

-- What memcmp must give: 0 for the same bytes, or else the difference at the first that differ.
abbrev pub Compared : Mem → ℕ → ℕ → ℕ → ℤ → Type 0
Compared m p q n r =
    ((r ≡ pos 0) × SameBytes m p q n)
    ⊎ ((i : ℕ) × (i < n)
        × SameBytes m p q i
        × (m (p + i) ≢ m (q + i))
        × (r ≡ sub_ℕ (m (p + i)) (m (q + i))))

module _ (m : Mem) (p q : ℕ) where
  next_byte : (r i : ℕ) → m (r + 1 + i) ≡ m (r + suc i)
  next_byte r i = ap m (omega arith)

  first_byte : (r : ℕ) → m r ≡ m (r + 0)
  first_byte r = ap m (omega arith)

  SameBytes-suc : (n : ℕ) → m p ≡ m q → SameBytes m (p + 1) (q + 1) n → SameBytes m p q (suc n)
  SameBytes-suc n e h zero l = sym (first_byte p) ∙ e ∙ first_byte q
  SameBytes-suc n e h (suc i) l = sym (next_byte p i) ∙ h i (omega arith) ∙ next_byte q i

  Compared-suc :
      (n : ℕ) (r : ℤ) → m p ≡ m q → Compared m (p + 1) (q + 1) n r → Compared m p q (suc n) r
  Compared-suc n r e (inl (z, h)) = inl (z, SameBytes-suc n e h)
  Compared-suc n r e (inr (i, l, h, d, v)) = inr (
    suc i,
    omega arith,
    SameBytes-suc i e h,
    (λ f. d (next_byte p i ∙ f ∙ sym (next_byte q i))),
    rw (← next_byte p i, ← next_byte q i) v,
  )

  Compared-first : (n : ℕ) → m p ≢ m q → Compared m p q (suc n) (sub_ℕ (m p) (m q))
  Compared-first n d = inr (
    0,
    omega arith,
    (λ i l. absurd (omega arith)),
    (λ f. d (first_byte p ∙ f ∙ sym (first_byte q))),
    rw (← first_byte p, ← first_byte q),
  )

memcmp-same :
    (p q n : ℕ) (m : Mem) → m p ≡ m q → memcmp p q (suc n) m ≡ memcmp (add32 p 1) (add32 q 1) n m
unfolding memcmp
memcmp-same p q n m e = ground arith

memcmp-differ : (p q n : ℕ) (m : Mem) → m p ≢ m q → memcmp p q (suc n) m ≡ sub_ℕ (m p) (m q)
unfolding memcmp
memcmp-differ p q n m e = ground arith

-- memcmp gives 0 where the two ranges hold the same bytes, and otherwise the difference of the
-- first two bytes that differ, for ranges that do not reach the end of the address space.
memcmp_lem :
    (s1 s2 n : ℕ) (m : Mem)
    → s1 + n < u32_mod
    → s2 + n < u32_mod
    → Compared m s1 s2 n (memcmp s1 s2 n m)
memcmp_lem s1 s2 zero m h k = inl (unfold memcmp in refl, λ i l. absurd (omega arith))
memcmp_lem s1 s2 (suc n) m h k = elim (ℕ_discrete (m s1) (m s2)) [
  | no d ↦
      subst⁻¹ (Compared m s1 s2 (suc n)) (memcmp-differ s1 s2 n m d) (Compared-first m s1 s2 n d)
  | yes e ↦ subst⁻¹ (Compared m s1 s2 (suc n)) (memcmp-same s1 s2 n m e) (
      rw (add32-eq s1 1 (omega arith), add32-eq s2 1 (omega arith))
        (Compared-suc m s1 s2 n (memcmp (s1 + 1) (s2 + 1) n m) e
          (memcmp_lem (s1 + 1) (s2 + 1) n m (omega arith) (omega arith))))
]

-- The first `i` bytes from `p` on are not `c`.
abbrev pub NoByte : Mem → ℕ → ℕ → ℕ → Type 0
NoByte m p i c = (j : ℕ) → j < i → m (p + j) ≢ c

-- `r` is the first of the `n` bytes from `p` on that is `c`, or the end if there is none.
abbrev pub FirstByte : Mem → ℕ → ℕ → ℕ → ℕ → Type 0
FirstByte m p n c r = (i : ℕ) × (r ≡ p + i) × NoByte m p i c × ((i ≡ n) ⊎ ((i < n) × (m r ≡ c)))

NoByte-suc : (m : Mem) (p i c : ℕ) → m p ≢ c → NoByte m (p + 1) i c → NoByte m p (suc i) c
NoByte-suc m p i c d h zero l = λ e. d (first_byte m p p p ∙ e)
NoByte-suc m p i c d h (suc j) l = λ e. h j (omega arith) (next_byte m p p p j ∙ e)

FirstByte-suc :
    (m : Mem) (p n c r : ℕ) → m p ≢ c → FirstByte m (p + 1) n c r → FirstByte m p (suc n) c r
FirstByte-suc m p n c r d (i, e, h, inl x) =
    (suc i, omega arith, NoByte-suc m p i c d h, inl (omega arith))
FirstByte-suc m p n c r d (i, e, h, inr (l, x)) =
    (suc i, omega arith, NoByte-suc m p i c d h, inr (omega arith, x))

-- memfind stops at the first of the `n` bytes that is the low byte of `c`, or at the end of the
-- range if there is none, for a range that does not reach the end of the address space.
memfind_lem : (s c n : ℕ) (m : Mem) → s + n < u32_mod → FirstByte m s n (c % 256) (memfind s c n m)
unfolding memfind
memfind_lem s c zero m h = (0, omega arith, (λ j l. absurd (omega arith)), inl refl)
memfind_lem s c (suc n) m h = elim (ℕ_discrete (m s) (c % 256)) [
  | yes e ↦
      rw (eq→== (m s) (c % 256) e)
        (0, omega arith, (λ j l. absurd (omega arith)), inr (omega arith, e))
  | no d ↦
      rw (ne→== (m s) (c % 256) d, add32-eq s 1 (omega arith))
        (FirstByte-suc m s n (c % 256) (memfind (s + 1) c n m) d
          (memfind_lem (s + 1) c n m (omega arith)))
]
