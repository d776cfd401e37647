-- ===== src/Strings/Copy/Bounds.antt =====
-- What the functions that copy strings write, and what they leave.
use mathlib.Core.Path.{subst}
use fos_project.Memory.{Mem, write}
use fos_project.Prelude.Words.{u32_mod, add32, sub32, add32-eq}
use fos_project.Strings.{byte}
use mathlib.Core.Path.{subst⁻¹, subst}
use fos_project.Strings.Copy.{
  strcpy, rest_of, strncpy, strlcpy_loop, strlcpy, copy_bytes, strcconcat,
}
use fos_project.Prelude.{
  eq→==, ne→==, length, take, ℕ, zero, suc, ◌+◌, ◌≤◌, ◌<◌, min, ◌≡◌, refl, sym, ap, ◌∙◌, ◌≢◌, ◌⊎◌,
  inl, inr, List, [], ◌∷◌, ◌++◌, arith,
}

-- byte `i` of a string, 0 from its end on
abbrev pub byte_at : List ℕ → ℕ → ℕ
byte_at [] i = 0
byte_at (c ∷ s) zero = c
byte_at (c ∷ s) (suc i) = byte_at s i

-- The `n` bytes from `dst` on are those of the string with zeros behind it; all others are as before.
abbrev pub Writes : ℕ → List ℕ → ℕ → Mem → Mem → Type 0
Writes dst s n m m' =
    ((j : ℕ) → j < n → m' (dst + j) ≡ byte_at s j)
    × ((a : ℕ) → (a < dst) ⊎ (dst + n ≤ a) → m' a ≡ m a)

write-other : (m : Mem) (p v a : ℕ) → p ≢ a → write m p v a ≡ m a
write-other m p v a n = rw (ne→== p a n) refl

write-same : (m : Mem) (p v : ℕ) → write m p v p ≡ v
write-same m p v = rw (eq→== p p refl) refl

byte_at-zero : (s : List ℕ) → byte_at s 0 ≡ byte s
byte_at-zero [] = refl
byte_at-zero (c ∷ s) = refl

byte_at-suc : (s : List ℕ) (i : ℕ) → byte_at s (suc i) ≡ byte_at (rest_of s) i
byte_at-suc [] i = refl
byte_at-suc (c ∷ s) i = refl

-- One byte, and then the rest.
Writes-step :
    (dst n : ℕ) (s : List ℕ) (m m' : Mem)
    → Writes (dst + 1) (rest_of s) n (write m dst (byte s)) m'
    → Writes dst s (suc n) m m'
Writes-step dst n s m m' (w, o) = (here, λ a h. outside a h)
  where
    here : (j : ℕ) → j < suc n → m' (dst + j) ≡ byte_at s j
    here zero h =
        ap m' (omega arith)
        ∙ o dst (inl (omega arith))
        ∙ write-same m dst (byte s)
        ∙ sym (byte_at-zero s)
    here (suc j) h = ap m' (omega arith) ∙ w j (omega (arith, h)) ∙ sym (byte_at-suc s j)

    outside : (a : ℕ) → (a < dst) ⊎ (dst + suc n ≤ a) → m' a ≡ m a
    outside a (inl h) =
        o a (inl (omega (arith, h))) ∙ write-other m dst (byte s) a (omega (arith, h))
    outside a (inr h) =
        o a (inr (omega (arith, h))) ∙ write-other m dst (byte s) a (omega (arith, h))

Writes-none : (dst : ℕ) (s : List ℕ) (m : Mem) → Writes dst s 0 m m
Writes-none dst s m = ((λ j h. absurd (omega (arith, h))), λ a h. refl)

Writes-end : (dst : ℕ) (m : Mem) → Writes dst [] 1 m (write m dst 0)
Writes-end dst m = Writes-step dst 0 [] m (write m dst 0) (Writes-none (dst + 1) [] (write m dst 0))

-- strncpy writes exactly `size` bytes, the string's and then zeros.
strncpy-Writes :
    (dst : ℕ) (src : List ℕ) (size : ℕ) (m : Mem)
    → dst + size < u32_mod
    → Writes dst src size m (strncpy dst src size m)
unfolding strncpy
strncpy-Writes dst src zero m h = Writes-none dst src m
strncpy-Writes dst src (suc size) m h =
    Writes-step dst size src m (strncpy (add32 dst 1) (rest_of src) size (write m dst (byte src))) (
      rw (add32-eq dst 1 (omega arith))
        (strncpy-Writes (dst + 1) (rest_of src) size (write m dst (byte src)) (omega arith)))

-- strcpy writes the string and its end.
strcpy-Writes :
    (dst : ℕ) (src : List ℕ) (m : Mem)
    → dst + suc (length src) < u32_mod
    → Writes dst src (suc (length src)) m (strcpy dst src m)
unfolding strcpy
strcpy-Writes dst [] m h = Writes-end dst m
strcpy-Writes dst (c ∷ src) m h =
    Writes-step dst (suc (length src)) (c ∷ src) m (strcpy (add32 dst 1) src (write m dst c)) (
      rw (add32-eq dst 1 (omega arith)) (strcpy-Writes (dst + 1) src (write m dst c) (omega arith)))

length-take : (n : ℕ) (s : List ℕ) → length (take n s) ≡ min n (length s)
length-take zero s = omega arith
length-take (suc n) [] = omega arith
length-take (suc n) (c ∷ s) = omega (arith, length-take n s)

loop-Writes :
    (n dst : ℕ) (src : List ℕ) (m : Mem)
    → dst + suc n < u32_mod
    → ((strlcpy_loop n dst src m).0 ≡ dst + length (take n src))
      × Writes dst (take n src) (suc (length (take n src))) m (strlcpy_loop n dst src m).1
unfolding strlcpy_loop
loop-Writes zero dst src m h = (omega arith, Writes-end dst m)
loop-Writes (suc n) dst [] m h = (omega arith, Writes-end dst m)
loop-Writes (suc n) dst (c ∷ src) m h =
    subst⁻¹
      (λ r.
        (r.0 ≡ dst + suc (length (take n src)))
        × Writes dst (c ∷ take n src) (suc (suc (length (take n src)))) m r.1)
      (ap (λ p. strlcpy_loop n p src (write m dst c)) (add32-eq dst 1 (omega arith)))
      (step (loop-Writes n (dst + 1) src (write m dst c) (omega arith)))
  where
    step :
        ((strlcpy_loop n (dst + 1) src (write m dst c)).0 ≡ dst + 1 + length (take n src))
          × Writes
              (dst + 1)
              (take n src)
              (suc (length (take n src)))
              (write m dst c)
              (strlcpy_loop n (dst + 1) src (write m dst c)).1
        → ((strlcpy_loop n (dst + 1) src (write m dst c)).0 ≡ dst + suc (length (take n src)))
          × Writes dst
              (c ∷ take n src)
              (suc (suc (length (take n src))))
              m
              (strlcpy_loop n (dst + 1) src (write m dst c)).1
    step (e, w) = (
      e ∙ omega arith,
      Writes-step dst (suc (length (take n src))) (c ∷ take n src) m
          (strlcpy_loop n (dst + 1) src (write m dst c)).1 w,
    )

-- strcconcat writes the same memory as strcpy of the one string with the other behind it.
strcconcat-eq-strcpy :
    (str1 str2 : List ℕ) (final : ℕ) (m : Mem)
    → strcconcat str1 str2 final m ≡ strcpy final (str1 ++ str2) m
unfolding strcconcat strcpy copy_bytes
strcconcat-eq-strcpy [] [] final m = refl
strcconcat-eq-strcpy [] (c ∷ str2) final m =
    strcconcat-eq-strcpy [] str2 (add32 final 1) (write m final c)
strcconcat-eq-strcpy (c ∷ str1) str2 final m =
    strcconcat-eq-strcpy str1 str2 (add32 final 1) (write m final c)

-- strlcpy into a buffer of `size` bytes, `size` not 0, that ends below the top of the address space:
-- it returns the length of the string or `size - 1`, whichever is less, and that many bytes of the
-- string with a zero behind them are written from `dst` on; no other byte changes, so nothing at or
-- beyond `dst + size` is written.
pub strlcpy-Writes :
    (dst size : ℕ) (src : List ℕ) (m : Mem)
    → dst + suc size < u32_mod
    → ((strlcpy dst src (suc size) m).0 ≡ min size (length src))
      × Writes dst (take size src) (suc (min size (length src))) m (strlcpy dst src (suc size) m).1
      × ((a : ℕ) → dst + suc size ≤ a → (strlcpy dst src (suc size) m).1 a ≡ m a)
unfolding strlcpy
strlcpy-Writes dst size src m h = all (loop-Writes size dst src m h)
  where
    all :
        ((strlcpy_loop size dst src m).0 ≡ dst + length (take size src))
          × Writes dst
              (take size src)
              (suc (length (take size src)))
              m
              (strlcpy_loop size dst src m).1
        → (sub32 (strlcpy_loop size dst src m).0 dst ≡ min size (length src))
          × Writes dst
              (take size src)
              (suc (min size (length src)))
              m
              (strlcpy_loop size dst src m).1
          × ((a : ℕ) → dst + suc size ≤ a → (strlcpy_loop size dst src m).1 a ≡ m a)
    all (e, w) = (
      omega (arith, e, length-take size src),
      subst (λ k. Writes dst (take size src) (suc k) m (strlcpy_loop size dst src m).1)
          (length-take size src) w,
      λ a k. w.1 a (inr (omega (arith, k, length-take size src))),
    )
