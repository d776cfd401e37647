-- ===== src/Memory/Move.antt =====
-- memset, memcpy and memmove, address by address.
use fos_project.Prelude.Words.{u32_mod, sub32, add32-eq}
use fos_project.Prelude.{
  ltb, leb, if◌then◌else◌, lt→ltb, Bool-cases, ℕ, zero, suc, ◌+◌, ◌-◌, ◌%◌, ◌^◌, ◌≤◌, ◌<◌, ◌≡◌, ◌⊎◌,
  inl, inr, Bool, ◌&&◌, arith,
}
use fos_project.Memory.{Mem, write, memset_loop, memset, copy_up, copy_down, memcpy, memmove}

-- The address lies in the `n` bytes from `p` on.
abbrev pub within : ℕ → ℕ → ℕ → Bool
within p n a = leb p a && ltb a (p + n)

memset_loop-lem :
    (n p c : ℕ) (m : Mem) (a : ℕ)
    → p + n < u32_mod
    → memset_loop n p c m a ≡ (if within p n a then c % 256 else m a)
unfolding memset_loop
memset_loop-lem zero p c m a h = ground arith
memset_loop-lem (suc n) p c m a h =
    rw (add32-eq p 1 (omega arith))
      (ground (arith, memset_loop-lem n (p + 1) c (write m p (c % 256)) a))

copy_up-lem :
    (n d s : ℕ) (m : Mem) (a : ℕ)
    → d + n < u32_mod
    → s + n < u32_mod
    → (d ≤ s) ⊎ (s + n ≤ d)
    → copy_up n d s m a ≡ (if within d n a then m (s + (a - d)) else m a)
unfolding copy_up
copy_up-lem zero d s m a h k o = ground arith
copy_up-lem (suc n) d s m a h k o =
    rw (add32-eq d 1 (omega arith), add32-eq s 1 (omega arith))
      (ground (arith, copy_up-lem n (d + 1) (s + 1) (write m d (m s)) a))

pred32 : (p n : ℕ) → p + suc n < u32_mod → sub32 (p + suc n) 1 ≡ p + n
pred32 p n h = omega arith

copy_down-lem :
    (n d s : ℕ) (m : Mem) (a : ℕ)
    → d + n < u32_mod
    → s + n < u32_mod
    → s ≤ d
    → copy_down n (d + n) (s + n) m a ≡ (if within d n a then m (s + (a - d)) else m a)
unfolding copy_down
copy_down-lem zero d s m a h k o = ground arith
copy_down-lem (suc n) d s m a h k o =
    rw (pred32 d n h, pred32 s n k)
      (ground (arith, copy_down-lem n d s (write m (d + n) (m (s + n))) a))

-- memset sets the `n` bytes from `v` on to the low byte of `c` and no other byte, where the range
-- does not reach the end of the address space and `n` is below 2^31.
memset_lem :
    (v c n : ℕ) (m : Mem) (a : ℕ)
    → v + n < u32_mod
    → n < 2 ^ 31
    → memset v c n m a ≡ (if within v n a then c % 256 else m a)
unfolding memset
memset_lem v c n m a h k = rw (lt→ltb n (2 ^ 31) k) (memset_loop-lem n v c m a h)

-- memcpy copies right, address by address, where neither range reaches the end of the address
-- space and the destination starts at or below the source or at or above its end.
memcpy_lem :
    (dst src n : ℕ) (m : Mem) (a : ℕ)
    → dst + n < u32_mod
    → src + n < u32_mod
    → (dst ≤ src) ⊎ (src + n ≤ dst)
    → memcpy dst src n m a ≡ (if within dst n a then m (src + (a - dst)) else m a)
unfolding memcpy
memcpy_lem dst src n m a h k o = copy_up-lem n dst src m a h k o

-- memmove copies right however the two ranges overlap: after it each address of the destination
-- holds what the source held before, and no other address changes, where neither range reaches
-- the end of the address space.
pub memmove_lem :
    (dst src n : ℕ) (m : Mem) (a : ℕ)
    → dst + n < u32_mod
    → src + n < u32_mod
    → memmove dst src n m a ≡ (if within dst n a then m (src + (a - dst)) else m a)
unfolding memmove
memmove_lem dst src n m a h k =
    rw (add32-eq dst n h, add32-eq src n k)
      (elim (Bool-cases (ltb src dst && ltb dst (src + n))) [
        | inl e ↦ rw e (copy_down-lem n dst src m a h k (ground arith))
        | inr e ↦ rw e (copy_up-lem n dst src m a h k (ground arith))
      ])
