-- ===== src/Memory.antt =====
-- memset, memcpy, memmove, memcmp and memfind of lib/string.c. A memory gives the byte at each
-- address; a pointer is a 32-bit address, and its increment wraps.
pub mod Move
pub mod Compare
mod Tests
use fos_project.Prelude.Int.{ℤ, pos, sub_ℕ}
use fos_project.Prelude.Words.{add32, sub32}
use fos_project.Prelude.{ltb, ◌==◌, if◌then◌else◌, ℕ, zero, suc, ◌%◌, ◌^◌, ◌&&◌}

abbrev pub Mem : Type 0
Mem = ℕ → ℕ

abbrev pub write : Mem → ℕ → ℕ → Mem
write m p v a = if p == a then v else m a

-- the loop of memset, `m` rounds of `*p++ = c`
pub memset_loop : ℕ → ℕ → ℕ → Mem → Mem
memset_loop zero p c m = m
memset_loop (suc n) p c m = memset_loop n (add32 p 1) c (write m p (c % 256))

-- `int m = n`: a count of 2^31 or more is negative, and the loop does not start.
pub memset : ℕ → ℕ → ℕ → Mem → Mem
memset v c n m = if ltb n (2 ^ 31) then memset_loop n v c m else m

-- `while (n-- > 0) *d++ = *s++;`
pub copy_up : ℕ → ℕ → ℕ → Mem → Mem
copy_up zero d s m = m
copy_up (suc n) d s m = copy_up n (add32 d 1) (add32 s 1) (write m d (m s))

-- `while (n-- > 0) *--d = *--s;`
pub copy_down : ℕ → ℕ → ℕ → Mem → Mem
copy_down zero d s m = m
copy_down (suc n) d s m = copy_down n (sub32 d 1) (sub32 s 1) (write m (sub32 d 1) (m (sub32 s 1)))

pub memcpy : ℕ → ℕ → ℕ → Mem → Mem
memcpy dst src n m = copy_up n dst src m

pub memmove : ℕ → ℕ → ℕ → Mem → Mem
memmove dst src n m =
    if ltb src dst && ltb dst (add32 src n)
    then copy_down n (add32 dst n) (add32 src n) m
    else copy_up n dst src m

pub memcmp : ℕ → ℕ → ℕ → Mem → ℤ
memcmp s1 s2 zero m = pos 0
memcmp s1 s2 (suc n) m =
    if m s1 == m s2 then memcmp (add32 s1 1) (add32 s2 1) n m else sub_ℕ (m s1) (m s2)

-- the loop of memfind, with `n` bytes left up to `ends`
pub memfind : ℕ → ℕ → ℕ → Mem → ℕ
memfind s c zero m = s
memfind s c (suc n) m = if m s == c % 256 then s else memfind (add32 s 1) c n m
