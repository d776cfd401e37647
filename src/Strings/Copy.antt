-- ===== src/Strings/Copy.antt =====
-- strcpy, strncpy, strlcpy and strcconcat of lib/string.c. The destination is a range of a byte memory
-- with 32-bit pointers that wrap; the source is a string that lies outside of it.
pub mod Bounds
use fos_project.Memory.{Mem, write}
use fos_project.Prelude.Words.{add32, sub32}
use fos_project.Strings.{byte}
use fos_project.Prelude.{ℕ, zero, suc, List, [], ◌∷◌}

-- `while ((*dst++ = *src++) != '\0')`
pub strcpy : ℕ → List ℕ → Mem → Mem
strcpy dst [] m = write m dst 0
strcpy dst (c ∷ src) m = strcpy (add32 dst 1) src (write m dst c)

-- the source after a byte that is not 0
abbrev pub rest_of : List ℕ → List ℕ
rest_of [] = []
rest_of (c ∷ s) = s

pub strncpy : ℕ → List ℕ → ℕ → Mem → Mem
strncpy dst src zero m = m
strncpy dst src (suc size) m = strncpy (add32 dst 1) (rest_of src) size (write m dst (byte src))

-- the loop of strlcpy, with `n` left of the size after `--size`, and the final `*dst = '\0'`
pub strlcpy_loop : ℕ → ℕ → List ℕ → Mem → ℕ × Mem
strlcpy_loop zero dst src m = (dst, write m dst 0)
strlcpy_loop (suc n) dst [] m = (dst, write m dst 0)
strlcpy_loop (suc n) dst (c ∷ src) m = strlcpy_loop n (add32 dst 1) src (write m dst c)

pub strlcpy : ℕ → List ℕ → ℕ → Mem → ℕ × Mem
strlcpy dst src zero m = (0, m)
strlcpy dst src (suc size) m = let (end, m') = strlcpy_loop size dst src m in (sub32 end dst, m')

-- the loops of strcconcat, which copy a string without its end
pub copy_bytes : ℕ → List ℕ → Mem → ℕ × Mem
copy_bytes p [] m = (p, m)
copy_bytes p (c ∷ s) m = copy_bytes (add32 p 1) s (write m p c)

pub strcconcat : List ℕ → List ℕ → ℕ → Mem → Mem
strcconcat str1 str2 final m =
    let (p, m1) = copy_bytes final str1 m in let (q, m2) = copy_bytes p str2 m1 in write m2 q 0
