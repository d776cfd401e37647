-- ===== src/Strings.antt =====
-- The functions of lib/string.c that read strings. A string is the list of its bytes up to the
-- terminating 0, so the pointer `s++` is the tail and `*s == '\0'` is the end of the list. Bytes
-- are numbers below 256.
pub mod Scan
pub mod Copy
pub mod Numbers
pub mod Split
mod Tests
use fos_project.Prelude.Int.{ℤ, pos, sub_ℕ}
use fos_project.Prelude.{◌==◌, if◌then◌else◌, ℕ, zero, suc, ◌+◌, Option, none, some, List, [], ◌∷◌}

pub strlen_loop : ℕ → List ℕ → ℕ
strlen_loop n [] = n
strlen_loop n (c ∷ s) = strlen_loop (n + 1) s

pub strlen : List ℕ → ℕ
unfolding strlen_loop
strlen s = strlen_loop 0 s

pub strnlen_loop : ℕ → ℕ → List ℕ → ℕ
strnlen_loop n zero s = n
strnlen_loop n (suc size) [] = n
strnlen_loop n (suc size) (c ∷ s) = strnlen_loop (n + 1) size s

pub strnlen : List ℕ → ℕ → ℕ
unfolding strnlen_loop
strnlen s size = strnlen_loop 0 size s

-- the byte at the pointer
abbrev pub byte : List ℕ → ℕ
byte [] = 0
byte (c ∷ s) = c

unfoldable pub strcmp : List ℕ → List ℕ → ℤ
strcmp [] q = sub_ℕ 0 (byte q)
strcmp (c ∷ p) [] = sub_ℕ c 0
strcmp (c ∷ p) (d ∷ q) = if c == d then strcmp p q else sub_ℕ c d

pub strncmp : List ℕ → List ℕ → ℕ → ℤ
strncmp p q zero = pos 0
strncmp [] q (suc n) = sub_ℕ 0 (byte q)
strncmp (c ∷ p) [] (suc n) = sub_ℕ c 0
strncmp (c ∷ p) (d ∷ q) (suc n) = if c == d then strncmp p q n else sub_ℕ c d

pub strchr : List ℕ → ℕ → Option (List ℕ)
strchr [] c = none
strchr (d ∷ s) c = if d == c then some (d ∷ s) else strchr s c

pub strfind : List ℕ → ℕ → List ℕ
strfind [] c = []
strfind (d ∷ s) c = if d == c then d ∷ s else strfind s c
