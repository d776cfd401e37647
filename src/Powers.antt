-- ===== src/Powers.antt =====
-- nearest_pow2_ceil and log2_ceil of kern/tests/utilities.c on unsigned words. The loop that halves
-- `x` runs on fuel, one unit for each shift; a word is 0 after 32 shifts.
pub mod Rounding
use fos_project.Prelude.Words.{u32_mod}
use fos_project.Prelude.{
  leb, ◌==◌, if◌then◌else◌, ℕ, zero, suc, ◌+◌, ◌-◌, ◌*◌, ◌/◌, ◌%◌, true, false,
}

-- while (x >>= 1) power <<= 1;
pub pow2_loop : ℕ → ℕ → ℕ → ℕ
pow2_loop zero x power = power
pow2_loop (suc fuel) x power = elim (x / 2 == 0) [
  | true ↦ power
  | false ↦ pow2_loop fuel (x / 2) (power * 2 % u32_mod)
]

pub nearest_pow2_ceil : ℕ → ℕ
nearest_pow2_ceil x = if leb x 1 then 1 else pow2_loop 32 (x - 1) 2

-- while (x >>= 1) bits_cnt++;
pub log2_loop : ℕ → ℕ → ℕ → ℕ
log2_loop zero x bits_cnt = bits_cnt
log2_loop (suc fuel) x bits_cnt = elim (x / 2 == 0) [
  | true ↦ bits_cnt
  | false ↦ log2_loop fuel (x / 2) (bits_cnt + 1)
]

pub log2_ceil : ℕ → ℕ
log2_ceil x = if leb x 1 then 1 else log2_loop 32 (x - 1) 2
