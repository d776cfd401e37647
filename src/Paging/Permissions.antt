-- ===== src/Paging/Permissions.antt =====
-- pt_set_page_permissions and pt_get_page_permissions where the table is in memory.
use fos_project.Prelude.Words.Bits.{bit_or-zero, and_not-used, and_not-modified}
use fos_project.Prelude.Words.{u32_mod, bit_or, and_not}
use fos_project.Paging.{
  Paging, Machine, pdx, is_present, permissions_of, put_entry, entry_at, get_page_table,
  pt_get_page_permissions, pt_set_page_permissions,
}
use fos_project.Prelude.{ne→==, ok, ℕ, ◌-◌, ◌*◌, ◌/◌, ◌%◌, ◌<◌, ◌≡◌, ◌≢◌, true, some, arith}

pub get_permissions-present :
    (m : Machine) (va : ℕ) (s : Paging)
    → is_present (s.directory (pdx va)) ≡ true
    → pt_get_page_permissions m va s ≡ (some (permissions_of (entry_at va s)), s)
unfolding pt_get_page_permissions get_page_table
get_permissions-present m va s h = ground arith

set_permissions-present :
    (m : Machine) (va clear e : ℕ) (s : Paging)
    → is_present (s.directory (pdx va)) ≡ true
    → clear ≢ 0
    → bit_or (entry_at va s) 0 ≡ entry_at va s
    → and_not (entry_at va s) clear ≡ e
    → pt_set_page_permissions m va 0 clear s ≡ ok (put_entry va e s)
unfolding pt_set_page_permissions get_page_table
set_permissions-present m va clear e s h n o a = ground (arith, ne→== clear 0 n)

-- an entry without PERM_USED and without PERM_MODIFIED
abbrev pub unused : ℕ → ℕ
unused e = e - e / 32 % 2 * 32

abbrev pub unmodified : ℕ → ℕ
unmodified e = e - e / 64 % 2 * 64

pub clear_used :
    (m : Machine) (va : ℕ) (s : Paging)
    → is_present (s.directory (pdx va)) ≡ true
    → entry_at va s < u32_mod
    → pt_set_page_permissions m va 0 32 s ≡ ok (put_entry va (unused (entry_at va s)) s)
clear_used m va s h b =
    set_permissions-present m va 32 (unused (entry_at va s)) s h (omega arith)
      (bit_or-zero (entry_at va s) b) (and_not-used (entry_at va s) b)

pub clear_modified :
    (m : Machine) (va : ℕ) (s : Paging)
    → is_present (s.directory (pdx va)) ≡ true
    → entry_at va s < u32_mod
    → pt_set_page_permissions m va 0 64 s ≡ ok (put_entry va (unmodified (entry_at va s)) s)
clear_modified m va s h b =
    set_permissions-present m va 64 (unmodified (entry_at va s)) s h (omega arith)
      (bit_or-zero (entry_at va s) b) (and_not-modified (entry_at va s) b)
