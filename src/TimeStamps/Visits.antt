-- ===== src/TimeStamps/Visits.antt =====
-- What the visit of one entry does to the page tables, and what it leaves for the entries behind it.
use fos_project.Prelude.Words.{u32_mod}
use fos_project.Prelude.{
  ◌==◌, if◌then◌else◌, Bool-cases, eq→==, Result, panic, ok, ◌>>=◌, ℕ, ◌+◌, ◌-◌, ◌*◌, ◌/◌, ◌%◌, ◌<◌,
  ◌≡◌, refl, sym, ap, ◌∙◌, ◌≢◌, inl, inr, Bool, true, false, List, [], ◌∷◌, arith,
}
use fos_project.Paging.{Paging, pdx, ptx, is_present, put_entry, entry_at}
use fos_project.Paging.Permissions.{unused}
use fos_project.Paging.Mapping.{OtherPage, put_entry-Aside}
use fos_project.WorkingSet.{Element}
use mathlib.Core.Path.{ap₂, subst⁻¹}

-- whether the page of an entry was used
abbrev pub was_used : Paging → Element → Bool
was_used p x = entry_at x.virtual_address p / 32 % 2 == 1

-- a time stamp after the tick: the older history moves two bits down, and the highest bit says whether
-- the page was used
abbrev pub stamp_after : Bool → ℕ → ℕ
stamp_after used t = if used then t / 4 + 2147483648 else t / 4

-- What the working set becomes: each page that is there is aged by its own used bit.
abbrev pub ticked : Paging → List Element → List Element
ticked p [] = []
ticked p (x ∷ rest) =
    (if x.empty then x else record x { time_stamp = stamp_after (was_used p x) x.time_stamp })
    ∷ ticked p rest

-- The tables of the pages are in memory and their entries are words.
abbrev pub HasEntries : Paging → List Element → Type 0
HasEntries p [] = Unit
HasEntries p (x ∷ rest) =
    (x.empty ≡ false
      → (is_present (p.directory (pdx x.virtual_address)) ≡ true)
        × (entry_at x.virtual_address p < u32_mod))
    × HasEntries p rest

-- No two entries that are there are of the same page.
abbrev pub Others : Element → List Element → Type 0
Others x [] = Unit
Others x (y ∷ rest) =
    (x.empty ≡ false → y.empty ≡ false → OtherPage x.virtual_address y.virtual_address)
    × Others x rest

abbrev pub AllOthers : List Element → Type 0
AllOthers [] = Unit
AllOthers (x ∷ rest) = Others x rest × AllOthers rest

-- The entry of every page that is there has lost PERM_USED and nothing else.
abbrev pub AreUnused : Paging → Paging → List Element → Type 0
AreUnused p p' [] = Unit
AreUnused p p' (x ∷ rest) =
    (x.empty ≡ false
      → entry_at x.virtual_address p'
        ≡ entry_at x.virtual_address p - entry_at x.virtual_address p / 32 % 2 * 32)
    × AreUnused p p' rest

-- The address is in none of the pages that are there.
abbrev pub IsOutside : ℕ → List Element → Type 0
IsOutside va [] = Unit
IsOutside va (x ∷ rest) = (x.empty ≡ false → OtherPage x.virtual_address va) × IsOutside va rest

abbrev pub KeepsOutside : Paging → Paging → List Element → Type 0
KeepsOutside p p' xs = (va : ℕ) → IsOutside va xs → entry_at va p' ≡ entry_at va p

abbrev pub Ticked : Paging → List Element → Result (List Element × Paging) → Type 0
Ticked p xs panic = ⊥
Ticked p xs (ok (ys, p')) = (ys ≡ ticked p xs) × AreUnused p p' xs × KeepsOutside p p' xs

-- What the visit of one entry does to the page tables.
pub record Visited (x : Element) (p p1 : Paging) : Type 0 where
  pub own :
      x.empty ≡ false
      → entry_at x.virtual_address p1
        ≡ entry_at x.virtual_address p - entry_at x.virtual_address p / 32 % 2 * 32
  pub others :
      (va : ℕ) → (x.empty ≡ false → OtherPage x.virtual_address va) → entry_at va p1 ≡ entry_at va p
  pub directory_is : p1.directory ≡ p.directory

-- the paging after an entry that was used
abbrev pub cleared : Element → Paging → Paging
cleared x p = put_entry x.virtual_address (unused (entry_at x.virtual_address p)) p

pub cleared-Visited : (x : Element) (p : Paging) → x.empty ≡ false → Visited x p (cleared x p)
cleared-Visited x p e = record {
  own = λ a.
      rw
        (
          eq→== (pdx x.virtual_address) (pdx x.virtual_address) refl,
          eq→== (ptx x.virtual_address) (ptx x.virtual_address) refl,
        )
        refl;
  others = λ va o.
      (put_entry-Aside x.virtual_address (unused (entry_at x.virtual_address p)) p).others_are va
        (o e);
  directory_is = refl;
}

pub same-Visited :
    (x : Element) (p : Paging)
    → (x.empty ≡ false → entry_at x.virtual_address p / 32 % 2 ≢ 1)
    → Visited x p p
same-Visited x p n = record {
  own = λ e. let u = n e in omega (arith, u);
  others = λ va o. refl;
  directory_is = refl;
}

other-symmetric : (a b : ℕ) → OtherPage a b → OtherPage b a
other-symmetric a b (inl n) = inl (λ e. n (sym e))
other-symmetric a b (inr n) = inr (λ e. n (sym e))

Others-IsOutside :
    (x : Element) (rest : List Element)
    → x.empty ≡ false
    → Others x rest
    → IsOutside x.virtual_address rest
Others-IsOutside x [] e o = tt
Others-IsOutside x (y ∷ rest) e (o, os) = (
  (λ h. other-symmetric x.virtual_address y.virtual_address (o e h)),
  Others-IsOutside x rest e os,
)

module _ (x : Element) (p p1 : Paging) (v : Visited x p p1) where
  -- The entry of another page of the working set is as before.
  entry-same :
      (y : Element)
      → (x.empty ≡ false → y.empty ≡ false → OtherPage x.virtual_address y.virtual_address)
      → y.empty ≡ false
      → entry_at y.virtual_address p1 ≡ entry_at y.virtual_address p
  entry-same y o h = v.others y.virtual_address (λ e. o e h)

  visited-ticked : (rest : List Element) → Others x rest → ticked p1 rest ≡ ticked p rest
  visited-ticked [] o = refl
  visited-ticked (y ∷ rest) (o, os) =
      ap₂ (λ z zs. z ∷ zs)
        (elim (Bool-cases y.empty) [
          | inl h ↦ rw h refl
          | inr h ↦
              ap
                (λ e.
                  if y.empty
                  then y
                  else record y { time_stamp = stamp_after (e / 32 % 2 == 1) y.time_stamp })
                (entry-same y o h)
        ])
        (visited-ticked rest os)

  pub visited-HasEntries :
      (rest : List Element) → Others x rest → HasEntries p rest → HasEntries p1 rest
  visited-HasEntries [] o h = tt
  visited-HasEntries (y ∷ rest) (o, os) (h, hs) = (
    (λ a. (
      ap (λ d. is_present (d (pdx y.virtual_address))) v.directory_is ∙ (h a).0,
      subst⁻¹ (λ e. e < u32_mod) (entry-same y o a) (h a).1,
    )),
    visited-HasEntries rest os hs,
  )

  visited-AreUnused :
      (p' : Paging) (rest : List Element)
      → Others x rest
      → AreUnused p1 p' rest
      → AreUnused p p' rest
  visited-AreUnused p' [] o u = tt
  visited-AreUnused p' (y ∷ rest) (o, os) (u, us) = (
    (λ a. u a ∙ ap (λ e. e - e / 32 % 2 * 32) (entry-same y o a)),
    visited-AreUnused p' rest os us,
  )

  pub visited-Ticked :
      (x' : Element) (rest : List Element) (r : Result (List Element × Paging))
      → Others x rest
      → x'
        ≡ (if x.empty then x else record x { time_stamp = stamp_after (was_used p x) x.time_stamp })
      → Ticked p1 rest r
      → Ticked p (x ∷ rest) (r >>= λ (ys, q'). ok (x' ∷ ys, q'))
  visited-Ticked x' rest panic o a t = t
  visited-Ticked x' rest (ok (ys, q)) o a (t, u, k) = (
    ap₂ (λ z zs. z ∷ zs) a (t ∙ visited-ticked rest o),
    (
      (λ e. k x.virtual_address (Others-IsOutside x rest e o) ∙ v.own e),
      visited-AreUnused q rest o u,
    ),
    λ va (c, cs). k va cs ∙ v.others va c,
  )
