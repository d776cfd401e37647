-- ===== src/PageFile/Freeing.antt =====
-- Giving an environment's frames back keeps the rest apart.
use fos_project.PageFile.Ownership.{same-Owned}
use fos_project.Queue.Seg.{NotIn}
use fos_project.Prelude.{
  ltb, ◌==◌, if◌then◌else◌, ne→==, ℕ, zero, suc, ◌≤◌, ◌<◌, ◌≡◌, refl, sym, ap, ◌∙◌, ◌≢◌, ◌⊎◌, inl,
  inr, Bool, true, false, ◌&&◌, ◌||◌, Option, none, some, List, arith, ℕ_discrete,
}
use fos_project.PageFile.{free_disk_frame, free_table, free_dir}
use fos_project.PageFile.Slots.{Slot, page_slot, table_slot, Owned, given-Owned, table_entry}
use mathlib.Core.Path.{ap₂, subst, subst⁻¹}

-- the use of frames without the slots of a test
abbrev pub cleared : (Slot → ℕ) → (Slot → Bool) → Slot → ℕ
cleared f b p = if b p then 0 else f p

-- the page slots that the loops of pf_free_env have passed, in table `d` at entry `j`
abbrev pub passed : ℕ → ℕ → Slot → Bool
passed d j (page_slot c i) = ltb i 1024 && (ltb c d || (c == d && ltb i j))
passed d j (table_slot c) = false

abbrev pub passed_tables : ℕ → Slot → Bool
passed_tables n (page_slot c i) = false
passed_tables n (table_slot c) = ltb c n

-- A use of frames with fewer slots.
pub fewer-Owned :
    (f g : Slot → ℕ) (free : List ℕ)
    → ((p : Slot) → (g p ≡ f p) ⊎ (g p ≡ 0))
    → Owned f free
    → Owned g free
fewer-Owned f g free same o = record {
  apart = λ p q n e. elim (same p) [
    | inr a ↦ absurd (n a)
    | inl a ↦ elim (same q) [
      | inr b ↦ absurd (n (e ∙ b))
      | inl b ↦ o.apart p q (λ h. n (a ∙ h)) (sym a ∙ e ∙ b)
    ]
  ];
  used = λ p. elim (same p) [
    | inl a ↦ subst⁻¹ (λ v. NotIn v free) a (o.used p)
    | inr a ↦ subst⁻¹ (λ v. NotIn v free) a o.zero_used
  ];
  zero_used = o.zero_used;
  distinct = o.distinct;
}

clear_one :
    (f : Slot → ℕ) (b b' : Slot → Bool) (s : Slot) (v : ℕ) (free : List ℕ)
    → b s ≡ false
    → b' s ≡ true
    → ((p : Slot) → p ≢ s → b' p ≡ b p)
    → f s ≡ v
    → Owned (cleared f b) free
    → Owned (cleared f b') (free_disk_frame v free)
clear_one f b b' s v free h k l e o =
    subst (λ x. Owned (cleared f b') (free_disk_frame x free))
      (ap (λ x. if x then 0 else f s) h ∙ e)
      (given-Owned (cleared f b) (cleared f b') s free o (record {
        at_slot = ap (λ x. if x then 0 else f s) k;
        elsewhere = λ p n. ap (λ x. if x then 0 else f p) (l p n);
      }))

passed_at : (d j : ℕ) → passed d j (page_slot d j) ≡ false
passed_at d j = ground arith

passed_next : (d j : ℕ) → j < 1024 → passed d (suc j) (page_slot d j) ≡ true
passed_next d j h = ground arith

passed_others : (d j : ℕ) (p : Slot) → p ≢ page_slot d j → passed d (suc j) p ≡ passed d j p
passed_others d j (table_slot c) n = refl
passed_others d j (page_slot c i) n = elim (ℕ_discrete c d) [
  | no a ↦ rw (ne→== c d a) refl
  | yes a ↦ elim (ℕ_discrete i j) [ yes b ↦ absurd (n (ap₂ page_slot a b)) | no b ↦ ground arith ]
]

free_table-Owned :
    (f : Slot → ℕ) (d n : ℕ) (t : ℕ → ℕ) (free : List ℕ)
    → n ≤ 1024
    → ((i : ℕ) → f (page_slot d i) ≡ t i)
    → Owned (cleared f (passed d 0)) free
    → Owned (cleared f (passed d n)) (free_table n t free)
unfolding free_table
free_table-Owned f d zero t free le h o = o
free_table-Owned f d (suc n) t free le h o =
    clear_one f (passed d n) (passed d (suc n)) (page_slot d n) (t n) (free_table n t free)
      (passed_at d n) (passed_next d n (omega arith)) (passed_others d n) (h n)
      (free_table-Owned f d n t free (omega arith) h o)

-- A whole table that has been passed, and one that is not there.
passed_whole : (d : ℕ) (p : Slot) → passed (suc d) 0 p ≡ passed d 1024 p
passed_whole d (table_slot c) = refl
passed_whole d (page_slot c i) = ground arith

cleared-Owned :
    (f : Slot → ℕ) (b b' : Slot → Bool) (free : List ℕ)
    → ((p : Slot) → cleared f b' p ≡ cleared f b p)
    → Owned (cleared f b) free
    → Owned (cleared f b') free
cleared-Owned f b b' free same o = same-Owned (cleared f b) (cleared f b') free same o

passed_absent :
    (f : Slot → ℕ) (d : ℕ)
    → ((i : ℕ) → f (page_slot d i) ≡ 0)
    → (p : Slot) → cleared f (passed (suc d) 0) p ≡ cleared f (passed d 0) p
passed_absent f d h (table_slot c) = refl
passed_absent f d h (page_slot c i) = elim (ℕ_discrete c d) [
  | yes a ↦ ground (arith, subst⁻¹ (λ x. f (page_slot x i) ≡ 0) a (h i))
  | no a ↦ ground arith
]

free_dir-step :
    (f : Slot → ℕ) (d : ℕ) (o : Option (ℕ → ℕ)) (free : List ℕ)
    → ((i : ℕ) → f (page_slot d i) ≡ table_entry o i)
    → Owned (cleared f (passed d 0)) free
    → Owned
        (cleared f (passed (suc d) 0))
        (elim o [ none ↦ free | some t ↦ free_table 1024 t free ])
free_dir-step f d none free h o =
    cleared-Owned f (passed d 0) (passed (suc d) 0) free (passed_absent f d h) o
free_dir-step f d (some t) free h o =
    cleared-Owned f (passed d 1024) (passed (suc d) 0) (free_table 1024 t free)
      (λ p. ap (λ x. if x then 0 else f p) (passed_whole d p))
      (free_table-Owned f d 1024 t free (omega arith) h o)

pub free_dir-Owned :
    (f : Slot → ℕ) (n : ℕ) (dir : ℕ → Option (ℕ → ℕ)) (free : List ℕ)
    → ((d i : ℕ) → f (page_slot d i) ≡ table_entry (dir d) i)
    → Owned f free
    → Owned (cleared f (passed n 0)) (free_dir n dir free)
unfolding free_dir
free_dir-Owned f zero dir free h o = same-Owned f (cleared f (passed 0 0)) free none_passed o
  where
    none_passed : (p : Slot) → cleared f (passed 0 0) p ≡ f p
    none_passed (table_slot c) = refl
    none_passed (page_slot c i) = ground arith
free_dir-Owned f (suc n) dir free h o =
    free_dir-step f n (dir n) (free_dir n dir free) (h n) (free_dir-Owned f n dir free h o)

pub free_tables-Owned :
    (f : Slot → ℕ) (n : ℕ) (t : ℕ → ℕ) (free : List ℕ)
    → ((d : ℕ) → f (table_slot d) ≡ t d)
    → Owned f free
    → Owned (cleared f (passed_tables n)) (free_table n t free)
unfolding free_table
free_tables-Owned f zero t free h o = same-Owned f (cleared f (passed_tables 0)) free none_passed o
  where
    none_passed : (p : Slot) → cleared f (passed_tables 0) p ≡ f p
    none_passed (table_slot c) = ground arith
    none_passed (page_slot c i) = refl
free_tables-Owned f (suc n) t free h o =
    clear_one f (passed_tables n) (passed_tables (suc n)) (table_slot n) (t n) (free_table n t free)
      here next others (h n) (free_tables-Owned f n t free h o)
  where
    here : passed_tables n (table_slot n) ≡ false
    here = ground arith

    next : passed_tables (suc n) (table_slot n) ≡ true
    next = ground arith

    others : (p : Slot) → p ≢ table_slot n → passed_tables (suc n) p ≡ passed_tables n p
    others (page_slot c i) a = refl
    others (table_slot c) a = elim (ℕ_discrete c n) [
      | yes b ↦ absurd (a (ap table_slot b))
      | no b ↦ ground arith
    ]
