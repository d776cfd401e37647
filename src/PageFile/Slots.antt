-- ===== src/PageFile/Slots.antt =====
-- The disk frames of an environment: its pages and page tables have frames of their own, and none of
-- them is free.
use fos_project.PageFile.{Env, free_disk_frame}
use fos_project.Prelude.{
  eq→==, ne→==, ℕ, ◌≡◌, sym, ap, ◌∙◌, ◌≢◌, Option, none, some, List, ◌∷◌, ℕ_discrete,
}
use mathlib.Core.Path.{subst⁻¹}
use fos_project.Queue.Seg.{NotIn, Distinct}

-- where a disk frame is entered: for a page, or for a page table
pub data Slot : Type 0 where
  page_slot : ℕ → ℕ → Slot
  table_slot : ℕ → Slot

-- A use of frames and a list of free ones.
pub record Owned (use_of : Slot → ℕ) (free : List ℕ) : Type 0 where
  pub apart : (p q : Slot) → use_of p ≢ 0 → use_of p ≡ use_of q → p ≡ q
  pub used : (p : Slot) → NotIn (use_of p) free
  pub zero_used : NotIn 0 free
  pub distinct : Distinct free

-- The use `g` is `f` but at the slot `s`.
pub record Changes (f g : Slot → ℕ) (s : Slot) (v : ℕ) : Type 0 where
  pub at_slot : g s ≡ v
  pub elsewhere : (p : Slot) → p ≢ s → g p ≡ f p

pub slot_dec : (p q : Slot) → Dec (p ≡ q)
slot_dec (page_slot d i) (page_slot c j) = elim (ℕ_discrete d c) [
  | no n ↦ no (λ e. n (cc))
  | yes a ↦ elim (ℕ_discrete i j) [ no n ↦ no (λ e. n (cc)) | yes b ↦ yes (cc) ]
]
slot_dec (page_slot d i) (table_slot c) = no (λ e. cc)
slot_dec (table_slot d) (page_slot c j) = no (λ e. cc)
slot_dec (table_slot d) (table_slot c) = elim (ℕ_discrete d c) [
  | no n ↦ no (λ e. n (cc))
  | yes a ↦ yes (cc)
]

-- Taking the first free frame for a slot that has none.
pub taken-Owned :
    (f g : Slot → ℕ) (s : Slot) (x : ℕ) (rest : List ℕ)
    → Owned f (x ∷ rest)
    → Changes f g s x
    → f s ≡ 0
    → Owned g rest
taken-Owned f g s x rest o c z = record {
  apart = λ p q n e. elim (slot_dec p s) [
    | yes a ↦ elim (slot_dec q s) [
      | yes b ↦ a ∙ sym b
      | no b ↦ absurd ((o.used q).0 (sym (c.elsewhere q b) ∙ sym e ∙ ap g a ∙ c.at_slot))
    ]
    | no a ↦ elim (slot_dec q s) [
      | yes b ↦ absurd ((o.used p).0 (sym (c.elsewhere p a) ∙ e ∙ ap g b ∙ c.at_slot))
      | no b ↦
          o.apart p q (λ h. n (c.elsewhere p a ∙ h)) (sym (c.elsewhere p a) ∙ e ∙ c.elsewhere q b)
    ]
  ];
  used = λ p. elim (slot_dec p s) [
    | yes a ↦ subst⁻¹ (λ v. NotIn v rest) (ap g a ∙ c.at_slot) o.distinct.0
    | no a ↦ subst⁻¹ (λ v. NotIn v rest) (c.elsewhere p a) (o.used p).1
  ];
  zero_used = o.zero_used.1;
  distinct = o.distinct.1;
}

-- Giving the frame of a slot back.
pub given-Owned :
    (f g : Slot → ℕ) (s : Slot) (free : List ℕ)
    → Owned f free
    → Changes f g s 0
    → Owned g (free_disk_frame (f s) free)
unfolding free_disk_frame
given-Owned f g s free o c = elim (ℕ_discrete (f s) 0) [
  | yes z ↦ rw (eq→== (f s) 0 z) (record {
    apart = apart_again;
    used = used_again;
    zero_used = o.zero_used;
    distinct = o.distinct;
  })
  | no n ↦ rw (ne→== (f s) 0 n) (record {
    apart = apart_again;
    used = λ p. (freed_apart n p, used_again p);
    zero_used = ((λ e. n (sym e)), o.zero_used);
    distinct = (o.used s, o.distinct);
  })
]
  where
    apart_again : (p q : Slot) → g p ≢ 0 → g p ≡ g q → p ≡ q
    apart_again p q n e = elim (slot_dec p s) [
      | yes a ↦ absurd (n (ap g a ∙ c.at_slot))
      | no a ↦ elim (slot_dec q s) [
        | yes b ↦ absurd (n (e ∙ ap g b ∙ c.at_slot))
        | no b ↦
            o.apart p q (λ h. n (c.elsewhere p a ∙ h)) (sym (c.elsewhere p a) ∙ e ∙ c.elsewhere q b)
      ]
    ]

    used_again : (p : Slot) → NotIn (g p) free
    used_again p = elim (slot_dec p s) [
      | yes a ↦ subst⁻¹ (λ v. NotIn v free) (ap g a ∙ c.at_slot) o.zero_used
      | no a ↦ subst⁻¹ (λ v. NotIn v free) (c.elsewhere p a) (o.used p)
    ]

    freed_apart : f s ≢ 0 → (p : Slot) → g p ≢ f s
    freed_apart n p e = elim (slot_dec p s) [
      | yes a ↦ n (sym e ∙ ap g a ∙ c.at_slot)
      | no a ↦ a (sym (o.apart s p n (sym e ∙ c.elsewhere p a)))
    ]

-- an entry of a disk table, and of the table of a disk directory
abbrev pub table_entry : Option (ℕ → ℕ) → ℕ → ℕ
table_entry none i = 0
table_entry (some t) i = t i

abbrev pub dir_entry : Option (ℕ → Option (ℕ → ℕ)) → ℕ → ℕ → ℕ
dir_entry none d i = 0
dir_entry (some dir) d i = table_entry (dir d) i

module _ {C D : Type 0} where
  -- the frame of a slot
  abbrev pub frame_in : Env C D → Slot → ℕ
  frame_in e (page_slot d i) = dir_entry e.disk_env_pgdir d i
  frame_in e (table_slot d) = table_entry e.disk_env_tabledir d

  abbrev pub IsOwned : Env C D → Type 0
  IsOwned e = Owned (frame_in e) e.disk_free_frame_list
