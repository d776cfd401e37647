-- ===== src/Shares/Storage.antt =====
-- The frames of a shared object in its storage.
use fos_project.Prelude.Words.{u32_mod, page_size}
use mathlib.Core.Path.{ap₂}
use fos_project.Prelude.{
  if◌then◌else◌, eq→==, ne→==, ok, ◌>>=◌, Returning, then_Returning, always_Returning, ℕ, ◌*◌, ◌/◌,
  ◌%◌, ◌<◌, ◌≡◌, refl, sym, ap, ◌∙◌, ◌≢◌, Option, none, some, arith, ℕ_discrete,
}
use fos_project.Paging.{Paging, Machine, pdx, ptx, construct_entry, put}
use fos_project.Shares.{
  stored_frame, frame_in_table, get_frame_from_storage, table_for, with_frame, kernel_page,
  add_frame_to_storage,
}

index-pdx : (i : ℕ) → i < 1048576 → pdx (i * page_size % u32_mod) ≡ i / 1024
index-pdx i h = omega (arith, h)

index-ptx : (i : ℕ) → ptx (i * page_size % u32_mod) ≡ i % 1024
index-ptx i = omega arith

stored_frame-entry : (f : ℕ) → stored_frame (construct_entry f 0) ≡ some f
unfolding stored_frame
stored_frame-entry f = rw (ne→== (construct_entry f 0) 0 (omega arith)) (ap some (omega arith))

get-eq :
    (storage : ℕ → Option (ℕ → ℕ)) (i : ℕ)
    → i < 1048576
    → get_frame_from_storage storage i ≡ frame_in_table (storage (i / 1024)) (i % 1024)
unfolding get_frame_from_storage
get-eq storage i h = ap₂ (λ d j. frame_in_table (storage d) j) (index-pdx i h) (index-ptx i)

with-eq :
    (storage : ℕ → Option (ℕ → ℕ)) (f i d : ℕ)
    → i < 1048576
    → i / 1024 ≡ d
    → with_frame storage f i d ≡ some (put (table_for (storage d)) (i % 1024) (construct_entry f 0))
unfolding with_frame
with-eq storage f i d h e =
    rw (eq→== (pdx (i * page_size % u32_mod)) d (index-pdx i h ∙ e))
      (ap (λ j. some (put (table_for (storage d)) j (construct_entry f 0))) (index-ptx i))

with-other :
    (storage : ℕ → Option (ℕ → ℕ)) (f i d : ℕ)
    → i < 1048576
    → i / 1024 ≢ d
    → with_frame storage f i d ≡ storage d
unfolding with_frame
with-other storage f i d h e =
    rw (ne→== (pdx (i * page_size % u32_mod)) d (λ a. e (sym (index-pdx i h) ∙ a))) refl

table_for-frame : (o : Option (ℕ → ℕ)) (i : ℕ) → stored_frame (table_for o i) ≡ frame_in_table o i
unfolding stored_frame frame_in_table table_for
table_for-frame none i = refl
table_for-frame (some t) i = refl

frame-some : (t : ℕ → ℕ) (i : ℕ) → frame_in_table (some t) i ≡ stored_frame (t i)
unfolding frame_in_table
frame-some t i = refl

same_index : (i j : ℕ) → i / 1024 ≡ j / 1024 → i % 1024 ≡ j % 1024 → i ≡ j
same_index i j a b = omega (arith, a, b)

stored_other :
    (storage : ℕ → Option (ℕ → ℕ)) (f i j : ℕ)
    → i < 1048576
    → i ≢ j
    → frame_in_table (with_frame storage f i (j / 1024)) (j % 1024)
      ≡ frame_in_table (storage (j / 1024)) (j % 1024)
stored_other storage f i j h n = elim (ℕ_discrete (i / 1024) (j / 1024)) [
  | no a ↦ ap (λ o. frame_in_table o (j % 1024)) (with-other storage f i (j / 1024) h a)
  | yes a ↦
      ap (λ o. frame_in_table o (j % 1024)) (with-eq storage f i (j / 1024) h a)
      ∙ frame-some (put (table_for (storage (j / 1024))) (i % 1024) (construct_entry f 0))
          (j % 1024)
      ∙ ap stored_frame (
          ap (λ b. if b then construct_entry f 0 else table_for (storage (j / 1024)) (j % 1024))
            (ne→== (i % 1024) (j % 1024) (λ b. n (same_index i j a b))))
      ∙ table_for-frame (storage (j / 1024)) (j % 1024)
]

stored_self :
    (storage : ℕ → Option (ℕ → ℕ)) (f i : ℕ)
    → i < 1048576
    → frame_in_table (with_frame storage f i (i / 1024)) (i % 1024) ≡ some f
stored_self storage f i h =
    ap (λ o. frame_in_table o (i % 1024)) (with-eq storage f i (i / 1024) h refl)
    ∙ frame-some (put (table_for (storage (i / 1024))) (i % 1024) (construct_entry f 0)) (i % 1024)
    ∙ ap stored_frame (
        ap (λ b. if b then construct_entry f 0 else table_for (storage (i / 1024)) (i % 1024))
          (eq→== (i % 1024) (i % 1024) refl))
    ∙ stored_frame-entry f

-- What adding a frame at an index below 2^20 gives.
abbrev pub Adds : (ℕ → Option (ℕ → ℕ)) → ℕ → ℕ → (ℕ → Option (ℕ → ℕ)) × Paging → Type 0
Adds storage f i (storage', p) =
    (get_frame_from_storage storage' i ≡ some f)
    × ((j : ℕ)
        → j < 1048576
        → i ≢ j
        → get_frame_from_storage storage' j ≡ get_frame_from_storage storage j)

with_frame-Adds :
    (storage : ℕ → Option (ℕ → ℕ)) (f i : ℕ) (p : Paging)
    → i < 1048576
    → Adds storage f i (with_frame storage f i, p)
with_frame-Adds storage f i p h = (
  get-eq (with_frame storage f i) i h ∙ stored_self storage f i h,
  λ j k n.
      get-eq (with_frame storage f i) j k
      ∙ stored_other storage f i j h n
      ∙ sym (get-eq storage j k),
)

-- Where adding a frame to a storage at an index below 2^20 returns, the frame is found at the index,
-- and at every other index below 2^20 what was found before.
pub add_frame_to_storage-Adds :
    (m : Machine) (storage : ℕ → Option (ℕ → ℕ)) (f i : ℕ) (p : Paging)
    → i < 1048576
    → Returning (Adds storage f i) (add_frame_to_storage m storage f i p)
unfolding add_frame_to_storage
add_frame_to_storage-Adds m storage f i p h = go (storage (pdx (i * page_size % u32_mod)))
  where
    go :
        (o : Option (ℕ → ℕ))
        → Returning (Adds storage f i) (elim o [
          | none ↦ kernel_page m p >>= λ p'. ok (with_frame storage f i, p')
          | some t ↦ ok (with_frame storage f i, p)
        ])
    go (some t) = with_frame-Adds storage f i p h
    go none =
        then_Returning (λ q. Unit) (Adds storage f i) (kernel_page m p)
          (λ p'. ok (with_frame storage f i, p'))
          (always_Returning (λ q. Unit) (kernel_page m p) (λ q. tt))
          (λ p' u. with_frame-Adds storage f i p' h)
