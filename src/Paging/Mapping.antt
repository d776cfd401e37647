-- ===== src/Paging/Mapping.antt =====
-- map_frame and unmap_frame against get_frame_info.
use fos_project.Paging.{
  Paging, Machine, pdx, ptx, is_present, frame_of, construct_entry, put, put_entry, entry_at,
  initialize_frame_info, allocate_frame, free_frame, decrement_references, in_memory, not_exist,
  frame_at, unmap_found, get_page_table, get_frame_info, unmap_frame, link_frame, map_in_table,
  with_table, map_frame,
}
use mathlib.Core.Path.{subst⁻¹}
use fos_project.Prelude.{
  ◌==◌, Bool-cases, eq→==, ne→==, Result, panic, ok, ◌>>=◌, ℕ, ◌+◌, ◌%◌, ◌<◌, ◌≡◌, refl, ap, ◌∙◌,
  ◌≢◌, ◌⊎◌, inl, inr, true, none, some, List, ◌∷◌, arith, ℕ_discrete,
}

-- Two addresses of different pages.
abbrev pub OtherPage : ℕ → ℕ → Type 0
OtherPage a b = (pdx a ≢ pdx b) ⊎ (ptx a ≢ ptx b)

-- The entries of the other pages and the directory stay.
pub record Aside (va : ℕ) (s s' : Paging) : Type 0 where
  pub directory_is : s'.directory ≡ s.directory
  pub others_are : (b : ℕ) → OtherPage va b → entry_at b s' ≡ entry_at b s

decrement-tables :
    (f : ℕ) (s : Paging)
    → ((decrement_references f s).directory ≡ s.directory)
      × ((decrement_references f s).table ≡ s.table)
unfolding decrement_references free_frame initialize_frame_info
decrement-tables f s = elim (Bool-cases ((s.references f + 65535) % 65536 == 0)) [
  | inl h ↦ rw h (refl, refl)
  | inr h ↦ rw h (refl, refl)
]

pub put_entry-Aside : (va v : ℕ) (s : Paging) → Aside va s (put_entry va v s)
put_entry-Aside va v s = record { directory_is = refl; others_are = λ b o. ground arith }

entry-put_entry : (va v : ℕ) (s : Paging) → entry_at va (put_entry va v s) ≡ v
entry-put_entry va v s = ground arith

get_table-present :
    (m : Machine) (va : ℕ) (s : Paging)
    → is_present (s.directory (pdx va)) ≡ true
    → get_page_table m va s ≡ (in_memory, s)
unfolding get_page_table
get_table-present m va s h = ground arith

get_table-absent :
    (m : Machine) (va : ℕ) (s : Paging)
    → s.directory (pdx va) ≡ 0
    → get_page_table m va s ≡ (not_exist, s)
unfolding get_page_table
get_table-absent m va s h = ground arith

pub get_frame_info-absent :
    (m : Machine) (va : ℕ) (s : Paging)
    → s.directory (pdx va) ≡ 0
    → get_frame_info m va s ≡ (none, s)
unfolding get_frame_info frame_at
get_frame_info-absent m va s h = ap (frame_at va) (get_table-absent m va s h)

pub get_frame_info-present :
    (m : Machine) (va : ℕ) (s : Paging)
    → is_present (s.directory (pdx va)) ≡ true
    → entry_at va s ≢ 0
    → get_frame_info m va s ≡ (some (frame_of (entry_at va s)), s)
unfolding get_frame_info frame_at
get_frame_info-present m va s h e =
    ap (frame_at va) (get_table-present m va s h) ∙ rw (ne→== (entry_at va s) 0 e) refl

pub get_frame_info-zero :
    (m : Machine) (va : ℕ) (s : Paging)
    → is_present (s.directory (pdx va)) ≡ true
    → entry_at va s ≡ 0
    → get_frame_info m va s ≡ (none, s)
unfolding get_frame_info frame_at
get_frame_info-zero m va s h e =
    ap (frame_at va) (get_table-present m va s h) ∙ rw (eq→== (entry_at va s) 0 e) refl

unmap-present :
    (m : Machine) (va : ℕ) (s : Paging)
    → is_present (s.directory (pdx va)) ≡ true
    → entry_at va s ≢ 0
    → unmap_frame m va s ≡ put_entry va 0 (decrement_references (frame_of (entry_at va s)) s)
unfolding unmap_frame unmap_found
unmap-present m va s h e = ap (unmap_found va) (get_frame_info-present m va s h e)

unmap-zero :
    (m : Machine) (va : ℕ) (s : Paging)
    → is_present (s.directory (pdx va)) ≡ true
    → entry_at va s ≡ 0
    → unmap_frame m va s ≡ s
unfolding unmap_frame unmap_found
unmap-zero m va s h e = ap (unmap_found va) (get_frame_info-zero m va s h e)

-- After unmap_frame of an address whose table is in memory, get_frame_info finds no frame there, and
-- the directory and the entries of all other pages are as before.
pub unmap_frame-get_frame_info :
    (m : Machine) (va : ℕ) (s : Paging)
    → is_present (s.directory (pdx va)) ≡ true
    → ((get_frame_info m va (unmap_frame m va s)).0 ≡ none) × Aside va s (unmap_frame m va s)
unmap_frame-get_frame_info m va s h = elim (ℕ_discrete (entry_at va s) 0) [
  | yes e ↦ subst⁻¹ P (unmap-zero m va s h e) (
    ap (λ r. r.0) (get_frame_info-zero m va s h e),
    record { directory_is = refl; others_are = λ b o. refl },
  )
  | no e ↦ subst⁻¹ P (unmap-present m va s h e) (
      emptied (decrement_references (frame_of (entry_at va s)) s)
        (decrement-tables (frame_of (entry_at va s)) s))
]
  where
    P : Paging → Type 0
    P t = ((get_frame_info m va t).0 ≡ none) × Aside va s t

    emptied :
        (t : Paging) → (t.directory ≡ s.directory) × (t.table ≡ s.table) → P (put_entry va 0 t)
    emptied t (d, e) = (
      ap (λ r. r.0)
          (get_frame_info-zero m va (put_entry va 0 t) (ap (λ f. is_present (f (pdx va))) d ∙ h)
            (entry-put_entry va 0 t)),
      record {
        directory_is = d;
        others_are = λ b o. (put_entry-Aside va 0 t).others_are b o ∙ ap (λ f. f (pdx b) (ptx b)) e;
      },
    )

map_frame-present :
    (m : Machine) (f va perm : ℕ) (s : Paging)
    → is_present (s.directory (pdx va)) ≡ true
    → map_frame m f va perm s ≡ ok (map_in_table m f va perm s)
unfolding map_frame with_table
map_frame-present m f va perm s h =
    ap (λ t. with_table m va t >>= λ s'. ok (map_in_table m f va perm s'))
      (get_table-present m va s h)

-- What mapping the frame gives: it is found at the address, and the other pages stay.
abbrev pub Maps : Machine → ℕ → ℕ → Paging → Result Paging → Type 0
Maps m f va s panic = ⊥
Maps m f va s (ok t) = ((get_frame_info m va t).0 ≡ some f) × Aside va s t

link-Maps :
    (m : Machine) (f va perm : ℕ) (s t : Paging)
    → perm < 4096
    → is_present (s.directory (pdx va)) ≡ true
    → Aside va s t
    → Maps m f va s (ok (link_frame m f va perm t))
unfolding link_frame
link-Maps m f va perm s t p h a =
    let t' = record t { references = put t.references f ((t.references f + 1) % 65536) } in
    let e = construct_entry f perm in
    (
      ap (λ r. r.0)
            (get_frame_info-present m va (put_entry va e t')
              (ap (λ d. is_present (d (pdx va))) a.directory_is ∙ h)
              (λ z. absurd (omega (arith, entry-put_entry va e t', z))))
          ∙ ap some (ap frame_of (entry-put_entry va e t') ∙ omega arith),
      record {
        directory_is = a.directory_is;
        others_are = λ b o. (put_entry-Aside va e t').others_are b o ∙ a.others_are b o;
      },
    )

map_in_table-Maps :
    (m : Machine) (f va perm : ℕ) (s : Paging)
    → perm < 4096
    → is_present (s.directory (pdx va)) ≡ true
    → Maps m f va s (ok (map_in_table m f va perm s))
unfolding map_in_table
map_in_table-Maps m f va perm s p h = elim (Bool-cases (is_present (entry_at va s))) [
  | inr e ↦ rw e (link-Maps m f va perm s s p h unchanged)
  | inl e ↦ elim (ℕ_discrete (frame_of (entry_at va s)) f) [
    | no n ↦
        rw (e, ne→== (frame_of (entry_at va s)) f n)
          (link-Maps m f va perm s (unmap_frame m va s) p h (unmap_frame-get_frame_info m va s h).1)
    | yes same ↦
        rw (e, eq→== (frame_of (entry_at va s)) f same)
          (
            ap (λ r. r.0) (get_frame_info-present m va s h (λ z. absurd (present-ne e z)))
                ∙ ap some same,
            unchanged,
          )
  ]
]
  where
    unchanged : Aside va s s
    unchanged = record { directory_is = refl; others_are = λ b o. refl }

    present-ne : is_present (entry_at va s) ≡ true → entry_at va s ≡ 0 → ⊥
    present-ne e z = ground arith

-- map_frame at an address whose table is in memory, with permissions below 2^12, returns; get_frame_info
-- then finds the frame at the address, and the directory and the entries of all other pages are as
-- before, whether the page was free, held this frame, or held another one.
pub map_frame-get_frame_info :
    (m : Machine) (f va perm : ℕ) (s : Paging)
    → perm < 4096
    → is_present (s.directory (pdx va)) ≡ true
    → Maps m f va s (map_frame m f va perm s)
map_frame-get_frame_info m f va perm s p h =
    subst⁻¹ (Maps m f va s) (map_frame-present m f va perm s h)
      (map_in_table-Maps m f va perm s p h)

allocate_frame-eq :
    (f : ℕ) (rest : List ℕ) (s : Paging)
    → s.free_frame_list ≡ f ∷ rest
    → allocate_frame s ≡ ok (f, initialize_frame_info f (record s { free_frame_list = rest }))
unfolding allocate_frame
allocate_frame-eq f rest s e = ground arith

abbrev taken_frame : ℕ → List ℕ → Paging → Paging
taken_frame f rest s = initialize_frame_info f (record s { free_frame_list = rest })

taken_frame-present :
    (f : ℕ) (rest : List ℕ) (s : Paging) (va : ℕ)
    → is_present (s.directory (pdx va)) ≡ true
    → is_present ((taken_frame f rest s).directory (pdx va)) ≡ true
unfolding initialize_frame_info
taken_frame-present f rest s va h = h

Maps-taken :
    (m : Machine) (f va : ℕ) (rest : List ℕ) (s : Paging) (r : Result Paging)
    → Maps m f va (taken_frame f rest s) r
    → Maps m f va s r
unfolding initialize_frame_info
Maps-taken m f va rest s panic h = h
Maps-taken m f va rest s (ok t) (g, a) =
    (g, record { directory_is = a.directory_is; others_are = a.others_are })

-- The frame that allocate_frame takes, from a free list that is not empty, maps as any other.
pub allocate_frame-Maps :
    (m : Machine) (f va perm : ℕ) (rest : List ℕ) (s : Paging)
    → s.free_frame_list ≡ f ∷ rest
    → perm < 4096
    → is_present (s.directory (pdx va)) ≡ true
    → Maps m f va s (allocate_frame s >>= λ (f', s'). map_frame m f' va perm s')
allocate_frame-Maps m f va perm rest s e p h =
    subst⁻¹ (Maps m f va s)
      (ap (λ r. r >>= λ (f', s'). map_frame m f' va perm s') (allocate_frame-eq f rest s e))
      (Maps-taken m f va rest s (map_frame m f va perm (taken_frame f rest s)) (
        map_frame-get_frame_info m f va perm (taken_frame f rest s) p
          (taken_frame-present f rest s va h)))
