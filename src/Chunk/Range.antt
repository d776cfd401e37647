-- ===== src/Chunk/Range.antt =====
-- Where a page of the range has a frame already, the operations refuse and change nothing.
use fos_project.Paging.Mapping.{get_frame_info-absent, get_frame_info-present, get_frame_info-zero}
use fos_project.Chunk.{
  pages_between, unless_found, proceed, no_frames, cut_loop, cut_paste_pages, share_loop,
  share_chunk, allocate_loop, allocate_chunk,
}
use fos_project.Prelude.Words.{add32, sub32, page_size, rounddown, roundup}
use fos_project.Paging.{Paging, Machine, pdx, is_present, frame_of, entry_at, get_frame_info}
use fos_project.Prelude.{
  Result, ok, ℕ, zero, suc, ◌/◌, ◌≡◌, ap, ◌∙◌, ◌≢◌, ◌⊎◌, inl, inr, Bool, true, false, none, some,
  ℕ_discrete,
}

-- Every table is in memory or not there at all.
abbrev pub Resident : Paging → Type 0
Resident s = (d : ℕ) → (is_present (s.directory d) ≡ true) ⊎ (s.directory d ≡ 0)

-- The page at an address has an entry that is not 0 in a table that is in memory.
abbrev pub IsMapped : ℕ → Paging → Type 0
IsMapped va s = (is_present (s.directory (pdx va)) ≡ true) × (entry_at va s ≢ 0)

-- One of the `n` pages from an address on is mapped.
abbrev pub SomeMapped : ℕ → ℕ → Paging → Type 0
SomeMapped zero va s = ⊥
SomeMapped (suc n) va s = IsMapped va s ⊎ SomeMapped n (add32 va page_size) s

get_frame_info-Resident :
    (m : Machine) (va : ℕ) (s : Paging)
    → Resident s
    → (get_frame_info m va s ≡ (none, s)) ⊎ ((f : ℕ) × (get_frame_info m va s ≡ (some f, s)))
get_frame_info-Resident m va s r = elim (r (pdx va)) [
  | inr z ↦ inl (get_frame_info-absent m va s z)
  | inl p ↦ elim (ℕ_discrete (entry_at va s) 0) [
    | yes e ↦ inl (get_frame_info-zero m va s p e)
    | no e ↦ inr (frame_of (entry_at va s), get_frame_info-present m va s p e)
  ]
]

no_frames-mapped :
    (m : Machine) (n va : ℕ) (s : Paging)
    → Resident s
    → SomeMapped n va s
    → no_frames m n va s ≡ (false, s)
unfolding no_frames unless_found
no_frames-mapped m zero va s r h = absurd h
no_frames-mapped m (suc n) va s r (inl (p, e)) =
    ap (λ t. unless_found t (λ s'. no_frames m n (add32 va page_size) s'))
      (get_frame_info-present m va s p e)
no_frames-mapped m (suc n) va s r (inr h) = elim (get_frame_info-Resident m va s r) [
  | inl e ↦
      ap (λ t. unless_found t (λ s'. no_frames m n (add32 va page_size) s')) e
      ∙ no_frames-mapped m n (add32 va page_size) s r h
  | inr (f, e) ↦ ap (λ t. unless_found t (λ s'. no_frames m n (add32 va page_size) s')) e
]

-- Where all tables of the directory are in memory or not there and some page of the destination has a
-- frame, allocate_chunk, share_chunk and cut_paste_pages return -1 and change nothing.
pub chunk_refuses :
    (m : Machine) (source va size perms n : ℕ) (s : Paging)
    → Resident s
    → SomeMapped n (rounddown va) s
    → pages_between (rounddown va) (roundup (add32 va size)) ≡ n
    → (allocate_chunk m va size perms s ≡ ok (false, s))
      × (share_chunk m source va size perms s ≡ ok (false, s))
      × (cut_paste_pages m source va n s ≡ ok (false, s))
unfolding allocate_chunk share_chunk cut_paste_pages proceed
chunk_refuses m source va size perms n s r h e =
    let q = no_frames-mapped m n (rounddown va) s r h in
    let q' = ap (λ k. no_frames m k (rounddown va) s) e ∙ q in
    (
      stops
          (allocate_loop m (pages_between (rounddown va) (roundup (add32 va size))) (rounddown va)
            perms)
          q',
      stops
          (share_loop m (sub32 (roundup (add32 va size)) (rounddown va) / page_size)
            (rounddown source) (rounddown va) perms)
          q',
      stops (cut_loop m n (rounddown source) (rounddown va)) q,
    )
  where
    stops :
        {t : Bool × Paging} (rest : Paging → Result Paging)
        → t ≡ (false, s)
        → proceed t rest ≡ ok (false, s)
    stops rest t = ap (λ b. proceed b rest) t
