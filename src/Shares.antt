-- ===== src/Shares.antt =====
-- kern/mem/shared_memory_manager.c: the array of shared objects. The frames of an object stand in a
-- storage of two levels like a page directory; kmalloc of a page for its tables is that of Paging.
-- The loops over pages run over their number, so a range ends a page or more below 2^32. An access
-- with an error code for an index does not change the outcome. The name of an object has 64 bytes; a
-- name that does not fit with its zero byte is written over the fields behind it in the source, and
-- panics here.
pub mod Search
pub mod Lookup
pub mod Storage
mod Tests
use fos_project.Semaphores.{is_zero}
use fos_project.Prelude.Words.{u32_mod, add32, page_size, roundup}
use fos_project.Paging.{
  Paging, Machine, pdx, ptx, frame_of, construct_entry, put, allocate_frame, map_frame,
}
use fos_project.Strings.{strcmp}
use fos_project.Chunk.{pages_between}
use fos_project.Prelude.{
  ltb, leb, ◌==◌, if◌then◌else◌, length, get_elem?, set, replicate, Result, panic, ok, ◌>>=◌, ℕ,
  zero, suc, ◌+◌, ◌*◌, ◌%◌, Bool, true, false, ◌&&◌, Option, none, some, List, [], ◌∷◌,
}

pub record Share : Type 0 where
  pub owner_id : ℕ
  pub name : List ℕ
  pub size : ℕ
  pub references : ℕ
  pub is_writable : ℕ
  pub empty : Bool
  pub frames_storage : ℕ → Option (ℕ → ℕ)

-- an index, E_NO_SHARE, E_SHARED_MEM_EXISTS or E_SHARED_MEM_NOT_EXISTS
pub data ShareId : Type 0 where
  share_id : ℕ → ShareId
  no_share share_exists share_not_exists : ShareId

-- the array, and the page tables of the environment that calls
pub record ShareSystem : Type 0 where
  pub shares : List Share
  pub paging : Paging

abbrev pub empty_share : Share
empty_share = record {
  owner_id = 0;
  name = [];
  size = 0;
  references = 0;
  is_writable = 0;
  empty = true;
  frames_storage = λ d. none;
}

-- `memory` says whether kmalloc finds room for the array.
pub create_shares_array : Bool → ℕ → ShareSystem → Result ShareSystem
create_shares_array memory n s =
    if memory then ok (record s { shares = replicate n empty_share }) else panic

-- the loop of allocate_share_object: the first empty entry, as an index from `i` on
pub first_empty_share : ℕ → List Share → Option ℕ
first_empty_share i [] = none
first_empty_share i (x ∷ rest) = if x.empty then some i else first_empty_share (i + 1) rest

-- the loop of get_share_object_ID from entry `i` on
pub find_share : ℕ → ℕ → List ℕ → List Share → ShareId
find_share i owner name [] = share_not_exists
find_share i owner name (x ∷ rest) =
    if x.empty
    then find_share (i + 1) owner name rest
    else if (x.owner_id == owner) && is_zero (strcmp name x.name)
    then share_id i
    else find_share (i + 1) owner name rest

pub get_share_object_id : ℕ → List ℕ → ShareSystem → ShareId
get_share_object_id owner name s = find_share 0 owner name s.shares

-- none for E_SHARED_MEM_NOT_EXISTS; the kernel's pages that kfree takes back are left out.
pub free_share_object : ℕ → ShareSystem → Option ShareSystem
free_share_object i s =
    if leb (length s.shares) i
    then none
    else some (record s { shares = set s.shares i empty_share })

pub size_at : Option Share → Result (Option ℕ)
size_at none = panic
size_at (some x) = ok (some x.size)

-- the size of the object with an identifier, none for E_SHARED_MEM_NOT_EXISTS
pub size_of : ShareId → ShareSystem → Result (Option ℕ)
size_of (share_id i) s = size_at (get_elem? s.shares i)
size_of no_share s = ok none
size_of share_exists s = ok none
size_of share_not_exists s = ok none

pub get_size_of_shared_object : ℕ → List ℕ → ShareSystem → Result (Option ℕ)
get_size_of_shared_object owner name s = size_of (get_share_object_id owner name s) s

-- the frame at an index of a storage, by get_frame_info
pub stored_frame : ℕ → Option ℕ
stored_frame entry = if entry == 0 then none else some (frame_of entry)

pub frame_in_table : Option (ℕ → ℕ) → ℕ → Option ℕ
frame_in_table none i = none
frame_in_table (some t) i = stored_frame (t i)

pub get_frame_from_storage : (ℕ → Option (ℕ → ℕ)) → ℕ → Option ℕ
get_frame_from_storage storage index =
    let va = index * page_size % u32_mod in frame_in_table (storage (pdx va)) (ptx va)

-- a table that is there, or a cleared new one
pub table_for : Option (ℕ → ℕ) → ℕ → ℕ
table_for none = λ i. 0
table_for (some t) = t

-- the storage with a frame at an index
pub with_frame : (ℕ → Option (ℕ → ℕ)) → ℕ → ℕ → ℕ → Option (ℕ → ℕ)
with_frame storage f index d =
    let va = index * page_size % u32_mod in
    if pdx va == d
    then some (put (table_for (storage d)) (ptx va) (construct_entry f 0))
    else storage d

module _ (m : Machine) where
  -- kmalloc(PAGE_SIZE), with the panic of create_frames_storage and the null pointer elsewhere
  pub kernel_page : Paging → Result Paging
  kernel_page p = elim (m.kmalloc_page p) [ none ↦ panic | some (f, p') ↦ ok p' ]

  -- the entry `i` becomes used, with a storage of its own
  pub take_entry : ℕ → Option Share → ShareSystem → Result (Option (ℕ × Share) × ShareSystem)
  take_entry i none s = panic
  take_entry i (some x) s = kernel_page s.paging >>= λ p.
      let x' = record x { empty = false; frames_storage = λ d. none } in
      ok (some (i, x'), record s { shares = set s.shares i x'; paging = p })

  pub allocate_entry : Option ℕ → ShareSystem → Result (Option (ℕ × Share) × ShareSystem)
  allocate_entry none s = ok (none, s)
  allocate_entry (some i) s = take_entry i (get_elem? s.shares i) s

  pub allocate_share_object : ShareSystem → Result (Option (ℕ × Share) × ShareSystem)
  allocate_share_object s = allocate_entry (first_empty_share 0 s.shares) s

  pub add_frame_to_storage :
      (ℕ → Option (ℕ → ℕ)) → ℕ → ℕ → Paging → Result ((ℕ → Option (ℕ → ℕ)) × Paging)
  add_frame_to_storage storage f index p = elim (storage (pdx (index * page_size % u32_mod))) [
    | none ↦ kernel_page p >>= λ p'. ok (with_frame storage f index, p')
    | some t ↦ ok (with_frame storage f index, p)
  ]

  -- the loop of createSharedObject over `n` pages, from address `va` and index `counter` on
  pub create_loop :
      ℕ → ℕ → ℕ → (ℕ → Option (ℕ → ℕ)) → Paging → Result ((ℕ → Option (ℕ → ℕ)) × Paging)
  create_loop zero va counter storage p = ok (storage, p)
  create_loop (suc n) va counter storage p = allocate_frame p >>= λ (f, p1).
      map_frame m f va 7 p1 >>= λ p2.
      add_frame_to_storage storage f counter p2 >>= λ (storage', p3).
      create_loop n (add32 va page_size) (counter + 1) storage' p3

  -- createSharedObject after the allocation of the object
  pub fill_share :
      ℕ → List ℕ → ℕ → ℕ → ℕ → Option (ℕ × Share) × ShareSystem → Result (ShareId × ShareSystem)
  fill_share owner name size is_writable va (none, s) = ok (no_share, s)
  fill_share owner name size is_writable va (some (i, x), s) =
      create_loop (pages_between va (add32 va size)) va 0 x.frames_storage s.paging
      >>= λ (storage, p).
          let x' = record x {
            owner_id = owner;
            name = name;
            size = size;
            references = 1;
            is_writable = is_writable;
            frames_storage = storage;
          } in
          if ltb (length name) 64
          then ok (share_id i, record s { shares = set s.shares i x'; paging = p })
          else panic

  -- createSharedObject after get_share_object_ID
  pub create_unless :
      ℕ → List ℕ → ℕ → ℕ → ℕ → ShareId → ShareSystem → Result (ShareId × ShareSystem)
  create_unless owner name size is_writable va (share_id i) s = ok (share_exists, s)
  create_unless owner name size is_writable va no_share s = ok (share_exists, s)
  create_unless owner name size is_writable va share_exists s = ok (share_exists, s)
  create_unless owner name size is_writable va share_not_exists s =
      allocate_share_object s >>= fill_share owner name size is_writable va

  pub create_shared_object : ℕ → List ℕ → ℕ → ℕ → ℕ → ShareSystem → Result (ShareId × ShareSystem)
  create_shared_object owner name size is_writable va s =
      create_unless owner name size is_writable va (get_share_object_id owner name s) s

  -- the loop of getSharedObject over `n` pages; no frame is a null pointer
  pub get_frames_loop : ℕ → ℕ → ℕ → ℕ → (ℕ → Option (ℕ → ℕ)) → Paging → Result Paging
  get_frames_loop zero va counter perm storage p = ok p
  get_frames_loop (suc n) va counter perm storage p =
      elim (get_frame_from_storage storage counter) [
        | none ↦ panic
        | some f ↦ map_frame m f va perm p >>= λ p'.
            get_frames_loop n (add32 va page_size) (counter + 1) perm storage p'
      ]

  -- getSharedObject of the object `i`
  pub share_found : ℕ → ℕ → Option Share → ShareSystem → Result (ShareId × ShareSystem)
  share_found i va none s = panic
  share_found i va (some x) s =
      get_frames_loop (pages_between va (add32 (roundup x.size) va)) va 0
        (if x.is_writable == 1 then 7 else 5) x.frames_storage s.paging
      >>= λ p. ok (
        share_id i,
        record s {
          shares = set s.shares i (record x { references = add32 x.references 1 });
          paging = p;
        },
      )

  pub get_shared_object : ℕ → List ℕ → ℕ → ShareSystem → Result (ShareId × ShareSystem)
  get_shared_object owner name va s = elim (get_share_object_id owner name s) [
    | share_id i ↦ share_found i va (get_elem? s.shares i) s
    | no_share ↦ ok (share_not_exists, s)
    | share_exists ↦ ok (share_not_exists, s)
    | share_not_exists ↦ ok (share_not_exists, s)
  ]
