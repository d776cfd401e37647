-- ===== src/Heap.antt =====
-- The two heaps over the allocator: kmalloc, kfree and initialize_dyn_block_system of
-- kern/mem/kheap.c, and malloc, free, smalloc, sget and initialize_dyn_block_system of lib/uheap.c. A
-- pointer is its address, and NULL is none. The user heap calls the kernel through the system calls
-- of lib/syscall.c; what the kernel does then is a parameter.
pub mod RoundTrip
mod Tests
use fos_project.Prelude.Int.{ℤ, pos, negsuc}
use fos_project.Chunk.{pages_between, allocate_chunk}
use fos_project.Allocator.Merge.{insert_sorted_with_merge_free_list}
use fos_project.Prelude.Words.{u32_mod, add32, sub32, page_size, rounddown, roundup}
use fos_project.Paging.{Paging, Machine, unmap_frame}
use fos_project.Allocator.{
  Block, Lists, initialize_mem_blocks_list, find_block, insert_sorted_alloc_list, alloc_block_ff,
  Choice, alloc_block_bf,
}
use fos_project.Prelude.{
  ◌==◌, if◌then◌else◌, Result, panic, ok, ◌>>=◌, ℕ, zero, suc, ◌+◌, ◌-◌, ◌*◌, ◌/◌, ◌%◌, Bool, true,
  false, Option, none, some, List, [], ◌∷◌,
}

-- KERNEL_HEAP_START, KERNEL_HEAP_MAX, USER_HEAP_START and USER_HEAP_MAX
abbrev kernel_heap_start : ℕ
kernel_heap_start = 4127195136

abbrev kernel_heap_max : ℕ
kernel_heap_max = 4294963200

abbrev user_heap_start : ℕ
user_heap_start = 2147483648

abbrev user_heap_max : ℕ
user_heap_max = 2684354560

-- LIST_REMOVE of a block from the allocated list
pub without : ℕ → List Block → List Block
without node [] = []
without node (b ∷ rest) = if b.node == node then rest else b ∷ without node rest

-- the last node of the available list and the others
pub pop_last : List Block → Option (Block × List Block)
pop_last [] = none
pop_last (x ∷ []) = some (x, [])
pop_last (x ∷ y ∷ rest) = elim (pop_last (y ∷ rest)) [
  | none ↦ none
  | some (b, others) ↦ some (b, x ∷ others)
]

-- The last of the `n` available nodes becomes the one free block. LIST_REMOVE of NULL panics.
pub initial_lists : ℕ → ℕ → ℕ → Lists → Result Lists
initial_lists n sva size l =
    let l' = initialize_mem_blocks_list n (record l { alloc = []; free = [] }) in
    elim (pop_last l'.avail) [
      | none ↦ panic
      | some (our_block, others) ↦
          ok (record l' { avail = others; free = record our_block { sva = sva; size = size } ∷ [] })
    ]

-- the placement strategy of the kernel heap; the ones that no code implements are the last
pub data Strategy : Type 0 where
  first_fit_placement best_fit_placement other_placement : Strategy

pub record KernelHeap : Type 0 where
  pub lists : Lists
  pub paging : Paging

module _ (m : Machine) where
  -- A block of 16 bytes for each page of the heap, at its start.
  pub kernel_initialize_dyn_block_system : KernelHeap → Result KernelHeap
  kernel_initialize_dyn_block_system h =
      let n = (kernel_heap_max - kernel_heap_start) / page_size in
      let structs = roundup (16 * n) in
      let size = kernel_heap_max - kernel_heap_start - structs in
      allocate_chunk m kernel_heap_start structs 2 h.paging >>= λ (done, paging).
      initial_lists n (kernel_heap_max - size) size h.lists >>= λ lists.
      ok (record { lists = lists; paging = paging })

  -- kmalloc with the block that the allocator gave
  pub place : ℕ → Paging → Option Block × Lists → Result (Option ℕ × KernelHeap)
  place size paging (none, l) = ok (none, record { lists = l; paging = paging })
  place size paging (some b, l) = allocate_chunk m b.sva size 2 paging >>= λ (done, paging'). ok (
    if done then some b.sva else none,
    record { lists = insert_sorted_alloc_list b l; paging = paging' },
  )

  pub kmalloc : Strategy → Choice → ℕ → KernelHeap → Result (Option ℕ × KernelHeap)
  kmalloc first_fit_placement uninit size h =
      alloc_block_ff (roundup size) h.lists >>= place (roundup size) h.paging
  kmalloc best_fit_placement uninit size h =
      alloc_block_bf uninit (roundup size) h.lists >>= place (roundup size) h.paging
  kmalloc other_placement uninit size h = ok (none, h)

  pub unmap_pages : ℕ → ℕ → Paging → Paging
  unmap_pages zero va s = s
  unmap_pages (suc n) va s = unmap_pages n (add32 va page_size) (unmap_frame m va s)

  pub kfree : ℕ → KernelHeap → KernelHeap
  kfree virtual_address h =
      let va = rounddown virtual_address in
      elim (find_block h.lists h.lists.alloc va) [
        | none ↦ h
        | some b ↦
            let l = record h.lists { alloc = without b.node h.lists.alloc } in
            record {
              lists = insert_sorted_with_merge_free_list b l;
              paging = unmap_pages (pages_between va (add32 va b.size)) va h.paging;
            }
      ]

-- The system calls that the user heap makes, on a kernel state `S`.
pub record Syscalls (S : Type 0) : Type 0 where
  pub allocate_user_chunk : ℕ → ℕ → ℕ → S → S
  pub free_user_mem : ℕ → ℕ → S → S
  pub is_first_fit : S → Bool
  pub create_shared_object : List ℕ → ℕ → Bool → ℕ → S → ℤ × S
  pub get_size_of_shared_object : ℕ → List ℕ → S → ℤ × S
  pub get_shared_object : ℕ → List ℕ → ℕ → S → ℤ × S

pub record UserHeap (S : Type 0) : Type 0 where
  pub first_time_flag : Bool
  pub lists : Lists
  pub kernel : S

abbrev pub negative_int : ℤ → Bool
negative_int (pos n) = false
negative_int (negsuc n) = true

-- the argument of alloc_block_FF is a `uint32`
abbrev pub to_uint32 : ℤ → ℕ
to_uint32 (pos n) = n % u32_mod
to_uint32 (negsuc n) = sub32 0 (n + 1)

-- a pointer where the kernel's answer is not an error
abbrev pub unless_negative : ℤ → ℕ → Option ℕ
unless_negative answer va = if negative_int answer then none else some va

module _ {S : Type 0} (sys : Syscalls S) where
  pub user_initialize_dyn_block_system : UserHeap S → Result (UserHeap S)
  user_initialize_dyn_block_system h =
      let n = (user_heap_max - user_heap_start) / page_size in
      let start = rounddown (user_heap_start - 16 * n) - page_size in
      initial_lists n user_heap_start (user_heap_max - user_heap_start) h.lists >>= λ lists.
      ok (record h {
        lists = lists;
        kernel = sys.allocate_user_chunk start (roundup (16 * n)) 6 h.kernel;
      })

  pub initialize_uheap : UserHeap S → Result (UserHeap S)
  initialize_uheap h =
      if h.first_time_flag
      then (user_initialize_dyn_block_system h >>= λ h'. ok (record h' { first_time_flag = false }))
      else ok h

  -- malloc with the block that the allocator gave
  pub keep_block : UserHeap S → Option Block × Lists → Result (Option ℕ × UserHeap S)
  keep_block h (none, l) = ok (none, record h { lists = l })
  keep_block h (some b, l) = ok (some b.sva, record h { lists = insert_sorted_alloc_list b l })

  pub malloc_ready : ℕ → UserHeap S → Result (Option ℕ × UserHeap S)
  malloc_ready size h =
      if size == 0
      then ok (none, h)
      else if sys.is_first_fit h.kernel
      then (alloc_block_ff (roundup size) h.lists >>= keep_block h)
      else ok (none, h)

  pub malloc : ℕ → UserHeap S → Result (Option ℕ × UserHeap S)
  malloc size h = initialize_uheap h >>= malloc_ready size

  -- A block that is not found is a null pointer that is read.
  pub free : ℕ → UserHeap S → Result (UserHeap S)
  free va h = elim (find_block h.lists h.lists.alloc va) [
    | none ↦ panic
    | some b ↦
        let l = record h.lists { alloc = without b.node h.lists.alloc } in
        ok (record h {
          lists = insert_sorted_with_merge_free_list b l;
          kernel = sys.free_user_mem va b.size h.kernel;
        })
  ]

  -- smalloc with the block that the allocator gave, which goes to no list
  pub create_shared :
      List ℕ → ℕ → Bool → UserHeap S → Option Block × Lists → Result (Option ℕ × UserHeap S)
  create_shared name size is_writable h (none, l) = ok (none, record h { lists = l })
  create_shared name size is_writable h (some b, l) =
      let (answer, kernel) = sys.create_shared_object name size is_writable b.sva h.kernel in
      ok (unless_negative answer b.sva, record h { lists = l; kernel = kernel })

  pub smalloc : List ℕ → ℕ → Bool → UserHeap S → Result (Option ℕ × UserHeap S)
  smalloc name size is_writable h = initialize_uheap h >>= λ h'.
      if size == 0
      then ok (none, h')
      else if sys.is_first_fit h'.kernel
      then (alloc_block_ff (roundup size) h'.lists
          >>= create_shared name (roundup size) is_writable h')
      else ok (none, h')

  -- sget with the block that the allocator gave
  pub get_shared : ℕ → List ℕ → UserHeap S → Option Block × Lists → Result (Option ℕ × UserHeap S)
  get_shared owner name h (none, l) = ok (none, record h { lists = l })
  get_shared owner name h (some b, l) =
      let (answer, kernel) = sys.get_shared_object owner name b.sva h.kernel in
      ok (unless_negative answer b.sva, record h { lists = l; kernel = kernel })

  pub sget : ℕ → List ℕ → UserHeap S → Result (Option ℕ × UserHeap S)
  sget owner name h = initialize_uheap h >>= λ h'.
      let (ret, kernel) = sys.get_size_of_shared_object owner name h'.kernel in
      let h'' = record h' { kernel = kernel } in
      if to_uint32 ret == 0
      then ok (none, h'')
      else if sys.is_first_fit kernel
      then (alloc_block_ff (to_uint32 ret) h''.lists >>= get_shared owner name h'')
      else ok (none, h'')
