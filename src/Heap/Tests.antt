-- ===== src/Heap/Tests.antt =====
-- The round trip at a heap of two free blocks.
use fos_project.Allocator.AllocList.{StartFree}
use fos_project.Prelude.Int.{pos}
use fos_project.Prelude.Words.{rounddown, roundup}
use fos_project.Heap.RoundTrip.{malloc-FreesAgain, Sound, FreesAgain}
use fos_project.Allocator.Space.{covers}
use fos_project.Heap.{malloc, Syscalls, UserHeap}
use fos_project.Allocator.{Lists}
use fos_project.Prelude.{ℕ, ◌+◌, ◌<◌, ◌≡◌, refl, true, false, [], ◌∷◌, arith}

abbrev syscalls : Syscalls ℕ
syscalls = record {
  allocate_user_chunk = λ va size perms s. s;
  free_user_mem = λ va size s. s + 1;
  is_first_fit = λ s. true;
  create_shared_object = λ name size writable va s. (pos 0, s);
  get_size_of_shared_object = λ owner name s. (pos 4096, s);
  get_shared_object = λ owner name va s. (pos 0, s);
}

abbrev lists : Lists
lists = record {
  avail = record { node = 2; sva = 0; size = 0 } ∷ [];
  free =
      record { node = 0; sva = 2147483648; size = 4096 }
      ∷ record { node = 1; sva = 2147491840; size = 16384 }
      ∷ [];
  alloc = record { node = 3; sva = 2147487744; size = 4096 } ∷ [];
}

abbrev heap : UserHeap ℕ
heap = record { first_time_flag = false; lists = lists; kernel = 0 }

outside : (a : ℕ) → covers lists.free a ≡ true → StartFree a lists.alloc
unfolding covers
outside a h = ground arith

lists-Sound : Sound lists
lists-Sound = record {
  coalesced = ground arith;
  ascending = ground arith;
  disjoint = outside;
  has_node = λ e. cc;
}

two_pages : 0 < roundup 5000
unfolding roundup rounddown
two_pages = omega arith

malloc-FreesAgain_example : FreesAgain syscalls 5000 heap (malloc syscalls 5000 heap)
malloc-FreesAgain_example =
    malloc-FreesAgain syscalls 5000 heap refl refl (omega arith) two_pages lists-Sound
