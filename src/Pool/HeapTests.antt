-- ===== src/Pool/HeapTests.antt =====
-- Pools on the heap that KeKvaInit sets up, over a page table that is a function.
use himu_os.Prelude.{ℕ, ◌<◌, refl, arith}
use himu_os.Kva.Mapping.{heap_alloc_pages}
use himu_os.Kva.HeapStarted.{ready-IsHeap}
use himu_os.Kva.Tests.{store, empty, before, fresh, Stored, store-IsBacking}
use himu_os.Pool.Machine.{Pages, IsPages}
use himu_os.Pool.Operations.{unset}
use himu_os.Pool.Start.{empty_pool, init}
use himu_os.Pool.Started.{IsInit, init-IsInit}
use himu_os.Pool.HeapPages.{
  HeapState, held_pages, IsAllocOf, heap_pages, IsFreeOf, heap_pages-IsPages,
}

abbrev pages : Pages (HeapState store Stored)
pages = heap_pages store Stored store-IsBacking

heap_pages-IsPages_example :
    IsPages pages (held_pages store Stored)
    × ((st : HeapState store Stored)
        → IsAllocOf store Stored (heap_alloc_pages store st.kva st.machine 1) (pages.alloc_page st))
    × ((st : HeapState store Stored) (b : ℕ)
        → 0 < held_pages store Stored st b
        → IsFreeOf store Stored store-IsBacking st b (pages.free_page st b))
heap_pages-IsPages_example = heap_pages-IsPages store Stored store-IsBacking

-- A heap with nothing handed out, on which a pool of two objects is started.
fresh_heap : HeapState store Stored
fresh_heap = record {
  kva = fresh;
  machine = empty;
  valid = ready-IsHeap store Stored before empty (λ p inside is_free. (_, refl, refl));
}

init-IsInit_example :
    IsInit pages
      (held_pages store Stored)
      fresh_heap
      1999
      2
      (init pages (empty_pool unset 0 0) 1999 2 fresh_heap)
init-IsInit_example =
    init-IsInit pages (held_pages store Stored)
      ((heap_pages-IsPages store Stored store-IsBacking).0) fresh_heap 1999 2 (omega arith)
      (empty_pool unset 0 0) (omega arith)
