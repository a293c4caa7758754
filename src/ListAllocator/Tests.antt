-- ===== src/ListAllocator/Tests.antt =====
-- Two pages from a free list whose first block has one.
use bez_os.ListAllocator.Back.{Returned, deallocate_list_lem}
use bez_os.TableList.{PageTableAllocation}
use bez_os.ListAllocator.Whole.{Listed, allocate_list_lem}
use bez_os.ControlBlock.Extents.{total, extents}
use bez_os.TableAllocator.Free.{IsFreeList}
use bez_os.Prelude.{◌==◌, if◌then◌else◌, ◌*◌, ◌<◌, ◌≡◌, refl, ◌⊎◌, none, some, [], ◌∷◌, arith}
use bez_os.ControlBlock.{Memory}
use bez_os.TableAllocator.{PageTableAllocator}
use bez_os.ListAllocator.{allocate_list}

abbrev apart : Memory
apart = record {
  next = λ b. if b == 8192 then 20480 else 0;
  prev = λ b. if b == 20480 then 8192 else 0;
  size = λ b. if b == 8192 then 4096 else 8192;
  slide = λ b. 0;
}

abbrev fragmented : PageTableAllocator
fragmented = record { memory = apart; block_size = 4096; front = 8192 }

IsFreeList-apart : IsFreeList apart 8192 (8192 ∷ 20480 ∷ [])
IsFreeList-apart = record {
  list = record {
    last = 20480;
    chain = (refl, ground arith, refl, refl, (refl, ground arith, refl, refl, (refl, refl)));
  };
  fit = ground arith;
  disjoint = (λ p. ground arith, (λ p. ground arith, tt));
}

allocate_list_lem_example :
    ((total (extents apart (8192 ∷ 20480 ∷ [])) < 2 * 4096)
      × (allocate_list 3 fragmented 2 ≡ some (fragmented, none)))
    ⊎ Listed 3 fragmented (8192 ∷ 20480 ∷ []) 2
allocate_list_lem_example =
    allocate_list_lem 3 fragmented (8192 ∷ 20480 ∷ []) 2 IsFreeList-apart (refl, (refl, tt)) refl
      (omega arith) (omega arith) (omega arith)

-- A list of the one page at 40960.
abbrev one_page : PageTableAllocation
one_page = record { block = 40960; slide = 0 }

deallocate_list_lem_example : Returned 2 fragmented (8192 ∷ 20480 ∷ []) one_page (one_page ∷ [])
deallocate_list_lem_example =
    deallocate_list_lem 2 fragmented (8192 ∷ 20480 ∷ []) one_page (one_page ∷ []) IsFreeList-apart
      refl (refl, ground arith, refl, refl) (ground arith)
      (λ b. ground arith, IsFreeList-apart.disjoint) (omega arith)
