-- ===== src/Allocate/Tests.antt =====
-- Runs of the allocator on the small heap, whose block 2 is in a black list, and its theorems at them.
use gcutil.Prelude.{ℕ, ◌≤◌, refl, true, false, Option, none, [], arith, ◌==◌, Returns, inl}
use gcutil.Blacklist.{BlackLists}
use gcutil.FreeBlocks.Sums.{length}
use gcutil.Freeing.Example.{arena, lists, arena-IsFiled}
use gcutil.Allocate.{Memory, Request, Allocator, align_pad_sz, find_non_bl_hblk, search_list}
use gcutil.Allocate.Block.{Policy, allochblk_nth, allochblk}
use gcutil.Allocate.Back.{GivesBack, allochblk_nth-GivesBack}
use gcutil.Allocate.Find.{IsFirstPlace, find_non_bl_hblk-IsFirstPlace}
use gcutil.Allocate.Lists.{Makes, allochblk-Makes}
use gcutil.Allocate.Place.{IsAlignment}
use gcutil.Allocate.Search.{Finds, search_list-IsFound}
use gcutil.Allocate.State.{IsTight, IsPlenty}

abbrev black_lists : BlackLists
black_lists = record {
  old_normal_bl = λ i. false;
  incomplete_normal_bl = λ i. false;
  old_stack_bl = λ i. i == 2;
  incomplete_stack_bl = λ i. false;
  black_list_spacing = 65536;
  all_interior_pointers = true;
  modws_valid_offsets = λ i. true;
  heap_sects = [];
  heapsize = 0;
}

abbrev allocator : Allocator
allocator = record {
  collector = record {
    arena = arena;
    hdr_cache = λ i. record { block_addr = 0; hce_hdr = none };
    black_lists = black_lists;
    ignore_off_page = λ b. false;
  };
  drop_blacklisted_count = 0;
  large_alloc_warn_suppressed = 0;
  large_alloc_warn_interval = 5;
  bytes_dropped = 0;
  alloc_fail_count = 0;
  find_leak = false;
}

abbrev plenty : Memory
plenty = record { scratch = λ k. true; allocated = λ b. true; mapped = true }

abbrev request : Request
request = record {
  lb_adjusted = 2048;
  is_uncollectable = false;
  is_ptrfree = false;
  ignore_off_page = false;
  align_m1 = 0;
}

abbrev policy : Policy
policy = record {
  use_entire_heap = false;
  dont_gc = false;
  incremental = false;
  should_collect = false;
  heapsize = 0;
  requested_heapsize = 0;
  finalizer_bytes_freed = 0;
  large_allocd_bytes = 0;
  max_large_allocd_bytes = 0;
}

plenty-IsPlenty : IsPlenty plenty
plenty-IsPlenty = record { scratch = λ k. refl; allocated = λ b. refl; mapped = refl }

arena-IsTight : IsTight arena lists
arena-IsTight = record { filed = arena-IsFiled; low = λ b (e, f). ground arith }

short : (j : ℕ) → length (lists j) ≤ 1
short j = ground arith

no_alignment : IsAlignment 0
no_alignment = inl refl

search_list-IsFound_example :
    Returns
      (search_list 3 plenty allocator request 2 true 2)
      (Finds plenty plenty-IsPlenty request no_alignment 2 1 allocator.collector)
search_list-IsFound_example =
    search_list-IsFound plenty plenty-IsPlenty request no_alignment 2 1 3 allocator lists true
      arena-IsTight short (omega arith)

find_non_bl_hblk-IsFirstPlace_example :
    Returns (find_non_bl_hblk black_lists 2 4096 4096 0) (IsFirstPlace black_lists 4096 0 2 12288)
unfolding align_pad_sz
find_non_bl_hblk-IsFirstPlace_example =
    find_non_bl_hblk-IsFirstPlace black_lists 2 4096 4096 0 no_alignment (omega arith)

allochblk_nth-GivesBack_example :
    Returns (allochblk_nth 3 plenty allocator request 2 true) (GivesBack allocator.collector)
allochblk_nth-GivesBack_example =
    allochblk_nth-GivesBack plenty plenty-IsPlenty request no_alignment (omega arith) (omega arith)
      2 1 3 (omega arith) allocator lists true arena-IsTight short

-- No collection is due.
abbrev no_collection : Allocator → Option (Allocator × Policy)
no_collection s = none

allochblk-Makes_example : Returns (allochblk 3 policy no_collection plenty allocator request) (
    Makes plenty plenty-IsPlenty request no_alignment
      (omega arith)
      1
      3
      (omega arith)
      no_collection
      allocator)
allochblk-Makes_example =
    allochblk-Makes plenty plenty-IsPlenty request no_alignment (omega arith) 1 3 (omega arith)
      no_collection (λ s' s'' ls' p w e. absurd (cc)) policy allocator lists arena-IsTight short
