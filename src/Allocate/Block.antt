-- ===== src/Allocate/Block.antt =====
-- Allocating a block (allchblk.c), once its place is found: the cut of the block, and the lists that are
-- searched. The notice to the virtual dirty bits (`GC_remove_protection`) is left out.
use gcutil.Prelude.{
  ℕ, zero, suc, ◌+◌, ◌-◌, ◌/◌, ◌^◌, Bool, true, false, not, ◌&&◌, ◌||◌, Option, none, some, leb,
  ltb, ◌==◌, min, if◌then◌else◌, word_sub, Outcome, done, ◌>>=◌,
}
use gcutil.FreeBlocks.{
  hblk_size, unique_threshold, n_hblk_fls, hblk_fl_from_blocks, enough_large_bytes_left,
}
use gcutil.HdrCache.{
  Collector, dropping_install_header, dropping_install_counts, dropping_remove_counts,
  dropping_get_first_part, dropping_split, setup_header,
}
use gcutil.Allocate.{Memory, Request, Allocator, size_needed, search_list}

-- `GC_allochblk_nth` once the first part of the block is taken, with the collector `c`.
unfoldable pub set_up_part : Memory → Allocator → Request → ℕ → Collector → Allocator × Option ℕ
set_up_part m s r hbp c =
    let n = size_needed r in
    let (c₁, counted) = dropping_install_counts c m.scratch hbp n in
    let (c₂, is_set_up) = setup_header c₁ hbp r.lb_adjusted r.ignore_off_page m.mapped in
    let free = word_sub c₂.arena.large_free_bytes n in
    let c₃ : Collector = record c₂ { arena = record c₂.arena { large_free_bytes = free } } in
    if not counted
    then (record s { collector = c₁ }, none)
    else if not is_set_up
    then (record s { collector = dropping_remove_counts c₂ hbp n }, none)
    else (record s { collector = c₃; alloc_fail_count = 0 }, some hbp)

-- `GC_allochblk_nth` once the header of the block at `hbp` is there and its list is `index`.
unfoldable pub take_first_part : Memory → Allocator → Request → ℕ → ℕ → Allocator × Option ℕ
unfolding set_up_part
take_first_part m s r index hbp =
    let n = size_needed r in
    let (c, first) =
      dropping_get_first_part s.collector hbp n index m.scratch
        (m.allocated (hbp + n / hblk_size)) in
    elim first [ none ↦ (record s { collector = c }, none) | some h ↦ set_up_part m s r hbp c ]

-- `GC_allochblk_nth` behind the search.
unfoldable pub allocate_at : Memory → Allocator → Request → ℕ → ℕ → ℕ → Allocator × Option ℕ
unfolding take_first_part
allocate_at m s r index hbp last_hbp =
    let allocated = m.allocated last_hbp in
    let s' : Allocator = record s {
      collector = dropping_split s.collector hbp last_hbp index m.scratch allocated;
    } in
    let (c, installed) = dropping_install_header s.collector m.scratch allocated last_hbp in
    if last_hbp == hbp
    then take_first_part m s r index hbp
    else if installed
    then take_first_part m s' r index last_hbp
    else (s', none)

-- `GC_allochblk_nth`, with a bound on the blocks that the search looks at.
unfoldable pub allochblk_nth :
    ℕ → Memory → Allocator → Request → ℕ → Bool → Outcome (Allocator × Option ℕ)
unfolding search_list allocate_at
allochblk_nth fuel m s r index may_split =
    search_list fuel m s r index may_split (s.collector.arena.heap.hblkfreelist index)
    >>= λ (s', place). done (elim place [
      | none ↦ (s', none)
      | some (hbp, last_hbp) ↦ allocate_at m s' r index hbp last_hbp
    ])

-- The variables of the collection policy (alloc.c), with the answer of `GC_should_collect`.
pub record Policy : Type 0 where
  pub use_entire_heap : Bool
  pub dont_gc : Bool
  pub incremental : Bool
  pub should_collect : Bool
  pub heapsize : ℕ
  pub requested_heapsize : ℕ
  pub finalizer_bytes_freed : ℕ
  pub large_allocd_bytes : ℕ
  pub max_large_allocd_bytes : ℕ

-- `split_limit` of `GC_allochblk_from_free_lists`
unfoldable pub split_limit_of : Policy → Allocator → ℕ → ℕ
unfolding enough_large_bytes_left
split_limit_of policy s start_list =
    let a = s.collector.arena in
    let enough =
      enough_large_bytes_left a.heap.free_bytes policy.large_allocd_bytes
        policy.max_large_allocd_bytes in
    if policy.use_entire_heap
      || policy.dont_gc
      || ltb (word_sub policy.heapsize a.large_free_bytes) policy.requested_heapsize
      || policy.incremental
      || not policy.should_collect
    then n_hblk_fls
    else if ltb (policy.heapsize / 16) policy.finalizer_bytes_freed
    then 0
    else if ltb start_list unique_threshold && ltb enough unique_threshold
    then unique_threshold
    else enough

-- The loop of `GC_allochblk_from_free_lists`, by the lists left.
unfoldable pub lists_loop :
    ℕ → ℕ → Memory → Allocator → Request → ℕ → Outcome (Allocator × Option ℕ)
unfolding allochblk_nth
lists_loop fuel zero m s r start_list = done (s, none)
lists_loop fuel (suc lists) m s r start_list =
    allochblk_nth fuel m s r start_list true >>= λ (s', result). elim result [
      | some h ↦ done (s', some h)
      | none ↦ lists_loop fuel lists m s' r (start_list + 1)
    ]

unfoldable pub allochblk_from_free_lists :
    ℕ → Policy → Memory → Allocator → Request → ℕ → Outcome (Allocator × Option ℕ)
unfolding lists_loop split_limit_of
allochblk_from_free_lists fuel policy m s r start_list =
    allochblk_nth fuel m s r start_list false >>= λ (s', result). elim result [
      | some h ↦ done (s', some h)
      | none ↦
          let next =
            if ltb start_list unique_threshold && r.align_m1 == 0
            then start_list + 1
            else start_list in
          lists_loop fuel (split_limit_of policy s' start_list + 1 - next) m s' r next
    ]

-- `GC_allochblk`. `gcollect` is `GC_gcollect_inner` with the policy after it, and is `none` where
-- `GC_should_collect_before_hblk_alloc` says no.
unfoldable pub allochblk :
    ℕ
    → Policy
    → (Allocator → Option (Allocator × Policy))
    → Memory
    → Allocator
    → Request
    → Outcome (Allocator × Option ℕ)
unfolding allochblk_from_free_lists hblk_fl_from_blocks
allochblk fuel policy gcollect m s r =
    let start_list = hblk_fl_from_blocks (size_needed r / hblk_size) in
    if leb (2 ^ 63 - 1) (min (size_needed r + r.align_m1) (2 ^ 64 - 1))
    then done (s, none)
    else (allochblk_from_free_lists fuel policy m s r start_list >>= λ (s', result). elim result [
      | some h ↦ done (s', some h)
      | none ↦ elim (gcollect s') [
        | none ↦ done (s', none)
        | some (s'', policy') ↦ allochblk_from_free_lists fuel policy' m s'' r start_list
      ]
    ])
