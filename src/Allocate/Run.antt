-- ===== src/Allocate/Run.antt =====
-- The run of `GC_allochblk_nth` behind the split, step by step.
use gcutil.Prelude.{ℕ, ◌+◌, ◌/◌, ◌≡◌, ◌≢◌, refl, true, false, ◌==◌, arith, write, Option, some}
use gcutil.FreeBlocks.{Heap, hblk_size, get_first_part}
use gcutil.Headers.{install_counts, install_header}
use gcutil.Freeing.{hdr_at}
use gcutil.HdrCache.{
  Collector, dropping_get_first_part, dropping_install_counts, dropping_install_header,
  setup_header, invalidate_hdr_cache,
}
use gcutil.Allocate.{Allocator, Memory, Request, size_needed}
use gcutil.Allocate.Block.{take_first_part, set_up_part}
use gcutil.Allocate.State.{IsPlenty}

-- The heap after `setup_header`.
abbrev pub set_up : Heap → ℕ → ℕ → Heap
set_up s h lb = record s {
  hdrs = write s.hdrs h (record (s.hdrs h) { hb_block = h; hb_sz = lb; hb_free = false });
}

module _ (m : Memory) (plenty : IsPlenty m) (s : Allocator) (r : Request) (index h : ℕ) where
  pub first_part : Collector × Option ℕ
  first_part =
      dropping_get_first_part s.collector h (size_needed r) index m.scratch
        (m.allocated (h + size_needed r / hblk_size))

  pub set_up_run :
      (c : Collector)
      → (install_counts m.scratch c.arena.table h (size_needed r)).1 ≡ true
      → let (s', block) = set_up_part m s r h c in
        (block ≡ some h)
        × (s'.collector.arena.heap ≡ set_up c.arena.heap h r.lb_adjusted)
        × (s'.collector.arena.table ≡ (install_counts m.scratch c.arena.table h (size_needed r)).0)
        × (s'.alloc_fail_count ≡ 0)
  unfolding set_up_part dropping_install_counts setup_header invalidate_hdr_cache
  set_up_run c counted = let p = plenty.mapped in rw (counted, p) (refl, refl, refl, refl)

  pub taken_run :
      first_part.1 ≡ some h → take_first_part m s r index h ≡ set_up_part m s r h first_part.0
  unfolding take_first_part first_part
  taken_run got = rw (take_first_part, got) refl

  pub whole_part :
      (hdr_at s.collector.arena h).hb_sz ≡ size_needed r
      → let b =
          (dropping_install_header s.collector m.scratch
            (m.allocated (h + size_needed r / hblk_size))
            (h + size_needed r / hblk_size)).1 in
        let g = get_first_part s.collector.arena.heap h (size_needed r) index b in
        (first_part.1 ≡ g.1)
        × (first_part.0.arena.heap ≡ g.0)
        × (first_part.0.arena.table ≡ s.collector.arena.table)
  unfolding first_part dropping_get_first_part
  whole_part e =
      let t : ((hdr_at s.collector.arena h).hb_sz == size_needed r) ≡ true = ground arith in
      rw t (refl, refl, refl)

  pub less_part :
      (hdr_at s.collector.arena h).hb_sz ≢ size_needed r
      → (install_header m.scratch true s.collector.arena.table (h + size_needed r / hblk_size)).1
        ≡ true
      → let g = get_first_part s.collector.arena.heap h (size_needed r) index true in
        (first_part.1 ≡ g.1)
        × (first_part.0.arena.heap ≡ g.0)
        × (first_part.0.arena.table
            ≡ (install_header m.scratch true s.collector.arena.table
                (h + size_needed r / hblk_size)).0)
  unfolding first_part dropping_get_first_part dropping_install_header invalidate_hdr_cache
  less_part ne ok =
      let t : ((hdr_at s.collector.arena h).hb_sz == size_needed r) ≡ false = ground arith in
      let p = plenty.allocated (h + size_needed r / hblk_size) in rw (t, p, ok) (refl, refl, refl)
