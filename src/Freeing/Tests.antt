-- ===== src/Freeing/Tests.antt =====
-- Runs of `GC_freehblk`, and its theorems at them.
use gcutil.Prelude.{
  ℕ, ◌≡◌, refl, arith, Option, some, write, Outcome, done, abort, out_of_fuel, Returns,
}
use gcutil.FreeBlocks.{
  set_free, set_sz, remove_from_fl, remove_from_fl_at, unlink, set_next, set_prev, add_to_fl,
  link_front, hblk_fl_from_blocks,
}
use gcutil.Headers.{
  Slot, nil, remove_counts, clear_loop, set_hdr, find_starting_hblk, start_loop, prev_block,
  remove_header,
}
use gcutil.Freeing.{
  Arena, hdr_at, block_bytes, free_block_ending_at, freehblk, free_sized, get_block_ending_at,
  merge_next, merge_prev, absorb, can_merge,
}
use gcutil.Freeing.Release.{Fits}
use gcutil.Freeing.Free.{IsRefused, Frees, freehblk-Frees, freehblk-abort_iff}
use gcutil.Freeing.Example.{arena, lists, arena-IsFiled}

-- Freeing block 4 makes one free block of 2 to 7; blocks 7 and 2 cannot be freed again.
run : Outcome Arena → Outcome (Option ℕ × ℕ × ℕ × ℕ × Slot × ℕ)
run (done a) = done (
  some (a.heap.hblkfreelist 6),
  a.heap.hblkfreelist 2,
  a.heap.hblkfreelist 1,
  (hdr_at a 2).hb_sz,
  a.table.slots 6,
  a.large_free_bytes,
)
run abort = abort
run out_of_fuel = out_of_fuel

runs :
    ◌≡◌ {A = Outcome (Option ℕ × ℕ × ℕ × ℕ × Slot × ℕ) × Outcome (Option ℕ × ℕ × ℕ × ℕ × Slot × ℕ)}
      (run (freehblk arena 4), run (freehblk arena 7))
      (done (some 2, 0, 0, 24576, nil, 24576), abort)
unfolding run freehblk free_sized block_bytes remove_counts clear_loop set_hdr set_free set_sz write
    free_block_ending_at get_block_ending_at merge_next merge_prev absorb can_merge remove_from_fl
    remove_from_fl_at unlink set_next set_prev hblk_fl_from_blocks add_to_fl link_front
    find_starting_hblk start_loop prev_block remove_header
runs = refl

fits : Fits (hdr_at arena 4).hb_sz
fits = omega arith

freehblk-Frees_example : Returns (freehblk arena 4) (Frees arena 4)
freehblk-Frees_example = freehblk-Frees arena lists 4 arena-IsFiled (refl, refl) fits

freehblk-abort_iff_example :
    (freehblk arena 7 ≡ abort → IsRefused arena 7) × (IsRefused arena 7 → freehblk arena 7 ≡ abort)
freehblk-abort_iff_example = freehblk-abort_iff arena lists 7 arena-IsFiled refl (omega arith)
