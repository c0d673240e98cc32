-- ===== src/FreeBlocks/Tests.antt =====
-- Runs of the free lists on three free blocks, two of them of one class.
use gcutil.Prelude.{
  ◌||◌, ℕ, ◌+◌, ◌*◌, ◌≤◌, ◌<◌, ◌≡◌, ◌≢◌, refl, Bool, true, false, ◌==◌, if◌then◌else◌, arith, List,
  [], ◌∷◌, write, Option, some, none, ◌%◌, ◌^◌, done,
}
use gcutil.FreeBlocks.{
  n_hblk_fls, compute_large_free_bytes, Hdr, Heap, hblk_size, hblk_fl_from_blocks,
  enough_large_bytes_left, remove_from_fl, add_to_fl, get_first_part, split_block,
}
use gcutil.FreeBlocks.Lists.{has, erase, swap, total}
use gcutil.FreeBlocks.Moves.{Holds, add_to_fl-Holds}
use gcutil.FreeBlocks.Split.{get_first_part-Holds, split_block-Holds}
use gcutil.FreeBlocks.Classes.{hblk_fl_from_blocks_classes}
use gcutil.FreeBlocks.Sums.{sum_from, compute_large_free_bytes-sum_from}
use gcutil.FreeBlocks.Enough.{bytes_on, IsEnough, enough_large_bytes_left-IsEnough}

abbrev header_of : ℕ → ℕ → Hdr
header_of h blocks = record {
  hb_next = 0;
  hb_prev = 0;
  hb_block = h;
  hb_sz = blocks * hblk_size;
  hb_free = false;
}

abbrev no_lists : ℕ → List ℕ
no_lists i = []

-- Blocks 10, 20 and 30 of 4, 4 and 40 blocks, on no list.
abbrev start : Heap
start = record {
  hblkfreelist = λ i. 0;
  free_bytes = λ i. 0;
  hdrs =
      λ x. if x == 30 then header_of 30 40 else if x == 20 then header_of 20 4 else header_of x 4;
}

start-Holds : Holds start no_lists
unfolding total
start-Holds = record {
  links = λ i. refl;
  distinct = λ i. tt;
  apart = λ i j x a b. absurd (cc);
  bytes = λ i. refl;
  bounded = λ i x a. absurd (cc);
}

abbrev one_list : ℕ → List ℕ
one_list = write no_lists 4 (10 ∷ [])

abbrev two_on_list : ℕ → List ℕ
two_on_list = write one_list 4 (20 ∷ one_list 4)

abbrev lists : ℕ → List ℕ
lists = write two_on_list 33 (30 ∷ two_on_list 33)

abbrev heap : Heap
heap = add_to_fl (add_to_fl (add_to_fl start 10) 20) 30

two-Holds : Holds (add_to_fl (add_to_fl start 10) 20) two_on_list
unfolding write add_to_fl hblk_fl_from_blocks
two-Holds =
    add_to_fl-Holds (add_to_fl start 10) one_list 20 16384
      (add_to_fl-Holds start no_lists 10 16384 start-Holds (ground arith) (λ j. refl) refl
        (omega arith))
      (ground arith) (λ j. ground arith) refl (omega arith)

outside_two : (j : ℕ) → has 30 (two_on_list j) ≡ false
unfolding write
outside_two j = ground arith

heap-Holds : Holds heap lists
unfolding write add_to_fl hblk_fl_from_blocks
heap-Holds =
    add_to_fl-Holds (add_to_fl (add_to_fl start 10) 20) two_on_list 30 163840 two-Holds
      (ground arith) outside_two refl (omega arith)

-- What the operations do to the list of four blocks and to that of block 30.
runs :
    ◌≡◌ {A = (ℕ × ℕ × ℕ) × ℕ × (Option ℕ × ℕ × ℕ) × ℕ}
      (
        (heap.hblkfreelist 4, (heap.hdrs 20).hb_next, heap.free_bytes 4),
        (remove_from_fl heap 20).hblkfreelist 4,
        (
          (get_first_part heap 30 8192 33 true).1,
          (get_first_part heap 30 8192 33 true).0.hblkfreelist 32,
          ((get_first_part heap 30 8192 33 true).0.hdrs 32).hb_sz,
        ),
        (split_block heap 30 36 33).hblkfreelist 33,
      )
      ((20, 10, 32768), 10, (some 30, 32, 38 * hblk_size), 36)
unfolding write add_to_fl hblk_fl_from_blocks remove_from_fl get_first_part split_block
runs = refl

outside_lists :
    (h : ℕ) → (h == 10 || h == 20 || h == 30) ≡ false → (j : ℕ) → has h (lists j) ≡ false
unfolding write
outside_lists h ne j = ground arith

get_first_part-Holds_example :
    ((heap.hdrs 30).hb_sz ≡ 8192
      → (b : Bool)
      → ((get_first_part heap 30 8192 33 b).1 ≡ some 30)
        × Holds (get_first_part heap 30 8192 33 b).0 (write lists 33 []))
    × ((heap.hdrs 30).hb_sz ≢ 8192
        → ((get_first_part heap 30 8192 33 true).1 ≡ some 30)
          × Holds (get_first_part heap 30 8192 33 true).0 (write (write lists 33 []) 32 (32 ∷ []))
          × (((get_first_part heap 30 8192 33 true).0.hdrs 32).hb_sz ≡ 155648)
          × ((get_first_part heap 30 8192 33 false).1 ≡ none)
          × Holds (get_first_part heap 30 8192 33 false).0 (write lists 33 []))
unfolding write add_to_fl hblk_fl_from_blocks erase
get_first_part-Holds_example =
    get_first_part-Holds heap lists heap-Holds 30 33 refl 8192 (omega arith) (outside_lists 32 refl)

split_block-Holds_example :
    Holds (split_block heap 30 36 33) (write (write lists 33 (36 ∷ [])) 6 (30 ∷ []))
    × (((split_block heap 30 36 33).hdrs 30).hb_sz ≡ 24576)
    × (((split_block heap 30 36 33).hdrs 36).hb_sz + 24576 ≡ 163840)
unfolding write add_to_fl hblk_fl_from_blocks swap
split_block-Holds_example =
    split_block-Holds heap lists heap-Holds 30 36 33 refl (ground arith) (outside_lists 36 refl)
      (omega arith)

hblk_fl_from_blocks_classes_example :
    (hblk_fl_from_blocks 33 ≤ n_hblk_fls)
    × (33 ≤ 40 → hblk_fl_from_blocks 33 ≤ hblk_fl_from_blocks 40)
    × (hblk_fl_from_blocks 33 < hblk_fl_from_blocks 40 → 33 < 40)
    × (hblk_fl_from_blocks 33 ≡ hblk_fl_from_blocks 40 → 33 < 32 → ◌≡◌ {A = ℕ} 33 40)
    × (hblk_fl_from_blocks 33 ≡ hblk_fl_from_blocks 40 → 33 < 256 → 40 < 33 + 8)
hblk_fl_from_blocks_classes_example = hblk_fl_from_blocks_classes 33 40

enough_large_bytes_left-IsEnough_example :
    IsEnough heap.free_bytes 0 100000 (enough_large_bytes_left heap.free_bytes 0 100000)
unfolding bytes_on write add_to_fl hblk_fl_from_blocks
enough_large_bytes_left-IsEnough_example =
    enough_large_bytes_left-IsEnough heap.free_bytes 0 100000 (omega arith)

compute_large_free_bytes-sum_from_example :
    compute_large_free_bytes 3 heap ≡ done (sum_from heap.free_bytes (n_hblk_fls + 1) 0 % 2 ^ 64)
unfolding write
compute_large_free_bytes-sum_from_example =
    compute_large_free_bytes-sum_from 3 heap lists heap-Holds (λ j. ground arith)
