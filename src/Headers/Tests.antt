-- ===== src/Headers/Tests.antt =====
-- Runs of the table of headers, and the theorems at them.
use gcutil.Prelude.{
  ◌∙◌, ℕ, ◌*◌, ◌<◌, ◌≡◌, refl, Bool, true, false, ◌||◌, Option, some, ◌==◌, if◌then◌else◌, arith,
  List, [], ◌∷◌, Outcome, done, write,
}
use gcutil.FreeBlocks.{Hdr, hblk_size}
use gcutil.Headers.{
  Slot, BlockTable, nil, forward, header, install_header, install_counts, remove_counts,
  find_starting_hblk, next_block, prev_block,
}
use gcutil.Headers.Counts.{Installs, install_counts-Installs, remove_counts-install_counts}
use gcutil.Headers.Start.{find_starting_hblk-install_counts}
use gcutil.Headers.Walk.{IsMapped, IsNextBlock, wanted, next_block-IsNextBlock}
use gcutil.Headers.Back.{IsBacked, IsPrevBlock, prev_block-IsPrevBlock}

abbrev empty : BlockTable
empty = record { slots = λ b. nil; keys = [] }

abbrev scratch : ℕ → Bool
scratch hi = true

-- A header for block 1020, which is to have six blocks, over the end of its bottom index.
abbrev with_header : BlockTable
with_header = (install_header scratch true empty 1020).0

with_header-slots : (x : ℕ) → with_header.slots x ≡ (if x == 1020 then header else nil)
unfolding install_header write
with_header-slots x = refl

runs :
    ◌≡◌ {A = Bool × List ℕ × Slot × Outcome ℕ × Slot}
      (let r = install_counts scratch with_header 1020 24576 in
        (
          r.1,
          r.0.keys,
          r.0.slots 1025,
          find_starting_hblk r.0 1025,
          (remove_counts r.0 1020 24576).slots 1025,
        ))
      (true, 0 ∷ 1 ∷ [], forward 5, done 1020, nil)
unfolding install_header install_counts find_starting_hblk remove_counts write
runs = refl

install_counts-Installs_example :
    Installs with_header 1020 24576 (install_counts scratch with_header 1020 24576)
install_counts-Installs_example =
    install_counts-Installs scratch with_header 1020 24576 (omega arith) (omega arith)

remove_counts-install_counts_example :
    (remove_counts (install_counts scratch with_header 1020 24576).0 1020 24576).slots 1023
    ≡ with_header.slots 1023
remove_counts-install_counts_example =
    remove_counts-install_counts scratch with_header 1020 24576 (omega arith) (omega arith)
      (λ x b. with_header-slots x ∙ ground arith) 1023

find_starting_hblk-install_counts_example :
    find_starting_hblk (install_counts scratch with_header 1020 24576).0 1024 ≡ done 1020
unfolding install_header install_counts write
find_starting_hblk-install_counts_example =
    find_starting_hblk-install_counts scratch with_header 1020 24576 1024 (omega arith)
      (omega arith) refl refl (omega arith) (omega arith)

-- Block 2 in use, of two blocks; block 4 free, of three; block 9 in use.
abbrev three : BlockTable
three = record {
  slots = λ b. if b == 2 || b == 4 || b == 9 then header else if b == 3 then forward 1 else nil;
  keys = 0 ∷ [];
}

abbrev hdrs : ℕ → Hdr
hdrs b = record {
  hb_next = 0;
  hb_prev = 0;
  hb_block = b;
  hb_sz = if b == 4 then 3 * hblk_size else if b == 2 then 2 * hblk_size else 48;
  hb_free = b == 4;
}

small_header : (b : ℕ) → three.slots b ≡ header → b < 10
small_header b e = ground arith

three-IsMapped : IsMapped three hdrs
three-IsMapped = record {
  own = λ b e. refl;
  indexed = λ b e. ground (arith, small_header b e);
  ascending = ((λ x i. cc), tt);
  sized = λ b e. ground arith;
  free_clear = λ b x e f l m. ground arith;
}

three-IsBacked : IsBacked three hdrs
three-IsBacked = record {
  own = λ b e. refl;
  indexed = λ b e. ground (arith, small_header b e);
  ascending = ((λ x i. cc), tt);
  counts = λ b n e. ground arith;
  passed = λ b n x e l m. ground arith;
}

next_block-IsNextBlock_example :
    IsNextBlock (wanted three.slots hdrs false) 3 (next_block three hdrs false 3)
next_block-IsNextBlock_example = next_block-IsNextBlock three hdrs three-IsMapped false 3

prev_block-IsPrevBlock_example : IsPrevBlock three.slots 8 (prev_block three hdrs 8)
prev_block-IsPrevBlock_example = prev_block-IsPrevBlock three hdrs three-IsBacked 8

walks :
    ◌≡◌ {A = Option ℕ × Option ℕ × Option ℕ}
      (next_block three hdrs false 3, next_block three hdrs true 3, prev_block three hdrs 3)
      (some 9, some 4, some 2)
unfolding next_block prev_block
walks = refl
