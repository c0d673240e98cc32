-- ===== src/FreeBlocks/Classes.antt =====
-- The size classes of the free lists.
use gcutil.Prelude.{ℕ, ◌+◌, ◌≤◌, ◌<◌, ◌≡◌, arith}
use gcutil.FreeBlocks.{hblk_fl_from_blocks, n_hblk_fls}

-- The class of a number of blocks is one of the lists, and never falls as the number grows, so a
-- block on a list behind the one for a request is always larger than the request. Each size below
-- 32 blocks has a list of its own, and on each list but the last the sizes differ by less than 8.
pub hblk_fl_from_blocks_classes :
    (a b : ℕ)
    → (hblk_fl_from_blocks a ≤ n_hblk_fls)
      × (a ≤ b → hblk_fl_from_blocks a ≤ hblk_fl_from_blocks b)
      × (hblk_fl_from_blocks a < hblk_fl_from_blocks b → a < b)
      × (hblk_fl_from_blocks a ≡ hblk_fl_from_blocks b → a < 32 → a ≡ b)
      × (hblk_fl_from_blocks a ≡ hblk_fl_from_blocks b → a < 256 → b < a + 8)
unfolding hblk_fl_from_blocks
hblk_fl_from_blocks_classes a b =
    (ground arith, λ l. ground arith, λ l. ground arith, λ e l. ground arith, λ e l. ground arith)
