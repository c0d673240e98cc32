-- ===== src/Sweep.antt =====
-- Sweeping a block of small objects (reclaim.c): its unmarked objects go to the free list, cleared
-- or as they are. Memory is a function from addresses to words, of which those of whole words are
-- used; mark bits are one for each granule (no `MARK_BIT_PER_OBJ`, no `ENABLE_DISCLAIM`).
pub mod Chain
pub mod Clear
pub mod Uninit
mod Tests
use gcutil.Prelude.{
  ℕ, zero, suc, ◌+◌, ◌-◌, ◌*◌, ◌/◌, Bool, true, false, ◌||◌, not, if◌then◌else◌, write, word_add,
}
use gcutil.FreeBlocks.{hblk_size}

-- `sizeof(ptr_t)`
abbrev pub ptr_bytes : ℕ
ptr_bytes = 8

abbrev pub mark_bit_offset : ℕ → ℕ
mark_bit_offset sz = sz / 16

-- The memory, the free list that is built (0 is `NULL`), and `*pcount`.
pub record Sweep : Type 0 where
  pub memory : ℕ → ℕ
  pub list : ℕ
  pub pcount : ℕ

-- The loop of `GC_clear_block`, from `p` on by the words left.
pub clear_words : ℕ → (ℕ → ℕ) → ℕ → ℕ → ℕ
clear_words zero memory p = memory
clear_words (suc words) memory p = clear_words words (write memory p 0) (p + ptr_bytes)

-- `GC_clear_block` without its count.
pub clear_block : (ℕ → ℕ) → ℕ → ℕ → ℕ → ℕ
unfolding clear_words
clear_block memory q sz = clear_words ((sz - 1) / ptr_bytes) memory (q + ptr_bytes)

-- One free object goes to the list.
pub put_clear : Sweep → ℕ → ℕ → Sweep
unfolding clear_block
put_clear s p sz = record {
  memory = clear_block (write s.memory p s.list) p sz;
  list = p;
  pcount = word_add s.pcount sz;
}

-- The loop of `GC_reclaim_clear`, by the objects left.
pub reclaim_clear_loop : ℕ → (ℕ → Bool) → ℕ → ℕ → ℕ → Sweep → Sweep
unfolding put_clear
reclaim_clear_loop zero mark_bit sz p bit_no s = s
reclaim_clear_loop (suc objs) mark_bit sz p bit_no s =
    let s' : Sweep = if mark_bit bit_no then s else put_clear s p sz in
    reclaim_clear_loop objs mark_bit sz (p + sz) (bit_no + mark_bit_offset sz) s'

-- `GC_reclaim_clear` of the block `hbp`: the loop runs while the object ends in the block.
pub reclaim_clear : ℕ → (ℕ → Bool) → ℕ → Sweep → Sweep
unfolding reclaim_clear_loop
reclaim_clear hbp mark_bit sz s =
    reclaim_clear_loop (hblk_size / sz) mark_bit sz (hbp * hblk_size) 0 s

-- One free object goes to the list as it is.
pub put_uninit : Sweep → ℕ → Sweep
put_uninit s p = record s { memory = write s.memory p s.list; list = p }

-- The loop of `GC_reclaim_uninit`, with `n_bytes_found`.
pub reclaim_uninit_loop : ℕ → (ℕ → Bool) → ℕ → ℕ → ℕ → Sweep → ℕ → Sweep × ℕ
unfolding put_uninit
reclaim_uninit_loop zero mark_bit sz p bit_no s n_bytes_found = (s, n_bytes_found)
reclaim_uninit_loop (suc objs) mark_bit sz p bit_no s n_bytes_found =
    let (s', n_bytes_found') : Sweep × ℕ =
      if mark_bit bit_no then (s, n_bytes_found) else (put_uninit s p, word_add n_bytes_found sz) in
    reclaim_uninit_loop objs mark_bit sz (p + sz) (bit_no + mark_bit_offset sz) s' n_bytes_found'

-- `GC_reclaim_uninit`
pub reclaim_uninit : ℕ → (ℕ → Bool) → ℕ → Sweep → Sweep
unfolding reclaim_uninit_loop
reclaim_uninit hbp mark_bit sz s =
    let (s', n_bytes_found) =
      reclaim_uninit_loop (hblk_size / sz) mark_bit sz (hbp * hblk_size) 0 s 0 in
    record s' { pcount = word_add s'.pcount n_bytes_found }
