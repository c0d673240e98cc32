-- ===== src/Freeing.antt =====
-- Freeing a block (allchblk.c): the block is merged with the free blocks next to it, which the
-- table of headers finds, and put on a free list. Heap memory is never unmapped here.
pub mod Neighbours
pub mod Layout
pub mod Loose
pub mod Absorb
pub mod Merge
pub mod Join
pub mod Release
pub mod PutBack
pub mod Released
pub mod Free
pub mod Example
mod Tests
use gcutil.Prelude.{
  ℕ, zero, suc, ◌+◌, ◌-◌, ◌*◌, ◌/◌, ◌^◌, Bool, true, false, not, ◌&&◌, Option, none, some, leb,
  ◌==◌, if◌then◌else◌, write, word_add, Outcome, done, abort, ◌>>=◌,
}
use gcutil.FreeBlocks.{
  Hdr, Heap, hblk_size, hblk_fl_from_blocks, remove_from_fl, add_to_fl, set_sz, set_free,
}
use gcutil.Headers.{
  Slot, BlockTable, nil, forward, header, is_nil, find_starting_hblk, prev_block, remove_counts,
  remove_header,
}

-- The free lists with the headers, the table of headers, and `GC_large_free_bytes`.
pub record Arena : Type 0 where
  pub heap : Heap
  pub table : BlockTable
  pub large_free_bytes : ℕ

abbrev pub hdr_at : Arena → ℕ → Hdr
hdr_at a b = a.heap.hdrs b

-- `get_block_ending_at`, of a block that is not the first of the address space.
pub get_block_ending_at : Arena → ℕ → Outcome (Option ℕ)
get_block_ending_at a h =
    if not (is_nil (a.table.slots (h - 1)))
    then (find_starting_hblk a.table (h - 1) >>= λ p. done (some p))
    else done (elim (prev_block a.table a.heap.hdrs (h - 1)) [
      | none ↦ none
      | some p ↦ if p * hblk_size + (hdr_at a p).hb_sz == h * hblk_size then some p else none
    ])

-- `GC_free_block_ending_at`
pub free_block_ending_at : Arena → ℕ → Outcome (Option ℕ)
unfolding get_block_ending_at
free_block_ending_at a h = get_block_ending_at a h >>= λ p.
    done (elim p [ none ↦ none | some q ↦ if (hdr_at a q).hb_free then some q else none ])

-- `HBLKSIZE * OBJ_SZ_TO_BLOCKS(sz)`, on words
unfoldable pub block_bytes : ℕ → ℕ
block_bytes sz = word_add sz (hblk_size - 1) / hblk_size * hblk_size

-- Not `BLOCKS_MERGE_OVERFLOW`
pub can_merge : Hdr → Hdr → Bool
can_merge h k = not (leb (2 ^ 63) (h.hb_sz + k.hb_sz))

abbrev pub is_free_block : Arena → ℕ → Bool
is_free_block a b = not (is_nil (a.table.slots b)) && (hdr_at a b).hb_free

-- The block `off` leaves its free list, the bytes of `gone` go to `keep`, and the header of `gone`
-- is removed.
pub absorb : Arena → ℕ → ℕ → ℕ → Arena
absorb a keep gone off =
    let heap' = remove_from_fl a.heap off in
    record a {
      heap = set_sz heap' keep ((heap'.hdrs keep).hb_sz + (heap'.hdrs gone).hb_sz);
      table = remove_header a.table gone;
    }

-- The merge with the successor, and then with the predecessor: the block that results.
pub merge_next : Arena → ℕ → ℕ → Arena
unfolding absorb can_merge
merge_next a h next =
    if is_free_block a next && can_merge (hdr_at a h) (hdr_at a next)
    then absorb a h next next
    else a

pub merge_prev : Arena → ℕ → Option ℕ → Arena × ℕ
unfolding absorb can_merge
merge_prev a h none = (a, h)
merge_prev a h (some prev) =
    if can_merge (hdr_at a prev) (hdr_at a h) then (absorb a prev h prev, prev) else (a, h)

-- `GC_freehblk` from the check for a double free on, with the size in bytes of whole blocks.
pub free_sized : Arena → ℕ → ℕ → Outcome Arena
unfolding free_block_ending_at merge_next merge_prev
free_sized a h size =
    if (hdr_at a h).hb_free
    then abort
    else (let a₁ : Arena = record a { heap = set_free a.heap h } in
        free_block_ending_at a₁ h >>= λ prev.
        let (a₂, merged) = merge_prev (merge_next a₁ h (h + size / hblk_size)) h prev in
        done (record a₂ {
          heap = add_to_fl a₂.heap merged;
          large_free_bytes = word_add a₂.large_free_bytes size;
        }))

-- `GC_freehblk`
pub freehblk : Arena → ℕ → Outcome Arena
unfolding free_sized block_bytes
freehblk a h =
    let size = block_bytes (hdr_at a h).hb_sz in
    if leb (2 ^ 63) size
    then abort
    else free_sized (record a { heap = set_sz a.heap h size; table = remove_counts a.table h size })
        h size
