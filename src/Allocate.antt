-- ===== src/Allocate.antt =====
-- Allocating a block (allchblk.c): the search of a free list for a place that is large enough,
-- aligned and not black listed. Heap memory is never
-- unmapped, and a page of the system is a block (so the test on mixed pages does nothing). Warnings,
-- and the clearing of dropped pages for debugging, are left out.
pub mod Block
pub mod Place
pub mod Find
pub mod State
pub mod Divide
pub mod Occupy
pub mod Cut
pub mod Fill
pub mod Part
pub mod Rest
pub mod Run
pub mod Take
pub mod At
pub mod Drop
pub mod Chunks
pub mod Choose
pub mod Walk
pub mod Search
pub mod Nth
pub mod Lists
pub mod Back
mod Tests
use gcutil.Prelude.{
  ℕ, zero, suc, ◌+◌, ◌-◌, ◌*◌, ◌/◌, ◌%◌, ◌^◌, Bool, true, false, not, ◌&&◌, ◌||◌, Option, none,
  some, leb, ltb, ◌==◌, min, if◌then◌else◌, word_add, word_sub, Outcome, done, out_of_fuel, ◌>>=◌,
}
use gcutil.Blacklist.{BlackLists, is_black_listed}
use gcutil.FreeBlocks.{
  Hdr, hblk_size, unique_threshold, n_hblk_fls, hblk_fl_from_blocks, remove_from_fl_at,
  enough_large_bytes_left,
}
use gcutil.Freeing.{Arena, hdr_at}
use gcutil.HdrCache.{
  Collector, with_heap, dropping_install_header, dropping_install_counts, dropping_remove_counts,
  dropping_get_first_part, dropping_split, setup_header,
}

-- `MAX_BLACK_LIST_ALLOC`
abbrev pub max_black_list_alloc : ℕ
max_black_list_alloc = 2 * hblk_size

-- Which memory for bottom indices, headers and object maps can be had.
pub record Memory : Type 0 where
  pub scratch : ℕ → Bool
  pub allocated : ℕ → Bool
  pub mapped : Bool

-- `kind` as far as it is read here, and the other arguments of `GC_allochblk`.
pub record Request : Type 0 where
  pub lb_adjusted : ℕ
  pub is_uncollectable : Bool
  pub is_ptrfree : Bool
  pub ignore_off_page : Bool
  pub align_m1 : ℕ

-- The collector with the counters of the allocator, and `GC_find_leak`.
pub record Allocator : Type 0 where
  pub collector : Collector
  pub drop_blacklisted_count : ℕ
  pub large_alloc_warn_suppressed : ℕ
  pub large_alloc_warn_interval : ℕ
  pub bytes_dropped : ℕ
  pub alloc_fail_count : ℕ
  pub find_leak : Bool

abbrev pub hdr_of : Allocator → ℕ → Hdr
hdr_of s h = hdr_at s.collector.arena h

-- `(lb_adjusted + HBLKSIZE - 1) & ~(HBLKSIZE - 1)`, of a size for which it does not wrap around: the
-- contract of `GC_allochblk_nth` asks for a result below `GC_SIZE_MAX / 2`.
abbrev pub size_needed : Request → ℕ
size_needed r = (r.lb_adjusted + (hblk_size - 1)) / hblk_size * hblk_size

-- `ALIGN_PAD_SZ` of a block, where `align_m1 + 1` is a power of 2.
unfoldable pub align_pad_sz : ℕ → ℕ → ℕ
align_pad_sz p align_m1 = (align_m1 + 1 - p * hblk_size % (align_m1 + 1)) % (align_m1 + 1)

pub next_hblk_fits_better : Allocator → Request → ℕ → ℕ → Outcome Bool
unfolding align_pad_sz
next_hblk_fits_better s r hbp size_avail =
    let next_hbp = (hdr_of s hbp).hb_next in
    let next_size = (hdr_of s next_hbp).hb_sz in
    let next_ofs = align_pad_sz next_hbp r.align_m1 in
    if next_hbp == 0
    then done false
    else if leb size_avail next_size
    then done false
    else if ltb next_size (size_needed r + next_ofs)
    then done false
    else (is_black_listed s.collector.black_lists (next_hbp + next_ofs / hblk_size) (size_needed r)
        >>= λ listed. done (elim listed [ none ↦ true | some h ↦ false ]))

-- The loop of `find_non_bl_hblk`, to the address `search_end`. Each round raises `last_hbp`.
pub find_loop : ℕ → BlackLists → ℕ → ℕ → ℕ → ℕ → Outcome (Option ℕ)
unfolding align_pad_sz
find_loop zero bl last_hbp search_end eff_size_needed align_m1 = out_of_fuel
find_loop (suc fuel) bl last_hbp search_end eff_size_needed align_m1 =
    let hbp = last_hbp + align_pad_sz last_hbp align_m1 / hblk_size in
    is_black_listed bl hbp eff_size_needed >>= λ listed. elim listed [
      | none ↦ done (some hbp)
      | some next_hbp ↦
          let rest = find_loop fuel bl next_hbp search_end eff_size_needed align_m1 in
          if leb (next_hbp * hblk_size) search_end then rest else done none
    ]

pub find_non_bl_hblk : BlackLists → ℕ → ℕ → ℕ → ℕ → Outcome (Option ℕ)
unfolding find_loop
find_non_bl_hblk bl last_hbp size_remain eff_size_needed align_m1 =
    let limit = last_hbp * hblk_size + size_remain in
    find_loop (size_remain / hblk_size + 2) bl last_hbp (limit - limit % (align_m1 + 1))
      eff_size_needed align_m1

-- The loop of `drop_hblk_in_chunks`, by the blocks behind `hbp`.
pub drop_loop : Memory → ℕ → Collector → ℕ → Collector
drop_loop m zero s hbp = (setup_header s hbp hblk_size false true).0
drop_loop m (suc blocks) s hbp =
    let s₁ = (setup_header s hbp hblk_size false true).0 in
    let (s₂, installed) = dropping_install_header s₁ m.scratch (m.allocated (hbp + 1)) (hbp + 1) in
    let rest = drop_loop m blocks s₂ (hbp + 1) in if installed then rest else s₂

pub drop_hblk_in_chunks : Memory → Allocator → ℕ → ℕ → Allocator
unfolding drop_loop
drop_hblk_in_chunks m s n hbp =
    let c = s.collector in
    let total_size = (hdr_of s hbp).hb_sz in
    let arena : Arena = record c.arena {
      heap = remove_from_fl_at c.arena.heap hbp n;
      large_free_bytes = word_sub c.arena.large_free_bytes total_size;
    } in
    record s {
      collector = drop_loop m (total_size / hblk_size - 1) (record c { arena = arena }) hbp;
      bytes_dropped = word_add s.bytes_dropped total_size;
    }

-- What a round of the search does with a block.
pub data Choice : Type 0 where
  pass : Choice
  drop : Choice
  take : ℕ → Choice

-- `if (size_needed > BL_LIMIT && size_avail - size_needed > BL_LIMIT)`
pub punt : Allocator → Request → ℕ → ℕ → Allocator × Choice
unfolding align_pad_sz
punt s r hbp size_avail =
    let bl_limit = s.collector.black_lists.black_list_spacing in
    let suppressed = s.large_alloc_warn_suppressed + 1 in
    if ltb bl_limit (size_needed r) && ltb bl_limit (size_avail - size_needed r)
    then (
      record s {
        large_alloc_warn_suppressed =
            if leb s.large_alloc_warn_interval suppressed then 0 else suppressed;
      },
      take (hbp + align_pad_sz hbp r.align_m1 / hblk_size),
    )
    else (s, pass)

-- The block is completely black listed.
pub choose_listed : Allocator → Request → ℕ → ℕ → Allocator × Choice
unfolding punt
choose_listed s r hbp size_avail =
    let count = (s.drop_blacklisted_count + 1) % 2 ^ 32 in
    if size_needed r == hblk_size && r.align_m1 == 0 && not s.find_leak
    then (let s' : Allocator = record s { drop_blacklisted_count = count } in
        if count % 4 == 0 then (s', drop) else punt s' r hbp size_avail)
    else punt s r hbp size_avail

-- The block is large enough.
pub choose_place : Allocator → Request → ℕ → ℕ → Outcome (Allocator × Choice)
unfolding find_non_bl_hblk choose_listed align_pad_sz
choose_place s r hbp size_avail =
    if r.is_uncollectable || r.is_ptrfree && leb (size_needed r) max_black_list_alloc
    then done (s, take (hbp + align_pad_sz hbp r.align_m1 / hblk_size))
    else (find_non_bl_hblk s.collector.black_lists hbp (size_avail - size_needed r)
          (if r.ignore_off_page then hblk_size else size_needed r) r.align_m1
        >>= λ found. done (elim found [
          | some last_hbp ↦ (s, take last_hbp)
          | none ↦ choose_listed s r hbp size_avail
        ]))

-- One round of the search of `GC_allochblk_nth`.
pub choose : Allocator → Request → Bool → ℕ → Outcome (Allocator × Choice)
unfolding next_hblk_fits_better choose_place align_pad_sz
choose s r may_split hbp =
    let size_avail = (hdr_of s hbp).hb_sz in
    if not may_split && not (size_avail == size_needed r)
    then done (s, pass)
    else if ltb size_avail (size_needed r + align_pad_sz hbp r.align_m1)
    then done (s, pass)
    else if size_avail == size_needed r
    then choose_place s r hbp size_avail
    else (next_hblk_fits_better s r hbp size_avail >>= λ better.
        if better then done (s, pass) else choose_place s r hbp size_avail)

-- The search of `GC_allochblk_nth`: the block and the place in it. After a drop it goes on behind
-- the previous block, or begins again; each round passes a block or takes it off the list.
pub search_list :
    ℕ → Memory → Allocator → Request → ℕ → Bool → ℕ → Outcome (Allocator × Option (ℕ × ℕ))
unfolding choose drop_hblk_in_chunks
search_list zero m s r index may_split hbp = out_of_fuel
search_list (suc fuel) m s r index may_split hbp =
    if hbp == 0
    then done (s, none)
    else (choose s r may_split hbp >>= λ (s', choice). elim choice [
      | pass ↦ search_list fuel m s' r index may_split (hdr_of s' hbp).hb_next
      | take last_hbp ↦ done (s', some (hbp, last_hbp))
      | drop ↦
          let prev = (hdr_of s' hbp).hb_prev in
          let s'' = drop_hblk_in_chunks m s' index hbp in
          search_list fuel m s'' r index may_split (
            if prev == 0
            then s''.collector.arena.heap.hblkfreelist index
            else (hdr_of s'' prev).hb_next)
    ])
