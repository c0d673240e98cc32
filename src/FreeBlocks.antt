-- ===== src/FreeBlocks.antt =====
-- The free lists of heap blocks (allchblk.c): doubly linked lists through the block headers, one
-- for each class of sizes, with the free bytes on each. A block is its number, its address over
-- `HBLKSIZE`, and 0 is `NULL`. The header table is a function from block numbers; whether
-- `GC_install_header` succeeds is an argument.
pub mod Classes
pub mod Lists
pub mod Links
pub mod Fields
pub mod Moves
pub mod Split
pub mod Cuts
pub mod Enough
pub mod Sums
mod Tests
use gcutil.Prelude.{
  ℕ, zero, suc, ◌+◌, ◌-◌, ◌*◌, ◌/◌, ◌^◌, Bool, true, false, Option, none, some, leb, ltb, ◌==◌,
  if◌then◌else◌, write, word_add, word_sub, Outcome, done, out_of_fuel, ◌>>=◌,
}

abbrev pub hblk_size : ℕ
hblk_size = 4096

abbrev pub unique_threshold : ℕ
unique_threshold = 32

abbrev pub huge_threshold : ℕ
huge_threshold = 256

abbrev pub fl_compression : ℕ
fl_compression = 8

-- `N_HBLK_FLS`, which is 60.
abbrev pub n_hblk_fls : ℕ
n_hblk_fls = (huge_threshold - unique_threshold) / fl_compression + unique_threshold

-- `struct hblkhdr`, as far as the free lists read it. `hb_free` is the flag `FREE_BLK`.
pub record Hdr : Type 0 where
  pub hb_next : ℕ
  pub hb_prev : ℕ
  pub hb_block : ℕ
  pub hb_sz : ℕ
  pub hb_free : Bool

-- `GC_hblkfreelist`, `GC_free_bytes` and the headers.
pub record Heap : Type 0 where
  pub hblkfreelist : ℕ → ℕ
  pub free_bytes : ℕ → ℕ
  pub hdrs : ℕ → Hdr

unfoldable pub hblk_fl_from_blocks : ℕ → ℕ
hblk_fl_from_blocks blocks_needed =
    if leb blocks_needed unique_threshold
    then blocks_needed
    else if leb huge_threshold blocks_needed
    then n_hblk_fls
    else (blocks_needed - unique_threshold) / fl_compression + unique_threshold

-- The loop of `GC_enough_large_bytes_left`, down from `n`.
unfoldable pub enough_loop : (ℕ → ℕ) → ℕ → ℕ → ℕ → ℕ
enough_loop free_bytes max_large zero bytes = 0
enough_loop free_bytes max_large (suc n) bytes =
    let bytes' = word_add bytes (free_bytes (suc n)) in
    let rest = enough_loop free_bytes max_large n bytes' in
    if leb max_large bytes' then suc n else rest

-- `GC_enough_large_bytes_left`, of `GC_large_allocd_bytes` and `GC_max_large_allocd_bytes`.
unfoldable pub enough_large_bytes_left : (ℕ → ℕ) → ℕ → ℕ → ℕ
unfolding enough_loop
enough_large_bytes_left free_bytes large_allocd_bytes max_large_allocd_bytes =
    enough_loop free_bytes max_large_allocd_bytes n_hblk_fls large_allocd_bytes

-- `HDR(p)->hb_next = q` and `HDR(p)->hb_prev = q`
unfoldable pub set_next : (ℕ → Hdr) → ℕ → ℕ → ℕ → Hdr
set_next hdrs p q = write hdrs p (record (hdrs p) { hb_next = q })

unfoldable pub set_prev : (ℕ → Hdr) → ℕ → ℕ → ℕ → Hdr
set_prev hdrs p q = write hdrs p (record (hdrs p) { hb_prev = q })

-- The headers after `GC_remove_from_fl_at`: the neighbours of `h` are linked to each other.
unfoldable pub unlink : (ℕ → Hdr) → ℕ → ℕ → Hdr
unfolding set_next set_prev
unlink hdrs h =
    let prev = (hdrs h).hb_prev in
    let next = (hdrs h).hb_next in
    let hdrs' = if prev == 0 then hdrs else set_next hdrs prev next in
    if next == 0 then hdrs' else set_prev hdrs' next prev

unfoldable pub remove_from_fl_at : Heap → ℕ → ℕ → Heap
unfolding unlink
remove_from_fl_at s h index =
    let hhdr = s.hdrs h in
    record {
      hblkfreelist =
          if hhdr.hb_prev == 0 then write s.hblkfreelist index hhdr.hb_next else s.hblkfreelist;
      free_bytes = write s.free_bytes index (word_sub (s.free_bytes index) hhdr.hb_sz);
      hdrs = unlink s.hdrs h;
    }

unfoldable pub remove_from_fl : Heap → ℕ → Heap
unfolding remove_from_fl_at hblk_fl_from_blocks
remove_from_fl s h = remove_from_fl_at s h (hblk_fl_from_blocks ((s.hdrs h).hb_sz / hblk_size))

-- The headers after `GC_add_to_fl`: `h` stands before `second`.
unfoldable pub link_front : (ℕ → Hdr) → ℕ → ℕ → ℕ → Hdr
unfolding set_prev
link_front hdrs h second =
    let front : Hdr = record (hdrs h) { hb_next = second; hb_prev = 0; hb_free = true } in
    let hdrs' = write hdrs h front in if second == 0 then hdrs' else set_prev hdrs' second h

unfoldable pub add_to_fl : Heap → ℕ → Heap
unfolding link_front hblk_fl_from_blocks
add_to_fl s h =
    let sz = (s.hdrs h).hb_sz in
    let index = hblk_fl_from_blocks (sz / hblk_size) in
    record {
      hblkfreelist = write s.hblkfreelist index h;
      free_bytes = write s.free_bytes index (word_add (s.free_bytes index) sz);
      hdrs = link_front s.hdrs h (s.hblkfreelist index);
    }

-- The header of the rest of a block, which `GC_get_first_part` fills.
rest_header : Heap → ℕ → ℕ → Heap
rest_header s rest sz = record s {
  hdrs = write s.hdrs rest (record (s.hdrs rest) { hb_block = rest; hb_sz = sz; hb_free = false });
}

-- `GC_get_first_part`: the block, unless the header of the rest cannot be installed.
pub get_first_part : Heap → ℕ → ℕ → ℕ → Bool → Heap × Option ℕ
unfolding remove_from_fl_at add_to_fl rest_header
get_first_part s h size_needed index installed =
    let total_size = (s.hdrs h).hb_sz in
    let s' = remove_from_fl_at s h index in
    let rest = h + size_needed / hblk_size in
    if total_size == size_needed
    then (s', some h)
    else if installed
    then (add_to_fl (rest_header s' rest (total_size - size_needed)) rest, some h)
    else (s', none)

-- The headers after `last_hbp` has taken the place of `hbp` on its list.
pub replace : (ℕ → Hdr) → ℕ → ℕ → ℕ → ℕ → Hdr
unfolding set_next set_prev
replace hdrs hbp last_hbp h_size =
    let prev = (hdrs hbp).hb_prev in
    let next = (hdrs hbp).hb_next in
    let last : Hdr = record {
      hb_prev = prev;
      hb_next = next;
      hb_block = last_hbp;
      hb_sz = (hdrs hbp).hb_sz - h_size;
      hb_free = false;
    } in
    let hdrs₁ = write hdrs last_hbp last in
    let hdrs₂ = if prev == 0 then hdrs₁ else set_next hdrs₁ prev last_hbp in
    if next == 0 then hdrs₂ else set_prev hdrs₂ next last_hbp

pub replace_at : Heap → ℕ → ℕ → ℕ → ℕ → Heap
unfolding replace
replace_at s hbp last_hbp h_size index = record {
  hblkfreelist =
      if (s.hdrs hbp).hb_prev == 0 then write s.hblkfreelist index last_hbp else s.hblkfreelist;
  free_bytes = write s.free_bytes index (word_sub (s.free_bytes index) h_size);
  hdrs = replace s.hdrs hbp last_hbp h_size;
}

unfoldable pub set_sz : Heap → ℕ → ℕ → Heap
set_sz s h sz = record s { hdrs = write s.hdrs h (record (s.hdrs h) { hb_sz = sz }) }

unfoldable pub set_free : Heap → ℕ → Heap
set_free s h = record s { hdrs = write s.hdrs h (record (s.hdrs h) { hb_free = true }) }

-- `GC_split_block`
pub split_block : Heap → ℕ → ℕ → ℕ → Heap
unfolding replace_at set_sz add_to_fl set_free
split_block s hbp last_hbp index =
    let h_size = (last_hbp - hbp) * hblk_size in
    set_free (add_to_fl (set_sz (replace_at s hbp last_hbp h_size index) hbp h_size) hbp) last_hbp

-- The inner loop of `GC_iterate_free_hblks` with `add_hb_sz`, along one list, on fuel.
pub add_list : ℕ → (ℕ → Hdr) → ℕ → ℕ → Outcome ℕ
add_list zero hdrs h total_free = out_of_fuel
add_list (suc fuel) hdrs h total_free =
    let rest = add_list fuel hdrs (hdrs h).hb_next (word_add total_free (hdrs h).hb_sz) in
    if h == 0 then done total_free else rest

-- The outer loop, from list `i` on by the lists left.
pub add_lists : ℕ → ℕ → Heap → ℕ → ℕ → Outcome ℕ
unfolding add_list
add_lists fuel zero s i total_free = done total_free
add_lists fuel (suc lists) s i total_free =
    add_list fuel s.hdrs (s.hblkfreelist i) total_free >>= λ t. add_lists fuel lists s (i + 1) t

-- `GC_compute_large_free_bytes`, with fuel for the longest list.
pub compute_large_free_bytes : ℕ → Heap → Outcome ℕ
unfolding add_lists
compute_large_free_bytes fuel s = add_lists fuel (n_hblk_fls + 1) s 0 0
