-- ===== src/HdrCache.antt =====
-- The marking header cache (gc_hdrs.h and headers.c): the lookup of the header for a pointer, and the
-- operations of headers.c and allchblk.c that drop the cache. The cache is the shared one, of a build
-- without `PARALLEL_MARK`.
pub mod Lookup
pub mod Coherence
mod Tests
use gcutil.Prelude.{
  ℕ, ◌+◌, ◌-◌, ◌*◌, ◌/◌, ◌%◌, ◌^◌, word_add, ◌≡◌, ◌≢◌, Bool, true, false, not, Option, none, some,
  leb, ◌==◌, if◌then◌else◌, write, Outcome, done, ◌>>=◌,
}
use gcutil.Blacklist.{BlackLists, add_to_black_list_normal, add_to_black_list_stack}
use gcutil.FreeBlocks.{Hdr, Heap, hblk_size, get_first_part, split_block}
use gcutil.Headers.{
  Slot, BlockTable, nil, forward, header, is_nil, find_starting_hblk, install_header,
  install_counts, remove_header, remove_counts,
}
use gcutil.Freeing.{Arena, freehblk}

abbrev pub hdr_cache_size : ℕ
hdr_cache_size = 64

-- `hdr_cache_entry`; a header goes by the number of its block, and `NULL` is `none`.
pub record Entry : Type 0 where
  pub block_addr : ℕ
  pub hce_hdr : Option ℕ

-- The heap, `GC_hdr_cache`, the black lists, and the flag `IGNORE_OFF_PAGE` of each header.
pub record Collector : Type 0 where
  pub arena : Arena
  pub hdr_cache : ℕ → Entry
  pub black_lists : BlackLists
  pub ignore_off_page : ℕ → Bool

-- `GC_INVALIDATE_HDR_CACHE`
unfoldable pub invalidate_hdr_cache : Collector → Collector
invalidate_hdr_cache s = record s { hdr_cache = λ i. record { block_addr = 0; hce_hdr = none } }

-- `GC_ADD_TO_BLACK_LIST_NORMAL`
pub to_black_list : Collector → ℕ → Collector
to_black_list s p =
    let has_header = not (is_nil (s.arena.table.slots (p / hblk_size))) in
    record s {
      black_lists =
          if s.black_lists.all_interior_pointers
          then add_to_black_list_stack s.black_lists has_header p
          else add_to_black_list_normal s.black_lists has_header p;
    }

-- `a >= (GC_signed_word)b` on the words of two signed numbers
pub signed_geb : ℕ → ℕ → Bool
signed_geb a b = leb (word_add b (2 ^ 63)) (word_add a (2 ^ 63))

-- `GC_header_cache_miss` of a pointer behind the first page of the block `current`.
pub interior_header : Collector → ℕ → ℕ → Collector × Option ℕ
unfolding to_black_list signed_geb
interior_header s p current =
    let hhdr = s.arena.heap.hdrs current in
    if s.ignore_off_page current
    then (s, none)
    else if hhdr.hb_free
    then (to_black_list s p, none)
    else if signed_geb (p - current * hblk_size) hhdr.hb_sz
    then (to_black_list s p, none)
    else (s, some current)

-- `GC_header_cache_miss` with what `GET_HDR(p, hhdr)` reads.
pub miss_at : Slot → Collector → ℕ → Outcome (Collector × Option ℕ)
unfolding interior_header to_black_list
miss_at nil s p = done (to_black_list s p, none)
miss_at (forward n) s p =
    if s.black_lists.all_interior_pointers
    then (find_starting_hblk s.arena.table (p / hblk_size) >>= λ current.
        done (interior_header s p current))
    else done (s, none)
miss_at header s p =
    let b = p / hblk_size in
    let hce : Entry = record { block_addr = b; hce_hdr = some b } in
    if (s.arena.heap.hdrs b).hb_free
    then done (to_black_list s p, none)
    else done (record s { hdr_cache = write s.hdr_cache (b % hdr_cache_size) hce }, some b)

-- `GC_header_cache_miss`
pub header_cache_miss : Collector → ℕ → Outcome (Collector × Option ℕ)
unfolding miss_at
header_cache_miss s p = miss_at (s.arena.table.slots (p / hblk_size)) s p

-- `HC_GET_HDR`
pub hc_get_hdr : Collector → ℕ → Outcome (Collector × Option ℕ)
unfolding header_cache_miss
hc_get_hdr s p =
    let hce = s.hdr_cache (p / hblk_size % hdr_cache_size) in
    if hce.block_addr == p / hblk_size then done (s, hce.hce_hdr) else header_cache_miss s p

-- The operations that change the table of headers or free a block, with the cache that they drop.
abbrev pub with_table : Collector → BlockTable → Collector
with_table s t = record s { arena = record s.arena { table = t } }

abbrev pub with_heap : Collector → Heap → Collector
with_heap s heap = record s { arena = record s.arena { heap = heap } }

unfoldable pub dropping_install_header : Collector → (ℕ → Bool) → Bool → ℕ → Collector × Bool
unfolding invalidate_hdr_cache
dropping_install_header s scratch allocated h =
    let (t, installed) = install_header scratch allocated s.arena.table h in
    (with_table (invalidate_hdr_cache s) t, installed)

unfoldable pub dropping_install_counts : Collector → (ℕ → Bool) → ℕ → ℕ → Collector × Bool
unfolding invalidate_hdr_cache
dropping_install_counts s scratch h sz =
    let (t, installed) = install_counts scratch s.arena.table h sz in
    (with_table (invalidate_hdr_cache s) t, installed)

pub dropping_remove_header : Collector → ℕ → Collector
unfolding invalidate_hdr_cache
dropping_remove_header s h = with_table (invalidate_hdr_cache s) (remove_header s.arena.table h)

pub dropping_remove_counts : Collector → ℕ → ℕ → Collector
unfolding invalidate_hdr_cache
dropping_remove_counts s h sz =
    with_table (invalidate_hdr_cache s) (remove_counts s.arena.table h sz)

pub dropping_freehblk : Collector → ℕ → Outcome Collector
unfolding invalidate_hdr_cache
dropping_freehblk s h =
    freehblk s.arena h >>= λ a. done (record (invalidate_hdr_cache s) { arena = a })

-- `GC_get_first_part`, which installs the header of the rest only if there is a rest.
unfoldable pub dropping_get_first_part :
    Collector → ℕ → ℕ → ℕ → (ℕ → Bool) → Bool → Collector × Option ℕ
unfolding dropping_install_header
dropping_get_first_part s h size_needed index scratch allocated =
    let rest = h + size_needed / hblk_size in
    let (s', installed) = dropping_install_header s scratch allocated rest in
    let (heap, block) = get_first_part s.arena.heap h size_needed index installed in
    if (s.arena.heap.hdrs h).hb_sz == size_needed
    then (with_heap s heap, block)
    else (with_heap s' heap, block)

-- The split in `GC_allochblk_nth`: without a header for the new block nothing more is done.
unfoldable pub dropping_split : Collector → ℕ → ℕ → ℕ → (ℕ → Bool) → Bool → Collector
unfolding dropping_install_header
dropping_split s hbp last_hbp index scratch allocated =
    let (s', installed) = dropping_install_header s scratch allocated last_hbp in
    if installed then with_heap s' (split_block s'.arena.heap hbp last_hbp index) else s'

-- `setup_header`, as far as `Hdr` goes: `mapped` is the result of `GC_add_map_entry`. It keeps the
-- cache.
unfoldable pub setup_header : Collector → ℕ → ℕ → Bool → Bool → Collector × Bool
setup_header s h lb_adjusted ignore mapped =
    let hdr : Hdr = record (s.arena.heap.hdrs h) {
      hb_block = h;
      hb_sz = if mapped then lb_adjusted else hblk_size;
      hb_free = false;
    } in
    (
      record (with_heap s (record s.arena.heap { hdrs = write s.arena.heap.hdrs h hdr })) {
        ignore_off_page = write s.ignore_off_page h ignore;
      },
      mapped,
    )

-- One operation on the heap or one lookup.
pub data Step (s u : Collector) : Type 0 where
  looked_up : (p : ℕ) (r : Option ℕ) → p / hblk_size ≢ 0 → hc_get_hdr s p ≡ done (u, r) → Step s u
  installed_header :
      (scratch : ℕ → Bool) (allocated : Bool) (h : ℕ)
      → u ≡ (dropping_install_header s scratch allocated h).0
      → Step s u
  installed_counts :
      (scratch : ℕ → Bool) (h sz : ℕ) → u ≡ (dropping_install_counts s scratch h sz).0 → Step s u
  removed_header : (h : ℕ) → u ≡ dropping_remove_header s h → Step s u
  removed_counts : (h sz : ℕ) → u ≡ dropping_remove_counts s h sz → Step s u
  freed : (h : ℕ) → dropping_freehblk s h ≡ done u → Step s u
  got_first_part :
      (h size_needed index : ℕ) (scratch : ℕ → Bool) (allocated : Bool)
      → u ≡ (dropping_get_first_part s h size_needed index scratch allocated).0
      → Step s u
  split :
      (hbp last_hbp index : ℕ) (scratch : ℕ → Bool) (allocated : Bool)
      → u ≡ dropping_split s hbp last_hbp index scratch allocated
      → Step s u
  set_up :
      (h lb_adjusted : ℕ) (ignore mapped : Bool)
      → u ≡ (setup_header s h lb_adjusted ignore mapped).0
      → Step s u

-- The states that steps lead to.
pub data Reaches (s : Collector) : Collector → Type 0 where
  start : Reaches s s
  after : {t u : Collector} → Reaches s t → Step t u → Reaches s u
