-- ===== src/Blacklist.antt =====
-- Black lists of heap blocks (blacklst.c). A block is its number, its address over `HBLKSIZE`;
-- a `page_hash_table` is its bits, and a word of it is zero if its 64 bits are. Whether an
-- address has a block header is an argument, the table of headers being another component.
pub mod Lookup
pub mod Spacing
mod Tests
use gcutil.Prelude.{
  ℕ, zero, suc, ◌+◌, ◌-◌, ◌*◌, ◌/◌, ◌%◌, ◌^◌, ◌≡◌, Bool, true, false, not, ◌&&◌, ◌||◌, Option, none,
  some, leb, ltb, ◌==◌, if◌then◌else◌, write, holds_below, List, [], ◌∷◌, Outcome, done,
  out_of_fuel,
}

-- `HBLKSIZE`, `PHT_ENTRIES` (`LOG_PHT_ENTRIES` is 18), `MINHINCR` and `MAXHINCR`.
abbrev pub hblk_size : ℕ
hblk_size = 4096

abbrev pub pht_entries : ℕ
pht_entries = 2 ^ 18

abbrev pub min_h_incr : ℕ
min_h_incr = 16

abbrev pub max_h_incr : ℕ
max_h_incr = 2048

-- `PHT_HASH`, of an address and of a block number.
abbrev pub pht_hash : ℕ → ℕ
pht_hash p = p / hblk_size % pht_entries

abbrev pub pht_hash_block : ℕ → ℕ
pht_hash_block h = h % pht_entries

abbrev pub Bits : Type 0
Bits = ℕ → Bool

abbrev pub clear_bl : Bits
clear_bl index = false

-- `bl[divWORDSZ(index)] == 0`, with `w` for `divWORDSZ(index)`
pub word_is_zero : Bits → ℕ → Bool
unfolding holds_below
word_is_zero bl w = holds_below (λ b. not (bl (64 * w + b))) 64

-- `hs_start` over `HBLKSIZE`, and `hs_bytes`.
pub record HeapSect : Type 0 where
  pub hs_start : ℕ
  pub hs_bytes : ℕ

-- The black lists, and the variables of other files that they are used with.
pub record BlackLists : Type 0 where
  pub old_normal_bl : Bits
  pub incomplete_normal_bl : Bits
  pub old_stack_bl : Bits
  pub incomplete_stack_bl : Bits
  pub black_list_spacing : ℕ
  pub all_interior_pointers : Bool
  pub modws_valid_offsets : ℕ → Bool
  pub heap_sects : List HeapSect
  pub heapsize : ℕ

-- `GC_bl_init`, where the allocation of the tables succeeds.
pub bl_init : BlackLists → BlackLists
bl_init s =
    let s' = record s {
      black_list_spacing = min_h_incr * hblk_size;
      old_stack_bl = clear_bl;
      incomplete_stack_bl = clear_bl;
    } in
    if s.all_interior_pointers
    then s'
    else record s' { old_normal_bl = clear_bl; incomplete_normal_bl = clear_bl }

-- The loop of `GC_number_stack_black_listed`, by the blocks left.
number_loop : ℕ → ℕ → Bits → ℕ → ℕ
number_loop zero h bl result = result
number_loop (suc blocks) h bl result =
    number_loop blocks (h + 1) bl (if bl (pht_hash_block h) then result + 1 else result)

pub number_stack_black_listed : BlackLists → ℕ → ℕ → ℕ
unfolding number_loop
number_stack_black_listed s start endp1 = number_loop (endp1 - start) start s.old_stack_bl 0

total_loop : BlackLists → List HeapSect → ℕ → ℕ
unfolding number_stack_black_listed
total_loop s [] total = total
total_loop s (sect ∷ rest) total =
    total_loop s rest (
      total + number_stack_black_listed s sect.hs_start (sect.hs_start + sect.hs_bytes / hblk_size))

pub compute_total_stack_black_listed : BlackLists → ℕ
unfolding total_loop
compute_total_stack_black_listed s = total_loop s s.heap_sects 0 * hblk_size

-- The end of `GC_promote_black_lists`.
clamp_spacing : ℕ → ℕ
clamp_spacing spacing =
    let at_least = if ltb spacing (3 * hblk_size) then 3 * hblk_size else spacing in
    if ltb (max_h_incr * hblk_size) at_least then max_h_incr * hblk_size else at_least

-- The tables are swapped, and the one for the next cycle is cleared.
pub promote_black_lists : BlackLists → BlackLists
unfolding compute_total_stack_black_listed clamp_spacing
promote_black_lists s =
    let s' = record s {
      old_normal_bl = s.incomplete_normal_bl;
      old_stack_bl = s.incomplete_stack_bl;
      incomplete_normal_bl = if s.all_interior_pointers then s.old_normal_bl else clear_bl;
      incomplete_stack_bl = clear_bl;
    } in
    let total = compute_total_stack_black_listed s' in
    record s' {
      black_list_spacing =
          clamp_spacing
            (if total == 0 then s.black_list_spacing else hblk_size * (s.heapsize / total));
    }

pub unpromote_black_lists : BlackLists → BlackLists
unpromote_black_lists s = record s {
  incomplete_normal_bl =
      if s.all_interior_pointers then s.incomplete_normal_bl else s.old_normal_bl;
  incomplete_stack_bl = s.old_stack_bl;
}

-- `has_header` is `HDR(p) != NULL`.
pub add_to_black_list_normal : BlackLists → Bool → ℕ → BlackLists
add_to_black_list_normal s has_header p =
    if s.modws_valid_offsets (p % 8) && (not has_header || s.old_normal_bl (pht_hash p))
    then record s { incomplete_normal_bl = write s.incomplete_normal_bl (pht_hash p) true }
    else s

pub add_to_black_list_stack : BlackLists → Bool → ℕ → BlackLists
add_to_black_list_stack s has_header p =
    if not has_header || s.old_stack_bl (pht_hash p)
    then record s { incomplete_stack_bl = write s.incomplete_stack_bl (pht_hash p) true }
    else s

-- One round of the loop of `GC_is_black_listed`: the block found, or how far `i` moves.
is_listed_at : BlackLists → ℕ → Bool
is_listed_at s index = s.old_stack_bl index || s.incomplete_stack_bl index

both_zero : BlackLists → ℕ → Bool
unfolding word_is_zero
both_zero s w = word_is_zero s.old_stack_bl w && word_is_zero s.incomplete_stack_bl w

scan_loop : ℕ → BlackLists → ℕ → ℕ → ℕ → Outcome (Option ℕ)
unfolding is_listed_at both_zero
scan_loop zero s h nblocks i = out_of_fuel
scan_loop (suc fuel) s h nblocks i =
    let index = pht_hash_block (h + i) in
    let easy = both_zero s (index / 64) in
    let i' = if easy then i + (64 - index % 64) else i + 1 in
    let rest = scan_loop fuel s h nblocks i' in
    if not easy && is_listed_at s index
    then done (some (h + i + 1))
    else if leb nblocks i'
    then done none
    else rest

-- `GC_is_black_listed`: each round raises `i`.
pub is_black_listed : BlackLists → ℕ → ℕ → Outcome (Option ℕ)
unfolding scan_loop
is_black_listed s h len =
    let index = pht_hash_block h in
    if not s.all_interior_pointers && (s.old_normal_bl index || s.incomplete_normal_bl index)
    then done (some (h + 1))
    else scan_loop (len / hblk_size + 1) s h (len / hblk_size) 0
