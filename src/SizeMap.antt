-- ===== src/SizeMap.antt =====
-- The table of size classes: `GC_init_size_map` and `GC_get_size_map_at` (misc.c), and
-- `GC_extend_size_map` (malloc.c). Element `n` of `GC_size_map` is the size, in granules, of the
-- small objects that serve a request of `n` bytes, or 0 while that is not chosen. The
-- parameter `extra` is `EXTRA_BYTES`, 1 if all interior pointers are recognised and 0 if not.
pub mod Extend
pub mod Init
mod Tests
use gcutil.Prelude.{
  ℕ, zero, suc, ◌+◌, ◌-◌, ◌/◌, ◌*◌, ◌^◌, leb, ltb, ◌==◌, if◌then◌else◌, write, Outcome, done,
  out_of_fuel, ◌>>=◌, Bool,
}

-- `HBLKSIZE`, and with granules of 16 bytes `HBLK_GRANULES`, `MAXOBJBYTES`, `MAXOBJGRANULES`
-- and `GC_TINY_FREELISTS`.
abbrev pub hblk_granules : ℕ
hblk_granules = 256

abbrev pub max_obj_bytes : ℕ
max_obj_bytes = 2048

abbrev pub max_obj_granules : ℕ
max_obj_granules = 128

abbrev pub tiny_freelists : ℕ
tiny_freelists = 25

abbrev pub size_max : ℕ
size_max = 2 ^ 64 - 1

-- `SIZET_SAT_ADD`
abbrev pub sat_add : ℕ → ℕ → ℕ
sat_add a b = if ltb a (size_max - b) then a + b else size_max

-- `ALLOC_REQUEST_GRANS`
pub alloc_request_grans : ℕ → ℕ → ℕ
alloc_request_grans extra lb = sat_add lb (15 + extra) / 16

init_loop : ℕ → ℕ → ℕ → (ℕ → ℕ) → ℕ → ℕ
init_loop extra zero i size_map = size_map
init_loop extra (suc rounds) i size_map =
    init_loop extra rounds (i + 1) (write size_map i (alloc_request_grans extra i))

pub init_size_map : ℕ → (ℕ → ℕ) → ℕ → ℕ
unfolding init_loop alloc_request_grans
init_size_map extra size_map =
    init_loop extra (16 * (tiny_freelists - 1) - extra) 1 (write size_map 0 1)

-- `while (GC_size_map[low_limit] != 0) low_limit++;`
skip_filled : ℕ → (ℕ → ℕ) → ℕ → Outcome ℕ
skip_filled zero size_map low_limit = out_of_fuel
skip_filled (suc fuel) size_map low_limit =
    let rest = skip_filled fuel size_map (low_limit + 1) in
    if size_map low_limit == 0 then done low_limit else rest

-- `for (; low_limit <= byte_sz; low_limit++) GC_size_map[low_limit] = lg;` by the rounds left.
fill_loop : ℕ → ℕ → ℕ → (ℕ → ℕ) → ℕ → ℕ
fill_loop zero low_limit lg size_map = size_map
fill_loop (suc rounds) low_limit lg size_map =
    fill_loop rounds (low_limit + 1) lg (write size_map low_limit lg)

-- An even number of granules, as large as the number of objects in a block allows.
round_granules : ℕ → ℕ
round_granules lg =
    let even = (lg + 1) / 2 * 2 in
    let capped = if ltb max_obj_granules even then max_obj_granules else even in
    hblk_granules / (hblk_granules / capped) / 2 * 2

fill_from : ℕ → (ℕ → ℕ) → ℕ → ℕ → ℕ → ℕ
unfolding fill_loop round_granules
fill_from extra size_map low_limit lg =
    let lg' = round_granules lg in
    let byte_sz = 16 * lg' - extra in fill_loop (byte_sz + 1 - low_limit) low_limit lg' size_map

-- The size tried where the entry an eighth below is filled: an eighth above the lowest request.
larger_granules : ℕ → ℕ → ℕ → ℕ
larger_granules extra original_lg low_limit =
    let lg = alloc_request_grans extra low_limit in
    let lg' = lg + lg / 8 in if ltb lg' original_lg then original_lg else lg'

-- No search goes past the element asked for, so `max_obj_bytes` rounds are enough.
pub extend_size_map : ℕ → (ℕ → ℕ) → ℕ → Outcome (ℕ → ℕ)
unfolding skip_filled fill_from larger_granules alloc_request_grans
extend_size_map extra size_map i =
    let original_lg = alloc_request_grans extra i in
    let byte_sz = 16 * original_lg in
    let smaller_than_i = byte_sz - byte_sz / 8 in
    if size_map smaller_than_i == 0
    then (skip_filled max_obj_bytes size_map (byte_sz - byte_sz / 4) >>= λ low_limit.
        done (fill_from extra size_map low_limit original_lg))
    else (skip_filled max_obj_bytes size_map (smaller_than_i + 1) >>= λ low_limit.
        done (fill_from extra size_map low_limit (larger_granules extra original_lg low_limit)))

-- `GC_get_size_map_at`, with the index as the cast to `unsigned` gives it.
pub get_size_map_at : (ℕ → ℕ) → ℕ → ℕ
get_size_map_at size_map i = if ltb max_obj_bytes i then size_max else 16 * size_map i
