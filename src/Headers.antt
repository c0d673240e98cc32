-- ===== src/Headers.antt =====
-- The table of block headers (headers.c): a slot for each block, the bottom indices that hold the
-- slots. A block is its number; the header of a
-- block is named by the block. A slot whose bottom index is not there reads as `NULL`, as it does
-- through `GC_all_nils`. What memory the scratch allocator can give is an argument.
pub mod Counts
pub mod Start
pub mod Walk
pub mod Back
pub mod Laid
pub mod Install
mod Tests
use gcutil.Prelude.{
  ℕ, zero, suc, ◌+◌, ◌-◌, ◌*◌, ◌/◌, ◌%◌, ◌^◌, Bool, true, false, Option, none, some, leb, ltb, ◌==◌,
  if◌then◌else◌, write, List, [], ◌∷◌, Outcome, done, abort, out_of_fuel, ◌>>=◌, not, ◌||◌, min,
}
use gcutil.FreeBlocks.{Hdr, hblk_size}

-- `BOTTOM_SZ` and `MAX_JUMP`
abbrev pub bottom_sz : ℕ
bottom_sz = 1024

abbrev pub max_jump : ℕ
max_jump = 4095

-- What a slot holds: `NULL`, a forwarding count (at most `MAX_JUMP`), or the block's header.
pub data Slot : Type 0 where
  nil : Slot
  forward : ℕ → Slot
  header : Slot

-- `GC_top_index`, and the keys on the list `GC_all_bottom_indices`.
pub record BlockTable : Type 0 where
  pub slots : ℕ → Slot
  pub keys : List ℕ

abbrev pub has_key : ℕ → List ℕ → Bool
has_key hi [] = false
has_key hi (k ∷ ks) = (hi == k) || has_key hi ks

-- The search for the place of a new bottom index, `while ((p = *prev) != NULL && p->key < hi)`.
pub insert_key : ℕ → List ℕ → List ℕ
insert_key hi [] = hi ∷ []
insert_key hi (p ∷ asc_link) = if ltb p hi then p ∷ insert_key hi asc_link else hi ∷ p ∷ asc_link

-- `get_index` of an address in block `b`: `scratch hi` says if a new bottom index can be had.
pub get_index : (ℕ → Bool) → BlockTable → ℕ → BlockTable × Bool
unfolding insert_key
get_index scratch t b =
    let hi = b / bottom_sz in
    if has_key hi t.keys
    then (t, true)
    else if scratch hi
    then (record t { keys = insert_key hi t.keys }, true)
    else (t, false)

-- `SET_HDR`
unfoldable pub set_hdr : BlockTable → ℕ → Slot → BlockTable
set_hdr t b s = record t { slots = write t.slots b s }

-- `GC_install_header`: `allocated` says if there is memory for the header.
pub install_header : (ℕ → Bool) → Bool → BlockTable → ℕ → BlockTable × Bool
unfolding get_index set_hdr
install_header scratch allocated t h =
    let (t', indexed) = get_index scratch t h in
    if not indexed
    then (t', false)
    else if allocated
    then (set_hdr t' h header, true)
    else (t', false)

-- The first loop of `GC_install_counts`, one bottom index after another, by the rounds left.
pub index_loop : (ℕ → Bool) → ℕ → BlockTable → ℕ → BlockTable × Bool
unfolding get_index
index_loop scratch zero t hbp = (t, true)
index_loop scratch (suc rounds) t hbp =
    let (t', indexed) = get_index scratch t hbp in
    let rest = index_loop scratch rounds t' (hbp + bottom_sz) in
    if not indexed
    then (t', false)
    else if ltb (2 ^ 64 - 1 - bottom_sz * hblk_size) (hbp * hblk_size)
    then (t', true)
    else rest

-- The second loop: the block `i` blocks behind the first, by the blocks left.
pub forward_loop : ℕ → BlockTable → ℕ → ℕ → BlockTable
unfolding set_hdr
forward_loop zero t h i = t
forward_loop (suc rounds) t h i =
    forward_loop rounds (set_hdr t (h + i) (forward (if ltb max_jump i then max_jump else i))) h
      (i + 1)

-- The number of blocks that start before `h + sz` (in bytes) from `h` on, `step` blocks apart.
abbrev pub starts_below : ℕ → ℕ → ℕ
starts_below sz step = (sz + step * hblk_size - 1) / (step * hblk_size)

-- `GC_install_counts` of a positive number of bytes.
pub install_counts : (ℕ → Bool) → BlockTable → ℕ → ℕ → BlockTable × Bool
unfolding index_loop forward_loop
install_counts scratch t h sz =
    let (t₁, first) = index_loop scratch (starts_below sz bottom_sz) t h in
    if not first
    then (t₁, false)
    else (let (t₂, last) = get_index scratch t₁ ((h * hblk_size + sz - 1) / hblk_size) in
        if not last then (t₂, false) else (forward_loop (starts_below sz 1 - 1) t₂ h 1, true))

-- `GC_remove_header`; the header itself goes to a list of free ones.
unfoldable pub remove_header : BlockTable → ℕ → BlockTable
unfolding set_hdr
remove_header t h = set_hdr t h nil

unfoldable pub clear_loop : ℕ → BlockTable → ℕ → BlockTable
unfolding set_hdr
clear_loop zero t b = t
clear_loop (suc rounds) t b = clear_loop rounds (set_hdr t b nil) (b + 1)

abbrev pub is_nil : Slot → Bool
is_nil nil = true
is_nil _ = false

-- `GC_remove_counts`
unfoldable pub remove_counts : BlockTable → ℕ → ℕ → BlockTable
unfolding clear_loop
remove_counts t h sz =
    if leb sz hblk_size
    then t
    else if is_nil (t.slots (h + 1))
    then t
    else clear_loop (starts_below sz 1 - 1) t (h + 1)

-- `GC_find_starting_hblk` of a block whose slot is not `NULL` (nor is one on the way: then the C
-- code does not return, and here the fuel runs out). Each jump goes down, so `h + 1` rounds are
-- enough.
unfoldable pub start_loop : ℕ → (ℕ → Slot) → ℕ → Outcome ℕ
start_loop zero slots h = out_of_fuel
start_loop (suc fuel) slots h = elim (slots h) [
  | nil ↦ out_of_fuel
  | forward n ↦ start_loop fuel slots (h - n)
  | header ↦ done h
]

unfoldable pub find_starting_hblk : BlockTable → ℕ → Outcome ℕ
unfolding start_loop
find_starting_hblk t h = start_loop (h + 1) t.slots h

-- The inner loop of `GC_next_block`, over the slots of the bottom index with the key `hi`.
pub next_in : ℕ → (ℕ → Slot) → (ℕ → Hdr) → Bool → ℕ → ℕ → Option ℕ
next_in zero slots hdrs allow_free hi j = none
next_in (suc fuel) slots hdrs allow_free hi j =
    let b = hi * bottom_sz + j in
    if leb bottom_sz j then none else elim (slots b) [
      | nil ↦ next_in fuel slots hdrs allow_free hi (j + 1)
      | forward n ↦ next_in fuel slots hdrs allow_free hi (j + 1)
      | header ↦
          if allow_free || not (hdrs b).hb_free
          then some (hdrs b).hb_block
          else next_in fuel slots hdrs allow_free hi (j + (hdrs b).hb_sz / hblk_size)
    ]

-- The outer loop, over the bottom indices; each slot is passed at most once, so `BOTTOM_SZ` rounds
-- and one for the end are enough in each.
pub next_over : (ℕ → Slot) → (ℕ → Hdr) → Bool → List ℕ → ℕ → Option ℕ
unfolding next_in
next_over slots hdrs allow_free [] j = none
next_over slots hdrs allow_free (bi ∷ asc_link) j =
    let rest = next_over slots hdrs allow_free asc_link 0 in
    elim (next_in (bottom_sz + 1) slots hdrs allow_free bi j) [ none ↦ rest | some b ↦ some b ]

-- The bottom indices from the first with a key of at least `hi` on.
pub keys_from : ℕ → List ℕ → List ℕ
keys_from hi [] = []
keys_from hi (k ∷ ks) = if ltb k hi then keys_from hi ks else k ∷ ks

-- `GC_next_block`: if the bottom index of `h` is not there, the walk starts at the next one.
pub next_block : BlockTable → (ℕ → Hdr) → Bool → ℕ → Option ℕ
unfolding next_over keys_from
next_block t hdrs allow_free h =
    let hi = h / bottom_sz in
    next_over t.slots hdrs allow_free (keys_from hi t.keys)
      (if has_key hi t.keys then h % bottom_sz else 0)

-- The inner loop of `GC_prev_block`, by `j + 1`, which is 0 when `j` is negative.
pub prev_in : ℕ → (ℕ → Slot) → (ℕ → Hdr) → ℕ → ℕ → Option ℕ
prev_in zero slots hdrs hi j₁ = none
prev_in (suc fuel) slots hdrs hi zero = none
prev_in (suc fuel) slots hdrs hi (suc j) =
    let b = hi * bottom_sz + j in
    elim (slots b) [
      | nil ↦ prev_in fuel slots hdrs hi j
      | forward n ↦ prev_in fuel slots hdrs hi (j + 1 - n)
      | header ↦ some (hdrs b).hb_block
    ]

pub prev_over : (ℕ → Slot) → (ℕ → Hdr) → List ℕ → ℕ → Option ℕ
unfolding prev_in
prev_over slots hdrs [] j₁ = none
prev_over slots hdrs (bi ∷ desc_link) j₁ =
    let rest = prev_over slots hdrs desc_link bottom_sz in
    elim (prev_in (bottom_sz + 1) slots hdrs bi j₁) [ none ↦ rest | some b ↦ some b ]

-- The keys of at most `hi`, the last one first: the bottom indices by `desc_link`.
pub keys_down : ℕ → List ℕ → List ℕ → List ℕ
keys_down hi [] desc_link = desc_link
keys_down hi (k ∷ ks) desc_link = if ltb hi k then desc_link else keys_down hi ks (k ∷ desc_link)

-- `GC_prev_block`
unfoldable pub prev_block : BlockTable → (ℕ → Hdr) → ℕ → Option ℕ
unfolding prev_over keys_down
prev_block t hdrs h =
    let hi = h / bottom_sz in
    prev_over t.slots hdrs (keys_down hi t.keys [])
      (if has_key hi t.keys then h % bottom_sz + 1 else bottom_sz)
