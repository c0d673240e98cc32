-- ===== src/Exclusions.antt =====
-- The table of ranges that are excluded from the static roots (mark_rts.c): the search in it,
-- insertion, and the marking of a root around it. A pointer into the table is an index of it.
pub mod Insert
pub mod Push
pub mod Search
mod Tests
use gcutil.Prelude.{
  ℕ, zero, suc, ◌+◌, ◌-◌, ◌/◌, ◌*◌, ◌^◌, Bool, Option, none, some, leb, ltb, ◌==◌, if◌then◌else◌,
  write, List, [], ◌∷◌, ptr_align_down, ptr_align_up, Outcome, done, abort, out_of_fuel, ◌>>=◌,
}

-- `MAX_EXCLUSIONS` of the default configuration, `MAX_ROOT_SETS / 4`.
abbrev pub max_exclusions : ℕ
max_exclusions = 512

-- `struct exclusion`
pub record Exclusion : Type 0 where
  pub e_start : ℕ
  pub e_end : ℕ

-- `GC_excl_table` and `GC_excl_table_entries`.
pub record Table : Type 0 where
  pub excl_table : ℕ → Exclusion
  pub entries : ℕ

pub clear_exclusion_table : Table → Table
clear_exclusion_table t = record t { entries = 0 }

-- The loop of `GC_next_exclusion`: `high - low` falls in each round.
search_loop : ℕ → (ℕ → Exclusion) → ℕ → ℕ → ℕ → Outcome ℕ
search_loop zero tbl start_addr low high = if ltb low high then out_of_fuel else done low
search_loop (suc fuel) tbl start_addr low high =
    let mid = (low + high) / 2 in
    let past = leb (tbl mid).e_end start_addr in
    let rest =
      search_loop fuel tbl start_addr (if past then mid + 1 else low)
        (if past then high else mid) in
    if ltb low high then rest else done low

pub next_exclusion : Table → ℕ → Outcome (Option ℕ)
unfolding search_loop
next_exclusion t start_addr =
    if t.entries == 0
    then done none
    else (search_loop t.entries t.excl_table start_addr 0 (t.entries - 1) >>= λ low.
        done (if leb (t.excl_table low).e_end start_addr then none else some low))

-- `for (i = entries; i > next_index; --i) table[i] = table[i - 1]`, by the rounds left.
shift_loop : ℕ → ℕ → (ℕ → Exclusion) → ℕ → Exclusion
shift_loop zero i tbl = tbl
shift_loop (suc rounds) i tbl = shift_loop rounds (i - 1) (write tbl i (tbl (i - 1)))

-- The end of `GC_exclude_static_roots_inner`: `next` moves up with all behind it.
insert_at : Table → ℕ → ℕ → ℕ → Table
unfolding shift_loop
insert_at t next_index start finish =
    let moved = shift_loop (t.entries - next_index) t.entries t.excl_table in
    record {
      excl_table = write moved next_index (record { e_start = start; e_end = finish });
      entries = t.entries + 1;
    }

-- `next->e_start = start`
extend_backwards : Table → ℕ → ℕ → Table
extend_backwards t next start = record t {
  excl_table = write t.excl_table next (record (t.excl_table next) { e_start = start });
}

-- `GC_exclude_static_roots_inner` once the next exclusion is known.
exclude_before : Table → Option ℕ → ℕ → ℕ → Outcome Table
unfolding insert_at extend_backwards
exclude_before t none start finish =
    if leb max_exclusions t.entries then abort else done (insert_at t t.entries start finish)
exclude_before t (some next) start finish =
    if ltb (t.excl_table next).e_start finish
    then abort
    else if (t.excl_table next).e_start == finish
    then done (extend_backwards t next start)
    else if leb max_exclusions t.entries
    then abort
    else done (insert_at t next start finish)

pub exclude_static_roots_inner : Table → ℕ → ℕ → Outcome Table
unfolding next_exclusion exclude_before
exclude_static_roots_inner t start finish =
    next_exclusion t start >>= λ next. exclude_before t next start finish

-- `GC_exclude_static_roots` rounds outwards, but not past the end of the address space.
pub exclude_static_roots : Table → ℕ → ℕ → Outcome Table
unfolding exclude_static_roots_inner
exclude_static_roots t b e =
    if b == e
    then done t
    else exclude_static_roots_inner t (ptr_align_down b)
        (if ltb (2 ^ 64 - 8) e then ptr_align_down e else ptr_align_up e)

-- A range handed to `GC_push_conditional`.
abbrev pub Range : Type 0
Range = ℕ × ℕ

abbrev push_range : ℕ → ℕ → List Range → List Range
push_range bottom top rest = if ltb bottom top then (bottom, top) ∷ rest else rest

abbrev push_before : ℕ → ℕ → Outcome (List Range) → Outcome (List Range)
push_before bottom top rest = rest >>= λ pushed. done (push_range bottom top pushed)

-- One round of the loop below, given what the later rounds push from a new `bottom`.
push_round : Table → ℕ → ℕ → Option ℕ → (ℕ → Outcome (List Range)) → Outcome (List Range)
push_round t bottom top none rest = done (push_range bottom top [])
push_round t bottom top (some next) rest =
    if leb top (t.excl_table next).e_start
    then done (push_range bottom top [])
    else push_before bottom (t.excl_table next).e_start (rest (t.excl_table next).e_end)

push_loop : ℕ → Table → ℕ → ℕ → Outcome (List Range)
unfolding next_exclusion push_round
push_loop zero t top bottom = if ltb bottom top then out_of_fuel else done []
push_loop (suc fuel) t top bottom =
    if ltb bottom top
    then (next_exclusion t bottom >>= λ next. push_round t bottom top next (push_loop fuel t top))
    else done []

-- `GC_push_conditional_with_exclusions`: the ranges that it pushes, in order. Each round but the
-- last passes an exclusion.
pub push_conditional_with_exclusions : Table → ℕ → ℕ → Outcome (List Range)
unfolding push_loop
push_conditional_with_exclusions t bottom top = push_loop (t.entries + 1) t top bottom
