-- ===== src/Roots.antt =====
-- The table of static roots of mark_rts.c: `GC_static_roots[0 .. n_root_sets - 1]`, and the hash
-- index over it, whose chains run through `r_next`. A pointer into the table is an index of it.
pub mod Index
pub mod Add
pub mod Query
mod Tests
pub mod Unlisted
pub mod Remove
pub mod Run
pub mod Valid
pub mod Weigh
use Prim.Native.Nat.{bit_and, bit_xor}
use gcutil.Prelude.{
  ℕ, zero, suc, ◌+◌, ◌-◌, ◌/◌, ◌^◌, Bool, true, false, ◌&&◌, ◌||◌, Option, none, some, leb, ltb,
  ◌==◌, if◌then◌else◌, write, word_add, word_sub, ptr_align_down, ptr_align_up, Outcome, done,
  abort, out_of_fuel, ◌>>=◌, not,
}

-- `MAX_ROOT_SETS` of the default configuration.
abbrev pub max_root_sets : ℕ
max_root_sets = 2048

-- `struct roots`
pub record Root : Type 0 where
  pub r_start : ℕ
  pub r_end : ℕ
  pub r_tmp : Bool
  pub r_next : Option ℕ

-- `GC_static_roots`, `n_root_sets`, `GC_root_size`, `GC_root_index`, `GC_last_root_set` and
-- `GC_roots_were_cleared`.
pub record Table : Type 0 where
  pub roots : ℕ → Root
  pub n_root_sets : ℕ
  pub root_size : ℕ
  pub root_index : ℕ → Option ℕ
  pub last_root_set : ℕ
  pub roots_were_cleared : Bool

-- `rt_hash`, with `LOG_RT_SIZE` 6 and words of 64 bits.
pub rt_hash : ℕ → ℕ
rt_hash addr =
    let v₁ = bit_xor addr (addr / 2 ^ 48) in
    let v₂ = bit_xor v₁ (v₁ / 2 ^ 24) in
    let v₃ = bit_xor v₂ (v₂ / 2 ^ 12) in bit_and (bit_xor (v₃ / 2 ^ 6) v₃) 63

-- The loop of `GC_roots_present`.
present_loop : ℕ → (ℕ → Root) → ℕ → Option ℕ → Outcome (Option ℕ)
present_loop fuel roots b none = done none
present_loop zero roots b (some p) = out_of_fuel
present_loop (suc fuel) roots b (some p) =
    let rest = present_loop fuel roots b (roots p).r_next in
    if (roots p).r_start == b then done (some p) else rest

-- A chain visits an element of the table at most once, so `n_root_sets` rounds are enough.
pub roots_present : Table → ℕ → Outcome (Option ℕ)
unfolding present_loop
roots_present t b = present_loop t.n_root_sets t.roots b (t.root_index (rt_hash b))

pub add_roots_to_index : Table → ℕ → Table
add_roots_to_index t p =
    let h = rt_hash (t.roots p).r_start in
    record t {
      roots = write t.roots p (record (t.roots p) { r_next = t.root_index h });
      root_index = write t.root_index h (some p);
    }

-- The end of `GC_add_roots_inner`, which fills a new element.
pub fill_root : Table → ℕ → ℕ → Bool → Table
unfolding add_roots_to_index
fill_root t b e tmp =
    let n = t.n_root_sets in
    let root : Root = record { r_start = b; r_end = e; r_tmp = tmp; r_next = none } in
    let t' = add_roots_to_index (record t { roots = write t.roots n root }) n in
    record t' { root_size = word_add t.root_size (word_sub e b); n_root_sets = n + 1 }

append_root : Table → ℕ → ℕ → Bool → Outcome Table
unfolding fill_root
append_root t b e tmp = if t.n_root_sets == max_root_sets then abort else done (fill_root t b e tmp)

-- `old->r_tmp &= tmp`, on an element that holds the whole region.
pub keep_old : Table → ℕ → Bool → Table
keep_old t i tmp = record t {
  roots = write t.roots i (record (t.roots i) { r_tmp = (t.roots i).r_tmp && tmp });
}

pub extend_old : Table → ℕ → ℕ → Bool → Table
extend_old t i e tmp = record t {
  roots = write t.roots i (record (t.roots i) { r_end = e; r_tmp = tmp });
  root_size = word_add t.root_size (word_sub e (t.roots i).r_end);
}

-- `a == b` on `GC_bool`.
abbrev same_bool : Bool → Bool → Bool
same_bool true b = b
same_bool false b = not b

-- What `GC_add_roots_inner` does with the element that `GC_roots_present` found.
pub add_at : Table → Option ℕ → ℕ → ℕ → Bool → Outcome Table
unfolding keep_old extend_old append_root
add_at t none b e tmp = append_root t b e tmp
add_at t (some i) b e tmp =
    let old = t.roots i in
    if leb e old.r_end
    then done (keep_old t i tmp)
    else if same_bool old.r_tmp tmp || not tmp
    then done (extend_old t i e tmp)
    else append_root t old.r_end e tmp

-- `GC_add_roots_inner` after the bounds are aligned.
pub add_aligned : Table → ℕ → ℕ → Bool → Outcome Table
unfolding add_at roots_present
add_aligned t b e tmp =
    if leb e b then done t else (roots_present t b >>= λ old. add_at t old b e tmp)

pub add_roots_inner : Table → ℕ → ℕ → Bool → Outcome Table
unfolding add_aligned
add_roots_inner t b e tmp = add_aligned t (ptr_align_up b) (ptr_align_down e) tmp

-- `GC_add_roots`: the lock and the initialisation apart.
pub add_roots : Table → ℕ → ℕ → Outcome Table
unfolding add_roots_inner
add_roots t b e = add_roots_inner t b e false

pub clear_roots : Table → Table
clear_roots t = record t {
  roots_were_cleared = true;
  n_root_sets = 0;
  root_size = 0;
  root_index = λ _. none;
}

-- `GC_remove_root_at_pos`: the last element moves down, and keeps no `r_next`.
pub remove_root_at_pos : Table → ℕ → Table
remove_root_at_pos t i =
    let old = t.roots i in
    let top = t.roots (t.n_root_sets - 1) in
    record t {
      root_size = word_sub t.root_size (word_sub old.r_end old.r_start);
      roots =
          write t.roots i
            (record old { r_start = top.r_start; r_end = top.r_end; r_tmp = top.r_tmp });
      n_root_sets = t.n_root_sets - 1;
    }

rebuild_loop : ℕ → ℕ → Table → Table
rebuild_loop zero i t = t
rebuild_loop (suc rounds) i t = rebuild_loop rounds (i + 1) (add_roots_to_index t i)

pub rebuild_root_index : Table → Table
unfolding rebuild_loop add_roots_to_index
rebuild_root_index t = rebuild_loop t.n_root_sets 0 (record t { root_index = λ _. none })

-- A test of a root by its bounds and kind.
abbrev Test : Type 0
Test = ℕ → ℕ → Bool → Bool

abbrev test_root : Test → Root → Bool
test_root test r = test r.r_start r.r_end r.r_tmp

-- The loop that `GC_remove_tmp_roots` and `GC_remove_roots_inner` share up to its test. Each
-- round takes one from `n_root_sets - i`, so `n_root_sets` rounds are enough.
pub remove_loop : Test → ℕ → ℕ → Table → Table
remove_loop test zero i t = t
remove_loop test (suc fuel) i t =
    let remove = test_root test (t.roots i) in
    if ltb i t.n_root_sets
    then remove_loop test fuel (if remove then i else i + 1)
        (if remove then remove_root_at_pos t i else t)
    else t

-- The rebuild at the end, if anything was removed.
rebuild_if_fewer : ℕ → Table → Table
unfolding rebuild_root_index
rebuild_if_fewer old_n_roots t = if ltb t.n_root_sets old_n_roots then rebuild_root_index t else t

abbrev is_tmp : Test
is_tmp r_start r_end r_tmp = r_tmp

abbrev lies_in : ℕ → ℕ → Test
lies_in b e r_start r_end r_tmp = leb b r_start && leb r_end e

pub remove_tmp_roots : Table → Table
unfolding remove_loop remove_root_at_pos rebuild_if_fewer
remove_tmp_roots t = rebuild_if_fewer t.n_root_sets (remove_loop is_tmp t.n_root_sets 0 t)

pub remove_roots_inner : Table → ℕ → ℕ → Table
unfolding remove_loop remove_root_at_pos rebuild_if_fewer
remove_roots_inner t b e =
    rebuild_if_fewer t.n_root_sets (remove_loop (lies_in b e) t.n_root_sets 0 t)

-- `GC_remove_roots` passes the bounds on as they are given.
pub remove_roots : Table → ℕ → ℕ → Table
unfolding remove_roots_inner
remove_roots t b e = if leb (ptr_align_down e) (ptr_align_up b) then t else remove_roots_inner t b e

-- `GC_compute_root_size`
size_loop : ℕ → ℕ → (ℕ → Root) → ℕ → ℕ
size_loop zero i roots size = size
size_loop (suc rounds) i roots size =
    size_loop rounds (i + 1) roots (word_add size (word_sub (roots i).r_end (roots i).r_start))

pub compute_root_size : Table → ℕ
unfolding size_loop
compute_root_size t = size_loop t.n_root_sets 0 t.roots 0

-- `ADDR_INSIDE(p, r_start, r_end)`
abbrev pub inside : ℕ → Root → Bool
inside p r = leb r.r_start p && ltb p r.r_end

find_inside : ℕ → ℕ → (ℕ → Root) → ℕ → Option ℕ
find_inside zero i roots p = none
find_inside (suc rounds) i roots p =
    let rest = find_inside rounds (i + 1) roots p in if inside p (roots i) then some i else rest

-- The scan of `GC_is_tmp_root`, which remembers the element that it finds.
tmp_root_found : Table → Option ℕ → Bool × Table
tmp_root_found t none = (false, t)
tmp_root_found t (some i) = ((t.roots i).r_tmp, record t { last_root_set = i })

pub is_tmp_root : Table → ℕ → Bool × Table
unfolding find_inside tmp_root_found
is_tmp_root t p =
    if ltb t.last_root_set t.n_root_sets && inside p (t.roots t.last_root_set)
    then ((t.roots t.last_root_set).r_tmp, t)
    else tmp_root_found t (find_inside t.n_root_sets 0 t.roots p)
