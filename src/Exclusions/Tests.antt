-- ===== src/Exclusions/Tests.antt =====
-- Runs of the exclusions on small tables, and the theorems at them.
use gcutil.Prelude.{
  ℕ, ◌≤◌, ◌<◌, ◌≡◌, refl, arith, some, Option, done, abort, Returns, Outcome, ◌>>=◌, List, [], ◌∷◌,
  write, ltb, if◌then◌else◌,
}
use gcutil.Exclusions.{
  Table, Range, max_exclusions, next_exclusion, exclude_static_roots, exclude_static_roots_inner,
  push_conditional_with_exclusions,
}
use gcutil.Exclusions.Search.{IsSorted, IsNext, next_exclusion-IsNext}
use gcutil.Exclusions.Insert.{Excludes, Adds, exclude_static_roots_inner-Adds}
use gcutil.Exclusions.Push.{Pushes, push_conditional_with_exclusions-Pushes}

abbrev empty : Table
empty = record { excl_table = λ _. record { e_start = 0; e_end = 0 }; entries = 0 }

-- 100 .. 200 and 300 .. 400
abbrev two : Table
two = record {
  excl_table = λ i.
      if ltb i 1
      then record { e_start = 100; e_end = 200 }
      else record { e_start = 300; e_end = 400 };
  entries = 2;
}

two-IsSorted : IsSorted two
two-IsSorted = record {
  few = omega arith;
  proper = λ i l. ground arith;
  ascending = λ i j l m. ground arith;
}

abbrev exclude_run : Outcome (ℕ × Option ℕ × List Range)
exclude_run = exclude_static_roots empty 305 397 >>= λ t. exclude_static_roots t 104 200 >>= λ u.
    exclude_static_roots u 200 208 >>= λ v. next_exclusion v 208 >>= λ next.
    push_conditional_with_exclusions v 150 500 >>= λ pushed. done (v.entries, next, pushed)

excludes : exclude_run ≡ done (3, some 2, (208, 304) ∷ (400, 500) ∷ [])
unfolding exclude_static_roots next_exclusion push_conditional_with_exclusions write
excludes = refl

overlap : exclude_static_roots two 190 250 ≡ abort
unfolding exclude_static_roots write
overlap = refl

next_exclusion-IsNext_example : Returns (next_exclusion two 250) (IsNext two 250)
next_exclusion-IsNext_example = next_exclusion-IsNext two two-IsSorted 250

exclude_static_roots_inner-Adds_example :
    (((p : ℕ) → 220 ≤ p → p < 300 → Excludes two p → ⊥)
      → two.entries < max_exclusions
      → Returns (exclude_static_roots_inner two 220 300) (Adds two 220 300))
    × ((p : ℕ)
        → 220 ≤ p
        → p < 300
        → Excludes two p
        → exclude_static_roots_inner two 220 300 ≡ abort)
exclude_static_roots_inner-Adds_example =
    exclude_static_roots_inner-Adds two two-IsSorted 220 300 (omega arith)

push_conditional_with_exclusions-Pushes_example :
    Returns (push_conditional_with_exclusions two 150 500) (Pushes two 500 150)
push_conditional_with_exclusions-Pushes_example =
    push_conditional_with_exclusions-Pushes two two-IsSorted 500 150
