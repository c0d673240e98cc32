-- ===== src/Roots/Tests.antt =====
-- Runs of the static roots on small tables, and the theorems at them.
use gcutil.Prelude.{
  ℕ, ◌+◌, ◌*◌, ◌≤◌, ◌<◌, ◌≡◌, ◌↔◌, ◌⊎◌, refl, Bool, true, false, if◌then◌else◌, arith, leb, ◌&&◌,
  none, some, Option, done, Returns, Outcome, ◌>>=◌, write,
}
use gcutil.Roots.{
  Table, rt_hash, fill_root, roots_present, add_roots_inner, add_roots, compute_root_size,
  is_tmp_root, remove_roots_inner, remove_tmp_roots, clear_roots,
}
use gcutil.Roots.Valid.{IsValid, Covers}
use gcutil.Roots.Run.{Reaches, start, after, added, removed_tmp, Reaches-compute_root_size}
use gcutil.Roots.Weigh.{Weight, weigh}
use gcutil.Roots.Add.{fill_root-IsValid, add_roots_inner-Covers}
use gcutil.Roots.Index.{last_start, last_with, roots_present-last_start}
use gcutil.Roots.Remove.{remove_roots_inner-weigh, remove_tmp_roots-weigh}
use gcutil.Roots.Query.{Answers, is_tmp_root-Answers}

abbrev empty : Table
empty = record {
  roots = λ _. record { r_start = 0; r_end = 0; r_tmp = false; r_next = none };
  n_root_sets = 0;
  root_size = 0;
  root_index = λ _. none;
  last_root_set = 0;
  roots_were_cleared = false;
}

empty-IsValid : IsValid empty
unfolding weigh last_with
empty-IsValid = record {
  few = omega arith;
  ordered = λ i l. absurd (omega arith);
  bounded = λ i l. absurd (omega arith);
  sized = refl;
  indexed = record { heads = λ h. refl; links = λ i l. absurd (omega arith) };
}

-- One temporary root.
abbrev one_root : Table
one_root = fill_root empty 4096 8192 true

one_root-IsValid : IsValid one_root
one_root-IsValid =
    fill_root-IsValid empty empty-IsValid 4096 8192 true (omega arith) (omega arith) (omega arith)

one_root_few : one_root.n_root_sets < 2048
unfolding fill_root
one_root_few = omega arith

-- The region runs on behind the root and is to stay, so the root is extended and stays.
abbrev extend_run : Outcome (ℕ × ℕ × ℕ × Bool)
extend_run = add_roots_inner one_root 4096 12290 false >>= λ t.
    done (t.n_root_sets, t.root_size, compute_root_size t, (is_tmp_root t 5000).0)

extends : extend_run ≡ done (1, 8192, 8192, false)
unfolding fill_root add_roots_inner compute_root_size is_tmp_root write rt_hash
extends = refl

-- Two roots in one table, the first of which is removed.
abbrev remove_run : Outcome (Option ℕ × ℕ × ℕ)
remove_run = add_roots one_root 16384 20480 >>= λ t.
    roots_present (remove_roots_inner t 4000 9000) 16384 >>= λ p.
    done (p, (remove_roots_inner t 4000 9000).root_size, (remove_tmp_roots t).n_root_sets)

removes : remove_run ≡ done (some 0, 4096, 1)
unfolding fill_root add_roots roots_present remove_roots_inner remove_tmp_roots write rt_hash
removes = refl

add_roots_inner-Covers_example : Returns (add_roots_inner one_root 4096 12290 false) (λ t'.
    IsValid t'
    × ((w : ℕ)
        → Covers t' (8 * w) ↔ (Covers one_root (8 * w) ⊎ ((4096 ≤ 8 * w) × (8 * w + 8 ≤ 12290)))))
add_roots_inner-Covers_example =
    add_roots_inner-Covers one_root one_root-IsValid one_root_few 4096 12290 false (omega arith)
      (omega arith)

remove_roots_inner-weigh_example :
    IsValid (remove_roots_inner one_root 4000 9000)
    × ((f : Weight)
        → weigh f
            (remove_roots_inner one_root 4000 9000).roots
            (remove_roots_inner one_root 4000 9000).n_root_sets
          ≡ weigh
              (λ r_start r_end r_tmp.
                if leb 4000 r_start && leb r_end 9000 then 0 else f r_start r_end r_tmp)
              one_root.roots
              one_root.n_root_sets)
remove_roots_inner-weigh_example = remove_roots_inner-weigh one_root 4000 9000 one_root-IsValid

remove_tmp_roots-weigh_example :
    IsValid (remove_tmp_roots one_root)
    × ((f : Weight)
        → weigh f (remove_tmp_roots one_root).roots (remove_tmp_roots one_root).n_root_sets
          ≡ weigh
              (λ r_start r_end r_tmp. if r_tmp then 0 else f r_start r_end r_tmp)
              one_root.roots
              one_root.n_root_sets)
remove_tmp_roots-weigh_example = remove_tmp_roots-weigh one_root one_root-IsValid

-- The table after a clearing, an addition, and the removal of the temporary roots.
abbrev filled : Table
filled = fill_root (clear_roots empty) 4096 8192 false

filled_run : add_roots_inner (clear_roots empty) 4096 8197 false ≡ done filled
unfolding add_roots_inner fill_root clear_roots write rt_hash
filled_run = refl

filled-Reaches : Reaches (clear_roots empty) (remove_tmp_roots filled)
unfolding clear_roots
filled-Reaches =
    after (after start (added 4096 8197 false (omega arith) (omega arith) (omega arith) filled_run))
      (removed_tmp refl)

Reaches-compute_root_size_example :
    (remove_tmp_roots filled).root_size ≡ compute_root_size (remove_tmp_roots filled)
Reaches-compute_root_size_example = Reaches-compute_root_size empty filled-Reaches

roots_present-last_start_example :
    roots_present one_root 4096 ≡ done (last_start one_root.roots 4096 one_root.n_root_sets)
roots_present-last_start_example = roots_present-last_start one_root 4096 one_root-IsValid.indexed

is_tmp_root-Answers_example :
    Answers one_root 5000 (is_tmp_root one_root 5000).0
    × ((is_tmp_root one_root 5000).1
        ≡ record one_root { last_root_set = (is_tmp_root one_root 5000).1.last_root_set })
is_tmp_root-Answers_example = is_tmp_root-Answers one_root 5000
