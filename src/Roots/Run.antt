-- ===== src/Roots/Run.antt =====
-- Sequences of operations on the table of static roots.
use gcutil.Prelude.{ℕ, ◌+◌, ◌<◌, ◌^◌, ◌≡◌, refl, sym, ◌∙◌, subst, Bool, arith, done, done_injective}
use gcutil.Roots.{
  Table, max_root_sets, add_roots_inner, clear_roots, remove_roots_inner, remove_tmp_roots,
  compute_root_size, is_tmp_root,
}
use gcutil.Roots.Add.{add_roots_inner-Covers}
use gcutil.Roots.Index.{last_with}
use gcutil.Roots.Query.{is_tmp_root-Answers}
use gcutil.Roots.Remove.{remove_roots_inner-weigh, remove_tmp_roots-weigh}
use gcutil.Roots.Valid.{IsValid, root_size-compute_root_size}
use gcutil.Roots.Weigh.{weigh}

-- One operation. A region is added to a table with room for a root.
pub data Step (s u : Table) : Type 0 where
  added :
      (b e : ℕ) (tmp : Bool)
      → s.n_root_sets < max_root_sets
      → b + 7 < 2 ^ 64
      → e < 2 ^ 64
      → add_roots_inner s b e tmp ≡ done u
      → Step s u
  removed : (b e : ℕ) → u ≡ remove_roots_inner s b e → Step s u
  removed_tmp : u ≡ remove_tmp_roots s → Step s u
  cleared : u ≡ clear_roots s → Step s u
  queried : (p : ℕ) → u ≡ (is_tmp_root s p).1 → Step s u

-- The tables that operations lead to.
pub data Reaches (s : Table) : Table → Type 0 where
  start : Reaches s s
  after : {t u : Table} → Reaches s t → Step t u → Reaches s u

clear_roots-IsValid : (t : Table) → IsValid (clear_roots t)
unfolding clear_roots weigh last_with
clear_roots-IsValid t = record {
  few = omega arith;
  ordered = λ i l. absurd (omega arith);
  bounded = λ i l. absurd (omega arith);
  sized = refl;
  indexed = record { heads = λ h. refl; links = λ i l. absurd (omega arith) };
}

remember-IsValid : (t : Table) (k : ℕ) → IsValid t → IsValid (record t { last_root_set = k })
remember-IsValid t k v = record {
  few = v.few;
  ordered = v.ordered;
  bounded = v.bounded;
  sized = v.sized;
  indexed = record { heads = v.indexed.heads; links = v.indexed.links };
}

Step-IsValid : {s u : Table} → Step s u → IsValid s → IsValid u
Step-IsValid {s} {u} (added b e tmp few lo hi run) v =
    let (t', run', (v', covers)) = add_roots_inner-Covers s v few b e tmp lo hi in
    subst IsValid (done_injective (sym run' ∙ run)) v'
Step-IsValid {s} {u} (removed b e same) v =
    subst IsValid (sym same) (remove_roots_inner-weigh s b e v).0
Step-IsValid {s} {u} (removed_tmp same) v = subst IsValid (sym same) (remove_tmp_roots-weigh s v).0
Step-IsValid {s} {u} (cleared same) v = subst IsValid (sym same) (clear_roots-IsValid s)
Step-IsValid {s} {u} (queried p same) v =
    subst IsValid (sym ((is_tmp_root-Answers s p).1) ∙ sym same)
      (remember-IsValid s (is_tmp_root s p).1.last_root_set v)

Reaches-IsValid : {s u : Table} → Reaches s u → IsValid s → IsValid u
Reaches-IsValid start v = v
Reaches-IsValid (after r e) v = Step-IsValid e (Reaches-IsValid r v)

-- After `GC_clear_roots`, on any table, and any sequence of additions to a table with room (of
-- regions whose ends are addresses), removals by a region or of the temporary roots, clearings and
-- queries, the `GC_root_size` that these operations have maintained is what
-- `GC_compute_root_size` computes from the table.
pub Reaches-compute_root_size :
    (t : Table) {u : Table} → Reaches (clear_roots t) u → u.root_size ≡ compute_root_size u
Reaches-compute_root_size t {u} r =
    root_size-compute_root_size u (Reaches-IsValid r (clear_roots-IsValid t))
