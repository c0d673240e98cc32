-- ===== src/Roots/Valid.antt =====
-- The invariant of the table of static roots, and which addresses the table covers.
use native.Mathlib.Numerals.{add-one}
use gcutil.Prelude.{
  ℕ, zero, suc, ◌+◌, ◌^◌, ◌%◌, ◌≤◌, ◌<◌, ◌≡◌, refl, ap, arith, word_add, word_sub, ◌∙◌,
}
use gcutil.Roots.{Root, Table, max_root_sets, size_loop, compute_root_size}
use gcutil.Roots.Index.{IsIndexed}
use gcutil.Roots.Weigh.{weigh, size_of}

pub record IsValid (t : Table) : Type 0 where
  pub few : t.n_root_sets ≤ max_root_sets
  pub ordered : (i : ℕ) → i < t.n_root_sets → (t.roots i).r_start < (t.roots i).r_end
  pub bounded : (i : ℕ) → i < t.n_root_sets → (t.roots i).r_end < 2 ^ 64
  pub sized : t.root_size ≡ weigh size_of t.roots t.n_root_sets % 2 ^ 64
  pub indexed : IsIndexed t

-- An address lies in one of the roots.
abbrev pub Covers : Table → ℕ → Type 0
Covers t p = (i : ℕ) × (i < t.n_root_sets) × ((t.roots i).r_start ≤ p) × (p < (t.roots i).r_end)

word_add-weigh :
    (i : ℕ) (roots : ℕ → Root) (size : ℕ)
    → (roots i).r_start < (roots i).r_end
    → (roots i).r_end < 2 ^ 64
    → size ≡ weigh size_of roots i % 2 ^ 64
    → word_add size (word_sub (roots i).r_end (roots i).r_start)
      ≡ weigh size_of roots (i + 1) % 2 ^ 64
unfolding weigh
word_add-weigh i roots size o b s = rw add-one (omega arith)

size_loop-weigh :
    (rounds i n : ℕ) (roots : ℕ → Root) (size : ℕ)
    → i + rounds ≡ n
    → ((j : ℕ) → j < n → (roots j).r_start < (roots j).r_end)
    → ((j : ℕ) → j < n → (roots j).r_end < 2 ^ 64)
    → size ≡ weigh size_of roots i % 2 ^ 64
    → size_loop rounds i roots size ≡ weigh size_of roots n % 2 ^ 64
unfolding size_loop weigh
size_loop-weigh zero i n roots size e o b s =
    let e' : i ≡ n = omega arith in s ∙ ap (λ k. weigh size_of roots k % 2 ^ 64) e'
size_loop-weigh (suc rounds) i n roots size e o b s =
    size_loop-weigh rounds (i + 1) n roots _ (omega arith) o b
      (word_add-weigh i roots size (o i (omega arith)) (b i (omega arith)) s)

-- In a valid table `GC_root_size` is what `GC_compute_root_size` computes.
pub root_size-compute_root_size : (t : Table) → IsValid t → t.root_size ≡ compute_root_size t
unfolding compute_root_size weigh
root_size-compute_root_size t v =
    let c =
      size_loop-weigh t.n_root_sets 0 t.n_root_sets t.roots 0 (omega arith) v.ordered v.bounded
        refl in
    omega (arith, v.sized, c)
