-- ===== src/Roots/Unlisted.antt =====
-- Taking roots out of the table, before the index is rebuilt: `GC_remove_root_at_pos` and the loop.
use gcutil.Prelude.{
  ℕ, zero, suc, ◌+◌, ◌-◌, ◌^◌, ◌%◌, ◌≤◌, ◌<◌, ◌≡◌, inl, inr, refl, ap, true, false, if◌then◌else◌,
  write, arith, ◌∙◌, ltb, ◌==◌, Bool-cases, ==_iff,
}
use gcutil.Roots.{Root, Table, Test, test_root, remove_root_at_pos, remove_loop}
use gcutil.Roots.Weigh.{Weight, weight, weigh, size_of, weigh-write, weigh-write_above, SameRoot}

-- The weight of the roots that a test spares.
abbrev pub unless : Test → Weight → Weight
unless test f b e tmp = if test b e tmp then 0 else f b e tmp

weigh_move_down :
    (f : Weight) (roots : ℕ → Root) (i m : ℕ) (r : Root)
    → i ≤ m
    → weight f r ≡ weight f (roots m)
    → weigh f (write roots i r) m + weight f (roots i) ≡ weigh f roots (suc m)
unfolding weigh
weigh_move_down f roots i m r l e = elim (Bool-cases (i == m)) [
  | inl same ↦
      let above = weigh-write_above f roots m i r (ground arith) in
      let top : weight f (roots i) ≡ weight f (roots m) =
        ap (λ j. weight f (roots j)) ((==_iff i m).0 same) in
      omega arith
  | inr below ↦ let i_lt_m : i < m = ground arith in omega (arith, weigh-write f roots m i r i_lt_m)
]

remove_root_at_pos-weigh :
    (t : Table) (i : ℕ) (f : Weight)
    → i < t.n_root_sets
    → weigh f (remove_root_at_pos t i).roots (t.n_root_sets - 1) + weight f (t.roots i)
      ≡ weigh f t.roots t.n_root_sets
unfolding remove_root_at_pos
remove_root_at_pos-weigh t i f l =
    weigh_move_down f t.roots i (t.n_root_sets - 1) _ (omega arith) refl
    ∙ ap (weigh f t.roots) (omega arith)

-- What is left after the removals: the roots that fail the test, each as often as before.
pub record Spares (test : Test) (t t' : Table) : Type 0 where
  pub fewer : t'.n_root_sets ≤ t.n_root_sets
  pub same : t'.n_root_sets ≡ t.n_root_sets → t' ≡ t
  pub none_left : (j : ℕ) → j < t'.n_root_sets → test_root test (t'.roots j) ≡ false
  pub from :
      (j : ℕ)
      → j < t'.n_root_sets
      → (k : ℕ) × (k < t.n_root_sets) × SameRoot (t'.roots j) (t.roots k)
  pub kept :
      (f : Weight)
      → weigh (unless test f) t'.roots t'.n_root_sets ≡ weigh (unless test f) t.roots t.n_root_sets
  pub sized :
      ((j : ℕ) → j < t.n_root_sets → (t.roots j).r_start < (t.roots j).r_end)
      → ((j : ℕ) → j < t.n_root_sets → (t.roots j).r_end < 2 ^ 64)
      → t.root_size ≡ weigh size_of t.roots t.n_root_sets % 2 ^ 64
      → t'.root_size ≡ weigh size_of t'.roots t'.n_root_sets % 2 ^ 64

remove_root_at_pos-from :
    (t : Table) (i j : ℕ)
    → i < t.n_root_sets
    → j < t.n_root_sets - 1
    → (k : ℕ) × (k < t.n_root_sets) × SameRoot ((remove_root_at_pos t i).roots j) (t.roots k)
unfolding remove_root_at_pos write
remove_root_at_pos-from t i j l m =
    (if j == i then t.n_root_sets - 1 else j, ground arith, ground arith)

remove_root_at_pos-n_root_sets :
    (t : Table) (i : ℕ) → (remove_root_at_pos t i).n_root_sets ≡ t.n_root_sets - 1
unfolding remove_root_at_pos
remove_root_at_pos-n_root_sets t i = refl

remove_root_at_pos-sized :
    (t : Table) (i : ℕ)
    → i < t.n_root_sets
    → (t.roots i).r_start < (t.roots i).r_end
    → (t.roots i).r_end < 2 ^ 64
    → t.root_size ≡ weigh size_of t.roots t.n_root_sets % 2 ^ 64
    → (remove_root_at_pos t i).root_size
      ≡ weigh size_of (remove_root_at_pos t i).roots (remove_root_at_pos t i).n_root_sets % 2 ^ 64
remove_root_at_pos-sized t i l o b s =
    let w = remove_root_at_pos-weigh t i size_of l in unfold remove_root_at_pos in omega arith

module _ (test : Test) where
  Spares-refl :
      (t : Table)
      → ((j : ℕ) → j < t.n_root_sets → test_root test (t.roots j) ≡ false)
      → Spares test t t
  Spares-refl t none_left = record {
    fewer = omega arith;
    same = λ e. refl;
    none_left = none_left;
    from = λ j l. (j, l, (refl, refl, refl));
    kept = λ f. refl;
    sized = λ o b s. s;
  }

  remove_root_at_pos_below :
      (t : Table) (i j : ℕ)
      → j < i
      → test_root test ((remove_root_at_pos t i).roots j) ≡ test_root test (t.roots j)
  unfolding remove_root_at_pos write
  remove_root_at_pos_below t i j l = ground arith

  Spares-step :
      (t : Table) (i : ℕ) {t' : Table}
      → test_root test (t.roots i) ≡ true
      → i < t.n_root_sets
      → Spares test (remove_root_at_pos t i) t'
      → Spares test t t'
  Spares-step t i {t'} hit l s = record {
    fewer = omega (arith, s.fewer, n₁);
    same = λ e. absurd (omega (arith, s.fewer, n₁));
    none_left = s.none_left;
    from = λ j m.
        let (k, k_lt, (e₁, e₂, e₃)) = s.from j m in
        let (k', k'_lt, (f₁, f₂, f₃)) = from₁ k k_lt in (k', k'_lt, (e₁ ∙ f₁, e₂ ∙ f₂, e₃ ∙ f₃));
    kept = λ f.
        let w = remove_root_at_pos-weigh t i (unless test f) l in
        let here : weight (unless test f) (t.roots i) ≡ 0 = rw hit in
        s.kept f ∙ ap (weigh (unless test f) (remove_root_at_pos t i).roots) n₁ ∙ omega arith;
    sized = λ o b size.
        s.sized (λ j m. let (k, k_lt, same) = from₁ j m in omega (arith, o k k_lt))
          (λ j m. let (k, k_lt, same) = from₁ j m in omega (arith, b k k_lt))
          (remove_root_at_pos-sized t i l (o i l) (b i l) size);
  }
    where
      n₁ : (remove_root_at_pos t i).n_root_sets ≡ t.n_root_sets - 1
      n₁ = remove_root_at_pos-n_root_sets t i

      from₁ :
          (j : ℕ)
          → j < (remove_root_at_pos t i).n_root_sets
          → (k : ℕ) × (k < t.n_root_sets) × SameRoot ((remove_root_at_pos t i).roots j) (t.roots k)
      from₁ j m = remove_root_at_pos-from t i j l (omega (arith, n₁))

  pub remove_loop-Spares :
      (fuel i : ℕ) (t : Table)
      → t.n_root_sets ≤ i + fuel
      → i ≤ t.n_root_sets
      → ((j : ℕ) → j < i → test_root test (t.roots j) ≡ false)
      → Spares test t (remove_loop test fuel i t)
  unfolding remove_loop
  remove_loop-Spares zero i t enough le past = record {
    fewer = omega arith;
    same = λ e. refl;
    none_left = λ j l. past j (omega arith);
    from = λ j l. (j, l, (refl, refl, refl));
    kept = λ f. refl;
    sized = λ o b s. s;
  }
  remove_loop-Spares (suc fuel) i t enough le past = elim (Bool-cases (ltb i t.n_root_sets)) [
    | inr at_end ↦ rw at_end (Spares-refl t (λ j l. past j (ground arith)))
    | inl more ↦ elim (Bool-cases (test_root test (t.roots i))) [
      | inl hit ↦
          let i_lt_n : i < t.n_root_sets = ground arith in
          rw (more, hit)
            (Spares-step t i hit i_lt_n (
              remove_loop-Spares fuel i (remove_root_at_pos t i)
                (rw (remove_root_at_pos-n_root_sets t i) (omega arith))
                (rw (remove_root_at_pos-n_root_sets t i) (omega arith))
                (λ j l. remove_root_at_pos_below t i j l ∙ past j l)))
      | inr miss ↦
          let i_lt_n : i < t.n_root_sets = ground arith in
          rw (more, miss)
            (remove_loop-Spares fuel (i + 1) t (omega arith) (omega arith)
              (λ j l. ground (arith, past j)))
    ]
  ]
