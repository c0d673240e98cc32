-- ===== src/Roots/Remove.antt =====
-- Removing static roots: `GC_remove_tmp_roots` and `GC_remove_roots_inner`.
use gcutil.Prelude.{
  ℕ, zero, suc, ◌+◌, ◌^◌, ◌%◌, ◌≤◌, ◌<◌, ◌≡◌, inl, inr, refl, ap, subst, false, if◌then◌else◌,
  write, arith, ◌∙◌, sym, leb, ltb, ◌&&◌, Bool-cases,
}
use gcutil.Roots.{
  max_root_sets, Root, Table, Test, test_root, is_tmp, lies_in, remove_loop, rebuild_loop,
  rebuild_root_index, rebuild_if_fewer, remove_tmp_roots, remove_roots_inner, add_roots_to_index,
}
use gcutil.Roots.Index.{rebuild_root_index-IsIndexed, rebuild_root_index-n_root_sets}
use gcutil.Roots.Valid.{IsValid}
use gcutil.Roots.Weigh.{Weight, weigh, size_of, weigh_congr, SameRoot}
use gcutil.Roots.Unlisted.{unless, Spares, remove_loop-Spares}

add_roots_to_index-SameRoot :
    (t : Table) (k j : ℕ) → SameRoot ((add_roots_to_index t k).roots j) (t.roots j)
unfolding add_roots_to_index write
add_roots_to_index-SameRoot t k j = ground arith

rebuild_loop-SameRoot :
    (rounds i : ℕ) (t : Table)
    → ((rebuild_loop rounds i t).root_size ≡ t.root_size)
      × ((j : ℕ) → SameRoot ((rebuild_loop rounds i t).roots j) (t.roots j))
unfolding rebuild_loop
rebuild_loop-SameRoot zero i t = (refl, λ j. (refl, refl, refl))
rebuild_loop-SameRoot (suc rounds) i t =
    let (size, same) = rebuild_loop-SameRoot rounds (i + 1) (add_roots_to_index t i) in
    (
      size ∙ kept_size t i,
      λ j.
          let (s₁, e₁, t₁) = same j in
          let (s₂, e₂, t₂) = add_roots_to_index-SameRoot t i j in (s₁ ∙ s₂, e₁ ∙ e₂, t₁ ∙ t₂),
    )
  where
    kept_size : (t : Table) (i : ℕ) → (add_roots_to_index t i).root_size ≡ t.root_size
    kept_size t i = unfold add_roots_to_index in refl

-- A valid table whose index may be stale becomes valid by the rebuild, with the same roots.
module _ (t : Table) where
  rebuild_root_index-SameRoot :
      ((rebuild_root_index t).root_size ≡ t.root_size)
      × ((j : ℕ) → SameRoot ((rebuild_root_index t).roots j) (t.roots j))
  unfolding rebuild_root_index
  rebuild_root_index-SameRoot = rebuild_loop-SameRoot t.n_root_sets 0 _

  rebuild_root_index-weigh :
      (f : Weight) (k : ℕ) → weigh f (rebuild_root_index t).roots k ≡ weigh f t.roots k
  rebuild_root_index-weigh f k =
      weigh_congr f (rebuild_root_index t).roots t.roots k
        λ i l. let (s, e, tmp) = rebuild_root_index-SameRoot.1 i in ground arith

-- The table before the index is put right again.
record IsStale (t : Table) : Type 0 where
  few : t.n_root_sets ≤ max_root_sets
  ordered : (i : ℕ) → i < t.n_root_sets → (t.roots i).r_start < (t.roots i).r_end
  bounded : (i : ℕ) → i < t.n_root_sets → (t.roots i).r_end < 2 ^ 64
  sized : t.root_size ≡ weigh size_of t.roots t.n_root_sets % 2 ^ 64

rebuild_root_index-IsValid : (t : Table) → IsStale t → IsValid (rebuild_root_index t)
rebuild_root_index-IsValid t s =
    let n = rebuild_root_index-n_root_sets t in
    let (size, same) = rebuild_root_index-SameRoot t in
    record {
      few = omega (arith, s.few, n);
      ordered = λ i l. let (a, b, c) = same i in omega (arith, s.ordered i (omega (arith, n)));
      bounded = λ i l. let (a, b, c) = same i in omega (arith, s.bounded i (omega (arith, n)));
      sized =
          size
          ∙ s.sized
          ∙ ap (λ m. m % 2 ^ 64) (sym (rebuild_root_index-weigh t size_of t.n_root_sets))
          ∙ ap (λ k. weigh size_of (rebuild_root_index t).roots k % 2 ^ 64) (sym n);
      indexed = rebuild_root_index-IsIndexed t;
    }

weigh-unless :
    (test : Test) (f : Weight) (roots : ℕ → Root) (k : ℕ)
    → ((j : ℕ) → j < k → test_root test (roots j) ≡ false)
    → weigh (unless test f) roots k ≡ weigh f roots k
unfolding weigh
weigh-unless test f roots zero none_left = refl
weigh-unless test f roots (suc k) none_left =
    let rest = weigh-unless test f roots k (λ j l. none_left j (omega arith)) in
    rw (rest, none_left k (omega arith))

module _ (test : Test) (t : Table) (v : IsValid t) where
  removed : Table
  removed = rebuild_if_fewer t.n_root_sets (remove_loop test t.n_root_sets 0 t)

  spares : Spares test t (remove_loop test t.n_root_sets 0 t)
  spares =
      remove_loop-Spares test t.n_root_sets 0 t (omega arith) (omega arith)
        (λ j l. absurd (omega arith))

  spares-IsStale : IsStale (remove_loop test t.n_root_sets 0 t)
  spares-IsStale = record {
    few = omega (arith, v.few, spares.fewer);
    ordered = λ i l. let (k, k_lt, same) = spares.from i l in omega (arith, v.ordered k k_lt);
    bounded = λ i l. let (k, k_lt, same) = spares.from i l in omega (arith, v.bounded k k_lt);
    sized = spares.sized v.ordered v.bounded v.sized;
  }

  removed-Removes :
      IsValid removed
      × ((f : Weight)
          → weigh f removed.roots removed.n_root_sets ≡ weigh (unless test f) t.roots t.n_root_sets)
  unfolding removed rebuild_if_fewer
  removed-Removes =
      let t' = remove_loop test t.n_root_sets 0 t in
      let left = λ (f : Weight).
        sym (weigh-unless test f t'.roots t'.n_root_sets spares.none_left) ∙ spares.kept f in
      elim (Bool-cases (ltb t'.n_root_sets t.n_root_sets)) [
        | inl fewer ↦ rw fewer (
          rebuild_root_index-IsValid t' spares-IsStale,
          λ f.
              ap (weigh f (rebuild_root_index t').roots) (rebuild_root_index-n_root_sets t')
              ∙ rebuild_root_index-weigh t' f t'.n_root_sets
              ∙ left f,
        )
        | inr same ↦
            let e : t' ≡ t = spares.same (omega (arith, spares.fewer, ltb-false same)) in
            rw same (subst IsValid (sym e) v, left)
      ]
    where
      ltb-false : {a b : ℕ} → ltb a b ≡ false → b ≤ a
      ltb-false h = ground arith

-- Removing the roots in a region keeps the table valid, and leaves exactly the roots that do not
-- lie wholly between `b` and `e`: for every weight of a root by its bounds and kind, the roots
-- left weigh what those roots weighed before.
pub remove_roots_inner-weigh :
    (t : Table) (b e : ℕ)
    → IsValid t
    → let t' = remove_roots_inner t b e in
      IsValid t'
      × ((f : Weight)
          → weigh f t'.roots t'.n_root_sets
            ≡ weigh
                (λ r_start r_end r_tmp.
                  if leb b r_start && leb r_end e then 0 else f r_start r_end r_tmp)
                t.roots
                t.n_root_sets)
unfolding remove_roots_inner removed
remove_roots_inner-weigh t b e v = removed-Removes (lies_in b e) t v

-- Removing the temporary roots keeps the table valid, and leaves exactly the roots that are not
-- temporary, each as often as before.
pub remove_tmp_roots-weigh :
    (t : Table)
    → IsValid t
    → let t' = remove_tmp_roots t in
      IsValid t'
      × ((f : Weight)
          → weigh f t'.roots t'.n_root_sets
            ≡ weigh
                (λ r_start r_end r_tmp. if r_tmp then 0 else f r_start r_end r_tmp)
                t.roots
                t.n_root_sets)
unfolding remove_tmp_roots removed
remove_tmp_roots-weigh t v = removed-Removes is_tmp t v
