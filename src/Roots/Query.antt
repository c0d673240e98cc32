-- ===== src/Roots/Query.antt =====
-- Asking whether an address lies in a temporary root: `GC_is_tmp_root`.
use gcutil.Prelude.{
  ℕ, zero, suc, ◌+◌, ◌≤◌, ◌<◌, ◌≡◌, refl, Bool, true, false, arith, ltb, ◌&&◌, Bool-cases, Option,
  none, some, inl, inr, ◌⊎◌,
}
use gcutil.Roots.{Root, Table, inside, find_inside, tmp_root_found, is_tmp_root}
use gcutil.Roots.Valid.{Covers}

-- The answer is the kind of some root that holds the address, or no root holds it.
abbrev pub Answers : Table → ℕ → Bool → Type 0
Answers t p answer =
    ((i : ℕ) × (i < t.n_root_sets)
      × ((t.roots i).r_start ≤ p)
      × (p < (t.roots i).r_end)
      × (answer ≡ (t.roots i).r_tmp))
    ⊎ ((Covers t p → ⊥) × (answer ≡ false))

find_inside-some :
    (rounds i n : ℕ) (roots : ℕ → Root) (p k : ℕ)
    → i + rounds ≡ n
    → find_inside rounds i roots p ≡ some k
    → (k < n) × (inside p (roots k) ≡ true)
unfolding find_inside
find_inside-some zero i n roots p k e h = absurd (cc)
find_inside-some (suc rounds) i n roots p k e h =
    ground (arith, find_inside-some rounds (i + 1) n roots p k)

find_inside-none :
    (rounds i n : ℕ) (roots : ℕ → Root) (p k : ℕ)
    → i + rounds ≡ n
    → find_inside rounds i roots p ≡ none
    → i ≤ k
    → k < n
    → inside p (roots k) ≡ false
unfolding find_inside
find_inside-none zero i n roots p k e h l m = absurd (omega arith)
find_inside-none (suc rounds) i n roots p k e h l m =
    ground (arith, find_inside-none rounds (i + 1) n roots p k)

module _ (t : Table) (p : ℕ) where
  tmp_root_found-Answers :
      (o : Option ℕ)
      → find_inside t.n_root_sets 0 t.roots p ≡ o
      → Answers t p (tmp_root_found t o).0
  unfolding tmp_root_found
  tmp_root_found-Answers none e = inr (
    λ (i, l, lo, hi). ground (arith, find_inside-none t.n_root_sets 0 t.n_root_sets t.roots p i),
    refl,
  )
  tmp_root_found-Answers (some k) e =
      let (l, q) = find_inside-some t.n_root_sets 0 t.n_root_sets t.roots p k (omega arith) e in
      inl (k, l, ground arith, ground arith, refl)

  -- `GC_is_tmp_root` says of an address in some root whether that root is temporary, and no of
  -- an address in no root, whatever root it remembers from an earlier call; it changes only
  -- which root it remembers.
  pub is_tmp_root-Answers :
      Answers t p (is_tmp_root t p).0
      × ((is_tmp_root t p).1 ≡ record t { last_root_set = (is_tmp_root t p).1.last_root_set })
  unfolding is_tmp_root
  is_tmp_root-Answers =
      elim (Bool-cases (ltb t.last_root_set t.n_root_sets && inside p (t.roots t.last_root_set))) [
        | inl cached ↦
            rw cached (inl (t.last_root_set, ground arith, ground arith, ground arith, refl), refl)
        | inr scan ↦ rw scan (tmp_root_found-Answers _ refl, kept _)
      ]
    where
      kept :
          (o : Option ℕ)
          → (tmp_root_found t o).1
            ≡ record t { last_root_set = (tmp_root_found t o).1.last_root_set }
      kept none = unfold tmp_root_found in refl
      kept (some i) = unfold tmp_root_found in refl
