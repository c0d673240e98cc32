-- ===== src/Exclusions/Search.antt =====
-- The binary search for the next exclusion.
use gcutil.Prelude.{
  ℕ, zero, suc, ◌+◌, ◌-◌, ◌/◌, ◌≤◌, ◌<◌, ◌≡◌, subst, arith, leb, ltb, ◌==◌, Bool-cases, Option,
  none, some, inl, inr, Returns,
}
use gcutil.Exclusions.{Table, max_exclusions, search_loop, next_exclusion}

-- The ranges are proper, in ascending order, and do not overlap.
pub record IsSorted (t : Table) : Type 0 where
  pub few : t.entries ≤ max_exclusions
  pub proper : (i : ℕ) → i < t.entries → (t.excl_table i).e_start < (t.excl_table i).e_end
  pub ascending :
      (i j : ℕ) → i < j → j < t.entries → (t.excl_table i).e_end ≤ (t.excl_table j).e_start

-- The first range that ends behind an address, or none.
pub data IsNext (t : Table) (a : ℕ) : Option ℕ → Type 0 where
  none_ends : ((i : ℕ) → i < t.entries → (t.excl_table i).e_end ≤ a) → IsNext t a none
  first_ends :
      {next : ℕ}
      → next < t.entries
      → a < (t.excl_table next).e_end
      → ((i : ℕ) → i < next → (t.excl_table i).e_end ≤ a)
      → IsNext t a (some next)

module _ (t : Table) (s : IsSorted t) where
  pub ends_ascend :
      (i j : ℕ) → i ≤ j → j < t.entries → (t.excl_table i).e_end ≤ (t.excl_table j).e_end
  ends_ascend i j l m = elim (Bool-cases (i == j)) [
    | inl same ↦ ground arith
    | inr other ↦ let lt : i < j = ground arith in omega (arith, s.ascending i j lt m, s.proper j m)
  ]

  pub starts_ascend :
      (i j : ℕ) → i ≤ j → j < t.entries → (t.excl_table i).e_start ≤ (t.excl_table j).e_start
  starts_ascend i j l m = elim (Bool-cases (i == j)) [
    | inl same ↦ ground arith
    | inr other ↦
        let lt : i < j = ground arith in
        omega (arith, s.ascending i j lt m, s.proper i (omega arith))
  ]

module _ (t : Table) (s : IsSorted t) (a : ℕ) where
  Finds : ℕ → Type 0
  Finds r =
      (r < t.entries)
      × ((i : ℕ) → i < r → (t.excl_table i).e_end ≤ a)
      × (r + 1 < t.entries → a < (t.excl_table r).e_end)

  -- The table below `low` ends by `a`; behind `a` at `high`, if that is not the last element.
  search_loop-Finds :
      (fuel low high : ℕ)
      → high ≤ low + fuel
      → low ≤ high
      → high < t.entries
      → ((i : ℕ) → i < low → (t.excl_table i).e_end ≤ a)
      → (high + 1 < t.entries → a < (t.excl_table high).e_end)
      → Returns (search_loop fuel t.excl_table a low high) Finds
  unfolding search_loop Finds
  search_loop-Finds zero low high f le bound below last =
      let e : high ≡ low = omega arith in
      (
        low,
        ground arith,
        (omega arith, below, subst (λ h. h + 1 < t.entries → a < (t.excl_table h).e_end) e last),
      )
  search_loop-Finds (suc fuel) low high f le bound below last = elim (Bool-cases (ltb low high)) [
    | inr stop ↦
        let e : high ≡ low = ground arith in
        (
          low,
          rw stop,
          (omega arith, below, subst (λ h. h + 1 < t.entries → a < (t.excl_table h).e_end) e last),
        )
    | inl more ↦
        let mid : ℕ = (low + high) / 2 in
        let lt : low < high = ground arith in
        elim (Bool-cases (leb (t.excl_table mid).e_end a)) [
          | inl past ↦
              let at_mid : (t.excl_table mid).e_end ≤ a = ground arith in
              let (r, run, p) =
                search_loop-Finds fuel (mid + 1) high (omega arith) (omega arith) bound
                  (λ i l. omega (arith, ends_ascend t s i mid (omega arith) (omega arith))) last in
              (r, rw (more, past) run, p)
          | inr before ↦
              let (r, run, p) =
                search_loop-Finds fuel low mid (omega arith) (omega arith) (omega arith) below
                  (λ l. ground arith) in
              (r, rw (more, before) run, p)
        ]
  ]

  -- The search returns the first range that includes an address not lower than the given one,
  -- and nothing if there is none: in a sorted table `GC_next_exclusion` is right, and it ends.
  pub next_exclusion-IsNext : Returns (next_exclusion t a) (IsNext t a)
  unfolding next_exclusion Finds
  next_exclusion-IsNext = elim (Bool-cases (t.entries == 0)) [
    | inl empty ↦ (none, rw empty, none_ends (λ i l. absurd (ground arith)))
    | inr some_entries ↦
        let (low, run, (bound, below, last)) =
          search_loop-Finds t.entries 0 (t.entries - 1) (omega arith) (omega arith) (ground arith)
            (λ i l. absurd (omega arith)) (λ l. absurd (omega arith)) in
        elim (Bool-cases (leb (t.excl_table low).e_end a)) [
          | inl past ↦ (
            none,
            rw (some_entries, run, past),
            none_ends (λ i l. elim (Bool-cases (ltb i low)) [
              | inl lower ↦ below i (ground arith)
              | inr not_lower ↦ let e : i ≡ low = ground (arith, last) in ground arith
            ]),
          )
          | inr before ↦
              (some low, rw (some_entries, run, before), first_ends bound (ground arith) below)
        ]
  ]
