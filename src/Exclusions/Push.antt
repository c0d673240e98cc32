-- ===== src/Exclusions/Push.antt =====
-- Marking around the exclusions: `GC_push_conditional_with_exclusions`.
use gcutil.Prelude.{
  ℕ, zero, suc, ◌+◌, ◌≤◌, ◌<◌, ◌≡◌, ◌⊎◌, refl, true, arith, leb, ltb, ltb→lt, leb→le, Bool-cases,
  Option, none, some, inl, inr, Returns, List, [], ◌∷◌,
}
use gcutil.Exclusions.{
  Table, Range, push_range, push_round, push_loop, push_conditional_with_exclusions,
}
use gcutil.Exclusions.Search.{
  IsSorted, IsNext, none_ends, first_ends, next_exclusion-IsNext, ends_ascend, starts_ascend,
}
use gcutil.Exclusions.Insert.{Excludes}

-- An address lies in one of the ranges.
abbrev pub InRanges : ℕ → List Range → Type 0
InRanges p [] = ⊥
InRanges p ((b, e) ∷ r) = ((b ≤ p) × (p < e)) ⊎ InRanges p r

-- The ranges are proper and ascend from `lo`, without overlaps.
abbrev pub IsAscendingFrom : ℕ → List Range → Type 0
IsAscendingFrom lo [] = Unit {0}
IsAscendingFrom lo ((b, e) ∷ r) = (lo ≤ b) × (b < e) × IsAscendingFrom e r

-- The ranges hold the addresses from `bottom` to `top` that are not excluded.
pub record Pushes (t : Table) (top bottom : ℕ) (r : List Range) : Type 0 where
  pub ascending : IsAscendingFrom bottom r
  pub sound : (p : ℕ) → InRanges p r → (bottom ≤ p) × (p < top) × (Excludes t p → ⊥)
  pub complete : (p : ℕ) → bottom ≤ p → p < top → (Excludes t p → ⊥) → InRanges p r

IsAscendingFrom-mono :
    (lo lo' : ℕ) (r : List Range) → lo ≤ lo' → IsAscendingFrom lo' r → IsAscendingFrom lo r
IsAscendingFrom-mono lo lo' [] l h = tt
IsAscendingFrom-mono lo lo' ((b, e) ∷ r) l (h₁, h₂, h₃) = (omega arith, h₂, h₃)

module _ (t : Table) (s : IsSorted t) (top : ℕ) where
  -- With no exclusion before `top` the whole range is pushed.
  whole-Pushes :
      (bottom : ℕ)
      → bottom < top
      → ((p : ℕ) → bottom ≤ p → p < top → Excludes t p → ⊥)
      → Pushes t top bottom (push_range bottom top [])
  whole-Pushes bottom l free =
      let proper : ltb bottom top ≡ true = ground arith in
      rw proper (record {
        ascending = (omega arith, l, tt);
        sound = λ p. elim [ inl (lo, hi) ↦ (lo, hi, free p lo hi) | inr h ↦ absurd h ];
        complete = λ p lo hi f. inl (lo, hi);
      })

  -- No address between `bottom` and the next exclusion is excluded.
  free_before :
      (bottom next q : ℕ)
      → next < t.entries
      → ((i : ℕ) → i < next → (t.excl_table i).e_end ≤ bottom)
      → bottom ≤ q
      → q < (t.excl_table next).e_start
      → Excludes t q
      → ⊥
  free_before bottom next q bound below lo hi (i, l, lo', hi') = elim (Bool-cases (ltb i next)) [
    | inl before ↦ omega (arith, below i (ltb→lt _ _ before))
    | inr after ↦ let le : next ≤ i = ground arith in omega (arith, starts_ascend t s next i le l)
  ]

  before-Pushes :
      (bottom next : ℕ) (r : List Range)
      → next < t.entries
      → bottom < (t.excl_table next).e_end
      → ((i : ℕ) → i < next → (t.excl_table i).e_end ≤ bottom)
      → (t.excl_table next).e_start < top
      → Pushes t top (t.excl_table next).e_end r
      → Pushes t top bottom (push_range bottom (t.excl_table next).e_start r)
  before-Pushes bottom next r bound behind below l p =
      let start = (t.excl_table next).e_start in
      let end = (t.excl_table next).e_end in
      let later = λ (q : ℕ) (h : InRanges q r).
        let (lo, hi, free) = p.sound q h in
        let all : (bottom ≤ q) × (q < top) × (Excludes t q → ⊥) = (omega arith, hi, free) in all in
      let rest = λ (q : ℕ) (lo : start ≤ q) (hi : q < top) (f : Excludes t q → ⊥).
        p.complete q
          (elim (Bool-cases (ltb q end)) [
            | inl inside ↦ absurd (f (next, bound, lo, ground arith))
            | inr outside ↦ ground arith
          ])
          hi f in
      elim (Bool-cases (ltb bottom start)) [
        | inl gap ↦ rw gap (record {
          ascending = (
            omega arith,
            ltb→lt _ _ gap,
            IsAscendingFrom-mono start end r (omega (arith, s.proper next bound)) p.ascending,
          );
          sound = λ q. elim [
            | inl (lo, hi) ↦ (lo, omega arith, free_before bottom next q bound below lo hi)
            | inr h ↦ later q h
          ];
          complete = λ q lo hi f. elim (Bool-cases (ltb q start)) [
            | inl low ↦ inl (lo, ltb→lt _ _ low)
            | inr high ↦ inr (rest q (ground arith) hi f)
          ];
        })
        | inr no_gap ↦ rw no_gap (record {
          ascending = IsAscendingFrom-mono bottom end r (omega arith) p.ascending;
          sound = later;
          complete = λ q lo hi f. rest q (ground arith) hi f;
        })
      ]

  push_round-Pushes :
      (fuel bottom : ℕ) (next : Option ℕ)
      → IsNext t bottom next
      → bottom < top
      → ((n : ℕ)
          → n < t.entries
          → bottom < (t.excl_table n).e_end
          → Returns
              (push_loop fuel t top (t.excl_table n).e_end)
              (Pushes t top (t.excl_table n).e_end))
      → Returns (push_round t bottom top next (push_loop fuel t top)) (Pushes t top bottom)
  unfolding push_round
  push_round-Pushes fuel bottom none (none_ends all) l rest = (
    push_range bottom top [],
    refl,
    whole-Pushes bottom l (λ p lo hi (i, m, lo', hi'). omega (arith, all i m)),
  )
  push_round-Pushes fuel bottom (some next) (first_ends bound behind below) l rest =
      elim (Bool-cases (leb top (t.excl_table next).e_start)) [
        | inl far ↦ (
          push_range bottom top [],
          rw far,
          whole-Pushes bottom l (λ p lo hi x.
              free_before bottom next p bound below lo (omega (arith, leb→le _ _ far)) x),
        )
        | inr near ↦
            let (r, run, p) = rest next bound behind in
            (
              push_range bottom (t.excl_table next).e_start r,
              rw (near, run),
              before-Pushes bottom next r bound behind below (ground arith) p,
            )
      ]

  push_loop-Pushes :
      (fuel k bottom : ℕ)
      → t.entries + 1 ≤ k + fuel
      → k ≤ t.entries
      → ((i : ℕ) → i < k → (t.excl_table i).e_end ≤ bottom)
      → Returns (push_loop fuel t top bottom) (Pushes t top bottom)
  unfolding push_loop
  push_loop-Pushes zero k bottom f l below = absurd (omega arith)
  push_loop-Pushes (suc fuel) k bottom f l below = elim (Bool-cases (ltb bottom top)) [
    | inr stop ↦ (
      [],
      rw stop,
      record {
        ascending = tt;
        sound = λ p h. absurd h;
        complete = λ p lo hi free. absurd (ground arith);
      },
    )
    | inl more ↦
        let (next, run, is_next) = next_exclusion-IsNext t s bottom in
        let (r, run', p) =
          push_round-Pushes fuel bottom next is_next (ltb→lt _ _ more) (λ n m behind.
            let k_le : k ≤ n = elim (Bool-cases (ltb n k)) [
              | inl before ↦ absurd (omega (arith, below n (ltb→lt _ _ before)))
              | inr after ↦ ground arith
            ] in
            push_loop-Pushes fuel (n + 1) (t.excl_table n).e_end (omega arith) (omega arith)
              (λ i q. ends_ascend t s i n (omega arith) m)) in
        (r, rw (more, run) run', p)
  ]

  -- In a sorted table the loop ends, and the ranges that it pushes hold exactly the addresses
  -- from `bottom` to `top` that are not excluded; they are proper, ascend and do not overlap.
  pub push_conditional_with_exclusions-Pushes :
      (bottom : ℕ) → Returns (push_conditional_with_exclusions t bottom top) (Pushes t top bottom)
  unfolding push_conditional_with_exclusions
  push_conditional_with_exclusions-Pushes bottom =
      push_loop-Pushes (t.entries + 1) 0 bottom (omega arith) (omega arith)
        (λ i l. absurd (omega arith))
