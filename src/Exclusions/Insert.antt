-- ===== src/Exclusions/Insert.antt =====
-- Excluding a range: `GC_exclude_static_roots_inner`.
use gcutil.Prelude.{
  ℕ, zero, suc, ◌+◌, ◌-◌, ◌≤◌, ◌<◌, ◌≡◌, ◌↔◌, ◌⊎◌, refl, if◌then◌else◌, arith, leb, ltb, ltb→lt,
  max, ◌==◌, ◌&&◌, Bool-cases, Option, none, some, inl, inr, abort, Returns, write,
}
use gcutil.Exclusions.{
  Exclusion, Table, max_exclusions, shift_loop, insert_at, extend_backwards, exclude_before,
  exclude_static_roots_inner,
}
use gcutil.Exclusions.Search.{
  IsSorted, IsNext, none_ends, first_ends, next_exclusion-IsNext, starts_ascend,
}

-- An address is excluded.
abbrev pub Excludes : Table → ℕ → Type 0
Excludes t p =
    (i : ℕ) × (i < t.entries) × ((t.excl_table i).e_start ≤ p) × (p < (t.excl_table i).e_end)

shift_loop-get :
    (rounds i : ℕ) (tbl : ℕ → Exclusion) (j : ℕ)
    → rounds ≤ i
    → shift_loop rounds i tbl j ≡ (if ltb (i - rounds) j && leb j i then tbl (j - 1) else tbl j)
unfolding shift_loop write
shift_loop-get zero i tbl j l = ground arith
shift_loop-get (suc rounds) i tbl j l =
    rw (shift_loop-get rounds (i - 1) (write tbl i (tbl (i - 1))) j (omega arith)) (ground arith)

-- Element `j` of the table after the insertion of `x` at `k`.
inserted : (ℕ → Exclusion) → ℕ → Exclusion → ℕ → Exclusion
inserted tbl k x j = if j == k then x else if ltb k j then tbl (j - 1) else tbl j

insert_at-inserted :
    (t : Table) (k start finish j : ℕ)
    → k ≤ t.entries
    → j < t.entries + 1
    → (insert_at t k start finish).excl_table j
      ≡ inserted t.excl_table k (record { e_start = start; e_end = finish }) j
unfolding insert_at inserted write
insert_at-inserted t k start finish j l m =
    rw (shift_loop-get (t.entries - k) t.entries t.excl_table j (omega arith)) (ground arith)

-- What an exclusion does to the table.
abbrev pub Adds : Table → ℕ → ℕ → Table → Type 0
Adds t start finish t' =
    IsSorted t' × ((p : ℕ) → Excludes t' p ↔ (Excludes t p ⊎ ((start ≤ p) × (p < finish))))

module _ (t : Table) (s : IsSorted t) (start finish : ℕ) (o : start < finish) where
  insert_at-Adds :
      (k : ℕ)
      → k ≤ t.entries
      → t.entries < max_exclusions
      → ((i : ℕ) → i < k → (t.excl_table i).e_end ≤ start)
      → ((i : ℕ) → k ≤ i → i < t.entries → finish ≤ (t.excl_table i).e_start)
      → Adds t start finish (insert_at t k start finish)
  insert_at-Adds k l room below above = (
    record {
      few = omega (arith, entries);
      proper = λ i m.
          ground (arith, get i (omega (arith, entries)), s.proper i, s.proper (i - 1), o, entries);
      ascending = λ i j m n. ground (
        arith,
        entries,
        get i (omega (arith, entries)),
        get j (omega (arith, entries)),
        s.ascending i j,
        s.ascending i (j - 1),
        s.ascending (i - 1) (j - 1),
        below i,
        above (j - 1),
      );
    },
    λ p. (forth p, back p),
  )
    where
      entries : (insert_at t k start finish).entries ≡ t.entries + 1
      entries = unfold insert_at in refl

      get :
          (j : ℕ)
          → j < t.entries + 1
          → (insert_at t k start finish).excl_table j ≡ (
              if j == k
              then record { e_start = start; e_end = finish }
              else if ltb k j
              then t.excl_table (j - 1)
              else t.excl_table j)
      get j m = unfold inserted in insert_at-inserted t k start finish j l m

      forth :
          (p : ℕ)
          → Excludes (insert_at t k start finish) p
          → Excludes t p ⊎ ((start ≤ p) × (p < finish))
      forth p (i, m, lo, hi) = elim (Bool-cases (i == k)) [
        | inl same ↦ inr (
          ground (arith, get i (omega (arith, entries))),
          ground (arith, get i (omega (arith, entries))),
        )
        | inr other ↦ elim (Bool-cases (ltb k i)) [
          | inl after ↦ inl (
            i - 1,
            ground (arith, entries),
            ground (arith, get i (omega (arith, entries))),
            ground (arith, get i (omega (arith, entries))),
          )
          | inr before ↦ inl (
            i,
            ground arith,
            ground (arith, get i (omega (arith, entries))),
            ground (arith, get i (omega (arith, entries))),
          )
        ]
      ]

      back :
          (p : ℕ)
          → Excludes t p ⊎ ((start ≤ p) × (p < finish))
          → Excludes (insert_at t k start finish) p
      back p (inr (lo, hi)) = (
        k,
        omega (arith, entries),
        ground (arith, get k (omega arith)),
        ground (arith, get k (omega arith)),
      )
      back p (inl (i, m, lo, hi)) = elim (Bool-cases (ltb i k)) [
        | inl before ↦ (
          i,
          omega (arith, entries),
          ground (arith, get i (omega arith)),
          ground (arith, get i (omega arith)),
        )
        | inr after ↦ (
          i + 1,
          omega (arith, entries),
          ground (arith, get (i + 1) (omega arith)),
          ground (arith, get (i + 1) (omega arith)),
        )
      ]

  extend_backwards-Adds :
      (k : ℕ)
      → k < t.entries
      → (t.excl_table k).e_start ≡ finish
      → ((i : ℕ) → i < k → (t.excl_table i).e_end ≤ start)
      → Adds t start finish (extend_backwards t k start)
  unfolding extend_backwards write
  extend_backwards-Adds k l e below = (
    record {
      few = s.few;
      proper = λ i m. ground (arith, s.proper i, o);
      ascending = λ i j m n. ground (arith, s.ascending i j m n, below i);
    },
    λ p. (
      λ (i, m, lo, hi). elim (Bool-cases (i == k && ltb p finish)) [
        | inl new ↦ inr (ground arith, ground arith)
        | inr old ↦ inl (i, m, ground arith, ground arith)
      ],
      elim [
        | inl (i, m, lo, hi) ↦ (i, m, ground arith, ground arith)
        | inr (lo, hi) ↦ (k, l, ground arith, ground (arith, s.proper k l))
      ],
    ),
  )

  -- No excluded range meets the new one.
  abbrev IsApart : Type 0
  IsApart = (p : ℕ) → start ≤ p → p < finish → Excludes t p → ⊥

  exclude_before-Adds :
      (next : Option ℕ)
      → IsNext t start next
      → IsApart
      → t.entries < max_exclusions
      → Returns (exclude_before t next start finish) (Adds t start finish)
  unfolding exclude_before
  exclude_before-Adds none (none_ends all) apart room = (
    insert_at t t.entries start finish,
    ground arith,
    insert_at-Adds t.entries (omega arith) room all (λ i m n. absurd (omega arith)),
  )
  exclude_before-Adds (some next) (first_ends bound behind below) apart room =
      let clear : finish ≤ (t.excl_table next).e_start =
        elim (Bool-cases (leb finish (t.excl_table next).e_start)) [
          | inl fits ↦ ground arith
          | inr meets ↦
              let q : ℕ = max start (t.excl_table next).e_start in
              absurd (
                apart q (omega arith) (ground (arith, s.proper next bound))
                  (next, bound, omega arith, ground (arith, s.proper next bound)))
        ] in
      elim (Bool-cases ((t.excl_table next).e_start == finish)) [
        | inl touch ↦ (
          extend_backwards t next start,
          ground arith,
          extend_backwards-Adds next bound (ground arith) below,
        )
        | inr gap ↦ (
          insert_at t next start finish,
          ground arith,
          insert_at-Adds next (omega arith) room below
              (λ i m n. omega (arith, starts_ascend t s next i m n)),
        )
      ]

  -- A new range that meets an excluded one is refused.
  exclude_before-abort :
      (next : Option ℕ) (p : ℕ)
      → IsNext t start next
      → start ≤ p
      → p < finish
      → Excludes t p
      → exclude_before t next start finish ≡ abort
  unfolding exclude_before
  exclude_before-abort none p (none_ends all) lo hi (i, m, lo', hi') =
      absurd (omega (arith, all i m))
  exclude_before-abort (some next) p (first_ends bound behind below) lo hi (i, m, lo', hi') =
      let later : next ≤ i = elim (Bool-cases (ltb i next)) [
        | inl before ↦ absurd (omega (arith, below i (ltb→lt _ _ before)))
        | inr after ↦ ground arith
      ] in
      let first = starts_ascend t s next i later m in ground arith

  -- In a sorted table with room for it, a range that meets no excluded one is added: the table
  -- stays sorted, and excludes exactly the new range besides what it excluded. A range that
  -- meets an excluded one at some address is refused: in a sorted table the check for overlaps,
  -- which the code calls incomplete, misses none.
  pub exclude_static_roots_inner-Adds :
      (IsApart
        → t.entries < max_exclusions
        → Returns (exclude_static_roots_inner t start finish) (Adds t start finish))
      × ((p : ℕ)
          → start ≤ p
          → p < finish
          → Excludes t p
          → exclude_static_roots_inner t start finish ≡ abort)
  unfolding exclude_static_roots_inner
  exclude_static_roots_inner-Adds =
      let (next, run, is_next) = next_exclusion-IsNext t s start in
      (
        λ apart room. rw run (exclude_before-Adds next is_next apart room),
        λ p lo hi meets. rw run (exclude_before-abort next p is_next lo hi meets),
      )
