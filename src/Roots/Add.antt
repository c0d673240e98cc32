-- ===== src/Roots/Add.antt =====
-- Registering a static root: `GC_add_roots_inner` and its branches.
use native.Mathlib.Numerals.{add-one}
use gcutil.Prelude.{
  ℕ, suc, ◌+◌, ◌*◌, ◌^◌, ◌%◌, ◌≤◌, ◌<◌, ◌≡◌, ◌↔◌, ◌⊎◌, inl, inr, refl, ap, subst, Bool, write,
  arith, word_add, word_sub, ◌∙◌, abort, Returns, sym, ptr_align_up, ptr_align_down, Option, some,
  none, leb, ltb, ◌==◌, ◌||◌, not, Bool-cases,
}
use gcutil.Roots.{
  Root, Table, rt_hash, max_root_sets, add_roots_to_index, fill_root, append_root, keep_old,
  extend_old, same_bool, add_at, add_aligned, add_roots_inner,
}
use gcutil.Roots.Index.{
  IsIndexedTo, SameStarts, last_with_congr, last_with, last_start, roots_present-last_start,
  last_start-some, add_roots_to_index-IsIndexedTo,
}
use gcutil.Roots.Valid.{IsValid, Covers}
use gcutil.Roots.Weigh.{weigh, size_of, weigh-write, weigh_congr, SameRoot}

-- A table with the same heads, starts and links has the same index.
IsIndexedTo-keep :
    (t t' : Table) (k : ℕ)
    → ((h : ℕ) → t'.root_index h ≡ t.root_index h)
    → SameStarts k t'.roots t.roots
    → ((i : ℕ) → i < k → (t'.roots i).r_next ≡ (t.roots i).r_next)
    → IsIndexedTo k t
    → IsIndexedTo k t'
IsIndexedTo-keep t t' k heads starts nexts x = record {
  heads = λ h. heads h ∙ x.heads h ∙ sym (same h k (omega arith));
  links = λ i l.
      nexts i l
      ∙ x.links i l
      ∙ ap (λ h. last_with t.roots (rt_hash h) i) (sym (starts i l))
      ∙ sym (same _ i (omega arith));
}
  where
    same : (h j : ℕ) → j ≤ k → last_with t'.roots h j ≡ last_with t.roots h j
    same h j l = last_with_congr h j t'.roots t.roots (λ i m. starts i (omega arith))

-- What an addition of the region from `b` to `e` does to the table.
abbrev pub Adds : Table → ℕ → ℕ → Table → Type 0
Adds t b e t' = IsValid t' × ((p : ℕ) → Covers t' p ↔ (Covers t p ⊎ ((b ≤ p) × (p < e))))

fill_root_below :
    (t : Table) (b e : ℕ) (tmp : Bool) (i : ℕ)
    → i < t.n_root_sets
    → SameRoot ((fill_root t b e tmp).roots i) (t.roots i)
unfolding fill_root add_roots_to_index write
fill_root_below t b e tmp i l = ground arith

fill_root_top :
    (t : Table) (b e : ℕ) (tmp : Bool)
    → let r = (fill_root t b e tmp).roots t.n_root_sets in
      (r.r_start ≡ b) × (r.r_end ≡ e) × (r.r_tmp ≡ tmp)
unfolding fill_root add_roots_to_index write
fill_root_top t b e tmp = ground arith

module _ (t : Table) (v : IsValid t) (b e : ℕ) (tmp : Bool) where
  fill_root-sized :
      b < e
      → e < 2 ^ 64
      → word_add t.root_size (word_sub e b)
        ≡ weigh size_of (fill_root t b e tmp).roots (suc t.n_root_sets) % 2 ^ 64
  unfolding weigh
  fill_root-sized o f =
      let below =
        weigh_congr size_of (fill_root t b e tmp).roots t.roots t.n_root_sets
          (λ i l. let same = fill_root_below t b e tmp i l in omega arith) in
      let top = fill_root_top t b e tmp in omega (arith, below, top, v.sized)

  fill_root-IsIndexedTo : IsIndexedTo (t.n_root_sets + 1) (fill_root t b e tmp)
  unfolding fill_root write
  fill_root-IsIndexedTo =
      let root : Root = record { r_start = b; r_end = e; r_tmp = tmp; r_next = none } in
      let t₀ : Table = record t { roots = write t.roots t.n_root_sets root } in
      let x = add_roots_to_index-IsIndexedTo t.n_root_sets t₀ (
        IsIndexedTo-keep t t₀ t.n_root_sets (λ h. refl) (λ i l. ground arith) (λ i l. ground arith)
          v.indexed) in
      subst (λ k. IsIndexedTo k (fill_root t b e tmp)) (omega arith)
        (record { heads = x.heads; links = x.links })

  pub fill_root-IsValid :
      t.n_root_sets < max_root_sets → b < e → e < 2 ^ 64 → IsValid (fill_root t b e tmp)
  unfolding fill_root add_roots_to_index write
  fill_root-IsValid few o f = record {
    few = omega arith;
    ordered = λ i l. ground (arith, v.ordered i);
    bounded = λ i l. ground (arith, v.bounded i);
    sized = rw add-one (fill_root-sized o f);
    indexed = fill_root-IsIndexedTo;
  }

  fill_root-n_root_sets : (fill_root t b e tmp).n_root_sets ≡ t.n_root_sets + 1
  unfolding fill_root
  fill_root-n_root_sets = refl

  fill_root-Covers : (p : ℕ) → Covers (fill_root t b e tmp) p ↔ (Covers t p ⊎ ((b ≤ p) × (p < e)))
  fill_root-Covers p = (forth, back)
    where
      forth : Covers (fill_root t b e tmp) p → Covers t p ⊎ ((b ≤ p) × (p < e))
      forth (i, l, lo, hi) = elim (Bool-cases (i == t.n_root_sets)) [
        | inl same ↦
            inr (ground (arith, fill_root_top t b e tmp), ground (arith, fill_root_top t b e tmp))
        | inr other ↦
            let l' : i < t.n_root_sets = ground (arith, fill_root-n_root_sets) in
            let same = fill_root_below t b e tmp i l' in inl (i, l', omega arith, omega arith)
      ]

      back : Covers t p ⊎ ((b ≤ p) × (p < e)) → Covers (fill_root t b e tmp) p
      back (inl (i, l, lo, hi)) =
          let same = fill_root_below t b e tmp i l in
          (i, omega (arith, fill_root-n_root_sets), omega arith, omega arith)
      back (inr (lo, hi)) =
          let top = fill_root_top t b e tmp in
          (t.n_root_sets, omega (arith, fill_root-n_root_sets), omega arith, omega arith)

  append_root-Adds :
      t.n_root_sets < max_root_sets
      → b < e
      → e < 2 ^ 64
      → Returns (append_root t b e tmp) (Adds t b e)
  unfolding append_root
  append_root-Adds few o f =
      (fill_root t b e tmp, ground arith, (fill_root-IsValid few o f, fill_root-Covers))

  append_root_full : t.n_root_sets ≡ max_root_sets → append_root t b e tmp ≡ abort
  unfolding append_root
  append_root_full full = ground arith

module _ (t : Table) (v : IsValid t) (i e : ℕ) (tmp : Bool) (l : i < t.n_root_sets) where
  keep_old-Adds : e ≤ (t.roots i).r_end → Adds t (t.roots i).r_start e (keep_old t i tmp)
  unfolding keep_old write
  keep_old-Adds le = (
    record {
      few = v.few;
      ordered = λ j m. ground (arith, v.ordered j);
      bounded = λ j m. ground (arith, v.bounded j);
      sized =
          rw
            (weigh_congr size_of (keep_old t i tmp).roots t.roots t.n_root_sets
              (λ j m. ground arith))
            v.sized;
      indexed =
          IsIndexedTo-keep t _ t.n_root_sets (λ h. refl) (λ j m. ground arith) (λ j m. ground arith)
            v.indexed;
    },
    λ p. (
      λ (j, m, lo, hi). inl (j, m, ground arith, ground arith),
      elim [
        | inl (j, m, lo, hi) ↦ (j, m, ground arith, ground arith)
        | inr (lo, hi) ↦ (i, l, ground arith, ground arith)
      ],
    ),
  )

  extend_old-sized :
      (t.roots i).r_end < e
      → e < 2 ^ 64
      → word_add t.root_size (word_sub e (t.roots i).r_end)
        ≡ weigh size_of (extend_old t i e tmp).roots t.n_root_sets % 2 ^ 64
  unfolding extend_old
  extend_old-sized lt f = omega (
    arith,
    v.sized,
    v.ordered i l,
    weigh-write size_of t.roots t.n_root_sets i (record (t.roots i) { r_end = e; r_tmp = tmp }) l,
  )

  extend_old-Adds :
      (t.roots i).r_end < e → e < 2 ^ 64 → Adds t (t.roots i).r_start e (extend_old t i e tmp)
  unfolding extend_old write
  extend_old-Adds lt f = (
    record {
      few = v.few;
      ordered = λ j m. ground (arith, v.ordered j);
      bounded = λ j m. ground (arith, v.bounded j);
      sized = extend_old-sized lt f;
      indexed =
          IsIndexedTo-keep t _ t.n_root_sets (λ h. refl) (λ j m. ground arith) (λ j m. ground arith)
            v.indexed;
    },
    λ p. (
      λ (j, m, lo, hi). elim (Bool-cases (j == i)) [
        | inr other ↦ inl (j, m, ground arith, ground arith)
        | inl same ↦ elim (Bool-cases (ltb p (t.roots i).r_end)) [
          | inl below ↦ inl (i, l, ground arith, ground arith)
          | inr above ↦ inr (ground arith, ground arith)
        ]
      ],
      elim [
        | inl (j, m, lo, hi) ↦ (j, m, ground (arith, v.ordered i), ground (arith, v.ordered i))
        | inr (lo, hi) ↦ (i, l, ground arith, ground arith)
      ],
    ),
  )

module _ (t : Table) (v : IsValid t) (few : t.n_root_sets < max_root_sets) where
  -- Where a temporary region runs on behind a root that stays, only its rest is new.
  rest-Adds :
      (i e : ℕ) (t' : Table)
      → i < t.n_root_sets
      → (t.roots i).r_end < e
      → Adds t (t.roots i).r_end e t'
      → Adds t (t.roots i).r_start e t'
  rest-Adds i e t' l lt (v', c) = (
    v',
    λ p. (
      λ q. elim ((c p).0 q) [
        | inl old ↦ inl old
        | inr (lo, hi) ↦ inr (omega (arith, v.ordered i l), hi)
      ],
      elim [
        | inl old ↦ (c p).1 (inl old)
        | inr (lo, hi) ↦ elim (Bool-cases (ltb p (t.roots i).r_end)) [
          | inl below ↦ (c p).1 (inl (i, l, lo, ground arith))
          | inr above ↦ (c p).1 (inr (ground arith, hi))
        ]
      ],
    ),
  )

  add_at-Adds :
      (o : Option ℕ) (b e : ℕ) (tmp : Bool)
      → ((i : ℕ) → o ≡ some i → (i < t.n_root_sets) × ((t.roots i).r_start ≡ b))
      → b < e
      → e < 2 ^ 64
      → Returns (add_at t o b e tmp) (Adds t b e)
  unfolding add_at
  add_at-Adds none b e tmp found o f = append_root-Adds t v b e tmp few o f
  add_at-Adds (some i) b e tmp found o f =
      let (l, start) = found i refl in
      let to_b = λ (t' : Table) (a : Adds t (t.roots i).r_start e t'). rw start at a in
      elim (Bool-cases (leb e (t.roots i).r_end)) [
        | inl covered ↦
            (keep_old t i tmp, rw covered, to_b _ (keep_old-Adds t v i e tmp l (ground arith)))
        | inr longer ↦ elim (Bool-cases (same_bool (t.roots i).r_tmp tmp || not tmp)) [
          | inl extend ↦ (
            extend_old t i e tmp,
            rw (longer, extend),
            to_b _ (extend_old-Adds t v i e tmp l (ground arith) f),
          )
          | inr split ↦
              let (t', run, a) =
                append_root-Adds t v (t.roots i).r_end e tmp few (ground arith) f in
              (t', rw (longer, split) run, to_b t' (rest-Adds i e t' l (ground arith) a))
        ]
      ]

  add_aligned-Adds :
      (b e : ℕ) (tmp : Bool) → e < 2 ^ 64 → Returns (add_aligned t b e tmp) (Adds t b e)
  unfolding add_aligned
  add_aligned-Adds b e tmp f = elim (Bool-cases (leb e b)) [
    | inl empty ↦ (
      t,
      rw empty,
      (v, λ p. (λ c. inl c, elim [ inl c ↦ c | inr (lo, hi) ↦ absurd (ground arith) ])),
    )
    | inr proper ↦
        let (t', run, a) =
          add_at-Adds (last_start t.roots b t.n_root_sets) b e tmp
            (λ i q. last_start-some t.roots b t.n_root_sets i q) (ground arith) f in
        (t', rw (proper, roots_present-last_start t b v.indexed) run, a)
  ]

  -- If the table has room, then adding the region from `b` to `e` (ends that are addresses, `b`
  -- not within 7 bytes of the end of the address space) returns a valid table, in which a word
  -- of 8 bytes at an aligned address is covered exactly if it was covered before or lies wholly
  -- in the region.
  pub add_roots_inner-Covers :
      (b e : ℕ) (tmp : Bool)
      → b + 7 < 2 ^ 64
      → e < 2 ^ 64
      → Returns (add_roots_inner t b e tmp) (λ t'.
        IsValid t'
        × ((w : ℕ) → Covers t' (8 * w) ↔ (Covers t (8 * w) ⊎ ((b ≤ 8 * w) × (8 * w + 8 ≤ e)))))
  unfolding add_roots_inner
  add_roots_inner-Covers b e tmp fb fe =
      let (t', run, (v', c)) =
        add_aligned-Adds (ptr_align_up b) (ptr_align_down e) tmp (omega arith) in
      (
        t',
        run,
        (
          v',
          λ w. (
            λ q. elim ((c (8 * w)).0 q) [
              | inl old ↦ inl old
              | inr (lo, hi) ↦ inr (omega arith, omega arith)
            ],
            λ q.
                (c (8 * w)).1
                  (elim q [ inl old ↦ inl old | inr (lo, hi) ↦ inr (omega arith, omega arith) ]),
          ),
        ),
      )
