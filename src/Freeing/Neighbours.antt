-- ===== src/Freeing/Neighbours.antt =====
-- The search for the block that ends where another starts.
use gcutil.Prelude.{
  ℕ, ◌+◌, ◌-◌, ◌*◌, ◌≤◌, ◌<◌, ◌≡◌, ◌≢◌, refl, sym, ap, ◌∙◌, subst, true, false, ltb, ◌==◌, ==_iff,
  if◌then◌else◌, arith, Bool-cases, Option-cases, inl, inr, Option, none, some, done, Returns,
}
use gcutil.FreeBlocks.{hblk_size}
use gcutil.Headers.{Slot, nil, forward, header, is_nil, prev_block}
use gcutil.Headers.Counts.{count_to}
use gcutil.Headers.Start.{IsLarge, find_starting_hblk_lem}
use gcutil.Headers.Walk.{is_header}
use gcutil.Headers.Back.{IsPrevBlock, prev_block-IsPrevBlock}
use gcutil.Headers.Laid.{IsLaid, end_of, IsLaid-IsBacked}
use gcutil.Freeing.{Arena, hdr_at, get_block_ending_at, free_block_ending_at}

-- `r` is the block that ends where `h` starts, if there is one.
abbrev pub EndsAt : Arena → ℕ → Option ℕ → Type 0
EndsAt a h none = (p : ℕ) → a.table.slots p ≡ header → end_of a.heap.hdrs p ≢ h
EndsAt a h (some p) = (a.table.slots p ≡ header) × (end_of a.heap.hdrs p ≡ h)

-- The free block that ends where `h` starts, if there is one.
abbrev pub FreeEndsAt : Arena → ℕ → Option ℕ → Type 0
FreeEndsAt a h none =
    (p : ℕ) → a.table.slots p ≡ header → (a.heap.hdrs p).hb_free ≡ true → end_of a.heap.hdrs p ≢ h
FreeEndsAt a h (some p) =
    (a.table.slots p ≡ header) × ((a.heap.hdrs p).hb_free ≡ true) × (end_of a.heap.hdrs p ≡ h)

module _ (a : Arena) (v : IsLaid a.table a.heap.hdrs) (h : ℕ) (first : a.table.slots h ≡ header)
    (pos : 0 < h) where
  -- The page before `h` belongs to a block in use or is the first of a block.
  by_start :
      (p : ℕ)
      → a.table.slots p ≡ header
      → p < h
      → h ≤ end_of a.heap.hdrs p
      → IsLarge a.table.slots p (a.heap.hdrs p).hb_sz
      → is_nil (a.table.slots (h - 1)) ≡ false
      → (get_block_ending_at a h ≡ done (some p)) × EndsAt a h (some p)
  unfolding get_block_ending_at
  by_start p e l m large here =
      let found =
        find_starting_hblk_lem a.table p (a.heap.hdrs p).hb_sz (h - 1) large (omega arith)
          (omega arith) in
      (rw (get_block_ending_at, here, found) refl, (e, omega (arith, v.apart p h e first l)))

  single_or_used :
      (p : ℕ)
      → a.table.slots p ≡ header
      → p + 1 ≡ h
      → (get_block_ending_at a h ≡ done (some p)) × EndsAt a h (some p)
  single_or_used p e l =
      let s = v.sized p e in
      let fits = v.apart p h e first (omega arith) in
      let q : h - 1 ≡ p = omega arith in
      by_start p e (omega arith) (omega arith) (e, λ x b. absurd (ground arith)) (rw (q, e) refl)

  no_header : (p : ℕ) → a.table.slots p ≡ header → is_header (a.table.slots p) ≡ false → ⊥
  no_header p e n = ground arith

  before : (p : ℕ) → a.table.slots p ≡ header → end_of a.heap.hdrs p ≡ h → p < h
  before p e l = omega (arith, v.sized p e)

  -- The header before `h` is that of a block which does not reach `h`.
  no_end :
      (p : ℕ)
      → a.table.slots (h - 1) ≡ nil
      → a.table.slots p ≡ header
      → p ≤ h - 1
      → ((b : ℕ) → b ≤ h - 1 → p < b → is_header (a.table.slots b) ≡ false)
      → (p * hblk_size + (a.heap.hdrs p).hb_sz == h * hblk_size) ≡ false
      → EndsAt a h none
  no_end p gap e le last differs q f l =
      let q_before = before q f l in
      elim (Bool-cases (ltb p q)) [
        | inl after ↦ no_header q f (last q (omega arith) (ground arith))
        | inr not_after ↦ elim (Bool-cases (q == p)) [
          | inl same ↦
              let s = (==_iff q p).0 same in
              let l' : end_of a.heap.hdrs p ≡ h = subst (λ x. end_of a.heap.hdrs x ≡ h) s l in
              elim (Bool-cases (a.heap.hdrs p).hb_free) [
                | inl free ↦ let w = v.whole p e free in ground arith
                | inr used ↦ elim (Bool-cases (h - 1 == p)) [
                  | inl here ↦
                      let z = (==_iff (h - 1) p).0 here in
                      let c : nil ≡ header = sym gap ∙ (rw z e) in cc
                  | inr behind_it ↦
                      let c : nil ≡ forward (count_to p (h - 1)) =
                        sym gap ∙ v.counted p (h - 1) e used (ground arith) (ground arith) in
                      cc
                ]
              ]
          | inr other ↦ let low : q < p = ground arith in omega (arith, v.apart q p f e low)
        ]
      ]

  by_walk :
      (r : Option ℕ)
      → is_nil (a.table.slots (h - 1)) ≡ true
      → prev_block a.table a.heap.hdrs (h - 1) ≡ r
      → get_block_ending_at a h
        ≡ done (elim r as (λ x. Option ℕ) [
          | none ↦ none
          | some p ↦ if p * hblk_size + (hdr_at a p).hb_sz == h * hblk_size then some p else none
        ])
  unfolding get_block_ending_at
  by_walk r e f = rw (get_block_ending_at, e, f) refl

  at_slot : (s : Slot) → a.table.slots (h - 1) ≡ s → Returns (get_block_ending_at a h) (EndsAt a h)
  at_slot header e = let (r, p) = single_or_used (h - 1) e (omega arith) in (some (h - 1), r, p)
  at_slot (forward n) e =
      let (p, f, used, l, m) = v.owned (h - 1) n e in
      let (r, q) =
        by_start p f (omega arith) (omega arith)
          (f, λ x b. v.counted p x f used (ground arith) (ground arith)) (rw e refl) in
      (some p, r, q)
  at_slot nil e =
      let walk =
        prev_block-IsPrevBlock a.table a.heap.hdrs (IsLaid-IsBacked a.table a.heap.hdrs v)
          (h - 1) in
      let gap : is_nil (a.table.slots (h - 1)) ≡ true = rw e refl in
      elim (Option-cases (prev_block a.table a.heap.hdrs (h - 1))) [
        | inl f ↦
            let none_before = subst (λ r. IsPrevBlock a.table.slots (h - 1) r) f walk in
            (
              none,
              by_walk none gap f,
              λ p g l. no_header p g (none_before p (omega (arith, before p g l))),
            )
        | inr (p, f) ↦
            let (le, g, last) = subst (λ r. IsPrevBlock a.table.slots (h - 1) r) f walk in
            elim (Bool-cases (p * hblk_size + (a.heap.hdrs p).hb_sz == h * hblk_size)) [
              | inl meets ↦ (some p, by_walk (some p) gap f ∙ (rw meets refl), (g, ground arith))
              | inr differs ↦
                  (none, by_walk (some p) gap f ∙ (rw differs refl), no_end p e g le last differs)
            ]
      ]

  -- The search finds the block that ends where a block starts, in use or free, if there is one.
  pub get_block_ending_at-EndsAt : Returns (get_block_ending_at a h) (EndsAt a h)
  get_block_ending_at-EndsAt = at_slot (a.table.slots (h - 1)) refl

  only :
      (p q : ℕ)
      → a.table.slots p ≡ header
      → end_of a.heap.hdrs p ≡ h
      → a.table.slots q ≡ header
      → (a.heap.hdrs q).hb_free ≡ true
      → end_of a.heap.hdrs q ≡ h
      → (a.heap.hdrs p).hb_free ≡ false
      → ⊥
  only p q f l g free m used = elim (Bool-cases (q == p)) [
    | inl same ↦
        let c = sym free ∙ ap (λ b. (a.heap.hdrs b).hb_free) ((==_iff q p).0 same) ∙ used in cc
    | inr other ↦ elim (Bool-cases (ltb q p)) [
      | inl below ↦ let e = v.apart q p g f (ground arith) in let b = before p f l in omega arith
      | inr above ↦
          let less : p < q = ground arith in
          let e = v.apart p q f g less in let b = before q g m in omega arith
    ]
  ]

  free_at :
      (r : Option ℕ)
      → get_block_ending_at a h ≡ done r
      → EndsAt a h r
      → Returns (free_block_ending_at a h) (FreeEndsAt a h)
  unfolding free_block_ending_at
  free_at none e n = (none, rw (free_block_ending_at, e) refl, λ p f u l. n p f l)
  free_at (some p) e (f, l) = elim (Bool-cases (a.heap.hdrs p).hb_free) [
    | inl free ↦ (some p, rw (free_block_ending_at, e, free) refl, (f, free, l))
    | inr used ↦ (none, rw (free_block_ending_at, e, used) refl, λ q g u m. only p q f l g u m used)
  ]

  -- In a heap that is laid out well, with the header of a block at `h`, not the first of the address
  -- space, `GC_free_block_ending_at` returns; what it returns is the free block that ends where `h`
  -- starts, or nothing if no free block does.
  pub free_block_ending_at-FreeEndsAt : Returns (free_block_ending_at a h) (FreeEndsAt a h)
  free_block_ending_at-FreeEndsAt = let (r, e, p) = get_block_ending_at-EndsAt in free_at r e p
