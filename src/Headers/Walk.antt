-- ===== src/Headers/Walk.antt =====
-- The walk to the next block.
use gcutil.Prelude.{
  ℕ, zero, suc, ◌+◌, ◌*◌, ◌/◌, ◌%◌, ◌≤◌, ◌<◌, ◌≡◌, ◌⊎◌, refl, sym, ◌∙◌, subst, Bool, true, false,
  ◌||◌, ◌&&◌, not, leb, ltb, ◌==◌, ==_iff, if◌then◌else◌, arith, Bool-cases, Option-cases, inl, inr,
  Option, none, some, List, [], ◌∷◌,
}
use gcutil.FreeBlocks.{Hdr, hblk_size}
use gcutil.Headers.{
  Slot, BlockTable, nil, forward, header, bottom_sz, has_key, next_in, next_over, keys_from,
  next_block,
}

abbrev pub is_header : Slot → Bool
is_header header = true
is_header _ = false

pub is_header_lem : (s : Slot) → is_header s ≡ true → s ≡ header
is_header_lem nil e = cc
is_header_lem (forward n) e = cc
is_header_lem header e = refl

abbrev pub IsAscending : List ℕ → Type 0
IsAscending [] = Unit {0}
IsAscending (k ∷ ks) = ((x : ℕ) → has_key x ks ≡ true → k < x) × IsAscending ks

-- Every header is that of its own block and has a bottom index, and these ascend. A free block has at least the size of
-- a page, and no other header stands within its pages.
pub record IsMapped (t : BlockTable) (hdrs : ℕ → Hdr) : Type 0 where
  pub own : (b : ℕ) → t.slots b ≡ header → (hdrs b).hb_block ≡ b
  pub indexed : (b : ℕ) → t.slots b ≡ header → has_key (b / bottom_sz) t.keys ≡ true
  pub ascending : IsAscending t.keys
  pub sized : (b : ℕ) → t.slots b ≡ header → (hdrs b).hb_free ≡ true → hblk_size ≤ (hdrs b).hb_sz
  pub free_clear :
      (b x : ℕ)
      → t.slots b ≡ header
      → (hdrs b).hb_free ≡ true
      → b < x
      → x < b + (hdrs b).hb_sz / hblk_size
      → is_header (t.slots x) ≡ false

-- The blocks that the walk over the indices `ks` passes, from `j` on in the first.
abbrev covers : List ℕ → ℕ → ℕ → Bool
covers [] j b = false
covers (k ∷ ks) j b = (b / bottom_sz == k && leb j (b % bottom_sz)) || covers ks 0 b

covers_first :
    (k : ℕ) (ks : List ℕ) (j b : ℕ)
    → b / bottom_sz ≡ k
    → j ≤ b % bottom_sz
    → covers (k ∷ ks) j b ≡ true
covers_first k ks j b e l = ground arith

covers_split :
    (k : ℕ) (ks : List ℕ) (j b : ℕ)
    → covers (k ∷ ks) j b ≡ true
    → ((b / bottom_sz ≡ k) × (j ≤ b % bottom_sz)) ⊎ (covers ks 0 b ≡ true)
covers_split k ks j b c = elim (Bool-cases (b / bottom_sz == k && leb j (b % bottom_sz))) [
  | inl e ↦ inl (ground arith, ground arith)
  | inr e ↦ inr (ground arith)
]

covers_zero : (ks : List ℕ) (b : ℕ) → covers ks 0 b ≡ has_key (b / bottom_sz) ks
covers_zero [] b = refl
covers_zero (k ∷ ks) b = ground (arith, covers_zero ks b)

module _ (slots : ℕ → Slot) (hdrs : ℕ → Hdr) (allow_free : Bool) where
  -- The blocks that the walk is to stop at.
  abbrev pub wanted : ℕ → Bool
  wanted b = is_header (slots b) && (allow_free || not (hdrs b).hb_free)

  abbrev NextIn : ℕ → ℕ → Option ℕ → Type 0
  NextIn hi j none = (b : ℕ) → b / bottom_sz ≡ hi → j ≤ b % bottom_sz → wanted b ≡ false
  NextIn hi j (some c) =
      (c / bottom_sz ≡ hi)
      × (j ≤ c % bottom_sz)
      × (wanted c ≡ true)
      × ((b : ℕ) → b / bottom_sz ≡ hi → j ≤ b % bottom_sz → b < c → wanted b ≡ false)

  NextIn-from :
      (hi j j' : ℕ) (r : Option ℕ)
      → j ≤ j'
      → ((b : ℕ) → b / bottom_sz ≡ hi → j ≤ b % bottom_sz → b % bottom_sz < j' → wanted b ≡ false)
      → NextIn hi j' r
      → NextIn hi j r
  NextIn-from hi j j' none le gap n = λ b e l. elim (Bool-cases (ltb (b % bottom_sz) j')) [
    | inl early ↦ gap b e l (ground arith)
    | inr late ↦ n b e (ground arith)
  ]
  NextIn-from hi j j' (some c) le gap (e, l, w, n) = (
    e,
    omega arith,
    w,
    λ b f m o. elim (Bool-cases (ltb (b % bottom_sz) j')) [
      | inl early ↦ gap b f m (ground arith)
      | inr late ↦ n b f (ground arith) o
    ],
  )

  next_in_end : (fuel hi j : ℕ) → bottom_sz ≤ j → next_in fuel slots hdrs allow_free hi j ≡ none
  unfolding next_in
  next_in_end zero hi j l = refl
  next_in_end (suc fuel) hi j l = let e : leb bottom_sz j ≡ true = ground arith in rw e refl

  next_in_other :
      (fuel hi j : ℕ)
      → j < bottom_sz
      → is_header (slots (hi * bottom_sz + j)) ≡ false
      → next_in (suc fuel) slots hdrs allow_free hi j
        ≡ next_in fuel slots hdrs allow_free hi (j + 1)
  unfolding next_in
  next_in_other fuel hi j l n =
      let e : leb bottom_sz j ≡ false = ground arith in rw e (ground arith)

  next_in_header :
      (fuel hi j : ℕ)
      → j < bottom_sz
      → slots (hi * bottom_sz + j) ≡ header
      → let b = hi * bottom_sz + j in
        next_in (suc fuel) slots hdrs allow_free hi j ≡ (
          if allow_free || not (hdrs b).hb_free
          then some (hdrs b).hb_block
          else next_in fuel slots hdrs allow_free hi (j + (hdrs b).hb_sz / hblk_size))
  unfolding next_in
  next_in_header fuel hi j l n =
      let e : leb bottom_sz j ≡ false = ground arith in rw (next_in, e, n) refl

  module _ (own : (b : ℕ) → slots b ≡ header → (hdrs b).hb_block ≡ b)
      (sized : (b : ℕ) → slots b ≡ header → (hdrs b).hb_free ≡ true → hblk_size ≤ (hdrs b).hb_sz)
      (clear : (b x : ℕ)
        → slots b ≡ header
        → (hdrs b).hb_free ≡ true
        → b < x
        → x < b + (hdrs b).hb_sz / hblk_size
        → is_header (slots x) ≡ false) where
    at_header :
        (fuel hi j : ℕ)
        → j < bottom_sz
        → slots (hi * bottom_sz + j) ≡ header
        → ((hdrs (hi * bottom_sz + j)).hb_free ≡ true
            → NextIn hi (j + (hdrs (hi * bottom_sz + j)).hb_sz / hblk_size) (
                next_in fuel slots hdrs allow_free hi
                  (j + (hdrs (hi * bottom_sz + j)).hb_sz / hblk_size)))
        → NextIn hi j (next_in (suc fuel) slots hdrs allow_free hi j)
    at_header fuel hi j l first rest =
        let b = hi * bottom_sz + j in
        let n = (hdrs b).hb_sz / hblk_size in
        elim (Bool-cases (allow_free || not (hdrs b).hb_free)) [
          | inl stop ↦
              rw (next_in_header fuel hi j l first, stop, own b first)
                (omega arith, omega arith, rw (first, stop) refl, λ x e m o. absurd (omega arith))
          | inr go ↦
              let is_free : (hdrs b).hb_free ≡ true = ground arith in
              let s = sized b first is_free in
              rw (next_in_header fuel hi j l first, go)
                (NextIn-from hi j (j + n) (next_in fuel slots hdrs allow_free hi (j + n))
                  (omega arith)
                  (λ x e m o. elim (Bool-cases (x == b)) [
                    | inl same ↦ let z = (==_iff x b).0 same in rw (z, first, go) refl
                    | inr other ↦ rw (clear b x first is_free (ground arith) (omega arith)) refl
                  ])
                  (rest is_free))
        ]

    next_in-NextIn :
        (fuel hi j : ℕ)
        → bottom_sz < fuel + j
        → NextIn hi j (next_in fuel slots hdrs allow_free hi j)
    next_in-NextIn zero hi j l =
        rw (next_in_end 0 hi j (omega arith)) (λ b e m. absurd (omega arith))
    next_in-NextIn (suc fuel) hi j l = elim (Bool-cases (leb bottom_sz j)) [
      | inl past ↦ rw (next_in_end (suc fuel) hi j (ground arith)) (λ b e m. absurd (ground arith))
      | inr within ↦ elim (Bool-cases (is_header (slots (hi * bottom_sz + j)))) [
        | inl first ↦
            let b = hi * bottom_sz + j in
            let here = is_header_lem (slots b) first in
            at_header fuel hi j (ground arith) here (λ is_free.
              let s = sized b here is_free in
              next_in-NextIn fuel hi (j + (hdrs b).hb_sz / hblk_size) (omega arith))
        | inr other ↦
            subst (λ r. NextIn hi j r) (sym (next_in_other fuel hi j (ground arith) other))
              (NextIn-from hi j (j + 1) (next_in fuel slots hdrs allow_free hi (j + 1))
                (omega arith)
                (λ b e m o. let s : b ≡ hi * bottom_sz + j = omega arith in rw (s, other) refl)
                (next_in-NextIn fuel hi (j + 1) (omega arith)))
      ]
    ]

    abbrev NextOver : List ℕ → ℕ → Option ℕ → Type 0
    NextOver ks j none = (b : ℕ) → covers ks j b ≡ true → wanted b ≡ false
    NextOver ks j (some c) =
        (covers ks j c ≡ true)
        × (wanted c ≡ true)
        × ((b : ℕ) → covers ks j b ≡ true → b < c → wanted b ≡ false)

    NextOver-none :
        (k : ℕ) (ks : List ℕ) (j : ℕ) (r : Option ℕ)
        → NextIn k j none
        → NextOver ks 0 r
        → NextOver (k ∷ ks) j r
    NextOver-none k ks j none first rest = λ b c. ground (arith, first b, rest b)
    NextOver-none k ks j (some c) first (i, w, n) =
        (ground arith, w, λ b d l. ground (arith, first b, n b))

    next_over_on :
        (k : ℕ) (ks : List ℕ) (j : ℕ)
        → next_in (bottom_sz + 1) slots hdrs allow_free k j ≡ none
        → next_over slots hdrs allow_free (k ∷ ks) j ≡ next_over slots hdrs allow_free ks 0
    unfolding next_over
    next_over_on k ks j e = rw (next_over, e) refl

    next_over_here :
        (k : ℕ) (ks : List ℕ) (j c : ℕ)
        → next_in (bottom_sz + 1) slots hdrs allow_free k j ≡ some c
        → next_over slots hdrs allow_free (k ∷ ks) j ≡ some c
    unfolding next_over
    next_over_here k ks j c e = rw (next_over, e) refl

    next_over-NextOver :
        (ks : List ℕ) (j : ℕ)
        → IsAscending ks
        → NextOver ks j (next_over slots hdrs allow_free ks j)
    unfolding next_over
    next_over-NextOver [] j a = λ b c. cc
    next_over-NextOver (k ∷ ks) j (a, rest) =
        let inner = next_in-NextIn (bottom_sz + 1) k j (omega arith) in
        elim (Option-cases (next_in (bottom_sz + 1) slots hdrs allow_free k j)) [
          | inl e ↦ rw (next_over_on k ks j e) (
              NextOver-none k ks j (next_over slots hdrs allow_free ks 0)
                (subst (λ r. NextIn k j r) e inner) (next_over-NextOver ks 0 rest))
          | inr (c, e) ↦
              let (f, l, w, n) = subst (λ r. NextIn k j r) e inner in
              rw (next_over_here k ks j c e) (
                covers_first k ks j c f l,
                w,
                λ b d m. elim (covers_split k ks j b d) [
                  | inl (g, o) ↦ n b g o m
                  | inr later ↦
                      let above : k < b / bottom_sz =
                        a (b / bottom_sz) (sym (covers_zero ks b) ∙ later) in
                      absurd (omega arith)
                ],
              )
        ]

keys_from-all :
    (hi : ℕ) (ks : List ℕ) → ((x : ℕ) → has_key x ks ≡ true → hi < x) → keys_from hi ks ≡ ks
unfolding keys_from
keys_from-all hi [] a = refl
keys_from-all hi (k ∷ ks) a =
    let l = a k (ground arith) in let e : ltb k hi ≡ false = ground arith in rw e refl

keys_from-IsAscending : (hi : ℕ) (ks : List ℕ) → IsAscending ks → IsAscending (keys_from hi ks)
unfolding keys_from
keys_from-IsAscending hi [] a = a
keys_from-IsAscending hi (k ∷ ks) (a, rest) = elim (Bool-cases (ltb k hi)) [
  | inl e ↦ rw e (keys_from-IsAscending hi ks rest)
  | inr e ↦ rw e (a, rest)
]

-- `r` is the first block from `h` on that the walk wants, or there is none.
abbrev pub IsNextBlock : (ℕ → Bool) → ℕ → Option ℕ → Type 0
IsNextBlock want h none = (b : ℕ) → h ≤ b → want b ≡ false
IsNextBlock want h (some c) = (h ≤ c) × (want c ≡ true) × ((b : ℕ) → h ≤ b → b < c → want b ≡ false)

covers-keys_from :
    (h : ℕ) (ks : List ℕ) (b : ℕ)
    → IsAscending ks
    → covers
        (keys_from (h / bottom_sz) ks)
        (if has_key (h / bottom_sz) ks then h % bottom_sz else 0)
        b
      ≡ (has_key (b / bottom_sz) ks && leb h b)
unfolding keys_from
covers-keys_from h [] b a = refl
covers-keys_from h (k ∷ ks) b (a, rest) = elim (Bool-cases (ltb k (h / bottom_sz))) [
  | inl e ↦
      let ne : (h / bottom_sz == k) ≡ false = ground arith in
      rw (e, ne) (covers-keys_from h ks b rest ∙ ground arith)
  | inr e ↦ rw e (ground (arith, covers_zero ks b, a (b / bottom_sz), a (h / bottom_sz)))
]

module _ (t : BlockTable) (hdrs : ℕ → Hdr) (v : IsMapped t hdrs) (allow_free : Bool) (h : ℕ) where
  covers_mapped :
      (b : ℕ)
      → h ≤ b
      → wanted t.slots hdrs allow_free b ≡ true
      → covers
          (keys_from (h / bottom_sz) t.keys)
          (if has_key (h / bottom_sz) t.keys then h % bottom_sz else 0)
          b
        ≡ true
  covers_mapped b le w =
      let at = v.indexed b (is_header_lem (t.slots b) (ground arith)) in
      covers-keys_from h t.keys b v.ascending ∙ (rw at (ground arith))

  abbrev ks : List ℕ
  ks = keys_from (h / bottom_sz) t.keys

  abbrev j : ℕ
  j = if has_key (h / bottom_sz) t.keys then h % bottom_sz else 0

  found :
      (r : Option ℕ)
      → NextOver t.slots hdrs allow_free v.own v.sized v.free_clear ks j r
      → IsNextBlock (wanted t.slots hdrs allow_free) h r
  found none n = λ b le. elim (Bool-cases (wanted t.slots hdrs allow_free b)) [
    | inl w ↦ n b (covers_mapped b le w)
    | inr w ↦ w
  ]
  found (some c) (d, w, n) = (
    ground (arith, covers-keys_from h t.keys c v.ascending),
    w,
    λ b le l. elim (Bool-cases (wanted t.slots hdrs allow_free b)) [
      | inl e ↦ n b (covers_mapped b le e) l
      | inr e ↦ e
    ],
  )

  -- If every header is that of its own block and has a bottom index, the bottom indices ascend, and
  -- a free block has at least the size of a page and no other header in its pages, then
  -- `GC_next_block` returns the first block from `h` on with a header that is in use, or any with a
  -- header if free blocks are allowed, and nothing exactly if there is none.
  pub next_block-IsNextBlock :
      IsNextBlock (wanted t.slots hdrs allow_free) h (next_block t hdrs allow_free h)
  unfolding next_block
  next_block-IsNextBlock = found (next_over t.slots hdrs allow_free ks j) (
      next_over-NextOver t.slots hdrs allow_free v.own v.sized v.free_clear ks j
        (keys_from-IsAscending (h / bottom_sz) t.keys v.ascending))
