-- ===== src/Headers/Back.antt =====
-- The walk to the previous block.
use gcutil.Prelude.{
  ℕ, zero, suc, ◌+◌, ◌-◌, ◌*◌, ◌/◌, ◌%◌, ◌≤◌, ◌<◌, ◌≡◌, ◌⊎◌, refl, sym, ap, ◌∙◌, subst, Bool, true,
  false, ◌||◌, ◌&&◌, leb, ltb, ◌==◌, ==_iff, if◌then◌else◌, arith, Bool-cases, Option-cases, inl,
  inr, Option, none, some, List, [], ◌∷◌,
}
use gcutil.FreeBlocks.{Hdr}
use gcutil.Headers.{
  Slot, BlockTable, nil, forward, header, bottom_sz, has_key, prev_in, prev_over, keys_down,
  prev_block,
}
use gcutil.Headers.Walk.{is_header, is_header_lem, IsAscending}

-- Every header is that of its own block and has a bottom index, and a count leads back over slots
-- that are no headers.
pub record IsBacked (t : BlockTable) (hdrs : ℕ → Hdr) : Type 0 where
  pub own : (b : ℕ) → t.slots b ≡ header → (hdrs b).hb_block ≡ b
  pub indexed : (b : ℕ) → t.slots b ≡ header → has_key (b / bottom_sz) t.keys ≡ true
  pub ascending : IsAscending t.keys
  pub counts : (b n : ℕ) → t.slots b ≡ forward n → 0 < n
  pub passed :
      (b n x : ℕ) → t.slots b ≡ forward n → b < x + n → x < b → is_header (t.slots x) ≡ false

abbrev IsDescending : List ℕ → Type 0
IsDescending [] = Unit {0}
IsDescending (k ∷ ks) = ((x : ℕ) → has_key x ks ≡ true → x < k) × IsDescending ks

-- The blocks that the walk over the indices `ks` passes, below `j₁` in the first.
abbrev covers_down : List ℕ → ℕ → ℕ → Bool
covers_down [] j₁ b = false
covers_down (k ∷ ks) j₁ b =
    (b / bottom_sz == k && ltb (b % bottom_sz) j₁) || covers_down ks bottom_sz b

covers_down_whole : (ks : List ℕ) (b : ℕ) → covers_down ks bottom_sz b ≡ has_key (b / bottom_sz) ks
covers_down_whole [] b = refl
covers_down_whole (k ∷ ks) b = ground (arith, covers_down_whole ks b)

covers_down_first :
    (k : ℕ) (ks : List ℕ) (j₁ b : ℕ)
    → b / bottom_sz ≡ k
    → b % bottom_sz < j₁
    → covers_down (k ∷ ks) j₁ b ≡ true
covers_down_first k ks j₁ b e l = ground arith

covers_down_split :
    (k : ℕ) (ks : List ℕ) (j₁ b : ℕ)
    → covers_down (k ∷ ks) j₁ b ≡ true
    → ((b / bottom_sz ≡ k) × (b % bottom_sz < j₁)) ⊎ (covers_down ks bottom_sz b ≡ true)
covers_down_split k ks j₁ b c = elim (Bool-cases (b / bottom_sz == k && ltb (b % bottom_sz) j₁)) [
  | inl e ↦ inl (ground arith, ground arith)
  | inr e ↦ inr (ground arith)
]

module _ (slots : ℕ → Slot) (hdrs : ℕ → Hdr) where
  abbrev PrevIn : ℕ → ℕ → Option ℕ → Type 0
  PrevIn hi j₁ none =
      (b : ℕ) → b / bottom_sz ≡ hi → b % bottom_sz < j₁ → is_header (slots b) ≡ false
  PrevIn hi j₁ (some c) =
      (c / bottom_sz ≡ hi)
      × (c % bottom_sz < j₁)
      × (slots c ≡ header)
      × ((b : ℕ) → b / bottom_sz ≡ hi → b % bottom_sz < j₁ → c < b → is_header (slots b) ≡ false)

  PrevIn-from :
      (hi j₁ j' : ℕ) (r : Option ℕ)
      → j' ≤ j₁
      → ((b : ℕ)
          → b / bottom_sz ≡ hi
          → b % bottom_sz < j₁
          → j' ≤ b % bottom_sz
          → is_header (slots b) ≡ false)
      → PrevIn hi j' r
      → PrevIn hi j₁ r
  PrevIn-from hi j₁ j' none le gap n = λ b e l. elim (Bool-cases (leb j' (b % bottom_sz))) [
    | inl late ↦ gap b e l (ground arith)
    | inr early ↦ n b e (ground arith)
  ]
  PrevIn-from hi j₁ j' (some c) le gap (e, l, w, n) = (
    e,
    omega arith,
    w,
    λ b f m o. elim (Bool-cases (leb j' (b % bottom_sz))) [
      | inl late ↦ gap b f m (ground arith)
      | inr early ↦ n b f (ground arith) o
    ],
  )

  module _ (fuel hi j : ℕ) where
    prev_in-nil :
        slots (hi * bottom_sz + j) ≡ nil
        → prev_in (suc fuel) slots hdrs hi (suc j) ≡ prev_in fuel slots hdrs hi j
    unfolding prev_in
    prev_in-nil e = rw (prev_in, e) refl

    prev_in-forward :
        (n : ℕ)
        → slots (hi * bottom_sz + j) ≡ forward n
        → prev_in (suc fuel) slots hdrs hi (suc j) ≡ prev_in fuel slots hdrs hi (j + 1 - n)
    unfolding prev_in
    prev_in-forward n e = rw (prev_in, e) refl

    prev_in-header :
        slots (hi * bottom_sz + j) ≡ header
        → prev_in (suc fuel) slots hdrs hi (suc j) ≡ some (hdrs (hi * bottom_sz + j)).hb_block
    unfolding prev_in
    prev_in-header e = rw (prev_in, e) refl

  prev_in-zero : (fuel hi : ℕ) → prev_in fuel slots hdrs hi 0 ≡ none
  unfolding prev_in
  prev_in-zero zero hi = refl
  prev_in-zero (suc fuel) hi = refl

  module _ (own : (b : ℕ) → slots b ≡ header → (hdrs b).hb_block ≡ b)
      (counts : (b n : ℕ) → slots b ≡ forward n → 0 < n)
      (passed : (b n x : ℕ)
        → slots b ≡ forward n
        → b < x + n
        → x < b
        → is_header (slots x) ≡ false) where
    prev_at :
        (fuel hi j : ℕ) (s : Slot)
        → slots (hi * bottom_sz + j) ≡ s
        → j < bottom_sz
        → ((j' : ℕ) → j' ≤ j → PrevIn hi j' (prev_in fuel slots hdrs hi j'))
        → PrevIn hi (suc j) (prev_in (suc fuel) slots hdrs hi (suc j))
    prev_at fuel hi j nil e l rest = rw (prev_in-nil fuel hi j e) (
        PrevIn-from hi (suc j) j (prev_in fuel slots hdrs hi j) (omega arith)
          (λ b f m o. let s : b ≡ hi * bottom_sz + j = omega arith in rw (s, e) refl)
          (rest j (omega arith)))
    prev_at fuel hi j (forward n) e l rest =
        let p = counts (hi * bottom_sz + j) n e in
        rw (prev_in-forward fuel hi j n e) (
          PrevIn-from hi (suc j) (j + 1 - n) (prev_in fuel slots hdrs hi (j + 1 - n)) (omega arith)
            (λ b f m o. elim (Bool-cases (b == hi * bottom_sz + j)) [
              | inl same ↦ let s = (==_iff b (hi * bottom_sz + j)).0 same in rw (s, e) refl
              | inr other ↦ passed (hi * bottom_sz + j) n b e (ground arith) (ground arith)
            ])
            (rest (j + 1 - n) (omega arith)))
    prev_at fuel hi j header e l rest =
        rw (prev_in-header fuel hi j e, own (hi * bottom_sz + j) e)
          (omega arith, omega arith, e, λ b f m o. absurd (omega arith))

    prev_in-PrevIn :
        (fuel hi j₁ : ℕ) → j₁ ≤ fuel → j₁ ≤ bottom_sz → PrevIn hi j₁ (prev_in fuel slots hdrs hi j₁)
    prev_in-PrevIn fuel hi zero l m = rw (prev_in-zero fuel hi) (λ b e o. absurd (omega arith))
    prev_in-PrevIn zero hi (suc j) l m = absurd (omega arith)
    prev_in-PrevIn (suc fuel) hi (suc j) l m =
        prev_at fuel hi j (slots (hi * bottom_sz + j)) refl (omega arith)
          (λ j' le. prev_in-PrevIn fuel hi j' (omega arith) (omega arith))

    abbrev PrevOver : List ℕ → ℕ → Option ℕ → Type 0
    PrevOver ks j₁ none = (b : ℕ) → covers_down ks j₁ b ≡ true → is_header (slots b) ≡ false
    PrevOver ks j₁ (some c) =
        (covers_down ks j₁ c ≡ true)
        × (slots c ≡ header)
        × ((b : ℕ) → covers_down ks j₁ b ≡ true → c < b → is_header (slots b) ≡ false)

    PrevOver-none :
        (k : ℕ) (ks : List ℕ) (j₁ : ℕ) (r : Option ℕ)
        → PrevIn k j₁ none
        → PrevOver ks bottom_sz r
        → PrevOver (k ∷ ks) j₁ r
    PrevOver-none k ks j₁ none first rest = λ b c. elim (covers_down_split k ks j₁ b c) [
      | inl (g, o) ↦ first b g o
      | inr later ↦ rest b later
    ]
    PrevOver-none k ks j₁ (some c) first (i, w, n) = (
      ground arith,
      w,
      λ b d l. elim (covers_down_split k ks j₁ b d) [
        | inl (g, o) ↦ first b g o
        | inr later ↦ n b later l
      ],
    )

    prev_over_on :
        (k : ℕ) (ks : List ℕ) (j₁ : ℕ)
        → prev_in (bottom_sz + 1) slots hdrs k j₁ ≡ none
        → prev_over slots hdrs (k ∷ ks) j₁ ≡ prev_over slots hdrs ks bottom_sz
    unfolding prev_over
    prev_over_on k ks j₁ e = rw (prev_over, e) refl

    prev_over_here :
        (k : ℕ) (ks : List ℕ) (j₁ c : ℕ)
        → prev_in (bottom_sz + 1) slots hdrs k j₁ ≡ some c
        → prev_over slots hdrs (k ∷ ks) j₁ ≡ some c
    unfolding prev_over
    prev_over_here k ks j₁ c e = rw (prev_over, e) refl

    prev_over-PrevOver :
        (ks : List ℕ) (j₁ : ℕ)
        → IsDescending ks
        → j₁ ≤ bottom_sz
        → PrevOver ks j₁ (prev_over slots hdrs ks j₁)
    unfolding prev_over
    prev_over-PrevOver [] j₁ a le = λ b c. cc
    prev_over-PrevOver (k ∷ ks) j₁ (a, rest) le =
        let inner = prev_in-PrevIn (bottom_sz + 1) k j₁ (omega arith) le in
        elim (Option-cases (prev_in (bottom_sz + 1) slots hdrs k j₁)) [
          | inl e ↦ rw (prev_over_on k ks j₁ e) (
              PrevOver-none k ks j₁ (prev_over slots hdrs ks bottom_sz)
                (subst (λ r. PrevIn k j₁ r) e inner)
                (prev_over-PrevOver ks bottom_sz rest (omega arith)))
          | inr (c, e) ↦
              let (f, l, w, n) = subst (λ r. PrevIn k j₁ r) e inner in
              rw (prev_over_here k ks j₁ c e) (
                covers_down_first k ks j₁ c f l,
                w,
                λ b d m. elim (covers_down_split k ks j₁ b d) [
                  | inl (g, o) ↦ n b g o m
                  | inr later ↦
                      let below : b / bottom_sz < k =
                        a (b / bottom_sz) (sym (covers_down_whole ks b) ∙ later) in
                      absurd (omega arith)
                ],
              )
        ]

has_key-keys_down :
    (x hi : ℕ) (ks acc : List ℕ)
    → IsAscending ks
    → has_key x (keys_down hi ks acc) ≡ ((has_key x ks && leb x hi) || has_key x acc)
unfolding keys_down
has_key-keys_down x hi [] acc a = refl
has_key-keys_down x hi (k ∷ ks) acc (a, rest) = elim (Bool-cases (ltb hi k)) [
  | inl e ↦ rw e (ground (arith, a x))
  | inr e ↦ rw e (has_key-keys_down x hi ks (k ∷ acc) rest ∙ ground arith)
]

keys_down-IsDescending :
    (hi : ℕ) (ks acc : List ℕ)
    → IsAscending ks
    → IsDescending acc
    → ((x k : ℕ) → has_key x acc ≡ true → has_key k ks ≡ true → x < k)
    → IsDescending (keys_down hi ks acc)
unfolding keys_down
keys_down-IsDescending hi [] acc a d below = d
keys_down-IsDescending hi (k ∷ ks) acc (a, rest) d below = elim (Bool-cases (ltb hi k)) [
  | inl e ↦ rw e d
  | inr e ↦ rw e (
      keys_down-IsDescending hi ks (k ∷ acc) rest ((λ x i. below x k i (ground arith)), d)
        (λ x m i j. ground (arith, a m, below x m)))
]

covers_down_lem :
    (h b : ℕ) (ks : List ℕ)
    → IsDescending ks
    → ((x : ℕ) → has_key x ks ≡ true → x ≤ h / bottom_sz)
    → covers_down ks (if has_key (h / bottom_sz) ks then h % bottom_sz + 1 else bottom_sz) b
      ≡ (has_key (b / bottom_sz) ks && leb b h)
covers_down_lem h b [] d up = refl
covers_down_lem h b (k ∷ ks) (d, rest) up =
    ground (arith, covers_down_whole ks b, d (b / bottom_sz), d (h / bottom_sz), up k)

-- `r` is the last block up to `h` with a header, or there is none.
abbrev pub IsPrevBlock : (ℕ → Slot) → ℕ → Option ℕ → Type 0
IsPrevBlock slots h none = (b : ℕ) → b ≤ h → is_header (slots b) ≡ false
IsPrevBlock slots h (some c) =
    (c ≤ h) × (slots c ≡ header) × ((b : ℕ) → b ≤ h → c < b → is_header (slots b) ≡ false)

module _ (t : BlockTable) (hdrs : ℕ → Hdr) (v : IsBacked t hdrs) (h : ℕ) where
  abbrev hi : ℕ
  hi = h / bottom_sz

  abbrev ks : List ℕ
  ks = keys_down hi t.keys []

  -- The index that the walk starts in has the slot of `h`, if it is there at all.
  abbrev j₁ : ℕ
  j₁ = if has_key hi t.keys then h % bottom_sz + 1 else bottom_sz

  covers_down-keys : (b : ℕ) → covers_down ks j₁ b ≡ (has_key (b / bottom_sz) t.keys && leb b h)
  covers_down-keys b =
      let at_hi = has_key-keys_down hi hi t.keys [] v.ascending in
      let at_b = has_key-keys_down (b / bottom_sz) hi t.keys [] v.ascending in
      let e : has_key hi ks ≡ has_key hi t.keys = at_hi ∙ ground arith in
      let all =
        covers_down_lem h b ks (keys_down-IsDescending hi t.keys [] v.ascending tt (λ x k i. cc))
          (λ x i. ground (arith, has_key-keys_down x hi t.keys [] v.ascending)) in
      ap (λ c. covers_down ks (if c then h % bottom_sz + 1 else bottom_sz) b) (sym e)
      ∙ all
      ∙ (rw at_b (ground arith))

  not_header :
      (b : ℕ)
      → b ≤ h
      → (covers_down ks j₁ b ≡ true → is_header (t.slots b) ≡ false)
      → is_header (t.slots b) ≡ false
  not_header b le n = elim (Bool-cases (is_header (t.slots b))) [
    | inl w ↦
        let at = v.indexed b (is_header_lem (t.slots b) w) in
        n (covers_down-keys b ∙ (rw at (ground arith)))
    | inr w ↦ w
  ]

  found :
      (r : Option ℕ)
      → PrevOver t.slots hdrs v.own v.counts v.passed ks j₁ r
      → IsPrevBlock t.slots h r
  found none n = λ b le. not_header b le (n b)
  found (some c) (d, w, n) =
      (ground (arith, covers_down-keys c), w, λ b le l. not_header b le (λ e. n b e l))

  -- `GC_prev_block` returns the last block up to `h` that has a header, free or not, and nothing
  -- exactly if there is none.
  pub prev_block-IsPrevBlock : IsPrevBlock t.slots h (prev_block t hdrs h)
  unfolding prev_block
  prev_block-IsPrevBlock = found (prev_over t.slots hdrs ks j₁) (
      prev_over-PrevOver t.slots hdrs v.own v.counts v.passed ks j₁
        (keys_down-IsDescending hi t.keys [] v.ascending tt (λ x k i. cc)) (ground arith))
