-- ===== src/Headers/Counts.antt =====
-- Installing and removing the forwarding counts of a large block.
use gcutil.Prelude.{
  ℕ, zero, suc, ◌+◌, ◌-◌, ◌*◌, ◌/◌, ◌^◌, ◌≤◌, ◌<◌, ◌≡◌, refl, sym, ap, ◌∙◌, subst, Bool, true,
  false, ◌||◌, ◌&&◌, not, leb, ltb, ◌==◌, if◌then◌else◌, arith, write, List, [], ◌∷◌, Bool-cases,
  inl, inr,
}
use gcutil.FreeBlocks.{hblk_size}
use gcutil.Headers.{
  Slot, BlockTable, nil, forward, bottom_sz, max_jump, has_key, insert_key, get_index, index_loop,
  forward_loop, starts_below, install_counts, is_nil, clear_loop, remove_counts,
}

pub has_key-insert_key :
    (x hi : ℕ) (ks : List ℕ) → has_key x (insert_key hi ks) ≡ ((x == hi) || has_key x ks)
unfolding insert_key
has_key-insert_key x hi [] = refl
has_key-insert_key x hi (k ∷ ks) = ground (arith, has_key-insert_key x hi ks)

-- The slots are as they were, and the bottom indices of the old ones and more.
abbrev pub Indexes : BlockTable → BlockTable → Type 0
Indexes t t' = (t'.slots ≡ t.slots) × ((x : ℕ) → has_key x t.keys ≡ true → has_key x t'.keys ≡ true)

module _ (scratch : ℕ → Bool) where
  pub get_index-Indexes :
      (t : BlockTable) (b : ℕ)
      → let (t', ok) = get_index scratch t b in
        Indexes t t' × (ok ≡ true → has_key (b / bottom_sz) t'.keys ≡ true)
  unfolding get_index
  get_index-Indexes t b =
      let hi = b / bottom_sz in
      elim (Bool-cases (has_key hi t.keys)) [
        | inl there ↦ rw there ((refl, λ x i. i), λ e. there)
        | inr new ↦ elim (Bool-cases (scratch hi)) [
          | inl got ↦
              rw (new, got)
                (
                  (refl, λ x i. ground (arith, has_key-insert_key x hi t.keys)),
                  λ e. ground (arith, has_key-insert_key hi hi t.keys),
                )
          | inr not_got ↦ rw (new, not_got) ((refl, λ x i. i), λ e. cc)
        ]
      ]

  at_or_after :
      (rounds : ℕ) (t₁ : BlockTable) (hbp k : ℕ) (t' : BlockTable)
      → Indexes t₁ t'
      → has_key (hbp / bottom_sz) t₁.keys ≡ true
      → ((k : ℕ) → k < rounds → has_key ((hbp + bottom_sz) / bottom_sz + k) t'.keys ≡ true)
      → k < suc rounds
      → has_key (hbp / bottom_sz + k) t'.keys ≡ true
  at_or_after rounds t₁ hbp zero t' kept first rest l =
      let z : hbp / bottom_sz + 0 ≡ hbp / bottom_sz = omega arith in
      rw z (kept.1 (hbp / bottom_sz) first)
  at_or_after rounds t₁ hbp (suc k) t' kept first rest l =
      let z : hbp / bottom_sz + suc k ≡ (hbp + bottom_sz) / bottom_sz + k = omega arith in
      rw z (rest k (omega arith))

  -- If no step goes past the end of the address space, all the indices are there.
  index_loop-Indexes :
      (rounds : ℕ) (t : BlockTable) (hbp : ℕ)
      → (hbp + (rounds - 1) * bottom_sz) * hblk_size < 2 ^ 64
      → let (t', ok) = index_loop scratch rounds t hbp in
        Indexes t t'
        × (ok ≡ true → (k : ℕ) → k < rounds → has_key (hbp / bottom_sz + k) t'.keys ≡ true)
  unfolding index_loop
  index_loop-Indexes zero t hbp small = ((refl, λ x i. i), λ e k l. absurd (omega arith))
  index_loop-Indexes (suc rounds) t hbp small =
      let t₁ = (get_index scratch t hbp).0 in
      let (kept, found) = get_index-Indexes t hbp in
      elim (Bool-cases (get_index scratch t hbp).1) [
        | inl ok ↦ elim (Bool-cases (ltb (2 ^ 64 - 1 - bottom_sz * hblk_size) (hbp * hblk_size))) [
          | inl past ↦
              rw (ok, past)
                (
                  kept,
                  λ e k l.
                      let z : hbp / bottom_sz + k ≡ hbp / bottom_sz = ground arith in
                      rw z (found ok),
                )
          | inr within ↦
              let (kept', found') = index_loop-Indexes rounds t₁ (hbp + bottom_sz) (ground arith) in
              rw (ok, within)
                (
                  (kept'.0 ∙ kept.0, λ x i. kept'.1 x (kept.1 x i)),
                  λ e k l.
                      at_or_after rounds t₁ hbp k (index_loop scratch rounds t₁ (hbp + bottom_sz)).0
                        kept' (found ok) (found' e) l,
                )
        ]
        | inr failed ↦ rw failed (kept, λ e. cc)
      ]

pub forward_loop-slots :
    (rounds : ℕ) (t : BlockTable) (h i x : ℕ)
    → (forward_loop rounds t h i).slots x ≡ (
        if leb (h + i) x && ltb x (h + i + rounds)
        then forward (if ltb max_jump (x - h) then max_jump else x - h)
        else t.slots x)
unfolding forward_loop write
forward_loop-slots zero t h i x = ground arith
forward_loop-slots (suc rounds) t h i x = forward_loop-slots rounds _ h (i + 1) x ∙ ground arith

pub forward_loop-keys :
    (rounds : ℕ) (t : BlockTable) (h i : ℕ) → (forward_loop rounds t h i).keys ≡ t.keys
unfolding forward_loop
forward_loop-keys zero t h i = refl
forward_loop-keys (suc rounds) t h i = forward_loop-keys rounds _ h (i + 1)

clear_loop-slots :
    (rounds : ℕ) (t : BlockTable) (b x : ℕ)
    → (clear_loop rounds t b).slots x ≡ (if leb b x && ltb x (b + rounds) then nil else t.slots x)
unfolding clear_loop write
clear_loop-slots zero t b x = ground arith
clear_loop-slots (suc rounds) t b x = clear_loop-slots rounds _ (b + 1) x ∙ ground arith

clear_loop-keys : (rounds : ℕ) (t : BlockTable) (b : ℕ) → (clear_loop rounds t b).keys ≡ t.keys
unfolding clear_loop
clear_loop-keys zero t b = refl
clear_loop-keys (suc rounds) t b = clear_loop-keys rounds _ (b + 1)

-- The number of blocks that `sz` bytes cover.
abbrev pub blocks_of : ℕ → ℕ
blocks_of sz = starts_below sz 1

-- The forwarding count of the block `x` of a large block at `h`.
abbrev pub count_to : ℕ → ℕ → ℕ
count_to h x = if ltb max_jump (x - h) then max_jump else x - h

-- Whether `x` is a block of the large block at `h`, other than the first.
abbrev pub behind : ℕ → ℕ → ℕ → Bool
behind h sz x = ltb h x && ltb x (h + blocks_of sz)

abbrev pub Installs : BlockTable → ℕ → ℕ → BlockTable × Bool → Type 0
Installs t h sz (t', ok) =
    (ok ≡ true
      → ((x : ℕ) → t'.slots x ≡ (if behind h sz x then forward (count_to h x) else t.slots x))
        × ((x : ℕ) → h ≤ x → x < h + blocks_of sz → has_key (x / bottom_sz) t'.keys ≡ true))
    × (ok ≡ false → t'.slots ≡ t.slots)
    × ((k : ℕ) → has_key k t.keys ≡ true → has_key k t'.keys ≡ true)

module _ (scratch : ℕ → Bool) (t : BlockTable) (h sz : ℕ) (pos : 0 < sz)
    (small : h * hblk_size + sz ≤ 2 ^ 64) where
  t₁ : BlockTable
  t₁ = (index_loop scratch (starts_below sz bottom_sz) t h).0

  all_indexed :
      (t₂ t₃ : BlockTable)
      → ((k : ℕ) → k < starts_below sz bottom_sz → has_key (h / bottom_sz + k) t₂.keys ≡ true)
      → Indexes t₂ t₃
      → has_key ((h * hblk_size + sz - 1) / hblk_size / bottom_sz) t₃.keys ≡ true
      → (x : ℕ) → h ≤ x
      → x < h + blocks_of sz
      → has_key (x / bottom_sz) t₃.keys ≡ true
  all_indexed t₂ t₃ found kept last x le l =
      elim (Bool-cases (ltb (x / bottom_sz - h / bottom_sz) (starts_below sz bottom_sz))) [
        | inl early ↦
            let k = x / bottom_sz - h / bottom_sz in
            let e : h / bottom_sz + k ≡ x / bottom_sz = omega arith in
            subst (λ m. has_key m t₃.keys ≡ true) e
              (kept.1 (h / bottom_sz + k) (found k (ground arith)))
        | inr late ↦
            let e : (h * hblk_size + sz - 1) / hblk_size / bottom_sz ≡ x / bottom_sz =
              ground arith in
            subst (λ m. has_key m t₃.keys ≡ true) e last
      ]

  t₂ : BlockTable
  unfolding t₁
  t₂ = (get_index scratch t₁ ((h * hblk_size + sz - 1) / hblk_size)).0

  -- The run on each of the branches.
  install_counts_first :
      (index_loop scratch (starts_below sz bottom_sz) t h).1 ≡ false
      → install_counts scratch t h sz ≡ (t₁, false)
  unfolding install_counts t₁
  install_counts_first e = rw (install_counts, e) refl

  module _ (ok₁ : (index_loop scratch (starts_below sz bottom_sz) t h).1 ≡ true) where
    install_counts_last :
        (get_index scratch t₁ ((h * hblk_size + sz - 1) / hblk_size)).1 ≡ false
        → install_counts scratch t h sz ≡ (t₂, false)
    unfolding install_counts t₂
    install_counts_last e = rw (install_counts, ok₁, e) refl

    install_counts_done :
        (get_index scratch t₁ ((h * hblk_size + sz - 1) / hblk_size)).1 ≡ true
        → install_counts scratch t h sz ≡ (forward_loop (blocks_of sz - 1) t₂ h 1, true)
    unfolding install_counts t₂
    install_counts_done e = rw (install_counts, ok₁, e) refl

  forwarded-slots :
      (x : ℕ)
      → t₂.slots ≡ t.slots
      → (forward_loop (blocks_of sz - 1) t₂ h 1).slots x
        ≡ (if behind h sz x then forward (count_to h x) else t.slots x)
  forwarded-slots x same =
      let e : t₂.slots x ≡ t.slots x = ap (λ (f : ℕ → Slot). f x) same in
      let tests : (leb (h + 1) x && ltb x (h + 1 + (blocks_of sz - 1))) ≡ behind h sz x =
        ground arith in
      forward_loop-slots (blocks_of sz - 1) t₂ h 1 x ∙ (rw (tests, e) refl)

  -- Counts of a positive number of bytes that do not go past the end of the address space are
  -- installed, or the table is not changed but for bottom indices. If they are, then each block
  -- behind the first has a count, which is its distance to the first or `MAX_JUMP`, all other slots
  -- are as they were, and every one of the blocks has a bottom index: no slot is written through
  -- `GC_all_nils`, which all the absent bottom indices share.
  pub install_counts-Installs : Installs t h sz (install_counts scratch t h sz)
  unfolding t₁ t₂
  install_counts-Installs =
      let (kept, found) =
        index_loop-Indexes scratch (starts_below sz bottom_sz) t h (omega arith) in
      let last_block = (h * hblk_size + sz - 1) / hblk_size in
      let (kept₂, found₂) = get_index-Indexes scratch t₁ last_block in
      let both = λ (k : ℕ) (i : has_key k t.keys ≡ true). kept₂.1 k (kept.1 k i) in
      let P = λ (r : BlockTable × Bool). Installs t h sz r in
      elim (Bool-cases (index_loop scratch (starts_below sz bottom_sz) t h).1) [
        | inl ok₁ ↦ elim (Bool-cases (get_index scratch t₁ last_block).1) [
          | inl ok₂ ↦
              let keys = forward_loop-keys (blocks_of sz - 1) t₂ h 1 in
              subst P (sym (install_counts_done ok₁ ok₂)) (
                (λ e. (
                  (λ x. forwarded-slots x (kept₂.0 ∙ kept.0)),
                  λ x le l. rw keys (all_indexed t₁ t₂ (found ok₁) kept₂ (found₂ ok₂) x le l),
                )),
                (λ e. cc),
                λ k i. rw keys (both k i),
              )
          | inr failed ↦
              subst P (sym (install_counts_last ok₁ failed))
                ((λ e. cc), (λ e. kept₂.0 ∙ kept.0), both)
        ]
        | inr failed ↦
            subst P (sym (install_counts_first failed)) ((λ e. cc), (λ e. kept.0), kept.1)
      ]

pub remove_counts-slots :
    (t : BlockTable) (h sz x : ℕ)
    → (remove_counts t h sz).slots x ≡ (
        if not (leb sz hblk_size) && not (is_nil (t.slots (h + 1))) && behind h sz x
        then nil
        else t.slots x)
unfolding remove_counts
remove_counts-slots t h sz x = elim (Bool-cases (leb sz hblk_size)) [
  | inl one ↦ rw (remove_counts, one) refl
  | inr more ↦ elim (Bool-cases (is_nil (t.slots (h + 1)))) [
    | inl absent ↦ rw (remove_counts, more, absent) refl
    | inr there ↦
        let tests : (leb (h + 1) x && ltb x (h + 1 + (blocks_of sz - 1))) ≡ behind h sz x =
          ground arith in
        rw (remove_counts, more, there)
          (clear_loop-slots (blocks_of sz - 1) t (h + 1) x ∙ (rw tests refl))
  ]
]

pub remove_counts-keys : (t : BlockTable) (h sz : ℕ) → (remove_counts t h sz).keys ≡ t.keys
unfolding remove_counts
remove_counts-keys t h sz = elim (Bool-cases (leb sz hblk_size)) [
  | inl one ↦ rw one refl
  | inr more ↦ elim (Bool-cases (is_nil (t.slots (h + 1)))) [
    | inl absent ↦ rw (more, absent) refl
    | inr there ↦ rw (more, there) (clear_loop-keys (blocks_of sz - 1) t (h + 1))
  ]
]

-- Removing the counts of a block takes back what installing them did, if the slots behind the
-- first block were `NULL` before.
pub remove_counts-install_counts :
    (scratch : ℕ → Bool) (t : BlockTable) (h sz : ℕ)
    → 0 < sz
    → h * hblk_size + sz ≤ 2 ^ 64
    → ((x : ℕ) → behind h sz x ≡ true → t.slots x ≡ nil)
    → (x : ℕ) → (remove_counts (install_counts scratch t h sz).0 h sz).slots x ≡ t.slots x
remove_counts-install_counts scratch t h sz pos small free x =
    let (ok, failed, kept) = install_counts-Installs scratch t h sz pos small in
    let t' = (install_counts scratch t h sz).0 in
    remove_counts-slots t' h sz x ∙ (elim (Bool-cases (install_counts scratch t h sz).1) [
      | inl e ↦
          let here = (ok e).0 x in
          let first = (ok e).0 (h + 1) in
          elim (Bool-cases (behind h sz x)) [
            | inl b ↦
                let large : leb sz hblk_size ≡ false = ground arith in
                let b₁ : behind h sz (h + 1) ≡ true = ground arith in
                let f : t'.slots (h + 1) ≡ forward (count_to h (h + 1)) = first ∙ (rw b₁ refl) in
                rw (f, large, b) (sym (free x b))
            | inr b ↦
                let out : (not (leb sz hblk_size)
                      && not (is_nil (t'.slots (h + 1)))
                      && behind h sz x)
                    ≡ false =
                  ground arith in
                rw out (here ∙ (rw b refl))
          ]
      | inr e ↦
          let same : t'.slots x ≡ t.slots x = ap (λ (f : ℕ → Slot). f x) (failed e) in
          elim (Bool-cases
            (not (leb sz hblk_size) && not (is_nil (t'.slots (h + 1))) && behind h sz x)) [
              | inl c ↦ rw c (sym (free x (ground arith)))
              | inr c ↦ rw c same
            ]
    ])
