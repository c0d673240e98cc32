-- ===== src/Blacklist/Lookup.antt =====
-- What `GC_is_black_listed` finds.
use gcutil.Prelude.{
  ℕ, zero, suc, ◌+◌, ◌-◌, ◌*◌, ◌/◌, ◌%◌, ◌≤◌, ◌<◌, ◌≡◌, ◌⊎◌, ltb→lt, subst, ap, ◌∙◌, refl, true,
  false, not, ◌&&◌, ◌||◌, Option, none, some, leb, ltb, if◌then◌else◌, write, holds_below_lem, done,
  Bool-cases, inl, inr, arith, Returns, max,
}
use gcutil.Blacklist.{
  BlackLists, Bits, pht_hash_block, hblk_size, word_is_zero, is_listed_at, both_zero, scan_loop,
  is_black_listed, add_to_black_list_stack, promote_black_lists,
}

-- The hash of block `h + i` is in one of the two stack black lists.
abbrev pub IsListed : BlackLists → ℕ → Type 0
IsListed s h =
    (s.old_stack_bl (pht_hash_block h) || s.incomplete_stack_bl (pht_hash_block h)) ≡ true

-- The answer for the `n` blocks from `h` on: none is listed, or the block behind the first
-- that is.
pub data IsAnswer (s : BlackLists) (h n : ℕ) : Option ℕ → Type 0 where
  clear : ((j : ℕ) → j < n → IsListed s (h + j) → ⊥) → IsAnswer s h n none
  listed :
      {r : ℕ} (i : ℕ)
      → i < n
      → IsListed s (h + i)
      → ((j : ℕ) → j < i → IsListed s (h + j) → ⊥)
      → r ≡ h + i + 1
      → IsAnswer s h n (some r)

word_is_zero-false :
    (bl : Bits) (w index : ℕ) → word_is_zero bl w ≡ true → index / 64 ≡ w → bl index ≡ false
unfolding word_is_zero
word_is_zero-false bl w index z e =
    let row = holds_below_lem (λ b. not (bl (64 * w + b))) 64 (index % 64) z (omega arith) in
    let here : 64 * w + index % 64 ≡ index = omega arith in
    let clear : not (bl index) ≡ true = subst (λ k. not (bl k) ≡ true) here row in ground arith

-- No block of a zero word of both lists is listed.
both_zero-clear :
    (s : BlackLists) (w h : ℕ) → both_zero s w ≡ true → pht_hash_block h / 64 ≡ w → IsListed s h → ⊥
unfolding both_zero
both_zero-clear s w h z e =
    let index = pht_hash_block h in
    ground (
      arith,
      word_is_zero-false s.old_stack_bl w index,
      word_is_zero-false s.incomplete_stack_bl w index,
    )

module _ (s : BlackLists) (h n : ℕ) where
  -- The blocks that a round passes are not listed.
  Passes : ℕ → Type 0
  Passes i = (j : ℕ) → j < i → IsListed s (h + j) → ⊥

  pass_word :
      (i : ℕ)
      → both_zero s (pht_hash_block (h + i) / 64) ≡ true
      → Passes i
      → Passes (i + (64 - pht_hash_block (h + i) % 64))
  unfolding Passes
  pass_word i easy before j l = elim (Bool-cases (ltb j i)) [
    | inl old ↦ before j (ltb→lt _ _ old)
    | inr new ↦
        let not_lt : i ≤ j = ground arith in
        both_zero-clear s (pht_hash_block (h + i) / 64) (h + j) easy (omega arith)
  ]

  pass_one : (i : ℕ) → is_listed_at s (pht_hash_block (h + i)) ≡ false → Passes i → Passes (i + 1)
  unfolding Passes is_listed_at
  pass_one i miss before j l = elim (Bool-cases (ltb j i)) [
    | inl old ↦ before j (ltb→lt _ _ old)
    | inr new ↦
        let e : i ≡ j = ground arith in subst (λ k. IsListed s (h + k) → ⊥) e (λ hit. ground arith)
  ]

  scan_loop-IsAnswer :
      (fuel i : ℕ)
      → n < i + fuel
      → (i < n) ⊎ (i ≡ 0)
      → Passes i
      → Returns (scan_loop fuel s h n i) (IsAnswer s h (max n 1))
  unfolding scan_loop
  scan_loop-IsAnswer zero i f l before = absurd (omega arith)
  scan_loop-IsAnswer (suc fuel) i f l before =
      let index = pht_hash_block (h + i) in
      let go_on = λ (i' : ℕ) (rises : i < i') (passed : Passes i').
        let answer : Returns (if leb n i' then done none else scan_loop fuel s h n i')
            (IsAnswer s h (max n 1)) =
          elim (Bool-cases (leb n i')) [
            | inl at_end ↦
                (none, rw at_end, clear (λ j m. unfold Passes in passed j (ground arith)))
            | inr more ↦
                let (r, run, a) =
                  scan_loop-IsAnswer fuel i' (omega arith) (inl (ground arith)) passed in
                (r, rw more run, a)
          ] in
        answer in
      elim (Bool-cases (both_zero s (index / 64))) [
        | inl easy ↦ rw easy (go_on (i + (64 - index % 64)) (omega arith) (pass_word i easy before))
        | inr hard ↦ elim (Bool-cases (is_listed_at s index)) [
          | inl hit ↦ (
            some (h + i + 1),
            rw (hard, hit),
            listed i (omega arith) (unfold is_listed_at in hit) (unfold Passes in before) refl,
          )
          | inr miss ↦ rw (hard, miss) (go_on (i + 1) (omega arith) (pass_one i miss before))
        ]
      ]

-- The answer of `GC_is_black_listed`: the block behind `h` if only pointers to the start of an
-- object count and `h` is in a normal black list; or else, of the blocks of the region (of `h`,
-- if it is smaller than a block), the block behind the first that is in a stack black list, or
-- nothing if none is. The skips over zero words miss no block, and the loop ends.
pub is_black_listed-IsAnswer :
    (s : BlackLists) (h len : ℕ)
    → let index = pht_hash_block h in
      ((not s.all_interior_pointers && (s.old_normal_bl index || s.incomplete_normal_bl index))
          ≡ true
        → is_black_listed s h len ≡ done (some (h + 1)))
      × ((not s.all_interior_pointers && (s.old_normal_bl index || s.incomplete_normal_bl index))
            ≡ false
          → Returns (is_black_listed s h len) (IsAnswer s h (max (len / hblk_size) 1)))
unfolding is_black_listed Passes
is_black_listed-IsAnswer s h len = (
  λ normal. rw normal,
  λ other.
      let (r, run, a) =
        scan_loop-IsAnswer s h (len / hblk_size) (len / hblk_size + 1) 0 (omega arith) (inr refl)
          (λ j l. absurd (omega arith)) in
      (r, rw other run, a),
)

answer_first :
    (s : BlackLists) (h n : ℕ) (r : Option ℕ)
    → IsListed s h
    → 0 < n
    → IsAnswer s h n r
    → r ≡ some (h + 1)
answer_first s h n none hit pos (clear none_listed) =
    absurd (none_listed 0 pos (subst (IsListed s) (omega arith) hit))
answer_first s h n (some r) hit pos (listed zero l here before e) = ground arith
answer_first s h n (some r) hit pos (listed (suc i) l here before e) =
    absurd (before 0 (omega arith) (subst (IsListed s) (omega arith) hit))

is_black_listed_first :
    (s : BlackLists) (h len : ℕ) → IsListed s h → is_black_listed s h len ≡ done (some (h + 1))
is_black_listed_first s h len hit =
    let index = pht_hash_block h in
    elim (Bool-cases
      (not s.all_interior_pointers && (s.old_normal_bl index || s.incomplete_normal_bl index))) [
        | inl normal ↦ (is_black_listed-IsAnswer s h len).0 normal
        | inr other ↦
            let (r, run, a) = (is_black_listed-IsAnswer s h len).1 other in
            run ∙ ap done (answer_first s h (max (len / hblk_size) 1) r hit (omega arith) a)
      ]

-- Once a word `p` that points to a block with no header is entered in the stack black list, each
-- region that begins with that block is refused, in this cycle and after the promotion that
-- begins the next, whatever else the tables hold.
pub is_black_listed-add_to_black_list_stack :
    (s : BlackLists) (p len : ℕ)
    → let s' = add_to_black_list_stack s false p in
      let h = p / hblk_size in
      (is_black_listed s' h len ≡ done (some (h + 1)))
      × (is_black_listed (promote_black_lists s') h len ≡ done (some (h + 1)))
unfolding add_to_black_list_stack promote_black_lists write
is_black_listed-add_to_black_list_stack s p len = (
  is_black_listed_first (add_to_black_list_stack s false p) (p / hblk_size) len (ground arith),
  is_black_listed_first (promote_black_lists (add_to_black_list_stack s false p)) (p / hblk_size)
      len (ground arith),
)
