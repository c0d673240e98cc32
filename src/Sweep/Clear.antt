-- ===== src/Sweep/Clear.antt =====
-- What `GC_reclaim_clear` leaves.
use gcutil.Prelude.{
  ℕ, zero, suc, ◌+◌, ◌-◌, ◌*◌, ◌/◌, ◌%◌, ◌^◌, ◌≤◌, ◌<◌, ◌≡◌, ◌⊎◌, refl, sym, ap, ◌∙◌, subst, Bool,
  true, false, ◌&&◌, leb, ltb, ◌==◌, if◌then◌else◌, if_true, if_false, arith, Bool-cases, inl, inr,
  List, ◌∷◌, write, word_add,
}
use gcutil.FreeBlocks.Lists.{has}
use gcutil.FreeBlocks.{hblk_size}
use gcutil.Sweep.{
  Sweep, ptr_bytes, mark_bit_offset, clear_block, put_clear, reclaim_clear_loop, reclaim_clear,
}
use gcutil.Sweep.Chain.{Chain, Chain-frame, clear_words_lem, swept, in_free, free_bytes}

put_clear-memory :
    (s : Sweep) (p sz x : ℕ)
    → 0 < sz
    → sz % ptr_bytes ≡ 0
    → (put_clear s p sz).memory x ≡ (
        if x == p
        then s.list
        else if ltb p x && ltb x (p + sz) && (x - p) % ptr_bytes == 0
        then 0
        else s.memory x)
unfolding put_clear clear_block write
put_clear-memory s p sz x pos whole =
    clear_words_lem ((sz - 1) / ptr_bytes) (write s.memory p s.list) (p + ptr_bytes) x
    ∙ ground arith

put_clear-list :
    (s : Sweep) (p sz : ℕ)
    → ((put_clear s p sz).list ≡ p) × ((put_clear s p sz).pcount ≡ word_add s.pcount sz)
unfolding put_clear
put_clear-list s p sz = (refl, refl)

-- The state after `objs` objects from `p` on, with the mark bits from `bit_no` on, are swept.
pub record Sweeps (objs : ℕ) (mark_bit : ℕ → Bool) (sz p bit_no : ℕ) (s s' : Sweep) (xs : List ℕ)
    : Type 0 where
  pub chain : Chain s'.memory s'.list (swept objs mark_bit sz p bit_no xs)
  pub count : s'.pcount ≡ (s.pcount + free_bytes objs mark_bit sz bit_no) % 2 ^ 64
  pub kept : (x : ℕ) → in_free objs mark_bit sz p bit_no x ≡ false → s'.memory x ≡ s.memory x
  pub cleared :
      (x : ℕ)
      → in_free objs mark_bit sz p bit_no x ≡ true
      → x % ptr_bytes ≡ p % ptr_bytes
      → (has x (swept objs mark_bit sz p bit_no xs) ≡ true) ⊎ (s'.memory x ≡ 0)

module _ (mark_bit : ℕ → Bool) (sz : ℕ) (pos : 0 < sz) (whole : sz % ptr_bytes ≡ 0) where
  in_free_from : (objs p bit_no x : ℕ) → in_free objs mark_bit sz p bit_no x ≡ true → p ≤ x
  in_free_from zero p bit_no x i = absurd (cc)
  in_free_from (suc objs) p bit_no x i =
      let rest = in_free_from objs (p + sz) (bit_no + mark_bit_offset sz) x in ground arith

  pub has-swept :
      (objs p bit_no x : ℕ) (xs : List ℕ)
      → has x xs ≡ true
      → has x (swept objs mark_bit sz p bit_no xs) ≡ true
  has-swept zero p bit_no x xs i = i
  has-swept (suc objs) p bit_no x xs i =
      has-swept objs (p + sz) (bit_no + mark_bit_offset sz) x _
        (elim (Bool-cases (mark_bit bit_no)) [
          | inl marked ↦ rw marked i
          | inr free ↦ rw free (ground arith)
        ])

  pub not_later : (objs p bit_no x : ℕ) → x < p → in_free objs mark_bit sz p bit_no x ≡ false
  not_later objs p bit_no x l = elim (Bool-cases (in_free objs mark_bit sz p bit_no x)) [
    | inl i ↦ absurd (omega (arith, in_free_from objs p bit_no x i))
    | inr o ↦ o
  ]

  pushed :
      (p : ℕ) (s : Sweep) (xs : List ℕ)
      → 0 < p
      → ((x : ℕ) → has x xs ≡ true → (leb p x && ltb x (p + sz)) ≡ false)
      → Chain s.memory s.list xs
      → Chain (put_clear s p sz).memory (put_clear s p sz).list (p ∷ xs)
  pushed p s xs nz out c =
      let first : (put_clear s p sz).memory p ≡ s.list =
        put_clear-memory s p sz p pos whole ∙ ground arith in
      (
        (put_clear-list s p sz).0,
        omega arith,
        rw first (
            Chain-frame s.memory (put_clear s p sz).memory s.list xs
              (λ x i. put_clear-memory s p sz x pos whole ∙ ground (arith, out x i)) c),
      )

  abbrev pub IsApart : ℕ → ℕ → ℕ → List ℕ → Type 0
  IsApart objs p bit_no xs = (x : ℕ) → has x xs ≡ true → in_free objs mark_bit sz p bit_no x ≡ false

  pub swept_marked :
      (objs p bit_no : ℕ) (xs : List ℕ)
      → mark_bit bit_no ≡ true
      → swept objs mark_bit sz (p + sz) (bit_no + mark_bit_offset sz) xs
        ≡ swept (suc objs) mark_bit sz p bit_no xs
  swept_marked objs p bit_no xs e =
      ap (λ l. swept objs mark_bit sz (p + sz) (bit_no + mark_bit_offset sz) l)
        (sym (if_true _ _ e))

  pub swept_free :
      (objs p bit_no : ℕ) (xs : List ℕ)
      → mark_bit bit_no ≡ false
      → swept objs mark_bit sz (p + sz) (bit_no + mark_bit_offset sz) (p ∷ xs)
        ≡ swept (suc objs) mark_bit sz p bit_no xs
  swept_free objs p bit_no xs e =
      ap (λ l. swept objs mark_bit sz (p + sz) (bit_no + mark_bit_offset sz) l)
        (sym (if_false _ _ e))

  module _ (objs p bit_no : ℕ) (s s' : Sweep) (xs : List ℕ) where
    marked_step :
        mark_bit bit_no ≡ true
        → Sweeps objs mark_bit sz (p + sz) (bit_no + mark_bit_offset sz) s s' xs
        → Sweeps (suc objs) mark_bit sz p bit_no s s' xs
    marked_step e r =
        let same = swept_marked objs p bit_no xs e in
        record {
          chain = subst (λ l. Chain s'.memory s'.list l) same r.chain;
          count = r.count ∙ ap (λ n. (s.pcount + n) % 2 ^ 64) (rw e (omega arith));
          kept = λ x i. r.kept x (ground arith);
          cleared = λ x i a.
              subst (λ l. (has x l ≡ true) ⊎ (s'.memory x ≡ 0)) same
                (r.cleared x (ground arith) (omega arith));
        }

    free_step :
        mark_bit bit_no ≡ false
        → 0 < p
        → Sweeps objs mark_bit sz
            (p + sz)
            (bit_no + mark_bit_offset sz)
            (put_clear s p sz)
            s'
            (p ∷ xs)
        → Sweeps (suc objs) mark_bit sz p bit_no s s' xs
    free_step e nz r =
        let same = swept_free objs p bit_no xs e in
        let (l, n) = put_clear-list s p sz in
        record {
          chain = subst (λ l. Chain s'.memory s'.list l) same r.chain;
          count = r.count ∙ (rw e (omega (arith, n)));
          kept = λ x i.
              let m = put_clear-memory s p sz x pos whole in
              r.kept x (ground arith) ∙ m ∙ ground arith;
          cleared = λ x i a. elim (Bool-cases (leb p x && ltb x (p + sz))) [
            | inr later ↦
                subst (λ l. (has x l ≡ true) ⊎ (s'.memory x ≡ 0)) same
                  (r.cleared x (ground arith) (omega arith))
            | inl here ↦ elim (Bool-cases (x == p)) [
              | inl first ↦ inl (
                  subst (λ l. has x l ≡ true) same
                    (has-swept objs (p + sz) (bit_no + mark_bit_offset sz) x (p ∷ xs)
                      (ground arith)))
              | inr word ↦
                  let o = not_later objs (p + sz) (bit_no + mark_bit_offset sz) x (ground arith) in
                  let z : (x - p) % ptr_bytes ≡ 0 = ground arith in
                  inr (r.kept x o ∙ put_clear-memory s p sz x pos whole ∙ ground arith)
            ]
          ];
        }

  reclaim_clear_loop-Sweeps :
      (objs p bit_no : ℕ) (s : Sweep) (xs : List ℕ)
      → 0 < p
      → s.pcount < 2 ^ 64
      → Chain s.memory s.list xs
      → IsApart objs p bit_no xs
      → Sweeps objs mark_bit sz p bit_no s (reclaim_clear_loop objs mark_bit sz p bit_no s) xs
  unfolding reclaim_clear_loop
  reclaim_clear_loop-Sweeps zero p bit_no s xs nz small c out = record {
    chain = c;
    count = omega arith;
    kept = λ x i. refl;
    cleared = λ x i e. absurd (cc);
  }
  reclaim_clear_loop-Sweeps (suc objs) p bit_no s xs nz small c out =
      let next = bit_no + mark_bit_offset sz in
      elim (Bool-cases (mark_bit bit_no)) [
        | inl marked ↦
            subst (λ t. Sweeps (suc objs) mark_bit sz p bit_no s t xs)
              (ap (λ t. reclaim_clear_loop objs mark_bit sz (p + sz) next t)
                (sym (if_true _ _ marked)))
              (marked_step objs p bit_no s _ xs marked (
                reclaim_clear_loop-Sweeps objs (p + sz) next s xs (omega arith) small c
                  (λ x i. let o = out x i in ground arith)))
        | inr free ↦
            subst (λ t. Sweeps (suc objs) mark_bit sz p bit_no s t xs)
              (ap (λ t. reclaim_clear_loop objs mark_bit sz (p + sz) next t)
                (sym (if_false _ _ free)))
              (free_step objs p bit_no s _ xs free nz (
                reclaim_clear_loop-Sweeps objs (p + sz) next (put_clear s p sz) (p ∷ xs)
                  (omega arith) (omega (arith, (put_clear-list s p sz).1))
                  (pushed p s xs nz (λ x i. let o = out x i in ground arith) c)
                  (λ x i. elim (Bool-cases (x == p)) [
                    | inl first ↦ not_later objs (p + sz) next x (ground arith)
                    | inr other ↦ let o = out x (ground arith) in ground arith
                  ])))
      ]

-- `GC_reclaim_clear` of the block `hbp`, not 0, of objects of `sz` bytes, a positive number of whole
-- words. The free list before is that of the objects `xs`, none of which is in an unmarked object of
-- the block. After it the free list is that of `xs` with the unmarked objects in front, the last one
-- first; the count has grown by their bytes, as a word; each whole word of an unmarked object is 0, but
-- for the links of the list; and all other memory is as it was.
pub reclaim_clear-Sweeps :
    (hbp : ℕ) (mark_bit : ℕ → Bool) (sz : ℕ) (s : Sweep) (xs : List ℕ)
    → 0 < hbp
    → 0 < sz
    → sz % ptr_bytes ≡ 0
    → s.pcount < 2 ^ 64
    → Chain s.memory s.list xs
    → ((x : ℕ)
        → has x xs ≡ true
        → in_free (hblk_size / sz) mark_bit sz (hbp * hblk_size) 0 x ≡ false)
    → Sweeps (hblk_size / sz) mark_bit sz (hbp * hblk_size) 0 s (reclaim_clear hbp mark_bit sz s) xs
unfolding reclaim_clear
reclaim_clear-Sweeps hbp mark_bit sz s xs nz pos whole small c out =
    reclaim_clear_loop-Sweeps mark_bit sz pos whole (hblk_size / sz) (hbp * hblk_size) 0 s xs
      (omega arith) small c out
