-- ===== src/Sweep/Uninit.antt =====
-- What `GC_reclaim_uninit` leaves.
use gcutil.Prelude.{
  ℕ, zero, suc, ◌+◌, ◌*◌, ◌/◌, ◌%◌, ◌^◌, ◌<◌, ◌≡◌, ◌⊎◌, refl, sym, ap, ◌∙◌, subst, Bool, true,
  false, ◌==◌, if◌then◌else◌, if_true, if_false, arith, Bool-cases, inl, inr, List, ◌∷◌, write,
  word_add,
}
use gcutil.FreeBlocks.Lists.{has}
use gcutil.FreeBlocks.{hblk_size}
use gcutil.Sweep.{
  Sweep, ptr_bytes, mark_bit_offset, put_uninit, reclaim_uninit_loop, reclaim_uninit, reclaim_clear,
}
use gcutil.Sweep.Chain.{Chain, Chain-frame, swept, in_free, free_bytes}
use gcutil.Sweep.Clear.{
  reclaim_clear-Sweeps, swept_marked, swept_free, not_later, has-swept, IsApart,
}

-- The state after `objs` objects from `p` on, with the mark bits from `bit_no` on, are listed.
pub record ListsFree (objs : ℕ) (mark_bit : ℕ → Bool) (sz p bit_no : ℕ) (s s' : Sweep) (n n' : ℕ)
    (xs : List ℕ) : Type 0 where
  pub chain : Chain s'.memory s'.list (swept objs mark_bit sz p bit_no xs)
  pub count : n' ≡ (n + free_bytes objs mark_bit sz bit_no) % 2 ^ 64
  pub same_count : s'.pcount ≡ s.pcount
  pub kept :
      (x : ℕ)
      → (in_free objs mark_bit sz p bit_no x ≡ false)
        ⊎ (has x (swept objs mark_bit sz p bit_no xs) ≡ false)
      → s'.memory x ≡ s.memory x

put_uninit-memory :
    (s : Sweep) (p x : ℕ) → (put_uninit s p).memory x ≡ (if x == p then s.list else s.memory x)
unfolding put_uninit write
put_uninit-memory s p x = refl

put_uninit-list :
    (s : Sweep) (p : ℕ) → ((put_uninit s p).list ≡ p) × ((put_uninit s p).pcount ≡ s.pcount)
unfolding put_uninit
put_uninit-list s p = (refl, refl)

module _ (mark_bit : ℕ → Bool) (sz : ℕ) (pos : 0 < sz) (whole : sz % ptr_bytes ≡ 0) where
  pushed :
      (p : ℕ) (s : Sweep) (xs : List ℕ)
      → 0 < p
      → has p xs ≡ false
      → Chain s.memory s.list xs
      → Chain (put_uninit s p).memory (put_uninit s p).list (p ∷ xs)
  pushed p s xs nz out c =
      let first : (put_uninit s p).memory p ≡ s.list = put_uninit-memory s p p ∙ ground arith in
      (
        (put_uninit-list s p).0,
        omega arith,
        rw first (
            Chain-frame s.memory (put_uninit s p).memory s.list xs
              (λ x i. put_uninit-memory s p x ∙ ground arith) c),
      )

  module _ (objs p bit_no : ℕ) (s s' : Sweep) (n n' : ℕ) (xs : List ℕ) where
    marked_step :
        mark_bit bit_no ≡ true
        → ListsFree objs mark_bit sz (p + sz) (bit_no + mark_bit_offset sz) s s' n n' xs
        → ListsFree (suc objs) mark_bit sz p bit_no s s' n n' xs
    marked_step e r =
        let same = swept_marked mark_bit sz pos whole objs p bit_no xs e in
        record {
          chain = subst (λ l. Chain s'.memory s'.list l) same r.chain;
          count = r.count ∙ ap (λ k. (n + k) % 2 ^ 64) (rw e (omega arith));
          same_count = r.same_count;
          kept = λ x i. r.kept x (elim i [
            | inl marked ↦ inl (ground arith)
            | inr out ↦ inr (subst (λ l. has x l ≡ false) (sym same) out)
          ]);
        }

    free_step :
        mark_bit bit_no ≡ false
        → ListsFree objs mark_bit sz
            (p + sz)
            (bit_no + mark_bit_offset sz)
            (put_uninit s p)
            s'
            (word_add n sz)
            n'
            (p ∷ xs)
        → ListsFree (suc objs) mark_bit sz p bit_no s s' n n' xs
    free_step e r =
        let same = swept_free mark_bit sz pos whole objs p bit_no xs e in
        record {
          chain = subst (λ l. Chain s'.memory s'.list l) same r.chain;
          count = r.count ∙ (rw e (omega arith));
          same_count = r.same_count ∙ (put_uninit-list s p).1;
          kept = λ x i. elim i [
            | inl outside ↦ r.kept x (inl (ground arith)) ∙ put_uninit-memory s p x ∙ ground arith
            | inr out ↦
                let out' = subst (λ l. has x l ≡ false) (sym same) out in
                let on =
                  has-swept mark_bit sz pos whole objs (p + sz) (bit_no + mark_bit_offset sz) x
                    (p ∷ xs) in
                r.kept x (inr out') ∙ put_uninit-memory s p x ∙ ground arith
          ];
        }

  reclaim_uninit_loop-ListsFree :
      (objs p bit_no : ℕ) (s : Sweep) (n : ℕ) (xs : List ℕ)
      → 0 < p
      → n < 2 ^ 64
      → Chain s.memory s.list xs
      → IsApart mark_bit sz pos whole objs p bit_no xs
      → let r = reclaim_uninit_loop objs mark_bit sz p bit_no s n in
        ListsFree objs mark_bit sz p bit_no s r.0 n r.1 xs
  unfolding reclaim_uninit_loop
  reclaim_uninit_loop-ListsFree zero p bit_no s n xs nz small c out = record {
    chain = c;
    count = omega arith;
    same_count = refl;
    kept = λ x i. refl;
  }
  reclaim_uninit_loop-ListsFree (suc objs) p bit_no s n xs nz small c out =
      let next = bit_no + mark_bit_offset sz in
      elim (Bool-cases (mark_bit bit_no)) [
        | inl marked ↦
            subst
              (λ (t : Sweep × ℕ).
                let r = reclaim_uninit_loop objs mark_bit sz (p + sz) next t.0 t.1 in
                ListsFree (suc objs) mark_bit sz p bit_no s r.0 n r.1 xs)
              (sym (if_true (s, n) (put_uninit s p, word_add n sz) marked))
              (marked_step objs p bit_no s _ n _ xs marked (
                reclaim_uninit_loop-ListsFree objs (p + sz) next s n xs (omega arith) small c
                  (λ x i. let o = out x i in ground arith)))
        | inr free ↦
            let p_out : has p xs ≡ false = elim (Bool-cases (has p xs)) [
              | inl i ↦ let o = out p i in absurd (ground arith)
              | inr o ↦ o
            ] in
            subst
              (λ (t : Sweep × ℕ).
                let r = reclaim_uninit_loop objs mark_bit sz (p + sz) next t.0 t.1 in
                ListsFree (suc objs) mark_bit sz p bit_no s r.0 n r.1 xs)
              (sym (if_false (s, n) (put_uninit s p, word_add n sz) free))
              (free_step objs p bit_no s _ n _ xs free (
                reclaim_uninit_loop-ListsFree objs (p + sz) next (put_uninit s p) (word_add n sz)
                  (p ∷ xs) (omega arith) (omega arith) (pushed p s xs nz p_out c)
                  (λ x i. elim (Bool-cases (x == p)) [
                    | inl first ↦
                        not_later mark_bit sz pos whole objs (p + sz) next x (ground arith)
                    | inr other ↦ let o = out x (ground arith) in ground arith
                  ])))
      ]

-- `GC_reclaim_uninit` of the block `hbp`, not 0, of objects of `sz` bytes, a positive number of whole
-- words; the free list before is that of the objects `xs`, none of which is in an unmarked object of
-- the block. After it the free list is that of `xs` with the unmarked objects in front, the last one
-- first, as `GC_reclaim_clear` leaves it, and the count is that of `GC_reclaim_clear` too. All memory
-- but the first words of the unmarked objects is as it was.
pub reclaim_uninit-reclaim_clear :
    (hbp : ℕ) (mark_bit : ℕ → Bool) (sz : ℕ) (s : Sweep) (xs : List ℕ)
    → 0 < hbp
    → 0 < sz
    → sz % ptr_bytes ≡ 0
    → s.pcount < 2 ^ 64
    → Chain s.memory s.list xs
    → ((x : ℕ)
        → has x xs ≡ true
        → in_free (hblk_size / sz) mark_bit sz (hbp * hblk_size) 0 x ≡ false)
    → let u = reclaim_uninit hbp mark_bit sz s in
      let ys = swept (hblk_size / sz) mark_bit sz (hbp * hblk_size) 0 xs in
      Chain u.memory u.list ys
      × Chain (reclaim_clear hbp mark_bit sz s).memory (reclaim_clear hbp mark_bit sz s).list ys
      × (u.pcount ≡ (reclaim_clear hbp mark_bit sz s).pcount)
      × ((x : ℕ)
          → (in_free (hblk_size / sz) mark_bit sz (hbp * hblk_size) 0 x ≡ false)
            ⊎ (has x ys ≡ false)
          → u.memory x ≡ s.memory x)
unfolding reclaim_uninit
reclaim_uninit-reclaim_clear hbp mark_bit sz s xs nz pos whole small c out =
    let r =
      reclaim_uninit_loop-ListsFree mark_bit sz pos whole (hblk_size / sz) (hbp * hblk_size) 0 s 0
        xs (omega arith) (omega arith) c out in
    let q = reclaim_clear-Sweeps hbp mark_bit sz s xs nz pos whole small c out in
    (r.chain, q.chain, omega (arith, r.count, r.same_count, q.count), r.kept)
