-- ===== src/Freeing/PutBack.antt =====
-- The well-formed heap, and the last step of `GC_freehblk`: the free block goes to its list.
use gcutil.Prelude.{
  ℕ, ◌^◌, ◌<◌, ◌≡◌, ◌≢◌, refl, sym, ap, ◌∙◌, subst, true, ◌||◌, ◌&&◌, ◌==◌, ==_iff, arith,
  Bool-cases, inl, inr, List, ◌∷◌, write, word_add,
}
use gcutil.FreeBlocks.{add_to_fl}
use gcutil.FreeBlocks.Lists.{has}
use gcutil.FreeBlocks.Fields.{
  add_to_fl-hdrs, link_front-hb_sz, link_front-hb_free, link_front-hb_block,
}
use gcutil.FreeBlocks.Moves.{Holds, add_to_fl-Holds}
use gcutil.FreeBlocks.Split.{add_to_fl-hb_sz}
use gcutil.Headers.{header}
use gcutil.Headers.Laid.{IsLaid, end_of}
use gcutil.Freeing.{Arena, hdr_at}
use gcutil.Freeing.Layout.{Same, Same-IsLaid}
use gcutil.Freeing.Loose.{IsFree, KeepsUsed, IsLoose, MergeOverflow, class_of}
use gcutil.Freeing.Merge.{IsAhead, IsBehind}

-- The free lists hold `ls`: each free block is on the list of its class and no other block is on
-- a list, the blocks lie next to each other, and two neighbouring free blocks are too large to be
-- one.
pub record IsFiled (a : Arena) (ls : ℕ → List ℕ) : Type 0 where
  pub holds : Holds a.heap ls
  pub laid : IsLaid a.table a.heap.hdrs
  pub nonzero : a.table.slots 0 ≢ header
  pub filed : (b : ℕ) → IsFree a b → has b (ls (class_of a.heap.hdrs b)) ≡ true
  pub listed : (j x : ℕ) → has x (ls j) ≡ true → IsFree a x
  pub small : (b : ℕ) → IsFree a b → (hdr_at a b).hb_sz < 2 ^ 63
  pub separate :
      (b c : ℕ) → IsFree a b → IsFree a c → end_of a.heap.hdrs b ≡ c → MergeOverflow a b c

-- What is left to do with the free block that results.
unfoldable pub put_back : Arena → ℕ → ℕ → Arena
put_back a m size = record a {
  heap = add_to_fl a.heap m;
  large_free_bytes = word_add a.large_free_bytes size;
}

module _ (a : Arena) (m size : ℕ) where
  put_back-hb_sz : (x : ℕ) → (hdr_at (put_back a m size) x).hb_sz ≡ (hdr_at a x).hb_sz
  unfolding put_back
  put_back-hb_sz x = add_to_fl-hb_sz a.heap m x

  pub put_back-end : (x : ℕ) → end_of (put_back a m size).heap.hdrs x ≡ end_of a.heap.hdrs x
  put_back-end x = rw (put_back-hb_sz x) refl

  pub put_back-bytes : (put_back a m size).large_free_bytes ≡ word_add a.large_free_bytes size
  unfolding put_back
  put_back-bytes = refl

module _ (a : Arena) (ls : ℕ → List ℕ) (m size : ℕ) (v : IsLoose a ls m) (free : IsFree a m)
    (ahead : IsAhead a m) (behind : IsBehind a m) where
  c : ℕ
  c = class_of a.heap.hdrs m

  abbrev pub filed_lists : ℕ → List ℕ
  filed_lists = write ls (class_of a.heap.hdrs m) (m ∷ ls (class_of a.heap.hdrs m))

  put_back-hdrs :
      (x : ℕ)
      → ((hdr_at (put_back a m size) x).hb_sz ≡ (hdr_at a x).hb_sz)
        × ((hdr_at (put_back a m size) x).hb_free ≡ (hdr_at a x).hb_free)
        × ((hdr_at (put_back a m size) x).hb_block ≡ (hdr_at a x).hb_block)
  unfolding put_back
  put_back-hdrs x =
      let e = add_to_fl-hdrs a.heap m in
      let p = a.heap.hblkfreelist (class_of a.heap.hdrs m) in
      (
        ap (λ f. (f x).hb_sz) e ∙ link_front-hb_sz a.heap.hdrs m p x,
        ap (λ f. (f x).hb_free) e ∙ link_front-hb_free a.heap.hdrs m p x ∙ ground (arith, free.1),
        ap (λ f. (f x).hb_block) e ∙ link_front-hb_block a.heap.hdrs m p x,
      )

  put_back-IsFree : (x : ℕ) → IsFree (put_back a m size) x → IsFree a x
  unfolding put_back
  put_back-IsFree x (e, f) = (e, sym (put_back-hdrs x).1 ∙ f)

  pub put_back-IsFree_back : (x : ℕ) → IsFree a x → IsFree (put_back a m size) x
  unfolding put_back
  put_back-IsFree_back x (e, f) = (e, (put_back-hdrs x).1 ∙ f)

  put_back-Same : Same a.heap.hdrs (put_back a m size).heap.hdrs
  put_back-Same = record {
    size = λ x. (put_back-hdrs x).0;
    free = λ x. (put_back-hdrs x).1;
    block = λ x. (put_back-hdrs x).2;
  }

  has-filed_lists :
      (j x : ℕ) → has x (filed_lists j) ≡ ((x == m && j == class_of a.heap.hdrs m) || has x (ls j))
  unfolding write
  has-filed_lists j x = ground arith

  put_back-separate :
      (b d : ℕ) → IsFree a b → IsFree a d → end_of a.heap.hdrs b ≡ d → MergeOverflow a b d
  put_back-separate b d f g e = elim (Bool-cases (b == m)) [
    | inl same ↦
        let s = sym ((==_iff b m).0 same) in
        subst (λ x. end_of a.heap.hdrs x ≡ d → MergeOverflow a x d) s (ahead d g) e
    | inr other ↦ elim (Bool-cases (d == m)) [
      | inl same ↦
          let s = sym ((==_iff d m).0 same) in
          subst (λ x. end_of a.heap.hdrs b ≡ x → MergeOverflow a b x) s (behind b f) e
      | inr other' ↦ v.separate b d f g (ground arith) (ground arith) e
    ]
  ]

  pub put_back-KeepsUsed : (h : ℕ) → KeepsUsed a (put_back a m size) h
  unfolding put_back
  put_back-KeepsUsed h x (e, u) n = ((e, (put_back-hdrs x).1 ∙ u), put_back-end a m size x)

  pub put_back-IsFiled : IsFiled (put_back a m size) filed_lists
  unfolding put_back
  put_back-IsFiled = record {
    holds =
        add_to_fl-Holds a.heap ls m (hdr_at a m).hb_sz v.holds
          (λ e. v.nonzero (ap (λ x. a.table.slots x) (sym e) ∙ free.0)) v.out refl
          (omega (arith, v.small m free));
    laid = Same-IsLaid a.table a.heap.hdrs (put_back a m size).heap.hdrs v.laid put_back-Same;
    nonzero = v.nonzero;
    filed = λ b f. rw ((put_back-hdrs b).0) (
        has-filed_lists (class_of a.heap.hdrs b) b ∙ (elim (Bool-cases (b == m)) [
          | inl same ↦
              let s = (==_iff b m).0 same in
              let k = ap (λ x. class_of a.heap.hdrs x) s in ground arith
          | inr other ↦ let k = v.filed b (put_back-IsFree b f) (ground arith) in ground arith
        ]));
    listed = λ j x i. elim (Bool-cases (x == m)) [
      | inl same ↦
          subst (λ y. IsFree (put_back a m size) y) (sym ((==_iff x m).0 same))
            (put_back-IsFree_back m free)
      | inr other ↦
          let k = has-filed_lists j x in put_back-IsFree_back x (v.listed j x (ground arith))
    ];
    small = λ b f. rw ((put_back-hdrs b).0) (v.small b (put_back-IsFree b f));
    separate = λ b d f g e.
        rw ((put_back-hdrs b).0, (put_back-hdrs d).0)
          (put_back-separate b d (put_back-IsFree b f) (put_back-IsFree d g)
            (rw (sym (put_back-hdrs b).0) e));
  }
