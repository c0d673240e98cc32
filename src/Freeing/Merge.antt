-- ===== src/Freeing/Merge.antt =====
-- The merge of a freed block with its successor.
use gcutil.Prelude.{
  ℕ, ◌+◌, ◌/◌, ◌^◌, ◌≤◌, ◌<◌, ◌≡◌, ◌≢◌, refl, sym, ap, ◌∙◌, subst, true, false, leb, ltb, ◌==◌,
  ==_iff, arith, Bool-cases, inl, inr, List,
}
use gcutil.FreeBlocks.{hblk_size}
use gcutil.FreeBlocks.Moves.{true≢false}
use gcutil.Headers.{Slot, nil, forward, header}
use gcutil.Headers.Laid.{end_of}
use gcutil.Freeing.{Arena, hdr_at, absorb, can_merge, is_free_block, merge_next}
use gcutil.Freeing.Loose.{IsFree, IsLoose, KeepsUsed, MergeOverflow}
use gcutil.Freeing.Absorb.{
  IsPair, merged-KeepsUsed, other_end, taken_off, merged-IsLoose, merged-IsFree, IsFree-merged,
  merged_first, merged_end, merged_size, other_size, absorb-bytes,
}

-- No block that starts where `h` ends is free, unless the two are too large together.
abbrev pub IsAhead : Arena → ℕ → Type 0
IsAhead a h = (c : ℕ) → IsFree a c → end_of a.heap.hdrs h ≡ c → MergeOverflow a h c

abbrev pub IsBehind : Arena → ℕ → Type 0
IsBehind a h = (b : ℕ) → IsFree a b → end_of a.heap.hdrs b ≡ h → MergeOverflow a b h

-- The state after the free block `h` has been merged with its successor, or not.
pub record Extends (a a' : Arena) (h : ℕ) : Type 0 where
  pub lists : ℕ → List ℕ
  pub loose : IsLoose a' lists h
  pub free : IsFree a' h
  pub ahead : IsAhead a' h
  pub back : (x : ℕ) → IsFree a' x → x ≢ h → IsFree a x
  pub still : (x : ℕ) → IsFree a x → x < h → IsFree a' x
  pub ends : (x : ℕ) → x ≢ h → end_of a'.heap.hdrs x ≡ end_of a.heap.hdrs x
  pub wide : end_of a.heap.hdrs h ≤ end_of a'.heap.hdrs h
  pub used : KeepsUsed a a' h
  pub bytes : a'.large_free_bytes ≡ a.large_free_bytes

module _ (a : Arena) (ls : ℕ → List ℕ) (h : ℕ) (v : IsLoose a ls h) (first : IsFree a h) where
  -- A slot where a block ends belongs to a block that starts there, if to any.
  not_forward : (n : ℕ) → a.table.slots (end_of a.heap.hdrs h) ≢ forward n
  not_forward n e =
      let (b, f, u, l, m) = v.laid.owned (end_of a.heap.hdrs h) n e in
      elim (Bool-cases (ltb b h)) [
        | inl low ↦ omega (arith, v.laid.apart b h f first.0 (ground arith), v.laid.sized h first.0)
        | inr high ↦ elim (Bool-cases (b == h)) [
          | inl same ↦
              true≢false
                (sym first.1 ∙ ap (λ x. (hdr_at a x).hb_free) (sym ((==_iff b h).0 same)) ∙ u)
          | inr other ↦ omega (arith, v.laid.apart h b first.0 f (ground arith))
        ]
      ]

  IsFree-next :
      (s : Slot)
      → a.table.slots (end_of a.heap.hdrs h) ≡ s
      → is_free_block a (end_of a.heap.hdrs h) ≡ true
      → IsFree a (end_of a.heap.hdrs h)
  IsFree-next nil e f =
      absurd (let n : is_free_block a (end_of a.heap.hdrs h) ≡ false = (rw e refl) in cc)
  IsFree-next (forward n) e f = absurd (not_forward n e)
  IsFree-next header e f = (e, ground arith)

  not_free : (n : ℕ) → IsFree a n → is_free_block a n ≡ false → ⊥
  not_free n (e, f) o =
      let t : is_free_block a n ≡ true = (rw (e, f) refl) in true≢false (sym t ∙ o)

  not_merged :
      ((c : ℕ) → IsFree a c → end_of a.heap.hdrs h ≡ c → MergeOverflow a h c) → Extends a a h
  not_merged ahead = record {
    lists = ls;
    loose = v;
    free = first;
    ahead = ahead;
    back = λ x f n. f;
    still = λ x f l. f;
    ends = λ x n. refl;
    wide = omega arith;
    used = λ b u n. (u, refl);
    bytes = refl;
  }

  module _ (k : ℕ) (meet : end_of a.heap.hdrs h ≡ k) (g : IsFree a k)
      (fits : (hdr_at a h).hb_sz + (hdr_at a k).hb_sz < 2 ^ 63) where
    apart_from : k ≢ h
    apart_from = omega (arith, v.laid.sized h first.0)

    pair : IsPair a ls h k h k
    pair = record {
      loose = v;
      sides = inl (refl, refl);
      kept = first;
      was = g;
      listed_off = g;
      ne = apart_from;
      meet = meet;
      fits = fits;
    }

    ahead : IsAhead (absorb a h k k) h
    ahead c f l =
        let w = merged_end pair in
        let bigger = v.laid.sized k g.0 in
        let c_h : c ≢ h = omega arith in
        let s = v.separate k c g (merged-IsFree pair c f).0 apart_from c_h (sym w ∙ l) in
        let t = other_size pair c c_h in omega (arith, merged_size pair)

    extended : Extends a (absorb a h k k) h
    extended = record {
      lists = taken_off pair;
      loose = merged-IsLoose pair;
      free = merged_first pair;
      ahead = ahead;
      back = λ x f n. (merged-IsFree pair x f).0;
      still = λ x f l. IsFree-merged pair x f (omega arith);
      ends = other_end pair;
      wide = omega (arith, merged_end pair);
      used = merged-KeepsUsed pair;
      bytes = absorb-bytes a h k k;
    }

  pub merge_next-Extends :
      (size : ℕ) → (hdr_at a h).hb_sz ≡ size → Extends a (merge_next a h (h + size / hblk_size)) h
  unfolding merge_next can_merge
  merge_next-Extends size e =
      let w = v.laid.whole h first.0 first.1 in
      let meet : end_of a.heap.hdrs h ≡ h + size / hblk_size = omega arith in
      elim (Bool-cases (is_free_block a (h + size / hblk_size))) [
        | inr other ↦ rw other (
            not_merged
              (λ c f l. absurd (not_free c f (ap (λ n. is_free_block a n) (sym l ∙ meet) ∙ other))))
        | inl other ↦
            let g : IsFree a (h + size / hblk_size) =
              subst (λ n. IsFree a n) meet
                (IsFree-next (a.table.slots (end_of a.heap.hdrs h)) refl
                  (ap (λ n. is_free_block a n) meet ∙ other)) in
            elim (Bool-cases
              (leb (2 ^ 63) ((hdr_at a h).hb_sz + (hdr_at a (h + size / hblk_size)).hb_sz))) [
                | inl much ↦
                    rw (other, much)
                      (not_merged
                        (λ c f l. subst (λ n. MergeOverflow a h n) (sym meet ∙ l) (ground arith)))
                | inr fits ↦
                    rw (other, fits) (extended (h + size / hblk_size) meet g (ground arith))
              ]
      ]
