-- ===== src/Freeing/Join.antt =====
-- The merge of a freed block with its predecessor.
use gcutil.Prelude.{
  ℕ, ◌+◌, ◌^◌, ◌≤◌, ◌<◌, ◌≡◌, ◌≢◌, refl, sym, ap, ◌∙◌, subst, leb, ltb, arith, Bool-cases, inl, inr,
  List, Option, none, some,
}
use gcutil.Headers.Laid.{end_of}
use gcutil.Freeing.{Arena, hdr_at, absorb, can_merge, merge_prev}
use gcutil.Freeing.Loose.{IsFree, IsLoose, KeepsUsed, MergeOverflow}
use gcutil.Freeing.Absorb.{
  IsPair, merged-KeepsUsed, other_end, taken_off, merged-IsLoose, merged-IsFree, merged_first,
  merged_end, merged_size, other_size, absorb-bytes,
}
use gcutil.Freeing.Merge.{IsAhead, IsBehind}

-- The free block that ends at `h`, if there is one.
abbrev pub IsPrevious : Arena → ℕ → Option ℕ → Type 0
IsPrevious a h none = (p : ℕ) → IsFree a p → end_of a.heap.hdrs p ≢ h
IsPrevious a h (some p) = IsFree a p × (end_of a.heap.hdrs p ≡ h)

-- The state after the merge with the predecessor, or without, when `m` is the free block.
pub record Coalesces (a a' : Arena) (h m : ℕ) : Type 0 where
  pub lists : ℕ → List ℕ
  pub loose : IsLoose a' lists m
  pub free : IsFree a' m
  pub ahead : IsAhead a' m
  pub behind : IsBehind a' m
  pub starts : m ≤ h
  pub wide : end_of a.heap.hdrs h ≤ end_of a'.heap.hdrs m
  pub used : KeepsUsed a a' h
  pub bytes : a'.large_free_bytes ≡ a.large_free_bytes

module _ (a : Arena) (ls : ℕ → List ℕ) (h : ℕ) (v : IsLoose a ls h) (first : IsFree a h)
    (ahead : IsAhead a h) where
  not_joined : IsBehind a h → Coalesces a a h h
  not_joined behind = record {
    lists = ls;
    loose = v;
    free = first;
    ahead = ahead;
    behind = behind;
    starts = omega arith;
    wide = omega arith;
    used = λ b u n. (u, refl);
    bytes = refl;
  }

  -- Two blocks do not end at the same place.
  only_end :
      (p q : ℕ) → IsFree a p → IsFree a q → end_of a.heap.hdrs p ≡ end_of a.heap.hdrs q → p ≡ q
  only_end p q f g e =
      let sp = v.laid.sized p f.0 in
      let sq = v.laid.sized q g.0 in
      elim (Bool-cases (ltb p q)) [
        | inl low ↦ absurd (omega (arith, v.laid.apart p q f.0 g.0 (ground arith)))
        | inr high ↦ elim (Bool-cases (ltb q p)) [
          | inl low ↦ absurd (omega (arith, v.laid.apart q p g.0 f.0 (ground arith)))
          | inr same ↦ ground arith
        ]
      ]

  module _ (p : ℕ) (g : IsFree a p) (meet : end_of a.heap.hdrs p ≡ h)
      (fits : (hdr_at a p).hb_sz + (hdr_at a h).hb_sz < 2 ^ 63) where
    joined-IsPair : IsPair a ls p h h p
    joined-IsPair = record {
      loose = v;
      sides = inr (refl, refl);
      kept = g;
      was = first;
      listed_off = g;
      ne = omega (arith, v.laid.sized p g.0);
      meet = meet;
      fits = fits;
    }

    joined-IsAhead : IsAhead (absorb a p h p) p
    joined-IsAhead c f l =
        let w = merged_end joined-IsPair in
        let bigger = v.laid.sized h first.0 in
        let below = v.laid.sized p g.0 in
        let c_p : c ≢ p = omega arith in
        let s = ahead c (merged-IsFree joined-IsPair c f).0 (sym w ∙ l) in
        let t = other_size joined-IsPair c c_p in omega (arith, merged_size joined-IsPair)

    joined-IsBehind : IsBehind (absorb a p h p) p
    joined-IsBehind b f l =
        let w = merged_end joined-IsPair in
        let bigger = v.laid.sized h first.0 in
        let below = v.laid.sized p g.0 in
        let (f', b_h) = merged-IsFree joined-IsPair b f in
        let b_p : b ≢ p = λ e. omega (arith, ap (λ x. end_of (absorb a p h p).heap.hdrs x) e) in
        let s =
          v.separate b p f' g b_h (joined-IsPair.ne) (sym (other_end joined-IsPair b b_p) ∙ l) in
        let t = other_size joined-IsPair b b_p in omega (arith, merged_size joined-IsPair)

    joined : Coalesces a (absorb a p h p) h p
    joined = record {
      lists = taken_off joined-IsPair;
      loose = merged-IsLoose joined-IsPair;
      free = merged_first joined-IsPair;
      ahead = joined-IsAhead;
      behind = joined-IsBehind;
      starts = omega arith;
      wide = omega (arith, merged_end joined-IsPair);
      used = merged-KeepsUsed joined-IsPair;
      bytes = absorb-bytes a p h p;
    }

  pub merge_prev-Coalesces :
      (r : Option ℕ) → IsPrevious a h r → Coalesces a (merge_prev a h r).0 h (merge_prev a h r).1
  unfolding merge_prev can_merge
  merge_prev-Coalesces none n = not_joined (λ b f l. absurd (n b f l))
  merge_prev-Coalesces (some p) (g, l) =
      elim (Bool-cases (leb (2 ^ 63) ((hdr_at a p).hb_sz + (hdr_at a h).hb_sz))) [
        | inl much ↦ rw much (
            not_joined (λ b f m.
              let s = only_end p b g f (l ∙ sym m) in
              subst (λ x. MergeOverflow a x h) s (ground arith)))
        | inr fits ↦ rw fits (joined p g l (ground arith))
      ]
