-- ===== src/Allocate/Cut.antt =====
-- The heap after `GC_split_block`.
use gcutil.Prelude.{
  ℕ, ◌-◌, ◌*◌, ◌/◌, ◌^◌, ◌<◌, ◌≤◌, ◌≡◌, ◌≢◌, refl, sym, ap, ◌∙◌, subst, true, false, ◌||◌, ◌&&◌,
  ◌==◌, ==_iff, if◌then◌else◌, arith, List, ◌∷◌, Bool-cases, inl, inr, write,
}
use gcutil.FreeBlocks.{hblk_size, hblk_fl_from_blocks, split_block}
use gcutil.FreeBlocks.Cuts.{split_block-fields}
use gcutil.FreeBlocks.Lists.{has, swap, has-swap}
use gcutil.FreeBlocks.Moves.{Holds, true≢false}
use gcutil.FreeBlocks.Split.{split_block-Holds}
use gcutil.Headers.{BlockTable, nil, header}
use gcutil.Headers.Install.{Installed}
use gcutil.Headers.Laid.{end_of}
use gcutil.Freeing.{Arena, hdr_at}
use gcutil.Freeing.Loose.{IsFree, class_of}
use gcutil.Allocate.Divide.{Divides, IsDivided, Divides-IsDivided}
use gcutil.Allocate.State.{IsTight, IsOn, IsTight-separate, KeepsAllUsed}

module _ (a : Arena) (ls : ℕ → List ℕ) (v : IsTight a ls) (h index : ℕ)
    (i : has h (ls index) ≡ true) (last : ℕ) (l : h < last) (u : last < end_of a.heap.hdrs h)
    (t : BlockTable) (inst : Installed a.table t last) where
  abbrev free_at : IsFree a h
  free_at = v.filed.listed index h i

  abbrev pub split_arena : Arena
  split_arena = record a { heap = split_block a.heap h last index; table = t }

  not_listed : (j : ℕ) → has last (ls j) ≡ false
  not_listed j = elim (Bool-cases (has last (ls j))) [
    | inl here ↦
        let n = v.filed.laid.cleared h last free_at.0 free_at.1 l u in
        let c : nil ≡ header = sym n ∙ (v.filed.listed j last here).0 in absurd (cc)
    | inr out ↦ out
  ]

  bytes : ℕ
  bytes = (last - h) * hblk_size

  swapped : ℕ → List ℕ
  swapped = write ls index (swap h last (ls index))

  class : ℕ
  class = hblk_fl_from_blocks ((last - h) * hblk_size / hblk_size)

  pub split_lists : ℕ → List ℕ
  split_lists = write swapped class (h ∷ swapped class)

  has-swapped :
      (j y : ℕ)
      → has y (swapped j) ≡ (
          if j == index
          then (y == last) || (if y == h then false else has y (ls index))
          else has y (ls j))
  unfolding swapped write
  has-swapped j y = ground (arith, has-swap y h last (ls index) (v.filed.holds.distinct index) i)

  has-split_lists :
      (j y : ℕ) → has y (split_lists j) ≡ (((j == class) && (y == h)) || has y (swapped j))
  unfolding split_lists write
  has-split_lists j y = ground arith

  other_lists : (j y : ℕ) → y ≢ h → y ≢ last → has y (split_lists j) ≡ has y (ls j)
  other_lists j y n k = ground (arith, has-split_lists j y, has-swapped j y)

  sizes : last - h ≤ (hdr_at a h).hb_sz / hblk_size
  sizes = omega arith

  divides : Divides a.heap.hdrs split_arena.heap.hdrs h last
  divides =
      let f = λ (y : ℕ). split_block-fields a.heap h last index (omega arith) y in
      record {
        low = (f h).0 ∙ ground arith;
        high = (f last).0 ∙ ground arith;
        size = λ x n k. (f x).0 ∙ ground arith;
        free = λ x. (f x).1 ∙ ground (arith, free_at.1);
        block = λ x. (f x).2;
      }

  parts : IsDivided a.table t a.heap.hdrs split_arena.heap.hdrs h last
  parts =
      Divides-IsDivided a.table t a.heap.hdrs split_arena.heap.hdrs v.filed.laid h last inst divides
        free_at.0 free_at.1 l u

  was_free : (b : ℕ) → IsFree split_arena b → b ≢ last → IsFree a b
  was_free b (e, f) n = (parts.was_header b e n, sym (parts.free_same b n) ∙ f)

  still_free : (b : ℕ) → IsFree a b → IsFree split_arena b
  still_free b (e, f) = (parts.still_header b e, parts.free_same b (parts.new b e) ∙ f)

  last_free : IsFree split_arena last
  last_free = (parts.slot_m, parts.free_m)

  holds : Holds split_arena.heap split_lists
  unfolding split_lists swapped class
  holds =
      (split_block-Holds a.heap ls v.filed.holds h last index i (omega arith) not_listed
        (omega arith)).0

  -- Cases on a free block of the new heap.
  by_free :
      (P : ℕ → Type 0)
      → P h
      → P last
      → ((b : ℕ) → b ≢ h → b ≢ last → IsFree a b → P b)
      → (b : ℕ) → IsFree split_arena b
      → P b
  by_free P low high rest b f = elim (Bool-cases (b == h)) [
    | inl same ↦ subst P (sym ((==_iff b h).0 same)) low
    | inr other ↦ elim (Bool-cases (b == last)) [
      | inl same ↦ subst P (sym ((==_iff b last).0 same)) high
      | inr new ↦ rest b (ground arith) (ground arith) (was_free b f (ground arith))
    ]
  ]

  -- No block begins between the first page of `h` and its end.
  not_inside : (c : ℕ) → IsFree a c → h < c → end_of a.heap.hdrs h ≤ c
  not_inside c f lt = v.filed.laid.apart h c free_at.0 f.0 lt

  filed_h : has h (split_lists (class_of split_arena.heap.hdrs h)) ≡ true
  unfolding class
  filed_h =
      let c : class_of split_arena.heap.hdrs h ≡ class =
        ap (λ n. hblk_fl_from_blocks (n / hblk_size)) divides.low in
      ground (arith, has-split_lists (class_of split_arena.heap.hdrs h) h)

  listed' : (j x : ℕ) → has x (split_lists j) ≡ true → IsFree split_arena x
  listed' j x e = elim (Bool-cases (x == h)) [
    | inl same ↦
        subst (λ y. IsFree split_arena y) (sym ((==_iff x h).0 same)) (still_free h free_at)
    | inr other ↦ elim (Bool-cases (x == last)) [
      | inl same ↦ subst (λ y. IsFree split_arena y) (sym ((==_iff x last).0 same)) last_free
      | inr new ↦
          still_free x
            (v.filed.listed j x (sym (other_lists j x (ground arith) (ground arith)) ∙ e))
    ]
  ]

  -- After the split the upper part `last` is on list `index`, the lower part and the other free
  -- blocks are on the lists of their classes, and nothing free is behind `last`.
  pub split_arena-IsOn : IsOn split_arena split_lists last index
  split_arena-IsOn = record {
    holds = holds;
    laid = parts.laid;
    nonzero = λ e. v.filed.nonzero (sym (inst.slot 0 ∙ ground arith) ∙ e);
    free = last_free;
    at_index = ground (arith, has-split_lists index last, has-swapped index last);
    filed =
        by_free (λ b. b ≢ last → has b (split_lists (class_of split_arena.heap.hdrs b)) ≡ true)
          (λ n. filed_h) (λ n. absurd (n refl))
          (λ b n k f m.
            rw (divides.size b n k)
              (other_lists (class_of a.heap.hdrs b) b n k ∙ v.filed.filed b f));
    listed = listed';
    low =
        by_free (λ b. end_of split_arena.heap.hdrs b * hblk_size < 2 ^ 63)
          (let q = parts.end_low in omega (arith, v.low h free_at))
          (let q = parts.end_high in omega (arith, v.low h free_at))
          (λ b n k f. let q = parts.end_other b n k in omega (arith, v.low b f));
    separate = λ b c f.
        by_free
          (λ b. (c : ℕ) → IsFree split_arena c → c ≢ last → end_of split_arena.heap.hdrs b ≡ c → ⊥)
          (λ c f n e. n (sym e ∙ parts.end_low))
          (λ c f n e. IsTight-separate a ls v h c free_at (was_free c f n) (sym parts.end_high ∙ e))
          (λ b n k f c g m e.
            IsTight-separate a ls v b c f (was_free c g m) (sym (parts.end_other b n k) ∙ e))
          b f c;
  }

  pub split_arena-KeepsAllUsed : KeepsAllUsed a split_arena
  split_arena-KeepsAllUsed b (e, f) =
      let n : b ≢ h = λ s. true≢false (sym (ap (λ x. (hdr_at a x).hb_free) s ∙ free_at.1) ∙ f) in
      let k = parts.new b e in
      ((parts.still_header b e, parts.free_same b k ∙ f), parts.end_other b n k)

  pub split_arena-end : end_of split_arena.heap.hdrs last ≡ end_of a.heap.hdrs h
  split_arena-end = parts.end_high
