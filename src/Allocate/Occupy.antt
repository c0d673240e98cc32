-- ===== src/Allocate/Occupy.antt =====
-- The layout of the heap after a free block has come into use.
use gcutil.Prelude.{
  ℕ, ◌+◌, ◌/◌, ◌<◌, ◌≡◌, ◌≢◌, refl, sym, ap, ◌∙◌, subst, true, false, ltb, ◌==◌, ==_iff,
  if◌then◌else◌, arith, Bool-cases, inl, inr,
}
use gcutil.FreeBlocks.{Hdr}
use gcutil.FreeBlocks.Moves.{true≢false}
use gcutil.Headers.{BlockTable, Slot, nil, forward, header, bottom_sz}
use gcutil.Headers.Counts.{blocks_of, behind, count_to}
use gcutil.Headers.Install.{Counted}
use gcutil.Headers.Laid.{IsLaid, end_of}

-- The headers after `h` has come into use with `sz` bytes, which take the pages that it had.
pub record Occupies (hdrs hdrs' : ℕ → Hdr) (h sz : ℕ) : Type 0 where
  pub pages : blocks_of sz ≡ blocks_of (hdrs h).hb_sz
  pub positive : 0 < sz
  pub size : (x : ℕ) → (hdrs' x).hb_sz ≡ (if x == h then sz else (hdrs x).hb_sz)
  pub free : (x : ℕ) → (hdrs' x).hb_free ≡ (if x == h then false else (hdrs x).hb_free)
  pub block : (x : ℕ) → (hdrs' x).hb_block ≡ (if x == h then h else (hdrs x).hb_block)

module _ (t t' : BlockTable) (hdrs hdrs' : ℕ → Hdr) (v : IsLaid t hdrs) (h sz : ℕ)
    (i : Counted t t' h sz) (o : Occupies hdrs hdrs' h sz) (first : t.slots h ≡ header)
    (is_free : (hdrs h).hb_free ≡ true) where
  pub size_other : (b : ℕ) → b ≢ h → (hdrs' b).hb_sz ≡ (hdrs b).hb_sz
  size_other b n = let e : (b == h) ≡ false = ground arith in o.size b ∙ (rw e refl)

  pub free_other : (b : ℕ) → b ≢ h → (hdrs' b).hb_free ≡ (hdrs b).hb_free
  free_other b n = let e : (b == h) ≡ false = ground arith in o.free b ∙ (rw e refl)

  pub size_h : (hdrs' h).hb_sz ≡ sz
  size_h = o.size h ∙ ground arith

  pub same_end : (b : ℕ) → end_of hdrs' b ≡ end_of hdrs b
  same_end b = elim (Bool-cases (b == h)) [
    | inl same ↦
        subst (λ x. end_of hdrs' x ≡ end_of hdrs x) (sym ((==_iff b h).0 same))
          (ap (λ y. h + blocks_of y) size_h ∙ ap (λ y. h + y) o.pages)
    | inr other ↦ rw (size_other b (ground arith)) refl
  ]

  behind_nil : (x : ℕ) → behind h sz x ≡ true → t.slots x ≡ nil
  behind_nil x b = let p = o.pages in v.cleared h x first is_free (ground arith) (ground arith)

  outside_slot : (x : ℕ) → behind h sz x ≡ false → t'.slots x ≡ t.slots x
  outside_slot x b = i.slot x ∙ (rw b refl)

  pub was_header : (b : ℕ) → t'.slots b ≡ header → t.slots b ≡ header
  was_header b e = elim (Bool-cases (behind h sz b)) [
    | inl inside ↦
        let c : forward (count_to h b) ≡ header = sym (i.slot b ∙ (rw inside refl)) ∙ e in
        absurd (cc)
    | inr outside ↦ sym (outside_slot b outside) ∙ e
  ]

  not_behind : (x : ℕ) (s : Slot) → t.slots x ≡ s → s ≢ nil → behind h sz x ≡ false
  not_behind x s e n = elim (Bool-cases (behind h sz x)) [
    | inl inside ↦ absurd (n (sym e ∙ behind_nil x inside))
    | inr outside ↦ outside
  ]

  pub still_header : (b : ℕ) → t.slots b ≡ header → t'.slots b ≡ header
  still_header b e = outside_slot b (not_behind b header e (λ c. cc)) ∙ e

  pub free_h : (hdrs' h).hb_free ≡ false
  free_h = o.free h ∙ ground arith

  was_free : (b : ℕ) → (hdrs' b).hb_free ≡ true → (b ≢ h) × ((hdrs b).hb_free ≡ true)
  was_free b f =
      let n : b ≢ h = λ e. true≢false (sym f ∙ ap (λ x. (hdrs' x).hb_free) e ∙ free_h) in
      (n, sym (free_other b n) ∙ f)

  was_used : (b : ℕ) → b ≢ h → (hdrs' b).hb_free ≡ false → (hdrs b).hb_free ≡ false
  was_used b n f = sym (free_other b n) ∙ f

  -- The pages behind the first of another block are none of `h`.
  apart_from_h :
      (b x : ℕ) → t.slots b ≡ header → b ≢ h → b < x → x < end_of hdrs b → behind h sz x ≡ false
  apart_from_h b x e n l m =
      let p = o.pages in
      elim (Bool-cases (ltb b h)) [
        | inl low ↦ let a = v.apart b h e first (ground arith) in ground arith
        | inr high ↦ let a = v.apart h b first e (ground arith) in ground arith
      ]

  counted' :
      (b x : ℕ)
      → t.slots b ≡ header
      → (hdrs' b).hb_free ≡ false
      → b < x
      → x < end_of hdrs b
      → t'.slots x ≡ forward (count_to b x)
  counted' b x e u l m = elim (Bool-cases (b == h)) [
    | inl same ↦
        let s = (==_iff b h).0 same in
        let p = o.pages in
        let m' = subst (λ y. x < end_of hdrs y) s m in
        let b' : behind h sz x ≡ true = ground arith in
        i.slot x ∙ (rw b' (ap (λ y. forward (count_to y x)) (sym s)))
    | inr other ↦
        let n : b ≢ h = ground arith in
        outside_slot x (apart_from_h b x e n l m) ∙ v.counted b x e (was_used b n u) l m
  ]

  owned' :
      (x n : ℕ)
      → t'.slots x ≡ forward n
      → (b : ℕ) × (t'.slots b ≡ header)
        × ((hdrs' b).hb_free ≡ false)
        × (b < x)
        × (x < end_of hdrs' b)
  owned' x n e = elim (Bool-cases (behind h sz x)) [
    | inl inside ↦
        let p = o.pages in
        (h, still_header h first, free_h, ground arith, rw (same_end h) (ground arith))
    | inr outside ↦
        let (b, f, u, l, m) = v.owned x n (sym (outside_slot x outside) ∙ e) in
        let k : b ≢ h = λ s. true≢false (sym (ap (λ y. (hdrs y).hb_free) s ∙ is_free) ∙ u) in
        (b, still_header b f, free_other b k ∙ u, l, rw (same_end b) m)
  ]

  sized' : (b : ℕ) → t.slots b ≡ header → 0 < (hdrs' b).hb_sz
  sized' b e = let p = o.positive in let s = o.size b in let z = v.sized b e in ground arith

  own' : (b : ℕ) → t.slots b ≡ header → (hdrs' b).hb_block ≡ b
  own' b e = let s = o.block b in let z = v.own b e in ground arith

  pub Occupies-IsLaid : IsLaid t' hdrs'
  Occupies-IsLaid = record {
    own = λ b e. own' b (was_header b e);
    indexed = λ b e. i.kept (b / bottom_sz) (v.indexed b (was_header b e));
    ascending = i.ascending;
    sized = λ b e. sized' b (was_header b e);
    whole =
        λ b e f. let (n, f') = was_free b f in rw (size_other b n) (v.whole b (was_header b e) f');
    apart = λ b c e f l. rw (same_end b) (v.apart b c (was_header b e) (was_header c f) l);
    counted = λ b x e u l m. counted' b x (was_header b e) u l (subst (λ y. x < y) (same_end b) m);
    cleared = λ b x e f l m.
        let (n, f') = was_free b f in
        let e' = was_header b e in
        let m' = subst (λ y. x < y) (same_end b) m in
        outside_slot x (apart_from_h b x e' n l m') ∙ v.cleared b x e' f' l m';
    owned = owned';
  }
