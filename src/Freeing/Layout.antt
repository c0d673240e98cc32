-- ===== src/Freeing/Layout.antt =====
-- The layout of the heap after two neighbouring free blocks have become one.
use gcutil.Prelude.{
  ℕ, ◌+◌, ◌%◌, ◌≤◌, ◌<◌, ◌≡◌, ◌≢◌, refl, sym, ap, ◌∙◌, subst, true, false, ltb, ◌==◌, ==_iff,
  if◌then◌else◌, arith, Bool-cases, inl, inr, write,
}
use gcutil.FreeBlocks.{Hdr, hblk_size}
use gcutil.FreeBlocks.Moves.{true≢false}
use gcutil.Headers.{Slot, BlockTable, nil, forward, header, remove_header}
use gcutil.Headers.Counts.{count_to}
use gcutil.Headers.Laid.{IsLaid, end_of}

-- The headers after `keep` has taken the bytes of `gone`.
pub record Takes (hdrs hdrs' : ℕ → Hdr) (keep gone : ℕ) : Type 0 where
  pub size :
      (x : ℕ)
      → (hdrs' x).hb_sz
        ≡ (if x == keep then (hdrs keep).hb_sz + (hdrs gone).hb_sz else (hdrs x).hb_sz)
  pub free : (x : ℕ) → (hdrs' x).hb_free ≡ (hdrs x).hb_free
  pub block : (x : ℕ) → (hdrs' x).hb_block ≡ (hdrs x).hb_block

remove_header-slots :
    (t : BlockTable) (h x : ℕ) → (remove_header t h).slots x ≡ (if x == h then nil else t.slots x)
unfolding remove_header write
remove_header-slots t h x = refl

remove_header-keys : (t : BlockTable) (h : ℕ) → (remove_header t h).keys ≡ t.keys
unfolding remove_header
remove_header-keys t h = refl

module _ (t : BlockTable) (hdrs hdrs' : ℕ → Hdr) (v : IsLaid t hdrs) (keep gone : ℕ)
    (taken : Takes hdrs hdrs' keep gone) (kept : t.slots keep ≡ header)
    (was : t.slots gone ≡ header) (free_keep : (hdrs keep).hb_free ≡ true)
    (free_gone : (hdrs gone).hb_free ≡ true) (meet : end_of hdrs keep ≡ gone) where
  abbrev pub t' : BlockTable
  t' = remove_header t gone

  slots' : (x : ℕ) → t'.slots x ≡ (if x == gone then nil else t.slots x)
  slots' x = remove_header-slots t gone x

  -- What is still a header was one before.
  pub was_header : (b : ℕ) → t'.slots b ≡ header → (t.slots b ≡ header) × (b ≢ gone)
  was_header b e = elim (Bool-cases (b == gone)) [
    | inl same ↦ let c : nil ≡ header = sym (slots' b ∙ (rw same refl)) ∙ e in absurd (cc)
    | inr other ↦ (sym (slots' b ∙ (rw other refl)) ∙ e, ground arith)
  ]

  pub still_header : (b : ℕ) → t.slots b ≡ header → b ≢ gone → t'.slots b ≡ header
  still_header b e ne = let o : (b == gone) ≡ false = ground arith in slots' b ∙ (rw o e)

  below : keep < gone
  below = omega (arith, v.sized keep kept)

  -- Both sizes are whole pages, so the pages of the two add up.
  pub end_keep : end_of hdrs' keep ≡ end_of hdrs gone
  end_keep =
      let s : (hdrs' keep).hb_sz ≡ (hdrs keep).hb_sz + (hdrs gone).hb_sz =
        taken.size keep ∙ ground arith in
      let p = v.whole keep kept free_keep in
      let q = v.whole gone was free_gone in rw s (omega arith)

  pub end_other : (b : ℕ) → b ≢ keep → end_of hdrs' b ≡ end_of hdrs b
  end_other b ne =
      let s : (hdrs' b).hb_sz ≡ (hdrs b).hb_sz = taken.size b ∙ ground arith in rw s refl

  other_slot : (x : ℕ) (s : Slot) → t.slots x ≡ s → s ≢ header → t'.slots x ≡ s
  other_slot x s e ne = elim (Bool-cases (x == gone)) [
    | inl same ↦ absurd (ne (sym e ∙ ap (λ y. t.slots y) ((==_iff x gone).0 same) ∙ was))
    | inr other ↦ slots' x ∙ (rw other e)
  ]

  forward_slot : (x n : ℕ) → t'.slots x ≡ forward n → t.slots x ≡ forward n
  forward_slot x n e = elim (Bool-cases (x == gone)) [
    | inl same ↦ let c : nil ≡ forward n = sym (slots' x ∙ (rw same refl)) ∙ e in absurd (cc)
    | inr other ↦ sym (slots' x ∙ (rw other refl)) ∙ e
  ]

  apart' :
      (b c : ℕ) → t.slots b ≡ header → t.slots c ≡ header → c ≢ gone → b < c → end_of hdrs' b ≤ c
  apart' b c e f ne l = elim (Bool-cases (b == keep)) [
    | inl same ↦
        let s = (==_iff b keep).0 same in
        let m : end_of hdrs keep ≤ c = v.apart keep c kept f (ground arith) in
        let n : end_of hdrs gone ≤ c = v.apart gone c was f (ground arith) in
        subst (λ x. end_of hdrs' x ≤ c) (sym s) (omega (arith, end_keep))
    | inr other ↦ let m = v.apart b c e f l in let o = end_other b (ground arith) in omega arith
  ]

  in_use : (b : ℕ) → (hdrs b).hb_free ≡ false → (b ≢ keep) × (b ≢ gone)
  in_use b used = (
    λ e. absurd (true≢false (sym free_keep ∙ ap (λ x. (hdrs x).hb_free) (sym e) ∙ used)),
    λ e. absurd (true≢false (sym free_gone ∙ ap (λ x. (hdrs x).hb_free) (sym e) ∙ used)),
  )

  -- The pages of `gone` behind its first have no slot, and its first has none now.
  cleared_keep : (x : ℕ) → keep < x → x < end_of hdrs gone → t'.slots x ≡ nil
  cleared_keep x l m = elim (Bool-cases (x == gone)) [
    | inl same ↦ slots' x ∙ (rw same refl)
    | inr other ↦ elim (Bool-cases (ltb x gone)) [
      | inl low ↦ other_slot x nil (v.cleared keep x kept free_keep l (ground arith)) (λ e. cc)
      | inr high ↦ other_slot x nil (v.cleared gone x was free_gone (ground arith) m) (λ e. cc)
    ]
  ]

  cleared' :
      (b x : ℕ)
      → t.slots b ≡ header
      → (hdrs b).hb_free ≡ true
      → b < x
      → x < end_of hdrs' b
      → t'.slots x ≡ nil
  cleared' b x e f l m = elim (Bool-cases (b == keep)) [
    | inl same ↦
        let s = (==_iff b keep).0 same in
        let m' = subst (λ y. x < end_of hdrs' y) s m in
        cleared_keep x (ground arith) (omega (arith, end_keep))
    | inr other ↦
        let o = end_other b (ground arith) in
        other_slot x nil (v.cleared b x e f l (omega arith)) (λ e. cc)
  ]

  size' :
      (b : ℕ)
      → t.slots b ≡ header
      → (0 < (hdrs' b).hb_sz) × ((hdrs b).hb_free ≡ true → (hdrs' b).hb_sz % hblk_size ≡ 0)
  size' b e =
      let s = taken.size b in
      let p = v.sized b e in
      let w = v.whole b e in
      let wk = v.whole keep kept free_keep in
      let wg = v.whole gone was free_gone in
      elim (Bool-cases (b == keep)) [
        | inl same ↦
            let s' : (hdrs' b).hb_sz ≡ (hdrs keep).hb_sz + (hdrs gone).hb_sz = s ∙ (rw same refl) in
            (omega (arith, v.sized keep kept), λ f. omega arith)
        | inr other ↦
            let s' : (hdrs' b).hb_sz ≡ (hdrs b).hb_sz = s ∙ (rw other refl) in
            (omega arith, λ f. let k = w f in omega arith)
      ]

  pub Takes-IsLaid : IsLaid t' hdrs'
  Takes-IsLaid = record {
    own = λ b e. taken.block b ∙ v.own b (was_header b e).0;
    indexed = λ b e. rw (remove_header-keys t gone) (v.indexed b (was_header b e).0);
    ascending = rw (remove_header-keys t gone) v.ascending;
    sized = λ b e. (size' b (was_header b e).0).0;
    whole = λ b e f. (size' b (was_header b e).0).1 (sym (taken.free b) ∙ f);
    apart = λ b c e f l. let (f', ne) = was_header c f in apart' b c (was_header b e).0 f' ne l;
    counted = λ b x e u l m.
        let used = sym (taken.free b) ∙ u in
        let o = end_other b (in_use b used).0 in
        other_slot x (forward (count_to b x))
          (v.counted b x (was_header b e).0 used l (omega arith)) (λ e. cc);
    cleared = λ b x e f l m. cleared' b x (was_header b e).0 (sym (taken.free b) ∙ f) l m;
    owned = λ x n e.
        let (b, h, u, l, m) = v.owned x n (forward_slot x n e) in
        let (nk, ng) = in_use b u in
        let o = end_other b nk in (b, still_header b h ng, taken.free b ∙ u, l, omega arith);
  }

-- Headers that differ in their links only.
pub record Same (hdrs hdrs' : ℕ → Hdr) : Type 0 where
  pub size : (x : ℕ) → (hdrs' x).hb_sz ≡ (hdrs x).hb_sz
  pub free : (x : ℕ) → (hdrs' x).hb_free ≡ (hdrs x).hb_free
  pub block : (x : ℕ) → (hdrs' x).hb_block ≡ (hdrs x).hb_block

pub Same-IsLaid :
    (t : BlockTable) (hdrs hdrs' : ℕ → Hdr) → IsLaid t hdrs → Same hdrs hdrs' → IsLaid t hdrs'
Same-IsLaid t hdrs hdrs' v s = record {
  own = λ b e. s.block b ∙ v.own b e;
  indexed = v.indexed;
  ascending = v.ascending;
  sized = λ b e. rw (s.size b) (v.sized b e);
  whole = λ b e. rw (s.size b, s.free b) (v.whole b e);
  apart = λ b c e f l. rw (s.size b) (v.apart b c e f l);
  counted = λ b x e. rw (s.size b, s.free b) (v.counted b x e);
  cleared = λ b x e. rw (s.size b, s.free b) (v.cleared b x e);
  owned = λ x n e. let (b, f, u, l, m) = v.owned x n e in (b, f, s.free b ∙ u, l, rw (s.size b) m);
}
