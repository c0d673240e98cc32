-- ===== src/Allocate/Divide.antt =====
-- The layout of the heap after a free block has been divided, and after one has come into use.
use gcutil.Prelude.{
  ℕ, ◌-◌, ◌*◌, ◌/◌, ◌%◌, ◌<◌, ◌≤◌, ◌≡◌, ◌≢◌, refl, sym, ap, ◌∙◌, subst, true, false, ◌==◌, ==_iff,
  if◌then◌else◌, arith, Bool-cases, inl, inr,
}
use gcutil.FreeBlocks.{Hdr, hblk_size}
use gcutil.FreeBlocks.Moves.{true≢false}
use gcutil.Headers.{BlockTable, Slot, nil, forward, header, bottom_sz, has_key}
use gcutil.Headers.Counts.{count_to}
use gcutil.Headers.Install.{Installed}
use gcutil.Headers.Laid.{IsLaid, end_of}

-- The headers after the block `h` has been divided at `m`.
pub record Divides (hdrs hdrs' : ℕ → Hdr) (h m : ℕ) : Type 0 where
  pub low : (hdrs' h).hb_sz ≡ (m - h) * hblk_size
  pub high : (hdrs' m).hb_sz ≡ (hdrs h).hb_sz - (m - h) * hblk_size
  pub size : (x : ℕ) → x ≢ h → x ≢ m → (hdrs' x).hb_sz ≡ (hdrs x).hb_sz
  pub free : (x : ℕ) → (hdrs' x).hb_free ≡ (if x == m then true else (hdrs x).hb_free)
  pub block : (x : ℕ) → (hdrs' x).hb_block ≡ (if x == m then m else (hdrs x).hb_block)

-- What holds of the divided heap.
pub record IsDivided (t t' : BlockTable) (hdrs hdrs' : ℕ → Hdr) (h m : ℕ) : Type 0 where
  pub laid : IsLaid t' hdrs'
  pub end_low : end_of hdrs' h ≡ m
  pub end_high : end_of hdrs' m ≡ end_of hdrs h
  pub end_other : (b : ℕ) → b ≢ h → b ≢ m → end_of hdrs' b ≡ end_of hdrs b
  pub was_header : (b : ℕ) → t'.slots b ≡ header → b ≢ m → t.slots b ≡ header
  pub still_header : (b : ℕ) → t.slots b ≡ header → t'.slots b ≡ header
  pub slot_m : t'.slots m ≡ header
  pub free_m : (hdrs' m).hb_free ≡ true
  pub free_same : (b : ℕ) → b ≢ m → (hdrs' b).hb_free ≡ (hdrs b).hb_free
  pub new : (b : ℕ) → t.slots b ≡ header → b ≢ m

module _ (t t' : BlockTable) (hdrs hdrs' : ℕ → Hdr) (v : IsLaid t hdrs) (h m : ℕ)
    (i : Installed t t' m) (d : Divides hdrs hdrs' h m) (first : t.slots h ≡ header)
    (is_free : (hdrs h).hb_free ≡ true) (l : h < m) (u : m < end_of hdrs h) where
  end_low : end_of hdrs' h ≡ m
  end_low = rw d.low (omega arith)

  end_high : end_of hdrs' m ≡ end_of hdrs h
  end_high = let w = v.whole h first is_free in rw d.high (omega arith)

  end_other : (b : ℕ) → b ≢ h → b ≢ m → end_of hdrs' b ≡ end_of hdrs b
  end_other b n k = rw (d.size b n k) refl

  was_nil : t.slots m ≡ nil
  was_nil = v.cleared h m first is_free l u

  slot_m : t'.slots m ≡ header
  slot_m = i.slot m ∙ ground arith

  slot_other : (x : ℕ) → x ≢ m → t'.slots x ≡ t.slots x
  slot_other x n = let e : (x == m) ≡ false = ground arith in i.slot x ∙ (rw e refl)

  was_header : (b : ℕ) → t'.slots b ≡ header → b ≢ m → t.slots b ≡ header
  was_header b e n = sym (slot_other b n) ∙ e

  not_m : (b : ℕ) (s : Slot) → t.slots b ≡ s → s ≢ nil → b ≢ m
  not_m b s e n same = n (sym e ∙ ap (λ x. t.slots x) same ∙ was_nil)

  still_header : (b : ℕ) → t.slots b ≡ header → t'.slots b ≡ header
  still_header b e = slot_other b (not_m b header e (λ c. cc)) ∙ e

  -- What a block says of itself, from what `h`, the new block and the others say.
  by_block :
      (P : ℕ → Type 0)
      → P h
      → P m
      → ((b : ℕ) → b ≢ h → b ≢ m → t.slots b ≡ header → P b)
      → (b : ℕ) → t'.slots b ≡ header
      → P b
  by_block P low high rest b e = elim (Bool-cases (b == h)) [
    | inl same ↦ subst P (sym ((==_iff b h).0 same)) low
    | inr other ↦ elim (Bool-cases (b == m)) [
      | inl same ↦ subst P (sym ((==_iff b m).0 same)) high
      | inr new ↦ rest b (ground arith) (ground arith) (was_header b e (ground arith))
    ]
  ]

  free_same : (b : ℕ) → b ≢ m → (hdrs' b).hb_free ≡ (hdrs b).hb_free
  free_same b n = let e : (b == m) ≡ false = ground arith in d.free b ∙ (rw e refl)

  free_m : (hdrs' m).hb_free ≡ true
  free_m = d.free m ∙ ground arith

  -- Where the other blocks lie.
  outside :
      (b : ℕ)
      → b ≢ h
      → t.slots b ≡ header
      → (b < h → end_of hdrs b ≤ h) × (h < b → end_of hdrs h ≤ b)
  outside b n e = (λ lt. v.apart b h e first lt, λ lt. v.apart h b first e lt)

  in_use : (b : ℕ) → (hdrs' b).hb_free ≡ false → (b ≢ h) × (b ≢ m) × ((hdrs b).hb_free ≡ false)
  in_use b used =
      let n : b ≢ m = λ e. true≢false (sym (ap (λ x. (hdrs' x).hb_free) e ∙ free_m) ∙ used) in
      let f = sym (free_same b n) ∙ used in
      (λ e. true≢false (sym (ap (λ x. (hdrs x).hb_free) e ∙ is_free) ∙ f), n, f)

  own' : (b : ℕ) → t'.slots b ≡ header → (hdrs' b).hb_block ≡ b
  own' =
      let other = λ (b : ℕ) (n : b ≢ m) (e : t.slots b ≡ header).
        let q : (b == m) ≡ false = ground arith in
        let same : (hdrs' b).hb_block ≡ b = d.block b ∙ (rw q (v.own b e)) in same in
      by_block (λ b. (hdrs' b).hb_block ≡ b) (other h (omega arith) first)
        (d.block m ∙ ground arith) (λ b n k e. other b k e)

  apart' :
      (b : ℕ) → t'.slots b ≡ header → (c : ℕ) → t'.slots c ≡ header → b < c → end_of hdrs' b ≤ c
  apart' =
      by_block (λ b. (c : ℕ) → t'.slots c ≡ header → b < c → end_of hdrs' b ≤ c)
        (λ c e lt. rw end_low (elim (Bool-cases (c == m)) [
          | inl same ↦ ground arith
          | inr other ↦
              omega (arith, (outside c (ground arith) (was_header c e (ground arith))).1 lt)
        ]))
        (λ c e lt.
          rw end_high ((outside c (omega arith) (was_header c e (omega arith))).1 (omega arith)))
        (λ b n k f c e lt. rw (end_other b n k) (elim (Bool-cases (c == m)) [
          | inl same ↦ ground (arith, outside b n f)
          | inr other ↦ v.apart b c f (was_header c e (ground arith)) lt
        ]))

  cleared' :
      (b : ℕ)
      → t'.slots b ≡ header
      → (x : ℕ) → (hdrs' b).hb_free ≡ true
      → b < x
      → x < end_of hdrs' b
      → t'.slots x ≡ nil
  cleared' =
      by_block
        (λ b. (x : ℕ) → (hdrs' b).hb_free ≡ true → b < x → x < end_of hdrs' b → t'.slots x ≡ nil)
        (λ x f lt lt'.
          let q = end_low in
          slot_other x (omega arith) ∙ v.cleared h x first is_free lt (omega arith))
        (λ x f lt lt'.
          let q = end_high in
          slot_other x (omega arith) ∙ v.cleared h x first is_free (omega arith) (omega arith))
        (λ b n k e x f lt lt'.
          let q = end_other b n k in
          let o = outside b n e in
          slot_other x (λ s. ground arith)
          ∙ v.cleared b x e (sym (free_same b k) ∙ f) lt (omega arith))

  owned' :
      (x n : ℕ)
      → t'.slots x ≡ forward n
      → (b : ℕ) × (t'.slots b ≡ header)
        × ((hdrs' b).hb_free ≡ false)
        × (b < x)
        × (x < end_of hdrs' b)
  owned' x n e =
      let k : x ≢ m =
        λ s. let c : forward n ≡ header = sym e ∙ ap (λ y. t'.slots y) s ∙ slot_m in absurd (cc) in
      let (b, f, used, lt, lt') = v.owned x n (sym (slot_other x k) ∙ e) in
      let b_m = not_m b header f (λ c. cc) in
      let b_h : b ≢ h = λ s. true≢false (sym (ap (λ y. (hdrs y).hb_free) s ∙ is_free) ∙ used) in
      (b, still_header b f, free_same b b_m ∙ used, lt, rw (end_other b b_h b_m) lt')

  Divides-IsLaid : IsLaid t' hdrs'
  Divides-IsLaid = record {
    own = own';
    indexed =
        by_block (λ b. has_key (b / bottom_sz) t'.keys ≡ true)
          (i.kept (h / bottom_sz) (v.indexed h first)) i.indexed
          (λ b n k e. i.kept (b / bottom_sz) (v.indexed b e));
    ascending = i.ascending;
    sized =
        by_block (λ b. 0 < (hdrs' b).hb_sz) (rw d.low (omega arith)) (rw d.high (omega arith))
          (λ b n k e. rw (d.size b n k) (v.sized b e));
    whole =
        by_block (λ b. (hdrs' b).hb_free ≡ true → (hdrs' b).hb_sz % hblk_size ≡ 0)
          (λ f. rw d.low (omega arith))
          (λ f. let w = v.whole h first is_free in rw d.high (omega arith))
          (λ b n k e f. rw (d.size b n k) (v.whole b e (sym (free_same b k) ∙ f)));
    apart = λ b c e. apart' b e c;
    counted = λ b x e used lt lt'.
        let (n, k, f) = in_use b used in
        let e' = was_header b e k in
        let c = v.counted b x e' f lt (subst (λ y. x < y) (end_other b n k) lt') in
        slot_other x (not_m x (forward (count_to b x)) c (λ z. cc)) ∙ c;
    cleared = λ b x e. cleared' b e x;
    owned = owned';
  }

  pub Divides-IsDivided : IsDivided t t' hdrs hdrs' h m
  Divides-IsDivided = record {
    laid = Divides-IsLaid;
    end_low = end_low;
    end_high = end_high;
    end_other = end_other;
    was_header = was_header;
    still_header = still_header;
    slot_m = slot_m;
    free_m = free_m;
    free_same = free_same;
    new = λ b e. not_m b header e (λ c. cc);
  }
