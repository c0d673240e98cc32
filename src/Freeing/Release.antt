-- ===== src/Freeing/Release.antt =====
-- The layout of the heap after a block in use has become a free one.
use gcutil.Prelude.{
  ℕ, ◌+◌, ◌-◌, ◌*◌, ◌/◌, ◌^◌, ◌%◌, ◌<◌, ◌≡◌, ◌≢◌, refl, sym, ap, ◌∙◌, subst, true, false, ◌&&◌, leb,
  ltb, ◌==◌, ==_iff, if◌then◌else◌, arith, Bool-cases, inl, inr,
}
use gcutil.FreeBlocks.{Hdr, hblk_size}
use gcutil.FreeBlocks.Moves.{true≢false}
use gcutil.Headers.{BlockTable, nil, forward, header, remove_counts}
use gcutil.Headers.Counts.{blocks_of, behind, remove_counts-slots, remove_counts-keys}
use gcutil.Headers.Walk.{is_header}
use gcutil.Headers.Laid.{IsLaid, end_of, IsLaid-inside}
use gcutil.Freeing.{block_bytes}

-- The headers after `h` has been given the size of whole blocks and the flag `FREE_BLK`.
pub record Releases (hdrs hdrs' : ℕ → Hdr) (h : ℕ) : Type 0 where
  pub size :
      (x : ℕ) → (hdrs' x).hb_sz ≡ (if x == h then block_bytes (hdrs h).hb_sz else (hdrs x).hb_sz)
  pub free : (x : ℕ) → (hdrs' x).hb_free ≡ (if x == h then true else (hdrs x).hb_free)
  pub block : (x : ℕ) → (hdrs' x).hb_block ≡ (hdrs x).hb_block

-- A size below `2 ^ 63` in whole blocks.
abbrev pub Fits : ℕ → Type 0
Fits sz = sz + (hblk_size - 1) < 2 ^ 63

pub block_bytes_lem :
    (sz : ℕ) → Fits sz → block_bytes sz ≡ (sz + (hblk_size - 1)) / hblk_size * hblk_size
unfolding block_bytes
block_bytes_lem sz fits = omega arith

pub block_bytes_lt : (sz : ℕ) → Fits sz → block_bytes sz < 2 ^ 63
block_bytes_lt sz fits = rw (block_bytes_lem sz fits) (omega arith)

pub block_bytes-blocks : (sz : ℕ) → Fits sz → blocks_of (block_bytes sz) ≡ blocks_of sz
block_bytes-blocks sz fits = rw (block_bytes_lem sz fits) (omega arith)

pub block_bytes_whole : (sz : ℕ) → block_bytes sz % hblk_size ≡ 0
unfolding block_bytes
block_bytes_whole sz = omega arith

pub block_bytes_pos : (sz : ℕ) → Fits sz → 0 < sz → 0 < block_bytes sz
block_bytes_pos sz fits p = rw (block_bytes_lem sz fits) (omega arith)

module _ (t : BlockTable) (hdrs hdrs' : ℕ → Hdr) (v : IsLaid t hdrs) (h : ℕ)
    (r : Releases hdrs hdrs' h) (first : t.slots h ≡ header) (used : (hdrs h).hb_free ≡ false)
    (fits : Fits (hdrs h).hb_sz) where
  abbrev size : ℕ
  size = block_bytes (hdrs h).hb_sz

  abbrev t' : BlockTable
  t' = remove_counts t h size

  pub same_end : (b : ℕ) → end_of hdrs' b ≡ end_of hdrs b
  same_end b = elim (Bool-cases (b == h)) [
    | inl same ↦
        let e = (==_iff b h).0 same in
        let s : (hdrs' b).hb_sz ≡ block_bytes (hdrs h).hb_sz = r.size b ∙ (rw same refl) in
        let f : (hdrs b).hb_sz ≡ (hdrs h).hb_sz = ap (λ x. (hdrs x).hb_sz) e in
        ap (λ y. b + y)
          (ap (λ y. blocks_of y) s
            ∙ block_bytes-blocks (hdrs h).hb_sz fits
            ∙ ap (λ y. blocks_of y) (sym f))
    | inr other ↦ let s : (hdrs' b).hb_sz ≡ (hdrs b).hb_sz = r.size b ∙ (rw other refl) in rw s refl
  ]

  same_behind : (x : ℕ) → behind h size x ≡ behind h (hdrs h).hb_sz x
  same_behind x = ap (λ n. ltb h x && ltb x (h + n)) (block_bytes-blocks (hdrs h).hb_sz fits)

  slots' : (x : ℕ) → t'.slots x ≡ (if behind h size x then nil else t.slots x)
  slots' x = remove_counts-slots t h size x ∙ (elim (Bool-cases (behind h size x)) [
    | inr not_behind ↦ ground arith
    | inl inside ↦
        let pages = block_bytes-blocks (hdrs h).hb_sz fits in
        let large : leb size hblk_size ≡ false = ground arith in
        let c = v.counted h (h + 1) first used (omega arith) (ground arith) in
        rw (large, inside, c) refl
  ])

  pub was_header : (b : ℕ) → t'.slots b ≡ header → t.slots b ≡ header
  was_header b e = elim (Bool-cases (behind h size b)) [
    | inl inside ↦ let c : nil ≡ header = sym (slots' b ∙ (rw inside refl)) ∙ e in absurd (cc)
    | inr outside ↦ sym (slots' b ∙ (rw outside refl)) ∙ e
  ]

  outside_slot : (b : ℕ) → behind h size b ≡ false → t'.slots b ≡ t.slots b
  outside_slot b o = slots' b ∙ (rw o refl)

  pub still_header : (b : ℕ) → t.slots b ≡ header → t'.slots b ≡ header
  still_header b e = elim (Bool-cases (behind h size b)) [
    | inl inside ↦
        let i = same_behind b in
        let n = IsLaid-inside t hdrs v h b first (ground arith) (ground arith) in
        absurd (let y = ap (λ s. is_header s) e in true≢false (sym y ∙ n))
    | inr outside ↦ outside_slot b outside ∙ e
  ]

  in_use : (b : ℕ) → (hdrs' b).hb_free ≡ false → (b ≢ h) × ((hdrs b).hb_free ≡ false)
  in_use b u = elim (Bool-cases (b == h)) [
    | inl same ↦
        let f : (hdrs' b).hb_free ≡ true = r.free b ∙ (rw same refl) in
        absurd (true≢false (sym f ∙ u))
    | inr other ↦
        let f : (hdrs' b).hb_free ≡ (hdrs b).hb_free = r.free b ∙ (rw other refl) in
        (ground arith, sym f ∙ u)
  ]

  size' :
      (b : ℕ)
      → t.slots b ≡ header
      → (0 < (hdrs' b).hb_sz) × ((hdrs' b).hb_free ≡ true → (hdrs' b).hb_sz % hblk_size ≡ 0)
  size' b e = elim (Bool-cases (b == h)) [
    | inl same ↦
        let s : (hdrs' b).hb_sz ≡ block_bytes (hdrs h).hb_sz = r.size b ∙ (rw same refl) in
        rw s (
          block_bytes_pos (hdrs h).hb_sz fits (v.sized h first),
          λ f. block_bytes_whole (hdrs h).hb_sz,
        )
    | inr other ↦
        let s : (hdrs' b).hb_sz ≡ (hdrs b).hb_sz = r.size b ∙ (rw other refl) in
        let f : (hdrs' b).hb_free ≡ (hdrs b).hb_free = r.free b ∙ (rw other refl) in
        rw (s, f) (v.sized b e, v.whole b e)
  ]

  -- The pages behind the first of another block are no pages of `h`.
  not_behind :
      (b x : ℕ) → t.slots b ≡ header → b ≢ h → b < x → x < end_of hdrs b → behind h size x ≡ false
  not_behind b x e ne l m =
      let pages = block_bytes-blocks (hdrs h).hb_sz fits in
      elim (Bool-cases (ltb b h)) [
        | inl low ↦ let a = v.apart b h e first (ground arith) in ground arith
        | inr high ↦ let a = v.apart h b first e (ground arith) in ground arith
      ]

  cleared' :
      (b x : ℕ)
      → t.slots b ≡ header
      → (hdrs' b).hb_free ≡ true
      → b < x
      → x < end_of hdrs b
      → t'.slots x ≡ nil
  cleared' b x e f l m = elim (Bool-cases (behind h size x)) [
    | inl inside ↦ slots' x ∙ (rw inside refl)
    | inr outside ↦ elim (Bool-cases (b == h)) [
      | inl same ↦
          let p = (==_iff b h).0 same in
          let i = same_behind x in
          let m' = subst (λ y. x < end_of hdrs y) p m in
          let c : behind h size x ≡ true = ground arith in absurd (true≢false (sym c ∙ outside))
      | inr other ↦
          let u = sym (r.free b ∙ (rw other refl)) ∙ f in
          outside_slot x outside ∙ v.cleared b x e u l m
    ]
  ]

  owned' :
      (x n : ℕ)
      → t'.slots x ≡ forward n
      → (b : ℕ) × (t'.slots b ≡ header)
        × ((hdrs' b).hb_free ≡ false)
        × (b < x)
        × (x < end_of hdrs' b)
  owned' x n e = elim (Bool-cases (behind h size x)) [
    | inl inside ↦ let c : nil ≡ forward n = sym (slots' x ∙ (rw inside refl)) ∙ e in absurd (cc)
    | inr outside ↦
        let (b, f, u, l, m) = v.owned x n (sym (outside_slot x outside) ∙ e) in
        elim (Bool-cases (b == h)) [
          | inl same ↦
              let p = (==_iff b h).0 same in
              let i = same_behind x in
              let m' = subst (λ y. x < end_of hdrs y) p m in
              let c : behind h size x ≡ true = ground arith in absurd (true≢false (sym c ∙ outside))
          | inr other ↦ (
            b,
            still_header b f,
            r.free b ∙ (rw other u),
            l,
            subst (λ y. x < y) (sym (same_end b)) m,
          )
        ]
  ]

  pub Releases-IsLaid : IsLaid t' hdrs'
  Releases-IsLaid = record {
    own = λ b e. r.block b ∙ v.own b (was_header b e);
    indexed = λ b e. rw (remove_counts-keys t h size) (v.indexed b (was_header b e));
    ascending = rw (remove_counts-keys t h size) v.ascending;
    sized = λ b e. (size' b (was_header b e)).0;
    whole = λ b e. (size' b (was_header b e)).1;
    apart = λ b c e f l. rw (same_end b) (v.apart b c (was_header b e) (was_header c f) l);
    counted = λ b x e u l m.
        let (ne, u') = in_use b u in
        let e' = was_header b e in
        let m' = subst (λ y. x < y) (same_end b) m in
        outside_slot x (not_behind b x e' ne l m') ∙ v.counted b x e' u' l m';
    cleared = λ b x e f l m. cleared' b x (was_header b e) f l (subst (λ y. x < y) (same_end b) m);
    owned = λ x n e. owned' x n e;
  }
