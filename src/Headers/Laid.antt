-- ===== src/Headers/Laid.antt =====
-- The layout of the heap in the table of headers: blocks next to each other, the pages behind the
-- first of a block in use with counts, those of a free block without.
use gcutil.Prelude.{
  ℕ, ◌+◌, ◌/◌, ◌%◌, ◌≤◌, ◌<◌, ◌≡◌, sym, ◌∙◌, true, false, arith, Bool-cases, inl, inr,
}
use gcutil.FreeBlocks.{Hdr, hblk_size}
use gcutil.Headers.{BlockTable, nil, forward, header, bottom_sz, has_key}
use gcutil.Headers.Counts.{blocks_of, count_to}
use gcutil.Headers.Walk.{is_header, is_header_lem, IsAscending}
use gcutil.Headers.Back.{IsBacked}

-- The first page behind the block `b`.
abbrev pub end_of : (ℕ → Hdr) → ℕ → ℕ
end_of hdrs b = b + blocks_of (hdrs b).hb_sz

pub record IsLaid (t : BlockTable) (hdrs : ℕ → Hdr) : Type 0 where
  pub own : (b : ℕ) → t.slots b ≡ header → (hdrs b).hb_block ≡ b
  pub indexed : (b : ℕ) → t.slots b ≡ header → has_key (b / bottom_sz) t.keys ≡ true
  pub ascending : IsAscending t.keys
  pub sized : (b : ℕ) → t.slots b ≡ header → 0 < (hdrs b).hb_sz
  pub whole :
      (b : ℕ) → t.slots b ≡ header → (hdrs b).hb_free ≡ true → (hdrs b).hb_sz % hblk_size ≡ 0
  pub apart : (b c : ℕ) → t.slots b ≡ header → t.slots c ≡ header → b < c → end_of hdrs b ≤ c
  pub counted :
      (b x : ℕ)
      → t.slots b ≡ header
      → (hdrs b).hb_free ≡ false
      → b < x
      → x < end_of hdrs b
      → t.slots x ≡ forward (count_to b x)
  pub cleared :
      (b x : ℕ)
      → t.slots b ≡ header
      → (hdrs b).hb_free ≡ true
      → b < x
      → x < end_of hdrs b
      → t.slots x ≡ nil
  pub owned :
      (x n : ℕ)
      → t.slots x ≡ forward n
      → (b : ℕ) × (t.slots b ≡ header) × ((hdrs b).hb_free ≡ false) × (b < x) × (x < end_of hdrs b)

module _ (t : BlockTable) (hdrs : ℕ → Hdr) (v : IsLaid t hdrs) where
  -- Between the first page of a block and its end stands no other header.
  pub IsLaid-inside :
      (b x : ℕ) → t.slots b ≡ header → b < x → x < end_of hdrs b → is_header (t.slots x) ≡ false
  IsLaid-inside b x h l m = elim (Bool-cases (is_header (t.slots x))) [
    | inl e ↦ absurd (omega (arith, v.apart b x h (is_header_lem (t.slots x) e) l))
    | inr e ↦ e
  ]

  pub IsLaid-IsBacked : IsBacked t hdrs
  IsLaid-IsBacked = record {
    own = v.own;
    indexed = v.indexed;
    ascending = v.ascending;
    counts = λ b n e.
        let (c, h, u, l, m) = v.owned b n e in
        let same : forward n ≡ forward (count_to c b) = sym e ∙ v.counted c b h u l m in
        ground arith;
    passed = λ b n x e l m.
        let (c, h, u, l', m') = v.owned b n e in
        let same : forward n ≡ forward (count_to c b) = sym e ∙ v.counted c b h u l' m' in
        IsLaid-inside c x h (ground arith) (omega arith);
  }
