-- ===== src/Freeing/Free.antt =====
-- `GC_freehblk` as a whole.
use gcutil.Prelude.{
  ℕ, ◌+◌, ◌-◌, ◌/◌, ◌^◌, ◌≤◌, ◌<◌, ◌≡◌, ◌≢◌, ◌⊎◌, refl, sym, ap, ◌∙◌, true, false, leb, ◌==◌,
  ==_iff, arith, Bool-cases, inl, inr, List, Option, none, some, write, done, abort, Returns,
  word_add,
}
use gcutil.FreeBlocks.{Heap, hblk_size, set_sz}
use gcutil.Headers.{header, remove_counts}
use gcutil.Headers.Laid.{end_of}
use gcutil.Freeing.{
  Arena, hdr_at, block_bytes, merge_next, merge_prev, free_block_ending_at, free_sized, freehblk,
}
use gcutil.Freeing.Neighbours.{FreeEndsAt, free_block_ending_at-FreeEndsAt}
use gcutil.Freeing.Loose.{IsFree, IsUsed, KeepsUsed}
use gcutil.Freeing.Merge.{Extends, merge_next-Extends}
use gcutil.Freeing.Join.{IsPrevious, merge_prev-Coalesces}
use gcutil.Freeing.PutBack.{
  IsFiled, put_back, put_back-end, put_back-bytes, filed_lists, put_back-IsFiled,
  put_back-IsFree_back, put_back-KeepsUsed,
}
use gcutil.Freeing.Release.{Fits}
use gcutil.Freeing.Released.{
  released, released-IsLoose, released_first, released_size_h, released-IsLaid, released-KeepsUsed,
  released-end, released-bytes,
}

pub KeepsUsed-trans : (a b c : Arena) (h : ℕ) → KeepsUsed a b h → KeepsUsed b c h → KeepsUsed a c h
KeepsUsed-trans a b c h p q x u n =
    let (u', e) = p x u n in let (u'', e') = q x u' n in (u'', e' ∙ e)

-- The state that `GC_freehblk` leaves: where the freed block is, and what else is as it was.
abbrev pub Frees : Arena → ℕ → Arena → Type 0
Frees a h a' =
    (ls' : ℕ → List ℕ) × (m : ℕ) × IsFiled a' ls'
    × IsFree a' m
    × (m ≤ h)
    × (end_of a.heap.hdrs h ≤ end_of a'.heap.hdrs m)
    × KeepsUsed a a' h
    × (a'.large_free_bytes ≡ word_add a.large_free_bytes (block_bytes (hdr_at a h).hb_sz))

module _ (a : Arena) (ls : ℕ → List ℕ) (h : ℕ) (v : IsFiled a ls) (used : IsUsed a h)
    (small : Fits (hdr_at a h).hb_sz) where
  abbrev size : ℕ
  size = block_bytes (hdr_at a h).hb_sz

  nonzero_h : 0 < h
  nonzero_h = elim (Bool-cases (h == 0)) [
    | inl zero_h ↦
        absurd (v.nonzero (ap (λ x. a.table.slots x) (sym ((==_iff h 0).0 zero_h)) ∙ used.0))
    | inr more ↦ ground arith
  ]

  -- The merge with the successor.
  after_next : Extends (released a h) (merge_next (released a h) h (h + size / hblk_size)) h
  after_next =
      merge_next-Extends (released a h) ls h (released-IsLoose a ls h v used small)
        (released_first a ls h v used small) size (released_size_h a ls h v used small)

  ends_behind :
      (p : ℕ)
      → IsFree (merge_next (released a h) h (h + size / hblk_size)) p
      → end_of (merge_next (released a h) h (h + size / hblk_size)).heap.hdrs p ≢ p
  ends_behind p f l = omega (arith, after_next.loose.laid.sized p f.0)

  -- What ended at `h` before the merge with the successor does so after it.
  previous :
      (r : Option ℕ)
      → FreeEndsAt (released a h) h r
      → IsPrevious (merge_next (released a h) h (h + size / hblk_size)) h r
  previous none n = λ p f l.
      let ne : p ≢ h = λ e. ends_behind p f (l ∙ sym e) in
      let (e, g) = after_next.back p f ne in n p e g (sym (after_next.ends p ne) ∙ l)
  previous (some p) (e, f, l) =
      let below : p < h = omega (arith, (released-IsLaid a ls h v used small).sized p e) in
      (after_next.still p (e, f) below, after_next.ends p (omega arith) ∙ l)

  still_used :
      (hdr_at
        (record a { heap = set_sz a.heap h size; table = remove_counts a.table h size })
        h).hb_free
      ≡ false
  unfolding set_sz write
  still_used = ground (arith, used.1)

  freehblk_steps :
      (r : Option ℕ)
      → free_block_ending_at (released a h) h ≡ done r
      → let a₂ = merge_prev (merge_next (released a h) h (h + size / hblk_size)) h r in
        freehblk a h ≡ done (put_back a₂.0 a₂.1 size)
  unfolding freehblk free_sized released put_back
  freehblk_steps r e =
      let fits : leb (2 ^ 63) size ≡ false = ground arith in
      rw (freehblk, fits, free_sized, still_used, e) refl

  frees :
      (r : Option ℕ)
      → free_block_ending_at (released a h) h ≡ done r
      → IsPrevious (merge_next (released a h) h (h + size / hblk_size)) h r
      → Returns (freehblk a h) (Frees a h)
  frees r e p =
      let n = merge_next (released a h) h (h + size / hblk_size) in
      let x = after_next in
      let y = merge_prev-Coalesces n x.lists h x.loose x.free x.ahead r p in
      let a₂ = merge_prev n h r in
      let a₃ = put_back a₂.0 a₂.1 size in
      (
        a₃,
        freehblk_steps r e,
        (
          filed_lists a₂.0 y.lists a₂.1 size y.loose y.free y.ahead y.behind,
          a₂.1,
          put_back-IsFiled a₂.0 y.lists a₂.1 size y.loose y.free y.ahead y.behind,
          put_back-IsFree_back a₂.0 y.lists a₂.1 size y.loose y.free y.ahead y.behind a₂.1 y.free,
          y.starts,
          let w = put_back-end a₂.0 a₂.1 size a₂.1 in
              omega (arith, (released-end a ls h v used small) h, x.wide, y.wide),
          KeepsUsed-trans a (released a h) a₃ h (released-KeepsUsed a ls h v used small) (
              KeepsUsed-trans (released a h) n a₃ h x.used (
                KeepsUsed-trans n a₂.0 a₃ h y.used
                  (put_back-KeepsUsed a₂.0 y.lists a₂.1 size y.loose y.free y.ahead y.behind h))),
          put_back-bytes a₂.0 a₂.1 size
              ∙ ap (λ b. word_add b size)
                  (y.bytes ∙ x.bytes ∙ (released-bytes a ls h v used small)),
        ),
      )

  -- `ls` lists the free blocks of the heap: each is on the list of its class, and no two neighbours
  -- among them could be one. Then `GC_freehblk` of a block in use, with a size in whole blocks below
  -- `2 ^ 63`, returns. After it the heap is again such a heap, for some lists; the pages of the block
  -- belong to a free block, which starts at it or before it and ends where it ends or behind it;
  -- the other blocks in use are in use where they were; and `GC_large_free_bytes` has grown by the
  -- size in whole blocks, as a word.
  pub freehblk-Frees : Returns (freehblk a h) (Frees a h)
  freehblk-Frees =
      let (r, e, p) =
        free_block_ending_at-FreeEndsAt (released a h) (released-IsLaid a ls h v used small) h
          (released_first a ls h v used small).0 nonzero_h in
      frees r e (previous r p)

-- A block that is free, or has a size that is no positive `signed_word` in whole blocks.
abbrev pub IsRefused : Arena → ℕ → Type 0
IsRefused a h = ((hdr_at a h).hb_free ≡ true) ⊎ (2 ^ 63 ≤ block_bytes (hdr_at a h).hb_sz)

set_sz-hb_free : (s : Heap) (h sz x : ℕ) → ((set_sz s h sz).hdrs x).hb_free ≡ (s.hdrs x).hb_free
unfolding set_sz write
set_sz-hb_free s h sz x = ground arith

refused : (a : Arena) (h : ℕ) → IsRefused a h → freehblk a h ≡ abort
unfolding freehblk free_sized
refused a h r = elim (Bool-cases (leb (2 ^ 63) (block_bytes (hdr_at a h).hb_sz))) [
  | inl large ↦ rw large refl
  | inr fits ↦ elim r [
    | inl free ↦
        let f = set_sz-hb_free a.heap h (block_bytes (hdr_at a h).hb_sz) h ∙ free in
        rw (fits, f) refl
    | inr large ↦ absurd (ground arith)
  ]
]

block_bytes-Fits : (sz : ℕ) → sz + (hblk_size - 1) < 2 ^ 64 → block_bytes sz < 2 ^ 63 → Fits sz
unfolding block_bytes
block_bytes-Fits sz word small = omega arith

-- In a heap whose free lists hold `ls`, with each free block on the list of its class and no two
-- neighbouring free blocks that could be one, `GC_freehblk` of a block whose size in whole blocks
-- does not wrap around in a word aborts exactly if the block is free already or that size
-- is `2 ^ 63` or more.
pub freehblk-abort_iff :
    (a : Arena) (ls : ℕ → List ℕ) (h : ℕ)
    → IsFiled a ls
    → a.table.slots h ≡ header
    → (hdr_at a h).hb_sz + (hblk_size - 1) < 2 ^ 64
    → (freehblk a h ≡ abort → IsRefused a h) × (IsRefused a h → freehblk a h ≡ abort)
freehblk-abort_iff a ls h v e word = (
  λ stops. elim (Bool-cases (hdr_at a h).hb_free) [
    | inl free ↦ inl free
    | inr used ↦ elim (Bool-cases (leb (2 ^ 63) (block_bytes (hdr_at a h).hb_sz))) [
      | inl large ↦ inr (ground arith)
      | inr fits ↦
          let small = block_bytes-Fits (hdr_at a h).hb_sz word (ground arith) in
          let (a', returns, p) = freehblk-Frees a ls h v (e, used) small in
          absurd (let c : abort ≡ done a' = sym stops ∙ returns in cc)
    ]
  ],
  refused a h,
)
