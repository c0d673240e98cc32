-- ===== src/Freeing/Released.antt =====
-- The state of `GC_freehblk` before the merges: a heap in which the freed block is loose.
use gcutil.Prelude.{
  ℕ, ◌^◌, ◌<◌, ◌≡◌, ◌≢◌, refl, sym, ap, ◌∙◌, subst, false, ◌==◌, ==_iff, arith, Bool-cases, inl,
  inr, List, write,
}
use gcutil.FreeBlocks.{set_sz, set_free}
use gcutil.FreeBlocks.Lists.{has}
use gcutil.FreeBlocks.Moves.{Holds, true≢false}
use gcutil.FreeBlocks.Split.{Holds-outside}
use gcutil.Headers.{remove_counts}
use gcutil.Headers.Laid.{IsLaid, end_of}
use gcutil.Freeing.{Arena, hdr_at, block_bytes}
use gcutil.Freeing.Release.{
  Fits, block_bytes_lt, Releases, Releases-IsLaid, same_end, was_header, still_header,
}
use gcutil.Freeing.Loose.{IsFree, IsUsed, KeepsUsed, IsLoose}
use gcutil.Freeing.PutBack.{IsFiled}

-- The state of `GC_freehblk` before the merges.
unfoldable pub released : Arena → ℕ → Arena
released a h =
    let size = block_bytes (hdr_at a h).hb_sz in
    record a { heap = set_free (set_sz a.heap h size) h; table = remove_counts a.table h size }

module _ (a : Arena) (ls : ℕ → List ℕ) (h : ℕ) (v : IsFiled a ls) (used : IsUsed a h)
    (small : Fits (hdr_at a h).hb_sz) where
  released-Releases : Releases a.heap.hdrs (released a h).heap.hdrs h
  unfolding released set_free set_sz write
  released-Releases = record {
    size = λ x. ground arith;
    free = λ x. ground arith;
    block = λ x. ground arith;
  }

  released-table : (released a h).table ≡ remove_counts a.table h (block_bytes (hdr_at a h).hb_sz)
  unfolding released
  released-table = refl

  released-IsFree : (b : ℕ) → IsFree (released a h) b → b ≢ h → IsFree a b
  released-IsFree b (e, f) n = (
    was_header a.table a.heap.hdrs (released a h).heap.hdrs v.laid h released-Releases used.0 used.1
        small b (ap (λ t. t.slots b) (sym released-table) ∙ e),
    sym (released-Releases.free b ∙ ground arith) ∙ f,
  )

  released-IsFree_back : (b : ℕ) → IsFree a b → IsFree (released a h) b
  released-IsFree_back b (e, f) = (
    ap (λ t. t.slots b) released-table
        ∙ still_header a.table a.heap.hdrs (released a h).heap.hdrs v.laid h released-Releases
            used.0 used.1 small b e,
    released-Releases.free b ∙ ground arith,
  )

  pub released_first : IsFree (released a h) h
  released_first = (
    ap (λ t. t.slots h) released-table
        ∙ still_header a.table a.heap.hdrs (released a h).heap.hdrs v.laid h released-Releases
            used.0 used.1 small h used.0,
    released-Releases.free h ∙ ground arith,
  )

  pub released-end : (b : ℕ) → end_of (released a h).heap.hdrs b ≡ end_of a.heap.hdrs b
  released-end =
      same_end a.table a.heap.hdrs (released a h).heap.hdrs v.laid h released-Releases used.0 used.1
        small

  released_size : (b : ℕ) → b ≢ h → (hdr_at (released a h) b).hb_sz ≡ (hdr_at a b).hb_sz
  released_size b n = released-Releases.size b ∙ ground arith

  pub released_size_h : (hdr_at (released a h) h).hb_sz ≡ block_bytes (hdr_at a h).hb_sz
  released_size_h = released-Releases.size h ∙ ground arith

  not_listed : (j : ℕ) → has h (ls j) ≡ false
  not_listed j = elim (Bool-cases (has h (ls j))) [
    | inl i ↦ absurd (true≢false (sym (v.listed j h i).1 ∙ used.1))
    | inr o ↦ o
  ]

  not_h : (b : ℕ) → IsFree a b → b ≢ h
  not_h b f e = true≢false (sym f.1 ∙ ap (λ x. (hdr_at a x).hb_free) e ∙ used.1)

  pub released-bytes : (released a h).large_free_bytes ≡ a.large_free_bytes
  unfolding released
  released-bytes = refl

  released-Holds : Holds (released a h).heap ls
  unfolding released set_free set_sz write
  released-Holds =
      Holds-outside a.heap (released a h).heap ls h v.holds not_listed (λ j. refl) (λ j. refl)
        (λ x n. (ground arith, ground arith)) (λ x n. ground arith)

  pub released-IsLaid : IsLaid (released a h).table (released a h).heap.hdrs
  released-IsLaid = rw released-table (
      Releases-IsLaid a.table a.heap.hdrs (released a h).heap.hdrs v.laid h released-Releases used.0
        used.1 small)

  pub released-IsLoose : IsLoose (released a h) ls h
  released-IsLoose = record {
    holds = released-Holds;
    laid = released-IsLaid;
    nonzero = λ e. v.nonzero (
        was_header a.table a.heap.hdrs (released a h).heap.hdrs v.laid h released-Releases used.0
          used.1 small 0 (ap (λ t. t.slots 0) (sym released-table) ∙ e));
    out = not_listed;
    filed = λ b f n. rw (released_size b n) (v.filed b (released-IsFree b f n));
    listed = λ j x i. released-IsFree_back x (v.listed j x i);
    small = λ b f. elim (Bool-cases (b == h)) [
      | inl same ↦
          subst (λ x. (hdr_at (released a h) x).hb_sz < 2 ^ 63) (sym ((==_iff b h).0 same))
            (rw released_size_h (block_bytes_lt (hdr_at a h).hb_sz small))
      | inr other ↦
          let n : b ≢ h = ground arith in rw (released_size b n) (v.small b (released-IsFree b f n))
    ];
    separate = λ b c f g nb nc e.
        rw (released_size b nb, released_size c nc)
          (v.separate b c (released-IsFree b f nb) (released-IsFree c g nc)
            (sym (released-end b) ∙ e));
  }

  pub released-KeepsUsed : KeepsUsed a (released a h) h
  released-KeepsUsed b (e, u) n = (
    (
      ap (λ t. t.slots b) released-table
          ∙ still_header a.table a.heap.hdrs (released a h).heap.hdrs v.laid h released-Releases
              used.0 used.1 small b e,
      released-Releases.free b ∙ ground arith,
    ),
    released-end b,
  )
