-- ===== src/Allocate/Fill.antt =====
-- The heap after a free block that is on no list has come into use.
use gcutil.Prelude.{ℕ, ◌≡◌, ◌≢◌, sym, ap, ◌∙◌, true, false, arith, List}
use gcutil.FreeBlocks.{Heap}
use gcutil.FreeBlocks.Links.{SameLinks}
use gcutil.FreeBlocks.Lists.{has}
use gcutil.FreeBlocks.Moves.{Holds, true≢false}
use gcutil.FreeBlocks.Split.{Holds-outside}
use gcutil.Headers.{header}
use gcutil.Headers.Install.{Counted}
use gcutil.Headers.Laid.{IsLaid, end_of}
use gcutil.Freeing.{Arena, hdr_at}
use gcutil.Freeing.Loose.{IsFree, IsUsed, IsLoose}
use gcutil.Allocate.Occupy.{
  Occupies, Occupies-IsLaid, was_header, still_header, same_end, size_other, free_other, free_h,
}
use gcutil.Allocate.State.{IsTight, IsLow, KeepsAllUsed}

-- The heap in which the header of `h` says that the block is in use with `sz` bytes.
pub record Fills (s s' : Heap) (h sz : ℕ) : Type 0 where
  pub heads : (j : ℕ) → s'.hblkfreelist j ≡ s.hblkfreelist j
  pub counts : (j : ℕ) → s'.free_bytes j ≡ s.free_bytes j
  pub links : (x : ℕ) → x ≢ h → SameLinks (s'.hdrs x) (s.hdrs x)
  pub occupies : Occupies s.hdrs s'.hdrs h sz

module _ (a a' : Arena) (ls : ℕ → List ℕ) (h sz : ℕ) (v : IsLoose a ls h) (low : IsLow a)
    (free : IsFree a h) (f : Fills a.heap a'.heap h sz) (c : Counted a.table a'.table h sz) where
  laid : IsLaid a'.table a'.heap.hdrs
  laid =
      Occupies-IsLaid a.table a'.table a.heap.hdrs a'.heap.hdrs v.laid h sz c f.occupies free.0
        free.1

  ends : (b : ℕ) → end_of a'.heap.hdrs b ≡ end_of a.heap.hdrs b
  ends = same_end a.table a'.table a.heap.hdrs a'.heap.hdrs v.laid h sz c f.occupies free.0 free.1

  sizes : (b : ℕ) → b ≢ h → (hdr_at a' b).hb_sz ≡ (hdr_at a b).hb_sz
  sizes =
      size_other a.table a'.table a.heap.hdrs a'.heap.hdrs v.laid h sz c f.occupies free.0 free.1

  flags : (b : ℕ) → b ≢ h → (hdr_at a' b).hb_free ≡ (hdr_at a b).hb_free
  flags =
      free_other a.table a'.table a.heap.hdrs a'.heap.hdrs v.laid h sz c f.occupies free.0 free.1

  header_before : (b : ℕ) → a'.table.slots b ≡ header → a.table.slots b ≡ header
  header_before =
      was_header a.table a'.table a.heap.hdrs a'.heap.hdrs v.laid h sz c f.occupies free.0 free.1

  header_kept : (b : ℕ) → a.table.slots b ≡ header → a'.table.slots b ≡ header
  header_kept =
      still_header a.table a'.table a.heap.hdrs a'.heap.hdrs v.laid h sz c f.occupies free.0 free.1

  h_used : (hdr_at a' h).hb_free ≡ false
  h_used = free_h a.table a'.table a.heap.hdrs a'.heap.hdrs v.laid h sz c f.occupies free.0 free.1

  was_free : (b : ℕ) → IsFree a' b → (b ≢ h) × IsFree a b
  was_free b (e, g) =
      let n : b ≢ h = λ s. true≢false (sym g ∙ ap (λ x. (hdr_at a' x).hb_free) s ∙ h_used) in
      (n, (header_before b e, sym (flags b n) ∙ g))

  listed_other : (j x : ℕ) → has x (ls j) ≡ true → x ≢ h
  listed_other j x i = ground (arith, v.out j)

  filled_Holds : Holds a'.heap ls
  filled_Holds = Holds-outside a.heap a'.heap ls h v.holds v.out f.heads f.counts f.links sizes

  pub filled-IsTight : IsTight a' ls
  filled-IsTight = record {
    filed = record {
      holds = filled_Holds;
      laid = laid;
      nonzero = λ e. v.nonzero (header_before 0 e);
      filed = λ b g. let (n, g') = was_free b g in rw (sizes b n) (v.filed b g' n);
      listed = λ j x i.
          let n = listed_other j x i in
          let g = v.listed j x i in (header_kept x g.0, flags x n ∙ g.1);
      small = λ b g. let (n, g') = was_free b g in rw (sizes b n) (v.small b g');
      separate = λ b k g g' e.
          let (n, w) = was_free b g in
          let (n', w') = was_free k g' in
          rw (sizes b n, sizes k n') (v.separate b k w w' n n' (sym (ends b) ∙ e));
    };
    low = λ b g. let (n, g') = was_free b g in rw (ends b) (low b g');
  }

  pub filled-IsUsed : IsUsed a' h
  filled-IsUsed = (header_kept h free.0, h_used)

  pub filled-KeepsAllUsed : KeepsAllUsed a a'
  filled-KeepsAllUsed b (e, u) =
      let n : b ≢ h = λ s. true≢false (sym (ap (λ x. (hdr_at a x).hb_free) s ∙ free.1) ∙ u) in
      ((header_kept b e, flags b n ∙ u), ends b)
