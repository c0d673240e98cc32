-- ===== src/Allocate/Chunks.antt =====
-- The loop of `drop_hblk_in_chunks`, and the block that it takes off its list.
use gcutil.Prelude.{
  ℕ, zero, suc, ◌+◌, ◌-◌, ◌*◌, ◌/◌, ◌<◌, ◌≡◌, refl, sym, ap, ◌∙◌, subst, true, false, arith, List,
  write, word_sub,
}
use gcutil.FreeBlocks.{hblk_size, remove_from_fl_at}
use gcutil.FreeBlocks.Lists.{has, erase}
use gcutil.FreeBlocks.Split.{get_first_part_whole}
use gcutil.Headers.{install_header}
use gcutil.Headers.Install.{install_header-Installed}
use gcutil.Freeing.{Arena, hdr_at}
use gcutil.Freeing.Loose.{IsFree, IsLoose}
use gcutil.HdrCache.{Collector, dropping_install_header, setup_header, invalidate_hdr_cache}
use gcutil.Allocate.{Memory, Allocator, drop_loop, drop_hblk_in_chunks}
use gcutil.Allocate.Drop.{
  Views, last_page, chopped, chopped-IsLoose, chopped-IsLow, rest_free, rest_size,
  chopped-KeepsAllUsed, chopped-Views, chopped_table,
}
use gcutil.Allocate.Part.{taken, taken-IsLoose, taken-IsLow, taken_at, taken-KeepsAllUsed, erased}
use gcutil.Allocate.State.{IsTight, IsTight-IsOn, IsLow, IsPlenty, KeepsAllUsed}

module _ (m : Memory) (plenty : IsPlenty m) (ls : ℕ → List ℕ) where
  Dropped : Arena → Collector → Type 0
  Dropped a c = IsTight c.arena ls × KeepsAllUsed a c.arena

  drop_loop-Dropped :
      (blocks : ℕ) (c : Collector) (h : ℕ) (a : Arena) (v : IsLoose a ls h)
      → IsLow a
      → IsFree a h
      → Views a.heap c.arena.heap h
      → c.arena.table ≡ a.table
      → (hdr_at a h).hb_sz ≡ (blocks + 1) * hblk_size
      → Dropped a (drop_loop m blocks c h)
  unfolding drop_loop Dropped setup_header dropping_install_header invalidate_hdr_cache
  drop_loop-Dropped zero c h a v low free view table size =
      last_page a ls h v low free c.arena.heap view (drop_loop m zero c h).arena refl table
        (size ∙ omega arith)
  drop_loop-Dropped (suc blocks) c h a v low free view table size =
      let (ok, inst) =
        install_header-Installed m.scratch plenty.scratch a.table (h + 1) v.laid.ascending in
      let t = (install_header m.scratch true a.table (h + 1)).0 in
      let more : hblk_size < (hdr_at a h).hb_sz = omega arith in
      let q = plenty.allocated (h + 1) in
      let ok' : (install_header m.scratch true c.arena.table (h + 1)).1 ≡ true = rw table ok in
      let c₁ = (setup_header c h hblk_size false true).0 in
      let c₂ = (dropping_install_header c₁ m.scratch true (h + 1)).0 in
      let a₁ = chopped a ls h v low free c.arena.heap view t inst more in
      let (tight, kept) =
        drop_loop-Dropped blocks c₂ (h + 1) a₁
          (chopped-IsLoose a ls h v low free c.arena.heap view t inst more)
          (chopped-IsLow a ls h v low free c.arena.heap view t inst more)
          (rest_free a ls h v low free c.arena.heap view t inst more)
          (chopped-Views a ls h v low free c.arena.heap view t inst more)
          (ap (λ x. (install_header m.scratch true x (h + 1)).0) table
            ∙ sym (chopped_table a ls h v low free c.arena.heap view t inst more))
          (rest_size a ls h v low free c.arena.heap view t inst more ∙ omega arith) in
      let kept₁ = chopped-KeepsAllUsed a ls h v low free c.arena.heap view t inst more in
      rw (q, ok')
        (tight, λ b u. let (u', e) = kept₁ b u in let (u'', e') = kept b u' in (u'', e' ∙ e))

-- With memory at hand a black listed block leaves its list, and all its pages come into use. No other
-- block is touched.
module _ (m : Memory) (plenty : IsPlenty m) (s : Allocator) (ls : ℕ → List ℕ) (index hbp : ℕ)
    (v : IsTight s.collector.arena ls) (i : has hbp (ls index) ≡ true) where
  unfoldable pub dropped_lists : ℕ → List ℕ
  dropped_lists = write ls index (erase hbp (ls index))

  pub drop_hblk_in_chunks-IsTight :
      let s' = drop_hblk_in_chunks m s index hbp in
      IsTight s'.collector.arena dropped_lists × KeepsAllUsed s.collector.arena s'.collector.arena
  unfolding drop_hblk_in_chunks Dropped dropped_lists erased taken
  drop_hblk_in_chunks-IsTight =
      let a = s.collector.arena in
      let n = (hdr_at a hbp).hb_sz in
      let on = IsTight-IsOn a ls v hbp index i in
      let a₁ = taken a ls hbp index on n true refl in
      let (free, size) = taken_at a ls hbp index on n true refl in
      let w = on.laid.whole hbp on.free.0 on.free.1 in
      let p = on.laid.sized hbp on.free.0 in
      let e = ap (λ x. x.0) (get_first_part_whole a.heap ls on.holds hbp index i n true refl) in
      let arena : Arena = record a {
        heap = remove_from_fl_at a.heap hbp index;
        large_free_bytes = word_sub a.large_free_bytes n;
      } in
      let c₁ : Collector = record s.collector { arena = arena } in
      let view : Views a₁.heap c₁.arena.heap hbp =
        subst (λ x. Views x (remove_from_fl_at a.heap hbp index) hbp) (sym e)
          (record { heads = λ j. refl; counts = λ j. refl; same = λ x k. refl }) in
      let (tight, kept) =
        drop_loop-Dropped m plenty (erased a ls hbp index on) (n / hblk_size - 1) c₁ hbp a₁
          (taken-IsLoose a ls hbp index on n true refl) (taken-IsLow a ls hbp index on n true refl)
          free view refl (size ∙ omega arith) in
      let kept₁ = taken-KeepsAllUsed a ls hbp index on n true refl in
      (tight, λ b u. let (u', q) = kept₁ b u in let (u'', q') = kept b u' in (u'', q' ∙ q))
