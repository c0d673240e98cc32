-- ===== src/Allocate/At.antt =====
-- Cutting a block out of a free block (`GC_allochblk_nth` behind its search).
use Prim.Native.Nat.{◌∣◌}
use gcutil.Prelude.{
  ℕ, ◌+◌, ◌-◌, ◌*◌, ◌<◌, ◌≤◌, ◌≡◌, ◌≢◌, refl, sym, ap, ◌∙◌, subst, true, false, ◌||◌, ◌&&◌, leb,
  ◌==◌, if◌then◌else◌, arith, List, Bool-cases, inl, inr, Option, some,
}
use gcutil.FreeBlocks.{hblk_size}
use gcutil.FreeBlocks.Cuts.{split_block-fields}
use gcutil.FreeBlocks.Lists.{has}
use gcutil.Headers.{install_header}
use gcutil.Headers.Install.{install_header-Installed}
use gcutil.Headers.Laid.{end_of}
use gcutil.Freeing.{hdr_at}
use gcutil.HdrCache.{Collector, dropping_install_header, dropping_split, invalidate_hdr_cache}
use gcutil.Allocate.Find.{IsClear}
use gcutil.Allocate.{max_black_list_alloc, Allocator, Memory, Request, size_needed}
use gcutil.Allocate.Block.{take_first_part, allocate_at}
use gcutil.Allocate.Cut.{split_arena, split_lists, split_arena-IsOn, split_arena-KeepsAllUsed}
use gcutil.Allocate.State.{IsTight, IsTight-IsOn, IsPlenty, IsOn}
use gcutil.Allocate.Take.{TakesPart, IsAllocated, take_first_part-IsTight}

-- The bytes of a place that must not be black listed.
abbrev pub eff_size_needed : Request → ℕ
eff_size_needed r = if r.ignore_off_page then hblk_size else size_needed r

-- Why a place may be taken: its region is not black listed, or the objects are never collected or
-- small and without pointers, or both the request and what the block has more are very large.
pub data IsSafe (c : Collector) (r : Request) (size_avail last_hbp : ℕ) : Type 0 where
  exempt :
      (r.is_uncollectable || r.is_ptrfree && leb (size_needed r) max_black_list_alloc) ≡ true
      → IsSafe c r size_avail last_hbp
  unlisted : IsClear c.black_lists (eff_size_needed r) last_hbp → IsSafe c r size_avail last_hbp
  large :
      c.black_lists.black_list_spacing < size_needed r
      → c.black_lists.black_list_spacing < size_avail - size_needed r
      → IsSafe c r size_avail last_hbp

-- The free block `hbp` has room for the request at `last_hbp`, which is aligned and may be taken.
pub record IsPlace (c : Collector) (r : Request) (hbp last_hbp : ℕ) : Type 0 where
  pub above : hbp ≤ last_hbp
  pub room : last_hbp * hblk_size + size_needed r ≤ hbp * hblk_size + (hdr_at c.arena hbp).hb_sz
  pub aligned : r.align_m1 + 1 ∣ last_hbp * hblk_size
  pub safe : IsSafe c r (hdr_at c.arena hbp).hb_sz last_hbp

module _ (m : Memory) (plenty : IsPlenty m) (s : Allocator) (ls : ℕ → List ℕ) (r : Request)
    (index hbp last : ℕ) (v : IsTight s.collector.arena ls) (i : has hbp (ls index) ≡ true)
    (p : IsPlace s.collector r hbp last) (pos : 0 < r.lb_adjusted) where
  here_run : last ≡ hbp → allocate_at m s r index hbp last ≡ take_first_part m s r index hbp
  unfolding allocate_at
  here_run e = let t : (last == hbp) ≡ true = ground arith in rw (allocate_at, t) refl

  split_run :
      last ≢ hbp
      → (install_header m.scratch true s.collector.arena.table last).1 ≡ true
      → allocate_at m s r index hbp last
        ≡ take_first_part m
            (record s { collector = dropping_split s.collector hbp last index m.scratch true })
            r
            index
            last
  unfolding allocate_at dropping_install_header
  split_run n ok =
      let t : (last == hbp) ≡ false = ground arith in
      let q = plenty.allocated last in rw (allocate_at, q, t, ok) refl

  unfoldable pub Done : Allocator × Option ℕ → Type 0
  Done (s', block) =
      (ls' : ℕ → List ℕ) × (block ≡ some last)
      × IsTight s'.collector.arena ls'
      × IsAllocated s s' r last

  at_start : last ≡ hbp → Done (allocate_at m s r index hbp last)
  unfolding Done TakesPart
  at_start e = rw (here_run e) (
      subst
        (λ k.
          (ls' : ℕ → List ℕ) × ((take_first_part m s r index hbp).1 ≡ some k)
          × IsTight (take_first_part m s r index hbp).0.collector.arena ls'
          × IsAllocated s (take_first_part m s r index hbp).0 r k)
        (sym e)
        (take_first_part-IsTight m plenty s ls r index hbp
          (IsTight-IsOn s.collector.arena ls v hbp index i) pos (omega (arith, p.room))))

  behind : last ≢ hbp → Done (allocate_at m s r index hbp last)
  unfolding Done TakesPart dropping_split dropping_install_header invalidate_hdr_cache
  behind n =
      let a = s.collector.arena in
      let l : hbp < last = omega (arith, p.above) in
      let u : last < end_of a.heap.hdrs hbp = omega (arith, p.room) in
      let (ok, inst) =
        install_header-Installed m.scratch plenty.scratch a.table last v.filed.laid.ascending in
      let t = (install_header m.scratch true a.table last).0 in
      let s₁ : Allocator = record s {
        collector = dropping_split s.collector hbp last index m.scratch true;
      } in
      let e : s₁.collector.arena ≡ split_arena a ls v hbp index i last l u t inst = rw ok refl in
      let on : IsOn s₁.collector.arena (split_lists a ls v hbp index i last l u t inst) last index =
        rw e (split_arena-IsOn a ls v hbp index i last l u t inst) in
      let size : (hdr_at s₁.collector.arena last).hb_sz
          ≡ (hdr_at a hbp).hb_sz - (last - hbp) * hblk_size =
        ap (λ x. (hdr_at x last).hb_sz) e
        ∙ (split_block-fields a.heap hbp last index (omega arith) last).0
        ∙ ground arith in
      let split = split_arena-KeepsAllUsed a ls v hbp index i last l u t inst in
      let (ls', got, tight, w) =
        take_first_part-IsTight m plenty s₁ (split_lists a ls v hbp index i last l u t inst) r index
          last on pos (omega (arith, p.room)) in
      rw (split_run n ok) (
        ls',
        got,
        tight,
        record {
          used = w.used;
          size = w.size;
          kept = λ b used.
              let (used', q) = split b used in
              let (used'', q') = w.kept b (rw e used') in
              (used'', q' ∙ ap (λ x. end_of x.heap.hdrs b) e ∙ q);
          no_failures = w.no_failures;
        },
      )

  -- With memory at hand the place is cut out of its block and set up.
  pub allocate_at-Done : Done (allocate_at m s r index hbp last)
  allocate_at-Done = elim (Bool-cases (last == hbp)) [
    | inl same ↦ at_start (ground arith)
    | inr other ↦ behind (ground arith)
  ]
