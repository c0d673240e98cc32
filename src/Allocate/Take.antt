-- ===== src/Allocate/Take.antt =====
-- What the end of `GC_allochblk_nth` does with the block that it takes off its list.
use gcutil.Prelude.{
  ℕ, ◌+◌, ◌/◌, ◌%◌, ◌<◌, ◌≤◌, ◌≡◌, ◌≢◌, refl, sym, ap, ◌∙◌, subst, true, false, ◌&&◌, ltb, ◌==◌,
  if◌then◌else◌, arith, List, Bool-cases, inl, inr, write, write_ne, Option, some,
}
use gcutil.FreeBlocks.{Heap, hblk_size, get_first_part, set_sz}
use gcutil.Headers.{BlockTable, forward, install_counts, install_header}
use gcutil.Headers.Counts.{blocks_of, count_to}
use gcutil.Headers.Install.{Counted, install_counts-Counted, install_header-Installed}
use gcutil.Freeing.{Arena, hdr_at}
use gcutil.Freeing.Loose.{IsFree, IsUsed, IsLoose}
use gcutil.HdrCache.{Collector, dropping_install_header}
use gcutil.Allocate.{Allocator, Memory, Request, size_needed}
use gcutil.Allocate.Block.{take_first_part, set_up_part}
use gcutil.Allocate.Fill.{Fills, filled-IsTight, filled-IsUsed, filled-KeepsAllUsed}
use gcutil.Allocate.Part.{
  taken, taken-IsLoose, taken-IsLow, taken_at, taken_some, taken-KeepsAllUsed, erased,
}
use gcutil.Allocate.Rest.{
  parted_some, parted, parted-IsLoose, parted_lists, parted-IsLow, parted_size, parted_free,
  parted-KeepsAllUsed,
}
use gcutil.Allocate.State.{IsOn, IsTight, IsLow, IsPlenty, KeepsAllUsed}
use gcutil.Allocate.Run.{set_up, first_part, set_up_run, taken_run, whole_part, less_part}

-- Counts depend on the pages only.
resized :
    (t t' : BlockTable) (h n sz : ℕ)
    → blocks_of n ≡ blocks_of sz
    → Counted t t' h n
    → Counted t t' h sz
resized t t' h n sz e c = record {
  slot = λ x.
      c.slot x ∙ ap (λ k. if ltb h x && ltb x (h + k) then forward (count_to h x) else t.slots x) e;
  kept = c.kept;
  ascending = c.ascending;
}

-- The block that `GC_allochblk_nth` hands out.
pub record IsAllocated (s s' : Allocator) (r : Request) (h : ℕ) : Type 0 where
  pub used : IsUsed s'.collector.arena h
  pub size : (hdr_at s'.collector.arena h).hb_sz ≡ r.lb_adjusted
  pub kept : KeepsAllUsed s.collector.arena s'.collector.arena
  pub no_failures : s'.alloc_fail_count ≡ 0

module _ (m : Memory) (plenty : IsPlenty m) (s : Allocator) (r : Request) (h : ℕ)
    (pos : 0 < r.lb_adjusted) (c : Collector) (a : Arena) (ls : ℕ → List ℕ) (v : IsLoose a ls h)
    (low : IsLow a) (free : IsFree a h) (size : (hdr_at a h).hb_sz ≡ size_needed r)
    (table : c.arena.table ≡ a.table)
    (fills : Fills a.heap (set_up c.arena.heap h r.lb_adjusted) h r.lb_adjusted) where
  -- The last steps from a heap where the block is on no list.
  set_up_part-IsTight :
      let (s', block) = set_up_part m s r h c in
      (block ≡ some h)
      × IsTight s'.collector.arena ls
      × IsUsed s'.collector.arena h
      × ((hdr_at s'.collector.arena h).hb_sz ≡ r.lb_adjusted)
      × KeepsAllUsed a s'.collector.arena
      × (s'.alloc_fail_count ≡ 0)
  set_up_part-IsTight =
      let e = low h free in
      let (ok, counted) =
        install_counts-Counted m.scratch plenty.scratch a.table h (size_needed r) (omega arith)
          (omega arith) v.laid.ascending in
      let (got, heap, table', count) = set_up_run m plenty s r 0 h c (rw table ok) in
      let a' : Arena = (set_up_part m s r h c).0.collector.arena in
      let f : Fills a.heap a'.heap h r.lb_adjusted =
        subst (λ x. Fills a.heap x h r.lb_adjusted) (sym heap) fills in
      let t : a'.table ≡ (install_counts m.scratch a.table h (size_needed r)).0 =
        table' ∙ ap (λ x. (install_counts m.scratch x h (size_needed r)).0) table in
      let k : Counted a.table a'.table h r.lb_adjusted =
        subst (λ x. Counted a.table x h r.lb_adjusted) (sym t)
          (resized a.table (install_counts m.scratch a.table h (size_needed r)).0 h (size_needed r)
            r.lb_adjusted (omega arith) counted) in
      (
        got,
        filled-IsTight a a' ls h r.lb_adjusted v low free f k,
        filled-IsUsed a a' ls h r.lb_adjusted v low free f k,
        f.occupies.size h ∙ ground arith,
        filled-KeepsAllUsed a a' ls h r.lb_adjusted v low free f k,
        count,
      )

-- `setup_header` fills a heap that differs from the present one in the header of `h` only.
pub set_up-Fills :
    (s₀ s : Heap) (h lb : ℕ)
    → ((j : ℕ) → s.hblkfreelist j ≡ s₀.hblkfreelist j)
    → ((j : ℕ) → s.free_bytes j ≡ s₀.free_bytes j)
    → ((x : ℕ) → x ≢ h → s.hdrs x ≡ s₀.hdrs x)
    → blocks_of lb ≡ blocks_of (s₀.hdrs h).hb_sz
    → 0 < lb
    → Fills s₀ (set_up s h lb) h lb
unfolding write
set_up-Fills s₀ s h lb heads counts same pages pos = record {
  heads = heads;
  counts = counts;
  links = λ x n.
      let t : (x == h) ≡ false = ground arith in
      let e = same x n in rw t (ap (λ k. k.hb_next) e, ap (λ k. k.hb_prev) e);
  occupies = record {
    pages = pages;
    positive = pos;
    size = λ x. ground (arith, λ (n : x ≢ h). ap (λ k. k.hb_sz) (same x n));
    free = λ x. ground (arith, λ (n : x ≢ h). ap (λ k. k.hb_free) (same x n));
    block = λ x. ground (arith, λ (n : x ≢ h). ap (λ k. k.hb_block) (same x n));
  };
}

module _ (m : Memory) (plenty : IsPlenty m) (s : Allocator) (ls : ℕ → List ℕ) (r : Request)
    (index h : ℕ) (v : IsOn s.collector.arena ls h index) (pos : 0 < r.lb_adjusted)
    (room : size_needed r ≤ (hdr_at s.collector.arena h).hb_sz) where
  -- What is left to prove of the heap that results.
  unfoldable pub TakesPart : Allocator × Option ℕ → Type 0
  TakesPart (s', block) =
      (ls' : ℕ → List ℕ) × (block ≡ some h) × IsTight s'.collector.arena ls' × IsAllocated s s' r h

  from_loose :
      (a : Arena) (ls₁ : ℕ → List ℕ)
      → IsLoose a ls₁ h
      → IsLow a
      → IsFree a h
      → (hdr_at a h).hb_sz ≡ size_needed r
      → KeepsAllUsed s.collector.arena a
      → (first_part m plenty s r index h).1 ≡ some h
      → (first_part m plenty s r index h).0.arena.table ≡ a.table
      → Fills a.heap
          (set_up (first_part m plenty s r index h).0.arena.heap h r.lb_adjusted)
          h
          r.lb_adjusted
      → TakesPart (take_first_part m s r index h)
  unfolding TakesPart
  from_loose a ls₁ w low free size kept first table fills =
      let c = (first_part m plenty s r index h).0 in
      let (got, tight, used, sz, kept', count) =
        set_up_part-IsTight m plenty s r h pos c a ls₁ w low free size table fills in
      rw (taken_run m plenty s r index h first) (
        ls₁,
        got,
        tight,
        record {
          used = used;
          size = sz;
          kept = λ b u. let (u', e) = kept b u in let (u'', e') = kept' b u' in (u'', e' ∙ e);
          no_failures = count;
        },
      )

  whole-TakesPart :
      (hdr_at s.collector.arena h).hb_sz ≡ size_needed r → TakesPart (take_first_part m s r index h)
  unfolding TakesPart taken
  whole-TakesPart e =
      let a = s.collector.arena in
      let b =
        (dropping_install_header s.collector m.scratch (m.allocated (h + size_needed r / hblk_size))
          (h + size_needed r / hblk_size)).1 in
      let (first, heap, table) = whole_part m plenty s r index h e in
      let a' = taken a ls h index v (size_needed r) b e in
      from_loose a' (erased a ls h index v) (taken-IsLoose a ls h index v (size_needed r) b e)
        (taken-IsLow a ls h index v (size_needed r) b e)
        (taken_at a ls h index v (size_needed r) b e).0
        (taken_at a ls h index v (size_needed r) b e).1
        (taken-KeepsAllUsed a ls h index v (size_needed r) b e)
        (first ∙ taken_some a ls h index v (size_needed r) b e) table
        (rw heap (
          set_up-Fills (get_first_part a.heap h (size_needed r) index b).0
            (get_first_part a.heap h (size_needed r) index b).0 h r.lb_adjusted (λ j. refl)
            (λ j. refl) (λ x n. refl)
            (let q = (taken_at a ls h index v (size_needed r) b e).1 in rw q (omega arith)) pos))

  less-TakesPart :
      (hdr_at s.collector.arena h).hb_sz ≢ size_needed r → TakesPart (take_first_part m s r index h)
  unfolding TakesPart parted set_sz
  less-TakesPart ne =
      let a = s.collector.arena in
      let n = size_needed r in
      let rest = h + size_needed r / hblk_size in
      let (ok, inst) =
        install_header-Installed m.scratch plenty.scratch a.table rest v.laid.ascending in
      let t = (install_header m.scratch true a.table rest).0 in
      let (first, heap, table) = less_part m plenty s r index h ne ok in
      let less : n < (hdr_at a h).hb_sz = omega arith in
      let pages : n % hblk_size ≡ 0 = omega arith in
      let some_bytes : 0 < n = omega arith in
      let g = (get_first_part a.heap h n index true).0 in
      let a' = parted a ls h index v n pages some_bytes less t inst in
      from_loose a' (parted_lists a ls h index v n pages some_bytes less t inst)
        (parted-IsLoose a ls h index v n pages some_bytes less t inst)
        (parted-IsLow a ls h index v n pages some_bytes less t inst)
        (parted_free a ls h index v n pages some_bytes less t inst)
        (parted_size a ls h index v n pages some_bytes less t inst)
        (parted-KeepsAllUsed a ls h index v n pages some_bytes less t inst)
        (first ∙ parted_some a ls h index v n pages some_bytes less t inst) table
        (rw heap (
          set_up-Fills (set_sz g h n) g h r.lb_adjusted (λ j. refl) (λ j. refl)
            (λ x k. sym (write_ne g.hdrs h _ x k))
            (let q = parted_size a ls h index v n pages some_bytes less t inst in
              rw q (omega arith))
            pos))

  -- With memory at hand the first part of a free block that is large enough is taken, and the rest of it
  -- is filed.
  pub take_first_part-IsTight : TakesPart (take_first_part m s r index h)
  take_first_part-IsTight =
      elim (Bool-cases ((hdr_at s.collector.arena h).hb_sz == size_needed r)) [
        | inl whole ↦ whole-TakesPart (ground arith)
        | inr less ↦ less-TakesPart (ground arith)
      ]
