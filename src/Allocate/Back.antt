-- ===== src/Allocate/Back.antt =====
-- Giving back the block that `GC_allochblk_nth` has handed out.
use gcutil.Prelude.{
  ℕ, ◌+◌, ◌*◌, ◌^◌, ◌<◌, ◌≤◌, ◌≢◌, arith, sym, ◌∙◌, subst, Bool, List, Option, some, none, Returns,
}
use gcutil.FreeBlocks.Sums.{length}
use gcutil.Headers.Laid.{end_of}
use gcutil.Freeing.Release.{Fits}
use gcutil.Freeing.{Arena, freehblk, hdr_at}
use gcutil.Freeing.Free.{freehblk-Frees}
use gcutil.Freeing.Loose.{IsFree, IsUsed}
use gcutil.Freeing.PutBack.{IsFiled}
use gcutil.HdrCache.{Collector}
use gcutil.Allocate.{Memory, Allocator, Request, size_needed}
use gcutil.Allocate.Block.{allochblk_nth}
use gcutil.Allocate.Nth.{Allocates, IsNew, allochblk_nth-Allocates}
use gcutil.Allocate.Place.{IsAlignment}
use gcutil.Allocate.State.{IsTight, IsPlenty, KeepsAllUsed}

-- The heap `a` is in order, the pages of the block `h` of `b` are of one free block, and what was in use in `c` still is.
pub record IsGivenBack (c b : Arena) (h : ℕ) (a : Arena) : Type 0 where
  pub lists : ℕ → List ℕ
  pub filed : IsFiled a lists
  pub free : ℕ
  pub is_free : IsFree a free
  pub from : free ≤ h
  pub up_to : end_of b.heap.hdrs h ≤ end_of a.heap.hdrs free
  pub kept : KeepsAllUsed c a

-- The block of a result, if there is one, can be freed.
pub GivesBack : Collector → Allocator × Option ℕ → Type 0
GivesBack c (s', none) = KeepsAllUsed c.arena s'.collector.arena
GivesBack c (s', some h) =
    let b = s'.collector.arena in Returns (freehblk b h) (IsGivenBack c.arena b h)

size_needed-Fits : (r : Request) → size_needed r < 2 ^ 63 → Fits r.lb_adjusted
size_needed-Fits r small = omega arith

gives_back :
    (c : Collector) (most : ℕ) (r : Request) (x : Allocator × Option ℕ)
    → size_needed r < 2 ^ 63
    → Allocates c most r x
    → GivesBack c x
unfolding GivesBack Allocates IsNew
gives_back c most r (s', none) small (ls, tight, kept, all, new) = kept
gives_back c most r (s', some h) small (ls, tight, kept, all, (used, fresh, size, aligned, count)) =
    let b = s'.collector.arena in
    let fits : Fits (hdr_at b h).hb_sz =
      subst (λ n. Fits n) (sym size) (size_needed-Fits r small) in
    let (a, run, (ls', m, filed, free, low, high, keeps, bytes)) =
      freehblk-Frees b ls h tight.filed used fits in
    (
      a,
      run,
      record {
        lists = ls';
        filed = filed;
        free = m;
        is_free = free;
        from = low;
        up_to = high;
        kept = λ k u.
            let (u', e) = kept k u in
            let n : k ≢ h = λ q. fresh (subst (λ y. IsUsed c.arena y) q u) in
            let (u'', e') = keeps k u' n in (u'', e' ∙ e);
      },
    )

module _ (m : Memory) (plenty : IsPlenty m) (r : Request) (a : IsAlignment r.align_m1)
    (pos : 0 < r.lb_adjusted) (small : size_needed r < 2 ^ 63) (index most fuel : ℕ)
    (enough : most + most * most < fuel) where
  -- What `GC_allochblk_nth` hands out can be freed. The request is positive, below 2 ^ 63 bytes in
  -- whole pages, and aligned to nothing or to whole blocks; the heap is in order (every free block on
  -- the list of its class, in the lower half of the address space, and next to no free one), there
  -- is memory for every header, no list is longer than `most`, and the fuel is more than `most` and
  -- its square together. The call returns. If it returns a block, `GC_freehblk` of that does not
  -- abort and returns; the heap is in order then, one free block holds all the pages of the block,
  -- and every block that was in use before the allocation still is, with the same end. If it returns
  -- nothing, every block in use still is as well.
  pub allochblk_nth-GivesBack :
      (s : Allocator) (ls : ℕ → List ℕ) (may_split : Bool)
      → IsTight s.collector.arena ls
      → ((j : ℕ) → length (ls j) ≤ most)
      → Returns (allochblk_nth fuel m s r index may_split) (GivesBack s.collector)
  allochblk_nth-GivesBack s ls may_split v all =
      let (x, run, made) =
        allochblk_nth-Allocates m plenty r a pos index most fuel s ls may_split v all enough in
      (x, run, gives_back s.collector most r x small made)
