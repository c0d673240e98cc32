-- ===== src/Allocate/Nth.antt =====
-- What `GC_allochblk_nth` returns.
use Prim.Native.Nat.{◌∣◌}
use gcutil.Prelude.{
  ℕ, ◌+◌, ◌*◌, ◌<◌, ◌≤◌, ◌≡◌, refl, sym, ap, ◌∙◌, Bool, true, ◌==◌, ==_iff, arith, List, Bool-cases,
  inl, inr, Option, some, none, Returns,
}
use gcutil.FreeBlocks.{hblk_size}
use gcutil.FreeBlocks.Lists.{has}
use gcutil.FreeBlocks.Moves.{true≢false}
use gcutil.FreeBlocks.Sums.{length}
use gcutil.Headers.{nil, header}
use gcutil.Freeing.{hdr_at}
use gcutil.Freeing.Loose.{IsUsed}
use gcutil.HdrCache.{Collector}
use gcutil.Allocate.{Memory, Allocator, Request}
use gcutil.Allocate.Block.{allocate_at, allochblk_nth}
use gcutil.Allocate.At.{IsPlace, Done, allocate_at-Done}
use gcutil.Allocate.Place.{IsAlignment}
use gcutil.Allocate.Search.{Finds, IsFound, search_list-IsFound}
use gcutil.Allocate.State.{IsTight, IsPlenty, KeepsAllUsed}

-- The block that is returned is a new one, in use, with the bytes and the alignment of the request.
unfoldable pub IsNew : Collector → Allocator → Request → Option ℕ → Type 0
IsNew c s' r none = Unit {0}
IsNew c s' r (some h) =
    IsUsed s'.collector.arena h
    × (IsUsed c.arena h → ⊥)
    × ((hdr_at s'.collector.arena h).hb_sz ≡ r.lb_adjusted)
    × (r.align_m1 + 1 ∣ h * hblk_size)
    × (s'.alloc_fail_count ≡ 0)

-- The heap is in order, each block that was in use still is, and the result is nothing or a new block.
unfoldable pub Allocates : Collector → ℕ → Request → Allocator × Option ℕ → Type 0
Allocates c most r (s', block) =
    (ls' : ℕ → List ℕ) × IsTight s'.collector.arena ls'
    × KeepsAllUsed c.arena s'.collector.arena
    × (block ≡ none → (j : ℕ) → length (ls' j) ≤ most)
    × IsNew c s' r block

module _ (m : Memory) (plenty : IsPlenty m) (r : Request) (a : IsAlignment r.align_m1)
    (pos : 0 < r.lb_adjusted) (index most : ℕ) where
  -- A place in a free block is no block in use.
  place_unused :
      (c : Collector) (ls : ℕ → List ℕ) (hbp last : ℕ)
      → IsTight c.arena ls
      → has hbp (ls index) ≡ true
      → IsPlace c r hbp last
      → IsUsed c.arena last
      → ⊥
  place_unused c ls hbp last v i p (e, u) =
      let f = v.filed.listed index hbp i in
      elim (Bool-cases (last == hbp)) [
        | inl same ↦
            true≢false
              (sym f.1 ∙ ap (λ x. (hdr_at c.arena x).hb_free) (sym ((==_iff last hbp).0 same)) ∙ u)
        | inr other ↦
            let n =
              v.filed.laid.cleared hbp last f.0 f.1 (ground (arith, p.above))
                (omega (arith, p.room)) in
            let q : nil ≡ header = sym n ∙ e in absurd (cc)
      ]

  cut :
      (s s₁ : Allocator) (ls : ℕ → List ℕ) (place : Option (ℕ × ℕ))
      → IsTight s₁.collector.arena ls
      → KeepsAllUsed s.collector.arena s₁.collector.arena
      → ((j : ℕ) → length (ls j) ≤ most)
      → IsFound s₁.collector r ls index place
      → Allocates s.collector most r
          (elim place [ none ↦ (s₁, none) | some (hbp, last) ↦ allocate_at m s₁ r index hbp last ])
  unfolding Allocates IsFound IsNew Done
  cut s s₁ ls none v kept all found = (ls, v, kept, (λ e. all), tt)
  cut s s₁ ls (some (hbp, last)) v kept all (i, p) =
      let (ls', got, tight, w) = allocate_at-Done m plenty s₁ ls r index hbp last v i p pos in
      (
        ls',
        tight,
        (λ b u. let (u', e) = kept b u in let (u'', e') = w.kept b u' in (u'', e' ∙ e)),
        (λ e. let c : some last ≡ none = sym got ∙ e in absurd (cc)),
        rw got (
          w.used,
          (λ u. place_unused s₁.collector ls hbp last v i p (kept last u).0),
          w.size,
          p.aligned,
          w.no_failures,
        ),
      )

  -- `GC_allochblk_nth`
  pub allochblk_nth-Allocates :
      (fuel : ℕ) (s : Allocator) (ls : ℕ → List ℕ) (may_split : Bool)
      → IsTight s.collector.arena ls
      → ((j : ℕ) → length (ls j) ≤ most)
      → most + most * most < fuel
      → Returns (allochblk_nth fuel m s r index may_split) (Allocates s.collector most r)
  unfolding allochblk_nth Finds
  allochblk_nth-Allocates fuel s ls may_split v all enough =
      let ((s₁, place), run, (ls₁, tight, kept, all₁, found)) =
        search_list-IsFound m plenty r a index most fuel s ls may_split v all enough in
      rw run (_, refl, cut s s₁ ls₁ place tight kept all₁ found)
