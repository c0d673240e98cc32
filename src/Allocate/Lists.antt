-- ===== src/Allocate/Lists.antt =====
-- What `GC_allochblk_from_free_lists` and `GC_allochblk` return.
use gcutil.Prelude.{
  ℕ, zero, suc, ◌+◌, ◌-◌, ◌*◌, ◌/◌, ◌^◌, ◌<◌, ◌≤◌, ◌≡◌, refl, ◌∙◌, true, false, ◌&&◌, ◌==◌, leb,
  ltb, min, if◌then◌else◌, List, Bool-cases, inl, inr, ◌⊎◌, Option, some, none, Returns, done,
  Outcome,
}
use gcutil.FreeBlocks.{hblk_size, unique_threshold, hblk_fl_from_blocks}
use gcutil.FreeBlocks.Sums.{length}
use gcutil.HdrCache.{Collector}
use gcutil.Allocate.{Memory, Allocator, Request, size_needed}
use gcutil.Allocate.Block.{Policy, split_limit_of, lists_loop, allochblk_from_free_lists, allochblk}
use gcutil.Allocate.Nth.{Allocates, IsNew, allochblk_nth-Allocates}
use gcutil.Allocate.Place.{IsAlignment}
use gcutil.Allocate.State.{IsTight, IsPlenty, KeepsAllUsed}

IsNew-before :
    (c c' : Collector) (s : Allocator) (r : Request) (block : Option ℕ)
    → KeepsAllUsed c.arena c'.arena
    → IsNew c' s r block
    → IsNew c s r block
unfolding IsNew
IsNew-before c c' s r none kept n = tt
IsNew-before c c' s r (some h) kept (used, fresh, size, aligned, count) =
    (used, (λ u. fresh (kept h u).0), size, aligned, count)

module _ (m : Memory) (plenty : IsPlenty m) (r : Request) (a : IsAlignment r.align_m1)
    (pos : 0 < r.lb_adjusted) (most fuel : ℕ) (enough : most + most * most < fuel) where
  -- The lists are `ls`, none of which is longer than `most`.
  pub Starts : Allocator → (ℕ → List ℕ) → Type 0
  Starts s ls = IsTight s.collector.arena ls × ((j : ℕ) → length (ls j) ≤ most)

  -- The result of a first attempt, or of a second one.
  or_else :
      (c : Collector) (s' : Allocator) (block : Option ℕ)
      (next : Allocator → Outcome (Allocator × Option ℕ))
      → Allocates c most r (s', block)
      → ((ls' : ℕ → List ℕ) → Starts s' ls' → Returns (next s') (Allocates s'.collector most r))
      → Returns (elim block [ some h ↦ done (s', some h) | none ↦ next s' ]) (Allocates c most r)
  unfolding Allocates Starts
  or_else c s' (some h) next first second = ((s', some h), refl, first)
  or_else c s' none next (ls', tight, kept, all, new) second =
      let ((s'', block), run, (ls'', tight', kept', all', new')) = second ls' (tight, all refl) in
      (
        (s'', block),
        run,
        (
          ls'',
          tight',
          (λ b u. let (u', e) = kept b u in let (u'', e') = kept' b u' in (u'', e' ∙ e)),
          all',
          IsNew-before c s'.collector s'' r block kept new',
        ),
      )

  lists_loop-Allocates :
      (lists : ℕ) (s : Allocator) (ls : ℕ → List ℕ) (start_list : ℕ)
      → Starts s ls
      → Returns (lists_loop fuel lists m s r start_list) (Allocates s.collector most r)
  unfolding lists_loop Starts Allocates IsNew
  lists_loop-Allocates zero s ls start_list (v, all) =
      ((s, none), refl, (ls, v, (λ b u. (u, refl)), (λ e. all), tt))
  lists_loop-Allocates (suc lists) s ls start_list (v, all) =
      let ((s', block), run, first) =
        allochblk_nth-Allocates m plenty r a pos start_list most fuel s ls true v all enough in
      rw run (
        or_else s.collector s' block (λ x. lists_loop fuel lists m x r (start_list + 1)) first
          (λ ls' w. lists_loop-Allocates lists s' ls' (start_list + 1) w))

  -- From a heap in order, `GC_allochblk_from_free_lists` returns.
  pub allochblk_from_free_lists-Allocates :
      (policy : Policy) (s : Allocator) (ls : ℕ → List ℕ) (start_list : ℕ)
      → IsTight s.collector.arena ls
      → ((j : ℕ) → length (ls j) ≤ most)
      → Returns
          (allochblk_from_free_lists fuel policy m s r start_list)
          (Allocates s.collector most r)
  unfolding allochblk_from_free_lists Starts
  allochblk_from_free_lists-Allocates policy s ls start_list v all =
      let ((s', block), run, first) =
        allochblk_nth-Allocates m plenty r a pos start_list most fuel s ls false v all enough in
      let next =
        if ltb start_list unique_threshold && r.align_m1 == 0 then start_list + 1 else start_list in
      rw run (
        or_else s.collector s' block
          (λ x. lists_loop fuel (split_limit_of policy x start_list + 1 - next) m x r next) first
          (λ ls' w.
            lists_loop-Allocates (split_limit_of policy s' start_list + 1 - next) s' ls' next w))

  -- The attempt that made the result: one before a collection, or one behind it.
  pub Makes : (Allocator → Option (Allocator × Policy)) → Allocator → Allocator × Option ℕ → Type 0
  Makes gcollect s x =
      Allocates s.collector most r x
      ⊎ ((s' : Allocator) × (s'' : Allocator) × (p : Policy) × (gcollect s' ≡ some (s'', p))
          × Allocates s''.collector most r x)

  module _ (gcollect : Allocator → Option (Allocator × Policy))
      (collects : (s' s'' : Allocator) (ls' : ℕ → List ℕ) (p : Policy)
        → Starts s' ls'
        → gcollect s' ≡ some (s'', p)
        → (ls'' : ℕ → List ℕ) × Starts s'' ls'') where
    behind_collection :
        (s s' : Allocator) (ls' : ℕ → List ℕ) (start_list : ℕ) (o : Option (Allocator × Policy))
        → Starts s' ls'
        → Allocates s.collector most r (s', none)
        → gcollect s' ≡ o
        → Returns
            (elim o [
              | none ↦ done (s', none)
              | some (s'', policy') ↦ allochblk_from_free_lists fuel policy' m s'' r start_list
            ])
            (Makes gcollect s)
    unfolding Makes Starts
    behind_collection s s' ls' start_list none w first e = ((s', none), refl, inl first)
    behind_collection s s' ls' start_list (some (s'', p)) w first e =
        let (ls'', (v, all)) = collects s' s'' ls' p w e in
        let (x, run, made) = allochblk_from_free_lists-Allocates p s'' ls'' start_list v all in
        (x, run, inr (s', s'', p, e, made))

    then_collect :
        (s s' : Allocator) (block : Option ℕ) (start_list : ℕ)
        → Allocates s.collector most r (s', block)
        → Returns
            (elim block [
              | some h ↦ done (s', some h)
              | none ↦ elim (gcollect s') [
                | none ↦ done (s', none)
                | some (s'', policy') ↦ allochblk_from_free_lists fuel policy' m s'' r start_list
              ]
            ])
            (Makes gcollect s)
    unfolding Makes Starts Allocates
    then_collect s s' (some h) start_list first = ((s', some h), refl, inl first)
    then_collect s s' none start_list (ls', v, kept, all, new) =
        behind_collection s s' ls' start_list (gcollect s') (v, all refl) (ls', v, kept, all, new)
          refl

    -- `GC_allochblk` of a positive number of bytes, aligned to nothing or to whole blocks, in a heap in
    -- order: every free block is on the list of its class, ends in the lower half of the address
    -- space, and is not next to a free one. There is memory for every header, no list is longer than
    -- `most`, the fuel is more than `most` and its square together, and a collection leaves such a heap.
    -- The call returns, also where it drops black listed blocks. The heap is in order then. The
    -- result is nothing, or a block that was not in use and is now, with the size and the alignment
    -- asked for. Each block in use as the last attempt began, before the collection or behind it,
    -- still is, with the same end.
    pub allochblk-Makes :
        (policy : Policy) (s : Allocator) (ls : ℕ → List ℕ)
        → IsTight s.collector.arena ls
        → ((j : ℕ) → length (ls j) ≤ most)
        → Returns (allochblk fuel policy gcollect m s r) (Makes gcollect s)
    unfolding allochblk Makes Allocates IsNew
    allochblk-Makes policy s ls v all =
        elim (Bool-cases (leb (2 ^ 63 - 1) (min (size_needed r + r.align_m1) (2 ^ 64 - 1)))) [
          | inl t ↦ rw t ((s, none), refl, inl (ls, v, (λ b u. (u, refl)), (λ e. all), tt))
          | inr f ↦
              let start_list = hblk_fl_from_blocks (size_needed r / hblk_size) in
              let ((s', block), run, first) =
                allochblk_from_free_lists-Allocates policy s ls start_list v all in
              rw (f, run) (then_collect s s' block start_list first)
        ]
