-- ===== src/Allocate/Search.antt =====
-- The search of a free list for a place.
use gcutil.Prelude.{
  ℕ, zero, suc, ◌+◌, ◌-◌, ◌*◌, ◌≤◌, ◌<◌, ◌≡◌, refl, sym, ◌∙◌, subst, Bool, true, false, ◌==◌,
  ==_iff, if◌then◌else◌, arith, List, Bool-cases, inl, inr, Option, some, none, Returns, done,
  Outcome, write_self, write_ne,
}
use gcutil.FreeBlocks.Links.{Links-prev, Links-next, Links-zero}
use gcutil.FreeBlocks.Lists.{has, erase, has-erase}
use gcutil.FreeBlocks.Sums.{length}
use gcutil.HdrCache.{Collector}
use gcutil.Allocate.{
  Memory, Allocator, Request, Choice, pass, drop, take, hdr_of, search_list, drop_hblk_in_chunks,
}
use gcutil.Allocate.At.{IsPlace}
use gcutil.Allocate.Choose.{IsGood, choose-IsGood}
use gcutil.Allocate.Chunks.{dropped_lists, drop_hblk_in_chunks-IsTight}
use gcutil.Allocate.Place.{IsAlignment}
use gcutil.Allocate.State.{IsTight, IsPlenty, KeepsAllUsed}
use gcutil.Allocate.Walk.{
  IsAhead, all_IsAhead, end_IsAhead, member_IsAhead, step_IsAhead, none_IsAhead, length-erase,
  IsAhead-weaken, Links-prev_ne,
}

-- What is found on the list `index`: nothing, or a block of it and a place in that.
unfoldable pub IsFound : Collector → Request → (ℕ → List ℕ) → ℕ → Option (ℕ × ℕ) → Type 0
IsFound c r ls index none = Unit {0}
IsFound c r ls index (some (hbp, last)) = (has hbp (ls index) ≡ true) × IsPlace c r hbp last

fuel_enough : (fuel n n' k : ℕ) → suc n' ≡ n → suc k + n * n < suc fuel → n' + n' * n' < fuel
fuel_enough fuel n n' k e l =
    let square : n * n ≡ n' * n' + n' + n' + 1 = rw (sym e) (grind arith) in omega arith

module _ (m : Memory) (plenty : IsPlenty m) (r : Request) (a : IsAlignment r.align_m1)
    (index most : ℕ) where
  unfoldable pub Finds : Collector → Allocator × Option (ℕ × ℕ) → Type 0
  Finds c (s', place) =
      (ls' : ℕ → List ℕ) × IsTight s'.collector.arena ls'
      × KeepsAllUsed c.arena s'.collector.arena
      × ((j : ℕ) → length (ls' j) ≤ most)
      × IsFound s'.collector r ls' index place

  module _ (s : Allocator) (ls : ℕ → List ℕ) (hbp : ℕ) (v : IsTight s.collector.arena ls)
      (i : has hbp (ls index) ≡ true) where
    s₁ : Allocator
    s₁ = drop_hblk_in_chunks m s index hbp

    ls₁ : ℕ → List ℕ
    ls₁ = dropped_lists m plenty s ls index hbp v i

    dropped : IsTight s₁.collector.arena ls₁ × KeepsAllUsed s.collector.arena s₁.collector.arena
    unfolding s₁ ls₁
    dropped = drop_hblk_in_chunks-IsTight m plenty s ls index hbp v i

    at_index : ls₁ index ≡ erase hbp (ls index)
    unfolding ls₁ dropped_lists
    at_index = write_self ls index (erase hbp (ls index))

    shorter : length (ls₁ index) + 1 ≡ length (ls index)
    shorter = rw at_index (length-erase hbp (ls index) i)

    bounded : ((j : ℕ) → length (ls j) ≤ most) → (j : ℕ) → length (ls₁ j) ≤ most
    unfolding ls₁ dropped_lists
    bounded all j = elim (Bool-cases (j == index)) [
      | inl same ↦
          subst (λ k. length (ls₁ k) ≤ most) (sym ((==_iff j index).0 same))
            (omega (arith, shorter, all index))
      | inr other ↦ rw (write_ne ls index (erase hbp (ls index)) j (ground arith)) (all j)
    ]

    prev_kept : (hdr_of s hbp).hb_prev == 0 ≡ false → has (hdr_of s hbp).hb_prev (ls₁ index) ≡ true
    prev_kept later =
        let h = s.collector.arena.heap in
        let w = v.filed.holds in
        let first = h.hblkfreelist index in
        let ne =
          Links-prev_ne h.hdrs hbp 0 first (ls index) i
            (Links-zero h.hdrs 0 first (ls index) (w.links index)) (w.distinct index)
            (w.links index) in
        let erased = has-erase (hdr_of s hbp).hb_prev hbp (ls index) (w.distinct index) in
        rw at_index (elim (Links-prev h.hdrs hbp 0 first (ls index) i (w.links index)) [
          | inl (f, g) ↦ ground arith
          | inr (f, g) ↦ ground arith
        ])

    -- Where the search goes on after a drop.
    go_on : ℕ
    go_on =
        let prev = (hdr_of s hbp).hb_prev in
        if prev == 0 then s₁.collector.arena.heap.hblkfreelist index else (hdr_of s₁ prev).hb_next

    go_on-IsAhead : IsAhead s₁.collector.arena.heap.hdrs go_on (ls₁ index) (length (ls₁ index))
    unfolding go_on
    go_on-IsAhead =
        let prev = (hdr_of s hbp).hb_prev in
        let h = s.collector.arena.heap in
        let h₁ = s₁.collector.arena.heap in
        let w = v.filed.holds in
        let w₁ = dropped.0.filed.holds in
        elim (Bool-cases (prev == 0)) [
          | inl first ↦
              rw first (all_IsAhead h₁.hdrs 0 (h₁.hblkfreelist index) (ls₁ index) (w₁.links index))
          | inr later ↦
              let p = prev_kept later in
              rw later
                (elim (Links-next h₁.hdrs prev 0 (h₁.hblkfreelist index) (ls₁ index) p
                  (w₁.links index)) [
                    | inl end ↦ rw end (end_IsAhead h₁.hdrs (ls₁ index) (length (ls₁ index)))
                    | inr next ↦
                        member_IsAhead h₁.hdrs (h₁.hdrs prev).hb_next 0 (h₁.hblkfreelist index)
                          (ls₁ index) next (w₁.links index)
                  ])
        ]

  -- The statement on what is left to search.
  Searches : ℕ → ℕ → ℕ → Type 0
  Searches fuel n k =
      (s : Allocator) (ls : ℕ → List ℕ) (hbp : ℕ) (may_split : Bool)
      → IsTight s.collector.arena ls
      → length (ls index) ≤ n
      → ((j : ℕ) → length (ls j) ≤ most)
      → IsAhead s.collector.arena.heap.hdrs hbp (ls index) k
      → Returns (search_list fuel m s r index may_split hbp) (Finds s.collector)

  module _ (fuel n k : ℕ) (s : Allocator) (ls : ℕ → List ℕ) (hbp : ℕ) (may_split : Bool)
      (v : IsTight s.collector.arena ls) (len : length (ls index) ≤ n)
      (all : (j : ℕ) → length (ls j) ≤ most) (i : has hbp (ls index) ≡ true)
      (ahead : IsAhead s.collector.arena.heap.hdrs (hdr_of s hbp).hb_next (ls index) k)
      (passed : Searches fuel n k) (dropped_one : (n' : ℕ) → suc n' ≡ n → Searches fuel n' n') where
    go_on_dropped :
        Returns
          (search_list fuel m
            (drop_hblk_in_chunks m s index hbp)
            r
            index
            may_split
            (go_on s ls hbp v i))
          (Finds s.collector)
    unfolding Finds Searches s₁
    go_on_dropped =
        let (tight, kept) = dropped s ls hbp v i in
        let sh = shorter s ls hbp v i in
        let s' = drop_hblk_in_chunks m s index hbp in
        let next = go_on s ls hbp v i in
        let ahead' =
          IsAhead-weaken s'.collector.arena.heap.hdrs next (ls₁ s ls hbp v i index)
            (length (ls₁ s ls hbp v i index)) (n - 1) (omega arith) (go_on-IsAhead s ls hbp v i) in
        let (x, run, (ls', tight', kept', all', found)) =
          dropped_one (n - 1) (omega arith) s' (ls₁ s ls hbp v i) next may_split tight (omega arith)
            (bounded s ls hbp v i all) ahead' in
        (
          x,
          run,
          (
            ls',
            tight',
            λ b u. let (u', e) = kept b u in let (u'', e') = kept' b u' in (u'', e' ∙ e),
            all',
            found,
          ),
        )

  choice_run : ℕ → Bool → ℕ → Allocator × Choice → Outcome (Allocator × Option (ℕ × ℕ))
  choice_run fuel may_split hbp (s', choice) = elim choice [
    | pass ↦ search_list fuel m s' r index may_split (hdr_of s' hbp).hb_next
    | take last ↦ done (s', some (hbp, last))
    | drop ↦
        let prev = (hdr_of s' hbp).hb_prev in
        let s'' = drop_hblk_in_chunks m s' index hbp in
        search_list fuel m s'' r index may_split (
          if prev == 0
          then s''.collector.arena.heap.hblkfreelist index
          else (hdr_of s'' prev).hb_next)
  ]

  round :
      (fuel n k : ℕ) (s s' : Allocator) (ls : ℕ → List ℕ) (hbp : ℕ) (may_split : Bool) (c : Choice)
      → IsTight s.collector.arena ls
      → length (ls index) ≤ n
      → ((j : ℕ) → length (ls j) ≤ most)
      → has hbp (ls index) ≡ true
      → IsAhead s.collector.arena.heap.hdrs (hdr_of s hbp).hb_next (ls index) k
      → Searches fuel n k
      → ((n' : ℕ) → suc n' ≡ n → Searches fuel n' n')
      → IsGood s r hbp (s', c)
      → Returns (choice_run fuel may_split hbp (s', c)) (Finds s.collector)
  unfolding Searches IsGood choice_run Finds IsFound go_on s₁
  round fuel n k s s' ls hbp may_split pass v len all i ahead passed dropped_one e =
      subst
        (λ c. Returns (search_list fuel m s' r index may_split (hdr_of s' hbp).hb_next) (Finds c)) e
        (passed s' ls (hdr_of s' hbp).hb_next may_split (subst (λ c. IsTight c.arena ls) (sym e) v)
          len all
          (subst (λ c. IsAhead c.arena.heap.hdrs (c.arena.heap.hdrs hbp).hb_next (ls index) k)
            (sym e) ahead))
  round fuel n k s s' ls hbp may_split drop v len all i ahead passed dropped_one e =
      let v' = subst (λ c. IsTight c.arena ls) (sym e) v in
      let ahead' =
        subst (λ c. IsAhead c.arena.heap.hdrs (c.arena.heap.hdrs hbp).hb_next (ls index) k) (sym e)
          ahead in
      subst
        (λ c.
          Returns
            (search_list fuel m (drop_hblk_in_chunks m s' index hbp) r index may_split
              (go_on s' ls hbp v' i))
            (Finds c))
        e (go_on_dropped fuel n k s' ls hbp may_split v' len all i ahead' passed dropped_one)
  round fuel n k s s' ls hbp may_split (take last) v len all i ahead passed dropped_one (e, p) = (
    (s', some (hbp, last)),
    refl,
    subst (λ c. Finds c (s', some (hbp, last))) e
        (
          ls,
          subst (λ c. IsTight c.arena ls) (sym e) v,
          (λ b u. (u, refl)),
          all,
          (i, subst (λ c. IsPlace c r hbp last) (sym e) p),
        ),
  )

  search_list-Finds : (fuel n k : ℕ) → k ≤ n → k + n * n < fuel → Searches fuel n k
  unfolding search_list Searches Finds IsFound choice_run
  search_list-Finds zero n k le enough s ls hbp may_split v len all ahead = absurd (omega arith)
  search_list-Finds (suc fuel) n zero le enough s ls hbp may_split v len all ahead =
      let t : (hbp == 0) ≡ true =
        (==_iff hbp 0).1 (none_IsAhead s.collector.arena.heap.hdrs hbp (ls index) ahead) in
      rw t ((s, none), refl, (ls, v, (λ b u. (u, refl)), all, tt))
  search_list-Finds (suc fuel) n (suc k) le enough s ls hbp may_split v len all ahead =
      elim (Bool-cases (hbp == 0)) [
        | inl t ↦ rw t ((s, none), refl, (ls, v, (λ b u. (u, refl)), all, tt))
        | inr f ↦
            let (i, ahead') =
              step_IsAhead s.collector.arena.heap.hdrs hbp (ls index) k (ground arith) ahead in
            let ((s', c), run, good) = choose-IsGood s r hbp a may_split in
            rw (f, run)
              (round fuel n k s s' ls hbp may_split c v len all i ahead'
                (search_list-Finds fuel n k (omega arith) (omega arith))
                (λ n' e.
                  search_list-Finds fuel n' n' (omega arith) (fuel_enough fuel n n' k e enough))
                good)
      ]

  -- The search of list `index` from its head, for a request aligned to nothing or to whole blocks, in
  -- a heap in order (every free block on the list of its class, in the lower half of the address
  -- space, and next to no free one). There is memory for every header, no list is longer than `most`,
  -- and the fuel is more than `most` and its square together. The search ends, also where it drops
  -- black listed blocks. The heap is in order then, what was in use still is, and no list is longer
  -- than `most`. What is found is nothing, or a block of the list and a place in it: the request fits
  -- between the place and the end of the block, the place has the alignment, and its bytes (with
  -- `IGNORE_OFF_PAGE` those of the first page) are clear of the black lists, unless the kind is
  -- uncollectable, or has no pointers and the request takes at most two pages, or request and rest of
  -- the block are larger than `BL_LIMIT`.
  pub search_list-IsFound :
      (fuel : ℕ) (s : Allocator) (ls : ℕ → List ℕ) (may_split : Bool)
      → IsTight s.collector.arena ls
      → ((j : ℕ) → length (ls j) ≤ most)
      → most + most * most < fuel
      → Returns
          (search_list fuel m s r index may_split (s.collector.arena.heap.hblkfreelist index))
          (Finds s.collector)
  unfolding Searches
  search_list-IsFound fuel s ls may_split v all enough =
      let h = s.collector.arena.heap in
      let ahead =
        IsAhead-weaken h.hdrs (h.hblkfreelist index) (ls index) (length (ls index)) most (all index)
          (all_IsAhead h.hdrs 0 (h.hblkfreelist index) (ls index) (v.filed.holds.links index)) in
      search_list-Finds fuel most most (omega arith) enough s ls (h.hblkfreelist index) may_split v
        (all index) all ahead
