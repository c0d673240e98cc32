-- ===== src/HdrCache/Lookup.antt =====
-- What the lookup of a header finds.
use gcutil.Prelude.{
  ℕ, ◌+◌, ◌-◌, ◌*◌, ◌/◌, ◌%◌, ◌^◌, ◌<◌, ◌≡◌, ◌≢◌, ◌⊎◌, refl, sym, ap, ◌∙◌, subst, true, false, leb,
  ltb, ◌==◌, ==_iff, if_true, if_false, arith, Bool-cases, inl, inr, Option, none, some, write,
  write_self, write_ne, done, Returns, ◌>>=◌,
}
use gcutil.FreeBlocks.{hblk_size}
use gcutil.FreeBlocks.Moves.{true≢false}
use gcutil.Headers.{Slot, nil, forward, header, find_starting_hblk}
use gcutil.Headers.Start.{IsLarge, find_starting_hblk_lem}
use gcutil.Headers.Walk.{is_header}
use gcutil.Headers.Laid.{IsLaid, end_of, IsLaid-inside}
use gcutil.Freeing.{hdr_at}
use gcutil.Freeing.Loose.{IsUsed}
use gcutil.HdrCache.{
  Entry, Collector, hdr_cache_size, to_black_list, interior_header, signed_geb, miss_at,
  header_cache_miss, hc_get_hdr,
}

-- Each entry that a pointer can hit is of the first page of a block in use, and has its header.
abbrev pub IsCoherent : Collector → Type 0
IsCoherent s =
    (i : ℕ)
    → let e = s.hdr_cache i in
      e.block_addr ≢ 0 → (e.hce_hdr ≡ some e.block_addr) × IsUsed s.arena e.block_addr

-- The pointer `p` is one to the block `q` in use: into its first page or, if interior pointers are
-- respected, into its bytes behind that.
abbrev pub IsPointerTo : Collector → ℕ → ℕ → Type 0
IsPointerTo s p q =
    IsUsed s.arena q
    × ((p / hblk_size ≡ q)
        ⊎ ((s.black_lists.all_interior_pointers ≡ true)
            × (s.ignore_off_page q ≡ false)
            × (q < p / hblk_size)
            × (p < q * hblk_size + (hdr_at s.arena q).hb_sz)))

abbrev pub IsFound : Collector → ℕ → Option ℕ → Type 0
IsFound s p none = (q : ℕ) → IsPointerTo s p q → ⊥
IsFound s p (some q) = IsPointerTo s p q

-- The sizes of blocks in use are positive as `signed_word`.
abbrev pub IsSigned : Collector → Type 0
IsSigned s = (q : ℕ) → IsUsed s.arena q → (hdr_at s.arena q).hb_sz < 2 ^ 63

-- On sizes and distances in such a block the signed comparison is that of the numbers.
signed_geb_lem : (a b : ℕ) → a < 2 ^ 63 → b < 2 ^ 63 → signed_geb a b ≡ leb b a
unfolding signed_geb
signed_geb_lem a b l m = ground arith

-- The lookup finds the block that `p` points to, if there is one, and leaves the heap alone.
abbrev pub Looks : Collector → ℕ → Collector × Option ℕ → Type 0
Looks s p (s', r) =
    IsFound s p r
    × IsCoherent s'
    × (s'.arena ≡ s.arena)
    × ((q : ℕ) → r ≡ some q → s'.black_lists ≡ s.black_lists)

to_black_list-same :
    (s : Collector) (p : ℕ)
    → ((to_black_list s p).arena ≡ s.arena) × ((to_black_list s p).hdr_cache ≡ s.hdr_cache)
unfolding to_black_list
to_black_list-same s p = (refl, refl)

module _ (s : Collector) (p : ℕ) (coherent : IsCoherent s) where
  pub to_black_list-IsCoherent : IsCoherent (to_black_list s p)
  to_black_list-IsCoherent = let (a, c) = to_black_list-same s p in λ i. rw (a, c) (coherent i)

  -- The pointer is entered, and nothing is found.
  listed : ((q : ℕ) → IsPointerTo s p q → ⊥) → Looks s p (to_black_list s p, none)
  listed n = (n, to_black_list-IsCoherent, (to_black_list-same s p).0, λ q e. absurd (cc))

  passed_over : ((q : ℕ) → IsPointerTo s p q → ⊥) → Looks s p (s, none)
  passed_over n = (n, coherent, refl, λ q e. refl)

  module _ (e : s.arena.table.slots (p / hblk_size) ≡ header)
      (used : (hdr_at s.arena (p / hblk_size)).hb_free ≡ false) where
    abbrev hce : Entry
    hce = record { block_addr = p / hblk_size; hce_hdr = some (p / hblk_size) }

    abbrev cached : Collector
    cached = record s { hdr_cache = write s.hdr_cache (p / hblk_size % hdr_cache_size) hce }

    pub cached-IsCoherent : IsCoherent cached
    cached-IsCoherent i ne = elim (Bool-cases (i == p / hblk_size % hdr_cache_size)) [
      | inl same ↦
          let j = (==_iff i (p / hblk_size % hdr_cache_size)).0 same in
          let h : cached.hdr_cache i ≡ hce =
            ap (λ x. cached.hdr_cache x) j
            ∙ write_self s.hdr_cache (p / hblk_size % hdr_cache_size) hce in
          rw h (refl, (e, used))
      | inr other ↦
          let h : cached.hdr_cache i ≡ s.hdr_cache i =
            write_ne s.hdr_cache (p / hblk_size % hdr_cache_size) hce i (ground arith) in
          rw h (coherent i (subst (λ x. x.block_addr ≢ 0) h ne))
    ]

  module _ (v : IsLaid s.arena.table s.arena.heap.hdrs) (signed : IsSigned s) where
    page :
        (q : ℕ)
        → p < q * hblk_size + (hdr_at s.arena q).hb_sz
        → p / hblk_size < end_of s.arena.heap.hdrs q
    page q l = omega arith

    at_nil : s.arena.table.slots (p / hblk_size) ≡ nil → (q : ℕ) → IsPointerTo s p q → ⊥
    at_nil e q ((h, u), inl first) = let c = sym e ∙ ap (λ x. s.arena.table.slots x) first ∙ h in cc
    at_nil e q ((h, u), inr (i, g, l, m)) =
        let c = sym e ∙ v.counted q (p / hblk_size) h u l (page q m) in cc

    -- Only a pointer into the first page of a block is one to its first page.
    not_first :
        (n q : ℕ)
        → s.arena.table.slots (p / hblk_size) ≡ forward n
        → s.arena.table.slots q ≡ header
        → p / hblk_size ≢ q
    not_first n q e h first = let c = sym e ∙ ap (λ x. s.arena.table.slots x) first ∙ h in cc

    at_header :
        s.arena.table.slots (p / hblk_size) ≡ header
        → (hdr_at s.arena (p / hblk_size)).hb_free ≡ true
        → (q : ℕ) → IsPointerTo s p q
        → ⊥
    at_header e f q ((h, u), inl first) =
        true≢false (sym f ∙ ap (λ x. (hdr_at s.arena x).hb_free) first ∙ u)
    at_header e f q ((h, u), inr (i, g, l, m)) =
        let n = IsLaid-inside s.arena.table s.arena.heap.hdrs v q (p / hblk_size) h l (page q m) in
        let y = ap (λ x. is_header x) e in true≢false (sym y ∙ n)

    -- The two blocks that a page behind the first belongs to are one.
    only_owner :
        (q r : ℕ)
        → s.arena.table.slots q ≡ header
        → s.arena.table.slots r ≡ header
        → q < p / hblk_size
        → p / hblk_size < end_of s.arena.heap.hdrs q
        → r < p / hblk_size
        → p / hblk_size < end_of s.arena.heap.hdrs r
        → q ≡ r
    only_owner q r h k l m l' m' = elim (Bool-cases (ltb q r)) [
      | inl low ↦ absurd (omega (arith, v.apart q r h k (ground arith)))
      | inr high ↦ elim (Bool-cases (ltb r q)) [
        | inl low ↦ absurd (omega (arith, v.apart r q k h (ground arith)))
        | inr same ↦ ground arith
      ]
    ]

    module _ (n : ℕ) (e : s.arena.table.slots (p / hblk_size) ≡ forward n) where
      starts :
          (q : ℕ) × IsUsed s.arena q
          × (q < p / hblk_size)
          × (p / hblk_size < end_of s.arena.heap.hdrs q)
          × (find_starting_hblk s.arena.table (p / hblk_size) ≡ done q)
      starts =
          let (q, h, u, l, m) = v.owned (p / hblk_size) n e in
          let large : IsLarge s.arena.table.slots q (hdr_at s.arena q).hb_sz =
            (h, λ x b. v.counted q x h u (ground arith) (ground arith)) in
          (
            q,
            (h, u),
            l,
            m,
            find_starting_hblk_lem s.arena.table q (hdr_at s.arena q).hb_sz (p / hblk_size) large
                (omega arith) m,
          )

      -- A block that the pointer is to is the one that owns its page.
      only :
          (q : ℕ)
          → s.arena.table.slots q ≡ header
          → q < p / hblk_size
          → p / hblk_size < end_of s.arena.heap.hdrs q
          → (r : ℕ) → IsPointerTo s p r
          → (r ≡ q → s.ignore_off_page r ≡ false → p < r * hblk_size + (hdr_at s.arena r).hb_sz → ⊥)
          → ⊥
      only q h l m r ((h', u'), inl first) f = not_first n r e h' first
      only q h l m r ((h', u'), inr (i, g, l', m')) f =
          f (only_owner r q h' h l' (page r m') l m) g m'

      no_interior : s.black_lists.all_interior_pointers ≡ false → (r : ℕ) → IsPointerTo s p r → ⊥
      no_interior o r ((h', u'), inl first) = not_first n r e h' first
      no_interior o r ((h', u'), inr (i, g, l, m)) = true≢false (sym i ∙ o)

      interior_header-Looks :
          (q : ℕ)
          → s.black_lists.all_interior_pointers ≡ true
          → IsUsed s.arena q
          → q < p / hblk_size
          → p / hblk_size < end_of s.arena.heap.hdrs q
          → Looks s p (interior_header s p q)
      unfolding interior_header
      interior_header-Looks q interior (h, u) l m = elim (Bool-cases (s.ignore_off_page q)) [
        | inl ignored ↦ rw ignored (
            passed_over (λ r t. only q h l m r t (λ same x y.
              true≢false (sym ignored ∙ ap (λ z. s.ignore_off_page z) (sym same) ∙ x))))
        | inr respected ↦
            let small = signed q (h, u) in
            let near : p - q * hblk_size < 2 ^ 63 = omega arith in
            let test = signed_geb_lem (p - q * hblk_size) (hdr_at s.arena q).hb_sz near small in
            elim (Bool-cases (leb (hdr_at s.arena q).hb_sz (p - q * hblk_size))) [
              | inl past ↦
                  rw (respected, u, test, past)
                    (listed (λ r t. only q h l m r t (λ same x y.
                      let z = subst (λ w. p < w * hblk_size + (hdr_at s.arena w).hb_sz) same y in
                      ground arith)))
              | inr inside ↦
                  rw (respected, u, test, inside)
                    (
                      ((h, u), inr (interior, respected, l, ground arith)),
                      coherent,
                      refl,
                      λ r k. refl,
                    )
            ]
      ]

      forward-Looks : Returns (miss_at (forward n) s p) (Looks s p)
      unfolding miss_at
      forward-Looks = elim (Bool-cases s.black_lists.all_interior_pointers) [
        | inr first_only ↦
            ((s, none), if_false _ _ first_only, passed_over (λ r t. no_interior first_only r t))
        | inl interior ↦
            let (q, used, l, m, found) = starts in
            (
              interior_header s p q,
              if_true _ _ interior
                  ∙ ap (λ o. o >>= λ current. done (interior_header s p current)) found,
              interior_header-Looks q interior used l m,
            )
      ]

    at_slot :
        (t : Slot) → s.arena.table.slots (p / hblk_size) ≡ t → Returns (miss_at t s p) (Looks s p)
    unfolding miss_at
    at_slot nil e = ((to_black_list s p, none), refl, listed (at_nil e))
    at_slot (forward n) e = forward-Looks n e
    at_slot header e = elim (Bool-cases (hdr_at s.arena (p / hblk_size)).hb_free) [
      | inl free ↦ ((to_black_list s p, none), if_true _ _ free, listed (at_header e free))
      | inr used ↦ (
        (cached e used, some (p / hblk_size)),
        if_false _ _ used,
        (((e, used), inl refl), cached-IsCoherent e used, refl, λ r k. refl),
      )
    ]

    hit :
        (s.hdr_cache (p / hblk_size % hdr_cache_size)).block_addr ≡ p / hblk_size
        → p / hblk_size ≢ 0
        → Looks s p (s, (s.hdr_cache (p / hblk_size % hdr_cache_size)).hce_hdr)
    hit e ne =
        let (h, used) = coherent (p / hblk_size % hdr_cache_size) (λ z. ne (sym e ∙ z)) in
        let found : IsFound s p (some (p / hblk_size)) =
          (subst (λ b. IsUsed s.arena b) e used, inl refl) in
        (
          subst (λ r. IsFound s p r) (sym (h ∙ ap (λ b. some b) e)) found,
          coherent,
          refl,
          λ q k. refl,
        )

    -- `p` is not in the first page of the address space. If each cache entry is that of a block in
    -- use and the heap is laid out well, with sizes of blocks in use below `2 ^ 63`, the lookup with the cache returns, and what it returns is
    -- the block in use that `p` points to, or nothing if there is none. The heap is as it was, the
    -- cache entries are again those of blocks in use, and `p` is not black listed if it is found.
    pub hc_get_hdr-Looks : p / hblk_size ≢ 0 → Returns (hc_get_hdr s p) (Looks s p)
    unfolding hc_get_hdr header_cache_miss
    hc_get_hdr-Looks ne =
        let e = s.hdr_cache (p / hblk_size % hdr_cache_size) in
        elim (Bool-cases (e.block_addr == p / hblk_size)) [
          | inl same ↦ ((s, e.hce_hdr), if_true _ _ same, hit (ground arith) ne)
          | inr other ↦
              let (r, returns, looks) = at_slot (s.arena.table.slots (p / hblk_size)) refl in
              (r, if_false _ _ other ∙ returns, looks)
        ]
