-- ===== src/Allocate/Choose.antt =====
-- One round of the search of `GC_allochblk_nth`.
use Prim.Native.Nat.{◌∣◌}
use gcutil.Prelude.{
  ℕ, ◌+◌, ◌-◌, ◌*◌, ◌/◌, ◌%◌, ◌^◌, ◌≤◌, ◌≡◌, refl, sym, ap, subst, Bool, true, false, not, ◌||◌,
  ◌&&◌, leb, ltb, ◌==◌, arith, Bool-cases, inl, inr, Option, some, none, Returns,
}
use gcutil.FreeBlocks.{hblk_size}
use gcutil.Freeing.{hdr_at}
use gcutil.Allocate.{
  max_black_list_alloc, Allocator, Request, Choice, pass, drop, take, size_needed, align_pad_sz,
  next_hblk_fits_better, punt, choose_listed, choose_place, choose, hdr_of,
}
use gcutil.Allocate.At.{IsPlace, IsSafe, exempt, unlisted, large, eff_size_needed}
use gcutil.Allocate.Find.{
  is_black_listed-Returns, find_non_bl_hblk-IsFirstPlace, IsFirstPlace, place,
}
use gcutil.Allocate.Place.{IsAlignment, padded, padded-up, up_dvd}

-- A choice that fits the block: only counters have changed, and a place that is taken will do.
unfoldable pub IsGood : Allocator → Request → ℕ → Allocator × Choice → Type 0
IsGood s r hbp (s', pass) = s'.collector ≡ s.collector
IsGood s r hbp (s', drop) = s'.collector ≡ s.collector
IsGood s r hbp (s', take last) = (s'.collector ≡ s.collector) × IsPlace s.collector r hbp last

module _ (s : Allocator) (r : Request) (hbp : ℕ) (a : IsAlignment r.align_m1) where
  abbrev avail : ℕ
  avail = (hdr_at s.collector.arena hbp).hb_sz

  better-Returns :
      (size_avail : ℕ) → Returns (next_hblk_fits_better s r hbp size_avail) (λ b. Unit {0})
  unfolding next_hblk_fits_better
  better-Returns size_avail =
      let next_hbp = (hdr_of s hbp).hb_next in
      let next_size = (hdr_of s next_hbp).hb_sz in
      let next_ofs = align_pad_sz next_hbp r.align_m1 in
      let (o, run, any) =
        is_black_listed-Returns s.collector.black_lists (size_needed r)
          (next_hbp + next_ofs / hblk_size) in
      elim (Bool-cases (next_hbp == 0)) [
        | inl t ↦ rw t (false, refl, tt)
        | inr f ↦ elim (Bool-cases (leb size_avail next_size)) [
          | inl t ↦ rw (f, t) (false, refl, tt)
          | inr f' ↦ elim (Bool-cases (ltb next_size (size_needed r + next_ofs))) [
            | inl t ↦ rw (f, f', t) (false, refl, tt)
            | inr f'' ↦ rw (f, f', f'', run) (elim o [ none ↦ true | some h ↦ false ], refl, tt)
          ]
        ]
      ]

  module _ (fits : size_needed r + align_pad_sz hbp r.align_m1 ≤ avail) where
    first-IsPlace :
        IsSafe s.collector r avail (hbp + align_pad_sz hbp r.align_m1 / hblk_size)
        → IsPlace s.collector r hbp (hbp + align_pad_sz hbp r.align_m1 / hblk_size)
    unfolding padded
    first-IsPlace safe = record {
      above = omega arith;
      room = omega arith;
      aligned =
          subst (λ k. r.align_m1 + 1 ∣ k) (sym (padded-up hbp r.align_m1 a))
            (up_dvd (hbp * hblk_size) (r.align_m1 + 1) (omega arith));
      safe = safe;
    }

    punt-IsGood :
        (s₀ : Allocator) → s₀.collector ≡ s.collector → IsGood s r hbp (punt s₀ r hbp avail)
    unfolding punt IsGood
    punt-IsGood s₀ e =
        let bl_limit = s₀.collector.black_lists.black_list_spacing in
        let same : bl_limit ≡ s.collector.black_lists.black_list_spacing =
          ap (λ c. c.black_lists.black_list_spacing) e in
        elim (Bool-cases (ltb bl_limit (size_needed r) && ltb bl_limit (avail - size_needed r))) [
          | inl t ↦ rw t (e, first-IsPlace (large (ground arith) (ground arith)))
          | inr f ↦ rw f e
        ]

    choose_listed-IsGood : IsGood s r hbp (choose_listed s r hbp avail)
    unfolding choose_listed IsGood
    choose_listed-IsGood =
        let count = (s.drop_blacklisted_count + 1) % 2 ^ 32 in
        let s' : Allocator = record s { drop_blacklisted_count = count } in
        elim (Bool-cases (size_needed r == hblk_size && r.align_m1 == 0 && not s.find_leak)) [
          | inr f ↦ rw f (punt-IsGood s refl)
          | inl t ↦ elim (Bool-cases (count % 4 == 0)) [
            | inl t' ↦ rw (t, t') refl
            | inr f' ↦ rw (t, f') (punt-IsGood s' refl)
          ]
        ]

    found-IsGood :
        (o : Option ℕ)
        → IsFirstPlace s.collector.black_lists
            (eff_size_needed r)
            r.align_m1
            hbp
            (hbp * hblk_size + (avail - size_needed r))
            o
        → IsGood s r hbp
            (elim o [ some last ↦ (s, take last) | none ↦ choose_listed s r hbp avail ])
    unfolding IsGood
    found-IsGood none found = choose_listed-IsGood
    found-IsGood (some _) (place p low within div ok none_before) =
        (refl, record { above = low; room = omega arith; aligned = div; safe = unlisted ok })

    choose_place-IsGood : Returns (choose_place s r hbp avail) (IsGood s r hbp)
    unfolding choose_place IsGood
    choose_place-IsGood =
        elim (Bool-cases
          (r.is_uncollectable || r.is_ptrfree && leb (size_needed r) max_black_list_alloc)) [
            | inl t ↦ rw t (
              (s, take (hbp + align_pad_sz hbp r.align_m1 / hblk_size)),
              refl,
              (refl, first-IsPlace (exempt t)),
            )
            | inr f ↦
                let (o, run, found) =
                  find_non_bl_hblk-IsFirstPlace s.collector.black_lists hbp (avail - size_needed r)
                    (eff_size_needed r) r.align_m1 a (omega arith) in
                rw (f, run)
                  (
                    elim o [ some last ↦ (s, take last) | none ↦ choose_listed s r hbp avail ],
                    refl,
                    found-IsGood o found,
                  )
          ]

  pub choose-IsGood : (may_split : Bool) → Returns (choose s r may_split hbp) (IsGood s r hbp)
  unfolding choose IsGood
  choose-IsGood may_split =
      let pad = align_pad_sz hbp r.align_m1 in
      elim (Bool-cases (not may_split && not (avail == size_needed r))) [
        | inl t ↦ rw t ((s, pass), refl, refl)
        | inr f ↦ elim (Bool-cases (ltb avail (size_needed r + pad))) [
          | inl t ↦ rw (f, t) ((s, pass), refl, refl)
          | inr f' ↦
              let (c, run, good) = choose_place-IsGood (ground arith) in
              elim (Bool-cases (avail == size_needed r)) [
                | inl t ↦ rw (f, f', t) (c, run, good)
                | inr f'' ↦
                    let (b, run', any) = better-Returns avail in
                    elim (Bool-cases b) [
                      | inl t ↦ rw (f, f', f'', run', t) ((s, pass), refl, refl)
                      | inr n ↦ rw (f, f', f'', run', n) (c, run, good)
                    ]
              ]
        ]
      ]
