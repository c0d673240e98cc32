-- ===== src/Allocate/Find.antt =====
-- What `find_non_bl_hblk` finds.
use Prim.Native.Nat.{◌∣◌}
use gcutil.Prelude.{
  ℕ, zero, suc, ◌+◌, ◌-◌, ◌*◌, ◌/◌, ◌≤◌, ◌<◌, ◌≡◌, ◌≢◌, inl, inr, refl, sym, subst, arith,
  Bool-cases, Bool, not, ◌&&◌, ◌||◌, leb, ltb, ◌∙◌, ap, Option, none, some, Option-cases, Returns,
  done, done_injective, max,
}
use gcutil.Blacklist.{BlackLists, pht_hash_block, is_black_listed}
use gcutil.Blacklist.Lookup.{IsListed, IsAnswer, clear, listed, is_black_listed-IsAnswer}
use gcutil.Allocate.{align_pad_sz, find_loop, find_non_bl_hblk}
use gcutil.Allocate.Place.{
  padded, padded-up, up_least, up_dvd, up_bounds, IsAlignment, down, down_dvd, down_bounds,
  down_greatest,
}
use gcutil.FreeBlocks.{hblk_size}

module _ (bl : BlackLists) (n : ℕ) where
  abbrev is_normal : ℕ → Bool
  is_normal h =
      not bl.all_interior_pointers
      && (bl.old_normal_bl (pht_hash_block h) || bl.incomplete_normal_bl (pht_hash_block h))

  -- The region at `h` is not black listed.
  abbrev pub IsClear : ℕ → Type 0
  IsClear h = is_black_listed bl h n ≡ done none

  pub is_black_listed-Returns : (h : ℕ) → Returns (is_black_listed bl h n) (λ r. Unit {0})
  is_black_listed-Returns h = elim (Bool-cases (is_normal h)) [
    | inl normal ↦ (some (h + 1), (is_black_listed-IsAnswer bl h n).0 normal, tt)
    | inr other ↦ let (r, run, a) = (is_black_listed-IsAnswer bl h n).1 other in (r, run, tt)
  ]

  not_clear : (q r : ℕ) → is_black_listed bl q n ≡ done (some r) → IsClear q → ⊥
  not_clear q r e c = let same : none ≡ some r = done_injective (sym c ∙ e) in absurd (cc)

  unlisted :
      (h q i : ℕ) (r : Option ℕ)
      → i < max (n / hblk_size) 1
      → IsListed bl (h + i)
      → h ≤ q
      → q < h + i + 1
      → IsAnswer bl q (max (n / hblk_size) 1) r
      → r ≢ none
  unlisted h q i none l hit le lt (clear none_listed) e =
      none_listed (h + i - q) (omega arith) (subst (IsListed bl) (omega arith) hit)
  unlisted h q i (some r) l hit le lt a e = absurd (cc)

  listed_not_clear :
      (h q i : ℕ)
      → i < max (n / hblk_size) 1
      → IsListed bl (h + i)
      → h ≤ q
      → q < h + i + 1
      → IsClear q
      → ⊥
  listed_not_clear h q i l hit le lt c = elim (Bool-cases (is_normal q)) [
    | inl normal ↦ not_clear q (q + 1) ((is_black_listed-IsAnswer bl q n).0 normal) c
    | inr other ↦
        let (r, run, a) = (is_black_listed-IsAnswer bl q n).1 other in
        unlisted h q i r l hit le lt a (done_injective (sym run ∙ c))
  ]

  behind :
      (h r : ℕ)
      → IsAnswer bl h (max (n / hblk_size) 1) (some r)
      → (h < r) × ((q : ℕ) → h ≤ q → q < r → IsClear q → ⊥)
  behind h r (listed i l hit before e) =
      (omega arith, λ q le lt c. listed_not_clear h q i l hit le (omega arith) c)

  -- The answer is behind the block, and no region that begins before it is clear.
  skips :
      (h r : ℕ)
      → is_black_listed bl h n ≡ done (some r)
      → (h < r) × ((q : ℕ) → h ≤ q → q < r → IsClear q → ⊥)
  skips h r e = elim (Bool-cases (is_normal h)) [
    | inl normal ↦
        let same : some r ≡ some (h + 1) =
          done_injective (sym e ∙ (is_black_listed-IsAnswer bl h n).0 normal) in
        (ground arith, λ q le lt c. not_clear h r e (subst IsClear (ground arith) c))
    | inr other ↦
        let (found, run, a) = (is_black_listed-IsAnswer bl h n).1 other in
        behind h r (subst (IsAnswer bl h (max (n / hblk_size) 1)) (done_injective (sym run ∙ e)) a)
  ]

-- The answer for the places from `from` to the address `search_end`: the first that is aligned and clear.
pub data IsFirstPlace (bl : BlackLists) (n align_m1 from search_end : ℕ) : Option ℕ → Type 0 where
  nowhere :
      ((q : ℕ)
        → from ≤ q
        → q * hblk_size ≤ search_end
        → align_m1 + 1 ∣ q * hblk_size
        → IsClear bl n q
        → ⊥)
      → IsFirstPlace bl n align_m1 from search_end none
  place :
      (p : ℕ)
      → from ≤ p
      → p * hblk_size ≤ search_end
      → align_m1 + 1 ∣ p * hblk_size
      → IsClear bl n p
      → ((q : ℕ) → from ≤ q → q < p → align_m1 + 1 ∣ q * hblk_size → IsClear bl n q → ⊥)
      → IsFirstPlace bl n align_m1 from search_end (some p)

module _ (bl : BlackLists) (n align_m1 search_end : ℕ) (a : IsAlignment align_m1)
    (d : align_m1 + 1 ∣ search_end) where
  padded_bounds :
      (h : ℕ)
      → (h ≤ padded h align_m1)
        × (align_m1 + 1 ∣ padded h align_m1 * hblk_size)
        × ((q : ℕ) → h ≤ q → align_m1 + 1 ∣ q * hblk_size → padded h align_m1 ≤ q)
        × (h * hblk_size ≤ search_end → padded h align_m1 * hblk_size ≤ search_end)
  padded_bounds h =
      let e = padded-up h align_m1 a in
      let pos : 0 < align_m1 + 1 = omega arith in
      (
        omega (arith, up_bounds (h * hblk_size) (align_m1 + 1) pos),
        rw e (up_dvd (h * hblk_size) (align_m1 + 1) pos),
        λ q le div. omega (arith, up_least (h * hblk_size) (align_m1 + 1) (q * hblk_size) pos div),
        λ le. rw e (up_least (h * hblk_size) (align_m1 + 1) search_end pos d le),
      )

  -- If no place before `next` will do, the answer from `next` on is the answer.
  go_on :
      (last next : ℕ) (r : Option ℕ)
      → last ≤ next
      → ((q : ℕ) → last ≤ q → q < next → align_m1 + 1 ∣ q * hblk_size → IsClear bl n q → ⊥)
      → IsFirstPlace bl n align_m1 next search_end r
      → IsFirstPlace bl n align_m1 last search_end r
  go_on last next none le before (nowhere rest) = nowhere (λ q ge l q_div c.
      elim (Bool-cases (ltb q next)) [
        | inl less ↦ before q ge (ground arith) q_div c
        | inr more ↦ rest q (ground arith) l q_div c
      ])
  go_on last next (some _) le before (place p low within div ok rest) =
      place p (omega arith) within div ok (λ q ge l q_div c. elim (Bool-cases (ltb q next)) [
        | inl less ↦ before q ge (ground arith) q_div c
        | inr more ↦ rest q (ground arith) l q_div c
      ])

  find_loop-IsFirstPlace :
      (fuel last : ℕ)
      → last * hblk_size ≤ search_end
      → search_end < (last + fuel) * hblk_size
      → Returns
          (find_loop fuel bl last search_end n align_m1)
          (IsFirstPlace bl n align_m1 last search_end)
  unfolding find_loop padded
  find_loop-IsFirstPlace zero last le enough = absurd (omega arith)
  find_loop-IsFirstPlace (suc fuel) last le enough =
      let p = padded last align_m1 in
      let (low, div, least, within) = padded_bounds last in
      let (r, run, any) = is_black_listed-Returns bl n p in
      elim (Option-cases r) [
        | inl none_listed ↦ (
          some p,
          rw run (rw none_listed refl),
          place p low (within le) div (run ∙ ap done none_listed)
              (λ q ge lt q_div c. absurd (omega (arith, least q ge q_div))),
        )
        | inr (next, e) ↦
            let (further, none_clear) = skips bl n p next (run ∙ ap done e) in
            let before : (q : ℕ)
                → last ≤ q
                → q < next
                → align_m1 + 1 ∣ q * hblk_size
                → IsClear bl n q
                → ⊥ =
              λ q ge lt q_div c. none_clear q (least q ge q_div) lt c in
            elim (Bool-cases (leb (next * hblk_size) search_end)) [
              | inl inside ↦
                  let (r', run', found) =
                    find_loop-IsFirstPlace fuel next (ground arith) (omega arith) in
                  (
                    r',
                    rw run (rw e (rw inside run')),
                    go_on last next r' (omega arith) before found,
                  )
              | inr outside ↦ (
                none,
                rw run (rw e (rw outside refl)),
                nowhere (λ q ge l q_div c. before q ge (ground arith) q_div c),
              )
            ]
      ]

-- Places up to an address are places up to the multiple below it.
rounded :
    (bl : BlackLists) (n align_m1 from limit : ℕ) (r : Option ℕ)
    → IsFirstPlace bl n align_m1 from (down limit (align_m1 + 1)) r
    → IsFirstPlace bl n align_m1 from limit r
rounded bl n align_m1 from limit none (nowhere rest) = nowhere (λ q ge l div c.
    rest q ge (down_greatest limit (align_m1 + 1) (q * hblk_size) (omega arith) div l) div c)
rounded bl n align_m1 from limit (some _) (place p low within div ok rest) =
    place p low (omega (arith, down_bounds limit (align_m1 + 1))) div ok rest

-- `find_non_bl_hblk`, where the alignment is none or whole blocks, and the first aligned place from
-- `hbp` up is at most `size_remain` bytes up. It returns the first place, at most `size_remain` bytes
-- up, that is aligned and whose `n` bytes are not black listed, and `NULL` only if there is none: the
-- jumps behind listed blocks miss no place, and the loop ends.
pub find_non_bl_hblk-IsFirstPlace :
    (bl : BlackLists) (hbp size_remain n align_m1 : ℕ)
    → IsAlignment align_m1
    → align_pad_sz hbp align_m1 ≤ size_remain
    → Returns
        (find_non_bl_hblk bl hbp size_remain n align_m1)
        (IsFirstPlace bl n align_m1 hbp (hbp * hblk_size + size_remain))
unfolding find_non_bl_hblk down padded
find_non_bl_hblk-IsFirstPlace bl hbp size_remain n align_m1 a room =
    let limit : ℕ = hbp * hblk_size + size_remain in
    let d = down_dvd limit (align_m1 + 1) in
    let pos : 0 < align_m1 + 1 = omega arith in
    let (low, div, least, within) =
      padded_bounds bl n align_m1 (down limit (align_m1 + 1)) a d hbp in
    let e = padded-up hbp align_m1 a in
    let reach : padded hbp align_m1 * hblk_size ≤ limit = omega arith in
    let start =
      down_greatest limit (align_m1 + 1) (padded hbp align_m1 * hblk_size) pos div reach in
    let (r, run, found) =
      find_loop-IsFirstPlace bl n align_m1 (down limit (align_m1 + 1)) a d
        (size_remain / hblk_size + 2) hbp (omega arith)
        (omega (arith, down_bounds limit (align_m1 + 1))) in
    (r, run, rounded bl n align_m1 hbp limit r found)
