-- ===== src/SizeMap/Extend.antt =====
-- Choosing the size classes of larger requests.
use native.Mathlib.Numerals.{add-one}
use gcutil.Prelude.{
  ℕ, zero, suc, ◌+◌, ◌-◌, ◌/◌, ◌*◌, ◌≤◌, ◌<◌, ◌≡◌, ◌≢◌, inl, inr, refl, leb, ltb, ◌&&◌, holds_below,
  min, holds_below_lem, ◌==◌, ==_iff, if◌then◌else◌, write, Bool, true, false, Bool-cases, arith,
  Returns, ◌∙◌, subst, sym,
}
use gcutil.SizeMap.{
  alloc_request_grans, skip_filled, fill_loop, round_granules, fill_from, larger_granules,
  extend_size_map,
}

-- Every chosen class is large enough for its requests, `extra` included, and is a small object;
-- and a run of filled elements that ends at `n` has at least the length `n / 4`.
pub record IsSizeMap (extra : ℕ) (m : ℕ → ℕ) : Type 0 where
  pub fits : (j : ℕ) → m j ≢ 0 → j + extra ≤ 16 * m j
  pub small : (j : ℕ) → m j ≤ 128
  pub runs : (n k : ℕ) → m n ≢ 0 → m (n + 1) ≡ 0 → 3 * n < 4 * k → k ≤ n → m k ≢ 0

fill_loop-get :
    (rounds low lg : ℕ) (m : ℕ → ℕ) (j : ℕ)
    → fill_loop rounds low lg m j ≡ (if leb low j && ltb j (low + rounds) then lg else m j)
unfolding fill_loop write
fill_loop-get zero low lg m j = ground arith
fill_loop-get (suc rounds) low lg m j =
    fill_loop-get rounds (low + 1) lg (write m low lg) j ∙ ground arith

skip_filled-finds :
    (fuel : ℕ) (m : ℕ → ℕ) (low i : ℕ)
    → m i ≡ 0
    → low ≤ i
    → i < low + fuel
    → Returns
        (skip_filled fuel m low)
        (λ r. (low ≤ r) × (r ≤ i) × (m r ≡ 0) × ((j : ℕ) → low ≤ j → j < r → m j ≢ 0))
unfolding skip_filled
skip_filled-finds zero m low i z l f = absurd (omega arith)
skip_filled-finds (suc fuel) m low i z l f = elim (Bool-cases (m low == 0)) [
  | inl empty ↦ (low, rw empty, (omega arith, l, ground arith, λ j p q. absurd (omega arith)))
  | inr full ↦
      let below : low < i = ground arith in
      let (r, run, (p, q, e, before)) =
        skip_filled-finds fuel m (low + 1) i z (omega arith) (omega arith) in
      (
        r,
        rw full run,
        (
          omega arith,
          q,
          e,
          λ j a b. elim (Bool-cases (j == low)) [
            | inl same ↦ ground arith
            | inr other ↦ before j (ground arith) b
          ],
        ),
      )
]

in_range : ℕ → Bool
in_range n = leb (min (n + 1) 128) (round_granules (n + 1)) && leb (round_granules (n + 1)) 128

round_granules_table : holds_below in_range 150 ≡ true
unfolding holds_below round_granules in_range
round_granules_table = refl

-- The size chosen is never below the one asked for, unless that is too large, and is small.
round_granules_bounds :
    (lg : ℕ) → 0 < lg → lg ≤ 150 → (min lg 128 ≤ round_granules lg) × (round_granules lg ≤ 128)
unfolding in_range
round_granules_bounds zero p q = absurd (omega arith)
round_granules_bounds (suc n) p q =
    let row = holds_below_lem in_range 150 n round_granules_table q in
    rw (← add-one) (ground arith, ground arith)

pub alloc_request_grans_lem :
    (extra lb : ℕ) → extra ≤ 1 → lb ≤ 4096 → alloc_request_grans extra lb ≡ (lb + 15 + extra) / 16
unfolding alloc_request_grans
alloc_request_grans_lem extra lb e l = ground arith

module _ (extra : ℕ) (m : ℕ → ℕ) (v : IsSizeMap extra m) (e : extra ≤ 1) where
  -- What a call for `i` returns: a larger size map in which `i` is filled, written nowhere
  -- behind the last small request.
  pub record Extends (i : ℕ) (m' : ℕ → ℕ) : Type 0 where
    pub valid : IsSizeMap extra m'
    pub filled : m' i ≢ 0
    pub kept : (j : ℕ) → m j ≢ 0 → m' j ≢ 0
    pub inside : (j : ℕ) → 2048 < j + extra → m' j ≡ m j

  fill_from-Extends :
      (i low lg : ℕ)
      → i + extra ≤ 2048
      → low ≤ i
      → m low ≡ 0
      → 0 < lg
      → lg ≤ 150
      → i + extra ≤ 16 * lg
      → ((n k : ℕ) → 16 * min lg 128 ≤ n + extra → 3 * n < 4 * k → k < low → m k ≢ 0)
      → Extends i (fill_from extra m low lg)
  fill_from-Extends i low lg bound l z p q f below = record {
    valid = record {
      fits = λ j ne. ground (arith, get j, v.fits j, bounds, reach);
      small = λ j. ground (arith, get j, v.small j, bounds, reach);
      runs = λ n₀ k full empty lt le.
          ground (arith, get n₀, get (n₀ + 1), get k, v.runs n₀ k, below n₀ k, bounds, reach);
    };
    filled = ground (arith, get i, bounds, reach);
    kept = λ j ne. ground (arith, get j, bounds, reach);
    inside = λ j out. ground (arith, get j, bounds, reach);
  }
    where
      size : ℕ
      size = round_granules lg

      bounds : (min lg 128 ≤ round_granules lg) × (round_granules lg ≤ 128)
      bounds = round_granules_bounds lg p q

      reach : i + extra ≤ 16 * round_granules lg
      reach = omega (arith, bounds)

      get :
          (j : ℕ)
          → fill_from extra m low lg j ≡ (
              if leb low j && leb (j + extra) (16 * round_granules lg)
              then round_granules lg
              else m j)
      get j =
          unfold fill_from in
          fill_loop-get (16 * round_granules lg - extra + 1 - low) low (round_granules lg) m j
          ∙ ground (arith, bounds, reach)

last_filled :
    (m : ℕ → ℕ) (s low : ℕ)
    → (m s == 0) ≡ false
    → s + 1 ≤ low
    → ((j : ℕ) → s + 1 ≤ j → j < low → m j ≢ 0)
    → m (low - 1) ≢ 0
last_filled m s low near l full = elim (Bool-cases (low - 1 == s)) [
  | inl same ↦
      let ne : m s ≢ 0 = ground arith in subst (λ k. m k ≢ 0) (sym ((==_iff (low - 1) s).0 same)) ne
  | inr other ↦ full (low - 1) (ground arith) (omega arith)
]

larger_granules_bounds :
    (extra i low : ℕ)
    → extra ≤ 1
    → low ≤ i
    → i + extra ≤ 2048
    → (alloc_request_grans extra i ≤ larger_granules extra (alloc_request_grans extra i) low)
      × (larger_granules extra (alloc_request_grans extra i) low ≤ 144)
unfolding larger_granules
larger_granules_bounds extra i low e l hi =
    let at_i = alloc_request_grans_lem extra i e (omega arith) in
    let at_low = alloc_request_grans_lem extra low e (omega arith) in (ground arith, ground arith)

module _ (extra : ℕ) (m : ℕ → ℕ) (v : IsSizeMap extra m) (e : extra ≤ 1) where
  -- If element `i`, the size of a small request above the tiny ones, is not filled, then the
  -- extension ends and fills it. What is filled stays filled, perhaps with another size. It keeps the invariants: all sizes are
  -- large enough for their requests and small, and filled runs that end at `n` have at least
  -- the length `n / 4`. It writes no element behind the last small request.
  pub extend_size_map-Extends :
      (i : ℕ)
      → 384 ≤ i + extra
      → i + extra ≤ 2048
      → m i ≡ 0
      → Returns (extend_size_map extra m i) (Extends extra m v e i)
  unfolding extend_size_map
  extend_size_map-Extends i lo hi empty =
      let o : ℕ = alloc_request_grans extra i in
      let o_lem : o ≡ (i + 15 + extra) / 16 = alloc_request_grans_lem extra i e (omega arith) in
      elim (Bool-cases (m (16 * o - 16 * o / 8) == 0)) [
        | inl far ↦
            let (low, run, (p, q, z, full)) =
              skip_filled-finds 2048 m (16 * o - 16 * o / 4) i empty (omega arith) (omega arith) in
            (
              fill_from extra m low o,
              rw (far, run),
              fill_from-Extends extra m v e i low o hi q z (omega arith) (omega arith) (omega arith)
                  (λ n k reach lt below. full k (omega arith) below),
            )
        | inr near ↦
            let (low, run, (p, q, z, full)) =
              skip_filled-finds 2048 m (16 * o - 16 * o / 8 + 1) i empty (omega arith)
                (omega arith) in
            let (not_less, not_more) = larger_granules_bounds extra i low e q hi in
            let last = last_filled m _ low near p full in
            let stop : m (low - 1 + 1) ≡ 0 = subst (λ k. m k ≡ 0) (omega arith) z in
            (
              fill_from extra m low (larger_granules extra o low),
              rw (near, run),
              fill_from-Extends extra m v e i low (larger_granules extra o low) hi q z (omega arith)
                  (omega arith) (omega arith)
                  (λ n k reach lt below. v.runs (low - 1) k last stop (omega arith) (omega arith)),
            )
      ]
