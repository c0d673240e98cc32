-- ===== src/FreeBlocks/Enough.antt =====
-- `GC_enough_large_bytes_left`.
use gcutil.Prelude.{
  ◌==◌, ℕ, zero, suc, ◌+◌, ◌-◌, ◌^◌, subst, ◌≤◌, ◌<◌, ◌≡◌, ◌≢◌, refl, ap, ◌∙◌, false, leb, arith,
  Bool-cases, inl, inr, word_add,
}
use gcutil.FreeBlocks.{n_hblk_fls, enough_loop, enough_large_bytes_left}

-- The bytes on the lists `k`, ..., `k + d - 1`.
unfoldable pub bytes_on : (ℕ → ℕ) → ℕ → ℕ → ℕ
bytes_on free_bytes k zero = 0
bytes_on free_bytes k (suc d) = free_bytes k + bytes_on free_bytes (suc k) d

-- The lists from `k + n` on are among those from `k` on.
bytes_on_le :
    (free_bytes : ℕ → ℕ) (k n d k' m : ℕ)
    → k' ≡ k + n
    → m ≡ n + d
    → bytes_on free_bytes k' d ≤ bytes_on free_bytes k m
unfolding bytes_on
bytes_on_le free_bytes k zero d k' m e f =
    let e' : k' ≡ k = omega arith in let f' : m ≡ d = omega arith in rw (e', f') (omega arith)
bytes_on_le free_bytes k (suc n) d k' zero e f = absurd (omega arith)
bytes_on_le free_bytes k (suc n) d k' (suc m) e f =
    let rest = bytes_on_le free_bytes (suc k) n d k' m (omega arith) (omega arith) in omega arith

-- With the lists from `n` on the bytes reach `max_large`, or `n` is 0; with fewer they do not.
pub IsEnough : (ℕ → ℕ) → ℕ → ℕ → ℕ → Type 0
IsEnough free_bytes allocd max_large n =
    (n ≤ n_hblk_fls)
    × (n ≢ 0 → max_large ≤ allocd + bytes_on free_bytes n (n_hblk_fls + 1 - n))
    × ((k : ℕ)
        → n < k
        → k ≤ n_hblk_fls
        → allocd + bytes_on free_bytes k (n_hblk_fls + 1 - k) < max_large)

module _ (free_bytes : ℕ → ℕ) (allocd max_large : ℕ)
    (small : allocd + bytes_on free_bytes 1 n_hblk_fls < 2 ^ 64) where
  no_overflow :
      (k : ℕ)
      → 1 ≤ k
      → k ≤ n_hblk_fls
      → allocd + bytes_on free_bytes k (n_hblk_fls + 1 - k) < 2 ^ 64
  no_overflow zero p q = absurd (omega arith)
  no_overflow (suc k) p q =
      let part =
        bytes_on_le free_bytes 1 k (n_hblk_fls + 1 - suc k) (suc k) n_hblk_fls (omega arith)
          (omega arith) in
      omega arith

  bytes_on_first :
      (n : ℕ)
      → suc n ≤ n_hblk_fls
      → bytes_on free_bytes (suc n) (n_hblk_fls + 1 - suc n)
        ≡ free_bytes (suc n) + bytes_on free_bytes (suc (suc n)) (n_hblk_fls - suc n)
  unfolding bytes_on
  bytes_on_first n le =
      let e : n_hblk_fls + 1 - suc n ≡ suc (n_hblk_fls - suc n) = omega arith in rw e

  below_or_here :
      (n bytes : ℕ)
      → bytes ≡ allocd + bytes_on free_bytes (suc n) (n_hblk_fls + 1 - suc n)
      → leb max_large bytes ≡ false
      → ((k : ℕ)
          → suc n < k
          → k ≤ n_hblk_fls
          → allocd + bytes_on free_bytes k (n_hblk_fls + 1 - k) < max_large)
      → (k : ℕ) → n < k
      → k ≤ n_hblk_fls
      → allocd + bytes_on free_bytes k (n_hblk_fls + 1 - k) < max_large
  below_or_here n bytes e more less k p q = elim (Bool-cases (k == suc n)) [
    | inl here ↦
        let e' : suc n ≡ k = ground arith in
        subst (λ j. allocd + bytes_on free_bytes j (n_hblk_fls + 1 - j) < max_large) e'
          (ground arith)
    | inr above ↦ less k (ground arith) q
  ]

  enough_loop-IsEnough :
      (n bytes : ℕ)
      → n ≤ n_hblk_fls
      → bytes ≡ allocd + bytes_on free_bytes (suc n) (n_hblk_fls - n)
      → ((k : ℕ)
          → n < k
          → k ≤ n_hblk_fls
          → allocd + bytes_on free_bytes k (n_hblk_fls + 1 - k) < max_large)
      → IsEnough free_bytes allocd max_large (enough_loop free_bytes max_large n bytes)
  unfolding enough_loop IsEnough
  enough_loop-IsEnough zero bytes le e less = (ground arith, λ ne. absurd (ne refl), less)
  enough_loop-IsEnough (suc n) bytes le e less =
      let bytes' = word_add bytes (free_bytes (suc n)) in
      let step = bytes_on_first n le in
      let below = no_overflow (suc n) (omega arith) le in
      let bytes' = word_add bytes (free_bytes (suc n)) in
      let d : n_hblk_fls + 1 - suc n ≡ n_hblk_fls - n = omega arith in
      let e' : bytes' ≡ allocd + bytes_on free_bytes (suc n) (n_hblk_fls + 1 - suc n) =
        omega arith in
      elim (Bool-cases (leb max_large bytes')) [
        | inl enough ↦ rw enough (le, λ ne. ground arith, less)
        | inr more ↦ rw more (
            enough_loop-IsEnough n bytes' (omega arith)
              (e' ∙ ap (λ m. allocd + bytes_on free_bytes (suc n) m) d)
              (below_or_here n bytes' e' more less))
      ]

  -- If the bytes allocated and the free bytes on all the lists do not overflow together, the
  -- result is the largest `n` of which the lists `n`, ..., 60 and the bytes allocated reach the
  -- maximum, and 0 if there is none.
  pub enough_large_bytes_left-IsEnough :
      IsEnough free_bytes allocd max_large (enough_large_bytes_left free_bytes allocd max_large)
  unfolding enough_large_bytes_left bytes_on
  enough_large_bytes_left-IsEnough =
      enough_loop-IsEnough n_hblk_fls allocd (omega arith) (omega arith)
        (λ k p q. absurd (omega arith))
