-- ===== src/Allocate/Place.antt =====
-- The place in a block that the search of `GC_allochblk_nth` finds: rounding addresses up and down.
use Prim.Native.Nat.{◌∣◌}
use native.Mathlib.Nat.{
  dvd-sub, dvd-add, dvd_refl, dvd-mul_right, le_of_dvd, dvd_of_mod-eq-zero, mod-eq-zero_of_dvd,
  dvd_trans, div-add-mod, mod-lt, mod-le, add-mod-mod,
}
use gcutil.Prelude.{
  ℕ, ◌+◌, ◌-◌, ◌*◌, ◌/◌, ◌%◌, ◌≤◌, ◌<◌, ◌≡◌, ◌⊎◌, inl, inr, subst, arith, Bool-cases, ltb, ◌∙◌,
}
use gcutil.Allocate.{align_pad_sz}
use gcutil.FreeBlocks.{hblk_size}

-- Two multiples of `a` with less than `a` between them are in order.
pub multiples_apart : (a m n : ℕ) → a ∣ m → a ∣ n → m < n + a → m ≤ n
multiples_apart a m n p q l = elim (Bool-cases (ltb n m)) [
  | inl more ↦
      let least : a ≤ m - n = le_of_dvd (ground arith) (dvd-sub a p q) in absurd (ground arith)
  | inr less ↦ ground arith
]

-- `p` rounded down and rounded up to a multiple of `a`.
unfoldable pub down : ℕ → ℕ → ℕ
down p a = p - p % a

pub up : ℕ → ℕ → ℕ
up p a = p + (a - p % a) % a

pub down_dvd : (p a : ℕ) → a ∣ down p a
unfolding down
down_dvd p a =
    let whole = div-add-mod p a in subst (λ k. a ∣ k) (omega arith) (dvd-mul_right a (p / a))

pub up_dvd : (p a : ℕ) → 0 < a → a ∣ up p a
unfolding up
up_dvd p a pos =
    let whole = div-add-mod p a in
    let part = mod-lt p pos in
    let sum : a * (p / a) + a ≡ p + (a - p % a) = omega arith in
    let next = subst (λ k. a ∣ k) sum (dvd-add a (dvd-mul_right a (p / a)) (dvd_refl a)) in
    dvd_of_mod-eq-zero a (add-mod-mod p (a - p % a) a ∙ mod-eq-zero_of_dvd a next)

pub up_bounds : (p a : ℕ) → 0 < a → (p ≤ up p a) × (up p a < p + a)
unfolding up
up_bounds p a pos = let part = mod-lt (a - p % a) pos in (omega arith, omega arith)

pub down_bounds : (p a : ℕ) → 0 < a → (down p a ≤ p) × (p < down p a + a)
unfolding down
down_bounds p a pos = let part = mod-lt p pos in let le = mod-le p a in (omega arith, omega arith)

-- Rounded up, what is below a multiple stays below it.
pub up_least : (p a n : ℕ) → 0 < a → a ∣ n → p ≤ n → up p a ≤ n
up_least p a n pos d le =
    multiples_apart a (up p a) n (up_dvd p a pos) d (omega (arith, up_bounds p a pos))

pub down_greatest : (p a n : ℕ) → 0 < a → a ∣ n → n ≤ p → n ≤ down p a
down_greatest p a n pos d le =
    multiples_apart a n (down p a) d (down_dvd p a) (omega (arith, down_bounds p a pos))

-- An alignment that the allocator accepts: none, or whole blocks.
abbrev pub IsAlignment : ℕ → Type 0
IsAlignment align_m1 = (align_m1 ≡ 0) ⊎ (hblk_size ∣ align_m1 + 1)

-- The block number that `ALIGN_PAD_SZ` leads to.
unfoldable pub padded : ℕ → ℕ → ℕ
unfolding align_pad_sz
padded h align_m1 = h + align_pad_sz h align_m1 / hblk_size

pub padded-up :
    (h align_m1 : ℕ)
    → IsAlignment align_m1
    → padded h align_m1 * hblk_size ≡ up (h * hblk_size) (align_m1 + 1)
unfolding padded align_pad_sz up
padded-up h align_m1 (inl none) = rw none (omega arith)
padded-up h align_m1 (inr blocks) =
    let a = align_m1 + 1 in
    let d : hblk_size ∣ up (h * hblk_size) a =
      dvd_trans hblk_size blocks (up_dvd (h * hblk_size) a (omega arith)) in
    let m : (h * hblk_size + (a - h * hblk_size % a) % a) % hblk_size ≡ 0 =
      mod-eq-zero_of_dvd hblk_size d in
    omega arith
