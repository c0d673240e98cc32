-- ===== src/FreeBlocks/Lists.antt =====
-- Lists of blocks: membership by a test, removal, and replacement of an element.
use gcutil.Prelude.{
  ℕ, ◌+◌, ◌≡◌, refl, Bool, true, false, ◌||◌, ◌==◌, if◌then◌else◌, arith, List, [], ◌∷◌, Bool-cases,
  inl, inr,
}

abbrev pub has : ℕ → List ℕ → Bool
has x [] = false
has x (y ∷ ys) = (x == y) || has x ys

abbrev pub IsDistinct : List ℕ → Type 0
IsDistinct [] = Unit {0}
IsDistinct (x ∷ xs) = (has x xs ≡ false) × IsDistinct xs

-- The list without its first `h`, and with `x` for its first `h`.
unfoldable pub erase : ℕ → List ℕ → List ℕ
erase h [] = []
erase h (x ∷ xs) = if x == h then xs else x ∷ erase h xs

unfoldable pub swap : ℕ → ℕ → List ℕ → List ℕ
swap h y [] = []
swap h y (x ∷ xs) = if x == h then y ∷ xs else x ∷ swap h y xs

-- The sum of the sizes of the blocks of a list.
unfoldable pub total : (ℕ → ℕ) → List ℕ → ℕ
total size [] = 0
total size (x ∷ xs) = size x + total size xs

pub has-erase :
    (q h : ℕ) (xs : List ℕ)
    → IsDistinct xs
    → has q (erase h xs) ≡ (if q == h then false else has q xs)
unfolding erase
has-erase q h [] d = ground arith
has-erase q h (x ∷ xs) (n, d) = ground (arith, has-erase q h xs d)

pub erase-IsDistinct : (h : ℕ) (xs : List ℕ) → IsDistinct xs → IsDistinct (erase h xs)
unfolding erase
erase-IsDistinct h [] d = d
erase-IsDistinct h (x ∷ xs) (n, d) = elim (Bool-cases (x == h)) [
  | inl same ↦ rw same d
  | inr other ↦ rw other (ground (arith, has-erase x h xs d), erase-IsDistinct h xs d)
]

pub has-swap :
    (q h y : ℕ) (xs : List ℕ)
    → IsDistinct xs
    → has h xs ≡ true
    → has q (swap h y xs) ≡ ((q == y) || (if q == h then false else has q xs))
unfolding swap
has-swap q h y [] d i = absurd (cc)
has-swap q h y (x ∷ xs) (n, d) i = ground (arith, has-swap q h y xs d)

pub swap-IsDistinct :
    (h y : ℕ) (xs : List ℕ)
    → IsDistinct xs
    → has h xs ≡ true
    → has y xs ≡ false
    → IsDistinct (swap h y xs)
unfolding swap
swap-IsDistinct h y [] d i o = d
swap-IsDistinct h y (x ∷ xs) (n, d) i o = elim (Bool-cases (x == h)) [
  | inl same ↦ rw same (ground arith, d)
  | inr other ↦
      let i' : has h xs ≡ true = ground arith in
      let o' : has y xs ≡ false = ground arith in
      rw other (ground (arith, has-swap x h y xs d i'), swap-IsDistinct h y xs d i' o')
]

pub total_congr :
    (f g : ℕ → ℕ) (xs : List ℕ) → ((x : ℕ) → has x xs ≡ true → f x ≡ g x) → total f xs ≡ total g xs
unfolding total
total_congr f g [] same = refl
total_congr f g (x ∷ xs) same =
    let rest = total_congr f g xs (λ y i. same y (ground arith)) in
    let here : f x ≡ g x = same x (ground arith) in omega arith

pub total-cons : (f : ℕ → ℕ) (x : ℕ) (xs : List ℕ) → total f (x ∷ xs) ≡ f x + total f xs
unfolding total
total-cons f x xs = refl

pub total-erase :
    (f : ℕ → ℕ) (h : ℕ) (xs : List ℕ) → has h xs ≡ true → f h + total f (erase h xs) ≡ total f xs
unfolding total erase
total-erase f h [] i = absurd (cc)
total-erase f h (x ∷ xs) i = ground (arith, total-erase f h xs)

pub total-swap :
    (f : ℕ → ℕ) (h y : ℕ) (xs : List ℕ)
    → has h xs ≡ true
    → f h + total f (swap h y xs) ≡ f y + total f xs
unfolding total swap
total-swap f h y [] i = absurd (cc)
total-swap f h y (x ∷ xs) i = ground (arith, total-swap f h y xs)
