-- ===== src/Roots/Weigh.antt =====
-- Sums over the roots of the table. A sum of indicators counts the roots with given bounds and
-- kind, so equations that hold for every weight state which roots there are, and how often.
use gcutil.Prelude.{ℕ, zero, suc, ◌+◌, ◌-◌, ◌≤◌, ◌<◌, ◌≡◌, refl, Bool, write, arith}
use gcutil.Roots.{Root}

-- The weight of a root by its bounds and kind.
abbrev pub Weight : Type 0
Weight = ℕ → ℕ → Bool → ℕ

abbrev pub weight : Weight → Root → ℕ
weight f r = f r.r_start r.r_end r.r_tmp

unfoldable pub weigh : Weight → (ℕ → Root) → ℕ → ℕ
weigh f roots zero = 0
weigh f roots (suc k) = weigh f roots k + weight f (roots k)

-- The bounds and the kind of two roots agree.
abbrev pub SameRoot : Root → Root → Type 0
SameRoot r s = (r.r_start ≡ s.r_start) × (r.r_end ≡ s.r_end) × (r.r_tmp ≡ s.r_tmp)

abbrev pub size_of : Weight
size_of b e tmp = e - b

pub weigh_congr :
    (f : Weight) (r s : ℕ → Root) (k : ℕ)
    → ((i : ℕ) → i < k → weight f (r i) ≡ weight f (s i))
    → weigh f r k ≡ weigh f s k
unfolding weigh
weigh_congr f r s zero same = refl
weigh_congr f r s (suc k) same =
    omega (arith, weigh_congr f r s k (λ i l. same i (omega arith)), same k (omega arith))

pub weigh-write_above :
    (f : Weight) (roots : ℕ → Root) (k i : ℕ) (r : Root)
    → k ≤ i
    → weigh f (write roots i r) k ≡ weigh f roots k
unfolding write
weigh-write_above f roots k i r l = weigh_congr f (write roots i r) roots k (λ j h. ground arith)

pub weigh-write :
    (f : Weight) (roots : ℕ → Root) (k i : ℕ) (r : Root)
    → i < k
    → weigh f (write roots i r) k + weight f (roots i) ≡ weigh f roots k + weight f r
unfolding weigh write
weigh-write f roots zero i r l = absurd (omega arith)
weigh-write f roots (suc k) i r l =
    ground (arith, weigh-write f roots k i r, weigh-write_above f roots k i r)
