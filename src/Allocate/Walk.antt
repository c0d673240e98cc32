-- ===== src/Allocate/Walk.antt =====
-- Walking along a free list while it is searched.
use gcutil.Prelude.{
  ℕ, suc, ◌+◌, ◌≤◌, ◌≡◌, ◌≢◌, refl, sym, subst, true, false, ◌==◌, ==_iff, arith, List, [], ◌∷◌,
  Bool-cases, inl, inr,
}
use gcutil.FreeBlocks.{Hdr}
use gcutil.FreeBlocks.Links.{Links}
use gcutil.FreeBlocks.Lists.{has, IsDistinct, erase}
use gcutil.FreeBlocks.Sums.{length}

pub length-erase : (h : ℕ) (xs : List ℕ) → has h xs ≡ true → length (erase h xs) + 1 ≡ length xs
unfolding erase
length-erase h [] i = absurd (cc)
length-erase h (x ∷ xs) i = ground (arith, length-erase h xs)

-- From `p` at most `k` blocks of the list `xs` are left.
pub record IsAhead (hdrs : ℕ → Hdr) (p : ℕ) (xs : List ℕ) (k : ℕ) : Type 0 where
  pub prev : ℕ
  pub rest : List ℕ
  pub links : Links hdrs prev p rest
  pub within : (x : ℕ) → has x rest ≡ true → has x xs ≡ true
  pub short : length rest ≤ k

module _ (hdrs : ℕ → Hdr) where
  pub all_IsAhead :
      (prev p : ℕ) (xs : List ℕ) → Links hdrs prev p xs → IsAhead hdrs p xs (length xs)
  all_IsAhead prev p xs l = record {
    prev = prev;
    rest = xs;
    links = l;
    within = λ x i. i;
    short = omega arith;
  }

  pub end_IsAhead : (xs : List ℕ) (k : ℕ) → IsAhead hdrs 0 xs k
  end_IsAhead xs k = record {
    prev = 0;
    rest = [];
    links = refl;
    within = λ x i. cc;
    short = omega arith;
  }

  -- From a block of the list.
  pub member_IsAhead :
      (h prev p : ℕ) (xs : List ℕ)
      → has h xs ≡ true
      → Links hdrs prev p xs
      → IsAhead hdrs h xs (length xs)
  member_IsAhead h prev p [] i l = absurd (cc)
  member_IsAhead h prev p (x ∷ xs) i (e, n, b, l) = elim (Bool-cases (h == x)) [
    | inl same ↦
        let q = (==_iff h x).0 same in
        subst (λ k. IsAhead hdrs k (x ∷ xs) (length (x ∷ xs))) (sym q)
          (all_IsAhead prev x (x ∷ xs) (refl, n, b, l))
    | inr other ↦
        let a = member_IsAhead h x (hdrs x).hb_next xs (ground arith) l in
        record {
          prev = a.prev;
          rest = a.rest;
          links = a.links;
          within = λ y j. ground (arith, a.within y j);
          short = omega (arith, a.short);
        }
  ]

  step_rest :
      (p : ℕ) (xs rest : List ℕ) (k prev : ℕ)
      → p ≢ 0
      → Links hdrs prev p rest
      → ((x : ℕ) → has x rest ≡ true → has x xs ≡ true)
      → length rest ≤ suc k
      → (has p xs ≡ true) × IsAhead hdrs (hdrs p).hb_next xs k
  step_rest p xs [] k prev nz l w s = absurd (nz l)
  step_rest p xs (x ∷ rest) k prev nz (e, n, b, l) w s = (
    w p (ground arith),
    record {
      prev = x;
      rest = rest;
      links = subst (λ y. Links hdrs x (hdrs y).hb_next rest) (sym e) l;
      within = λ y j. w y (ground arith);
      short = omega arith;
    },
  )

  -- A step takes a block off what is ahead.
  pub step_IsAhead :
      (p : ℕ) (xs : List ℕ) (k : ℕ)
      → p ≢ 0
      → IsAhead hdrs p xs (suc k)
      → (has p xs ≡ true) × IsAhead hdrs (hdrs p).hb_next xs k
  step_IsAhead p xs k nz a = step_rest p xs a.rest k a.prev nz a.links a.within a.short

  pub none_IsAhead : (p : ℕ) (xs : List ℕ) → IsAhead hdrs p xs 0 → p ≡ 0
  none_IsAhead p xs a = no_rest a.rest a.prev a.links a.short
    where
      no_rest : (rest : List ℕ) (prev : ℕ) → Links hdrs prev p rest → length rest ≤ 0 → p ≡ 0
      no_rest [] prev l s = l
      no_rest (x ∷ rest) prev l s = absurd (omega arith)

  -- No block of a list stands before itself.
  pub Links-prev_ne :
      (h prev p : ℕ) (xs : List ℕ)
      → has h xs ≡ true
      → has prev xs ≡ false
      → IsDistinct xs
      → Links hdrs prev p xs
      → (hdrs h).hb_prev ≢ h
  Links-prev_ne h prev p [] i out d l = absurd (cc)
  Links-prev_ne h prev p (x ∷ xs) i out (n, d) (e, nz, b, l) = elim (Bool-cases (h == x)) [
    | inl same ↦ λ q. absurd (ground arith)
    | inr other ↦ Links-prev_ne h x (hdrs x).hb_next xs (ground arith) n d l
  ]

  pub IsAhead-weaken :
      (p : ℕ) (xs : List ℕ) (j k : ℕ) → j ≤ k → IsAhead hdrs p xs j → IsAhead hdrs p xs k
  IsAhead-weaken p xs j k le a = record {
    prev = a.prev;
    rest = a.rest;
    links = a.links;
    within = a.within;
    short = omega (arith, a.short);
  }
