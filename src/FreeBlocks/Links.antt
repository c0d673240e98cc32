-- ===== src/FreeBlocks/Links.antt =====
-- Doubly linked lists through the headers, and the three ways in which the code relinks them.
use gcutil.Prelude.{
  ℕ, ◌≡◌, ◌≢◌, ◌⊎◌, refl, true, false, ◌&&◌, not, ◌==◌, ==_iff, if◌then◌else◌, arith, List, [], ◌∷◌,
  Bool-cases, inl, inr, subst, ◌∙◌, write,
}
use gcutil.FreeBlocks.{Hdr, set_next, set_prev, unlink, link_front, replace}
use gcutil.FreeBlocks.Lists.{has, IsDistinct, erase, swap}

-- From `p` the `hb_next` fields lead through the blocks `xs` to `NULL`, and the `hb_prev` fields
-- lead back to `prev`.
abbrev pub Links : (ℕ → Hdr) → ℕ → ℕ → List ℕ → Type 0
Links hdrs prev p [] = p ≡ 0
Links hdrs prev p (x ∷ xs) =
    (p ≡ x) × (x ≢ 0) × ((hdrs x).hb_prev ≡ prev) × Links hdrs x (hdrs x).hb_next xs

abbrev pub SameLinks : Hdr → Hdr → Type 0
SameLinks a b = (a.hb_next ≡ b.hb_next) × (a.hb_prev ≡ b.hb_prev)

module _ (hdrs : ℕ → Hdr) where
  pub Links-frame :
      (hdrs' : ℕ → Hdr) (prev p : ℕ) (xs : List ℕ)
      → ((x : ℕ) → has x xs ≡ true → SameLinks (hdrs' x) (hdrs x))
      → Links hdrs prev p xs
      → Links hdrs' prev p xs
  Links-frame hdrs' prev p [] same l = l
  Links-frame hdrs' prev p (x ∷ xs) same (e, n, b, l) =
      let (next, back) = same x (ground arith) in
      (
        e,
        n,
        back ∙ b,
        rw next (Links-frame hdrs' x (hdrs x).hb_next xs (λ y i. same y (ground arith)) l),
      )

  pub Links-zero : (prev p : ℕ) (xs : List ℕ) → Links hdrs prev p xs → has 0 xs ≡ false
  Links-zero prev p [] l = refl
  Links-zero prev p (x ∷ xs) (e, n, b, l) = ground (arith, Links-zero x (hdrs x).hb_next xs l)

  pub Links-head : (prev p : ℕ) (xs : List ℕ) → Links hdrs prev p xs → (p ≡ 0) ⊎ (has p xs ≡ true)
  Links-head prev p [] l = inl l
  Links-head prev p (x ∷ xs) (e, n, b, l) = inr (ground arith)

  -- The block behind one of the list is of the list.
  pub Links-next :
      (h prev p : ℕ) (xs : List ℕ)
      → has h xs ≡ true
      → Links hdrs prev p xs
      → ((hdrs h).hb_next ≡ 0) ⊎ (has (hdrs h).hb_next xs ≡ true)
  Links-next h prev p [] i l = absurd (cc)
  Links-next h prev p (x ∷ []) i (e, n, b, l) = inl (ground arith)
  Links-next h prev p (x ∷ y ∷ xs) i (e, n, b, l) = elim (Bool-cases (h == x)) [
    | inl same ↦ inr (ground arith)
    | inr other ↦ elim (Links-next h x (hdrs x).hb_next (y ∷ xs) (ground arith) l) [
      | inl end ↦ inl end
      | inr more ↦ inr (ground arith)
    ]
  ]

  -- The block before one of the list is of the list, unless that is the first.
  pub Links-prev :
      (h prev p : ℕ) (xs : List ℕ)
      → has h xs ≡ true
      → Links hdrs prev p xs
      → ((p ≡ h) × ((hdrs h).hb_prev ≡ prev)) ⊎ ((p ≢ h) × (has (hdrs h).hb_prev xs ≡ true))
  Links-prev h prev p [] i l = absurd (cc)
  Links-prev h prev p (x ∷ xs) i (e, n, b, l) = elim (Bool-cases (h == x)) [
    | inl same ↦ inl (ground arith, ground arith)
    | inr other ↦ elim (Links-prev h x (hdrs x).hb_next xs (ground arith) l) [
      | inl (f, g) ↦ inr (ground arith, ground arith)
      | inr (f, g) ↦ inr (ground arith, ground arith)
    ]
  ]

  pub unlink-next :
      (h y : ℕ)
      → (unlink hdrs h y).hb_next ≡ (
          if y == (hdrs h).hb_prev && not ((hdrs h).hb_prev == 0)
          then (hdrs h).hb_next
          else (hdrs y).hb_next)
  unfolding unlink set_next set_prev write
  unlink-next h y = ground arith

  pub unlink-prev :
      (h y : ℕ)
      → (unlink hdrs h y).hb_prev ≡ (
          if y == (hdrs h).hb_next && not ((hdrs h).hb_next == 0)
          then (hdrs h).hb_prev
          else (hdrs y).hb_prev)
  unfolding unlink set_next set_prev write
  unlink-prev h y = ground arith

  -- The rest of the list behind `h` is linked to the block before `h`.
  unlink_rest :
      (h prev : ℕ) (xs : List ℕ)
      → (hdrs h).hb_prev ≡ prev
      → has prev xs ≡ false
      → IsDistinct xs
      → Links hdrs h (hdrs h).hb_next xs
      → Links (unlink hdrs h) prev (hdrs h).hb_next xs
  unlink_rest h prev [] back out d l = l
  unlink_rest h prev (y ∷ xs) back out (n, d) (e, ne, b, l) =
      let kept : (unlink hdrs h y).hb_next ≡ (hdrs y).hb_next = unlink-next h y ∙ ground arith in
      (
        e,
        ne,
        unlink-prev h y ∙ ground arith,
        rw kept (
            Links-frame (unlink hdrs h) y (hdrs y).hb_next xs
              (λ z i. (unlink-next h z ∙ ground arith, unlink-prev h z ∙ ground arith)) l),
      )

  -- Unlinking a block of a list takes it out of the list.
  pub unlink-erase :
      (h prev p : ℕ) (xs : List ℕ)
      → has h xs ≡ true
      → has prev xs ≡ false
      → IsDistinct xs
      → Links hdrs prev p xs
      → Links (unlink hdrs h) prev (if p == h then (hdrs h).hb_next else p) (erase h xs)
  unfolding erase
  unlink-erase h prev p [] i out d l = absurd (cc)
  unlink-erase h prev p (x ∷ xs) i out (n, d) (e, ne, b, l) = elim (Bool-cases (x == h)) [
    | inl same ↦
        let x_is_h : x ≡ h = (==_iff x h).0 same in
        let here : p == h ≡ true = ground arith in
        rw (same, here)
          (unlink_rest h prev xs (ground arith) (ground arith) d
            (subst (λ k. Links hdrs k (hdrs k).hb_next xs) x_is_h l))
    | inr other ↦
        let i' : has h xs ≡ true = ground arith in
        let not_here : p == h ≡ false = ground arith in
        let next : (unlink hdrs h x).hb_next
            ≡ (if (hdrs x).hb_next == h then (hdrs h).hb_next else (hdrs x).hb_next) =
          unlink-next h x ∙ (elim (Links-prev h x (hdrs x).hb_next xs i' l) [
            | inl (f, g) ↦ ground arith
            | inr (f, g) ↦ ground arith
          ]) in
        let back : (unlink hdrs h x).hb_prev ≡ (hdrs x).hb_prev =
          unlink-prev h x ∙ (elim (Links-next h x (hdrs x).hb_next xs i' l) [
            | inl f ↦ ground arith
            | inr f ↦ ground arith
          ]) in
        rw (other, not_here)
          (e, ne, back ∙ b, rw next (unlink-erase h x (hdrs x).hb_next xs i' n d l))
  ]

  pub replace-next :
      (h last sz y : ℕ)
      → (replace hdrs h last sz y).hb_next ≡ (
          if y == (hdrs h).hb_prev && not ((hdrs h).hb_prev == 0)
          then last
          else if y == last
          then (hdrs h).hb_next
          else (hdrs y).hb_next)
  unfolding replace set_next set_prev write
  replace-next h last sz y = ground arith

  pub replace-prev :
      (h last sz y : ℕ)
      → (replace hdrs h last sz y).hb_prev ≡ (
          if y == (hdrs h).hb_next && not ((hdrs h).hb_next == 0)
          then last
          else if y == last
          then (hdrs h).hb_prev
          else (hdrs y).hb_prev)
  unfolding replace set_next set_prev write
  replace-prev h last sz y = ground arith

  replace_rest :
      (h last sz prev : ℕ) (xs : List ℕ)
      → (hdrs h).hb_prev ≡ prev
      → has prev xs ≡ false
      → has last xs ≡ false
      → IsDistinct xs
      → Links hdrs h (hdrs h).hb_next xs
      → Links (replace hdrs h last sz) last (hdrs h).hb_next xs
  replace_rest h last sz prev [] back out fresh d l = l
  replace_rest h last sz prev (y ∷ xs) back out fresh (n, d) (e, ne, b, l) =
      let kept : (replace hdrs h last sz y).hb_next ≡ (hdrs y).hb_next =
        replace-next h last sz y ∙ ground arith in
      (
        e,
        ne,
        replace-prev h last sz y ∙ ground arith,
        rw kept (
            Links-frame (replace hdrs h last sz) y (hdrs y).hb_next xs
              (λ z i.
                (replace-next h last sz z ∙ ground arith, replace-prev h last sz z ∙ ground arith))
              l),
      )

  -- A block that is put in the place of another is linked in its place.
  pub replace-swap :
      (h last sz prev p : ℕ) (xs : List ℕ)
      → has h xs ≡ true
      → has prev xs ≡ false
      → has last xs ≡ false
      → last ≢ prev
      → last ≢ 0
      → IsDistinct xs
      → Links hdrs prev p xs
      → Links (replace hdrs h last sz) prev (if p == h then last else p) (swap h last xs)
  unfolding swap
  replace-swap h last sz prev p [] i out fresh np nz d l = absurd (cc)
  replace-swap h last sz prev p (x ∷ xs) i out fresh np nz (n, d) (e, ne, b, l) =
      elim (Bool-cases (x == h)) [
        | inl same ↦
            let x_is_h : x ≡ h = (==_iff x h).0 same in
            let here : p == h ≡ true = ground arith in
            let l' : Links hdrs h (hdrs h).hb_next xs =
              subst (λ k. Links hdrs k (hdrs k).hb_next xs) x_is_h l in
            let back : (hdrs h).hb_prev ≡ prev = ground arith in
            let next : (replace hdrs h last sz last).hb_next ≡ (hdrs h).hb_next =
              replace-next h last sz last ∙ ground arith in
            let prev' : (replace hdrs h last sz last).hb_prev ≡ prev =
              replace-prev h last sz last ∙ head_prev h last prev xs back (ground arith) nz l' in
            rw (same, here)
              (
                refl,
                nz,
                prev',
                rw next (replace_rest h last sz prev xs back (ground arith) (ground arith) d l'),
              )
        | inr other ↦
            let i' : has h xs ≡ true = ground arith in
            let not_here : p == h ≡ false = ground arith in
            let next : (replace hdrs h last sz x).hb_next
                ≡ (if (hdrs x).hb_next == h then last else (hdrs x).hb_next) =
              replace-next h last sz x ∙ (elim (Links-prev h x (hdrs x).hb_next xs i' l) [
                | inl (f, g) ↦ ground arith
                | inr (f, g) ↦ ground arith
              ]) in
            let back : (replace hdrs h last sz x).hb_prev ≡ (hdrs x).hb_prev =
              replace-prev h last sz x ∙ (elim (Links-next h x (hdrs x).hb_next xs i' l) [
                | inl f ↦ ground arith
                | inr f ↦ ground arith
              ]) in
            rw (other, not_here)
              (
                e,
                ne,
                back ∙ b,
                rw next (
                    replace-swap h last sz x (hdrs x).hb_next xs i' n (ground arith) (ground arith)
                      nz d l),
              )
      ]
    where
      head_prev :
          (h last prev : ℕ) (xs : List ℕ)
          → (hdrs h).hb_prev ≡ prev
          → has last xs ≡ false
          → last ≢ 0
          → Links hdrs h (hdrs h).hb_next xs
          → (if last == (hdrs h).hb_next && not ((hdrs h).hb_next == 0)
              then last
              else if last == last
              then (hdrs h).hb_prev
              else (hdrs last).hb_prev)
            ≡ prev
      head_prev h last prev [] back fresh nz l = ground arith
      head_prev h last prev (y ∷ xs) back fresh nz l = ground arith

  pub link_front-next :
      (h p y : ℕ)
      → h ≢ 0
      → (link_front hdrs h p y).hb_next ≡ (if y == h then p else (hdrs y).hb_next)
  unfolding link_front set_prev write
  link_front-next h p y nz = ground arith

  pub link_front-prev :
      (h p y : ℕ)
      → (link_front hdrs h p y).hb_prev
        ≡ (if y == p && not (p == 0) then h else if y == h then 0 else (hdrs y).hb_prev)
  unfolding link_front set_prev write
  link_front-prev h p y = ground arith

  -- Putting a block in front of a list that it is not of.
  pub link_front-cons :
      (h p : ℕ) (xs : List ℕ)
      → h ≢ 0
      → has h xs ≡ false
      → IsDistinct xs
      → Links hdrs 0 p xs
      → Links (link_front hdrs h p) 0 h (h ∷ xs)
  link_front-cons h p [] nz out d l =
      (refl, nz, link_front-prev h p h ∙ ground arith, link_front-next h p h nz ∙ ground arith)
  link_front-cons h p (y ∷ xs) nz out (n, d) (e, ne, b, l) =
      let next : (link_front hdrs h p y).hb_next ≡ (hdrs y).hb_next =
        link_front-next h p y nz ∙ ground arith in
      (
        refl,
        nz,
        link_front-prev h p h ∙ ground arith,
        (
          link_front-next h p h nz ∙ ground arith,
          ne,
          link_front-prev h p y ∙ ground arith,
          rw next (
              Links-frame (link_front hdrs h p) y (hdrs y).hb_next xs
                (λ z i.
                  (link_front-next h p z nz ∙ ground arith, link_front-prev h p z ∙ ground arith))
                l),
        ),
      )
