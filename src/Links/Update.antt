-- ===== src/Links/Update.antt =====
-- Changes of one chain: the object of an entry, an entry taken out, and an entry in front.
use gcutil.Prelude.{
  ℕ, ◌≡◌, ◌≢◌, refl, sym, ap, ◌∙◌, subst, true, false, Option, none, some, ◌==◌, ==_iff,
  if◌then◌else◌, arith, List, [], ◌∷◌, Bool-cases, Option-cases, inl, inr, write,
}
use gcutil.Links.{Dl, Links, hash2, chain, set_obj, take_out, set_chain}
use gcutil.Links.Chains.{assoc, OnChain, IsTable, find}

some_not_none {ℓ} : {A : Type ℓ} {a : A} → some a ≡ none → ⊥
some_not_none e = cc

not_equal : (a b : ℕ) → a ≢ b → (a == b) ≡ false
not_equal a b ne = ground arith

-- The chain `xs` registers `v` for `link`, and for all others what `ds` does.
abbrev pub Assigns : ℕ → Option ℕ → List Dl → List Dl → Type 0
Assigns link v ds xs = (k : ℕ) → assoc k xs ≡ (if link == k then v else assoc k ds)

abbrev pub SetsObj : ℕ → ℕ → ℕ → ℕ → List Dl → Option (List Dl) → Type 0
SetsObj log i link obj ds none = assoc link ds ≡ none
SetsObj log i link obj ds (some xs) =
    (assoc link ds ≢ none) × OnChain log i xs × Assigns link (some obj) ds xs

abbrev pub TakesOut : ℕ → ℕ → ℕ → List Dl → Option (Dl × List Dl) → Type 0
TakesOut log i link ds none = assoc link ds ≡ none
TakesOut log i link ds (some (d, xs)) =
    (d.dl_link ≡ link)
    × (assoc link ds ≡ some d.dl_obj)
    × OnChain log i xs
    × Assigns link none ds xs

assoc_first :
    (d : Dl) (ds : List Dl) (k : ℕ) → (d.dl_link == k) ≡ true → assoc k (d ∷ ds) ≡ some d.dl_obj
unfolding assoc
assoc_first d ds k e = rw e refl

assoc_later :
    (d : Dl) (ds : List Dl) (k : ℕ) → (d.dl_link == k) ≡ false → assoc k (d ∷ ds) ≡ assoc k ds
unfolding assoc
assoc_later d ds k e = rw e refl

-- An entry of another link in front of both chains.
Assigns-later :
    (link : ℕ) (v : Option ℕ) (d : Dl) (ds xs : List Dl)
    → (d.dl_link == link) ≡ false
    → Assigns link v ds xs
    → Assigns link v (d ∷ ds) (d ∷ xs)
Assigns-later link v d ds xs other a k = elim (Bool-cases (d.dl_link == k)) [
  | inl same ↦
      let ne : (link == k) ≡ false = ground arith in
      assoc_first d xs k same ∙ (rw ne (sym (assoc_first d ds k same)))
  | inr differs ↦
      assoc_later d xs k differs
      ∙ a k
      ∙ sym (ap (λ o. if link == k then v else o) (assoc_later d ds k differs))
]

assoc_nil : (k : ℕ) → assoc k [] ≡ none
unfolding assoc
assoc_nil k = refl

Assigns-first :
    (link obj : ℕ) (d : Dl) (ds : List Dl)
    → (d.dl_link == link) ≡ true
    → Assigns link (some obj) (d ∷ ds) (record d { dl_obj = obj } ∷ ds)
Assigns-first link obj d ds same k = elim (Bool-cases (d.dl_link == k)) [
  | inl here ↦
      let e : (link == k) ≡ true = ground arith in
      assoc_first (record d { dl_obj = obj }) ds k here ∙ (rw e refl)
  | inr differs ↦
      let e : (link == k) ≡ false = ground arith in
      assoc_later (record d { dl_obj = obj }) ds k differs
      ∙ (rw e (sym (assoc_later d ds k differs)))
]

Assigns-without :
    (link : ℕ) (d : Dl) (ds : List Dl)
    → (d.dl_link == link) ≡ true
    → assoc d.dl_link ds ≡ none
    → Assigns link none (d ∷ ds) ds
Assigns-without link d ds same n k = elim (Bool-cases (d.dl_link == k)) [
  | inl here ↦
      let e : (link == k) ≡ true = ground arith in
      rw e (subst (λ l. assoc l ds ≡ none) ((==_iff d.dl_link k).0 here) n)
  | inr differs ↦
      let e : (link == k) ≡ false = ground arith in rw e (sym (assoc_later d ds k differs))
]

module _ (log i link : ℕ) where
  pub set_obj-SetsObj :
      (obj : ℕ) (ds : List Dl) → OnChain log i ds → SetsObj log i link obj ds (set_obj link obj ds)
  unfolding set_obj
  set_obj-SetsObj obj [] w = assoc_nil link
  set_obj-SetsObj obj (d ∷ ds) (e, n, w) =
      let before = set_obj-SetsObj obj ds w in
      elim (Bool-cases (d.dl_link == link)) [
        | inl same ↦ rw same (
          (λ z. some_not_none (sym (assoc_first d ds link same) ∙ z)),
          (e, n, w),
          Assigns-first link obj d ds same,
        )
        | inr other ↦ elim (Option-cases (set_obj link obj ds)) [
          | inl o ↦
              let absent = subst (λ r. SetsObj log i link obj ds r) o before in
              rw (other, o) (assoc_later d ds link other ∙ absent)
          | inr (xs, o) ↦
              let (ne, w', a) = subst (λ r. SetsObj log i link obj ds r) o before in
              let differs : (link == d.dl_link) ≡ false = ground arith in
              let n' : assoc d.dl_link xs ≡ none = a d.dl_link ∙ (rw differs n) in
              rw (other, o)
                (
                  (λ z. ne (sym (assoc_later d ds link other) ∙ z)),
                  (e, n', w'),
                  Assigns-later link (some obj) d ds xs other a,
                )
        ]
      ]

  pub take_out-TakesOut :
      (ds : List Dl) → OnChain log i ds → TakesOut log i link ds (take_out link ds)
  unfolding take_out
  take_out-TakesOut [] w = assoc_nil link
  take_out-TakesOut (d ∷ ds) (e, n, w) =
      let before = take_out-TakesOut ds w in
      elim (Bool-cases (d.dl_link == link)) [
        | inl same ↦ rw same (
          (==_iff d.dl_link link).0 same,
          assoc_first d ds link same,
          w,
          Assigns-without link d ds same n,
        )
        | inr other ↦ elim (Option-cases (take_out link ds)) [
          | inl o ↦
              let absent = subst (λ r. TakesOut log i link ds r) o before in
              rw (other, o) (assoc_later d ds link other ∙ absent)
          | inr ((found, xs), o) ↦
              let (key, obj, w', a) = subst (λ r. TakesOut log i link ds r) o before in
              let differs : (link == d.dl_link) ≡ false = ground arith in
              let n' : assoc d.dl_link xs ≡ none = a d.dl_link ∙ (rw differs n) in
              rw (other, o)
                (
                  key,
                  assoc_later d ds link other ∙ obj,
                  (e, n', w'),
                  Assigns-later link none d ds xs other a,
                )
        ]
      ]

-- `t'` is a table that is there, with `v` registered for `link`, and all else as in `t`.
abbrev pub Updates : Links → ℕ → Option ℕ → Links → Type 0
Updates t link v t' =
    IsTable t' × ((k : ℕ) → find t' k ≡ (if link == k then v else find t k)) × (t'.head ≢ none)

chain-set_chain :
    (t : Links) (index : ℕ) (xs : List Dl) (j : ℕ)
    → t.head ≢ none
    → chain (set_chain t index xs) j ≡ (if j == index then xs else chain t j)
unfolding set_chain write
chain-set_chain t index xs j there = elim (Option-cases t.head) [
  | inl e ↦ absurd (there e)
  | inr (table, e) ↦ rw e refl
]

set_chain-head :
    (t : Links) (index : ℕ) (xs : List Dl) → t.head ≢ none → (set_chain t index xs).head ≢ none
unfolding set_chain
set_chain-head t index xs there = elim (Option-cases t.head) [
  | inl e ↦ absurd (there e)
  | inr (table, e) ↦ rw e (λ z. some_not_none z)
]

set_chain-log_size :
    (t : Links) (index : ℕ) (xs : List Dl) → (set_chain t index xs).log_size ≡ t.log_size
unfolding set_chain
set_chain-log_size t index xs = refl

pub set_chain-Updates :
    (t : Links) (link : ℕ) (v : Option ℕ) (xs : List Dl)
    → t.head ≢ none
    → IsTable t
    → OnChain t.log_size (hash2 link t.log_size) xs
    → Assigns link v (chain t (hash2 link t.log_size)) xs
    → Updates t link v (set_chain t (hash2 link t.log_size) xs)
unfolding find
set_chain-Updates t link v xs there w on a =
    let index = hash2 link t.log_size in
    (
      (λ j.
          rw (set_chain-log_size t index xs, chain-set_chain t index xs j there)
            (elim (Bool-cases (j == index)) [
              | inl same ↦
                  rw same (subst (λ m. OnChain t.log_size m xs) (sym ((==_iff j index).0 same)) on)
              | inr other ↦ rw other (w j)
            ])),
      (λ k.
          rw (set_chain-log_size t index xs, chain-set_chain t index xs (hash2 k t.log_size) there)
            (elim (Bool-cases (hash2 k t.log_size == index)) [
              | inl same ↦
                  let s = sym ((==_iff (hash2 k t.log_size) index).0 same) in
                  rw same (a k ∙ ap (λ j. if link == k then v else assoc k (chain t j)) s)
              | inr other ↦
                  let h : hash2 k t.log_size ≢ index = ground arith in
                  let ne = not_equal link k (λ e. h (ap (λ l. hash2 l t.log_size) (sym e))) in
                  rw (other, ne) refl
            ])),
      set_chain-head t index xs there,
    )
