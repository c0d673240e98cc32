-- ===== src/Links/Rehash.antt =====
-- The rehashing of `GC_grow_table`, chain by chain.
use gcutil.Prelude.{
  ℕ, zero, suc, ◌+◌, ◌≡◌, ◌≢◌, ◌<◌, ◌≤◌, ◌^◌, refl, sym, ap, ◌∙◌, subst, Bool, true, false, ◌&&◌,
  leb, ltb, Option, none, some, ◌==◌, ==_iff, if◌then◌else◌, arith, List, [], ◌∷◌, Bool-cases, inl,
  inr, write, write_self, write_ne, ◌⊎◌,
}
use native.Mathlib.Nat.{mod-lt, one-le-pow}
use gcutil.Links.{Dl, Chains, hash2, move_chain, move_chains, rehash, grow_from}
use gcutil.Links.Chains.{assoc, OnChain, IsTable, find, OnChain-other}

-- The first of two answers that there is.
abbrev pub or_else : Option ℕ → Option ℕ → Option ℕ
or_else none b = b
or_else (some a) b = some a

some_not_none : {a : ℕ} → some a ≡ none → ⊥
some_not_none e = cc

not_equal : (a b : ℕ) → a ≢ b → (a == b) ≡ false
not_equal a b ne = ground arith

module _ (n : ℕ) where
  moved : Chains → ℕ → Option ℕ
  moved tbl k = assoc k (tbl (hash2 k n))

  cons-moved :
      (tbl : Chains) (d : Dl) (k : ℕ)
      → moved (write tbl (hash2 d.dl_link n) (d ∷ tbl (hash2 d.dl_link n))) k
        ≡ (if d.dl_link == k then some d.dl_obj else moved tbl k)
  unfolding moved assoc
  cons-moved tbl d k =
      let at = hash2 d.dl_link n in
      let new = d ∷ tbl at in
      elim (Bool-cases (hash2 k n == at)) [
        | inl same ↦ let e = (==_iff (hash2 k n) at).0 same in rw (e, write_self tbl at new) refl
        | inr other ↦
            let ne : hash2 k n ≢ at = ground arith in
            let not_k : (d.dl_link == k) ≡ false =
              not_equal d.dl_link k (λ e. ne (sym (ap (λ l. hash2 l n) e))) in
            rw (write_ne tbl at new (hash2 k n) ne, not_k) refl
      ]

  move_chain-moved :
      (log i : ℕ) (ds : List Dl) (tbl : Chains) (k : ℕ)
      → OnChain log i ds
      → moved (move_chain n ds tbl) k ≡ or_else (assoc k ds) (moved tbl k)
  unfolding move_chain assoc
  move_chain-moved log i [] tbl k w = refl
  move_chain-moved log i (d ∷ ds) tbl k (e, f, w) =
      move_chain-moved log i ds (write tbl (hash2 d.dl_link n) (d ∷ tbl (hash2 d.dl_link n))) k w
      ∙ (rw (cons-moved tbl d k) (elim (Bool-cases (d.dl_link == k)) [
        | inl same ↦
            let s = (==_iff d.dl_link k).0 same in
            let none_left : assoc k ds ≡ none = subst (λ l. assoc l ds ≡ none) s f in
            rw (same, none_left) refl
        | inr other ↦ rw other refl
      ]))

  -- The chains of the old table from `i` on, as they are registered for a link of theirs.
  move_chains-moved :
      (log rounds i : ℕ) (table tbl : Chains) (k : ℕ)
      → ((j : ℕ) → OnChain log j (table j))
      → moved (move_chains n rounds i table tbl) k ≡ (
          if leb i (hash2 k log) && ltb (hash2 k log) (i + rounds)
          then or_else (assoc k (table (hash2 k log))) (moved tbl k)
          else moved tbl k)
  unfolding move_chains
  move_chains-moved log zero i table tbl k w =
      let out : (leb i (hash2 k log) && ltb (hash2 k log) (i + 0)) ≡ false = ground arith in
      rw out refl
  move_chains-moved log (suc rounds) i table tbl k w =
      move_chains-moved log rounds (i + 1) table (move_chain n (table i) tbl) k w
      ∙ (rw (move_chain-moved log i (table i) tbl k (w i)) (elim (Bool-cases (hash2 k log == i)) [
        | inl same ↦
            let s = (==_iff (hash2 k log) i).0 same in
            let now : (leb (i + 1) i && ltb i (i + 1 + rounds)) ≡ false = ground arith in
            let here : (leb i i && ltb i (i + suc rounds)) ≡ true = ground arith in
            rw (s, now, here) refl
        | inr other ↦
            let ne : hash2 k log ≢ i = ground arith in
            let absent = OnChain-other log i k (table i) (w i) ne in
            let tests : (leb (i + 1) (hash2 k log) && ltb (hash2 k log) (i + 1 + rounds))
                ≡ (leb i (hash2 k log) && ltb (hash2 k log) (i + suc rounds)) =
              ground arith in
            rw (absent, tests) refl
      ]))

  cons-OnChain :
      (tbl : Chains) (d : Dl) (j : ℕ)
      → ((j : ℕ) → OnChain n j (tbl j))
      → moved tbl d.dl_link ≡ none
      → OnChain n j (write tbl (hash2 d.dl_link n) (d ∷ tbl (hash2 d.dl_link n)) j)
  unfolding moved
  cons-OnChain tbl d j v fresh =
      let at = hash2 d.dl_link n in
      let new = d ∷ tbl at in
      elim (Bool-cases (j == at)) [
        | inl same ↦
            let s = (==_iff j at).0 same in rw (s, write_self tbl at new) (refl, fresh, v at)
        | inr other ↦ let ne : j ≢ at = ground arith in rw (write_ne tbl at new j ne) (v j)
      ]

  first_fresh :
      (d : Dl) (ds : List Dl) (tbl : Chains)
      → (assoc d.dl_link (d ∷ ds) ≡ none) ⊎ (moved tbl d.dl_link ≡ none)
      → moved tbl d.dl_link ≡ none
  unfolding assoc
  first_fresh d ds tbl (inl a) =
      let t : (d.dl_link == d.dl_link) ≡ true = ground arith in
      absurd (some_not_none (sym (ap (λ b. if b then some d.dl_obj else assoc d.dl_link ds) t) ∙ a))
  first_fresh d ds tbl (inr b) = b

  rest_fresh :
      (d : Dl) (ds : List Dl) (tbl : Chains) (k : ℕ)
      → assoc d.dl_link ds ≡ none
      → (assoc k (d ∷ ds) ≡ none) ⊎ (moved tbl k ≡ none)
      → (assoc k ds ≡ none)
        ⊎ (moved (write tbl (hash2 d.dl_link n) (d ∷ tbl (hash2 d.dl_link n))) k ≡ none)
  unfolding assoc
  rest_fresh d ds tbl k f fresh = elim (Bool-cases (d.dl_link == k)) [
    | inl same ↦ inl (subst (λ l. assoc l ds ≡ none) ((==_iff d.dl_link k).0 same) f)
    | inr other ↦ elim fresh [
      | inl a ↦ inl (sym (ap (λ b. if b then some d.dl_obj else assoc k ds) other) ∙ a)
      | inr b ↦ inr (cons-moved tbl d k ∙ (rw other b))
    ]
  ]

  move_chain-OnChain :
      (log i : ℕ) (ds : List Dl) (tbl : Chains)
      → OnChain log i ds
      → ((j : ℕ) → OnChain n j (tbl j))
      → ((k : ℕ) → (assoc k ds ≡ none) ⊎ (moved tbl k ≡ none))
      → (j : ℕ) → OnChain n j (move_chain n ds tbl j)
  unfolding move_chain
  move_chain-OnChain log i [] tbl w v fresh = v
  move_chain-OnChain log i (d ∷ ds) tbl (e, f, w) v fresh =
      move_chain-OnChain log i ds (write tbl (hash2 d.dl_link n) (d ∷ tbl (hash2 d.dl_link n))) w
        (λ j. cons-OnChain tbl d j v (first_fresh d ds tbl (fresh d.dl_link)))
        (λ k. rest_fresh d ds tbl k f (fresh k))

  move_chains-OnChain :
      (log rounds i : ℕ) (table tbl : Chains)
      → ((j : ℕ) → OnChain log j (table j))
      → ((j : ℕ) → OnChain n j (tbl j))
      → ((k : ℕ) → i ≤ hash2 k log → moved tbl k ≡ none)
      → (j : ℕ) → OnChain n j (move_chains n rounds i table tbl j)
  unfolding move_chains
  move_chains-OnChain log zero i table tbl w v fresh = v
  move_chains-OnChain log (suc rounds) i table tbl w v fresh =
      move_chains-OnChain log rounds (i + 1) table (move_chain n (table i) tbl) w
        (move_chain-OnChain log i (table i) tbl (w i) v (λ k. elim (Bool-cases (hash2 k log == i)) [
          | inl same ↦ inr (fresh k (ground arith))
          | inr other ↦ inl (OnChain-other log i k (table i) (w i) (ground arith))
        ]))
        (λ k le.
          move_chain-moved log i (table i) tbl k (w i)
          ∙ (rw (OnChain-other log i k (table i) (w i) (ground arith)) (fresh k (omega arith))))

pub or_else-none : (o : Option ℕ) → or_else o none ≡ o
or_else-none none = refl
or_else-none (some a) = refl

pow_pos : (log : ℕ) → 0 < 2 ^ log
pow_pos log = one-le-pow log 2 (omega arith)

pub hash2_lt : (k log : ℕ) → hash2 k log < 2 ^ log
unfolding hash2
hash2_lt k log = mod-lt _ (pow_pos log)

module _ (table : Chains) (entries log : ℕ) (w : (j : ℕ) → OnChain log j (table j)) where
  rehash-find : (k : ℕ) → find (rehash table entries log) k ≡ assoc k (table (hash2 k log))
  unfolding find rehash moved assoc
  rehash-find k =
      let below : (leb 0 (hash2 k log) && ltb (hash2 k log) (0 + 2 ^ log)) ≡ true =
        ground (arith, hash2_lt k log) in
      move_chains-moved (log + 1) log (2 ^ log) 0 table (λ i. []) k w
      ∙ (rw below (or_else-none (assoc k (table (hash2 k log)))))

  rehash-IsTable : IsTable (rehash table entries log)
  unfolding rehash moved assoc
  rehash-IsTable j =
      move_chains-OnChain (log + 1) log (2 ^ log) 0 table (λ i. []) w (λ j. tt) (λ k le. refl) j

  pub grow_from-find :
      (allocated : Bool) (k : ℕ)
      → find (grow_from table entries log allocated) k ≡ assoc k (table (hash2 k log))
  unfolding grow_from find
  grow_from-find true k = rehash-find k
  grow_from-find false k = refl

  pub grow_from-IsTable : (allocated : Bool) → IsTable (grow_from table entries log allocated)
  unfolding grow_from
  grow_from-IsTable true = rehash-IsTable
  grow_from-IsTable false = w

  pub grow_from-head : (allocated : Bool) → (grow_from table entries log allocated).head ≢ none
  unfolding grow_from rehash
  grow_from-head true x = cc
  grow_from-head false x = cc
