-- ===== src/Links/Disappear.antt =====
-- The clearing of links after marking.
use gcutil.Prelude.{
  ℕ, zero, suc, ◌+◌, ◌^◌, ◌≡◌, ◌≢◌, refl, sym, ap, ◌∙◌, subst, Bool, true, false, ◌&&◌, leb, ltb,
  Option, none, some, ◌==◌, ==_iff, if◌then◌else◌, arith, List, [], ◌∷◌, ◌++◌, Bool-cases, inl, inr,
  write, write_self, write_ne,
}
use gcutil.Links.{
  Dl, Links, Chains, hash2, sift, sift_loop, stays, make_disappearing_links_disappear,
}
use gcutil.Links.Chains.{assoc, OnChain, IsTable, find, OnChain-other}
use gcutil.Links.Rehash.{hash2_lt, or_else, or_else-none}

assoc_nil : (k : ℕ) → assoc k [] ≡ none
unfolding assoc
assoc_nil k = refl

-- The entry that an answer for `k` stands for is kept.
abbrev pub kept_of : (Dl → Bool) → ℕ → Option ℕ → Option ℕ
kept_of keeps k none = none
kept_of keeps k (some o) = if keeps (record { dl_link = k; dl_obj = o }) then some o else none

abbrev pub gone_of : (Dl → Bool) → ℕ → Option ℕ → Option ℕ
gone_of keeps k none = none
gone_of keeps k (some o) = if keeps (record { dl_link = k; dl_obj = o }) then none else some o

module _ (keeps : Dl → Bool) (log : ℕ) where
  pub sift-assoc :
      (i : ℕ) (ds : List Dl) (k : ℕ)
      → OnChain log i ds
      → assoc k (sift keeps ds).0 ≡ kept_of keeps k (assoc k ds)
  unfolding sift assoc
  sift-assoc i [] k w = refl
  sift-assoc i (d ∷ ds) k (e, n, w) =
      let rest = sift-assoc i ds k w in
      elim (Bool-cases (d.dl_link == k)) [
        | inl same ↦
            let s = (==_iff d.dl_link k).0 same in
            let absent : assoc k ds ≡ none = subst (λ l. assoc l ds ≡ none) s n in
            let as_k = ap (λ l. keeps (record { dl_link = l; dl_obj = d.dl_obj })) s in
            elim (Bool-cases (keeps d)) [
              | inl stay ↦
                  rw (same, stay, sym as_k ∙ stay)
                    (ap (λ b. if b then some d.dl_obj else assoc k (sift keeps ds).0) same)
              | inr go ↦ rw (same, go, sym as_k ∙ go) (rest ∙ (rw absent refl))
            ]
        | inr other ↦ elim (Bool-cases (keeps d)) [
          | inl stay ↦
              rw (other, stay)
                (ap (λ b. if b then some d.dl_obj else assoc k (sift keeps ds).0) other ∙ rest)
          | inr go ↦ rw (other, go) rest
        ]
      ]

  pub sift-OnChain : (i : ℕ) (ds : List Dl) → OnChain log i ds → OnChain log i (sift keeps ds).0
  unfolding sift
  sift-OnChain i [] w = w
  sift-OnChain i (d ∷ ds) (e, n, w) = elim (Bool-cases (keeps d)) [
    | inl stay ↦ rw stay (e, sift-assoc i ds d.dl_link w ∙ (rw n refl), sift-OnChain i ds w)
    | inr go ↦ rw go (sift-OnChain i ds w)
  ]

  -- The chains from `i` on are sifted, and the others are as they were.
  sift_loop-sift :
      (rounds i : ℕ) (table : Chains) (gone : List Dl) (j : ℕ)
      → (sift_loop keeps rounds i table gone).0 j
        ≡ (if leb i j && ltb j (i + rounds) then (sift keeps (table j)).0 else table j)
  unfolding sift_loop
  sift_loop-sift zero i table gone j =
      let out : (leb i j && ltb j (i + 0)) ≡ false = ground arith in rw out refl
  sift_loop-sift (suc rounds) i table gone j =
      sift_loop-sift rounds (i + 1) (write table i (sift keeps (table i)).0)
        ((sift keeps (table i)).1 ++ gone) j
      ∙ (elim (Bool-cases (j == i)) [
        | inl same ↦
            let s = (==_iff j i).0 same in
            let past : (leb (i + 1) i && ltb i (i + 1 + rounds)) ≡ false = ground arith in
            let here : (leb i i && ltb i (i + suc rounds)) ≡ true = ground arith in
            rw (s, past, here) (write_self table i (sift keeps (table i)).0)
        | inr other ↦
            let ne : j ≢ i = ground arith in
            let tests : (leb (i + 1) j && ltb j (i + 1 + rounds))
                ≡ (leb i j && ltb j (i + suc rounds)) =
              ground arith in
            rw (write_ne table i (sift keeps (table i)).0 j ne, tests) refl
      ])

  sift-gone :
      (i : ℕ) (ds : List Dl) (k : ℕ)
      → OnChain log i ds
      → assoc k (sift keeps ds).1 ≡ gone_of keeps k (assoc k ds)
  unfolding sift assoc
  sift-gone i [] k w = refl
  sift-gone i (d ∷ ds) k (e, n, w) =
      let rest = sift-gone i ds k w in
      elim (Bool-cases (d.dl_link == k)) [
        | inl same ↦
            let s = (==_iff d.dl_link k).0 same in
            let absent : assoc k ds ≡ none = subst (λ l. assoc l ds ≡ none) s n in
            let as_k = ap (λ l. keeps (record { dl_link = l; dl_obj = d.dl_obj })) s in
            elim (Bool-cases (keeps d)) [
              | inl stay ↦ rw (same, stay, sym as_k ∙ stay) (rest ∙ (rw absent refl))
              | inr go ↦
                  rw (same, go, sym as_k ∙ go)
                    (ap (λ b. if b then some d.dl_obj else assoc k (sift keeps ds).1) same)
            ]
        | inr other ↦ elim (Bool-cases (keeps d)) [
          | inl stay ↦ rw (other, stay) rest
          | inr go ↦
              rw (other, go)
                (ap (λ b. if b then some d.dl_obj else assoc k (sift keeps ds).1) other ∙ rest)
        ]
      ]

  assoc-append : (xs ys : List Dl) (k : ℕ) → assoc k (xs ++ ys) ≡ or_else (assoc k xs) (assoc k ys)
  unfolding assoc
  assoc-append [] ys k = refl
  assoc-append (d ∷ xs) ys k = elim (Bool-cases (d.dl_link == k)) [
    | inl same ↦ rw same refl
    | inr other ↦ rw other (assoc-append xs ys k)
  ]

  write-OnChain :
      (table : Chains) (i j : ℕ)
      → ((j : ℕ) → OnChain log j (table j))
      → OnChain log j (write table i (sift keeps (table i)).0 j)
  write-OnChain table i j w = elim (Bool-cases (j == i)) [
    | inl same ↦
        let s = (==_iff j i).0 same in
        rw (s, write_self table i (sift keeps (table i)).0) (sift-OnChain i (table i) (w i))
    | inr other ↦
        let ne : j ≢ i = ground arith in rw (write_ne table i (sift keeps (table i)).0 j ne) (w j)
  ]

  sift_loop-OnChain :
      (rounds i : ℕ) (table : Chains) (gone : List Dl) (j : ℕ)
      → ((j : ℕ) → OnChain log j (table j))
      → OnChain log j ((sift_loop keeps rounds i table gone).0 j)
  unfolding sift_loop
  sift_loop-OnChain zero i table gone j w = w j
  sift_loop-OnChain (suc rounds) i table gone j w =
      sift_loop-OnChain rounds (i + 1) (write table i (sift keeps (table i)).0)
        ((sift keeps (table i)).1 ++ gone) j (λ j. write-OnChain table i j w)

  sift_loop-gone :
      (rounds i : ℕ) (table : Chains) (gone : List Dl) (k : ℕ)
      → ((j : ℕ) → OnChain log j (table j))
      → assoc k (sift_loop keeps rounds i table gone).1 ≡ (
          if leb i (hash2 k log) && ltb (hash2 k log) (i + rounds)
          then or_else (gone_of keeps k (assoc k (table (hash2 k log)))) (assoc k gone)
          else assoc k gone)
  unfolding sift_loop
  sift_loop-gone zero i table gone k w =
      let out : (leb i (hash2 k log) && ltb (hash2 k log) (i + 0)) ≡ false = ground arith in
      rw out refl
  sift_loop-gone (suc rounds) i table gone k w =
      let kept = (sift keeps (table i)).0 in
      let out = (sift keeps (table i)).1 in
      let h = hash2 k log in
      let gone_here = sift-gone i (table i) k (w i) in
      sift_loop-gone rounds (i + 1) (write table i kept) (out ++ gone) k
        (λ j. write-OnChain table i j w)
      ∙ (elim (Bool-cases (h == i)) [
        | inl same ↦
            let s = (==_iff h i).0 same in
            let past : (leb (i + 1) i && ltb i (i + 1 + rounds)) ≡ false = ground arith in
            let here : (leb i i && ltb i (i + suc rounds)) ≡ true = ground arith in
            rw (s, past, here, assoc-append out gone k, gone_here) refl
        | inr other ↦
            let ne : h ≢ i = ground arith in
            let tests : (leb (i + 1) h && ltb h (i + 1 + rounds))
                ≡ (leb i h && ltb h (i + suc rounds)) =
              ground arith in
            let absent = OnChain-other log i k (table i) (w i) ne in
            rw (write_ne table i kept h ne, tests, assoc-append out gone k, gone_here, absent) refl
      ])

-- The rest of the table is that of the entries that stay; the entries whose links are cleared are
-- all the others, or none if dangling links are removed.
abbrev pub Sifts : (Dl → Bool) → Bool → Links → Links × List Dl → Type 0
Sifts keeps is_remove_dangling t (t', cleared) =
    IsTable t'
    × ((k : ℕ) → find t' k ≡ kept_of keeps k (find t k))
    × ((k : ℕ)
        → assoc k cleared ≡ (if is_remove_dangling then none else gone_of keeps k (find t k)))

module _ (base : ℕ → Option ℕ) (is_marked : ℕ → Bool) (is_remove_dangling : Bool) where
  nothing_kept :
      (k : ℕ) → assoc k [] ≡ kept_of (stays base is_marked is_remove_dangling) k (assoc k [])
  unfolding assoc
  nothing_kept k = refl

  nothing_gone :
      (b : Bool) (k : ℕ)
      → none
        ≡ (if b then none else gone_of (stays base is_marked is_remove_dangling) k (assoc k []))
  unfolding assoc
  nothing_gone true k = refl
  nothing_gone false k = refl

  disappear_on :
      (head : Option Chains) (entries log : ℕ)
      → let t : Links = record { head = head; entries = entries; log_size = log } in
        IsTable t
        → Sifts
            (stays base is_marked is_remove_dangling)
            is_remove_dangling
            t
            (make_disappearing_links_disappear base is_marked is_remove_dangling t)
  unfolding make_disappearing_links_disappear find
  disappear_on none entries log w =
      (w, (λ k. nothing_kept k), λ k. assoc_nil k ∙ nothing_gone is_remove_dangling k)
  disappear_on (some head) entries log w =
      let keeps = stays base is_marked is_remove_dangling in
      (
        (λ j. sift_loop-OnChain keeps log (2 ^ log) 0 head [] j w),
        (λ k.
            let below : (leb 0 (hash2 k log) && ltb (hash2 k log) (0 + 2 ^ log)) ≡ true =
              ground (arith, hash2_lt k log) in
            rw (sift_loop-sift keeps log (2 ^ log) 0 head [] (hash2 k log), below)
              (sift-assoc keeps log (hash2 k log) (head (hash2 k log)) k (w (hash2 k log)))),
        (λ k. elim (Bool-cases is_remove_dangling) [
          | inl dangling ↦ rw dangling (assoc_nil k)
          | inr short ↦
              let below : (leb 0 (hash2 k log) && ltb (hash2 k log) (0 + 2 ^ log)) ≡ true =
                ground (arith, hash2_lt k log) in
              rw short (
                sift_loop-gone (stays base is_marked false) log (2 ^ log) 0 head [] k w
                ∙ (rw (below, assoc_nil k) (or_else-none _)))
        ]),
      )

  -- In a well-formed table, a link is registered afterwards exactly if it was and its object is marked, or, in the
  -- removal of dangling links, if it lies in no object or in a marked one. The links cleared are
  -- those that were registered and do not stay; the removal of dangling links clears none.
  pub make_disappearing_links_disappear-Sifts :
      (t : Links)
      → IsTable t
      → Sifts
          (stays base is_marked is_remove_dangling)
          is_remove_dangling
          t
          (make_disappearing_links_disappear base is_marked is_remove_dangling t)
  make_disappearing_links_disappear-Sifts t = disappear_on t.head t.entries t.log_size
