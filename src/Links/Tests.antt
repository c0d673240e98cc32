-- ===== src/Links/Tests.antt =====
-- Runs of the tables of disappearing links, and the theorems at them.
use gcutil.Prelude.{
  List, ℕ, ◌≡◌, refl, true, false, Option, none, some, ◌==◌, if◌then◌else◌, arith, [], ◌∷◌,
  Bool-cases, inl, inr, Outcome, done, ◌>>=◌, Returns, write, subst, sym, ◌∙◌, done_injective,
}
use gcutil.Links.{
  Dl, stays, make_disappearing_links_disappear, Links, Code, success, duplicate, NewDl, Collected,
  ready_table, after_collection, allocated, hash2, is_full, grow_table,
  register_disappearing_link_inner, general_register_disappearing_link,
  unregister_disappearing_link_inner, unregister_disappearing_link, move_disappearing_link_inner,
  move_disappearing_link,
}
use gcutil.Links.Chains.{assoc, IsTable, find}
use gcutil.Links.Grow.{SameLinks, grow_table-SameLinks}
use gcutil.Links.Register.{Ends, Keeps, IsLeft, entered, register_disappearing_link_inner-Ends}
use gcutil.Links.Disappear.{Sifts, make_disappearing_links_disappear-Sifts}
use gcutil.Links.Withdraw.{
  Unregisters, Moves, unregister_disappearing_link_inner-Unregisters,
  move_disappearing_link_inner-Moves,
}

abbrev no_table : Links
no_table = record { head = none; entries = 0; log_size = 0 }

-- Two chains of one link each, and in the second chain a further link.
abbrev three : Links
three = record {
  head = some (λ i.
      if i == 0
      then record { dl_link = 64; dl_obj = 1000 } ∷ []
      else if i == 1
      then record { dl_link = 72; dl_obj = 2000 } ∷ record { dl_link = 136; dl_obj = 3000 } ∷ []
      else []);
  entries = 3;
  log_size = 1;
}

three-IsTable : IsTable three
unfolding hash2 assoc
three-IsTable i = elim (Bool-cases (i == 0)) [
  | inl e ↦ rw e (sym_zero i e, refl, tt)
  | inr e ↦ elim (Bool-cases (i == 1)) [
    | inl f ↦ rw (e, f) (ground arith, refl, (ground arith, refl, tt))
    | inr f ↦ rw (e, f) tt
  ]
]
  where
    sym_zero : (i : ℕ) → (i == 0) ≡ true → 0 ≡ i
    sym_zero i e = ground arith

-- What a collection leaves of `three`: the further link is gone.
abbrev without_136 : Collected
without_136 = record {
  left_chains = λ i.
      if i == 0
      then record { dl_link = 64; dl_obj = 1000 } ∷ []
      else if i == 1
      then record { dl_link = 72; dl_obj = 2000 } ∷ []
      else [];
  left_entries = 2;
}

abbrev two : Links
two = record { head = some without_136.left_chains; entries = 2; log_size = 1 }

two-IsTable : IsTable two
unfolding hash2 assoc
two-IsTable i = elim (Bool-cases (i == 0)) [
  | inl e ↦ rw e (ground arith, refl, tt)
  | inr e ↦ elim (Bool-cases (i == 1)) [
    | inl f ↦ rw (e, f) (ground arith, refl, tt)
    | inr f ↦ rw (e, f) tt
  ]
]

-- The memory for an entry comes with a collection after which one of the links of `two` is gone.
abbrev only_64 : Collected
only_64 = record {
  left_chains = λ i. if i == 0 then record { dl_link = 64; dl_obj = 1000 } ∷ [] else [];
  left_entries = 1;
}

abbrev new_entry : NewDl
new_entry = allocated (some only_64)

abbrev one : Links
one = record { head = some only_64.left_chains; entries = 1; log_size = 1 }

one-IsTable : IsTable one
unfolding hash2 assoc
one-IsTable i = elim (Bool-cases (i == 0)) [
  | inl e ↦ rw e (ground arith, refl, tt)
  | inr e ↦ rw e tt
]

two-Keeps : Keeps two one
unfolding find assoc
two-Keeps = (one-IsTable, λ k. ground arith)

two_stays : ready_table none none true two ≡ done two
unfolding ready_table is_full
two_stays = refl

two-IsLeft : (s : Links) → ready_table none none true two ≡ done s → IsLeft s new_entry
unfolding after_collection
two-IsLeft s e = subst (λ u. IsLeft u new_entry) (done_injective (sym two_stays ∙ e)) two-Keeps

runs :
    ◌≡◌ {A = Outcome (Code × Option ℕ) × ℕ × Outcome (Code × Option ℕ × Option ℕ)}
      (
        general_register_disappearing_link false none none true (allocated none) no_table 64 1000
            >>= (λ r. done (r.1, find r.0 64)),
        (unregister_disappearing_link three 136).1,
        move_disappearing_link three 136 64 >>= (λ r. done (r.1, find r.0 136, find r.0 64)),
      )
      (done (success, some 1000), 1, done (duplicate, some 3000, some 1000))
unfolding general_register_disappearing_link unregister_disappearing_link move_disappearing_link
    find write assoc
runs = refl

grow_table-SameLinks_example :
    Returns (grow_table none (some without_136) true three) (SameLinks two)
grow_table-SameLinks_example =
    grow_table-SameLinks none (some without_136) true three two-IsTable (λ e. refl)

register_disappearing_link_inner-Ends_example :
    Returns (register_disappearing_link_inner false none none true new_entry two 200 5000) (λ r.
      (s : Links) × (ready_table none none true two ≡ done s)
      × SameLinks (entered none none two) s
      × Ends s 200 5000 new_entry r)
register_disappearing_link_inner-Ends_example =
    register_disappearing_link_inner-Ends none none true new_entry two 200 5000 two-IsTable
      two-IsTable (λ e. refl) two-IsLeft

unregister_disappearing_link_inner-Unregisters_example :
    Unregisters three 136 (unregister_disappearing_link_inner three 136)
unregister_disappearing_link_inner-Unregisters_example =
    unregister_disappearing_link_inner-Unregisters three 136 (λ e. cc) three-IsTable

move_disappearing_link_inner-Moves_example :
    Moves three 136 144 (move_disappearing_link_inner three 136 144)
move_disappearing_link_inner-Moves_example =
    move_disappearing_link_inner-Moves three 136 144 (λ e. cc) three-IsTable

make_disappearing_links_disappear-Sifts_example :
    Sifts
      (stays (λ p. none) (λ p. p == 2000) false)
      false
      three
      (make_disappearing_links_disappear (λ p. none) (λ p. p == 2000) false three)
make_disappearing_links_disappear-Sifts_example =
    make_disappearing_links_disappear-Sifts (λ p. none) (λ p. p == 2000) false three three-IsTable

-- Only the object of the link 72 is marked.
clears :
    ◌≡◌ {A = Option ℕ × Option ℕ × List Dl}
      (let (t, gone) = make_disappearing_links_disappear (λ p. none) (λ p. p == 2000) false three in
        (find t 72, find t 136, gone))
      (
        some 2000,
        none,
        record { dl_link = 136; dl_obj = 3000 } ∷ record { dl_link = 64; dl_obj = 1000 } ∷ [],
      )
unfolding make_disappearing_links_disappear find write assoc hash2
clears = refl
