-- ===== src/Links/Withdraw.antt =====
-- Unregistering a link, and moving a registration to another link.
use gcutil.Prelude.{
  ℕ, word_sub, ◌≡◌, ◌≢◌, ◌⊎◌, refl, sym, ◌∙◌, subst, true, false, Option, none, some, ◌==◌, ==_iff,
  arith, List, ◌∷◌, Bool-cases, Option-cases, inl, inr,
}
use gcutil.Links.{
  Dl, Links, Code, success, duplicate, not_found, hash2, chain, take_out, set_chain,
  unregister_disappearing_link_inner, move_disappearing_link_inner,
}
use gcutil.Links.Chains.{assoc, IsTable, find}
use gcutil.Links.Update.{TakesOut, Updates, take_out-TakesOut, set_chain-Updates}

some_not_none {ℓ} : {A : Type ℓ} {a : A} → some a ≡ none → ⊥
some_not_none e = cc

equal : (a : ℕ) → (a == a) ≡ true
equal a = ground arith

not_equal : (a b : ℕ) → a ≢ b → (a == b) ≡ false
not_equal a b ne = ground arith

-- Nothing is registered for the link, and the table is as it was; or the entry is taken out.
abbrev pub Unregisters : Links → ℕ → Links × Option Dl → Type 0
Unregisters t link (t', none) = (find t link ≡ none) × (t' ≡ t)
Unregisters t link (t', some d) =
    (d.dl_link ≡ link) × (find t link ≡ some d.dl_obj) × Updates t link none t'

module _ (t : Links) (link : ℕ) (there : t.head ≢ none) (w : IsTable t) where
  take_out_cases :
      let index = hash2 link t.log_size in
      ((take_out link (chain t index) ≡ none) × (find t link ≡ none))
      ⊎ ((d : Dl) × (xs : List Dl) × (take_out link (chain t index) ≡ some (d, xs))
          × (d.dl_link ≡ link)
          × (find t link ≡ some d.dl_obj)
          × Updates t link none (set_chain t index xs))
  unfolding find
  take_out_cases =
      let index = hash2 link t.log_size in
      let takes = take_out-TakesOut t.log_size index link (chain t index) (w index) in
      elim (Option-cases (take_out link (chain t index))) [
        | inl o ↦ inl (o, subst (λ r. TakesOut t.log_size index link (chain t index) r) o takes)
        | inr ((d, xs), o) ↦
            let (key, obj, on, a) =
              subst (λ r. TakesOut t.log_size index link (chain t index) r) o takes in
            inr (d, xs, o, key, obj, set_chain-Updates t link none xs there w on a)
      ]

  no_entry_result :
      take_out link (chain t (hash2 link t.log_size)) ≡ none
      → unregister_disappearing_link_inner t link ≡ (t, none)
  unfolding unregister_disappearing_link_inner
  no_entry_result o = rw (unregister_disappearing_link_inner, o) refl

  entry_result :
      (d : Dl) (xs : List Dl)
      → take_out link (chain t (hash2 link t.log_size)) ≡ some (d, xs)
      → unregister_disappearing_link_inner t link ≡ (
        record (set_chain t (hash2 link t.log_size) xs) { entries = word_sub t.entries 1 },
        some d,
      )
  unfolding unregister_disappearing_link_inner
  entry_result d xs o = rw (unregister_disappearing_link_inner, o) refl

  -- In a well-formed table that is there, unregistering gives the entry of the link and takes it out, and
  -- leaves the others; without such an entry it changes nothing.
  pub unregister_disappearing_link_inner-Unregisters :
      Unregisters t link (unregister_disappearing_link_inner t link)
  unfolding find
  unregister_disappearing_link_inner-Unregisters = elim take_out_cases [
    | inl (o, f) ↦ subst (λ r. Unregisters t link r) (sym (no_entry_result o)) (f, refl)
    | inr (d, xs, o, key, obj, u) ↦
        subst (λ r. Unregisters t link r) (sym (entry_result d xs o)) (key, obj, u)
  ]

-- What a move of `link` to `new_link` may end in.
abbrev pub Moves : Links → ℕ → ℕ → Links × Code → Type 0
Moves t link new_link (t', code) =
    ((code ≡ not_found) × (t' ≡ t) × (find t link ≡ none))
    ⊎ ((code ≡ success) × (t' ≡ t) × (link ≡ new_link) × (find t link ≢ none))
    ⊎ ((code ≡ duplicate)
        × (t' ≡ t)
        × (link ≢ new_link)
        × (find t link ≢ none)
        × (find t new_link ≢ none))
    ⊎ ((code ≡ success)
        × (link ≢ new_link)
        × (find t link ≢ none)
        × (find t new_link ≡ none)
        × IsTable t'
        × (find t' new_link ≡ find t link)
        × (find t' link ≡ none)
        × ((k : ℕ) → k ≢ link → k ≢ new_link → find t' k ≡ find t k))

module _ (t : Links) (link new_link : ℕ) (there : t.head ≢ none) (w : IsTable t) where
  moved_entry :
      (d : Dl) (xs : List Dl)
      → link ≢ new_link
      → find t new_link ≡ none
      → Updates t link none (set_chain t (hash2 link t.log_size) xs)
      → let t' = set_chain t (hash2 link t.log_size) xs in
        Updates t' new_link (some d.dl_obj) (
          set_chain t'
            (hash2 new_link t.log_size)
            (record d { dl_link = new_link } ∷ chain t' (hash2 new_link t.log_size)))
  unfolding find set_chain assoc
  moved_entry d xs ne new (w', f, there') =
      let t' = set_chain t (hash2 link t.log_size) xs in
      let index = hash2 new_link t.log_size in
      let fresh : assoc new_link (chain t' index) ≡ none =
        f new_link ∙ (let e : (link == new_link) ≡ false = ground arith in rw e new) in
      set_chain-Updates t' new_link (some d.dl_obj)
        (record d { dl_link = new_link } ∷ chain t' index) there' w' (refl, fresh, w' index)
        (λ k. refl)

  abbrev after_move : Dl → List Dl → Links
  after_move d xs =
      let t' = set_chain t (hash2 link t.log_size) xs in
      let index = hash2 new_link t.log_size in
      set_chain t' index (record d { dl_link = new_link } ∷ chain t' index)

  -- The run on each of the branches.
  module _ (o : take_out link (chain t (hash2 link t.log_size)) ≡ none) where
    move_absent : move_disappearing_link_inner t link new_link ≡ (t, not_found)
    unfolding move_disappearing_link_inner
    move_absent = rw (move_disappearing_link_inner, o) refl

  module _ (d : Dl) (xs : List Dl)
      (o : take_out link (chain t (hash2 link t.log_size)) ≡ some (d, xs)) where
    move_same :
        (link == new_link) ≡ true → move_disappearing_link_inner t link new_link ≡ (t, success)
    unfolding move_disappearing_link_inner
    move_same e = rw (move_disappearing_link_inner, o, e) refl

    module _ (e : (link == new_link) ≡ false) where
      move_taken :
          (f : Dl × List Dl)
          → take_out new_link (chain t (hash2 new_link t.log_size)) ≡ some f
          → move_disappearing_link_inner t link new_link ≡ (t, duplicate)
      unfolding move_disappearing_link_inner
      move_taken f p = rw (move_disappearing_link_inner, o, e, p) refl

      move_free :
          take_out new_link (chain t (hash2 new_link t.log_size)) ≡ none
          → move_disappearing_link_inner t link new_link ≡ (after_move d xs, success)
      unfolding move_disappearing_link_inner
      move_free p = rw (move_disappearing_link_inner, o, e, p) refl

  move_found :
      (d : Dl) (xs : List Dl)
      → take_out link (chain t (hash2 link t.log_size)) ≡ some (d, xs)
      → find t link ≡ some d.dl_obj
      → Updates t link none (set_chain t (hash2 link t.log_size) xs)
      → link ≢ new_link
      → Moves t link new_link (move_disappearing_link_inner t link new_link)
  move_found d xs o obj u ne =
      let e : (link == new_link) ≡ false = ground arith in
      let present : find t link ≢ none = λ z. some_not_none (sym obj ∙ z) in
      elim (take_out_cases t new_link there w) [
        | inl (p, f) ↦
            let (w', g, there') = moved_entry d xs ne f u in
            let (w₁, h, there₁) = u in
            subst (λ r. Moves t link new_link r) (sym (move_free d xs o e p))
              (inr (
                inr (
                  inr (
                    refl,
                    ne,
                    present,
                    f,
                    w',
                    g new_link ∙ (rw (equal new_link) (sym obj)),
                    g link
                        ∙ (rw (not_equal new_link link (λ z. ne (sym z)))
                            (h link ∙ (rw (equal link) refl))),
                    λ k n m.
                        g k
                        ∙ (rw (not_equal new_link k (λ z. m (sym z)))
                            (h k ∙ (rw (not_equal link k (λ z. n (sym z))) refl))),
                  ))))
        | inr (d₂, ys, p, key, obj₂, u₂) ↦
            subst (λ r. Moves t link new_link r) (sym (move_taken d xs o e (d₂, ys) p))
              (inr (inr (inl (refl, refl, ne, present, λ z. some_not_none (sym obj₂ ∙ z)))))
      ]

  -- A move in a well-formed table that is there finds no entry of the link, or does nothing as the links are
  -- the same, or finds the new link registered and does nothing, or registers the object of the
  -- link for the new link instead, and leaves all other links.
  pub move_disappearing_link_inner-Moves :
      Moves t link new_link (move_disappearing_link_inner t link new_link)
  move_disappearing_link_inner-Moves = elim (take_out_cases t link there w) [
    | inl (o, f) ↦ subst (λ r. Moves t link new_link r) (sym (move_absent o)) (inl (refl, refl, f))
    | inr (d, xs, o, key, obj, u) ↦ elim (Bool-cases (link == new_link)) [
      | inl e ↦
          subst (λ r. Moves t link new_link r) (sym (move_same d xs o e))
            (inr (inl (refl, refl, (==_iff link new_link).0 e, λ z. some_not_none (sym obj ∙ z))))
      | inr e ↦ move_found d xs o obj u (ground arith)
    ]
  ]
