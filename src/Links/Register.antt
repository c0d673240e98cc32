-- ===== src/Links/Register.antt =====
-- Registering a link.
use gcutil.Prelude.{
  ℕ, ◌^◌, ltb, ◌≡◌, ◌≢◌, ◌⊎◌, refl, ap, ◌∙◌, subst, Bool, true, false, Option, none, some,
  if◌then◌else◌, ◌∷◌, Bool-cases, Option-cases, inl, inr, Returns, word_add, done, ◌>>=◌,
}
use gcutil.Links.{
  Links, Code, NewDl, Collected, success, duplicate, no_memory, allocated, from_oom_fn, no_entry,
  hash2, chain, set_obj, add_front, set_or, register_in, is_full, register_disappearing_link_inner,
  ready_table, after_collection, Chains, set_chain,
}
use gcutil.Links.Chains.{assoc, IsTable, find}
use gcutil.Links.Update.{SetsObj, Updates, set_obj-SetsObj, set_chain-Updates}
use gcutil.Links.Grow.{collected, SameLinks, grow_table-SameLinks}

-- The link is in `t` already: it gets the new object, and the count stays.
abbrev pub Replaces : Links → ℕ → ℕ → Links × Code → Type 0
Replaces t link obj (t', code) =
    (code ≡ duplicate)
    × (find t link ≢ none)
    × Updates t link (some obj) t'
    × (t'.entries ≡ t.entries)

-- The link is not in `t`: it is added, and counted.
abbrev pub Adds : Links → ℕ → ℕ → Links × Code → Type 0
Adds t link obj (t', code) =
    (code ≡ success)
    × (find t link ≡ none)
    × Updates t link (some obj) t'
    × (t'.entries ≡ word_add t.entries 1)

module _ (t : Links) (link obj : ℕ) (there : t.head ≢ none) (w : IsTable t) where
  set_or_lem :
      (other : Links × Code)
      → Replaces t link obj (set_or t link obj other)
        ⊎ ((find t link ≡ none) × (set_or t link obj other ≡ other))
  unfolding set_or find set_chain
  set_or_lem other =
      let index = hash2 link t.log_size in
      let sets = set_obj-SetsObj t.log_size index link obj (chain t index) (w index) in
      elim (Option-cases (set_obj link obj (chain t index))) [
        | inl o ↦ inr (
          subst (λ r. SetsObj t.log_size index link obj (chain t index) r) o sets,
          (rw (set_or, o) refl),
        )
        | inr (xs, o) ↦
            let (ne, on, a) =
              subst (λ r. SetsObj t.log_size index link obj (chain t index) r) o sets in
            inl
              (rw (set_or, o) (refl, ne, set_chain-Updates t link (some obj) xs there w on a, refl))
      ]

  add_front_lem : find t link ≡ none → Adds t link obj (add_front t link obj, success)
  unfolding add_front find assoc
  add_front_lem new =
      let index = hash2 link t.log_size in
      (
        refl,
        new,
        set_chain-Updates t link (some obj)
            (record { dl_link = link; dl_obj = obj } ∷ chain t index) there w (refl, new, w index)
            (λ k. refl),
        refl,
      )

-- A collection leaves a well-formed table in which no link is new.
abbrev pub Keeps : Links → Links → Type 0
Keeps t u = IsTable u × ((k : ℕ) → (find u k ≡ none) ⊎ (find u k ≡ find t k))

-- What is left while the memory for the entry is sought, where the table is used after that.
abbrev pub IsLeft : Links → NewDl → Type 0
IsLeft t (allocated c) = Keeps t (after_collection c t)
IsLeft t (from_oom_fn s) = IsTable s × (s.head ≢ none)
IsLeft t (no_entry s) = Unit {0}

-- The outcome of the registration in `t`, on the memory for the entry.
abbrev pub Ends : Links → ℕ → ℕ → NewDl → Links × Code → Type 0
Ends t link obj (allocated c) r =
    Replaces t link obj r ⊎ ((find t link ≡ none) × Adds (after_collection c t) link obj r)
Ends t link obj (from_oom_fn s) r =
    Replaces t link obj r ⊎ ((find t link ≡ none) × (Replaces s link obj r ⊎ Adds s link obj r))
Ends t link obj (no_entry s) r =
    Replaces t link obj r ⊎ ((find t link ≡ none) × (r ≡ (s, no_memory)))

after_collection-head :
    (c : Option Collected) (t : Links) → t.head ≢ none → (after_collection c t).head ≢ none
unfolding after_collection
after_collection-head none t there e = there e
after_collection-head (some c) t there e = elim (Option-cases t.head) [
  | inl absent ↦ there absent
  | inr (table, present) ↦
      let f =
        subst
          (λ h.
            elim h as (λ x. Option Chains) [ none ↦ none | some table ↦ some c.left_chains ] ≡ none)
          present e in
      cc
]

register_in-Ends :
    (t : Links) (link obj : ℕ) (new_dl : NewDl)
    → t.head ≢ none
    → IsTable t
    → IsLeft t new_dl
    → Ends t link obj new_dl (register_in new_dl t link obj)
unfolding register_in
register_in-Ends t link obj (allocated c) there w (u, keeps) =
    let s = after_collection c t in
    elim (set_or_lem t link obj there w (add_front s link obj, success)) [
      | inl r ↦ inl r
      | inr (f, e) ↦
          let new : find s link ≡ none = elim (keeps link) [ inl g ↦ g | inr g ↦ g ∙ f ] in
          inr (f, rw e (add_front_lem s link obj (after_collection-head c t there) u new))
    ]
register_in-Ends t link obj (from_oom_fn s) there w (ws, heads) =
    let again = set_or s link obj (add_front s link obj, success) in
    elim (set_or_lem t link obj there w again) [
      | inl r ↦ inl r
      | inr (f, e) ↦ inr (
        f,
        rw e (elim (set_or_lem s link obj heads ws (add_front s link obj, success)) [
          | inl r ↦ inl r
          | inr (g, d) ↦ rw d (inr (add_front_lem s link obj heads ws g))
        ]),
      )
    ]
register_in-Ends t link obj (no_entry s) there w left = set_or_lem t link obj there w (s, no_memory)

-- The table in which the link is looked up: as the collections of a growth leave it.
abbrev pub entered : Option Collected → Option Collected → Links → Links
entered collection malloc t = if is_full t then collected collection malloc t else t

not_full : (t : Links) → is_full t ≡ false → t.head ≢ none
unfolding is_full
not_full t roomy e =
    let full : true ≡ false =
      subst
        (λ h.
          (elim h as (λ x. Bool) [ none ↦ true | some table ↦ ltb (2 ^ t.log_size) t.entries ])
          ≡ false)
        e roomy in
    cc

ready_table-SameLinks :
    (collection malloc : Option Collected) (table_allocated : Bool) (t : Links)
    → IsTable t
    → IsTable (collected collection malloc t)
    → (t.head ≡ none → table_allocated ≡ true)
    → Returns
        (ready_table collection malloc table_allocated t)
        (SameLinks (entered collection malloc t))
unfolding ready_table
ready_table-SameLinks collection malloc table_allocated t w left first =
    elim (Bool-cases (is_full t)) [
      | inl full ↦ rw full (grow_table-SameLinks collection malloc table_allocated t left first)
      | inr roomy ↦ rw roomy (_, refl, (w, (λ k. refl), not_full t roomy, refl))
    ]

-- With leak finding off, a registration in a well-formed table, which can be allocated if it is not
-- there, and of which the collections of a growth leave a well-formed table, returns. A growth that
-- is due has then ended in a table with the links that those collections left. A link in that
-- table gets the new object, with `GC_DUPLICATE`. If it is not there, then: with memory from the
-- allocator, which may collect and then leaves a well-formed table without new links, the link is
-- added to the table as it is left, with `GC_SUCCESS`; with memory from the client's function, which
-- leaves a well-formed table that is there, the link is added to the table as this function leaves
-- it or, if it is in there, gets the new object; and without memory the result is the table as it
-- is after the attempts, with `GC_NO_MEMORY`. A link that is added makes the count of entries one
-- more, a link that gets a new object keeps it, and all other links of the table that is changed stay.
pub register_disappearing_link_inner-Ends :
    (collection malloc : Option Collected) (table_allocated : Bool) (new_dl : NewDl) (t : Links)
    (link obj : ℕ)
    → IsTable t
    → IsTable (collected collection malloc t)
    → (t.head ≡ none → table_allocated ≡ true)
    → ((s : Links) → ready_table collection malloc table_allocated t ≡ done s → IsLeft s new_dl)
    → Returns
        (register_disappearing_link_inner false collection malloc table_allocated new_dl t link obj)
        (λ r.
          (s : Links) × (ready_table collection malloc table_allocated t ≡ done s)
          × SameLinks (entered collection malloc t) s
          × Ends s link obj new_dl r)
unfolding register_disappearing_link_inner
register_disappearing_link_inner-Ends collection malloc table_allocated new_dl t link obj w left
      first keeps =
    let (s, e, same) = ready_table-SameLinks collection malloc table_allocated t w left first in
    let (ws, f, there, n) = same in
    (
      register_in new_dl s link obj,
      ap (λ o. o >>= λ t'. done (register_in new_dl t' link obj)) e,
      (s, e, same, register_in-Ends s link obj new_dl there ws (keeps s e)),
    )
