-- ===== src/Links/Grow.antt =====
-- `GC_grow_table` keeps what is registered.
use gcutil.Prelude.{
  ℕ, ◌/◌, word_sub, ◌≡◌, ◌≢◌, ◌^◌, refl, Bool, true, false, leb, ltb, Option, none, some,
  if◌then◌else◌, Bool-cases, inl, inr, Returns, if_true, if_false, subst,
}
use gcutil.Links.{
  Links, Chains, Collected, rehash, grow_from, grow_in, grow_after, grow_table,
  on_grow_log_size_min,
}
use gcutil.Links.Chains.{assoc, IsTable, find}
use gcutil.Links.Rehash.{grow_from-find, grow_from-IsTable, grow_from-head}

-- The table as a collection leaves it, if one runs.
abbrev pub left_by : Option Collected → Chains → ℕ → ℕ → Links
left_by none table entries log_size = record {
  head = some table;
  entries = entries;
  log_size = log_size;
}
left_by (some c) table entries log_size = record {
  head = some c.left_chains;
  entries = c.left_entries;
  log_size = log_size;
}

-- The table as the last of the collections leaves it: the one that the policy asks for, and, if a
-- fourth of the places is not free after it, the one within the allocation.
abbrev pub left_by_both : Option Collected → Option Collected → Chains → ℕ → ℕ → Links
left_by_both none malloc table entries log_size = left_by malloc table entries log_size
left_by_both (some c) malloc table entries log_size =
    if ltb c.left_entries (word_sub (2 ^ log_size) (c.left_entries / 4))
    then left_by (some c) table entries log_size
    else left_by malloc c.left_chains c.left_entries log_size

abbrev pub collected : Option Collected → Option Collected → Links → Links
collected collection malloc t = elim t.head [
  | none ↦ t
  | some table ↦
      left_by_both (if leb on_grow_log_size_min t.log_size then collection else none) malloc table
        t.entries t.log_size
]

-- The growth ends in a table that is there, in which the same is registered, with the same count.
abbrev pub SameLinks : Links → Links → Type 0
SameLinks s t =
    IsTable t × ((k : ℕ) → find t k ≡ find s k) × (t.head ≢ none) × (t.entries ≡ s.entries)

grow_from-entries :
    (table : Chains) (entries log : ℕ) (allocated : Bool)
    → (grow_from table entries log allocated).entries ≡ entries
unfolding grow_from rehash
grow_from-entries table entries log true = refl
grow_from-entries table entries log false = refl

grow_in-SameLinks :
    (malloc : Option Collected) (table : Chains) (entries log : ℕ) (allocated : Bool)
    → IsTable (left_by malloc table entries log)
    → SameLinks (left_by malloc table entries log) (grow_in malloc table entries log allocated)
unfolding grow_in find
grow_in-SameLinks none table entries log allocated w = (
  grow_from-IsTable table entries log w allocated,
  grow_from-find table entries log w allocated,
  grow_from-head table entries log w allocated,
  grow_from-entries table entries log allocated,
)
grow_in-SameLinks (some c) table entries log allocated w = (
  grow_from-IsTable c.left_chains c.left_entries log w allocated,
  grow_from-find c.left_chains c.left_entries log w allocated,
  grow_from-head c.left_chains c.left_entries log w allocated,
  grow_from-entries c.left_chains c.left_entries log allocated,
)

grow_after-SameLinks :
    (c malloc : Option Collected) (table : Chains) (entries log : ℕ) (allocated : Bool)
    → IsTable (left_by_both c malloc table entries log)
    → SameLinks
        (left_by_both c malloc table entries log)
        (grow_after c malloc table entries log allocated)
unfolding grow_after
grow_after-SameLinks none malloc table entries log allocated w =
    grow_in-SameLinks malloc table entries log allocated w
grow_after-SameLinks (some c) malloc table entries log allocated w =
    elim (Bool-cases (ltb c.left_entries (word_sub (2 ^ log) (c.left_entries / 4)))) [
      | inl roomy ↦ rw roomy (subst IsTable (if_true _ _ roomy) w, (λ k. refl), (λ x. cc), refl)
      | inr full ↦ rw full (
          grow_in-SameLinks malloc c.left_chains c.left_entries log allocated
            (subst IsTable (if_false _ _ full) w))
    ]

grow_head-SameLinks :
    (collection malloc : Option Collected) (allocated : Bool) (head : Option Chains)
    (entries log : ℕ)
    → let t : Links = record { head = head; entries = entries; log_size = log } in
      IsTable (collected collection malloc t)
      → (head ≡ none → allocated ≡ true)
      → Returns
          (grow_table collection malloc allocated t)
          (SameLinks (collected collection malloc t))
unfolding grow_table find assoc
grow_head-SameLinks collection malloc allocated none entries log w first =
    let e = first refl in rw e (_, refl, ((λ i. tt), (λ k. refl), (λ x. cc), refl))
grow_head-SameLinks collection malloc allocated (some table) entries log w first =
    let c = if leb on_grow_log_size_min log then collection else none in
    (_, refl, grow_after-SameLinks c malloc table entries log allocated w)

-- If the last of the collections that run, before the growth or within its allocation, leaves a
-- well-formed table (or none runs and the table is well-formed), then the growth of a table returns
-- if the table is there or the memory for it is, in a well-formed table that is there, and keeps
-- all that is registered in the table as that collection has left it, and the count of its entries.
pub grow_table-SameLinks :
    (collection malloc : Option Collected) (allocated : Bool) (t : Links)
    → IsTable (collected collection malloc t)
    → (t.head ≡ none → allocated ≡ true)
    → Returns (grow_table collection malloc allocated t) (SameLinks (collected collection malloc t))
grow_table-SameLinks collection malloc allocated t =
    grow_head-SameLinks collection malloc allocated t.head t.entries t.log_size
