-- ===== src/Links.antt =====
-- Disappearing links (finalize.c): the chained hash tables `GC_dl_hashtbl` and `GC_ll_hashtbl` from
-- a link to the object whose end clears it. A chain is the list of its entries. An entry holds the
-- pointers that `GC_HIDE_POINTER` stores complemented. What the allocator and the client's
-- out-of-memory function give, and what the collections before a growth and within an allocation
-- leave, are arguments.
pub mod Chains
pub mod Update
pub mod Rehash
pub mod Grow
pub mod Register
pub mod Withdraw
pub mod Disappear
mod Tests
use gcutil.Prelude.{
  ℕ, zero, suc, ◌+◌, ◌-◌, ◌*◌, ◌/◌, ◌%◌, ◌^◌, Bool, true, false, ◌||◌, not, Option, none, some, leb,
  ltb, ◌==◌, if◌then◌else◌, write, bit_xor, word_add, word_sub, List, [], ◌∷◌, ◌++◌, Outcome, done,
  abort, ◌>>=◌,
}

-- `struct disappearing_link`
pub record Dl : Type 0 where
  pub dl_link : ℕ
  pub dl_obj : ℕ

abbrev pub Chains : Type 0
Chains = ℕ → List Dl

-- `struct dl_hashtbl_s`
pub record Links : Type 0 where
  pub head : Option Chains
  pub entries : ℕ
  pub log_size : ℕ

-- What a collection leaves of the entries of a table.
pub record Collected : Type 0 where
  pub left_chains : Chains
  pub left_entries : ℕ

-- `GC_SUCCESS`, `GC_DUPLICATE`, `GC_NO_MEMORY`, `GC_UNIMPLEMENTED` and `GC_NOT_FOUND`
pub data Code : Type 0 where
  success : Code
  duplicate : Code
  no_memory : Code
  unimplemented : Code
  not_found : Code

-- `HASH3` with the size `2 ^ log_size`, and `HASH2`
pub hash2 : ℕ → ℕ → ℕ
hash2 addr log_size = bit_xor (addr / 2 ^ 3) (addr / 2 ^ (3 + log_size)) % 2 ^ log_size

-- `GC_ON_GROW_LOG_SIZE_MIN`, which is `LOG_HBLKSIZE`.
abbrev pub on_grow_log_size_min : ℕ
on_grow_log_size_min = 12

-- The two loops of `GC_grow_table`, over a chain and over the rounds left.
pub move_chain : ℕ → List Dl → Chains → Chains
move_chain log_new_size [] new_table = new_table
move_chain log_new_size (p ∷ next) new_table =
    let new_hash = hash2 p.dl_link log_new_size in
    move_chain log_new_size next (write new_table new_hash (p ∷ new_table new_hash))

pub move_chains : ℕ → ℕ → ℕ → Chains → Chains → Chains
unfolding move_chain
move_chains log_new_size zero i table new_table = new_table
move_chains log_new_size (suc rounds) i table new_table =
    move_chains log_new_size rounds (i + 1) table (move_chain log_new_size (table i) new_table)

pub rehash : Chains → ℕ → ℕ → Links
unfolding move_chains
rehash table entries log_old_size = record {
  head = some (move_chains (log_old_size + 1) (2 ^ log_old_size) 0 table (λ i. []));
  entries = entries;
  log_size = log_old_size + 1;
}

-- `GC_grow_table` on a table that is there, after a collection if there is one.
pub grow_from : Chains → ℕ → ℕ → Bool → Links
unfolding rehash
grow_from table entries log_old_size allocated =
    if allocated
    then rehash table entries log_old_size
    else record { head = some table; entries = entries; log_size = log_old_size }

-- The allocation of the new table may collect, before it succeeds or fails.
pub grow_in : Option Collected → Chains → ℕ → ℕ → Bool → Links
unfolding grow_from
grow_in none table entries log_old_size allocated = grow_from table entries log_old_size allocated
grow_in (some c) table entries log_old_size allocated =
    grow_from c.left_chains c.left_entries log_old_size allocated

pub grow_after : Option Collected → Option Collected → Chains → ℕ → ℕ → Bool → Links
unfolding grow_in
grow_after none malloc table entries log_old_size allocated =
    grow_in malloc table entries log_old_size allocated
grow_after (some c) malloc table entries log_old_size allocated =
    if ltb c.left_entries (word_sub (2 ^ log_old_size) (c.left_entries / 4))
    then record { head = some c.left_chains; entries = c.left_entries; log_size = log_old_size }
    else grow_in malloc c.left_chains c.left_entries log_old_size allocated

-- `GC_grow_table`: `collection` is what a collection leaves, if the policy asks for one,
-- `malloc` what one within the allocation leaves, if it runs one, and `allocated` whether the new
-- table can be had. While there is no table, `log_size` is 0, below
-- the size from which on a collection is asked for, and a collection finds no entries.
pub grow_table : Option Collected → Option Collected → Bool → Links → Outcome Links
unfolding grow_after
grow_table collection malloc allocated t = elim t.head [
  | none ↦
      if allocated
      then done (record { head = some (λ i. []); entries = t.entries; log_size = t.log_size + 1 })
      else abort
  | some table ↦ done (
      grow_after (if leb on_grow_log_size_min t.log_size then collection else none) malloc table
        t.entries t.log_size allocated)
]

abbrev pub chain : Links → ℕ → List Dl
chain t index = elim t.head [ none ↦ [] | some table ↦ table index ]

pub set_chain : Links → ℕ → List Dl → Links
set_chain t index xs = record t {
  head = elim t.head [ none ↦ none | some table ↦ some (write table index xs) ];
}

-- The search of a chain for `link`: the chain with the object of its entry set, if it has one.
pub set_obj : ℕ → ℕ → List Dl → Option (List Dl)
set_obj link obj [] = none
set_obj link obj (curr_dl ∷ next) =
    let rest = set_obj link obj next in
    if curr_dl.dl_link == link
    then some (record curr_dl { dl_obj = obj } ∷ next)
    else elim rest [ none ↦ none | some xs ↦ some (curr_dl ∷ xs) ]

-- The entry for `link` and the chain without it, if it has one.
pub take_out : ℕ → List Dl → Option (Dl × List Dl)
take_out link [] = none
take_out link (curr_dl ∷ next) =
    let rest = take_out link next in
    if curr_dl.dl_link == link
    then some (curr_dl, next)
    else elim rest [ none ↦ none | some (d, xs) ↦ some (d, curr_dl ∷ xs) ]

-- The memory for a new entry: from the allocator, with what a collection within the allocation
-- leaves, if it runs one; or from the client's function, which runs without the lock, with the table
-- as it is when the lock is taken again; or not to be had, with the table as it is then.
pub data NewDl : Type 0 where
  allocated : Option Collected → NewDl
  from_oom_fn : Links → NewDl
  no_entry : Links → NewDl

-- A collection changes the chains, not the array of their heads nor its size.
pub after_collection : Option Collected → Links → Links
after_collection none t = t
after_collection (some c) t = record t {
  head = elim t.head [ none ↦ none | some table ↦ some c.left_chains ];
  entries = c.left_entries;
}

-- The new entry stands in front of its chain.
pub add_front : Links → ℕ → ℕ → Links
unfolding hash2 set_chain
add_front t link obj =
    let index = hash2 link t.log_size in
    record (set_chain t index (record { dl_link = link; dl_obj = obj } ∷ chain t index)) {
      entries = word_add t.entries 1;
    }

-- A table that is already known to have the link, or not, as the search of its chain says.
pub set_or : Links → ℕ → ℕ → Links × Code → Links × Code
unfolding set_obj set_chain
set_or t link obj other =
    let index = hash2 link t.log_size in
    elim (set_obj link obj (chain t index)) [
      | some xs ↦ (set_chain t index xs, duplicate)
      | none ↦ other
    ]

-- `GC_register_disappearing_link_inner` after the growth.
pub register_in : NewDl → Links → ℕ → ℕ → Links × Code
unfolding set_or add_front after_collection
register_in (allocated c) t link obj =
    set_or t link obj (add_front (after_collection c t) link obj, success)
register_in (from_oom_fn t') t link obj =
    set_or t link obj (set_or t' link obj (add_front t' link obj, success))
register_in (no_entry t') t link obj = set_or t link obj (t', no_memory)

-- Whether the table is to grow before an entry is added.
pub is_full : Links → Bool
is_full t = elim t.head [ none ↦ true | some table ↦ ltb (2 ^ t.log_size) t.entries ]

-- The table after the growth, if there is one.
pub ready_table : Option Collected → Option Collected → Bool → Links → Outcome Links
unfolding grow_table is_full
ready_table collection malloc table_allocated t =
    if is_full t then grow_table collection malloc table_allocated t else done t

-- `GC_register_disappearing_link_inner`, of `GC_find_leak` and what the growth and the entry get.
pub register_disappearing_link_inner :
    Bool
    → Option Collected
    → Option Collected
    → Bool
    → NewDl
    → Links
    → ℕ
    → ℕ
    → Outcome (Links × Code)
unfolding ready_table register_in
register_disappearing_link_inner find_leak collection malloc table_allocated new_dl t link obj =
    if find_leak
    then done (t, unimplemented)
    else ready_table collection malloc table_allocated t >>= λ t'.
        done (register_in new_dl t' link obj)

-- `GC_general_register_disappearing_link` and `GC_register_long_link`, on their tables. A link is
-- a non-null address that is aligned to 8 bytes.
pub general_register_disappearing_link :
    Bool
    → Option Collected
    → Option Collected
    → Bool
    → NewDl
    → Links
    → ℕ
    → ℕ
    → Outcome (Links × Code)
unfolding register_disappearing_link_inner
general_register_disappearing_link find_leak collection malloc table_allocated new_dl t link obj =
    if not (link % 8 == 0) || link == 0
    then abort
    else register_disappearing_link_inner find_leak collection malloc table_allocated new_dl t link
        obj

-- `GC_unregister_disappearing_link_inner`: the table and the entry, to be freed.
pub unregister_disappearing_link_inner : Links → ℕ → Links × Option Dl
unfolding take_out hash2 set_chain
unregister_disappearing_link_inner t link =
    let index = hash2 link t.log_size in
    elim (take_out link (chain t index)) [
      | none ↦ (t, none)
      | some (d, xs) ↦ (record (set_chain t index xs) { entries = word_sub t.entries 1 }, some d)
    ]

-- `GC_unregister_disappearing_link` and `GC_unregister_long_link`, on their tables.
pub unregister_disappearing_link : Links → ℕ → Links × ℕ
unfolding unregister_disappearing_link_inner
unregister_disappearing_link t link =
    if link % 8 == 0
    then (let (t', curr_dl) = unregister_disappearing_link_inner t link in
        (t', elim curr_dl [ none ↦ 0 | some d ↦ 1 ]))
    else (t, 0)

-- `GC_move_disappearing_link_inner` on a table that is there, or is not: then no link is found.
pub move_disappearing_link_inner : Links → ℕ → ℕ → Links × Code
unfolding take_out hash2 set_chain
move_disappearing_link_inner t link new_link =
    let curr_index = hash2 link t.log_size in
    let new_index = hash2 new_link t.log_size in
    elim (take_out link (chain t curr_index)) [
      | none ↦ (t, not_found)
      | some (d, xs) ↦
          if link == new_link then (t, success) else elim (take_out new_link (chain t new_index)) [
            | some e ↦ (t, duplicate)
            | none ↦
                let t' = set_chain t curr_index xs in
                let d' : Dl = record d { dl_link = new_link } in
                (set_chain t' new_index (d' ∷ chain t' new_index), success)
          ]
    ]

-- `GC_move_disappearing_link` and `GC_move_long_link`, on their tables.
pub move_disappearing_link : Links → ℕ → ℕ → Outcome (Links × Code)
unfolding move_disappearing_link_inner
move_disappearing_link t link new_link =
    if not (new_link % 8 == 0) || new_link == 0
    then abort
    else if not (link % 8 == 0)
    then done (t, not_found)
    else done (move_disappearing_link_inner t link new_link)

-- The inner loop of `GC_make_disappearing_links_disappear`: the entries that stay on a chain, and
-- those that are deleted.
pub sift : (Dl → Bool) → List Dl → List Dl × List Dl
sift keeps [] = ([], [])
sift keeps (curr_dl ∷ next) =
    let (kept, gone) = sift keeps next in
    if keeps curr_dl then (curr_dl ∷ kept, gone) else (kept, curr_dl ∷ gone)

-- The outer loop, by the chains left: the chains, and all that was deleted, the last chain first.
pub sift_loop : (Dl → Bool) → ℕ → ℕ → Chains → List Dl → Chains × List Dl
unfolding sift
sift_loop keeps zero i table gone = (table, gone)
sift_loop keeps (suc rounds) i table gone =
    let (kept, out) = sift keeps (table i) in
    sift_loop keeps rounds (i + 1) (write table i kept) (out ++ gone)

-- Whether an entry stays: the object is marked, or for `is_remove_dangling` the link lies in no
-- object (`GC_base` gives `NULL`) or in a marked one.
pub stays : (ℕ → Option ℕ) → (ℕ → Bool) → Bool → Dl → Bool
stays base is_marked true d = elim (base d.dl_link) [
  | none ↦ true
  | some real_link ↦ is_marked real_link
]
stays base is_marked false d = is_marked d.dl_obj

pub count : List Dl → ℕ
count [] = 0
count (d ∷ ds) = count ds + 1

-- `GC_make_disappearing_links_disappear`: the table, and the entries whose links are cleared.
pub make_disappearing_links_disappear : (ℕ → Option ℕ) → (ℕ → Bool) → Bool → Links → Links × List Dl
unfolding sift_loop stays count
make_disappearing_links_disappear base is_marked is_remove_dangling t = elim t.head [
  | none ↦ (t, [])
  | some head ↦
      let (table, gone) =
        sift_loop (stays base is_marked is_remove_dangling) (2 ^ t.log_size) 0 head [] in
      (
        record {
          head = some table;
          entries = word_sub t.entries (count gone);
          log_size = t.log_size;
        },
        if is_remove_dangling then [] else gone,
      )
]
