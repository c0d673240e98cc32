-- ===== src/Links/Chains.antt =====
-- What a chain says of a link, and what its well-formedness is.
use gcutil.Prelude.{
  ℕ, ◌≡◌, ◌≢◌, refl, sym, ap, ◌∙◌, Option, none, some, ◌==◌, if◌then◌else◌, arith, List, [], ◌∷◌,
  Bool-cases, inl, inr,
}
use gcutil.Links.{Dl, Links, hash2, chain}

-- The object registered for `link` on a chain.
unfoldable pub assoc : ℕ → List Dl → Option ℕ
assoc link [] = none
assoc link (d ∷ ds) = if d.dl_link == link then some d.dl_obj else assoc link ds

-- The chain has the links of one index only, and none twice.
abbrev pub OnChain : ℕ → ℕ → List Dl → Type 0
OnChain log_size index [] = Unit {0}
OnChain log_size index (d ∷ ds) =
    (hash2 d.dl_link log_size ≡ index) × (assoc d.dl_link ds ≡ none) × OnChain log_size index ds

-- A well-formed table: each chain has the links of its own index, and none twice.
abbrev pub IsTable : Links → Type 0
IsTable t = (i : ℕ) → OnChain t.log_size i (chain t i)

-- The object registered for `link` in the table.
unfoldable pub find : Links → ℕ → Option ℕ
find t link = assoc link (chain t (hash2 link t.log_size))

-- A link of another index is not on the chain.
pub OnChain-other :
    (log_size index link : ℕ) (ds : List Dl)
    → OnChain log_size index ds
    → hash2 link log_size ≢ index
    → assoc link ds ≡ none
unfolding assoc
OnChain-other log_size index link [] w ne = refl
OnChain-other log_size index link (d ∷ ds) (e, n, w) ne = elim (Bool-cases (d.dl_link == link)) [
  | inl same ↦
      let s : d.dl_link ≡ link = ground arith in
      absurd (ne (sym (ap (λ k. hash2 k log_size) s) ∙ e))
  | inr other ↦ rw other (OnChain-other log_size index link ds w ne)
]
