-- ===== src/Headers/Install.antt =====
-- Headers and counts are installed where there is memory for them.
use gcutil.Prelude.{
  ℕ, zero, suc, ◌+◌, ◌-◌, ◌*◌, ◌/◌, ◌^◌, ◌<◌, ◌≤◌, ◌≡◌, refl, Bool, true, false, ltb, ◌==◌,
  if◌then◌else◌, arith, Bool-cases, inl, inr, List, [], ◌∷◌, write,
}
use gcutil.FreeBlocks.{hblk_size}
use gcutil.Headers.{
  BlockTable, header, forward, bottom_sz, has_key, insert_key, get_index, install_header,
  index_loop, starts_below, install_counts,
}
use gcutil.Headers.Counts.{
  behind, count_to, has_key-insert_key, get_index-Indexes, install_counts-Installs,
  forward_loop-keys,
}
use gcutil.Headers.Walk.{IsAscending}

-- The table with a header for `m` and perhaps more bottom indices.
pub record Installed (t t' : BlockTable) (m : ℕ) : Type 0 where
  pub slot : (x : ℕ) → t'.slots x ≡ (if x == m then header else t.slots x)
  pub indexed : has_key (m / bottom_sz) t'.keys ≡ true
  pub kept : (k : ℕ) → has_key k t.keys ≡ true → has_key k t'.keys ≡ true
  pub ascending : IsAscending t'.keys

-- The table with the counts of a block of `sz` bytes at `h` and perhaps more bottom indices.
pub record Counted (t t' : BlockTable) (h sz : ℕ) : Type 0 where
  pub slot : (x : ℕ) → t'.slots x ≡ (if behind h sz x then forward (count_to h x) else t.slots x)
  pub kept : (k : ℕ) → has_key k t.keys ≡ true → has_key k t'.keys ≡ true
  pub ascending : IsAscending t'.keys

insert_key-IsAscending :
    (hi : ℕ) (ks : List ℕ) → has_key hi ks ≡ false → IsAscending ks → IsAscending (insert_key hi ks)
unfolding insert_key
insert_key-IsAscending hi [] new a = (λ x i. cc, tt)
insert_key-IsAscending hi (k ∷ ks) new (low, rest) = elim (Bool-cases (ltb k hi)) [
  | inl less ↦
      let new' : has_key hi ks ≡ false = ground arith in
      rw less (
        λ x i. ground (arith, has_key-insert_key x hi ks, low x),
        insert_key-IsAscending hi ks new' rest,
      )
  | inr more ↦ rw more (λ x i. ground (arith, low x), (low, rest))
]

module _ (scratch : ℕ → Bool) (plenty : (k : ℕ) → scratch k ≡ true) where
  get_index-IsAscending :
      (t : BlockTable) (b : ℕ)
      → IsAscending t.keys
      → ((get_index scratch t b).1 ≡ true) × IsAscending (get_index scratch t b).0.keys
  unfolding get_index
  get_index-IsAscending t b a = elim (Bool-cases (has_key (b / bottom_sz) t.keys)) [
    | inl there ↦ rw there (refl, a)
    | inr new ↦
        let p = plenty (b / bottom_sz) in
        rw (new, p) (refl, insert_key-IsAscending (b / bottom_sz) t.keys new a)
  ]

  index_loop-IsAscending :
      (rounds : ℕ) (t : BlockTable) (h : ℕ)
      → IsAscending t.keys
      → ((index_loop scratch rounds t h).1 ≡ true)
        × IsAscending (index_loop scratch rounds t h).0.keys
  unfolding index_loop
  index_loop-IsAscending zero t h a = (refl, a)
  index_loop-IsAscending (suc rounds) t h a =
      let (ok, a') = get_index-IsAscending t h a in
      elim (Bool-cases (ltb (2 ^ 64 - 1 - bottom_sz * hblk_size) (h * hblk_size))) [
        | inl past ↦ rw (ok, past) (refl, a')
        | inr within ↦
            rw (ok, within)
              (index_loop-IsAscending rounds (get_index scratch t h).0 (h + bottom_sz) a')
      ]

  pub install_header-Installed :
      (t : BlockTable) (h : ℕ)
      → IsAscending t.keys
      → ((install_header scratch true t h).1 ≡ true)
        × Installed t (install_header scratch true t h).0 h
  unfolding install_header write
  install_header-Installed t h a =
      let (ok, a') = get_index-IsAscending t h a in
      let ((same, kept), found) = get_index-Indexes scratch t h in
      rw ok
        (refl, record { slot = λ x. rw same refl; indexed = found ok; kept = kept; ascending = a' })

  install_counts-IsAscending :
      (t : BlockTable) (h sz : ℕ)
      → IsAscending t.keys
      → ((install_counts scratch t h sz).1 ≡ true)
        × IsAscending (install_counts scratch t h sz).0.keys
  unfolding install_counts
  install_counts-IsAscending t h sz a =
      let (ok₁, a₁) = index_loop-IsAscending (starts_below sz bottom_sz) t h a in
      let t₁ = (index_loop scratch (starts_below sz bottom_sz) t h).0 in
      let (ok₂, a₂) = get_index-IsAscending t₁ ((h * hblk_size + sz - 1) / hblk_size) a₁ in
      rw (ok₁, ok₂) (refl, rw (forward_loop-keys _ _ _ _) a₂)

  pub install_counts-Counted :
      (t : BlockTable) (h sz : ℕ)
      → 0 < sz
      → h * hblk_size + sz ≤ 2 ^ 64
      → IsAscending t.keys
      → ((install_counts scratch t h sz).1 ≡ true)
        × Counted t (install_counts scratch t h sz).0 h sz
  install_counts-Counted t h sz pos small a =
      let (good, bad, kept) = install_counts-Installs scratch t h sz pos small in
      let (ok, a') = install_counts-IsAscending t h sz a in
      (ok, record { slot = (good ok).0; kept = kept; ascending = a' })
