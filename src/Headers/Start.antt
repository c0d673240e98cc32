-- ===== src/Headers/Start.antt =====
-- From a block of a large block back to its first.
use gcutil.Prelude.{
  ℕ, zero, suc, ◌+◌, ◌-◌, ◌*◌, ◌^◌, ◌≤◌, ◌<◌, ◌≡◌, refl, ◌∙◌, Bool, true, false, ◌==◌, ==_iff,
  arith, Bool-cases, inl, inr, done,
}
use gcutil.FreeBlocks.{hblk_size}
use gcutil.Headers.{
  Slot, BlockTable, forward, header, start_loop, find_starting_hblk, install_counts,
}
use gcutil.Headers.Counts.{blocks_of, count_to, behind, install_counts-Installs}

-- The slots of a large block in use: its header, and the counts behind it.
abbrev pub IsLarge : (ℕ → Slot) → ℕ → ℕ → Type 0
IsLarge slots h sz =
    (slots h ≡ header) × ((x : ℕ) → behind h sz x ≡ true → slots x ≡ forward (count_to h x))

start_loop-header :
    (fuel : ℕ) (slots : ℕ → Slot) (x : ℕ)
    → slots x ≡ header
    → start_loop (suc fuel) slots x ≡ done x
unfolding start_loop
start_loop-header fuel slots x e = rw (start_loop, e) refl

start_loop-forward :
    (fuel : ℕ) (slots : ℕ → Slot) (x n : ℕ)
    → slots x ≡ forward n
    → start_loop (suc fuel) slots x ≡ start_loop fuel slots (x - n)
unfolding start_loop
start_loop-forward fuel slots x n e = rw (start_loop, e) refl

start_loop_lem :
    (fuel : ℕ) (slots : ℕ → Slot) (h sz x : ℕ)
    → IsLarge slots h sz
    → h ≤ x
    → x < h + blocks_of sz
    → x < h + fuel
    → start_loop fuel slots x ≡ done h
start_loop_lem zero slots h sz x large le l m = absurd (omega arith)
start_loop_lem (suc fuel) slots h sz x large le l m = elim (Bool-cases (x == h)) [
  | inl first ↦ let e = (==_iff x h).0 first in rw e (start_loop-header fuel slots h large.0)
  | inr behind_it ↦
      let b : behind h sz x ≡ true = ground arith in
      start_loop-forward fuel slots x (count_to h x) (large.1 x b)
      ∙ start_loop_lem fuel slots h sz (x - count_to h x) large (ground arith) (ground arith)
          (ground arith)
]

-- From any block of a large block the search ends at the first.
pub find_starting_hblk_lem :
    (t : BlockTable) (h sz x : ℕ)
    → IsLarge t.slots h sz
    → h ≤ x
    → x < h + blocks_of sz
    → find_starting_hblk t x ≡ done h
unfolding find_starting_hblk
find_starting_hblk_lem t h sz x large le l =
    start_loop_lem (x + 1) t.slots h sz x large le l (omega arith)

-- Once the counts of a large block with a header are installed, the search from any of its blocks
-- returns its first block, however long the block is.
pub find_starting_hblk-install_counts :
    (scratch : ℕ → Bool) (t : BlockTable) (h sz x : ℕ)
    → 0 < sz
    → h * hblk_size + sz ≤ 2 ^ 64
    → t.slots h ≡ header
    → (install_counts scratch t h sz).1 ≡ true
    → h ≤ x
    → x < h + blocks_of sz
    → find_starting_hblk (install_counts scratch t h sz).0 x ≡ done h
find_starting_hblk-install_counts scratch t h sz x pos small first ok le l =
    let slots = ((install_counts-Installs scratch t h sz pos small).0 ok).0 in
    let not_first : behind h sz h ≡ false = ground arith in
    find_starting_hblk_lem (install_counts scratch t h sz).0 h sz x
      (slots h ∙ (rw not_first first), λ y b. slots y ∙ (rw b refl)) le l
