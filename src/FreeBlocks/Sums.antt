-- ===== src/FreeBlocks/Sums.antt =====
-- The sum of the free lists, `GC_compute_large_free_bytes`.
use gcutil.Prelude.{
  ℕ, zero, suc, ◌+◌, ◌%◌, ◌^◌, ◌<◌, ◌≡◌, ap, ◌∙◌, true, false, ◌==◌, if_true, if_false, arith, List,
  [], ◌∷◌, done, ◌>>=◌, word_add,
}
use gcutil.FreeBlocks.{Hdr, Heap, n_hblk_fls, add_list, add_lists, compute_large_free_bytes}
use gcutil.FreeBlocks.Lists.{total}
use gcutil.FreeBlocks.Links.{Links}
use gcutil.FreeBlocks.Moves.{Holds, size_of}

abbrev pub length : List ℕ → ℕ
length [] = 0
length (x ∷ xs) = suc (length xs)

-- `GC_free_bytes[i]` and the entries behind it, `lists` in all.
abbrev pub sum_from : (ℕ → ℕ) → ℕ → ℕ → ℕ
sum_from free_bytes zero i = 0
sum_from free_bytes (suc lists) i = free_bytes i + sum_from free_bytes lists (i + 1)

add_list-total :
    (fuel : ℕ) (hdrs : ℕ → Hdr) (prev p t : ℕ) (xs : List ℕ)
    → Links hdrs prev p xs
    → length xs < fuel
    → t < 2 ^ 64
    → add_list fuel hdrs p t ≡ done ((t + total (size_of hdrs) xs) % 2 ^ 64)
unfolding add_list total
add_list-total zero hdrs prev p t xs l enough small = absurd (omega arith)
add_list-total (suc fuel) hdrs prev p t [] l enough small =
    let e : (p == 0) ≡ true = ground arith in if_true _ _ e ∙ ap (λ n. done n) (omega arith)
add_list-total (suc fuel) hdrs prev p t (x ∷ xs) (e, n, b, l) enough small =
    let o : (p == 0) ≡ false = ground arith in
    if_false _ _ o
    ∙ ap (λ y. add_list fuel hdrs (hdrs y).hb_next (word_add t (hdrs y).hb_sz)) e
    ∙ add_list-total fuel hdrs x (hdrs x).hb_next (word_add t (hdrs x).hb_sz) xs l (omega arith)
        (omega arith)
    ∙ ap (λ k. done k) (omega arith)

add_lists-sum_from :
    (fuel lists i t : ℕ) (s : Heap) (ls : ℕ → List ℕ)
    → Holds s ls
    → ((j : ℕ) → length (ls j) < fuel)
    → t < 2 ^ 64
    → add_lists fuel lists s i t ≡ done ((t + sum_from s.free_bytes lists i) % 2 ^ 64)
unfolding add_lists
add_lists-sum_from fuel zero i t s ls v enough small = ap (λ n. done n) (omega arith)
add_lists-sum_from fuel (suc lists) i t s ls v enough small =
    let step =
      add_list-total fuel s.hdrs 0 (s.hblkfreelist i) t (ls i) (v.links i) (enough i) small in
    ap (λ o. o >>= λ k. add_lists fuel lists s (i + 1) k) step
    ∙ add_lists-sum_from fuel lists (i + 1) ((t + total (size_of s.hdrs) (ls i)) % 2 ^ 64) s ls v
        enough (omega arith)
    ∙ ap (λ k. done k) (let b = v.bytes i in omega arith)

from_zero :
    (fuel lists : ℕ) (s : Heap) (ls : ℕ → List ℕ)
    → Holds s ls
    → ((j : ℕ) → length (ls j) < fuel)
    → add_lists fuel lists s 0 0 ≡ done (sum_from s.free_bytes lists 0 % 2 ^ 64)
from_zero fuel lists s ls v enough =
    add_lists-sum_from fuel lists 0 0 s ls v enough (omega arith) ∙ ap (λ k. done k) (omega arith)

-- With fuel for the longest of the lists that the free lists hold, `GC_compute_large_free_bytes`
-- returns, and what it finds by walking the lists is the sum of the counts in `GC_free_bytes`, as a
-- word.
pub compute_large_free_bytes-sum_from :
    (fuel : ℕ) (s : Heap) (ls : ℕ → List ℕ)
    → Holds s ls
    → ((j : ℕ) → length (ls j) < fuel)
    → compute_large_free_bytes fuel s ≡ done (sum_from s.free_bytes (n_hblk_fls + 1) 0 % 2 ^ 64)
unfolding compute_large_free_bytes
compute_large_free_bytes-sum_from fuel s ls v enough = from_zero fuel (n_hblk_fls + 1) s ls v enough
