-- ===== src/Sweep/Chain.antt =====
-- Free lists of objects, linked through their first words.
use gcutil.Prelude.{
  ℕ, zero, suc, ◌+◌, ◌-◌, ◌*◌, ◌%◌, ◌≡◌, ◌≢◌, ◌∙◌, Bool, true, false, ◌||◌, ◌&&◌, not, leb, ltb,
  ◌==◌, if◌then◌else◌, arith, List, [], ◌∷◌, write,
}
use gcutil.FreeBlocks.Lists.{has}
use gcutil.Sweep.{ptr_bytes, mark_bit_offset, clear_words}

-- From `p` the first words lead through the objects `xs` to `NULL`.
abbrev pub Chain : (ℕ → ℕ) → ℕ → List ℕ → Type 0
Chain memory p [] = p ≡ 0
Chain memory p (x ∷ xs) = (p ≡ x) × (x ≢ 0) × Chain memory (memory x) xs

pub Chain-frame :
    (m m' : ℕ → ℕ) (p : ℕ) (xs : List ℕ)
    → ((x : ℕ) → has x xs ≡ true → m' x ≡ m x)
    → Chain m p xs
    → Chain m' p xs
Chain-frame m m' p [] same c = c
Chain-frame m m' p (x ∷ xs) same (e, n, c) =
    (e, n, rw (same x (ground arith)) (Chain-frame m m' (m x) xs (λ y i. same y (ground arith)) c))

-- The words that `clear_words` writes.
pub clear_words_lem :
    (words : ℕ) (m : ℕ → ℕ) (p x : ℕ)
    → clear_words words m p x
      ≡ (if leb p x && ltb x (p + words * ptr_bytes) && (x - p) % ptr_bytes == 0 then 0 else m x)
unfolding clear_words write
clear_words_lem zero m p x = ground arith
clear_words_lem (suc words) m p x = clear_words_lem words _ (p + ptr_bytes) x ∙ ground arith

-- The objects that are put on the list, the last one first.
abbrev pub swept : ℕ → (ℕ → Bool) → ℕ → ℕ → ℕ → List ℕ → List ℕ
swept zero mark_bit sz p bit_no xs = xs
swept (suc objs) mark_bit sz p bit_no xs =
    swept objs mark_bit sz (p + sz) (bit_no + mark_bit_offset sz)
      (if mark_bit bit_no then xs else p ∷ xs)

-- Whether the address `x` is in an unmarked object, or in a marked one.
abbrev pub in_free : ℕ → (ℕ → Bool) → ℕ → ℕ → ℕ → ℕ → Bool
in_free zero mark_bit sz p bit_no x = false
in_free (suc objs) mark_bit sz p bit_no x =
    (not (mark_bit bit_no) && leb p x && ltb x (p + sz))
    || in_free objs mark_bit sz (p + sz) (bit_no + mark_bit_offset sz) x

abbrev pub free_bytes : ℕ → (ℕ → Bool) → ℕ → ℕ → ℕ
free_bytes zero mark_bit sz bit_no = 0
free_bytes (suc objs) mark_bit sz bit_no =
    (if mark_bit bit_no then 0 else sz) + free_bytes objs mark_bit sz (bit_no + mark_bit_offset sz)
