-- ===== src/Prelude/Words.antt =====
-- A machine word of 64 bits (`word`, `size_t`, an address) as a number below 2 ^ 64.
use Prim.Native.Nat.{ℕ, ◌+◌, ◌-◌, ◌*◌, ◌/◌, ◌%◌, ◌^◌}

abbrev pub word_mod : ℕ
word_mod = 2 ^ 64

-- `a + b` and `a - b` on `word`, which wrap.
abbrev pub word_add : ℕ → ℕ → ℕ
word_add a b = (a + b) % 2 ^ 64

abbrev pub word_sub : ℕ → ℕ → ℕ
word_sub a b = (a + 2 ^ 64 - b) % 2 ^ 64

-- `PTR_ALIGN_DOWN(p, ALIGNMENT)` and `PTR_ALIGN_UP(p, ALIGNMENT)`, with `ALIGNMENT` 8.
abbrev pub ptr_align_down : ℕ → ℕ
ptr_align_down p = p / 8 * 8

abbrev pub ptr_align_up : ℕ → ℕ
ptr_align_up p = (p + 7) % 2 ^ 64 / 8 * 8
