-- ===== src/Freeing/Example.antt =====
-- A small heap with free blocks and blocks in use, for runs and examples.
use gcutil.Prelude.{
  ℕ, ◌<◌, ◌≡◌, refl, ◌||◌, ◌==◌, if◌then◌else◌, arith, List, [], ◌∷◌, Bool-cases, inl, inr,
}
use gcutil.FreeBlocks.{hblk_fl_from_blocks}
use gcutil.FreeBlocks.Lists.{total}
use gcutil.FreeBlocks.Moves.{Holds}
use gcutil.Headers.{nil, forward, header}
use gcutil.Headers.Laid.{IsLaid}
use gcutil.Freeing.{Arena}
use gcutil.Freeing.PutBack.{IsFiled}

-- Blocks 2 and 3 free, as one; 4 to 6 in use, of 10,000 bytes; 7 free; 8 in use.
abbrev pub arena : Arena
arena = record {
  heap = record {
    hblkfreelist = λ i. if i == 2 then 2 else if i == 1 then 7 else 0;
    free_bytes = λ i. if i == 2 then 8192 else if i == 1 then 4096 else 0;
    hdrs = λ b. record {
      hb_next = 0;
      hb_prev = 0;
      hb_block = b;
      hb_sz = if b == 2 then 8192 else if b == 4 then 10000 else 4096;
      hb_free = b == 2 || b == 7;
    };
  };
  table = record {
    slots = λ b.
        if b == 2 || b == 4 || b == 7 || b == 8
        then header
        else if b == 5
        then forward 1
        else if b == 6
        then forward 2
        else nil;
    keys = 0 ∷ [];
  };
  large_free_bytes = 12288;
}

abbrev pub lists : ℕ → List ℕ
lists i = if i == 2 then 2 ∷ [] else if i == 1 then 7 ∷ [] else []

arena-Holds : Holds arena.heap lists
unfolding total
arena-Holds = record {
  links = λ i. elim (Bool-cases (i == 2)) [
    | inl two ↦ rw two (refl, (λ e. ground arith), refl, refl)
    | inr other ↦ elim (Bool-cases (i == 1)) [
      | inl one ↦ rw (other, one) (refl, (λ e. ground arith), refl, refl)
      | inr rest ↦ rw (other, rest) refl
    ]
  ];
  distinct = λ i. elim (Bool-cases (i == 2)) [
    | inl two ↦ rw two (refl, tt)
    | inr other ↦ elim (Bool-cases (i == 1)) [
      | inl one ↦ rw (other, one) (refl, tt)
      | inr rest ↦ rw (other, rest) tt
    ]
  ];
  apart = λ i j x a b. ground arith;
  bytes = λ i. elim (Bool-cases (i == 2)) [
    | inl two ↦ rw two refl
    | inr other ↦ elim (Bool-cases (i == 1)) [
      | inl one ↦ rw (other, one) refl
      | inr rest ↦ rw (other, rest) refl
    ]
  ];
  bounded = λ i x a. ground arith;
}

small_header : (b : ℕ) → arena.table.slots b ≡ header → b < 10
small_header b e = ground arith

pub arena-IsLaid : IsLaid arena.table arena.heap.hdrs
arena-IsLaid = record {
  own = λ b e. refl;
  indexed = λ b e. ground (arith, small_header b e);
  ascending = ((λ x i. cc), tt);
  sized = λ b e. ground arith;
  whole = λ b e f. ground arith;
  apart = λ b c e f l. ground arith;
  counted = λ b x e u l m. ground arith;
  cleared = λ b x e f l m. ground arith;
  owned = λ x n e. (4, refl, refl, ground arith, ground arith);
}

pub arena-IsFiled : IsFiled arena lists
unfolding hblk_fl_from_blocks
arena-IsFiled = record {
  holds = arena-Holds;
  laid = arena-IsLaid;
  nonzero = λ e. cc;
  filed = λ b (e, f). ground arith;
  listed = λ j x i. (ground arith, ground arith);
  small = λ b (e, f). ground arith;
  separate = λ b c f g e. ground arith;
}
