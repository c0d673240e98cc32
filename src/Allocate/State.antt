-- ===== src/Allocate/State.antt =====
-- The heaps that the allocator works on.
use gcutil.Prelude.{ℕ, ◌*◌, ◌^◌, ◌<◌, ◌≡◌, ◌≢◌, true, arith, List}
use gcutil.FreeBlocks.{hblk_size}
use gcutil.FreeBlocks.Lists.{has}
use gcutil.FreeBlocks.Moves.{Holds}
use gcutil.Headers.{header}
use gcutil.Headers.Laid.{IsLaid, end_of}
use gcutil.Freeing.{Arena}
use gcutil.Freeing.Loose.{IsFree, IsUsed, class_of}
use gcutil.Freeing.PutBack.{IsFiled}
use gcutil.Allocate.{Memory}

-- There is memory for every header, bottom index and object map.
pub record IsPlenty (m : Memory) : Type 0 where
  pub scratch : (k : ℕ) → m.scratch k ≡ true
  pub allocated : (b : ℕ) → m.allocated b ≡ true
  pub mapped : m.mapped ≡ true

-- The free blocks end in the lower half of the address space.
abbrev pub IsLow : Arena → Type 0
IsLow a = (b : ℕ) → IsFree a b → end_of a.heap.hdrs b * hblk_size < 2 ^ 63

-- The heap between two operations: every free block is on the list of its class.
pub record IsTight (a : Arena) (ls : ℕ → List ℕ) : Type 0 where
  pub filed : IsFiled a ls
  pub low : IsLow a

-- The heap where the block `h` is to be taken off the list `index`, which need not be that of its class; the
-- block before it may be free.
pub record IsOn (a : Arena) (ls : ℕ → List ℕ) (h index : ℕ) : Type 0 where
  pub holds : Holds a.heap ls
  pub laid : IsLaid a.table a.heap.hdrs
  pub nonzero : a.table.slots 0 ≢ header
  pub free : IsFree a h
  pub at_index : has h (ls index) ≡ true
  pub filed : (b : ℕ) → IsFree a b → b ≢ h → has b (ls (class_of a.heap.hdrs b)) ≡ true
  pub listed : (j x : ℕ) → has x (ls j) ≡ true → IsFree a x
  pub low : IsLow a
  pub separate : (b c : ℕ) → IsFree a b → IsFree a c → c ≢ h → end_of a.heap.hdrs b ≡ c → ⊥

-- Each block in use stays in use where it is.
abbrev pub KeepsAllUsed : Arena → Arena → Type 0
KeepsAllUsed a a' =
    (b : ℕ) → IsUsed a b → IsUsed a' b × (end_of a'.heap.hdrs b ≡ end_of a.heap.hdrs b)

module _ (a : Arena) (ls : ℕ → List ℕ) (v : IsTight a ls) where
  -- Below half of the address space no two free blocks are too large together.
  pub IsTight-separate : (b c : ℕ) → IsFree a b → IsFree a c → end_of a.heap.hdrs b ≡ c → ⊥
  IsTight-separate b c f g e =
      let large = v.filed.separate b c f g e in
      let low = v.low c g in
      let w = v.filed.laid.whole b f.0 f.1 in
      let w' = v.filed.laid.whole c g.0 g.1 in absurd (omega arith)

  pub IsTight-IsOn : (h index : ℕ) → has h (ls index) ≡ true → IsOn a ls h index
  IsTight-IsOn h index i = record {
    holds = v.filed.holds;
    laid = v.filed.laid;
    nonzero = v.filed.nonzero;
    free = v.filed.listed index h i;
    at_index = i;
    filed = λ b f n. v.filed.filed b f;
    listed = v.filed.listed;
    low = v.low;
    separate = λ b c f g n e. IsTight-separate b c f g e;
  }
