-- ===== src/Freeing/Loose.antt =====
-- A heap with one free block that is on no list yet, between the steps of `GC_freehblk`.
use gcutil.Prelude.{ℕ, ◌+◌, ◌/◌, ◌^◌, ◌≤◌, ◌<◌, ◌≡◌, ◌≢◌, true, false, List}
use gcutil.FreeBlocks.{Hdr, hblk_size, hblk_fl_from_blocks}
use gcutil.FreeBlocks.Lists.{has}
use gcutil.FreeBlocks.Moves.{Holds}
use gcutil.Headers.{header}
use gcutil.Headers.Laid.{IsLaid, end_of}
use gcutil.Freeing.{Arena, hdr_at}

abbrev pub class_of : (ℕ → Hdr) → ℕ → ℕ
class_of hdrs b = hblk_fl_from_blocks ((hdrs b).hb_sz / hblk_size)

abbrev pub IsFree : Arena → ℕ → Type 0
IsFree a b = (a.table.slots b ≡ header) × ((hdr_at a b).hb_free ≡ true)

abbrev pub IsUsed : Arena → ℕ → Type 0
IsUsed a b = (a.table.slots b ≡ header) × ((hdr_at a b).hb_free ≡ false)

-- Each block in use but `h` stays in use where it is.
abbrev pub KeepsUsed : Arena → Arena → ℕ → Type 0
KeepsUsed a a' h =
    (b : ℕ) → IsUsed a b → b ≢ h → IsUsed a' b × (end_of a'.heap.hdrs b ≡ end_of a.heap.hdrs b)

abbrev pub MergeOverflow : Arena → ℕ → ℕ → Type 0
MergeOverflow a b c = 2 ^ 63 ≤ (hdr_at a b).hb_sz + (hdr_at a c).hb_sz

-- The free lists hold `ls`, with every free block but `h` on the list of its class, and two
-- neighbouring free blocks other than `h` are too large together to be one.
pub record IsLoose (a : Arena) (ls : ℕ → List ℕ) (h : ℕ) : Type 0 where
  pub holds : Holds a.heap ls
  pub laid : IsLaid a.table a.heap.hdrs
  pub nonzero : a.table.slots 0 ≢ header
  pub out : (j : ℕ) → has h (ls j) ≡ false
  pub filed : (b : ℕ) → IsFree a b → b ≢ h → has b (ls (class_of a.heap.hdrs b)) ≡ true
  pub listed : (j x : ℕ) → has x (ls j) ≡ true → IsFree a x
  pub small : (b : ℕ) → IsFree a b → (hdr_at a b).hb_sz < 2 ^ 63
  pub separate :
      (b c : ℕ)
      → IsFree a b
      → IsFree a c
      → b ≢ h
      → c ≢ h
      → end_of a.heap.hdrs b ≡ c
      → MergeOverflow a b c
