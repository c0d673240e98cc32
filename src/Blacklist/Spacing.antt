-- ===== src/Blacklist/Spacing.antt =====
-- The count of black-listed bytes, and the spacing that is drawn from it.
use gcutil.Prelude.{
  ℕ, zero, suc, ◌+◌, ◌-◌, ◌*◌, ◌/◌, ◌≤◌, ◌≡◌, ◌==◌, if◌then◌else◌, arith, List, [], ◌∷◌, ◌∙◌,
}
use gcutil.Blacklist.{
  BlackLists, HeapSect, Bits, hblk_size, max_h_incr, pht_hash_block, number_loop,
  number_stack_black_listed, total_loop, compute_total_stack_black_listed, clamp_spacing,
  promote_black_lists,
}

-- The blocks from `h` on that are in the list.
unfoldable pub count_listed : Bits → ℕ → ℕ → ℕ
count_listed bl h zero = 0
count_listed bl h (suc blocks) =
    (if bl (pht_hash_block h) then 1 else 0) + count_listed bl (h + 1) blocks

-- The bytes of the heap sections whose block is in the list of old stack references.
unfoldable pub listed_bytes : Bits → List HeapSect → ℕ
listed_bytes bl [] = 0
listed_bytes bl (sect ∷ rest) =
    hblk_size * count_listed bl sect.hs_start (sect.hs_bytes / hblk_size) + listed_bytes bl rest

unfoldable pub sect_bytes : List HeapSect → ℕ
sect_bytes [] = 0
sect_bytes (sect ∷ rest) = sect.hs_bytes + sect_bytes rest

number_loop-count_listed :
    (blocks h : ℕ) (bl : Bits) (result : ℕ)
    → number_loop blocks h bl result ≡ result + count_listed bl h blocks
unfolding number_loop count_listed
number_loop-count_listed zero h bl result = omega arith
number_loop-count_listed (suc blocks) h bl result =
    number_loop-count_listed blocks (h + 1) bl _ ∙ ground arith

number_stack_black_listed-count_listed :
    (s : BlackLists) (start blocks : ℕ)
    → number_stack_black_listed s start (start + blocks) ≡ count_listed s.old_stack_bl start blocks
unfolding number_stack_black_listed
number_stack_black_listed-count_listed s start blocks =
    let e : start + blocks - start ≡ blocks = omega arith in
    rw e (number_loop-count_listed blocks start s.old_stack_bl 0 ∙ omega arith)

total_loop-listed_bytes :
    (s : BlackLists) (sects : List HeapSect) (total : ℕ)
    → total_loop s sects total * hblk_size ≡ hblk_size * total + listed_bytes s.old_stack_bl sects
unfolding total_loop listed_bytes
total_loop-listed_bytes s [] total = omega arith
total_loop-listed_bytes s (sect ∷ rest) total =
    total_loop-listed_bytes s rest _
    ∙ omega
        (arith, number_stack_black_listed-count_listed s sect.hs_start (sect.hs_bytes / hblk_size))

count_listed-le : (bl : Bits) (h blocks : ℕ) → count_listed bl h blocks ≤ blocks
unfolding count_listed
count_listed-le bl h zero = omega arith
count_listed-le bl h (suc blocks) = ground (arith, count_listed-le bl (h + 1) blocks)

listed_bytes-le : (bl : Bits) (sects : List HeapSect) → listed_bytes bl sects ≤ sect_bytes sects
unfolding listed_bytes sect_bytes
listed_bytes-le bl [] = omega arith
listed_bytes-le bl (sect ∷ rest) =
    omega
      (arith, count_listed-le bl sect.hs_start (sect.hs_bytes / hblk_size), listed_bytes-le bl rest)

-- The number of black-listed bytes is `HBLKSIZE` for each block of the heap sections that is in
-- the older stack black list, and no more than the sections hold.
pub compute_total_stack_black_listed_lem :
    (s : BlackLists)
    → (compute_total_stack_black_listed s ≡ listed_bytes s.old_stack_bl s.heap_sects)
      × (compute_total_stack_black_listed s ≤ sect_bytes s.heap_sects)
unfolding compute_total_stack_black_listed
compute_total_stack_black_listed_lem s =
    let total = total_loop-listed_bytes s s.heap_sects 0 in
    (omega arith, omega (arith, listed_bytes-le s.old_stack_bl s.heap_sects))

-- Within its bounds the spacing is kept.
Clamps : ℕ → ℕ → Type 0
Clamps wanted spacing =
    (3 * hblk_size ≤ spacing)
    × (spacing ≤ max_h_incr * hblk_size)
    × (3 * hblk_size ≤ wanted → wanted ≤ max_h_incr * hblk_size → spacing ≡ wanted)

clamp_spacing_lem : (wanted : ℕ) → Clamps wanted (clamp_spacing wanted)
unfolding Clamps clamp_spacing
clamp_spacing_lem wanted = (ground arith, ground arith, λ l m. ground arith)

-- After each promotion the spacing lies between 3 and `MAXHINCR` blocks. Within these bounds it
-- is `HBLKSIZE` times the quotient of the heap size by the bytes that the stack references of the
-- ended cycle black-list, or what it was if there are none.
pub promote_black_lists-spacing :
    (s : BlackLists)
    → let spacing = (promote_black_lists s).black_list_spacing in
      let total = listed_bytes s.incomplete_stack_bl s.heap_sects in
      let wanted = if total == 0 then s.black_list_spacing else hblk_size * (s.heapsize / total) in
      (3 * hblk_size ≤ spacing)
      × (spacing ≤ max_h_incr * hblk_size)
      × (3 * hblk_size ≤ wanted → wanted ≤ max_h_incr * hblk_size → spacing ≡ wanted)
unfolding promote_black_lists Clamps
promote_black_lists-spacing s =
    rw ((compute_total_stack_black_listed_lem _).0) (clamp_spacing_lem _)
