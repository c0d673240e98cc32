-- ===== src/SizeMap/Init.antt =====
-- The size classes of the tiny requests, which are chosen at the start.
use gcutil.Prelude.{
  ℕ, zero, suc, ◌+◌, ◌-◌, ◌/◌, ◌≤◌, ◌≡◌, ◌≢◌, ◌↔◌, leb, ltb, ◌&&◌, ◌==◌, if◌then◌else◌, write,
  arith, ◌∙◌,
}
use gcutil.SizeMap.{alloc_request_grans, init_loop, init_size_map}
use gcutil.SizeMap.Extend.{IsSizeMap, alloc_request_grans_lem}

init_loop-get :
    (extra rounds i : ℕ) (m : ℕ → ℕ) (j : ℕ)
    → init_loop extra rounds i m j
      ≡ (if leb i j && ltb j (i + rounds) then alloc_request_grans extra j else m j)
unfolding init_loop write
init_loop-get extra zero i m j = ground arith
init_loop-get extra (suc rounds) i m j =
    init_loop-get extra rounds (i + 1) (write m i (alloc_request_grans extra i)) j ∙ ground arith

init_size_map-get :
    (extra : ℕ) (m : ℕ → ℕ) (j : ℕ)
    → extra ≤ 1
    → ((k : ℕ) → m k ≡ 0)
    → init_size_map extra m j
      ≡ (if j == 0 then 1 else if leb (j + extra) 384 then (j + 15 + extra) / 16 else 0)
unfolding init_size_map write
init_size_map-get extra m j e z =
    init_loop-get extra (384 - extra) 1 _ j ∙ ground (arith, z j, alloc_request_grans_lem extra j e)

-- From an empty table `GC_init_size_map` makes a valid size map, in which exactly the sizes of
-- the tiny requests are filled.
pub init_size_map-IsSizeMap :
    (extra : ℕ) (m : ℕ → ℕ)
    → extra ≤ 1
    → ((k : ℕ) → m k ≡ 0)
    → IsSizeMap extra (init_size_map extra m)
      × ((j : ℕ) → (init_size_map extra m j ≢ 0) ↔ (j + extra ≤ 384))
init_size_map-IsSizeMap extra m e z = (
  record {
    fits = λ j ne. ground (arith, init_size_map-get extra m j e z);
    small = λ j. ground (arith, init_size_map-get extra m j e z);
    runs = λ n k full stop lt le.
        ground (arith, init_size_map-get extra m n e z, init_size_map-get extra m k e z);
  },
  λ j. (
    λ ne. ground (arith, init_size_map-get extra m j e z),
    λ l. ground (arith, init_size_map-get extra m j e z),
  ),
)
