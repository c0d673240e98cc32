-- ===== src/SizeMap/Tests.antt =====
-- Runs of the size map, and the theorems at its first state.
use gcutil.Prelude.{ℕ, ◌+◌, ◌≤◌, ◌≡◌, ◌≢◌, ◌↔◌, refl, arith, Outcome, done, ◌>>=◌, Returns, write}
use gcutil.SizeMap.{init_size_map, extend_size_map, get_size_map_at}
use gcutil.SizeMap.Extend.{IsSizeMap, Extends, extend_size_map-Extends}
use gcutil.SizeMap.Init.{init_size_map-IsSizeMap}

abbrev first : ℕ → ℕ
first = init_size_map 1 (λ _. 0)

abbrev extend_run : Outcome (ℕ × ℕ × ℕ × ℕ)
extend_run = extend_size_map 1 first 500 >>= λ m. done (m 383, m 384, m 500, get_size_map_at m 511)

-- The request of 500 bytes is served by objects of 32 granules, and so are those from 384 on.
extends : extend_run ≡ done (24, 32, 32, 512)
unfolding init_size_map extend_size_map get_size_map_at write
extends = refl

init_size_map-IsSizeMap_example : IsSizeMap 1 first × ((j : ℕ) → (first j ≢ 0) ↔ (j + 1 ≤ 384))
init_size_map-IsSizeMap_example = init_size_map-IsSizeMap 1 (λ _. 0) (omega arith) (λ k. refl)

first-IsSizeMap : IsSizeMap 1 first
first-IsSizeMap = (init_size_map-IsSizeMap 1 (λ _. 0) (omega arith) (λ k. refl)).0

extend_size_map-Extends_example :
    Returns (extend_size_map 1 first 500) (Extends 1 first first-IsSizeMap (omega arith) 500)
extend_size_map-Extends_example =
    extend_size_map-Extends 1 first first-IsSizeMap (omega arith) 500 (omega arith) (omega arith)
      first_empty
  where
    first_empty : first 500 ≡ 0
    first_empty = unfold init_size_map write in refl
