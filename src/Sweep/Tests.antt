-- ===== src/Sweep/Tests.antt =====
-- Runs of the sweep of a block, and its theorem at one.
use gcutil.Prelude.{ℕ, ◌≡◌, refl, Bool, ◌||◌, [], ◌∷◌, arith, ◌==◌, write, if◌then◌else◌}
use gcutil.Sweep.{
  Sweep, clear_words, clear_block, put_clear, reclaim_clear_loop, reclaim_clear,
  reclaim_uninit_loop, put_uninit, reclaim_uninit,
}
use gcutil.Sweep.Clear.{Sweeps, reclaim_clear-Sweeps}
use gcutil.Sweep.Uninit.{reclaim_uninit-reclaim_clear}

-- The object 800 is on the list; each word of the block is 7.
abbrev before : Sweep
before = record { memory = λ x. if x == 800 then 0 else 7; list = 800; pcount = 5 }

-- Of the four objects of 1,024 bytes in block 1 the first and the third are marked.
abbrev marks : ℕ → Bool
marks bit_no = bit_no == 0 || bit_no == 128

runs :
    ◌≡◌ {A = (ℕ × ℕ × ℕ × ℕ × ℕ) × (ℕ × ℕ × ℕ × ℕ)}
      (let r = reclaim_clear 1 marks 1024 before in
        let u = reclaim_uninit 1 marks 1024 before in
        (
          (r.list, r.pcount, r.memory 7168, r.memory 5120, r.memory 5128),
          (u.list, u.pcount, u.memory 7168, u.memory 5128),
        ))
      ((7168, 2053, 5120, 800, 0), (7168, 2053, 5120, 7))
unfolding reclaim_clear reclaim_clear_loop put_clear clear_block clear_words reclaim_uninit
    reclaim_uninit_loop put_uninit write
runs = refl

reclaim_clear-Sweeps_example :
    Sweeps 4 marks 1024 4096 0 before (reclaim_clear 1 marks 1024 before) (800 ∷ [])
reclaim_clear-Sweeps_example =
    reclaim_clear-Sweeps 1 marks 1024 before (800 ∷ []) (omega arith) (omega arith) refl
      (omega arith) (refl, (λ e. ground arith), refl) (λ x i. ground arith)

reclaim_uninit-reclaim_clear_example :
    (reclaim_uninit 1 marks 1024 before).pcount ≡ (reclaim_clear 1 marks 1024 before).pcount
reclaim_uninit-reclaim_clear_example =
    (reclaim_uninit-reclaim_clear 1 marks 1024 before (800 ∷ []) (omega arith) (omega arith) refl
      (omega arith) (refl, (λ e. ground arith), refl) (λ x i. ground arith)).2
