-- ===== src/Roots/Index.antt =====
-- The hash index over the static roots: what it holds, and what a lookup in it finds.
use gcutil.Prelude.{
  ℕ, zero, suc, ◌+◌, ◌≤◌, ◌<◌, ◌≡◌, refl, ap, sym, subst, ◌∙◌, Option, none, some, false, ◌==◌,
  if◌then◌else◌, write, arith, Bool-cases, ==_iff, inl, inr, done,
}
use gcutil.Roots.{
  Root, Table, rt_hash, present_loop, roots_present, add_roots_to_index, rebuild_loop,
  rebuild_root_index,
}

-- The last of the first `k` roots whose start hashes to `h`.
unfoldable pub last_with : (ℕ → Root) → ℕ → ℕ → Option ℕ
last_with roots h zero = none
last_with roots h (suc k) = if rt_hash (roots k).r_start == h then some k else last_with roots h k

-- The last of the first `k` roots that starts at `b`.
unfoldable pub last_start : (ℕ → Root) → ℕ → ℕ → Option ℕ
last_start roots b zero = none
last_start roots b (suc k) = if (roots k).r_start == b then some k else last_start roots b k

-- The first `k` roots are in the index, each chain from the last to the first.
pub record IsIndexedTo (k : ℕ) (t : Table) : Type 0 where
  pub heads : (h : ℕ) → t.root_index h ≡ last_with t.roots h k
  pub links :
      (i : ℕ) → i < k → (t.roots i).r_next ≡ last_with t.roots (rt_hash (t.roots i).r_start) i

abbrev pub IsIndexed : Table → Type 0
IsIndexed t = IsIndexedTo t.n_root_sets t

-- The same starts.
abbrev pub SameStarts : ℕ → (ℕ → Root) → (ℕ → Root) → Type 0
SameStarts k r s = (i : ℕ) → i < k → (r i).r_start ≡ (s i).r_start

pub last_with_congr :
    (h k : ℕ) (r s : ℕ → Root) → SameStarts k r s → last_with r h k ≡ last_with s h k
unfolding last_with
last_with_congr h zero r s same = refl
last_with_congr h (suc k) r s same =
    ground (arith, same k (omega arith), last_with_congr h k r s (λ i l. same i (omega arith)))

differs : (a b : ℕ) → (rt_hash a == rt_hash b) ≡ false → (a == b) ≡ false
differs a b h = ground arith

present_loop-last_with :
    (b : ℕ) (roots : ℕ → Root) (fuel k : ℕ)
    → k ≤ fuel
    → ((i : ℕ) → i < k → (roots i).r_next ≡ last_with roots (rt_hash (roots i).r_start) i)
    → present_loop fuel roots b (last_with roots (rt_hash b) k) ≡ done (last_start roots b k)
unfolding present_loop last_with last_start
present_loop-last_with b roots zero zero le links = refl
present_loop-last_with b roots (suc f) zero le links = refl
present_loop-last_with b roots zero (suc k) le links = absurd (omega arith)
present_loop-last_with b roots (suc f) (suc k) le links =
    elim (Bool-cases (rt_hash (roots k).r_start == rt_hash b)) [
      | inl m ↦
          let follow : (roots k).r_next ≡ last_with roots (rt_hash b) k =
            links k (omega arith) ∙ ap (λ h. last_with roots h k) ((==_iff _ _).0 m) in
          let walk =
            present_loop-last_with b roots f k (omega arith) (λ i l. links i (omega arith)) in
          rw (m, follow, walk) (ground arith)
      | inr m ↦
          let other : ((roots k).r_start == b) ≡ false = differs (roots k).r_start b m in
          let skip =
            present_loop-last_with b roots (suc f) k (omega arith) (λ i l. links i (omega arith)) in
          rw (m, other) skip
    ]

-- In an indexed table the lookup ends within `n_root_sets` rounds, and finds the last root that
-- starts at the address, or nothing if there is none.
pub roots_present-last_start :
    (t : Table) (b : ℕ)
    → IsIndexed t
    → roots_present t b ≡ done (last_start t.roots b t.n_root_sets)
unfolding roots_present
roots_present-last_start t b x =
    rw (x.heads (rt_hash b))
      (present_loop-last_with b t.roots t.n_root_sets t.n_root_sets (omega arith) x.links)

-- What a lookup returns is a root that starts at the address.
pub last_start-some :
    (roots : ℕ → Root) (b k i : ℕ)
    → last_start roots b k ≡ some i
    → (i < k) × ((roots i).r_start ≡ b)
unfolding last_start
last_start-some roots b zero i h = absurd (cc)
last_start-some roots b (suc k) i h = ground (arith, last_start-some roots b k i)

pub add_roots_to_index-SameStarts :
    (k n : ℕ) (t : Table) → SameStarts n (add_roots_to_index t k).roots t.roots
unfolding add_roots_to_index write
add_roots_to_index-SameStarts k n t i l = ground arith

pub last_with-add_roots_to_index :
    (k : ℕ) (t : Table) (h j : ℕ)
    → last_with (add_roots_to_index t k).roots h j ≡ last_with t.roots h j
last_with-add_roots_to_index k t h j =
    last_with_congr h j (add_roots_to_index t k).roots t.roots (add_roots_to_index-SameStarts k j t)

pub add_roots_to_index-IsIndexedTo :
    (k : ℕ) (t : Table) → IsIndexedTo k t → IsIndexedTo (suc k) (add_roots_to_index t k)
unfolding add_roots_to_index write last_with
add_roots_to_index-IsIndexedTo k t x = record {
  heads = λ h. rw (last_with-add_roots_to_index k t h k) (ground (arith, x.heads h));
  links = λ i l.
      rw (last_with-add_roots_to_index k t _ i)
        (ground (arith, x.heads (rt_hash (t.roots k).r_start), x.links i));
}

-- The rebuilt index holds every root, whatever the index held before.
rebuild_loop-IsIndexedTo :
    (rounds i n : ℕ) (t : Table)
    → i + rounds ≡ n
    → IsIndexedTo i t
    → IsIndexedTo n (rebuild_loop rounds i t)
unfolding rebuild_loop
rebuild_loop-IsIndexedTo zero i n t e x =
    let e' : i ≡ n = omega arith in subst (λ k. IsIndexedTo k t) e' x
rebuild_loop-IsIndexedTo (suc rounds) i n t e x =
    rebuild_loop-IsIndexedTo rounds (i + 1) n (add_roots_to_index t i) (omega arith) (
      subst (λ k. IsIndexedTo k (add_roots_to_index t i)) (omega arith)
        (add_roots_to_index-IsIndexedTo i t x))

rebuild_loop-n_root_sets :
    (rounds i : ℕ) (t : Table) → (rebuild_loop rounds i t).n_root_sets ≡ t.n_root_sets
unfolding rebuild_loop add_roots_to_index
rebuild_loop-n_root_sets zero i t = refl
rebuild_loop-n_root_sets (suc rounds) i t = rebuild_loop-n_root_sets rounds (i + 1) _

pub rebuild_root_index-n_root_sets :
    (t : Table) → (rebuild_root_index t).n_root_sets ≡ t.n_root_sets
unfolding rebuild_root_index
rebuild_root_index-n_root_sets t = rebuild_loop-n_root_sets t.n_root_sets 0 _

pub rebuild_root_index-IsIndexed : (t : Table) → IsIndexed (rebuild_root_index t)
unfolding rebuild_root_index last_with
rebuild_root_index-IsIndexed t =
    let t₀ : Table = record t { root_index = λ _. none } in
    subst (λ k. IsIndexedTo k (rebuild_loop t.n_root_sets 0 t₀))
      (sym (rebuild_loop-n_root_sets t.n_root_sets 0 t₀))
      (rebuild_loop-IsIndexedTo t.n_root_sets 0 t.n_root_sets t₀ (omega arith)
        (record { heads = λ h. refl; links = λ i l. absurd (omega arith) }))
