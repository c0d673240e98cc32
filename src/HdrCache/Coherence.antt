-- ===== src/HdrCache/Coherence.antt =====
-- The cache entries stay those of blocks in use.
use gcutil.Prelude.{
  ℕ, ◌+◌, ◌-◌, ◌*◌, ◌/◌, ◌%◌, ◌≡◌, ◌≢◌, refl, sym, ◌∙◌, subst, Bool, ◌==◌, if_true, if_false,
  done_injective, arith, Bool-cases, inl, inr, Option, write, Outcome, done, abort, out_of_fuel,
  Returns, ◌>>=◌,
}
use gcutil.FreeBlocks.{hblk_size}
use gcutil.FreeBlocks.Split.{get_first_part-hb_free}
use gcutil.Headers.{Slot, nil, forward, header, find_starting_hblk}
use gcutil.Headers.Laid.{IsLaid}
use gcutil.Freeing.{Arena, hdr_at, freehblk}
use gcutil.HdrCache.{
  Collector, hdr_cache_size, interior_header, signed_geb, miss_at, header_cache_miss, hc_get_hdr,
  invalidate_hdr_cache, dropping_install_header, dropping_install_counts, dropping_remove_header,
  dropping_remove_counts, dropping_freehblk, dropping_get_first_part, dropping_split, setup_header,
  Step, looked_up, installed_header, installed_counts, removed_header, removed_counts, freed,
  got_first_part, split, set_up, Reaches, start, after,
}
use gcutil.HdrCache.Lookup.{
  IsSigned, IsCoherent, to_black_list-IsCoherent, cached-IsCoherent, Looks, hc_get_hdr-Looks,
}

-- An empty cache, in whatever heap.
abbrev IsEmpty : Collector → Type 0
IsEmpty s = (i : ℕ) → (s.hdr_cache i).block_addr ≡ 0

IsEmpty-IsCoherent : (s : Collector) → IsEmpty s → IsCoherent s
IsEmpty-IsCoherent s e i ne = absurd (ne (e i))

invalidate_hdr_cache-IsEmpty : (s : Collector) → IsEmpty (invalidate_hdr_cache s)
unfolding invalidate_hdr_cache
invalidate_hdr_cache-IsEmpty s i = refl

install_header-IsEmpty :
    (s : Collector) (scratch : ℕ → Bool) (allocated : Bool) (h : ℕ)
    → IsEmpty (dropping_install_header s scratch allocated h).0
unfolding dropping_install_header
install_header-IsEmpty s scratch allocated h i = invalidate_hdr_cache-IsEmpty s i

install_counts-IsEmpty :
    (s : Collector) (scratch : ℕ → Bool) (h sz : ℕ)
    → IsEmpty (dropping_install_counts s scratch h sz).0
unfolding dropping_install_counts
install_counts-IsEmpty s scratch h sz i = invalidate_hdr_cache-IsEmpty s i

remove_header-IsEmpty : (s : Collector) (h : ℕ) → IsEmpty (dropping_remove_header s h)
unfolding dropping_remove_header
remove_header-IsEmpty s h i = invalidate_hdr_cache-IsEmpty s i

remove_counts-IsEmpty : (s : Collector) (h sz : ℕ) → IsEmpty (dropping_remove_counts s h sz)
unfolding dropping_remove_counts
remove_counts-IsEmpty s h sz i = invalidate_hdr_cache-IsEmpty s i

freehblk-IsEmpty : (s u : Collector) (h : ℕ) → dropping_freehblk s h ≡ done u → IsEmpty u
unfolding dropping_freehblk
freehblk-IsEmpty s u h e = at_outcome (freehblk s.arena h) e
  where
    at_outcome :
        (o : Outcome Arena)
        → (o >>= λ a. done (record (invalidate_hdr_cache s) { arena = a })) ≡ done u
        → IsEmpty u
    at_outcome (done a) f =
        subst (λ x. IsEmpty x) (done_injective f) (invalidate_hdr_cache-IsEmpty s)
    at_outcome abort f = absurd (cc)
    at_outcome out_of_fuel f = absurd (cc)

split-IsEmpty :
    (s : Collector) (hbp last_hbp index : ℕ) (scratch : ℕ → Bool) (allocated : Bool)
    → IsEmpty (dropping_split s hbp last_hbp index scratch allocated)
unfolding dropping_split
split-IsEmpty s hbp last_hbp index scratch allocated =
    elim (Bool-cases (dropping_install_header s scratch allocated last_hbp).1) [
      | inl installed ↦ rw installed (install_header-IsEmpty s scratch allocated last_hbp)
      | inr failed ↦ rw failed (install_header-IsEmpty s scratch allocated last_hbp)
    ]

get_first_part-IsCoherent :
    (s : Collector) (h size_needed index : ℕ) (scratch : ℕ → Bool) (allocated : Bool)
    → IsCoherent s
    → IsCoherent (dropping_get_first_part s h size_needed index scratch allocated).0
unfolding dropping_get_first_part
get_first_part-IsCoherent s h size_needed index scratch allocated v =
    elim (Bool-cases ((s.arena.heap.hdrs h).hb_sz == size_needed)) [
      | inl whole ↦ rw whole (λ i ne.
          let (e, (f, u)) = v i ne in
          (e, (f, get_first_part-hb_free s.arena.heap h size_needed index _ _ whole ∙ u)))
      | inr part ↦ rw part (λ i ne.
          absurd (ne (install_header-IsEmpty s scratch allocated (h + size_needed / hblk_size) i)))
    ]

setup_header-IsCoherent :
    (s : Collector) (h lb_adjusted : ℕ) (ignore mapped : Bool)
    → IsCoherent s
    → IsCoherent (setup_header s h lb_adjusted ignore mapped).0
unfolding setup_header write
setup_header-IsCoherent s h lb_adjusted ignore mapped v i ne =
    let (e, (f, u)) = v i ne in (e, (f, ground arith))

module _ (s : Collector) (p : ℕ) (v : IsCoherent s) where
  interior_header-IsCoherent : (q : ℕ) → IsCoherent (interior_header s p q).0
  unfolding interior_header
  interior_header-IsCoherent q = elim (Bool-cases (s.ignore_off_page q)) [
    | inl ignored ↦ rw ignored v
    | inr respected ↦ elim (Bool-cases (hdr_at s.arena q).hb_free) [
      | inl free ↦ rw (respected, free) (to_black_list-IsCoherent s p v)
      | inr used ↦ elim (Bool-cases (signed_geb (p - q * hblk_size) (hdr_at s.arena q).hb_sz)) [
        | inl past ↦ rw (respected, used, past) (to_black_list-IsCoherent s p v)
        | inr inside ↦ rw (respected, used, inside) v
      ]
    ]
  ]

  -- From the equation of a run that ends to the state in which it ends.
  ends_in :
      {r x : Collector × Option ℕ} (o : Outcome (Collector × Option ℕ))
      → o ≡ done x
      → o ≡ done r
      → IsCoherent x.0
      → IsCoherent r.0
  ends_in o e f c = subst (λ y. IsCoherent y.0) (done_injective (sym e ∙ f)) c

  at_start :
      (r : Collector × Option ℕ) (o : Outcome ℕ)
      → (o >>= λ current. done (interior_header s p current)) ≡ done r
      → IsCoherent r.0
  at_start r (done q) e = ends_in _ refl e (interior_header-IsCoherent q)
  at_start r abort e = absurd (cc)
  at_start r out_of_fuel e = absurd (cc)

  miss_at-IsCoherent :
      (t : Slot) (r : Collector × Option ℕ)
      → s.arena.table.slots (p / hblk_size) ≡ t
      → miss_at t s p ≡ done r
      → IsCoherent r.0
  unfolding miss_at
  miss_at-IsCoherent nil r e f = ends_in _ refl f (to_black_list-IsCoherent s p v)
  miss_at-IsCoherent (forward n) r e f = elim (Bool-cases s.black_lists.all_interior_pointers) [
    | inl interior ↦
        at_start r (find_starting_hblk s.arena.table (p / hblk_size))
          (sym (if_true _ _ interior) ∙ f)
    | inr first_only ↦ ends_in _ (if_false _ _ first_only) f v
  ]
  miss_at-IsCoherent header r e f = elim (Bool-cases (hdr_at s.arena (p / hblk_size)).hb_free) [
    | inl free ↦ ends_in _ (if_true _ _ free) f (to_black_list-IsCoherent s p v)
    | inr used ↦ ends_in _ (if_false _ _ used) f (cached-IsCoherent s p v e used)
  ]

  hc_get_hdr-IsCoherent : (r : Collector × Option ℕ) → hc_get_hdr s p ≡ done r → IsCoherent r.0
  unfolding hc_get_hdr header_cache_miss
  hc_get_hdr-IsCoherent r f =
      elim (Bool-cases
        ((s.hdr_cache (p / hblk_size % hdr_cache_size)).block_addr == p / hblk_size)) [
          | inl hit ↦ ends_in _ (if_true _ _ hit) f v
          | inr miss ↦
              miss_at-IsCoherent (s.arena.table.slots (p / hblk_size)) r refl
                (sym (if_false _ _ miss) ∙ f)
        ]

-- Each lookup and each operation on the heap keeps the cache entries those of blocks in use.
pub Step-IsCoherent : {s u : Collector} → Step s u → IsCoherent s → IsCoherent u
Step-IsCoherent {s} {u} (looked_up p r ne e) v = hc_get_hdr-IsCoherent s p v (u, r) e
Step-IsCoherent {s} {u} (installed_header scratch allocated h e) v =
    IsEmpty-IsCoherent u (rw e (install_header-IsEmpty s scratch allocated h))
Step-IsCoherent {s} {u} (installed_counts scratch h sz e) v =
    IsEmpty-IsCoherent u (rw e (install_counts-IsEmpty s scratch h sz))
Step-IsCoherent {s} {u} (removed_header h e) v =
    IsEmpty-IsCoherent u (rw e (remove_header-IsEmpty s h))
Step-IsCoherent {s} {u} (removed_counts h sz e) v =
    IsEmpty-IsCoherent u (rw e (remove_counts-IsEmpty s h sz))
Step-IsCoherent {s} {u} (freed h e) v = IsEmpty-IsCoherent u (freehblk-IsEmpty s u h e)
Step-IsCoherent {s} {u} (got_first_part h size_needed index scratch allocated e) v =
    rw e (get_first_part-IsCoherent s h size_needed index scratch allocated v)
Step-IsCoherent {s} {u} (split hbp last_hbp index scratch allocated e) v =
    IsEmpty-IsCoherent u (rw e (split-IsEmpty s hbp last_hbp index scratch allocated))
Step-IsCoherent {s} {u} (set_up h lb_adjusted ignore mapped e) v =
    rw e (setup_header-IsCoherent s h lb_adjusted ignore mapped v)

-- After any sequence of lookups and operations on the heap from a state in which each cache entry
-- that a pointer can hit is that of a block in use, with its header, each entry is so again.
pub Reaches-IsCoherent : {s u : Collector} → Reaches s u → IsCoherent s → IsCoherent u
Reaches-IsCoherent start v = v
Reaches-IsCoherent (after r e) v = Step-IsCoherent e (Reaches-IsCoherent r v)

-- If lookups and operations on the heap lead, from a state in which each cache entry is that of a
-- block in use, to a state, and if in that state the heap is laid out well and the sizes of the blocks
-- in use are below `2 ^ 63`, then the lookup there, with the cache, for a pointer that is not to the
-- first page of the address space returns; it finds the block in use that the pointer is to, if
-- there is one, and nothing if there is none, and leaves the heap alone.
pub Reaches-Looks :
    {s u : Collector} (p : ℕ)
    → IsCoherent s
    → Reaches s u
    → IsLaid u.arena.table u.arena.heap.hdrs
    → IsSigned u
    → p / hblk_size ≢ 0
    → Returns (hc_get_hdr u p) (Looks u p)
Reaches-Looks {s} {u} p v r l signed ne = hc_get_hdr-Looks u p (Reaches-IsCoherent r v) l signed ne
