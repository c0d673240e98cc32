-- ===== src/FreeBlocks/Split.antt =====
-- Splitting free blocks: `GC_get_first_part` and `GC_split_block`.
use gcutil.Prelude.{
  ℕ, ◌+◌, ◌-◌, ◌*◌, ◌/◌, ◌%◌, ◌^◌, ◌≤◌, ◌≡◌, ◌≢◌, refl, ap, Bool, true, false, ◌==◌, if◌then◌else◌,
  arith, List, ◌∷◌, sym, write_ne, ◌∙◌, write, some, none,
}
use gcutil.FreeBlocks.{
  Heap, hblk_size, hblk_fl_from_blocks, remove_from_fl_at, add_to_fl, rest_header, get_first_part,
  replace_at, set_sz, set_free, split_block,
}
use gcutil.FreeBlocks.Lists.{has, erase, swap, has-erase, has-swap, total_congr}
use gcutil.FreeBlocks.Links.{SameLinks, Links-frame, Links-zero}
use gcutil.FreeBlocks.Fields.{unlink-hb_free, link_front-hb_sz, replace-hb_sz}
use gcutil.FreeBlocks.Moves.{
  Holds, size_of, replace_at-Replaces, Replaces-Holds, remove_from_fl_at-Holds, add_to_fl-Holds,
}

-- A change of the header of a block that is on no list.
pub Holds-outside :
    (s s' : Heap) (ls : ℕ → List ℕ) (h : ℕ)
    → Holds s ls
    → ((j : ℕ) → has h (ls j) ≡ false)
    → ((j : ℕ) → s'.hblkfreelist j ≡ s.hblkfreelist j)
    → ((j : ℕ) → s'.free_bytes j ≡ s.free_bytes j)
    → ((x : ℕ) → x ≢ h → SameLinks (s'.hdrs x) (s.hdrs x))
    → ((x : ℕ) → x ≢ h → (s'.hdrs x).hb_sz ≡ (s.hdrs x).hb_sz)
    → Holds s' ls
Holds-outside s s' ls h v out heads counts same_links same_size = record {
  links = λ j. rw (heads j) (
      Links-frame s.hdrs s'.hdrs 0 (s.hblkfreelist j) (ls j) (λ x i. same_links x (other j x i))
        (v.links j));
  distinct = v.distinct;
  apart = v.apart;
  bytes = λ j.
      counts j
      ∙ v.bytes j
      ∙ ap (λ n. n % 2 ^ 64)
          (total_congr (size_of s.hdrs) (size_of s'.hdrs) (ls j)
            (λ x i. sym (same_size x (other j x i))));
  bounded = λ j x i. rw (same_size x (other j x i)) (v.bounded j x i);
}
  where
    other : (j x : ℕ) → has x (ls j) ≡ true → x ≢ h
    other j x i = ground (arith, out j)

pub add_to_fl-hb_sz : (s : Heap) (h y : ℕ) → ((add_to_fl s h).hdrs y).hb_sz ≡ (s.hdrs y).hb_sz
unfolding add_to_fl
add_to_fl-hb_sz s h y =
    link_front-hb_sz s.hdrs h (s.hblkfreelist (hblk_fl_from_blocks ((s.hdrs h).hb_sz / hblk_size)))
      y

module _ (s : Heap) (ls : ℕ → List ℕ) (v : Holds s ls) (h index : ℕ)
    (i : has h (ls index) ≡ true) where
  out_after :
      (rest : ℕ)
      → ((j : ℕ) → has rest (ls j) ≡ false)
      → (j : ℕ) → has rest (write ls index (erase h (ls index)) j) ≡ false
  unfolding write
  out_after rest out j =
      ground (arith, out j, out index, has-erase rest h (ls index) (v.distinct index))

  rest_header-Holds :
      (rest sz : ℕ)
      → ((j : ℕ) → has rest (ls j) ≡ false)
      → Holds
          (rest_header (remove_from_fl_at s h index) rest sz)
          (write ls index (erase h (ls index)))
  unfolding rest_header
  rest_header-Holds rest sz out =
      let s' = remove_from_fl_at s h index in
      let outside = λ (j : ℕ). out_after rest out j in
      Holds-outside s' _ _ rest (remove_from_fl_at-Holds s ls h index v i) outside (λ j. refl)
        (λ j. refl) (λ x ne. rw (write_ne s'.hdrs rest _ x ne) (refl, refl))
        (λ x ne. rw (write_ne s'.hdrs rest _ x ne) refl)

  rest_header-hb_sz :
      (rest sz : ℕ) → ((rest_header (remove_from_fl_at s h index) rest sz).hdrs rest).hb_sz ≡ sz
  unfolding rest_header write
  rest_header-hb_sz rest sz = ground arith

  h_not_zero : h ≢ 0
  h_not_zero =
      let out = Links-zero s.hdrs 0 (s.hblkfreelist index) (ls index) (v.links index) in
      ground arith

  pub get_first_part_whole :
      (size_needed : ℕ) (installed : Bool)
      → (s.hdrs h).hb_sz ≡ size_needed
      → get_first_part s h size_needed index installed ≡ (remove_from_fl_at s h index, some h)
  unfolding get_first_part
  get_first_part_whole size_needed installed e =
      let t : ((s.hdrs h).hb_sz == size_needed) ≡ true = ground arith in rw t

  get_first_part_less :
      (size_needed : ℕ)
      → (s.hdrs h).hb_sz ≢ size_needed
      → let rest = h + size_needed / hblk_size in
        let headed =
          rest_header (remove_from_fl_at s h index) rest ((s.hdrs h).hb_sz - size_needed) in
        (get_first_part s h size_needed index true ≡ (add_to_fl headed rest, some h))
        × (get_first_part s h size_needed index false ≡ (remove_from_fl_at s h index, none))
  unfolding get_first_part
  get_first_part_less size_needed ne =
      let t : ((s.hdrs h).hb_sz == size_needed) ≡ false = ground arith in (rw t, rw t)

  add_rest-Holds :
      (size_needed : ℕ)
      → ((j : ℕ) → has (h + size_needed / hblk_size) (ls j) ≡ false)
      → let rest = h + size_needed / hblk_size in
        let left = (s.hdrs h).hb_sz - size_needed in
        let ls' = write ls index (erase h (ls index)) in
        let c = hblk_fl_from_blocks (left / hblk_size) in
        Holds
          (add_to_fl (rest_header (remove_from_fl_at s h index) rest left) rest)
          (write ls' c (rest ∷ ls' c))
  add_rest-Holds size_needed out =
      let rest : ℕ = h + size_needed / hblk_size in
      let left : ℕ = (s.hdrs h).hb_sz - size_needed in
      add_to_fl-Holds (rest_header (remove_from_fl_at s h index) rest left)
        (write ls index (erase h (ls index))) rest left (rest_header-Holds rest left out)
        (omega (arith, h_not_zero)) (out_after rest out) (rest_header-hb_sz rest left)
        (omega (arith, v.bounded index h i))

  -- The block `h` of list `index` is to give its first `size_needed` bytes; the block behind
  -- those has no entry on any list. If `h` is no larger, it is taken off its list and returned. If
  -- it is larger and the new header is there, `h` is taken off and returned, and the rest, with the
  -- bytes left over, stands in front of the list of its own class. Without a header `h` is taken
  -- off and nothing is returned. In each case the lists stay well linked and counted.
  pub get_first_part-Holds :
      (size_needed : ℕ)
      → size_needed ≤ (s.hdrs h).hb_sz
      → ((j : ℕ) → has (h + size_needed / hblk_size) (ls j) ≡ false)
      → let r = get_first_part s h size_needed index in
        let rest = h + size_needed / hblk_size in
        let left = (s.hdrs h).hb_sz - size_needed in
        let ls' = write ls index (erase h (ls index)) in
        let c = hblk_fl_from_blocks (left / hblk_size) in
        ((s.hdrs h).hb_sz ≡ size_needed → (b : Bool) → ((r b).1 ≡ some h) × Holds (r b).0 ls')
        × ((s.hdrs h).hb_sz ≢ size_needed
            → ((r true).1 ≡ some h)
              × Holds (r true).0 (write ls' c (rest ∷ ls' c))
              × (((r true).0.hdrs rest).hb_sz ≡ left)
              × ((r false).1 ≡ none)
              × Holds (r false).0 ls')
  get_first_part-Holds size_needed le out = (
    λ e b.
        rw (get_first_part_whole size_needed b e) (refl, remove_from_fl_at-Holds s ls h index v i),
    λ ne.
        let (split, lost) = get_first_part_less size_needed ne in
        (
          rw split,
          rw split (add_rest-Holds size_needed out),
          rw split (
              add_to_fl-hb_sz _ _ _
              ∙ rest_header-hb_sz (h + size_needed / hblk_size) ((s.hdrs h).hb_sz - size_needed)),
          rw lost,
          rw lost (remove_from_fl_at-Holds s ls h index v i),
        ),
  )

-- A block that is taken whole leaves each flag `FREE_BLK` as it was.
pub get_first_part-hb_free :
    (s : Heap) (h size_needed index : ℕ) (installed : Bool) (x : ℕ)
    → ((s.hdrs h).hb_sz == size_needed) ≡ true
    → ((get_first_part s h size_needed index installed).0.hdrs x).hb_free ≡ (s.hdrs x).hb_free
unfolding get_first_part remove_from_fl_at
get_first_part-hb_free s h size_needed index installed x e = rw e (unlink-hb_free s.hdrs h x)

set_free-hb_sz : (s : Heap) (h x : ℕ) → ((set_free s h).hdrs x).hb_sz ≡ (s.hdrs x).hb_sz
unfolding set_free write
set_free-hb_sz s h x = ground arith

set_free-SameLinks : (s : Heap) (h x : ℕ) → SameLinks ((set_free s h).hdrs x) (s.hdrs x)
unfolding set_free write
set_free-SameLinks s h x = (ground arith, ground arith)

set_free-same :
    (s : Heap) (h j : ℕ)
    → ((set_free s h).hblkfreelist j ≡ s.hblkfreelist j)
      × ((set_free s h).free_bytes j ≡ s.free_bytes j)
unfolding set_free
set_free-same s h j = (refl, refl)

pub set_free-Holds : (s : Heap) (h : ℕ) (ls : ℕ → List ℕ) → Holds s ls → Holds (set_free s h) ls
set_free-Holds s h ls v =
    Holds-outside s (set_free s h) ls 0 v
      (λ j. Links-zero s.hdrs 0 (s.hblkfreelist j) (ls j) (v.links j))
      (λ j. (set_free-same s h j).0) (λ j. (set_free-same s h j).1)
      (λ x ne. set_free-SameLinks s h x) (λ x ne. set_free-hb_sz s h x)

module _ (s : Heap) (ls : ℕ → List ℕ) (v : Holds s ls) (h last index : ℕ)
    (i : has h (ls index) ≡ true) (nz : last ≢ 0) (fresh : (j : ℕ) → has last (ls j) ≡ false) where
  swapped : ℕ → List ℕ
  swapped = write ls index (swap h last (ls index))

  out_of_swapped : (j : ℕ) → has h (swapped j) ≡ false
  unfolding swapped write
  out_of_swapped j =
      ground
        (arith, v.apart j index h, fresh index, has-swap h h last (ls index) (v.distinct index) i)

  last_at_index : has last (swapped index) ≡ true
  unfolding swapped write
  last_at_index = ground (arith, has-swap last h last (ls index) (v.distinct index) i)

  module _ (le : (last - h) * hblk_size ≤ (s.hdrs h).hb_sz) where
    h_size : ℕ
    h_size = (last - h) * hblk_size

    replaced : Heap
    replaced = replace_at s h last h_size index

    replaced-Holds : Holds replaced swapped
    unfolding replaced swapped h_size
    replaced-Holds = Replaces-Holds v (replace_at-Replaces s ls v h index i last h_size nz fresh le)

    sized : Heap
    sized = set_sz replaced h h_size

    sized-hb_sz :
        (x : ℕ) → (sized.hdrs x).hb_sz ≡ (if x == h then h_size else (replaced.hdrs x).hb_sz)
    unfolding sized set_sz write
    sized-hb_sz x = ground arith

    sized-Holds : Holds sized swapped
    unfolding sized set_sz
    sized-Holds =
        Holds-outside replaced (set_sz replaced h h_size) swapped h replaced-Holds out_of_swapped
          (λ j. refl) (λ j. refl) (λ x ne. rw (write_ne replaced.hdrs h _ x ne) (refl, refl))
          (λ x ne. rw (write_ne replaced.hdrs h _ x ne) refl)

    filed-Holds :
        let c = hblk_fl_from_blocks (h_size / hblk_size) in
        Holds (add_to_fl sized h) (write swapped c (h ∷ swapped c))
    unfolding h_size
    filed-Holds =
        add_to_fl-Holds sized swapped h h_size sized-Holds (h_not_zero s ls v h index i)
          out_of_swapped (sized-hb_sz h ∙ ground arith) (omega (arith, v.bounded index h i, le))

    split_block-steps : split_block s h last index ≡ set_free (add_to_fl sized h) last
    unfolding split_block sized replaced h_size
    split_block-steps = refl

    upper-hb_sz : (sized.hdrs last).hb_sz ≡ (s.hdrs h).hb_sz - h_size
    unfolding replaced replace_at
    upper-hb_sz =
        let e = replace-hb_sz s.hdrs h last h_size last in
        sized-hb_sz last ∙ ground (arith, fresh index)

  -- `h` stands on list `index`, `last` is the number of a block inside it that is on no list. The
  -- lower part, `h` up to `last`, goes in front of the list of its class and has the bytes up to
  -- `last`; the upper part, `last`, takes the place of `h` on list `index`, whatever its class, and
  -- has the bytes left over. The two sizes sum to the old one, and the lists stay well linked and
  -- counted.
  pub split_block-Holds :
      (last - h) * hblk_size ≤ (s.hdrs h).hb_sz
      → let s' = split_block s h last index in
        let h_size = (last - h) * hblk_size in
        let ls' = write ls index (swap h last (ls index)) in
        let c = hblk_fl_from_blocks (h_size / hblk_size) in
        Holds s' (write ls' c (h ∷ ls' c))
        × ((s'.hdrs h).hb_sz ≡ h_size)
        × ((s'.hdrs last).hb_sz + h_size ≡ (s.hdrs h).hb_sz)
  unfolding swapped h_size
  split_block-Holds le = (
    rw (split_block-steps le) (set_free-Holds _ last _ (filed-Holds le)),
    rw (split_block-steps le) (
        set_free-hb_sz _ last h ∙ add_to_fl-hb_sz (sized le) h h ∙ sized-hb_sz le h ∙ ground arith),
    rw (split_block-steps le) (
        ap (λ n. n + (last - h) * hblk_size)
          (set_free-hb_sz _ last last ∙ add_to_fl-hb_sz (sized le) h last ∙ upper-hb_sz le)
        ∙ omega arith),
  )
