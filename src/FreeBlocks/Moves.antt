-- ===== src/FreeBlocks/Moves.antt =====
-- What the operations do to the free lists as lists of blocks.
use gcutil.Prelude.{
  ℕ, ◌-◌, ◌/◌, ◌%◌, ◌^◌, ◌≤◌, ◌<◌, ◌≡◌, ◌≢◌, refl, ap, true, false, ◌&&◌, not, ◌==◌, ==_iff, arith,
  List, ◌∷◌, Bool-cases, inl, inr, subst, sym, write_self, write_ne, ◌∙◌, write, word_add, word_sub,
}
use gcutil.FreeBlocks.{
  Hdr, Heap, hblk_size, hblk_fl_from_blocks, unlink, link_front, replace, remove_from_fl_at,
  remove_from_fl, add_to_fl, replace_at,
}
use gcutil.FreeBlocks.Lists.{
  has, IsDistinct, erase, swap, total, has-erase, erase-IsDistinct, has-swap, swap-IsDistinct,
  total_congr, total-erase, total-cons, total-swap,
}
use gcutil.FreeBlocks.Links.{
  SameLinks, Links, Links-frame, Links-zero, Links-head, Links-next, Links-prev, unlink-erase,
  unlink-next, unlink-prev, replace-swap, replace-next, replace-prev, link_front-cons,
  link_front-next, link_front-prev,
}
use gcutil.FreeBlocks.Fields.{unlink-hb_sz, link_front-hb_sz, replace-hb_sz}

abbrev pub size_of : (ℕ → Hdr) → ℕ → ℕ
size_of hdrs x = (hdrs x).hb_sz

-- The free lists hold the lists of blocks `ls`, doubly linked; no block is on two of them or
-- twice on one, and `GC_free_bytes` counts the bytes of each (as a word).
pub record Holds (s : Heap) (ls : ℕ → List ℕ) : Type 0 where
  pub links : (i : ℕ) → Links s.hdrs 0 (s.hblkfreelist i) (ls i)
  pub distinct : (i : ℕ) → IsDistinct (ls i)
  pub apart : (i j x : ℕ) → has x (ls i) ≡ true → has x (ls j) ≡ true → i ≡ j
  pub bytes : (i : ℕ) → s.free_bytes i ≡ total (size_of s.hdrs) (ls i) % 2 ^ 64
  pub bounded : (i x : ℕ) → has x (ls i) ≡ true → (s.hdrs x).hb_sz < 2 ^ 64

pub true≢false : true ≡ false → ⊥
true≢false e = cc

-- A step that gives list `index` the new blocks `xs`, and leaves the others alone.
pub record Replaces (s s' : Heap) (ls : ℕ → List ℕ) (index : ℕ) (xs : List ℕ) : Type 0 where
  pub links : Links s'.hdrs 0 (s'.hblkfreelist index) xs
  pub distinct : IsDistinct xs
  pub bytes : s'.free_bytes index ≡ total (size_of s'.hdrs) xs % 2 ^ 64
  pub bounded : (x : ℕ) → has x xs ≡ true → (s'.hdrs x).hb_sz < 2 ^ 64
  pub apart : (j x : ℕ) → j ≢ index → has x xs ≡ true → has x (ls j) ≡ false
  pub heads : (j : ℕ) → j ≢ index → s'.hblkfreelist j ≡ s.hblkfreelist j
  pub counts : (j : ℕ) → j ≢ index → s'.free_bytes j ≡ s.free_bytes j
  pub same_links : (j x : ℕ) → j ≢ index → has x (ls j) ≡ true → SameLinks (s'.hdrs x) (s.hdrs x)
  pub same_size : (j x : ℕ) → j ≢ index → has x (ls j) ≡ true → (s'.hdrs x).hb_sz ≡ (s.hdrs x).hb_sz

module _ {s s' : Heap} {ls : ℕ → List ℕ} {index : ℕ} {xs : List ℕ} (v : Holds s ls)
    (r : Replaces s s' ls index xs) where
  -- A statement about the list of each index, from the two kinds of index.
  each :
      (P : ℕ → List ℕ → Type 0)
      → P index xs
      → ((j : ℕ) → j ≢ index → P j (ls j))
      → (j : ℕ) → P j (write ls index xs j)
  each P there elsewhere j = elim (Bool-cases (j == index)) [
    | inl same ↦
        let e : index ≡ j = sym ((==_iff j index).0 same) in
        subst (λ k. P k (write ls index xs k)) e (rw (write_self ls index xs) there)
    | inr other ↦
        let ne : j ≢ index = ground arith in rw (write_ne ls index xs j ne) (elsewhere j ne)
  ]

  pub Replaces-Holds : Holds s' (write ls index xs)
  Replaces-Holds = record {
    links =
        each (λ j l. Links s'.hdrs 0 (s'.hblkfreelist j) l) r.links
          (λ j ne. rw (r.heads j ne) (
            Links-frame s.hdrs s'.hdrs 0 (s.hblkfreelist j) (ls j) (λ x i. r.same_links j x ne i)
              (v.links j)));
    distinct = each (λ j l. IsDistinct l) r.distinct (λ j ne. v.distinct j);
    bytes =
        each (λ j l. s'.free_bytes j ≡ total (size_of s'.hdrs) l % 2 ^ 64) r.bytes
          (λ j ne.
            r.counts j ne
            ∙ v.bytes j
            ∙ ap (λ n. n % 2 ^ 64)
                (total_congr (size_of s.hdrs) (size_of s'.hdrs) (ls j)
                  (λ x i. sym (r.same_size j x ne i))));
    bounded =
        each (λ j l. (x : ℕ) → has x l ≡ true → (s'.hdrs x).hb_sz < 2 ^ 64) r.bounded
          (λ j ne x i. rw (r.same_size j x ne i) (v.bounded j x i));
    apart =
        each (λ j l. (k x : ℕ) → has x l ≡ true → has x (write ls index xs k) ≡ true → j ≡ k)
          (each (λ k l. (x : ℕ) → has x xs ≡ true → has x l ≡ true → index ≡ k) (λ x a b. refl)
            (λ k ne x a b. absurd (true≢false (sym b ∙ r.apart k x ne a))))
          (λ j ne.
            each (λ k l. (x : ℕ) → has x (ls j) ≡ true → has x l ≡ true → j ≡ k)
              (λ x a b. absurd (true≢false (sym a ∙ r.apart j x ne b)))
              (λ k ne' x a b. v.apart j k x a b));
  }

module _ (s : Heap) (ls : ℕ → List ℕ) (v : Holds s ls) (h index : ℕ)
    (i : has h (ls index) ≡ true) where
  -- What stands next to `h` is on its list, so a block of another list is no neighbour of it.
  no_neighbour :
      (j x : ℕ)
      → j ≢ index
      → has x (ls j) ≡ true
      → ((x == (s.hdrs h).hb_next && not ((s.hdrs h).hb_next == 0)) ≡ false)
        × ((x == (s.hdrs h).hb_prev && not ((s.hdrs h).hb_prev == 0)) ≡ false)
  no_neighbour j x ne a = (
    elim (Links-next s.hdrs h 0 (s.hblkfreelist index) (ls index) i (v.links index)) [
      | inl end ↦ ground arith
      | inr more ↦ ground (arith, v.apart j index x a)
    ],
    elim (Links-prev s.hdrs h 0 (s.hblkfreelist index) (ls index) i (v.links index)) [
      | inl (f, g) ↦ ground arith
      | inr (f, g) ↦ ground (arith, v.apart j index x a)
    ],
  )

  zero_out : has 0 (ls index) ≡ false
  zero_out = Links-zero s.hdrs 0 (s.hblkfreelist index) (ls index) (v.links index)

  -- `h` is the first of its list exactly if it has no block before it.
  first_iff : ((s.hdrs h).hb_prev == 0) ≡ (s.hblkfreelist index == h)
  first_iff = elim (Links-prev s.hdrs h 0 (s.hblkfreelist index) (ls index) i (v.links index)) [
    | inl (f, g) ↦ ground arith
    | inr (f, g) ↦ ground (arith, zero_out)
  ]

  pub remove_from_fl_at-Replaces :
      Replaces s (remove_from_fl_at s h index) ls index (erase h (ls index))
  unfolding remove_from_fl_at write
  remove_from_fl_at-Replaces = record {
    links =
        subst (λ p. Links (unlink s.hdrs h) 0 p (erase h (ls index))) (ground (arith, first_iff))
          (unlink-erase s.hdrs h 0 (s.hblkfreelist index) (ls index) i zero_out (v.distinct index)
            (v.links index));
    distinct = erase-IsDistinct h (ls index) (v.distinct index);
    bytes =
        let sizes =
          total_congr (size_of (unlink s.hdrs h)) (size_of s.hdrs) (erase h (ls index))
            (λ x a. unlink-hb_sz s.hdrs h x) in
        let sum = total-erase (size_of s.hdrs) h (ls index) i in
        let held = v.bytes index in let small = v.bounded index h i in ground arith;
    bounded = λ x a.
        rw (unlink-hb_sz s.hdrs h x)
          (v.bounded index x (ground (arith, has-erase x h (ls index) (v.distinct index))));
    apart =
        λ j x ne a. ground (arith, v.apart j index x, has-erase x h (ls index) (v.distinct index));
    heads = λ j ne. ground arith;
    counts = λ j ne. ground arith;
    same_links = λ j x ne a. (
      unlink-next s.hdrs h x ∙ ground (arith, no_neighbour j x ne a),
      unlink-prev s.hdrs h x ∙ ground (arith, no_neighbour j x ne a),
    );
    same_size = λ j x ne a. unlink-hb_sz s.hdrs h x;
  }

  pub replace_at-Replaces :
      (last h_size : ℕ)
      → last ≢ 0
      → ((j : ℕ) → has last (ls j) ≡ false)
      → h_size ≤ (s.hdrs h).hb_sz
      → Replaces s (replace_at s h last h_size index) ls index (swap h last (ls index))
  unfolding replace_at write
  replace_at-Replaces last h_size nz fresh le = record {
    links =
        subst (λ p. Links (replace s.hdrs h last h_size) 0 p (swap h last (ls index)))
          (ground (arith, first_iff))
          (replace-swap s.hdrs h last h_size 0 (s.hblkfreelist index) (ls index) i zero_out
            (fresh index) nz nz (v.distinct index) (v.links index));
    distinct = swap-IsDistinct h last (ls index) (v.distinct index) i (fresh index);
    bytes =
        let f = size_of (replace s.hdrs h last h_size) in
        let swapped = total-swap f h last (ls index) i in
        let at_last : f last ≡ (s.hdrs h).hb_sz - h_size =
          replace-hb_sz s.hdrs h last h_size last ∙ ground arith in
        let at_h : f h ≡ (s.hdrs h).hb_sz =
          replace-hb_sz s.hdrs h last h_size h ∙ ground (arith, fresh index) in
        let others =
          total_congr f (size_of s.hdrs) (ls index)
            (λ x a. replace-hb_sz s.hdrs h last h_size x ∙ ground (arith, fresh index)) in
        let part = total-erase (size_of s.hdrs) h (ls index) i in
        let held = v.bytes index in
        let small = v.bounded index h i in
        rw (write_self s.free_bytes index (word_sub (s.free_bytes index) h_size)) (omega arith);
    bounded = λ x a. rw (replace-hb_sz s.hdrs h last h_size x) (
        ground (
          arith,
          v.bounded index x,
          v.bounded index h i,
          has-swap x h last (ls index) (v.distinct index) i,
        ));
    apart = λ j x ne a.
        ground
          (arith, v.apart j index x, fresh j, has-swap x h last (ls index) (v.distinct index) i);
    heads = λ j ne. ground arith;
    counts = λ j ne. ground arith;
    same_links = λ j x ne a. (
      replace-next s.hdrs h last h_size x ∙ ground (arith, no_neighbour j x ne a, fresh j),
      replace-prev s.hdrs h last h_size x ∙ ground (arith, no_neighbour j x ne a, fresh j),
    );
    same_size = λ j x ne a. replace-hb_sz s.hdrs h last h_size x ∙ ground (arith, fresh j);
  }

module _ (s : Heap) (ls : ℕ → List ℕ) (v : Holds s ls) (h : ℕ) (nz : h ≢ 0)
    (out : (j : ℕ) → has h (ls j) ≡ false) (small : (s.hdrs h).hb_sz < 2 ^ 64) where
  pub add_to_fl-Replaces :
      Replaces s
        (add_to_fl s h)
        ls
        (hblk_fl_from_blocks ((s.hdrs h).hb_sz / hblk_size))
        (h ∷ ls (hblk_fl_from_blocks ((s.hdrs h).hb_sz / hblk_size)))
  unfolding add_to_fl write
  add_to_fl-Replaces =
      let index = hblk_fl_from_blocks ((s.hdrs h).hb_sz / hblk_size) in
      let second = s.hblkfreelist index in
      record {
        links =
            let l =
              link_front-cons s.hdrs h second (ls index) nz (out index) (v.distinct index)
                (v.links index) in
            subst (λ p. Links (link_front s.hdrs h second) 0 p (h ∷ ls index)) (ground arith) l;
        distinct = (out index, v.distinct index);
        bytes =
            let f = size_of (link_front s.hdrs h second) in
            let more = total-cons f h (ls index) in
            let at_h : f h ≡ (s.hdrs h).hb_sz = link_front-hb_sz s.hdrs h second h in
            let others =
              total_congr f (size_of s.hdrs) (ls index)
                (λ x a. link_front-hb_sz s.hdrs h second x) in
            let held = v.bytes index in
            rw (write_self s.free_bytes index (word_add (s.free_bytes index) (s.hdrs h).hb_sz))
              (omega arith);
        bounded =
            λ x a. rw (link_front-hb_sz s.hdrs h second x) (ground (arith, v.bounded index x));
        apart = λ j x ne a. ground (arith, v.apart j index x, out j);
        heads = λ j ne. ground arith;
        counts = λ j ne. ground arith;
        same_links = λ j x ne a. (
          link_front-next s.hdrs h second x nz ∙ ground (arith, out j),
          link_front-prev s.hdrs h second x
              ∙ (elim (Links-head s.hdrs 0 second (ls index) (v.links index)) [
                | inl end ↦ ground (arith, out j)
                | inr first ↦ ground (arith, out j, v.apart j index x a)
              ]),
        );
        same_size = λ j x ne a. link_front-hb_sz s.hdrs h second x;
      }

-- `GC_remove_from_fl_at` takes the block off its list, and leaves the other lists alone.
pub remove_from_fl_at-Holds :
    (s : Heap) (ls : ℕ → List ℕ) (h index : ℕ)
    → Holds s ls
    → has h (ls index) ≡ true
    → Holds (remove_from_fl_at s h index) (write ls index (erase h (ls index)))
remove_from_fl_at-Holds s ls h index v i =
    Replaces-Holds v (remove_from_fl_at-Replaces s ls v h index i)

-- `GC_add_to_fl` puts a block of size `sz` that is on no list in front of the list of its class.
pub add_to_fl-Holds :
    (s : Heap) (ls : ℕ → List ℕ) (h sz : ℕ)
    → Holds s ls
    → h ≢ 0
    → ((j : ℕ) → has h (ls j) ≡ false)
    → (s.hdrs h).hb_sz ≡ sz
    → sz < 2 ^ 64
    → let index = hblk_fl_from_blocks (sz / hblk_size) in
      Holds (add_to_fl s h) (write ls index (h ∷ ls index))
add_to_fl-Holds s ls h sz v nz out e small =
    subst
      (λ k. Holds (add_to_fl s h) (
        write ls (hblk_fl_from_blocks (k / hblk_size))
          (h ∷ ls (hblk_fl_from_blocks (k / hblk_size)))))
      e (Replaces-Holds v (add_to_fl-Replaces s ls v h nz out (rw e small)))

-- `GC_remove_from_fl` takes a block off the list of its class.
pub remove_from_fl-Holds :
    (s : Heap) (ls : ℕ → List ℕ) (h : ℕ)
    → Holds s ls
    → let index = hblk_fl_from_blocks ((s.hdrs h).hb_sz / hblk_size) in
      has h (ls index) ≡ true → Holds (remove_from_fl s h) (write ls index (erase h (ls index)))
unfolding remove_from_fl
remove_from_fl-Holds s ls h v i =
    remove_from_fl_at-Holds s ls h (hblk_fl_from_blocks ((s.hdrs h).hb_sz / hblk_size)) v i
