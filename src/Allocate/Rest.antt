-- ===== src/Allocate/Rest.antt =====
-- The heap after `GC_get_first_part` has filed the rest of a block.
use gcutil.Prelude.{
  ℕ, ◌+◌, ◌-◌, ◌*◌, ◌/◌, ◌%◌, ◌^◌, ◌<◌, ◌≡◌, ◌≢◌, refl, sym, ap, ◌∙◌, subst, Bool, true, false,
  ◌||◌, ◌&&◌, ◌==◌, ==_iff, arith, List, ◌∷◌, Bool-cases, inl, inr, write, write_ne, some,
}
use gcutil.FreeBlocks.{hblk_size, hblk_fl_from_blocks, get_first_part, set_sz}
use gcutil.FreeBlocks.Cuts.{get_first_part-fields}
use gcutil.FreeBlocks.Lists.{has}
use gcutil.FreeBlocks.Moves.{Holds, true≢false}
use gcutil.FreeBlocks.Split.{get_first_part-Holds, Holds-outside}
use gcutil.Headers.{BlockTable, header}
use gcutil.Headers.Install.{Installed}
use gcutil.Headers.Laid.{end_of}
use gcutil.Freeing.{Arena, hdr_at}
use gcutil.Freeing.Loose.{IsFree, IsLoose, class_of}
use gcutil.Allocate.Divide.{Divides, IsDivided, Divides-IsDivided}
use gcutil.Allocate.State.{IsOn, IsLow, KeepsAllUsed}
use gcutil.Allocate.Part.{erased, erased_out, erased_other, erased_listed, rest_out}

module _ (a : Arena) (ls : ℕ → List ℕ) (h index : ℕ) (v : IsOn a ls h index) where
  module _ (n : ℕ) (pages : n % hblk_size ≡ 0) (pos : 0 < n) (less : n < (hdr_at a h).hb_sz)
      (t : BlockTable) (inst : Installed a.table t (h + n / hblk_size)) where
    rest : ℕ
    rest = h + n / hblk_size

    above : h < h + n / hblk_size
    above = omega arith

    inside : h + n / hblk_size < end_of a.heap.hdrs h
    inside = let w = v.laid.whole h v.free.0 v.free.1 in omega arith

    left : ℕ
    left = (hdr_at a h).hb_sz - n

    -- The heap as it is but for the size of `h`, which is that of the part.
    unfoldable pub parted : Arena
    parted = record a { heap = set_sz (get_first_part a.heap h n index true).0 h n; table = t }

    class : ℕ
    class = hblk_fl_from_blocks (((hdr_at a h).hb_sz - n) / hblk_size)

    pub parted_lists : ℕ → List ℕ
    parted_lists =
        write (erased a ls h index v) class ((h + n / hblk_size) ∷ (erased a ls h index v) class)

    has-parted_lists :
        (j y : ℕ)
        → has y (parted_lists j)
          ≡ (((j == class) && (y == h + n / hblk_size)) || has y ((erased a ls h index v) j))
    unfolding parted_lists write
    has-parted_lists j y = ground arith

    divides : Divides a.heap.hdrs parted.heap.hdrs h (h + n / hblk_size)
    unfolding parted set_sz write
    divides =
        let f = λ (y : ℕ). get_first_part-fields a.heap h n index y (omega arith) in
        record {
          low = ground arith;
          high = ground (arith, f (h + n / hblk_size));
          size = λ x k m. ground (arith, f x);
          free = λ x. ground (arith, f x, f h);
          block = λ x. ground (arith, f x, f h);
        }

    parts : IsDivided a.table t a.heap.hdrs parted.heap.hdrs h (h + n / hblk_size)
    parts =
        Divides-IsDivided a.table t a.heap.hdrs parted.heap.hdrs v.laid h (h + n / hblk_size) inst
          divides v.free.0 v.free.1 above inside

    was_free : (b : ℕ) → IsFree parted b → b ≢ h + n / hblk_size → IsFree a b
    unfolding parted
    was_free b (e, f) k = (parts.was_header b e k, sym (parts.free_same b k) ∙ f)

    still_at :
        (b : ℕ) (f : Bool)
        → a.table.slots b ≡ header
        → (hdr_at a b).hb_free ≡ f
        → (parted.table.slots b ≡ header) × ((hdr_at parted b).hb_free ≡ f)
    unfolding parted
    still_at b f e g = (parts.still_header b e, parts.free_same b (parts.new b e) ∙ g)

    rest_free : IsFree parted (h + n / hblk_size)
    unfolding parted
    rest_free = (parts.slot_m, parts.free_m)

    h_out : (j : ℕ) → has h (parted_lists j) ≡ false
    h_out j = ground (arith, has-parted_lists j h, erased_out a ls h index v j)

    parted_Holds : Holds parted.heap parted_lists
    unfolding parted parted_lists class erased set_sz
    parted_Holds =
        let k : (hdr_at a h).hb_sz ≢ n = omega arith in
        let s = (get_first_part a.heap h n index true).0 in
        let heaps =
          (get_first_part-Holds a.heap ls v.holds h index v.at_index n (omega arith)
              (rest_out a ls h index v (h + n / hblk_size) above (omega (arith, inside)))).1
            k in
        Holds-outside s (set_sz s h n) parted_lists h heaps.1 h_out (λ j. refl) (λ j. refl)
          (λ x ne. rw (write_ne s.hdrs h _ x ne) (refl, refl))
          (λ x ne. rw (write_ne s.hdrs h _ x ne) refl)

    pub parted_some : (get_first_part a.heap h n index true).1 ≡ some h
    parted_some =
        let k : (hdr_at a h).hb_sz ≢ n = omega arith in
        ((get_first_part-Holds a.heap ls v.holds h index v.at_index n (omega arith)
            (rest_out a ls h index v (h + n / hblk_size) above (omega (arith, inside)))).1
          k).0

    -- Cases on a free block of the new heap.
    by_free :
        (P : ℕ → Type 0)
        → P h
        → P (h + n / hblk_size)
        → ((b : ℕ) → b ≢ h → b ≢ h + n / hblk_size → IsFree a b → P b)
        → (b : ℕ) → IsFree parted b
        → P b
    by_free P low high other b f = elim (Bool-cases (b == h)) [
      | inl same ↦ subst P (sym ((==_iff b h).0 same)) low
      | inr old ↦ elim (Bool-cases (b == h + n / hblk_size)) [
        | inl same ↦ subst P (sym ((==_iff b (h + n / hblk_size)).0 same)) high
        | inr new ↦ other b (ground arith) (ground arith) (was_free b f (ground arith))
      ]
    ]

    listed' : (j x : ℕ) → has x (parted_lists j) ≡ true → IsFree parted x
    listed' j x e = elim (Bool-cases (x == h + n / hblk_size)) [
      | inl same ↦
          subst (λ y. IsFree parted y) (sym ((==_iff x (h + n / hblk_size)).0 same)) rest_free
      | inr new ↦
          let (k, e') = erased_listed a ls h index v j x (ground (arith, has-parted_lists j x)) in
          let f = v.listed j x e' in still_at x true f.0 f.1
    ]

    filed_rest :
        has (h + n / hblk_size) (parted_lists (class_of parted.heap.hdrs (h + n / hblk_size)))
        ≡ true
    unfolding class
    filed_rest =
        let c : class_of parted.heap.hdrs (h + n / hblk_size) ≡ class =
          ap (λ k. hblk_fl_from_blocks (k / hblk_size)) (divides.high ∙ omega arith) in
        ground (
          arith,
          has-parted_lists (class_of parted.heap.hdrs (h + n / hblk_size)) (h + n / hblk_size),
        )

    pub parted-IsLow : IsLow parted
    parted-IsLow =
        by_free (λ b. end_of parted.heap.hdrs b * hblk_size < 2 ^ 63)
          (let q = parts.end_low in
            let q' = parts.end_high in
            let q'' = parts.end_other in omega (arith, v.low h v.free, inside))
          (let q = parts.end_low in
            let q' = parts.end_high in let q'' = parts.end_other in omega (arith, v.low h v.free))
          (λ b k m f. let q = parts.end_other b k m in omega (arith, v.low b f))

    first_page : parted.table.slots 0 ≡ header → ⊥
    unfolding parted
    first_page e = v.nonzero (sym (inst.slot 0 ∙ ground arith) ∙ e)

    apart' :
        (b : ℕ)
        → IsFree parted b
        → (c : ℕ) → IsFree parted c
        → b ≢ h
        → c ≢ h
        → end_of parted.heap.hdrs b ≡ c
        → ⊥
    apart' =
        let q = parts.end_low in
        let q' = parts.end_high in
        let q'' = parts.end_other in
        by_free (λ b. (c : ℕ) → IsFree parted c → b ≢ h → c ≢ h → end_of parted.heap.hdrs b ≡ c → ⊥)
          (λ c g k k' e. k refl)
          (λ c g k k' e.
            v.separate h c v.free (was_free c g (omega (arith, inside))) k' (sym q' ∙ e))
          (λ b m m' f c g k k' e. elim (Bool-cases (c == h + n / hblk_size)) [
            | inr other ↦ v.separate b c f (was_free c g (ground arith)) k' (sym (q'' b m m') ∙ e)
            | inl same ↦
                let s = q'' b m m' in
                absurd (
                  ground (
                    arith,
                    above,
                    inside,
                    v.laid.apart b h f.0 v.free.0,
                    v.laid.apart h b v.free.0 f.0,
                  ))
          ])

    pub parted-IsLoose : IsLoose parted parted_lists h
    parted-IsLoose = record {
      holds = parted_Holds;
      laid = unfold parted in parts.laid;
      nonzero = λ e. first_page e;
      out = h_out;
      filed =
          by_free (λ b. b ≢ h → has b (parted_lists (class_of parted.heap.hdrs b)) ≡ true)
            (λ k. absurd (k refl)) (λ k. filed_rest)
            (λ b k m f k'. rw (divides.size b k m) (
              ground (
                arith,
                has-parted_lists (class_of a.heap.hdrs b) b,
                erased_other a ls h index v (class_of a.heap.hdrs b) b k,
                v.filed b f k,
              )));
      listed = listed';
      small = λ b f. omega (arith, parted-IsLow b f);
      separate = λ b c f g k k' e. absurd (apart' b f c g k k' e);
    }

    pub parted_size : (hdr_at parted h).hb_sz ≡ n
    parted_size = divides.low ∙ omega arith

    pub parted_free : IsFree parted h
    parted_free = still_at h true v.free.0 v.free.1

    pub parted-KeepsAllUsed : KeepsAllUsed a parted
    parted-KeepsAllUsed b (e, u) =
        let k : b ≢ h = λ s. true≢false (sym (ap (λ x. (hdr_at a x).hb_free) s ∙ v.free.1) ∙ u) in
        (still_at b false e u, parts.end_other b k (parts.new b e))
