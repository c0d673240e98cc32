-- ===== src/Allocate/Drop.antt =====
-- Dropping a block that is completely black listed (`drop_hblk_in_chunks`).
use gcutil.Prelude.{
  ℕ, ◌+◌, ◌-◌, ◌*◌, ◌%◌, ◌^◌, ◌<◌, ◌≡◌, ◌≢◌, refl, sym, ap, ◌∙◌, subst, true, false, ◌==◌, ==_iff,
  arith, List, Bool-cases, inl, inr, write, write_ne,
}
use gcutil.FreeBlocks.{Heap, Hdr, hblk_size}
use gcutil.FreeBlocks.Lists.{has}
use gcutil.FreeBlocks.Moves.{Holds, true≢false}
use gcutil.FreeBlocks.Split.{Holds-outside}
use gcutil.Headers.{BlockTable, header}
use gcutil.Headers.Counts.{blocks_of}
use gcutil.Headers.Install.{Counted, Installed}
use gcutil.Headers.Laid.{IsLaid, end_of}
use gcutil.Headers.Walk.{IsAscending}
use gcutil.Freeing.{Arena, hdr_at}
use gcutil.Freeing.Loose.{IsFree, IsLoose}
use gcutil.Allocate.Divide.{Divides, IsDivided, Divides-IsDivided}
use gcutil.Allocate.Fill.{Fills, filled-IsTight, filled-KeepsAllUsed}
use gcutil.Allocate.Occupy.{Occupies, Occupies-IsLaid}
use gcutil.Allocate.State.{IsTight, IsLow, KeepsAllUsed}
use gcutil.Allocate.Run.{set_up}
use gcutil.Allocate.Take.{set_up-Fills}

-- The heap `s` is `s₀` but for the header of `h`.
pub record Views (s₀ s : Heap) (h : ℕ) : Type 0 where
  pub heads : (j : ℕ) → s.hblkfreelist j ≡ s₀.hblkfreelist j
  pub counts : (j : ℕ) → s.free_bytes j ≡ s₀.free_bytes j
  pub same : (x : ℕ) → x ≢ h → s.hdrs x ≡ s₀.hdrs x

-- A page alone has no counts.
page-Counted : (t : BlockTable) (h : ℕ) → IsAscending t.keys → Counted t t h hblk_size
page-Counted t h a = record { slot = λ x. ground arith; kept = λ k i. i; ascending = a }

module _ (a : Arena) (ls : ℕ → List ℕ) (h : ℕ) (v : IsLoose a ls h) (low : IsLow a)
    (free : IsFree a h) (s : Heap) (view : Views a.heap s h) where
  -- The last page comes into use.
  module _ (a' : Arena) (heap : a'.heap ≡ set_up s h hblk_size) (table : a'.table ≡ a.table)
      (one : (hdr_at a h).hb_sz ≡ hblk_size) where
    fills : Fills a.heap a'.heap h hblk_size
    fills = rw heap (
        set_up-Fills a.heap s h hblk_size view.heads view.counts view.same (rw one refl)
          (omega arith))

    counted : Counted a.table a'.table h hblk_size
    counted = rw table (page-Counted a.table h v.laid.ascending)

    pub last_page : IsTight a' ls × KeepsAllUsed a a'
    last_page = (
      filled-IsTight a a' ls h hblk_size v low free fills counted,
      filled-KeepsAllUsed a a' ls h hblk_size v low free fills counted,
    )

  module _ (t : BlockTable) (inst : Installed a.table t (h + 1))
      (more : hblk_size < (hdr_at a h).hb_sz) where
    left : ℕ
    left = (hdr_at a h).hb_sz - hblk_size

    -- The block behind the first page, as if it were a free one.
    rest : Heap → Heap
    rest s₁ = record s₁ {
      hdrs =
          write s₁.hdrs (h + 1)
            (record (s₁.hdrs (h + 1)) { hb_block = h + 1; hb_sz = left; hb_free = true });
    }

    divided : ℕ → Hdr
    divided = write (rest a.heap).hdrs h (record (a.heap.hdrs h) { hb_sz = hblk_size })

    pub chopped : Arena
    chopped = record a { heap = rest (set_up s h hblk_size); table = t }

    whole : (hdr_at a h).hb_sz % hblk_size ≡ 0
    whole = v.laid.whole h free.0 free.1

    divides : Divides a.heap.hdrs divided h (h + 1)
    unfolding divided rest left write
    divides = record {
      low = ground arith;
      high = ground arith;
      size = λ x n k. ground arith;
      free = λ x. ground arith;
      block = λ x. ground arith;
    }

    occupies : Occupies divided chopped.heap.hdrs h hblk_size
    unfolding divided rest left chopped write
    occupies = record {
      pages = ground arith;
      positive = omega arith;
      size = λ x. ground (arith, λ (n : x ≢ h). ap (λ k. k.hb_sz) (view.same x n));
      free = λ x. ground (arith, λ (n : x ≢ h). ap (λ k. k.hb_free) (view.same x n));
      block = λ x. ground (arith, λ (n : x ≢ h). ap (λ k. k.hb_block) (view.same x n));
    }

    above : h < h + 1
    above = omega arith

    inside : h + 1 < end_of a.heap.hdrs h
    inside = omega (arith, whole)

    parts : IsDivided a.table t a.heap.hdrs divided h (h + 1)
    parts =
        Divides-IsDivided a.table t a.heap.hdrs divided v.laid h (h + 1) inst divides free.0 free.1
          above inside

    divided_free : (divided h).hb_free ≡ true
    divided_free = divides.free h ∙ ground (arith, free.1)

    chopped-IsLaid : IsLaid t chopped.heap.hdrs
    chopped-IsLaid =
        Occupies-IsLaid t t divided chopped.heap.hdrs parts.laid h hblk_size
          (page-Counted t h inst.ascending) occupies (parts.still_header h free.0) divided_free

    sizes : (b : ℕ) → b ≢ h → b ≢ h + 1 → (hdr_at chopped b).hb_sz ≡ (hdr_at a b).hb_sz
    sizes b n k = occupies.size b ∙ ground (arith, divides.size b n k)

    flags : (b : ℕ) → b ≢ h → b ≢ h + 1 → (hdr_at chopped b).hb_free ≡ (hdr_at a b).hb_free
    flags b n k = occupies.free b ∙ ground (arith, divides.free b)

    h_used : (hdr_at chopped h).hb_free ≡ false
    h_used = occupies.free h ∙ ground arith

    pub rest_size : (hdr_at chopped (h + 1)).hb_sz ≡ (hdr_at a h).hb_sz - hblk_size
    rest_size = occupies.size (h + 1) ∙ ground (arith, divides.high)

    pub rest_free : IsFree chopped (h + 1)
    unfolding chopped
    rest_free = (parts.slot_m, occupies.free (h + 1) ∙ ground (arith, divides.free (h + 1)))

    was_free : (b : ℕ) → IsFree chopped b → b ≢ h + 1 → (b ≢ h) × IsFree a b
    unfolding chopped
    was_free b (e, f) k =
        let n : b ≢ h = λ q. true≢false (sym f ∙ ap (λ x. (hdr_at chopped x).hb_free) q ∙ h_used) in
        (n, (parts.was_header b e k, sym (flags b n k) ∙ f))

    rest_out : (j : ℕ) → has (h + 1) (ls j) ≡ false
    rest_out j = elim (Bool-cases (has (h + 1) (ls j))) [
      | inl here ↦ absurd (parts.new (h + 1) (v.listed j (h + 1) here).0 refl)
      | inr out ↦ out
    ]

    chopped_Holds : Holds chopped.heap ls
    unfolding chopped rest
    chopped_Holds =
        let s₁ = set_up s h hblk_size in
        let same = λ (x : ℕ) (n : x ≢ h). write_ne s.hdrs h _ x n ∙ view.same x n in
        let first : Holds s₁ ls =
          Holds-outside a.heap s₁ ls h v.holds v.out view.heads view.counts
            (λ x n. (ap (λ k. k.hb_next) (same x n), ap (λ k. k.hb_prev) (same x n)))
            (λ x n. ap (λ k. k.hb_sz) (same x n)) in
        Holds-outside s₁ (rest s₁) ls (h + 1) first rest_out (λ j. refl) (λ j. refl)
          (λ x n. rw (write_ne s₁.hdrs (h + 1) _ x n) (refl, refl))
          (λ x n. rw (write_ne s₁.hdrs (h + 1) _ x n) refl)

    first_page : chopped.table.slots 0 ≡ header → ⊥
    unfolding chopped
    first_page e = v.nonzero (sym (inst.slot 0 ∙ ground arith) ∙ e)

    pub rest_end : end_of chopped.heap.hdrs (h + 1) ≡ end_of a.heap.hdrs h
    rest_end = rw rest_size (omega (arith, whole))

    pub chopped-IsLow : IsLow chopped
    chopped-IsLow b f = elim (Bool-cases (b == h + 1)) [
      | inl same ↦
          let e = (==_iff b (h + 1)).0 same in
          subst (λ x. end_of chopped.heap.hdrs x * hblk_size < 2 ^ 63) (sym e)
            (rw rest_end (low h free))
      | inr other ↦
          let k : b ≢ h + 1 = ground arith in
          let (n, f') = was_free b f k in rw (sizes b n k) (low b f')
    ]

    pub chopped-IsLoose : IsLoose chopped ls (h + 1)
    chopped-IsLoose = record {
      holds = chopped_Holds;
      laid = unfold chopped in chopped-IsLaid;
      nonzero = first_page;
      out = rest_out;
      filed = λ b f k. let (n, f') = was_free b f k in rw (sizes b n k) (v.filed b f' n);
      listed = λ j x i.
          let f = v.listed j x i in
          let n : x ≢ h = ground (arith, v.out j) in
          let k = parts.new x f.0 in
          (unfold chopped in parts.still_header x f.0, flags x n k ∙ f.1);
      small = λ b f. omega (arith, chopped-IsLow b f);
      separate = λ b c f g k k' e.
          let (n, f') = was_free b f k in
          let (n', g') = was_free c g k' in
          rw (sizes b n k, sizes c n' k')
            (v.separate b c f' g' n n' (sym (ap (λ z. b + blocks_of z) (sizes b n k)) ∙ e));
    }

    pub chopped-KeepsAllUsed : KeepsAllUsed a chopped
    unfolding chopped
    chopped-KeepsAllUsed b (e, u) =
        let n : b ≢ h = λ q. true≢false (sym (ap (λ x. (hdr_at a x).hb_free) q ∙ free.1) ∙ u) in
        let k = parts.new b e in
        ((parts.still_header b e, flags b n k ∙ u), ap (λ z. b + blocks_of z) (sizes b n k))

    pub chopped-Views : Views chopped.heap (set_up s h hblk_size) (h + 1)
    unfolding chopped rest
    chopped-Views =
        let s₁ = set_up s h hblk_size in
        record {
          heads = λ j. refl;
          counts = λ j. refl;
          same = λ x n. sym (write_ne s₁.hdrs (h + 1) _ x n);
        }

    pub chopped_table : chopped.table ≡ t
    unfolding chopped
    chopped_table = refl
