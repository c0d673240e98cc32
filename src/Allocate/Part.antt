-- ===== src/Allocate/Part.antt =====
-- The heap after `GC_get_first_part`.
use gcutil.Prelude.{
  ℕ, ◌+◌, ◌*◌, ◌/◌, ◌^◌, ◌<◌, ◌≤◌, ◌≡◌, ◌≢◌, sym, ap, ◌∙◌, subst, Bool, true, false, ◌&&◌, ◌==◌,
  if◌then◌else◌, arith, List, Bool-cases, inl, inr, write, some,
}
use gcutil.FreeBlocks.{hblk_size, get_first_part}
use gcutil.FreeBlocks.Cuts.{get_first_part_whole-fields}
use gcutil.FreeBlocks.Lists.{has, erase, has-erase}
use gcutil.FreeBlocks.Split.{get_first_part-Holds}
use gcutil.Headers.Counts.{blocks_of}
use gcutil.Headers.Laid.{end_of}
use gcutil.Freeing.{Arena, hdr_at}
use gcutil.Freeing.Layout.{Same, Same-IsLaid}
use gcutil.Freeing.Loose.{IsFree, IsLoose, class_of}
use gcutil.Allocate.State.{IsOn, IsLow, KeepsAllUsed}

module _ (a : Arena) (ls : ℕ → List ℕ) (h index : ℕ) (v : IsOn a ls h index) where
  unfoldable pub erased : ℕ → List ℕ
  erased = write ls index (erase h (ls index))

  pub has-erased :
      (j y : ℕ) → has y (erased j) ≡ (if (j == index) && (y == h) then false else has y (ls j))
  unfolding erased write
  has-erased j y = ground (arith, has-erase y h (ls index) (v.holds.distinct index))

  pub erased_out : (j : ℕ) → has h (erased j) ≡ false
  erased_out j = ground (arith, has-erased j h, v.holds.apart index j h v.at_index)

  pub erased_other : (j y : ℕ) → y ≢ h → has y (erased j) ≡ has y (ls j)
  erased_other j y n = ground (arith, has-erased j y)

  pub erased_listed : (j x : ℕ) → has x (erased j) ≡ true → (x ≢ h) × (has x (ls j) ≡ true)
  erased_listed j x e = (ground (arith, erased_out j), ground (arith, has-erased j x))

  small_before : (b : ℕ) → IsFree a b → (hdr_at a b).hb_sz < 2 ^ 63
  small_before b f = omega (arith, v.low b f)

  -- The page behind the part that is taken is on no list.
  pub rest_out :
      (rest : ℕ) → h < rest → rest ≤ end_of a.heap.hdrs h → (j : ℕ) → has rest (ls j) ≡ false
  rest_out rest l u j = elim (Bool-cases (has rest (ls j))) [
    | inr out ↦ out
    | inl here ↦
        let f = v.listed j rest here in
        let w = v.laid.apart h rest v.free.0 f.0 l in
        absurd (v.separate h rest v.free f (omega arith) (omega arith))
  ]

  module _ (n : ℕ) (b : Bool) (whole : (hdr_at a h).hb_sz ≡ n) where
    outside : (j : ℕ) → has (h + n / hblk_size) (ls j) ≡ false
    outside =
        let p = v.laid.sized h v.free.0 in
        let w = v.laid.whole h v.free.0 v.free.1 in
        rest_out (h + n / hblk_size) (omega arith) (omega arith)

    unfoldable pub taken : Arena
    taken = record a { heap = (get_first_part a.heap h n index b).0 }

    taken-Same : Same a.heap.hdrs taken.heap.hdrs
    unfolding taken
    taken-Same = record {
      size = λ x. (get_first_part_whole-fields a.heap h n index x b whole).0;
      free = λ x. (get_first_part_whole-fields a.heap h n index x b whole).1;
      block = λ x. (get_first_part_whole-fields a.heap h n index x b whole).2;
    }

    taken_free : (x : ℕ) → IsFree taken x → IsFree a x
    unfolding taken
    taken_free x (e, f) = (e, sym (taken-Same.free x) ∙ f)

    free_taken : (x : ℕ) → IsFree a x → IsFree taken x
    unfolding taken
    free_taken x (e, f) = (e, taken-Same.free x ∙ f)

    pub taken-IsLoose : IsLoose taken erased h
    unfolding taken
    taken-IsLoose = record {
      holds =
          unfold erased in
          (((get_first_part-Holds a.heap ls v.holds h index v.at_index n (omega arith) outside).0
            whole b).1);
      laid = Same-IsLaid a.table a.heap.hdrs taken.heap.hdrs v.laid taken-Same;
      nonzero = v.nonzero;
      out = erased_out;
      filed = λ x f k.
          rw (taken-Same.size x)
            (erased_other (class_of a.heap.hdrs x) x k ∙ v.filed x (taken_free x f) k);
      listed = λ j x e. let (k, e') = erased_listed j x e in free_taken x (v.listed j x e');
      small = λ x f. rw (taken-Same.size x) (small_before x (taken_free x f));
      separate = λ x y f g k k' e. absurd (
          v.separate x y (taken_free x f) (taken_free y g) k'
            (sym (ap (λ z. x + blocks_of z) (taken-Same.size x)) ∙ e));
    }

    pub taken_some : (get_first_part a.heap h n index b).1 ≡ some h
    taken_some =
        ((get_first_part-Holds a.heap ls v.holds h index v.at_index n (omega arith) outside).0 whole
          b).0

    pub taken-IsLow : IsLow taken
    unfolding taken
    taken-IsLow x f =
        subst (λ k. (x + blocks_of k) * hblk_size < 2 ^ 63) (sym (taken-Same.size x))
          (v.low x (taken_free x f))

    pub taken-KeepsAllUsed : KeepsAllUsed a taken
    unfolding taken
    taken-KeepsAllUsed x (e, u) =
        ((e, taken-Same.free x ∙ u), ap (λ k. x + blocks_of k) (taken-Same.size x))

    pub taken_at : IsFree taken h × ((hdr_at taken h).hb_sz ≡ n)
    taken_at = (free_taken h v.free, taken-Same.size h ∙ whole)
