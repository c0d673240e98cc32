-- ===== src/Freeing/Absorb.antt =====
-- The step that makes one block of two neighbouring free blocks.
use gcutil.Prelude.{
  ℕ, ◌+◌, ◌^◌, ◌<◌, ◌≡◌, ◌≢◌, ◌⊎◌, refl, sym, ap, ◌∙◌, subst, true, false, ◌&&◌, not, ◌==◌, ==_iff,
  if◌then◌else◌, arith, Bool-cases, inl, inr, List, write, write_ne,
}
use gcutil.FreeBlocks.{remove_from_fl, set_sz}
use gcutil.FreeBlocks.Lists.{has, erase, has-erase}
use gcutil.FreeBlocks.Fields.{remove_from_fl-hdrs, unlink-hb_sz, unlink-hb_free, unlink-hb_block}
use gcutil.FreeBlocks.Moves.{Holds, remove_from_fl-Holds, true≢false}
use gcutil.FreeBlocks.Split.{Holds-outside}
use gcutil.Headers.{header, remove_header}
use gcutil.Headers.Counts.{blocks_of}
use gcutil.Headers.Laid.{IsLaid, end_of}
use gcutil.Freeing.{Arena, hdr_at, absorb}
use gcutil.Freeing.Layout.{Takes, Takes-IsLaid, was_header, still_header, end_keep}
use gcutil.Freeing.Loose.{class_of, IsFree, KeepsUsed, IsLoose}

absorb-hb_sz :
    (a : Arena) (keep gone off x : ℕ)
    → (hdr_at (absorb a keep gone off) x).hb_sz
      ≡ (if x == keep then (hdr_at a keep).hb_sz + (hdr_at a gone).hb_sz else (hdr_at a x).hb_sz)
unfolding absorb set_sz write
absorb-hb_sz a keep gone off x =
    let e = remove_from_fl-hdrs a.heap off in
    let p = λ (y : ℕ). ap (λ f. (f y).hb_sz) e ∙ unlink-hb_sz a.heap.hdrs off y in
    let pk = p keep in let pg = p gone in let px = p x in ground arith

absorb-hb_free :
    (a : Arena) (keep gone off x : ℕ)
    → (hdr_at (absorb a keep gone off) x).hb_free ≡ (hdr_at a x).hb_free
unfolding absorb set_sz write
absorb-hb_free a keep gone off x =
    let e = remove_from_fl-hdrs a.heap off in
    let p = λ (y : ℕ). ap (λ f. (f y).hb_free) e ∙ unlink-hb_free a.heap.hdrs off y in
    let pk = p keep in let px = p x in ground arith

absorb-hb_block :
    (a : Arena) (keep gone off x : ℕ)
    → (hdr_at (absorb a keep gone off) x).hb_block ≡ (hdr_at a x).hb_block
unfolding absorb set_sz write
absorb-hb_block a keep gone off x =
    let e = remove_from_fl-hdrs a.heap off in
    let p = λ (y : ℕ). ap (λ f. (f y).hb_block) e ∙ unlink-hb_block a.heap.hdrs off y in
    let pk = p keep in let px = p x in ground arith

absorb-table :
    (a : Arena) (keep gone off : ℕ) → (absorb a keep gone off).table ≡ remove_header a.table gone
unfolding absorb
absorb-table a keep gone off = refl

pub absorb-Takes :
    (a : Arena) (keep gone off : ℕ) → Takes a.heap.hdrs (absorb a keep gone off).heap.hdrs keep gone
absorb-Takes a keep gone off = record {
  size = absorb-hb_sz a keep gone off;
  free = absorb-hb_free a keep gone off;
  block = absorb-hb_block a keep gone off;
}

-- The two blocks of a merge are the loose one and one on a list.
abbrev pub AreSides : ℕ → ℕ → ℕ → ℕ → Type 0
AreSides keep gone h off = ((keep ≡ h) × (gone ≡ off)) ⊎ ((keep ≡ off) × (gone ≡ h))

-- A free block and one that starts where it ends, of which one is `h` and the other on a list.
pub record IsPair (a : Arena) (ls : ℕ → List ℕ) (keep gone h off : ℕ) : Type 0 where
  pub loose : IsLoose a ls h
  pub sides : AreSides keep gone h off
  pub kept : IsFree a keep
  pub was : IsFree a gone
  pub listed_off : IsFree a off
  pub ne : off ≢ h
  pub meet : end_of a.heap.hdrs keep ≡ gone
  pub fits : (hdr_at a keep).hb_sz + (hdr_at a gone).hb_sz < 2 ^ 63

module _ {a : Arena} {ls : ℕ → List ℕ} {keep gone h off : ℕ} (p : IsPair a ls keep gone h off) where
  abbrev pub taken_off : ℕ → List ℕ
  taken_off = write ls (class_of a.heap.hdrs off) (erase off (ls (class_of a.heap.hdrs off)))

  abbrev merged : Arena
  merged = absorb a keep gone off

  on_list : has off (ls (class_of a.heap.hdrs off)) ≡ true
  on_list = p.loose.filed off p.listed_off p.ne

  has-taken_off : (j x : ℕ) → has x (taken_off j) ≡ (has x (ls j) && not (x == off))
  unfolding write
  has-taken_off j x =
      let d = p.loose.holds.distinct (class_of a.heap.hdrs off) in
      let e = has-erase x off (ls (class_of a.heap.hdrs off)) d in
      let f = p.loose.holds.apart j (class_of a.heap.hdrs off) off in ground (arith, on_list)

  -- Neither side is on a list now, and each other free block is neither of them.
  keep_out : (j : ℕ) → has keep (taken_off j) ≡ false
  keep_out j =
      let e = has-taken_off j keep in
      elim p.sides [ inl (s, t) ↦ ground (arith, p.loose.out j) | inr (s, t) ↦ ground arith ]

  gone_out : (j : ℕ) → has gone (taken_off j) ≡ false
  gone_out j =
      let e = has-taken_off j gone in
      elim p.sides [ inl (s, t) ↦ ground arith | inr (s, t) ↦ ground (arith, p.loose.out j) ]

  neither : (x : ℕ) → x ≢ keep → x ≢ gone → (x ≢ h) × (x ≢ off)
  neither x nk ng = elim p.sides [
    | inl (s, t) ↦ (λ e. nk (e ∙ sym s), λ e. ng (e ∙ sym t))
    | inr (s, t) ↦ (λ e. ng (e ∙ sym t), λ e. nk (e ∙ sym s))
  ]

  merged-Holds : Holds merged.heap taken_off
  unfolding absorb set_sz
  merged-Holds =
      let s = remove_from_fl a.heap off in
      Holds-outside s merged.heap taken_off keep
        (remove_from_fl-Holds a.heap ls off p.loose.holds on_list) keep_out (λ j. refl) (λ j. refl)
        (λ x n. rw (write_ne s.hdrs keep _ x n) (refl, refl))
        (λ x n. rw (write_ne s.hdrs keep _ x n) refl)

  was_slot : (x : ℕ) → merged.table.slots x ≡ header → a.table.slots x ≡ header
  was_slot x e =
      (was_header a.table a.heap.hdrs merged.heap.hdrs p.loose.laid keep gone
        (absorb-Takes a keep gone off) p.kept.0 p.was.0 p.kept.1 p.was.1 p.meet x
        (ap (λ t. t.slots x) (sym (absorb-table a keep gone off)) ∙ e)).0

  pub merged-IsFree : (x : ℕ) → IsFree merged x → IsFree a x × (x ≢ gone)
  merged-IsFree x (e, f) =
      let (e', n) =
        was_header a.table a.heap.hdrs merged.heap.hdrs p.loose.laid keep gone
          (absorb-Takes a keep gone off) p.kept.0 p.was.0 p.kept.1 p.was.1 p.meet x
          (ap (λ t. t.slots x) (sym (absorb-table a keep gone off)) ∙ e) in
      ((e', sym (absorb-hb_free a keep gone off x) ∙ f), n)

  pub IsFree-merged : (x : ℕ) → IsFree a x → x ≢ gone → IsFree merged x
  IsFree-merged x (e, f) n = (
    ap (λ t. t.slots x) (absorb-table a keep gone off)
        ∙ still_header a.table a.heap.hdrs merged.heap.hdrs p.loose.laid keep gone
            (absorb-Takes a keep gone off) p.kept.0 p.was.0 p.kept.1 p.was.1 p.meet x e n,
    absorb-hb_free a keep gone off x ∙ f,
  )

  merged-IsLaid : IsLaid merged.table merged.heap.hdrs
  merged-IsLaid = rw (absorb-table a keep gone off) (
      Takes-IsLaid a.table a.heap.hdrs merged.heap.hdrs p.loose.laid keep gone
        (absorb-Takes a keep gone off) p.kept.0 p.was.0 p.kept.1 p.was.1 p.meet)

  pub merged_size : (hdr_at merged keep).hb_sz ≡ (hdr_at a keep).hb_sz + (hdr_at a gone).hb_sz
  merged_size = absorb-hb_sz a keep gone off keep ∙ ground arith

  pub other_size : (x : ℕ) → x ≢ keep → (hdr_at merged x).hb_sz ≡ (hdr_at a x).hb_sz
  other_size x n = absorb-hb_sz a keep gone off x ∙ ground arith

  pub other_end : (x : ℕ) → x ≢ keep → end_of merged.heap.hdrs x ≡ end_of a.heap.hdrs x
  other_end x n = ap (λ y. x + blocks_of y) (other_size x n)

  pub merged_end : end_of merged.heap.hdrs keep ≡ end_of a.heap.hdrs gone
  merged_end =
      end_keep a.table a.heap.hdrs merged.heap.hdrs p.loose.laid keep gone
        (absorb-Takes a keep gone off) p.kept.0 p.was.0 p.kept.1 p.was.1 p.meet

  pub merged_first : IsFree merged keep
  merged_first = IsFree-merged keep p.kept (omega (arith, p.loose.laid.sized keep p.kept.0))

  pub merged-KeepsUsed : KeepsUsed a merged h
  merged-KeepsUsed b (e, u) n =
      let no_keep : b ≢ keep =
        λ k. true≢false (sym p.kept.1 ∙ ap (λ x. (hdr_at a x).hb_free) (sym k) ∙ u) in
      let no_gone : b ≢ gone =
        λ k. true≢false (sym p.was.1 ∙ ap (λ x. (hdr_at a x).hb_free) (sym k) ∙ u) in
      (
        (
          ap (λ t. t.slots b) (absorb-table a keep gone off)
              ∙ still_header a.table a.heap.hdrs merged.heap.hdrs p.loose.laid keep gone
                  (absorb-Takes a keep gone off) p.kept.0 p.was.0 p.kept.1 p.was.1 p.meet b e
                  no_gone,
          absorb-hb_free a keep gone off b ∙ u,
        ),
        other_end b no_keep,
      )

  merged-filed :
      (b : ℕ) → IsFree merged b → b ≢ keep → has b (taken_off (class_of merged.heap.hdrs b)) ≡ true
  merged-filed b f nk =
      let (f', ng) = merged-IsFree b f in
      let (nh, nf) = neither b nk ng in
      rw (other_size b nk)
        (has-taken_off (class_of a.heap.hdrs b) b ∙ (let k = p.loose.filed b f' nh in ground arith))

  merged-listed : (j x : ℕ) → has x (taken_off j) ≡ true → IsFree merged x
  merged-listed j x i =
      let e = has-taken_off j x in
      let o = gone_out j in
      IsFree-merged x (p.loose.listed j x (ground arith))
        (λ g. true≢false (sym i ∙ ap (λ y. has y (taken_off j)) g ∙ o))

  pub merged-IsLoose : IsLoose merged taken_off keep
  merged-IsLoose = record {
    holds = merged-Holds;
    laid = merged-IsLaid;
    nonzero = λ e. p.loose.nonzero (was_slot 0 e);
    out = keep_out;
    filed = merged-filed;
    listed = merged-listed;
    small = λ b f. elim (Bool-cases (b == keep)) [
      | inl same ↦
          subst (λ x. (hdr_at merged x).hb_sz < 2 ^ 63) (sym ((==_iff b keep).0 same))
            (omega (arith, merged_size, p.fits))
      | inr other ↦
          let n : b ≢ keep = ground arith in
          let k = p.loose.small b (merged-IsFree b f).0 in let s = other_size b n in omega arith
    ];
    separate = λ b c f g nb nc e.
        let (f', ngb) = merged-IsFree b f in
        let (g', ngc) = merged-IsFree c g in
        let sb = other_size b nb in
        let sc = other_size c nc in
        let k =
          p.loose.separate b c f' g' (neither b nb ngb).0 (neither c nc ngc).0 (rw (sym sb) e) in
        omega arith;
  }

pub absorb-bytes :
    (a : Arena) (keep gone off : ℕ) → (absorb a keep gone off).large_free_bytes ≡ a.large_free_bytes
unfolding absorb
absorb-bytes a keep gone off = refl
