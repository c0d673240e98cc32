-- ===== src/FreeBlocks/Cuts.antt =====
-- What dividing a block leaves of the sizes, flags and block numbers of the headers.
use gcutil.Prelude.{
  ℕ, ◌+◌, ◌-◌, ◌*◌, ◌/◌, ◌≡◌, ◌≢◌, refl, ◌∙◌, Bool, true, false, ◌==◌, if◌then◌else◌, arith, write,
}
use gcutil.FreeBlocks.{
  Hdr, Heap, hblk_size, hblk_fl_from_blocks, set_next, set_prev, replace, replace_at, set_sz,
  set_free, add_to_fl, split_block, remove_from_fl_at, rest_header, get_first_part,
}
use gcutil.FreeBlocks.Fields.{
  unlink-hb_sz, unlink-hb_free, unlink-hb_block, link_front-hb_sz, link_front-hb_free,
  link_front-hb_block, replace-hb_sz, add_to_fl-hdrs,
}

replace-hb_free :
    (hdrs : ℕ → Hdr) (h last sz y : ℕ)
    → (replace hdrs h last sz y).hb_free ≡ (if y == last then false else (hdrs y).hb_free)
unfolding replace set_next set_prev write
replace-hb_free hdrs h last sz y = ground arith

replace-hb_block :
    (hdrs : ℕ → Hdr) (h last sz y : ℕ)
    → (replace hdrs h last sz y).hb_block ≡ (if y == last then last else (hdrs y).hb_block)
unfolding replace set_next set_prev write
replace-hb_block hdrs h last sz y = ground arith

module _ (s : Heap) (h y : ℕ) where
  add_to_fl-fields :
      (((add_to_fl s h).hdrs y).hb_sz ≡ (s.hdrs y).hb_sz)
      × (((add_to_fl s h).hdrs y).hb_free ≡ (if y == h then true else (s.hdrs y).hb_free))
      × (((add_to_fl s h).hdrs y).hb_block ≡ (s.hdrs y).hb_block)
  add_to_fl-fields =
      let p = s.hblkfreelist (hblk_fl_from_blocks ((s.hdrs h).hb_sz / hblk_size)) in
      rw (add_to_fl-hdrs s h) (
        link_front-hb_sz s.hdrs h p y,
        link_front-hb_free s.hdrs h p y,
        link_front-hb_block s.hdrs h p y,
      )

module _ (s : Heap) (h last index : ℕ) (ne : h ≢ last) where
  sized : Heap
  sized = set_sz (replace_at s h last ((last - h) * hblk_size) index) h ((last - h) * hblk_size)

  sized-fields :
      (y : ℕ)
      → ((sized.hdrs y).hb_sz ≡ (
          if y == h
          then (last - h) * hblk_size
          else if y == last
          then (s.hdrs h).hb_sz - (last - h) * hblk_size
          else (s.hdrs y).hb_sz))
        × ((sized.hdrs y).hb_free ≡ (if y == last then false else (s.hdrs y).hb_free))
        × ((sized.hdrs y).hb_block ≡ (if y == last then last else (s.hdrs y).hb_block))
  unfolding sized set_sz replace_at write
  sized-fields y =
      let sz = (last - h) * hblk_size in
      (
        ground (arith, replace-hb_sz s.hdrs h last sz y),
        ground (arith, replace-hb_free s.hdrs h last sz y),
        ground (arith, replace-hb_block s.hdrs h last sz y),
      )

  filed : Heap
  filed = add_to_fl sized h

  freed-hb_free :
      (y : ℕ)
      → ((set_free filed last).hdrs y).hb_free
        ≡ (if y == last then true else (filed.hdrs y).hb_free)
  unfolding set_free write
  freed-hb_free y = ground arith

  freed_rest :
      (y : ℕ)
      → (((set_free filed last).hdrs y).hb_sz ≡ (filed.hdrs y).hb_sz)
        × (((set_free filed last).hdrs y).hb_block ≡ (filed.hdrs y).hb_block)
  unfolding set_free write
  freed_rest y = (ground arith, ground arith)

  filed-hb_free :
      (y : ℕ)
      → (filed.hdrs y).hb_free
        ≡ (if y == h then true else if y == last then false else (s.hdrs y).hb_free)
  unfolding filed
  filed-hb_free y = ground (arith, (add_to_fl-fields sized h y).1, (sized-fields y).1)

  split_block_run : split_block s h last index ≡ set_free filed last
  unfolding split_block filed sized
  split_block_run = refl

  pub split_block-fields :
      (y : ℕ)
      → let s' = split_block s h last index in
        ((s'.hdrs y).hb_sz ≡ (
          if y == h
          then (last - h) * hblk_size
          else if y == last
          then (s.hdrs h).hb_sz - (last - h) * hblk_size
          else (s.hdrs y).hb_sz))
        × ((s'.hdrs y).hb_free
            ≡ (if y == last then true else if y == h then true else (s.hdrs y).hb_free))
        × ((s'.hdrs y).hb_block ≡ (if y == last then last else (s.hdrs y).hb_block))
  unfolding filed
  split_block-fields y = rw split_block_run (
    (freed_rest y).0 ∙ (add_to_fl-fields sized h y).0 ∙ (sized-fields y).0,
    freed-hb_free y ∙ ground (arith, filed-hb_free y),
    (freed_rest y).1 ∙ (add_to_fl-fields sized h y).2 ∙ (sized-fields y).2,
  )

module _ (s : Heap) (h size_needed index y : ℕ) where
  pub get_first_part-fields :
      (s.hdrs h).hb_sz ≢ size_needed
      → let s' = (get_first_part s h size_needed index true).0 in
        let rest = h + size_needed / hblk_size in
        ((s'.hdrs y).hb_sz
          ≡ (if y == rest then (s.hdrs h).hb_sz - size_needed else (s.hdrs y).hb_sz))
        × ((s'.hdrs y).hb_free ≡ (if y == rest then true else (s.hdrs y).hb_free))
        × ((s'.hdrs y).hb_block ≡ (if y == rest then rest else (s.hdrs y).hb_block))
  unfolding get_first_part remove_from_fl_at rest_header write
  get_first_part-fields ne =
      let rest = h + size_needed / hblk_size in
      let whole : ((s.hdrs h).hb_sz == size_needed) ≡ false = ground arith in
      let headed =
        rest_header (remove_from_fl_at s h index) rest ((s.hdrs h).hb_sz - size_needed) in
      let (z, f, b) = add_to_fl-fields headed rest y in
      rw whole (
        ground (arith, unlink-hb_sz s.hdrs h y),
        ground (arith, unlink-hb_free s.hdrs h y),
        ground (arith, unlink-hb_block s.hdrs h y),
      )

  pub get_first_part_whole-fields :
      (installed : Bool)
      → (s.hdrs h).hb_sz ≡ size_needed
      → let s' = (get_first_part s h size_needed index installed).0 in
        ((s'.hdrs y).hb_sz ≡ (s.hdrs y).hb_sz)
        × ((s'.hdrs y).hb_free ≡ (s.hdrs y).hb_free)
        × ((s'.hdrs y).hb_block ≡ (s.hdrs y).hb_block)
  unfolding get_first_part remove_from_fl_at
  get_first_part_whole-fields installed e =
      let whole : ((s.hdrs h).hb_sz == size_needed) ≡ true = ground arith in
      rw whole (unlink-hb_sz s.hdrs h y, unlink-hb_free s.hdrs h y, unlink-hb_block s.hdrs h y)
