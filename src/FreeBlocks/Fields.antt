-- ===== src/FreeBlocks/Fields.antt =====
-- What relinking leaves of the other fields of the headers.
use gcutil.Prelude.{ℕ, ◌-◌, ◌/◌, ◌≡◌, refl, true, ◌==◌, if◌then◌else◌, arith, write}
use gcutil.FreeBlocks.{
  Hdr, Heap, set_next, set_prev, hblk_size, hblk_fl_from_blocks, unlink, link_front, replace,
  remove_from_fl_at, remove_from_fl, add_to_fl,
}

pub unlink-hb_sz : (hdrs : ℕ → Hdr) (h y : ℕ) → (unlink hdrs h y).hb_sz ≡ (hdrs y).hb_sz
unfolding unlink set_next set_prev write
unlink-hb_sz hdrs h y = ground arith

pub unlink-hb_free : (hdrs : ℕ → Hdr) (h y : ℕ) → (unlink hdrs h y).hb_free ≡ (hdrs y).hb_free
unfolding unlink set_next set_prev write
unlink-hb_free hdrs h y = ground arith

pub unlink-hb_block : (hdrs : ℕ → Hdr) (h y : ℕ) → (unlink hdrs h y).hb_block ≡ (hdrs y).hb_block
unfolding unlink set_next set_prev write
unlink-hb_block hdrs h y = ground arith

pub link_front-hb_free :
    (hdrs : ℕ → Hdr) (h p y : ℕ)
    → (link_front hdrs h p y).hb_free ≡ (if y == h then true else (hdrs y).hb_free)
unfolding link_front set_prev write
link_front-hb_free hdrs h p y = ground arith

pub link_front-hb_block :
    (hdrs : ℕ → Hdr) (h p y : ℕ) → (link_front hdrs h p y).hb_block ≡ (hdrs y).hb_block
unfolding link_front set_prev write
link_front-hb_block hdrs h p y = ground arith

pub remove_from_fl-hdrs : (s : Heap) (h : ℕ) → (remove_from_fl s h).hdrs ≡ unlink s.hdrs h
unfolding remove_from_fl remove_from_fl_at
remove_from_fl-hdrs s h = refl

pub add_to_fl-hdrs :
    (s : Heap) (h : ℕ)
    → (add_to_fl s h).hdrs
      ≡ link_front s.hdrs h (s.hblkfreelist (hblk_fl_from_blocks ((s.hdrs h).hb_sz / hblk_size)))
unfolding add_to_fl
add_to_fl-hdrs s h = refl

pub link_front-hb_sz : (hdrs : ℕ → Hdr) (h p y : ℕ) → (link_front hdrs h p y).hb_sz ≡ (hdrs y).hb_sz
unfolding link_front set_prev write
link_front-hb_sz hdrs h p y = ground arith

pub replace-hb_sz :
    (hdrs : ℕ → Hdr) (h last sz y : ℕ)
    → (replace hdrs h last sz y).hb_sz ≡ (if y == last then (hdrs h).hb_sz - sz else (hdrs y).hb_sz)
unfolding replace set_next set_prev write
replace-hb_sz hdrs h last sz y = ground arith
