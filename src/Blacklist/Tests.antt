-- ===== src/Blacklist/Tests.antt =====
-- Runs of the black lists, with the heap in two sections.
use gcutil.Prelude.{
  ℕ, ◌+◌, ◌*◌, ◌≡◌, refl, true, false, Option, none, some, [], ◌∷◌, Outcome, done, write, Returns,
  not, ◌&&◌, ◌||◌, ◌≤◌, ◌==◌, ◌/◌, if◌then◌else◌,
}
use gcutil.Blacklist.{
  max_h_incr, BlackLists, clear_bl, hblk_size, bl_init, add_to_black_list_stack,
  promote_black_lists, is_black_listed, compute_total_stack_black_listed,
}
use gcutil.Blacklist.Lookup.{
  IsAnswer, is_black_listed-IsAnswer, is_black_listed-add_to_black_list_stack,
}
use gcutil.Blacklist.Spacing.{
  listed_bytes, sect_bytes, compute_total_stack_black_listed_lem, promote_black_lists-spacing,
}

abbrev start : BlackLists
start = bl_init (record {
  old_normal_bl = clear_bl;
  incomplete_normal_bl = clear_bl;
  old_stack_bl = clear_bl;
  incomplete_stack_bl = clear_bl;
  black_list_spacing = 0;
  all_interior_pointers = true;
  modws_valid_offsets = λ i. true;
  heap_sects =
      record { hs_start = 100; hs_bytes = 10 * hblk_size }
      ∷ record { hs_start = 300; hs_bytes = 5 * hblk_size }
      ∷ [];
  heapsize = 15 * hblk_size;
})

-- Two words that point to blocks 104 and 302, and a third that points to a block in use.
abbrev entered : BlackLists
entered =
    add_to_black_list_stack
      (add_to_black_list_stack (add_to_black_list_stack start false (104 * hblk_size + 12)) false
        (302 * hblk_size))
      true (303 * hblk_size)

abbrev promoted : BlackLists
promoted = promote_black_lists entered

looks :
    ◌≡◌ {A = Outcome (Option ℕ) × Outcome (Option ℕ) × ℕ × ℕ}
      (
        is_black_listed promoted 100 (10 * hblk_size),
        is_black_listed promoted 303 (2 * hblk_size),
        compute_total_stack_black_listed promoted,
        promoted.black_list_spacing,
      )
      (done (some 105), done none, 2 * hblk_size, 7 * hblk_size)
unfolding bl_init add_to_black_list_stack promote_black_lists is_black_listed
    compute_total_stack_black_listed write
looks = refl

is_black_listed-IsAnswer_example :
    ((not entered.all_interior_pointers
          && (entered.old_normal_bl 100 || entered.incomplete_normal_bl 100))
        ≡ true
      → is_black_listed entered 100 40960 ≡ done (some 101))
    × ((not entered.all_interior_pointers
            && (entered.old_normal_bl 100 || entered.incomplete_normal_bl 100))
          ≡ false
        → Returns (is_black_listed entered 100 40960) (IsAnswer entered 100 10))
is_black_listed-IsAnswer_example = is_black_listed-IsAnswer entered 100 40960

is_black_listed-add_to_black_list_stack_example :
    (is_black_listed (add_to_black_list_stack entered false 409612) 100 8192 ≡ done (some 101))
    × (is_black_listed (promote_black_lists (add_to_black_list_stack entered false 409612)) 100 8192
        ≡ done (some 101))
is_black_listed-add_to_black_list_stack_example =
    is_black_listed-add_to_black_list_stack entered 409612 8192

compute_total_stack_black_listed_example :
    (compute_total_stack_black_listed promoted
      ≡ listed_bytes promoted.old_stack_bl promoted.heap_sects)
    × (compute_total_stack_black_listed promoted ≤ sect_bytes promoted.heap_sects)
compute_total_stack_black_listed_example = compute_total_stack_black_listed_lem promoted

promote_black_lists-spacing_example :
    let spacing = promoted.black_list_spacing in
    let total = listed_bytes entered.incomplete_stack_bl entered.heap_sects in
    let wanted =
      if total == 0 then entered.black_list_spacing else hblk_size * (entered.heapsize / total) in
    (3 * hblk_size ≤ spacing)
    × (spacing ≤ max_h_incr * hblk_size)
    × (3 * hblk_size ≤ wanted → wanted ≤ max_h_incr * hblk_size → spacing ≡ wanted)
promote_black_lists-spacing_example = promote_black_lists-spacing entered
