-- ===== src/HdrCache/Tests.antt =====
-- Runs of the lookup with the header cache, and its theorems at them.
use gcutil.Prelude.{◌≡◌, refl, true, false, none, some, [], arith, write, done, Returns}
use gcutil.Blacklist.{BlackLists}
use gcutil.Freeing.Example.{arena, arena-IsLaid}
use gcutil.HdrCache.{
  Collector, looked_up, Reaches, start, after, hc_get_hdr, header_cache_miss, miss_at,
}
use gcutil.HdrCache.Lookup.{IsSigned, IsCoherent, Looks}
use gcutil.HdrCache.Coherence.{Reaches-IsCoherent, Reaches-Looks}

abbrev black_lists : BlackLists
black_lists = record {
  old_normal_bl = λ i. false;
  incomplete_normal_bl = λ i. false;
  old_stack_bl = λ i. false;
  incomplete_stack_bl = λ i. false;
  black_list_spacing = 0;
  all_interior_pointers = true;
  modws_valid_offsets = λ i. true;
  heap_sects = [];
  heapsize = 0;
}

-- The heap of the example, with an empty cache.
abbrev collector : Collector
collector = record {
  arena = arena;
  hdr_cache = λ i. record { block_addr = 0; hce_hdr = none };
  black_lists = black_lists;
  ignore_off_page = λ b. false;
}

collector-IsCoherent : IsCoherent collector
collector-IsCoherent i ne = absurd (ne refl)

-- The state after a lookup for a pointer into the first page of block 4.
abbrev looked : Collector
looked = record collector {
  hdr_cache = write collector.hdr_cache 4 (record { block_addr = 4; hce_hdr = some 4 });
}

first_lookup : hc_get_hdr collector 16392 ≡ done (looked, some 4)
unfolding hc_get_hdr header_cache_miss miss_at write
first_lookup = refl

looked-Reaches : Reaches collector looked
looked-Reaches = after start (looked_up 16392 (some 4) (omega arith) first_lookup)

Reaches-IsCoherent_example : IsCoherent looked
Reaches-IsCoherent_example = Reaches-IsCoherent looked-Reaches collector-IsCoherent

looked-IsSigned : IsSigned looked
looked-IsSigned q (e, f) = ground arith

Reaches-Looks_example : Returns (hc_get_hdr looked 20580) (Looks looked 20580)
Reaches-Looks_example =
    Reaches-Looks 20580 collector-IsCoherent looked-Reaches arena-IsLaid looked-IsSigned
      (omega arith)
