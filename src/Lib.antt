-- ===== src/Lib.antt =====
-- The parts of the gcutil garbage collector that keep tables: which memory is scanned, which blocks
-- and objects are free, which are to be avoided, which size serves a request, and which links
-- disappear.
--
-- Parts and files:
--   Roots.antt       mark_rts.c, the static roots `GC_static_roots` with the hash index
--                    `GC_root_index`. `add_roots_inner` is `GC_add_roots_inner`, `remove_loop` the
--                    loop of `GC_remove_roots_inner` and `GC_remove_tmp_roots`, and so on by name.
--   Exclusions.antt  mark_rts.c, the sorted table `GC_excl_table` of ranges that are not scanned,
--                    and the pushing of a root around them.
--   SizeMap.antt     misc.c and malloc.c, the table `GC_size_map` from bytes to granules.
--   Blacklist.antt   blacklst.c, the page hash tables of blocks that false pointers lead to.
--   FreeBlocks.antt  allchblk.c, the free lists of heap blocks, linked through their headers.
--   Headers.antt     headers.c and gc_hdrs.h, the two-level table from block numbers to headers.
--   Freeing.antt     allchblk.c, `GC_freehblk`, which merges a block with its free neighbours; it
--                    joins the free lists to the table of headers.
--   Allocate.antt    allchblk.c, the search of `GC_allochblk_nth` for a place; Allocate/Block.antt has
--                    the cut of the block there and `GC_allochblk` over all lists. The whole of
--                    `Collector` from HdrCache.antt, with the black lists, is its state.
--   HdrCache.antt    headers.c and gc_hdrs.h, the marking header cache: lookups through it, and the
--                    operations of Headers.antt, Freeing.antt and FreeBlocks.antt with its dropping.
--   Sweep.antt       reclaim.c, the sweep of a block of small objects onto a free list in memory.
--   Links.antt       finalize.c, the hash tables `GC_dl_hashtbl` and `GC_ll_hashtbl` of
--                    disappearing links. What a collection within a growth or an allocation leaves
--                    of a table is an argument.
--   Prelude.antt     what the parts share: Boolean tests, arrays, words of 64 bits, and the results
--                    of code that aborts or runs on fuel.
-- In the collector the roots are scanned around the exclusions during a mark phase, which looks up
-- the headers of the blocks that pointers lead to in the header cache and enters false pointers in
-- the black lists; the block allocator takes blocks off the free lists and asks the black lists
-- where a block may start; the size map says which size of object a block is cut into. After
-- marking, the tables of links tell which pointers to clear, blocks of small objects are swept onto
-- free lists of objects, and empty blocks are freed. Freeing.antt composes the free lists with the
-- table of headers, HdrCache.antt those with the cache and the black lists, and Allocate.antt has
-- the block allocator over all of them; what another part reads of a part it is not composed with is
-- an argument or a field.
--
-- Each part's parent file has the definitions, by the names of the C functions without the prefix
-- `GC_`; the files below it have the theorems, and its file Tests runs at concrete tables.
--
-- Configuration: 64-bit Linux with threads, `ALIGNMENT` 8, granules of 16 bytes, `HBLKSIZE` 4096,
-- `LOG_BOTTOM_SZ` 10, `MAX_ROOT_SETS` 2048, `LOG_PHT_ENTRIES` 18, no `USE_MUNMAP`, no
-- `PARALLEL_MARK`. Debug output and assertions (`GC_ASSERT`, off in a release) are left out;
-- `ABORT` is the result `abort`.
--
-- Representation: a C array is a function from indices, a pointer into a table is the index of its
-- element, `NULL` is `none` (or block 0), an address is a number, and a block is its number, the
-- address over `HBLKSIZE`. A bottom index is there if its key is on the list of keys, and the slots
-- of an absent one are `NULL`, as in `GC_all_nils`; a slot says whether it holds a header, a
-- forwarding count or `NULL`, and the contents of a block's header are found by its number.
-- Arithmetic on `word` and `size_t` that can wrap is taken modulo 2 ^ 64, and a comparison as
-- `GC_signed_word` is that of the words with the sign bit flipped; the size `size_needed` of a
-- request to the block allocator is taken not to wrap, as the contract of `GC_allochblk_nth` asks.
--
-- Fuel: a loop whose rounds are known in advance is recursion on the rounds left. The others take
-- fuel from the bound that the code itself gives: the number of elements in the table for chains,
-- searches and removals, the number of slots of a bottom index for the walks through the headers
-- and the block number for the jumps back to the start of a block, the number of blocks asked for
-- in the black list, and the largest small size in the size map. The walk along all free lists and
-- the search of a list for a place take their fuel as an argument; of the search the theorems say
-- that the length of the longest list with its square is enough, as each drop of a block may begin
-- it again. The theorems about them state that they return, not only what they return.
--
-- Not modelled: GC_remove_roots_subregion, the scanning of stacks and registers, and the other
-- files of the library: marking, the choice of the blocks to sweep, finalizable objects, typed and
-- debugging allocation, threads and the system interface, and the cord package.
pub mod Allocate
pub mod Prelude
pub mod Blacklist
pub mod FreeBlocks
pub mod Freeing
pub mod HdrCache
pub mod Headers
pub mod Links
pub mod Exclusions
pub mod Roots
pub mod SizeMap
pub mod Sweep
