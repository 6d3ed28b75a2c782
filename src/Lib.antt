-- ===== src/Lib.antt =====
-- target-utils: allocators, maps and bit utilities for switch targets.
--
-- The program is a library of small data structures in C. The maps, the allocators and one kind
-- of bit set keep their state in Judy arrays: sparse arrays of bits (Judy1) or of words (JudyL)
-- that a vendored library implements. The others keep it in memory of their own, as nodes or
-- words.
--
-- - Base: names from the libraries, the Boolean tests on native numbers (Base/Tests), machine
--   words with their wrap-around (Base/Word), and the outcome of code that asserts and loops
--   (Base/Run): a value, the end of the process, or too little fuel. A build may keep assertions
--   or drop them, so `bf_sys_assert` takes a Boolean for it.
-- - Judy: the interface of the Judy arrays, as records of operations and of the behaviour that
--   the Judy manual documents. Judy/One is Judy1, Judy/Many is JudyL; `HasMemory` says that no
--   call runs out of memory. Judy/Bits and Judy/Slots meet the interfaces with lists, so that
--   they can hold, and the tests run on them. The code under test takes the arrays as parameters.
-- - Map: src/map/map.c, each `bf_map_*` function under its own name. A map is its JudyL array; a
--   function that writes `*map`, `*key` or `*data` returns what it leaves there. Map/Contents is
--   what one call does, Map/Refinement what sequences of calls do.
-- - Id: src/id/id.c, each `bf_id_allocator_*` function under its own name. The parts of
--   `bf_id_allocator_allocate_contiguous` are `wrap_around`, `allocate_from`, `search_loop` (its
--   `while`), `set_run` (its `for`) and `finish_search`. The loop reads the index that a failed
--   J1N left, of which Judy promises nothing: Judy/One has it as a function without a law. The
--   loop has `size + 2` rounds of fuel: each round moves on to a later index, but where it has
--   come to the size itself, from where it may never end. Id/Room is about that loop, Id/Allocate
--   about the call on indexes, Id/Single about the call for one, Id/InUse, Id/Ids, Id/Release and
--   Id/Listing about ids.
-- - BitUtils: include/target-utils/bit_utils/bit_utils.h. The builtins of the compiler are
--   defined as it documents them. BitUtils/Digits and BitUtils/Fields are about binary digits.
-- - Power2: src/power2_allocator/power2_allocator.c and its header. `free_lists` is a function
--   from the logarithm to a JudyL array. Power2 has the functions on the lists, Power2/Calls
--   those of the interface for one block, Power2/Bulk the copy and the release of several.
--   `insert_loop` and `remove_loop` are the two loops over chunks, with one round more of fuel
--   than the range has indexes: each round takes at least one. `find_fit`, `sum_inuse` and
--   `copy_loop` walk a Judy array and have two rounds more than `total_size`, the number of
--   indexes. Power2/Pieces is how a range is cut into chunks, Power2/Insert and Power2/Remove the
--   two loops, Power2/RoundTrip both together. Power2/Gaps takes a free range out and puts one
--   in, Power2/Blocks is the list in use, Power2/Ranges both lists at one block. Power2/Valid is
--   the invariant: blocks in use lie apart, and the free lists hold the chunks of the gaps
--   between them. Power2/Neighbours is what the code finds around an index; Power2/Freed and
--   Power2/Release are the release of a block, Power2/Reserved and Power2/Reserve the reservation
--   of one, and Power2/Keep what both leave valid. For the allocation of a block, Power2/Cut and
--   Power2/Align are about chunks and alignment, Power2/Take the search of the free lists,
--   Power2/Chunk and Power2/Found the chunk found and the gap around it, Power2/Place the index
--   in it, Power2/Alloc its split, Power2/Allocate the call. Power2/Create is the creation,
--   Power2/History any sequence of calls that follows it. Power2/Check is the self-check of a
--   free range and Power2/SelfCheck that of the allocator, whose loops over indexes have a round
--   for each; Power2/Marks and Power2/MarkLists are what its loops mark, Power2/Once that each
--   index lies in one block or chunk, Power2/Verified and Power2/Passes that the check passes.
--   Power2/Multiple has the allocation of several blocks in a row, whose `find_row` has two
--   rounds more than `total_size` (each moves on by at least one index), and the destruction.
-- - Fbitset: src/fbitset/fbitset.c, each `bf_fbs_*` function under its own name, over a Judy1
--   array. `prev_loop` and `next_loop` are its two loops, with a round of fuel for each index
--   that they may pass and one to end.
-- - Rbt: src/rbt/rbt.c and include/target-utils/rbt/rbt.h. A `Tree` is the heap of nodes and
--   `*rbt_head`; a function that writes nodes returns the new one. The field `data` is `content`.
--   Rbt has the rotations, Rbt/Search the functions that only read, Rbt/Insert and Rbt/Remove the
--   changes. A loop takes fuel, one round for each node that it may pass and one to end: more
--   than the height of the tree is enough for a way down. Rbt/Shape relates a heap to the tree
--   that it holds; Rbt/AtMost, Rbt/AtLeast, Rbt/Ends and Rbt/Keys are about the reads, and about
--   the keys that an insertion finds present or a removal finds absent.
-- - BfList: include/target-utils/list/bf_list.h, each macro as a function on the heap of cells
--   that returns the heap and the pointers that the macro assigns. BfList/Prepend is what it
--   means that a heap holds a list, and the macro that prepends; BfList/Append is the macro that
--   appends.
-- - Bitset: src/bitset/bitset.c and its header, each `bf_bs_*` function under its own name. A set
--   is its width and its words; an access beyond the words ends the process. Bitset has the
--   functions on bits, Bitset/Range those on words, sets and ranges; a loop takes the rounds
--   left, which its bounds give. Bitset/Bit is about one bit, Bitset/First and Bitset/Search
--   about the search for a bit that is set, by the digits of words in BitUtils/Digits.
--   Bitset/Field is the arithmetic of a field in a word by BitUtils/Fields, Bitset/Word,
--   Bitset/SetWord and Bitset/GetWord where the field lies and how it is written and read,
--   Bitset/WordTrip both together.
-- - Hashtbl: src/hashtbl/hashtbl.c and its header, each `bf_hashtbl_*` function under its own
--   name. The record `Tommy` is the linear hash table of tommyds with the behaviour that it
--   documents, and Hashtbl/Listed meets it with a list; XXH32 is any function. Hashtbl/RoundTrip
--   is an insertion and what is read after it.
--
-- Not modelled: in power2_allocator.c `power2_allocator_set` (which the source compiles only
-- under NOT_COMPLETE, and which names fields that the structure does not have), the printing and
-- the unit test; the version string of src/target_utils.c; and the vendored libraries. Allocation
-- of the allocators themselves is taken to succeed in Id, as the code takes it.

pub mod Base
pub mod BfList
pub mod BitUtils
pub mod Bitset
pub mod Fbitset
pub mod Hashtbl
pub mod Id
pub mod Judy
pub mod Map
pub mod Power2
pub mod Rbt
