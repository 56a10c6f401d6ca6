-- ===== src/Lib.antt =====
-- Verification of the lab programs of this repository (C): string matching, a hash table,
-- locks, a search tree, sorting, primes, a simulated heap and two allocators on it.
--
-- Rklab models rklab/rkgrep.c and rklab/bloom.c.
--   Rklab.Text is strlength and the specification: the positions at which a pattern stands in a
--   document. Rklab.Hash has madd, msub, mmul, rkhash_init and rkhash_next; Rklab.Hash.Rolling says
--   which residues they compute. Rklab.Match has naive_substring_match and rk_substring_match, its
--   children what they report. Rklab.Bloom is the Bloom filter, with the bitmap (Bits), the positions
--   of an element (Positions) and the operations (Laws). Rklab.Index has rk_create_doc_bloom (Build)
--   and rk_substring_match_using_bloom (Lookup).
--   A C string is the list of its characters before the terminator. A char is signed, so characters
--   and hashes are integers; `chars` turns a list of natural numbers into a string without negative
--   characters, which is what ASCII text is. Lengths, counters and indices are natural numbers:
--   documents are shorter than 2 ^ 31. A read behind the terminator is `none`. The loops of
--   rk_substring_match and rk_create_doc_bloom run on fuel, the length of the document and two.
--
-- Threadlab models threadlab/rwlock.c and threadlab/htable.c.
--   Threadlab.Rwlock has what each lock function does to the counters between two waits; the mutex
--   makes these stretches atomic. Its Threads are any number of threads that take such steps in any
--   order, with signals, broadcasts, time limits and spurious wake-ups; Count and Safety say what the
--   counters count and whom the lock excludes, Yields when a reader takes it, Stranded which reader is
--   not woken.
--   Threadlab.Primes has is_prime and get_prime (Divisors, Search), on fuel that Euclid's argument
--   shows to be enough; Threadlab.Hash the hash code and its range.
--   Threadlab.Htable has htable_init, htable_size, htable_resize, htable_insert and htable_lookup as
--   one thread runs them, over a state of the table, the 10000 slot locks, the global mutex and the
--   flag. A wait that no other thread would end is `none`. Chain and Buckets are about searches and
--   slots, Locks about the locks, Resize, Methods and Insert about the operations. Sizes are
--   natural numbers, so they are taken to stay below 2 ^ 31, and malloc of a node or of a new table to succeed.
--
-- Clab models the exercises of clab/mini.
--   Clab.Tree is part7.c: Strcmp shows that strcmp orders strings, Insert that insert refines insertion
--   into a sorted list, Visit what preorder and inorder leave in their array. Characters of a string
--   are numbers from 0 on, as strcmp compares them. Clab.Sort is part2.c; its outer loop runs on fuel,
--   one more than the number of inversions, of which each pass but the last removes one. Clab.Sieve is
--   part3.c, where an access outside of the array is `none`: Marks says which elements the sieve writes
--   and marks, Divisor what find_smallest_divisor returns. The content of memory that malloc gives is an
--   argument. Clab.Token is part8.c on the strings at its
--   pointers. Clab.Nodes is part5.c over a heap of nodes; its loops run on fuel, the number of nodes,
--   which is enough for a list that ends. Clab.Bits is part6.c.
--
-- Binarylab models binarylab/ex1.c to ex5.c.
--
-- Malloclab models malloclab/memlib.c (Memlib, with Laws), the allocators malloclab/mm.c (Mm) and
--   malloclab/mm-naive.c (Naive), and of malloclab/mdriver.c the range list (Ranges, with Checks) and the
--   runs of a trace (Driver), over addresses that are natural numbers. A heap does not start at address 0.
--   The error messages are left out.
--   In Malloclab.Mm, with the headers of Malloclab.Headers, the memory gives at each address the header
--   that stands there, and payload bytes have a map of their own; an access through NULL or through the
--   address -1 is `none`. Mm has the functions of mm.c under their names; a loop of the source, and the
--   rest of a function behind a call, is a definition of its own. The loops run on fuel, the size of the
--   heap and one: a chunk has 32 bytes at least, so the free list is shorter. Chunks has lists of chunks
--   and what they cover, Links and Relink doubly linked lists in the memory, read at a position, Places
--   and Lists a header put in and taken out. Merging and Coalesce are about merge_regions, Placing, Given
--   and Insertion about insert_free_list, Search, Take and Part about the two rounds of find_memory. Valid
--   has the state between two calls; Removal, Unlinked, Free, Malloc, Requests, Realloc, Sessions and
--   RoundTrip say what the calls do to it. A client is taken to free what it holds and to write to
--   payloads that it holds. The asserts of mm.c are disabled, and mm_checkheap, which prints, is left out.
--   Malloclab.Naive has the functions of mm-naive.c over words of size and status; its asserts and the
--   totals of its mm_checkheap are part of the model. Chain has the chunks from the start of the heap to
--   its end, Laws and Realloc what the calls do to them. The walk runs on fuel, the size of the heap and
--   one.
--   Malloclab.Allocator is the interface of malloclab/mm.h between the driver and an allocator: a record of
--   its calls with the heap and the bytes, and the contract, laws over the payloads that a client holds.
--   Malloclab.Driver has eval_mm_valid, eval_mm_util and eval_mm_speed over that interface. An array of a
--   trace is a function on its indices, a size is a natural number below 2 ^ 31, a call of app_error ends
--   the program, which is `none`, and the quotient that eval_mm_util returns is left as its two numbers.
--   Trace says which traces are legal: a payload is asked for where its index has none, and resized and
--   freed where it has one, with sizes above 0. Bookkeeping and Listed keep the arrays and the range list in
--   step with the allocator, Requests, Resize and Verdict are about eval_mm_valid, Totals, Counting, Util
--   and Speed about the other two, Checked about the range list over any allocator. OnMm and OnNaive show
--   that both allocators keep the contract, so that the driver's theorems hold of them.
--
-- Common holds the names, list functions, sums, tables and integers that the parts share.
--
-- Not modelled: reading a trace from its file, timing and the runs on the allocator of libc in
-- malloclab; clab/mini part1.c and part4.c; rklab/bmgrep.c, which is unfinished; the drivers and tests of
-- the labs, printing, files and command lines; memory that malloc cannot give, but where the code tests
-- for it; integer overflow, but where a result says that there is none.
pub mod Common
pub mod Rklab
pub mod Threadlab
pub mod Clab
pub mod Malloclab
pub mod Binarylab
