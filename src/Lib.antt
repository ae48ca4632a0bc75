-- ===== src/Lib.antt =====
-- 3RMM: a memory allocator, triple modular redundancy on top of it, and a garbage collector.
--
-- The program's parts, and the files that model them:
--
-- * src/list.h, circular doubly linked lists inside other structures: ListHead. Links is the memory
--   of all nodes, a `prev` and a `next` for each address; init_list_head, list_add, list_add_tail,
--   list_del, list_empty, list_splice and list_splice_tail are the functions of those names, and
--   list_add_between, list_del_between and list_splice_between those that begin with `__`.
--   ListHead/Chain says which list of nodes a head stands for (IsRing).
-- * The size classes of src/wlmalloc.c, and src/sizeclass.c, the program that prints their tables:
--   SizeClass and SizeClass/Generate.
-- * src/wlmalloc.c and src/wlmalloc.h, the allocator: Alloc has the data. A State holds the list
--   nodes, the span headers by address, `using` by thread and class, the scalars of `pool`, which
--   mutexes are held, the start-up flags and the bytes of memory. A thread is known by the address
--   of its `local_tcache`, the argument `self`. A Cmd is a step that returns, ends the process, or
--   waits forever for a mutex. Alloc/Blocks has span_init, get_blk and span_free_blk;
--   Alloc/GlobalPool global_init and acquire_span, with all its ways in Order; Alloc/ThreadCache thread_cache_init,
--   replace_available_span, small_alloc and thread_exit, with the search in Search and the end of a
--   thread in Zones, Disown, Leave and Exit below it and the spans it forgets in Stale; Alloc/Entry
--   check_init, large_alloc,
--   wl_malloc, wl_free, calloc and realloc. `malloc` and `free` are wl_malloc and wl_free.
--   Alloc/Entry/Contract is the abstract allocator that a client may rely on, a relation between
--   the live blocks before and after a call, and Alloc/Entry/Refines relates the code to it, for
--   the span of one size class; Alloc/Entry/Classes does so for the spans of several classes at once.
--   Alloc/Entry/Calloc is about calloc and Alloc/Entry/Move about realloc, which works on two spans;
--   Alloc/Blocks/Apart has what keeps spans apart.
--   A span of 16384 bytes behind a header of 72 bytes is cut into blocks of one class. A request
--   goes to the span in use of its class; a span without free blocks is suspended and replaced by
--   one from the thread's lists or from the pool, and the pool gets its memory from the system.
-- * The functions tri_mod_alloc, tri_mod_free, tri_mod_read and tri_mod_write: TriMod.
-- * src/wlgc.c and src/wlgc.h, the collector: Gc has the hash table of tracked blocks, in which a
--   bucket's chain is the list of the addresses of its `alloc_t`s; Gc/Insert is about
--   register_alloc; Gc/Mark has gc_mark_alloc and gc_mark; Gc/Sweep gc_free_alloc, gc_hash_resize,
--   gc_sweep and gc_collect; Gc/Calls gc_malloc, gc_calloc, gc_realloc, gc_free and gc_collected,
--   with a file below it for each group of them.
-- * src/ls.c, a directory lister that is linked with the allocator: Ls has its entries, countdirs,
--   countsubdirs, splitdnarray and sortcmp; Ls/Sort shellsort, whose array is a list that is read
--   and written within its bounds; Ls/Layout the rows and columns of showfiles, as the sequence of
--   its calls of list_single and newline; Ls/Text mode_string, append_char and
--   make_human_readable_str, whose result is what snprintf is given; Ls/Names last_char_is,
--   concat_path_file, my_stat and list_dir, with what is to be listed in Ls/Names/Wanted; Ls/Memory xmalloc, xrealloc, xcalloc and xreadlink, which
--   call the model of the allocator; Ls/Options the options of ls_main and which of them take
--   precedence. Ls/Screen has newline and nexttabstop with the text that was printed and the count of
--   columns; Ls/Print list_single, a function for each of its cases, fgcolor, bgcolor, my_getpwuid
--   and my_getgrgid; Ls/Show puts the calls of showfiles, list_single and newline together, and
--   Ls/Show/Table has the table that they print. Ls/Walk has showdirs and the end of ls_main, with
--   the directories that were opened; Ls/Walk/Reach says which directories are below others.
--   For a link list_single calls the model of xreadlink, and ends with it (Ls/Print/Links).
--   Ls/Nodes has countfiles and dfree, on the addresses of the nodes. `strcmp`, `stat`, `lstat`,
--   `readlink`, `ctime`, the time, the names of owners, the names that readdir gives and the letters
--   that getopt returns are arguments, and entries and arrays are taken to get their memory.
--
-- Base has the shared helpers, and Examples concrete states with the theorems at them.
--
-- Addresses and sizes are natural numbers. `uint32_t` and `size_t` arithmetic that can wrap has
-- its `% 2 ^ w` written out. What the program takes from outside is a parameter: Env has the
-- answers of `mmap`, `munmap` and `pthread_mutex_init` and the address of `pool`, Libc those of the
-- system's allocator under the collector, and the collector reads the stack and the blocks through
-- a function from addresses to words.
--
-- Fuel: loops over circular lists (unlink_available, disown) take fuel, and out_of_fuel is a result
-- of its own; more fuel than the list has nodes is enough. The depth of gc_mark_alloc is bounded by
-- the number of tracked blocks plus one, since each level marks another block. The loops of
-- sizeclass.c get 64 rounds each, and none of them runs longer. The loop over `gap` of shellsort
-- gets the array's size as fuel and the loop over `j` the index of the element, each above the
-- number of its rounds. The calls of showdirs are nested on fuel: more fuel than a tree has levels of
-- directories is enough. Numbers are printed with at most 20 digits, which 64 bits never exceed.
--
-- Not modelled: messages on `stderr`; src/log.c, a copy of another library; of src/ls.c what only
-- passes on calls of the C library: usage, copies of strings and xfopen; src/libwlmalloc.a, a
-- compiled archive; the benchmarks under test_benchmark, of which gcbench.c is another project's.
-- Threads run one call
-- at a time here: the models show what a call does to the shared state, and which mutexes it holds
-- at its end.
pub mod Base
pub mod ListHead
pub mod SizeClass
pub mod Alloc
pub mod TriMod
pub mod Gc
pub mod Ls
pub mod Examples
