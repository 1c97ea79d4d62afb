-- ===== src/Lib.antt =====
-- A model of the C programs of csapp_code, solutions of the labs of Computer Systems: A Programmer's
-- Perspective and servers after its text, with theorems about them. The programs share no code but
-- the textbook's csapp.c; each part below is a program, or the routines that two of them share.
--
-- Csim: labs/cachelab-handout/csim.c, the cache simulator. `access` is what `process` does in one
--   set, in the source's order (age, hit, fill, evict); `process` finds the set from the address;
--   `replay` is the loop of `main` over the operations. A cache is a list of sets of lines. Shifts
--   that C leaves undefined, and a set outside the cache, are the fault `none`. A line's `times`
--   and the counters are ints that wrap. Csim.Input is the rest of the program: its options, its trace file and `main`,
--   with getopt, atoi, fopen and the line format of fscanf as arguments; reading runs on fuel, two
--   steps more than the file has lines.
-- Shell.Jobs: labs/shlab-handout/tsh.c, the job list. `addjob`, `deletejob`, `fgpid`, `getjobpid`,
--   `getjobjid`, `pid2jid` and their helpers work on the array and `nextjid`. `none` is a command
--   line that `strcpy` writes past its field. Messages are left out.
-- Shell.Parse: `parseline` of the same file, a walk over the command line with its quotes. The loop
--   runs on fuel, one round more than there are words.
-- Sbuf: the bounded buffer of thread/echoserver_pre.c and thread/sbuf.c. `Move` has one constructor
--   for each statement of `sbuf_insert` and `sbuf_remove`, two for the access with its increment,
--   which has no step where it overflows; a step moves one of any number of threads, and `Reach` is every interleaving. csapp.c's `P` and `V` act as a semaphore does.
-- Readers: thread/reader_writer.c, in the same way: `Statement` has a constructor for each statement
--   of `reader` and `writer` and each outcome of their tests.
-- Mutex: thread/mutex.c, in the same way, with `++cnt` as a load and a store.
-- Malloc: labs/malloclab-handout/mm.c over memlib.c, as built for 32 bits, a byte for each address.
--   Malloc.Ranges is the list by which mdriver.c checks the blocks, and Malloc.Driver its function
--   `eval_mm_valid`, which replays a trace; Malloc.Util is its `eval_mm_util`, and Malloc.Replay its
--   `eval_mm_speed`, `eval_libc_valid` and `eval_libc_speed`, over an allocator that is an argument.
--   Malloc.Trace is `read_trace`, with the conversions of fscanf as arguments; its loop runs on fuel,
--   one step more than the file has operations.
-- Datalab: labs/datalab-handout/bits.c, each puzzle on 32-bit patterns, with the functions of tests.c
--   that say what it is to compute.
-- Transpose: labs/cachelab-handout/trans.c. Loops run for the number of rounds that their tests
--   allow, which are known before they start, so no fuel is needed anywhere. Transpose.Driver is
--   what runs them: the registry of cachelab.c, the check of tracegen.c, and `eval_perf` of
--   test-trans.c with its filter of a trace. valgrind, the reference simulator, rand and sscanf are
--   arguments.
-- Tiny: tiny/tiny.c, one transaction of the web server: `doit`, `read_requesthdrs`, `parse_uri` and
--   `get_filetype`. sscanf and stat are arguments, the connection is the list of its lines. The
--   header loop runs on fuel, for which the number of header lines is enough. A `none` of
--   `parse_uri` is a write past a buffer. Tiny.Send is the bytes that `serve_static`, `serve_dynamic`
--   and `clienterror` send; what an overlapping sprintf leaves, the format "%d", the files and the programs are arguments.
-- Proxy: labs/proxylab-handout/proxy.c, one request at a time: `doit` and what it calls. `exited` is a
--   call of exit, `fault` a null pointer or a write past an array. The server behind and sscanf are
--   arguments. The header loop runs on fuel, one step more than there are headers; an array that is
--   written whole is its text and its size (`Sent`). The lock of the cache is the one of Readers.
-- Pool: server/multi_conecho_server.c, the pool of clients and a round of `main`. select, accept and
--   csapp.c's buffered reader are arguments; what is sent and closed is a list of events.
-- Fcyc: labs/malloclab-handout/fcyc.c, the K-best timer. A time is a natural number, and the test of
--   convergence on two times an argument, where the source multiplies doubles by epsilon. The loop
--   runs on fuel, for which `maxsamples`, or one, is enough.
-- Btest: labs/datalab-handout/btest.c, the driver of the puzzles, with the first eleven
--   entries of decl.c, for those on integers but `ilog2`. Random values and the roots of TEST_RANGE are arguments; a value of type int
--   is its 32-bit pattern, and `biased` is its place between INT_MIN and INT_MAX.
-- Prelude, Word, Threads: what the parts share: names and lemmas on lists and tests; 32-bit words and
--   their bits; families of threads.
--
-- Not modelled: sockets, processes, signals and files, which are system calls; the parsing of
-- options but csim's; the printers, and what mdriver.c makes of its measurements; the cycle
-- counters; the copies of csapp.c.
pub mod Prelude
pub mod Word
pub mod Csim
pub mod Shell
pub mod Threads
pub mod Sbuf
pub mod Readers
pub mod Fcyc
pub mod Btest
pub mod Pool
pub mod Proxy
pub mod Malloc
pub mod Mutex
pub mod Datalab
pub mod Transpose
pub mod Tiny
