-- ===== src/Lib.antt =====
-- MOS, a small operating system for MIPS with a file server in user space, which knows its own file
-- system (fs/fs.c) and FAT32 (fs/fatfs.c).
--
-- Base: the conditional and Boolean tests, lists, `Run` and `Cmd` (a state that is passed on, the
--   error codes, and `panic` for a failed assertion), bits of words, and the bitmap of free numbers
--   that kern/env.c and fs/fs.c share.
-- Kern: the kernel. Kern/Sched is `schedule` of kern/sched.c, which ends in the environment that
--   runs next. Kern/Pages is kern/pmap.c: the free list, the reference counts and the two-level
--   page tables (`page_init`, `page_alloc`, `page_insert`, `page_lookup`, `page_remove`, ...) on
--   memory as an array of words; its children say what an address space maps. Kern/Asid is
--   `asid_alloc` and `asid_free` of kern/env.c, Kern/Env the rest of that file: environments as a
--   table of records in the state `Kernel`, which also has the lists, memory and the saved trap
--   frame (`envid2env`, `env_alloc`; `env_free`, `env_destroy` and `env_run` in Kern/Env/Free).
--   Kern/Syscalls is kern/syscall_all.c over these (`sys_mem_map`, `sys_exofork`, `sys_ipc_recv`,
--   `sys_ipc_try_send`, ...).
-- Fs: fs/fs.c. Fs/Cache has the block cache (`diskaddr`, `read_block`, `write_block`, `map_block`,
--   ...), Fs/Bitmap the bitmap (`alloc_block_num`, `free_block`, ...), Fs/File the blocks of a file
--   (`file_block_walk`, `file_map_block`, `file_truncate`, `file_flush`, `fs_sync`, ...), Fs/Path
--   directories and path names (`dir_lookup`, `walk_path`). The state `Server` has the cache and
--   the disk as arrays of words, and the page table bits. Fs/Opens is the table of open files of
--   fs/serv.c (`open_alloc`, `open_lookup`).
-- Fat: fs/fatfs.c. Fat/Defs has the geometry, the addresses and the state `Fat`; Fat/Layout what
--   they satisfy; Fat/Table the allocation table (`fat_alloc_cluster_num`, `fat_free_cluster`,
--   ...); Fat/Names short names (`getFileName`, `cmpFileName`, `ChkSum`, ...); Fat/LongName the
--   slots of long names (`fillFileLN`, `cmpLongName`); Fat/Directory their order and the lookup;
--   Fat/Chain the chains of files in the table (`fat_walk_cluster`, `fat_total_clus`,
--   `fat_file_truncate`).
-- Clock: fs/time.c, and `setTime` of fs/fatfs.c.
-- Clib: lib/. Clib/Print has `print_char`, `print_str` and `print_num` of lib/print.c, with its
--   buffer as an array, and Clib/Format `vprintfmt`; what C leaves undefined is an outcome.
--   Clib/Memory is `memcpy` of lib/string.c on memory as an array of bytes, and Clib/Strings its
--   functions on strings (`strlen`, `strchr`, `strcmp`). Clib/Elf is `elf_load_seg` of
--   lib/elfloader.c over any `map_page`.
-- User: user/. User/Pipe is `pipe_read` and `pipe_write` of user/lib/pipe.c as a relation: one step
--   is one test, copy or increment of the reader or the writer. User/Descriptors has `fd_alloc` and
--   `fd_lookup` of user/lib/fd.c, and User/Transfer its `read`, `readn`, `write` and `seek` over a
--   table of devices, with `file_read` of user/lib/file.c. User/Shell is the tokenizer of user/sh.c
--   (`_gettoken`, `gettoken`) on memory as an array of bytes.
-- Tests: the definitions and theorems on small inputs.
--
-- Function names are those of the source in antt's spelling (`Data2ClusNO` is `data_to_clusno`). A
-- function that changes memory is a `Cmd` on the state of its part. A loop is a recursion on the
-- rounds that are left, which the loop's own bound gives (the number of blocks, of entries of the
-- table, or of bytes); the loop over the years of `utc_sec_2_mytime` has 150 rounds, more than the
-- 137 years of a 32-bit number of seconds. `vprintfmt` has a round for each byte of the format, and
-- `print_num` 32 for the digits; `walk_path` has a round for each byte of the path, `_gettoken` as
-- many as its buffer has bytes, and `fat_total_clus` as many as it is told, for want of a bound in
-- the code. An `int` or `u_int` that may wrap is its bit pattern with `% 2 ^ 32`. What the kernel
-- answers to `syscall_mem_alloc` is the argument `granted`; the disk takes every write. What C
-- leaves undefined in the kernel (a null or unset pointer that is followed, a second insertion into
-- a list, a removal of what is not on it) is `panic`, like a failed assertion; the negation of the
-- smallest `int` in `vprintfmt` wraps around, where C leaves it undefined. `env_free` looks at
-- 509 tables of 1024 entries, as its loops do. `cmpLongName` may look at bytes around the name: what
-- memory holds there is the argument `outside`. The word copies of `memcpy` have no result at an
-- address that is no multiple of 4.
--
-- Not modelled: device access (fs/ide.c, kern/console.c, `sys_read_dev`), assembly, what runs once
-- at boot but for `page_init` (`alloc`, `env_init`, `load_icode`), the kernel's self-tests, the
-- build tools, the user programs but for the tokenizer of the shell, and the tests; the requests of
-- fs/serv.c, the rest of fs/fs.c and fs/fatfs.c, the operations `close`, `dup` and `fstat` on
-- descriptors and `sys_ipc_try_broadcast` are left for later.
pub mod Base
pub mod Kern
pub mod Fs
pub mod Fat
pub mod Clock
pub mod Clib
pub mod User
pub mod Tests
