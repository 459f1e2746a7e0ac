-- ===== src/Lib.antt =====
-- A verification library for libSystemCall, a small C library for macOS on x86-64 that stands
-- directly on the kernel's system calls. The sources are SystemCall/SystemCall/SystemCall/*.c; a
-- bare file name below is a file of that directory.
--
-- The parts and the modules that model them.
--
-- * Memory is one flat array of bytes, `Mem`, with natural numbers for addresses. Pointers into
--   it are not wrapped, so the theorems are about buffers that end below 2 ^ 64. Strings are
--   stated by `IsStr`.
-- * Bytes (z_string.c): z_memset, z_memcpy, z_memmove with its loops over words, z_memcmp.
-- * Str (z_string.c, z_malloc.c): z_strlen, z_strncmp, z_strncpy, z_strncat, z_strdup and
--   z_malloc, given the result of the mapping. Str/Order is about z_strncmp as a comparison.
-- * Numeric (z_utils.c): the classes of characters, z_itoa, z_xtoa, z_atoi, z_inet_aton.
-- * Messages (z_string.c): the tables of texts, z_errstr, z_strerror_r, z_strerror,
--   z_strsignal_r, z_strsignal. The addresses of the texts, and of the functions' local buffers,
--   are parameters.
-- * Print (z_stdio.c): the output buffer of z_printf and z_fdprintf, kdoprnt and kprintn. A
--   format is the list of its bytes, the arguments are a list, and the writes to the kernel are
--   recorded in order; a write is taken to accept all its bytes. Print/Meaning says what a format
--   means, Print/Text is the text that the code makes of it, and Print/Conversions and
--   Print/Agreement compare the two; Print/Number is about the numerals.
-- * Atexit (z_atexit.c, z_atexit.h): the chain of tables of exit handlers, z_atexit_register,
--   z_cxa_finalize_ranges and z_cxa_finalize. A handler is known by what it registers.
-- * Tsd (z_pthread_tsd.c): the keys of thread-specific data and one thread's values. A destructor
--   is known by what it does to the tables.
-- * Calls (z_syscall.S, z_error.c and the files of request wrappers): z_syscall_unix with the
--   error number, the numbers of z_syscall.h in Calls/Numbers and Calls/Traps, and a function for
--   each wrapper in Calls/Files, Calls/Sockets, Calls/Process, Calls/Ipc, Calls/Threads and
--   Calls/Mach; Calls/Buffers holds those that lay out their arguments in memory. The kernel is a
--   parameter, with a state of its own, and so is the test for a pending cancellation. Arguments
--   are the words that the kernel receives.
-- * Stdlib (z_stdlib.c): z_findenv and z_getenv, the random numbers, and z_insertionsort on the
--   list of its elements. Stdlib/Merge holds z_setup and z_mergesort, with the runs as a list of
--   lists, and Stdlib/Exit holds z_exit, z_abort and z_sranddev.
-- * Lock (z_lock.c): z_lock_lock, z_lock_trylock and z_lock_unlock as steps of many threads, one
--   access to the word at a time.
-- * Thread (z_pthread.c, z_pthread.h): Create holds the structure, its mapping and
--   z_pthread_create; State and Join hold z_pthread_terminate, z_pthread_join and
--   z_pthread_detach on one thread as the steps of three programs, one read or write of the
--   structure at a time, where a thread that follows a null pointer or meets what is gone stops;
--   Exclusion, Late, Served and Return are about their interleavings; Fork holds the handlers
--   around z_fork (z_unistd.c), Cancel the cancellation and the way out of a thread, which Exit
--   is about, Main the start of the main thread, Slots the functions on one field of the
--   structure, and Wake the end of a thread, which wakes the one that joins it.
-- * Tlv (z_pthread_tlv.c, z_machO.h): thread-local variables. Image reads a loaded image, Keys
--   keeps the images with their keys, Descriptors fills the descriptors, Storage gives a thread
--   its copy of the variables, and Terminators runs what is registered for a thread's end.
--   Terminators and initialisers are parameters.
-- * Context (z_uccontext.c, z_uccontext.s): the saved registers of a user context, z_makecontext,
--   and the first steps of the context it makes.
-- * Dir (z_dirent.c): z_readdir with its rounds, Dir/Open the opening and closing. The contract
--   of Dir/Entries is a list of entries, of which the buffer and the kernel hold one part each.
--   Dir/Union holds the rest of z_filldir, which the code does not reach, for a buffer that is
--   given. Dir/Zap and Dir/Duplicates are about its removal of duplicates.
-- * Terminal (z_termios.c, z_select.c, z_isatty of z_unistd.c), Tty (the pseudo-terminals and
--   z_devname of z_stdlib.c, z_ttyname) and Start (z_simple_getenv and zz_main of z_main.c).
--   Print/Sprintf holds z_sprintf and z_inet_ntoa, Numeric the byte order of z_utils.c.
-- * Stream (z_stdio.c): the streams from z_sread to z_putc in Stream and Stream/Chars, with the
--   functions of the stream as parameters. Stream/Open and Stream/Modes hold _z_sflags and the
--   opening of streams, Stream/Flush is about z_sflush, Stream/Reading about z_getc, and
--   Stream/Writing and Stream/Delivery about z_putc with z_fflush.
-- * Mach (z_mach.c, z_mach.S): z_mach_init, with the page that the kernel shares as memory, and
--   z_get_processor_info, with the instruction cpuid as a parameter.
-- * Codes (z_wait.h, z_ioctl.h): the macros for the status of a child and for the requests of
--   z_ioctl.
-- * Base holds the shared tests, lists, bits and integers; Tests holds runs and instances.
--
-- Numbers. A z_uint32 or z_uint64 is a natural number with `% 2 ^ w` where the source wraps, and
-- a z_int32 that may be negative is its bit pattern. The results of comparisons are integers.
--
-- Fuel. A loop that a text in memory keeps running takes a unit of fuel for each byte, and the
-- theorems say that fuel above the length of the text gives the result. z_itoa and z_xtoa hold
-- the eleven steps that a z_uint32 can need; z_errstr has three digits, since its number is an
-- unsigned char. The loop over the exit handlers takes a unit for each call, because handlers
-- that register one another for ever keep it running. The clean-up of thread data needs no fuel:
-- its bound is a z_uint16. z_readdir takes a unit for each entry that is left and one more, and
-- the loop of z_sflush one for each byte and one more; a thread's exit has fourteen steps at
-- most, and a join that is served five from its wait on. In z_mergesort a search takes a unit for
-- each element, a merge one for each element of both runs, and the passes one for each run. The
-- terminators of a thread take one for each entry gone through, the filling of descriptors one
-- for each descriptor, a vector of pointers one for each pointer and one more, and the waking of
-- the joining thread one for each request. In Tty the fuel bounds the names and the entries of
-- the directory.
--
-- Not modelled: the wake signal of a thread that has a stack of its own, the first instructions
-- of a program, the numbers of z_syscall.h that no function uses, and what only reads or sets
-- machine registers (z_tsd.c, z_show_register, the other assembly files).
pub mod Base
pub mod Memory
pub mod Bytes
pub mod Str
pub mod Numeric
pub mod Atexit
pub mod Tsd
pub mod Tlv
pub mod Calls
pub mod Messages
pub mod Stdlib
pub mod Print
pub mod Lock
pub mod Thread
pub mod Dir
pub mod Terminal
pub mod Tty
pub mod Context
pub mod Stream
pub mod Mach
pub mod Codes
pub mod Start
mod Tests
