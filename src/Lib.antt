-- ===== src/Lib.antt =====
-- nctu_unix_programming: models of the homework programs of the course, and what holds of them.
--
-- hw4, a debugger (hw4/sdb.cpp, hw4/sdb.h, hw4/ptools.cpp, hw4/ptools.h), is modelled under Sdb. Its
-- state (Sdb.State) is prog_info, the globals bp_restore and orig_instructions, the world outside and
-- what was written to stderr. A command is a function of that state into an outcome (Monad): a normal
-- return, or the way in which the process ended. Everything that the debugger calls, ptrace, waitpid,
-- fork, files, /proc and Capstone, is the parameter Sdb.Kernel; its record IsLawful states what the
-- manual of ptrace says of memory and registers. The main loop (Sdb.Command: main, execute) splits a
-- line into words (Sdb.Split: splitStr2Vec), converts arguments (Numbers: stoull, stoi, stol of the
-- standard library) and calls set_bp, del_bp, list (Sdb.Breaks), cont, si (Sdb.Cont), load, start, run,
-- get_orig_code (Sdb.Loader, with elf_read in Sdb.Elf), get, getregs, set (Sdb.Regs), dump, disasm, help
-- (Sdb.Show) or vmmap (Sdb.Maps, with load_maps). Sdb.Word has the words of memory and their patches,
-- Sdb.Status the macros on a wait status.
--
-- hw1, an lsof (hw1/hw1.cpp), is modelled under Lsof: Lsof.Text and Lsof.Entries read the processes
-- (get_comm to get_fd), Lsof.Filters has the searches, print_all and main. The system is the parameter
-- Lsof.Proc.
--
-- hw2, a logger of file activity, is modelled under Logger: Logger.Calls has the eighteen functions of
-- hw2/logger.cpp that stand in front of the C library (the parameter Logger.Libc), Logger.Checkbuf its
-- checkbuf, Logger.Launch the main of hw2/hw2.cpp up to its execvp, over the parameter Os (open, dup2 and
-- perror). Logger.Sample has programs that call these functions, with hw2/sample.cpp as one of them, run
-- with the logger and without it.
--
-- hw3, a small C library, is modelled under Mini. Mini.Sys is what the library asks of the kernel and of
-- memory, and its state: errno and the world. Mini.Sigset has the functions on sigset_t of
-- hw3/libmini.c, Mini.Wrappers the wrappers of system calls (and open of hw3/libmini64.asm), Mini.Text
-- bzero, strlen, sleep and perror, Mini.Signals sigprocmask, sigpending, sigaction and signal. Mini.Jump
-- runs setjmp, longjmp and the stubs of hw3/libmini64.asm on a machine with registers and words of
-- memory. Mini.Samples has alarm1.c, alarm2.c, alarm3.c, jmp1.c and start.asm as calls of these models;
-- Mini.Terminal is a descriptor that takes what is written to it.
--
-- Base has the shared names, lists, Boolean tests, bits and texts. Tests has a small machine that
-- fulfils the laws, and examples of the theorems on it.
--
-- Words of memory, addresses and registers are numbers below 2^64, and sums of addresses wrap around.
-- Loops have fuel where they are not structural. split_loop has one round for each byte of the text and
-- one more, since each round takes a byte at least; erase_loop one for each element and one for the
-- test that ends it; mem_scan two more than there are entries, since it appends one at most;
-- get_orig_code one for each byte of the text section and one more, since an instruction has a byte at
-- least; strlen one for each count that its type can hold; jmp1_from eleven, one for each return of setjmp.
--
-- Not modelled: getopt and freopen; std::cout in hw2/sample.cpp; errno in hw2/logger.cpp, which its calls
-- of realpath and readlink can change; the messages on stdout of hw1/hw1.cpp for a bad option and for a
-- comm or maps file that cannot be read; sys_sigreturn, of which only the address is used; and the layout
-- of what is printed: a message carries the values that are printed.
pub mod Base
pub mod Monad
pub mod Numbers
pub mod Sdb
pub mod Lsof
pub mod Logger
pub mod Mini
pub mod Tests
