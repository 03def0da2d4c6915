-- ===== src/Lib.antt =====
-- Verification library of TPs-SisOps: the practical works of an operating systems course,
-- written in C, modelled as functions over explicit state.
--
-- fisopfs, a FUSE file system kept in memory (fisopfs/). `Fisopfs.Paths` models the path
-- functions of fisopfs/fs.c and `path_depth` of fisopfs/fisopfs.c; `Fisopfs.Inode` and
-- `Fisopfs.Table` the structures of fisopfs/fs.h and the operations of fisopfs/fs.c on the
-- inode table; `Fisopfs.Handlers` the handlers of fisopfs/fisopfs.c, each under its name
-- without the prefix `fisopfs_`; `Fisopfs.Requests` their dispatch by the table
-- `operations`; `Fisopfs.Persist` the persistence file. A handler looks its path up in the
-- table (`fs_lookup`), changes the inode or the table, and returns a code. The table's
-- arrays of 256 entries are functions of the index, and every loop over them runs 256
-- rounds, as in the source. A C string is the list of its bytes, of any length: what is
-- said is about paths shorter than the 256 bytes of the buffers that the source copies them
-- to. A write outside of an inode's `data` is the outcome `fault`. Ids, the clock and the
-- success of the C library's file calls, `fclose` included, are parameters. Messages are
-- not modelled.
--
-- sched, a JOS kernel with a scheduler (sched/). `Sched.Memory` models the page allocator,
-- the page tables and the checks of user memory of sched/kern/pmap.c, and `Sched.Boot` the
-- set-up of memory there and in sched/kern/env.c; `Sched.Env` `struct Env` of
-- sched/inc/env.h, the state of one CPU, and `env_run`; `Sched.Scheduler`
-- sched/kern/sched.c; `Sched.Envs` the table, the ids, the free list and the address spaces
-- of sched/kern/env.c; `Sched.Returns`, `Sched.PageCalls` and `Sched.Syscalls` the calls of
-- sched/kern/syscall.c; `Sched.Trap` the way of a trap through sched/kern/trap.c, and
-- `Sched.Console` the keyboard, the input buffer and the screen of sched/kern/console.c;
-- `Sched.Text` numbers as text, `printnum` of sched/lib/printfmt.c for 64-bit numbers and
-- `strtol` of sched/lib/string.c with a `long` of 32 bits that wraps around, and
-- `Sched.Text.Format` formatted output, `vprintfmt` and `vsnprintf` of
-- sched/lib/printfmt.c, where an argument carries its type; `Sched.Debug` the binary search
-- `stab_binsearch` of sched/kern/kdebug.c, on fuel of two rounds for each entry and two
-- more; `Sched.Strings` the memory and string functions of sched/lib/string.c with the
-- string instructions that they use. A system call changes the table and the memory and
-- returns, or leaves the kernel through `sched_yield`, which enters user mode (`env_run`)
-- or halts, or panics; since these functions do not return, the model computes the way the
-- CPU leaves the kernel and the state in which it does. The table of 1024 environments is a
-- function of the slot, and a pointer to one is its slot. Physical memory is a function of
-- the page's number and the word's index; a pointer to a page or to its `struct PageInfo`
-- is the page's number, and a pointer to an entry of a page table the table's page and an
-- index. The TLB is not modelled. The round robin's loop runs on 1024 rounds of fuel: it
-- meets the current slot again, or leaves the table, before they are used up; the loop of
-- `user_mem_check` runs as many rounds as there are pages between its bounds. Priorities
-- are integers of any size. A breakpoint leaves the kernel to the monitor, whose loop does
-- not end, since no command gives a negative result. `Sched.User` models the user library:
-- sched/lib/fork.c, sched/lib/pgfault.c, sched/lib/ipc.c and the stubs of
-- sched/lib/syscall.c as trees of the system calls with what follows for each of their
-- results; `Sched.User.Spaces` says what the calls do to the address spaces of a program
-- and its child, and what the page faults that the program takes between them may do. The
-- loop over the pages below UTOP runs a round for each; that of `ipc_send` runs on rounds.
--
-- shell, a Unix shell (shell/). `Shell.Parsing` models the parser: `parse_line` of
-- shell/parsing.c and what it calls of that file, of shell/utils.c and of
-- shell/createcmd.c. `parse_line` runs on fuel, of which one more than the bytes of the
-- line are enough; the loop of `parse_exec` runs on as many rounds as the line has bytes,
-- and takes one at least in each. Tokens and arguments are of any length and number: the
-- sizes of the arrays of the source are not modelled, so that what is said is about lines
-- of less than 1024 bytes whose commands have less than 20 words, since the source writes
-- behind `argv` for more. `getenv`, the text of the last status and the byte before the
-- line's buffer are parameters. `Shell.Exec` models shell/exec.c: `exec_cmd` computes the
-- process that runs a command, a tree of the calls of the operating system with what
-- follows for each of their answers. `Shell.Session` models the loop of the shell:
-- `read_line` of shell/readline.c with the size of its buffer, the built-in commands of
-- shell/builtin.c, `run_cmd` of shell/runcmd.c, `print_status_info` of shell/printstatus.c,
-- `free_command` of shell/freecmd.c and `run_shell` of shell/sh.c; what they call of the C
-- library is a parameter, `fork` with `exec_cmd` in the child among it. `run_shell` runs on
-- fuel, of which one more than the lines is enough.
--
-- fork, small programs (fork/). `Fork.Primes` models the sieve of processes of
-- fork/primes.c: a pipe is the list of what goes through it. `cadena_pipes` is the sieve
-- with a terminal as its standard output, where each line goes out when it is printed, and
-- `cadena_bufer` that with a pipe or a file, where `fork` copies the lines that wait in the
-- buffer of the standard output. The recursion runs on fuel, of which one for each number
-- written is enough, since each process takes one at least away. `Fork.Xargs` models
-- fork/xargs.c, started with the name of a program: the sequence of its calls of
-- `ejecutar_programa` for the lines of its input, with the sizes of the buffers that
-- `getline` fills; the sizes that `getline` gives to buffers are a parameter. What `fork`,
-- `execvp` and `wait` do is not modelled.
--
-- Not modelled: printing, locks and interrupts' acknowledgement, the detection of memory,
-- `mem_init`, the loading of programs (`load_icode`, `env_create`), the descriptor table,
-- the drivers' registers, the kernel monitor and `debuginfo_eip`, the start of programs,
-- `ipc_find_env` and the console of the user library, and the test programs of sched/; of
-- shell/ the prompt on a terminal, the handler of SIGCHLD and its set-up; the test scripts
-- of all parts. sched/kern/entrypgdir.c is a table of constants, of which the build leaves
-- out all but two entries.
pub mod Base
pub mod Fisopfs
pub mod Fork
pub mod Sched
pub mod Shell
