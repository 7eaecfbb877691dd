-- ===== src/Lib.antt =====
-- emuroot: a model of the fake-root engine, and theorems about it.
--
-- emuroot runs a program in a root of its own without privileges: it stops the program at its system
-- calls, redirects their paths and answers for root's identity. The parts that are modelled, each
-- with the file of its definitions:
--
--   Base       numbers, lists by index, Boolean tests and signed results, shared by all
--   Cstring    C strings as lists of bytes, and the C library's functions that the sources call
--   Context    src/emuroot.c, src/internal.h: the configuration, its setters, bind and unbind
--   Creds      src/creds.c: the fake credentials of one process, and its calls in sequence
--   Path       src/path.c: from guest paths to host paths and back
--   Syscalls   src/syscalls.c, src/syscalls.h: the two tables of calls, and the numbers that
--              src/ptrace.c traces
--   Regs       src/arch.h, src/regs.c: the arguments of a call, where each machine keeps them, and
--              the requests that move them
--   Dac        src/dac.c: the permission bits that the fake root is given
--   Ownership  src/ownership.c: the hash table of fake owners, and the text that it is saved as
--   Tracee     src/tracee.h, src/ptrace.c: the traced processes and how a fork adds to them
--   Kernel     what the handlers see: the kernel, the registers and the state of a stop
--   Rewrite    src/rewrite.c: scratch memory, path arguments and socket addresses
--   Entry      src/rewrite.c: emuroot_on_entry
--   Mounts     src/mounts.c: chroot, mount and umount of a fake root
--   Identity   src/identity.c: what the kernel is asked for in place of a credential change, and what
--              is noted of a chown and of a new file
--   Exec       src/exec.c: script lines, ELF interpreters, argument vectors and the new execve
--   Exit       src/fake.c: emuroot_on_exit, with what a credential call answers
--   Ptrace     src/ptrace.c: the handling of a stop, the loop over the stops, and a whole run
--   Seccomp    src/seccomp.c: the filter program
--   Start      src/main.c, src/emuroot.c, src/envonly.c, src/spawn.c: options, backends, statuses,
--              and the supervisor
--   Probe      src/probe.c: the report on what the kernel permits
--   Guest      src/guest.c: ways to a process's memory, that of a word at a time in full, and strings
--              read from there
--
-- How they interact. A configuration (Ctx) holds the root and the bindings. A stopped process has
-- its own root, credentials and arguments (Tracee). At the entry of a call that the tables know, its
-- paths are translated (Path) with the configuration, the bits that root would ignore are granted
-- (Dac), and a credential change is neutralized (Identity); at the exit the result is that of the
-- fake credentials (Exit, Creds). What a stop is, and which process it belongs to, is decided by the
-- engine (Ptrace), which keeps the table of processes and resumes each one after its stop.
--
-- How the code is read. A function keeps its name; one that changes what a pointer leads to takes the
-- value and returns the new one, beside its result. A text is the list of its bytes before the NUL,
-- and a write into a buffer of n bytes keeps the first n - 1. Ids are numbers below 2^32 where a
-- theorem needs it, and wrap-around is written out. A NULL or a 0 that means failure is `none`.
-- Parameters stand for what is not in the sources: the kernel's answers (readlink, stat, memory of
-- the guest), the numbers of the system calls, and the flags of the C library.
--
-- The handlers take a record Kernel of such answers over a type of worlds, which a write or a chmod
-- changes; nothing is assumed of it, so the theorems about handlers hold for each kernel. The state of
-- a stop is the world, the configuration, the ownership table, the tracee and its registers. A pointer
-- and a word of the guest have 64 bits and the lowest byte stands first, as on most of the machines of
-- src/arch.h. In a round of the loop, what waitpid answers is an event.
--
-- Fuel. The walk of a path has 42 * 8192 rounds: each of the 41 texts it can walk (the path, and one
-- after each of at most 40 links) is below 8192 bytes, and each round takes a byte off one or goes on
-- to the next. The search in the ownership table has as many rounds as there are slots, and the
-- reading of a string as many as its buffer has bytes, one of which each round fills. So has the
-- loop over words. The closing of descriptors has one walk more than there are open descriptors, since
-- a walk that is not the last closes 1024; where it runs out of fuel there is no result. A number is
-- printed with 20 digits at most, which 64 bits do not exceed, and a text is scanned without fuel.
--
-- Not modelled: the kernel's calls themselves (fork, exec, waitpid, ptrace, prctl, dup2, signals), whose
-- answers are arguments; log output and the freeing of memory, which have little
-- logic of their own; the Android library and the tests. The Kernel record of the handlers reads and
-- writes the guest's memory by functions of its own: that these are guest_read and guest_write is not
-- stated.

mod Base
pub mod Cstring
pub mod Context
pub mod Creds
pub mod Ownership
pub mod Dac
pub mod Path
pub mod Syscalls
pub mod Regs
pub mod Tracee
pub mod Exit
pub mod Rewrite
pub mod Identity
pub mod Exec
pub mod Guest
pub mod Kernel
pub mod Mounts
pub mod Entry
pub mod Seccomp
pub mod Probe
pub mod Ptrace
pub mod Start
