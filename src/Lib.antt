-- ===== src/Lib.antt =====
-- Nachos 4.0, the instructional operating system of code/: a simulated MIPS machine (code/machine),
-- the kernel's threads and processes (code/threads, code/userprog), a file system (code/filesys),
-- a network (code/network) and the containers they share (code/lib).
--
-- Parts and files:
--   Prelude      the library's names, Boolean tests, lists with native indices, ASSERT (Result) and
--                integers, the range of C's int.
--   Bits         the binary digits of a number, for `&`, `|`, `^` and `~`.
--   Bitmap       code/lib/bitmap.cc: Mark, Clear, Test, FindAndSet, NumClear and the constructor on
--                words of 32 bits. The free map of the disk and the slot tables are bitmaps.
--   Machine      code/machine/machine.h and machine.cc: the registers and the main memory.
--     Word       arithmetic on int and unsigned int, as bit patterns.
--     Memory     code/machine/translate.cc: Translate, ReadMem, WriteMem.
--     Decode     code/machine/mipssim.h and Instruction::Decode of mipssim.cc.
--     Mult       Mult of mipssim.cc.
--     Exec       the switch of Machine::OneInstruction: Arith, Shift, Branch, Load and Store have
--                its cases, Step the fetch and the end of an instruction. Safety says when a
--                machine is well formed.
--   Threads      code/threads: Queue is List<Thread *> of code/lib/list.cc, Scheduler is scheduler.cc,
--                System is Semaphore::P and V (synch.cc) with Fork, Yield, Sleep, Finish and Begin of
--                thread.cc. Invariant says what holds between calls; Reach has the orders in which
--                calls may come.
--   STable       code/threads/STable.cc and sem.cc: the semaphores of user programs, by name.
--   SortedList   SortedList<T>::Insert of code/lib/list.cc.
--   Interrupt    code/machine/interrupt.cc: the clock and the queue of pending interrupts, with the
--                handlers of the devices as an argument. Timer is timer.cc with threads/alarm.cc.
--   Filesys      code/filesys: FileHeader is filehdr.cc, Directory is directory.cc, OpenFile is
--                openfile.cc over the sectors of the disk. FileTable is filesys.h and openfile.h with
--                FILESYS_STUB: the table of the files that the host has opened, and its sockets.
--   Console      code/userprog/synchconsole.cc, and the calls of ksyscall.h on the keyboard.
--   Syscalls     code/userprog/ksyscall.h: the system calls on files.
--   Exceptions   code/userprog/exception.cc: Copy is User2System and System2User, Decimal is PrintNum,
--                Calls has the cases of ExceptionHandler, Handler the switch. A case comes back, halts
--                the machine or fails (Outcome). Where it calls PTable or STable, which may go to
--                other threads, it ends with that Request; `answered` is the rest of the case.
--                SysExecV has no return: `left_over` is what stands where its result would.
--   Tests        concrete runs, and the theorems at concrete states.
--
-- Correspondence. A record has the fields of a class, a data type the values of an enum, and a
-- function is named for the function that it translates. What changes an object takes it and returns
-- it. Result has `abort` for an ASSERT that fails, an index outside
-- of an array, and an int sum that overflows where a definition says so. A word of 32 bits is a number below 2 ^ 32, its sum
-- and product are taken modulo 2 ^ 32, and `signed` is the int it stands for. Arrays of fixed length
-- (registers, mainMemory, dataSectors) are functions of the index; the others are lists. Threads and
-- semaphores are numbers in place of their addresses.
--
-- A thread runs until the processor goes to another one; System cuts its functions there. `control`
-- says where a thread goes on when SWITCH returns in it, `cpu` whether the current thread executes or
-- waits in the loop of Sleep. OneTick, which may run a handler once interrupts are on again, is no part
-- of SetLevel here: what a handler does is a call of V (`in_handler`, with interrupts off and
-- SetLevel's ASSERT on it), of Yield or of the loop of Sleep that may come next. A semaphore's value is a natural number, as synch.h has it; the overflow of an int by 2 ^ 31
-- calls of V is left out.
--
-- In Interrupt a handler gives a list of what it does to the interrupts (Schedule, YieldOnReturn,
-- SetLevel(IntOff)), carried out in order; what it does to the rest of the kernel is a function of W.
-- Its loop has fuel for as many rounds as there are pending interrupts: each round takes one that is
-- due, and what a handler schedules is not. OneTick ends before the Yield that a handler
-- has asked for (`calls_yield`), which goes to other threads; `after_yield` is the rest. Ticks are
-- natural numbers; the overflow of an int is left out.
--
-- Loops that count are recursion on the number of rounds that are left, which the code knows when it
-- starts the loop (32 for Mult, numBits for a bitmap, numSectors for a file header), so no bound has
-- been chosen. The loop of Machine::Run, which has no end, is left out.
--
-- The host's own calls (open, read, send, ...) are a parameter, the record Unix of FileTable: each gives
-- what the host returns and the host after it. Its field `behind` is what stands in memory behind the
-- name of an OpenFile, which has no NUL.
--
-- Bounds of the model: the host is little endian, as the builds of code/build.linux are, so that
-- WordToHost and its like are the identity; FILESYS_STUB, RDATA and SIM_FIX are defined and USE_TLB is
-- not, as in each Makefile, but the code for a TLB is modelled too, and so
-- is the file system on the disk that the stub stands for. After an exception Machine stops
-- where ExceptionHandler is called, and Exceptions begins there. The registers saved for a user program by
-- Scheduler::Run, its address space, and the fence post of a stack are left out.
--
-- Not modelled: devices but the timer and the disk's contents, address spaces
-- (code/userprog/addrspace.cc), the process table (PTable, PCB), locks and condition
-- variables, SynchList, the hash table, the file system's calls, the network, start-up and
-- command line, printing and self tests.
pub mod Bitmap
pub mod Bits
pub mod Console
pub mod Exceptions
pub mod Filesys
pub mod Interrupt
pub mod Machine
pub mod Prelude
pub mod STable
pub mod SortedList
pub mod Syscalls
pub mod Tests
pub mod Threads
