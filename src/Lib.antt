-- ===== src/Lib.antt =====
-- TP-SO, a small multitasking system for x86-64: the C code of its kernel, under Kernel/, and of the
-- programs' library and the shell, under Userland/.
--
-- Parts, and the files that model them:
--
-- Base.antt and the files below it: lists, options, integers and tests that all parts share.
--
-- Ipc/Buffer.antt (Kernel/ipcRelated/bufferManagement.c): the byte buffers behind the standard
-- streams and the ends of pipes. `Buffer` is `IPCBufferCDT`, `write_buffer` is `writeBuffer`, and so
-- on with the functions' names in snake case. Buffer/Window.antt reads off the bytes that a buffer
-- holds, Buffer/Write.antt and Buffer/Read.antt are about storing and taking them.
--
-- Kernel.antt: the state that the kernel's functions share, a record passed from call to call: the
-- process table, the queues and the globals of Kernel/interruptRelated/scheduler.c, the buffers by
-- address, the timers. A pointer is an address, 0 for NULL; a queue is the list of the nodes that
-- are reached from its head.
--
-- Kernel/Process.antt, Kernel/Queues.antt, Kernel/Exit.antt, Kernel/Alloc.antt, Kernel/Create.antt
-- and Kernel/Scheduler.antt (Kernel/interruptRelated/scheduler.c): single processes; the queues and
-- the choice of the next process; the end of a process; the memory it allocates; how processes come
-- about; the entry point of the timer interrupt. Kernel/Timers.antt (Kernel/ipcRelated/timer.c):
-- sleeping. Kernel/Pipes.antt (Kernel/ipcRelated/pipe.c): pipes between two buffers, with the
-- functions that reach from a buffer to processes and back; `openPipe` is Kernel/Pipes/Open.antt.
-- Kernel/Frame.antt: what the functions that queue nothing leave alone.
--
-- Kernel/Semaphores.antt (Kernel/ipcRelated/sync.c) and Kernel/Strings.antt (Kernel/string.c): the
-- list of semaphores, and the comparison of their names, with the other string functions on
-- characters.
--
-- Kernel/Memory.antt (Kernel/memoryManagement/freeListMemoryManager.c): the memory manager with a
-- list of headers, by address. Memory/Blocks.antt says which blocks a list stands for, and what
-- first fit does with them; Memory/Alloc.antt, Memory/Refine.antt and Memory/Heap.antt are about
-- handing out, Memory/Free.antt and Memory/Merge.antt about freeing, Memory/Stale.antt about the
-- link that a split leaves as it was. Headers lie in a map of their own, so that what programs store
-- in their blocks does not reach them.
--
-- Kernel/Buddy.antt (Kernel/memoryManagement/buddyMemoryManager.c): the memory manager that halves
-- its memory. Buddy/Tree.antt is the tree that its nodes stand for, and the blocks in use;
-- Buddy/Refine.antt, Buddy/Total.antt and Buddy/Heap.antt are about handing out, Buddy/Free.antt and
-- Buddy/Release.antt about freeing, Buddy/Sizes.antt about the size looked for, Buddy/Waste.antt
-- about a split that is in vain. A node is read where it stands, and what free memory holds there is
-- a part of the state: a heap is a memory in whose free bytes no pointer stands, as when it is all
-- zero at first, and a caller may leave something else in a block that it frees.
--
-- Kernel/Keyboard.antt (Kernel/drivers/keyboard.c): from the codes of keys to bytes in the standard
-- input, which is one of the buffers above. Keyboard/Typing.antt goes from a letter key to its byte.
--
-- Kernel/Bytes.antt (Kernel/lib.c): `memset` and `memcpy` on bytes by address. Kernel/Video.antt
-- (Kernel/drivers/video.c): the screen as bytes of memory, and the pen. Video/Rect.antt is about
-- rectangles, Video/Scroll.antt and Video/Print.antt about text, Video/Backspace.antt about the
-- start of the screen.
--
-- Userland/Numbers.antt, Userland/Hex.antt, Userland/Tokens.antt and Userland/Copy.antt
-- (Userland/string.c, Userland/lib.c): numbers as text, `strtok`, and the copies that can run over
-- their array. Userland/Format.antt (Userland/stdio.c): `printf`, whose arguments are a list;
-- Format/Render.antt is the text that a format stands for. Userland/Shell.antt
-- (Userland/programs/sh.c): how a line is typed, and how the shell finds the command and the
-- arguments in it, by `strtok` and `stringCopy`.
--
-- Kernel/Syscalls.antt (Kernel/interruptRelated/syscallsDispatcher.c): the handlers of system calls
-- that work on processes and buffers. A handler that calls `_int20h` says so in its reply, and one
-- that waits in a loop goes on from that loop. Kernel/Reach.antt: runs, in which the process that
-- runs makes calls and the scheduler is called, in any order.
--
-- The scheduler calls the timers, which make processes READY, then `check_blocked`, which moves them
-- from the blocked list to the levels, then `check_exited`, which deletes processes and so closes
-- pipes, which wakes other processes, and last `next_process`.
--
-- A function that can fault returns an option: `none` is a store outside a buffer's array, a
-- division by a clock frequency of 0, a read outside the table of descriptors, or a chain of
-- allocations that does not end. Walks along a process's allocations have fuel for 256 nodes: user
-- memory is 0x3fff8 bytes and a block takes at least 0x500, so that a longer chain runs in a circle.
-- Counters wrap at their width (16 bits in a buffer, 64 bits in a process and a timer).
--
-- A walk along the headers of the memory has fuel for as many as fit into the memory, which is
-- enough where the list stands for blocks in it. The recursion of the other manager is 65 calls deep
-- at most, since each call has less than half of the size of the one before, a uint64_t.
-- `uintToBase` has 64 rounds, since the base is 2 or more and the number a uint64_t. `later_tokens`
-- takes the number of calls as an argument.
--
-- Assembly is not modelled: the readings of the time stamp counter are a sequence in the state, the
-- switch of stacks is what `scheduler` returns, and the code of a key is the argument of `add_key`.
-- To the functions of processes the memory manager enters as the addresses that it hands out and the
-- list of blocks given back, so that they hold for both managers. Walks along the semaphores take
-- their limit as an argument. The bytes of the font are an argument. Not modelled: the contents of
-- blocks, formatted input, the history of the shell and what it starts, the clock and the speaker,
-- lines on the screen, which are floating point, the other drivers, and the other programs of
-- Userland/.
pub mod Base
pub mod Ipc
pub mod Kernel
pub mod Tests
pub mod Userland
