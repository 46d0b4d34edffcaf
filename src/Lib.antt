-- ===== src/Lib.antt =====
-- A model of ZeOS, a small operating system for one 32-bit x86 processor, and its verification. The
-- kernel runs up to ten processes in an array of PCBs, each linked into a queue of free, ready or
-- high-priority tasks. The clock's interrupt drives a round robin over two priorities; system calls
-- write to the text screen, read the keyboard's ring buffer, limit the screens that a process shows
-- in each second, and give and take memory by frames and page tables.
--
-- The files and the code they are about:
--   Common        names shared by all: lists, stores (functions with one value changed), `int` results
--   ListHead      zeOS/list.c, zeOS/include/list.h: the operations over two memories, of the `next`
--                 and the `prev` pointers; `none` is an access through NULL
--   CircularBuffer zeOS/circular_buffer.c: circular_init, circular_read and circular_write
--   Frames        zeOS/mm.c: init_frames, alloc_frame and free_frame over `phys_mem`, and the loops
--                 of zeOS/sys.c that reserve frames
--   PageTable     zeOS/mm.c: set_ss_pag, del_ss_pag, get_frame, init_table_pages, init_dir_pages, on
--                 entries as 32-bit words
--   Kernel        the globals of zeOS/sched.c, zeOS/sys.c and zeOS/interrupt.c as one record, and the
--                 functions of zeOS/sched.c on the times of a task
--   Sched         zeOS/sched.c: update_sched_data_rr, needs_sched_rr, update_process_state_rr,
--                 sched_next_rr and schedule; task_switch of zeOS/entry.S
--   Fps           sys_put_screen and sys_set_fps of zeOS/sys.c, schedule_fps of zeOS/sched.c
--   Utils         zeOS/utils.c: copy_data, copy_from_user, copy_to_user, access_ok, get_ticks and
--                 do_div
--   Keyboard      zeOS/interrupt.c: keyboard_routine and char_map
--   Screen        zeOS/io.c and sys_write_console of zeOS/devices.c
--   Syscalls      zeOS/sys.c: sys_write, sys_get_key, sys_fflush, sys_get_stats, and get_task
--   Pointers      the bytes that the calls of zeOS/sys.c and schedule_fps of zeOS/sched.c touch behind
--                 a program's pointers
--   Process       set_user_pages and free_user_pages of zeOS/mm.c, sys_sbrk and sys_exit of zeOS/sys.c
--   Fork          zeOS/sys.c: sys_fork, over the physical memory that two page tables share
--   Machine       zeOS/entry.S: clock_handler, keyboard_handler, system_call_handler and its twin for
--                 sysenter; zeOS/sys_call_table.S; clock_routine of zeOS/interrupt.c
--   Boot          init_sched, init_idle and init_task1 of zeOS/sched.c, as main of zeOS/system.c
--                 calls them
--   Main          main of zeOS/system.c, with init_mm of zeOS/mm.c
--   Segments      setGdt and setTSS of zeOS/mm.c
--   Processor     zeOS/hardware.c on a record of registers; the saving of registers and the ways in
--                 and out of the kernel in zeOS/entry.S (Processor/Entry) and, by sysenter, in
--                 zeOS/wrapper.S too (Processor/Sysenter); what main does with the processor and its tables
--                 (Processor/Start); the stacks of new tasks and the change of stacks in
--                 task_switch (Processor/Switch)
--   Image         zeOS/build.c, and the line of main in zeOS/system.c that moves the user program, on
--                 memory as the code sees it
--   Idt           setInterruptHandler, setTrapHandler and setIdt of zeOS/interrupt.c
--   Libc          zeOS/libc.c: strlen, perror and the table of messages, itoa; Libc/Errno is
--                 zeOS/include/errno.h, and Libc/Wrapper the functions of zeOS/wrapper.S, on the
--                 registers and `errno` as words, and get_scenario and del_scenario
--
-- How the parts fit: `Kernel` is the state that the handlers change. `Sched` changes its `links` by
-- the operations of `ListHead`, and the theorems on queues carry over to the scheduler through
-- Sched/Queues, which says that three heads hold three lists of nodes. `Fps` and `Syscalls` draw on
-- `Screen` and `CircularBuffer`, and `Process` on `Frames`, `PageTable` and `Sched`. `Fork` adds
-- the copy of a process, and `Machine` says which of all these runs on an interrupt or a system
-- call, and what states the kernel comes to by them. `Processor` is about the registers and the stack on
-- those ways in and out, `Libc/Wrapper` about what a program gets from a call.
--
-- Memory is physical: a task's byte at an address is the one in the frame on which its page table has
-- the page. An address of a page that is not mapped faults: `Pointers` says which bytes each system call
-- and the clock touch behind a program's pointer, and `Machine` answers `none` when one of them is not
-- mapped. sys_get_key, which tests no address, and sys_get_stats could write into the kernel's own
-- frames, below 256; the kernel's variables are not in the model's memory, so such a call is outside
-- the model, and `none` too. A read from these frames gives bytes that are not tied to the variables.
--
-- Fuel: the loop of `alloc_frame` has 1024 rounds for at most 384; the loop on words of `copy_data`
-- has as many rounds as bytes, and so have the loops of build that copy a file; the first loop of
-- `itoa` has as many as its number; the loop of `sys_write` has one round more than `size / 500`.
-- The theorems on these functions hold for the functions with that fuel, so it is enough for them.
--
-- Not modelled: zeOS/bootsect.S, but for its table of segments; the messages and failing writes of
-- zeOS/build.c; the user program and the binary libraries. The readings of the time-stamp counter, the bytes of the
-- keyboard's port and `zeos_show_clock`, which has no source, are given to the model. The
-- instructions in `Processor` are those of the processor's manual, and the frames that a compiler
-- makes for the calls in C are left out; what the kernel's code does to the registers between
-- SAVE_ALL and RESTORE_ALL is an argument.
pub mod Boot
pub mod CircularBuffer
pub mod Common
pub mod Fork
pub mod Fps
pub mod Frames
pub mod Idt
pub mod Image
pub mod Kernel
pub mod Keyboard
pub mod Libc
pub mod ListHead
pub mod Machine
pub mod Main
pub mod PageTable
pub mod Pointers
pub mod Process
pub mod Processor
pub mod Sched
pub mod Screen
pub mod Segments
pub mod Syscalls
pub mod Utils
