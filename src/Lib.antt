-- ===== src/Lib.antt =====
-- A model of the kernel modules and programs of this repository, with proofs of what they do.
--
-- Modelled are four kernel modules (kds.c, the two stages of perftop.c, and s2fs.c), a system call, and
-- six user programs: the two that greet one another, the two stages of s2dsm.c, each of which runs in
-- two processes, uffd.c, and runner.c, which makes the system call.
--
-- Kds.antt: Assignment 2 Kernel Data Structures/kds.c, which reads integers from its parameter and
-- puts them into six containers in turn.
--   Kds/Parse.antt: the count in lkp_init (count_integers) and convert_str_to_integers.
--   Kds/LinkedList.antt, Kds/HashTable.antt, Kds/RbTree.antt, Kds/Index.antt, Kds/Bitmap.antt:
--   run_linked_list, run_hash_table, run_redblack_trees, run_radix_tree and run_xarray, run_bitmap,
--   each with the functions that it calls under their names. A loop in the body of a run has a
--   definition of its own (insert_each, lookup_each, remove_each). What printk shows is returned.
--   Kds/Init.antt: lkp_init.
-- Perftop.antt: Assignment 4 Profiler/Part 2/perftop.c, which measures with a return probe how long
-- each process ran.
--   Perftop.antt: the hash table of time stamps and the tree of totals, under the source's names.
--   Perftop/Probe.antt: entry_pick_next_fair and ret_pick_next_fair (switch_to is the body of its
--   test, charge what it does under the lock), and runs as lists of calls.
--   Perftop/Show.antt: perftop_show.
--   Perftop/Module.antt: perftop_init and perftop_exit around such a run.
--   Perftop/Cpus.antt: return handlers on several processors that overtake one another between their
--   calls on the containers (Move is such a call, or the part under the spin lock).
--   Perftop/Counters.antt: Assignment 4 Profiler/Part 1/perftop.c, the two handlers at the stage before.
--   Perftop/Stages.antt: its file and its life as a module.
-- S2dsm.antt: Assignment 3 User faults/Part 3/s2dsm.c, in which two processes share pages.
--   S2dsm/Region.antt: the region, fault_handler_thread, and C strings in the region.
--   S2dsm/Protocol.antt: the states M, S and I of the pages at both processes; getResponse, responder,
--   communicateWithPeer, printPageContents, updatePageContents, fillWithInvalid, and the commands r
--   and w of the prompt, with the names in small letters and `_`.
--   S2dsm/Request.antt: the text of a request, as communicateWithPeer prints it and responder takes it
--   apart; Protocol.antt hands its two numbers over.
--   S2dsm/Responder.antt: the loop of responder, with what ends it.
--   S2dsm/Race.antt: the two halves of a write, up to the request (begin_write) and from it on
--   (finish_write), so that two writes can cross.
--   S2dsm/Prompt.antt: the loop of main at both prompts (execute, session), getMSItype,
--   printMsiArray, and the state when the loops begin (boot).
--   S2dsm/Memory.antt: what the two processes are to look like from outside, one memory with a text for
--   each page (answers); nothing in it stands for code. S2dsm/Text.antt has the texts of pages.
--   S2dsm/Overlap.antt: commands in progress at both prompts, as a relation on states whose moves are
--   the parts of a command between which the other process can act (Move, Turns). A read whose answer
--   has no bytes goes to a state from which there is no move.
--   S2dsm/Overlap/Coherence.antt says when the states and the texts of a page fit together.
--   S2dsm/Pairing.antt: the beginning of main, in which the two instances connect and find out which
--   of them is the first one (advance is the next call of an instance, turns are calls in any order; a
--   flag says whether mmap succeeds at the first one, which ends otherwise, and the other one after it).
--   S2dsm/Offer.antt: the text with which the first instance sends the length and the address.
--   S2dsm/Start.antt: main from the question for the number of pages to the loops, at both instances
--   (share is the one that asks, join the other one, finish what both do once the memory is mapped).
-- Local.antt: Assignment 3 User faults/Part 1-2/s2dsm.c, the stage without the protocol: its page
-- functions and its loop over the region of S2dsm/Region.antt. Its pairing is that of Part 3.
--   Local/Start.antt: the way of two processes to their prompts.
-- Uffd.antt: Assignment 3 User faults/Part 1-2/uffd/uffd.c, a round of fault_handler_thread and the loops
-- of main.
--   Uffd/Program.antt: main with its argument and its calls (program), around the loops.
-- Faults.antt: the loop of fault_handler_thread in uffd.c and in both stages of s2dsm.c.
-- Calls.antt: the calls with which server.c, client.c, uffd.c and s2dsm.c set themselves up, in their
-- order, and how each program ends when one fails (errExit is or_exit).
-- S2fs.antt: Assignment 5 Super Simple File System/s2fs.c.
--   S2fs/Read.antt: s2fs_read_file.
--   S2fs/Files.antt: s2fs_open, s2fs_write_file, s2fs_fops (operations), s2fs_get_super, and a program
--   that reads a file of a mounted file system (cat), which stands for no code.
--   S2fs/Mount.antt: s2fs_fill_super, s2fs_make_inode, s2fs_create_dir, s2fs_create_file.
--   S2fs/Mount/Tree.antt: the tree of names that the calls make (resolve); it stands for no code.
-- Encrypt.antt: kernel/encrypt.c of Assignment 1 System Calls/syscall.patch, the call s2_encrypt.
--   Encrypt/Runner.antt: Assignment 1 System Calls/syscall/runner.c, main.
-- Greeting.antt: Assignment 1 System Calls/code-socket/server.c and client.c, from listen and connect
-- on, as turns of the two processes.
--
-- Kernel.antt has, as records of functions and laws, what these files take from the kernel: chained
-- hash tables, red-black trees, lists, bit maps, radix trees and XArrays. UFFDIO_COPY and madvise are
-- the record Vm in S2dsm/Region.antt, strnlen_user and copy_from_user the record UserMemory in
-- Encrypt.antt, the calls of an instance of s2dsm.c the record Os in S2dsm/Start.antt, mount_nodev the
-- record MountApi in S2fs/Files.antt. copy_to_user and the record Services in S2fs/Mount.antt, with the
-- answers to allocations, are parameters.
-- SearchTree.antt has the two loops over trees that kds.c and perftop.c share. Prelude.antt has the
-- names, the tests and the list lemmas that all use. Examples.antt has concrete functions in the place
-- of the kernel's, and the theorems at concrete inputs.
--
-- Conventions. An `int` is its 32 bits as a natural number, and int_ltb compares by sign. A string
-- is the list of its bytes before the NUL. An access outside an array of the program, and a read
-- that waits for bytes which are never sent, is `none`, or `faults` where a program has other ends
-- besides; an overrun of results in kds.c leaves lkp_init without a result. The data that a probe
-- instance keeps between its two handlers is a map from instances to tasks. A region has no end:
-- accesses are looked at for pages inside the mapping only. Where a loop frees a node and goes on
-- from it, `skip` says how many of the nodes behind it the read from freed memory passes over; it is
-- any function, so the link leads to a later node of the same chain or to its end, as the NULL that
-- hash_del sets; freed memory that holds a link to anywhere else is not modelled. In kds.c,
-- allocations succeed.
--
-- communicateWithPeer returns its own array, which is read after the call is over and may be
-- overwritten by then. What is found there is a function of the answer, read_answer of the record
-- Vm, of which is assumed that it finds texts of at most 511 bytes whole: long answers are known to
-- come out cut off. So the theorems on what is fetched have messages of at most 511 bytes.
--
-- Bounds. Pages have 4096 bytes, msi_array has 100 entries. The halving loop of run_bitmap has 32
-- rounds, as an `int` has 32 digits; results in lookup_tagged_tree has 10 places. A string is read
-- up to 4097 bytes for sprintf, beyond which page_output overruns, and up to 4095 for the snprintf
-- of the responder. A loop of uffd.c over `n` pages has `4 * n + 1` rounds for the `4 * n` steps of
-- 1024 bytes. A reader of the file in S2fs/Read.antt has 2 calls or more. The region of Part
-- 1-2/s2dsm.c and of uffd.c is shorter than 2^31 bytes, as its code computes with `int`; uffd.c
-- counts fewer than 2^31 faults, and a page fault at a page that is there ends the process (EEXIST).
-- atoi is strtol, which stops at the ends of 64 bits, cast to 32. An instance in S2dsm/Pairing.antt
-- has 5 moves until it is ready, so ten turns of each suffice, as do nine in Greeting.antt, where a
-- server has 5 moves and a client 4.
--
-- Not modelled: requests with negative numbers other than -1; messages that a socket splits, and
-- bytes of a page that are read while another thread writes them: a move in S2dsm/Overlap.antt
-- stores a whole message; calls on a hash table that overlap one another inside, and the entry
-- handlers among the moves of Perftop/Cpus.antt; register_filesystem and unregister_filesystem,
-- which are all that s2fs_init and s2fs_exit call; the file operations of the kernel that perftop.c
-- and s2fs.c only name; what is printed on the way, where it is not a result; Assignment 1 System
-- Calls/syscall/kds.c, which prints its parameter; printk.patch and the makefiles.
pub mod Calls
pub mod Faults
pub mod Prelude
pub mod Kernel
pub mod SearchTree
pub mod S2dsm
pub mod S2fs
pub mod Encrypt
pub mod Greeting
pub mod Local
pub mod Uffd
mod Examples
pub mod Kds
pub mod Perftop
