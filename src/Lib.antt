-- ===== src/Lib.antt =====
-- Models and theorems for parts of the PetraOS kernel (petra/src, Rust), and what they show.
--
-- The kernel's code is modelled as functions on explicit state. A lock-protected object is a record;
-- an operation is a function from the record and its arguments to the new record and its result; an
-- `Errno` result is the type `Result` of Common/Errno. A call that can sleep takes a list of what the
-- other threads do to the object before each wake-up (Common/Wait, after ostd's
-- `WaitQueue::wait_until`); a call whose list runs out is still asleep. Machine integers are natural
-- numbers with their bounds or their wrap-around written out; i32 and u64 arguments that are only
-- passed on or compared stand as their bit patterns. ostd, alloc and core are not part of the
-- repository: of them only the documented behaviour of locks, wait queues, vectors and maps is used.
--
--   Common, Common/*   shared names, list lemmas, errors, waiting
--   Pipe, Pipe/*       fs/pipe.rs: PipeState, PipeEnd's read, write, poll and drop, FIFO open
--   Mqueue, Mqueue/*   ipc/mqueue.rs: Mqueue, try_send, try_recv, mq_block, MqDesc, the registry
--   Sem, Sem/*         ipc/sem, ipc/registry.rs, ipc/id.rs, ipc/perm.rs: semop, semget, semctl, undo
--   Mappings, Mappings/*  vm/vmar/mappings.rs, vm/vmar/allocator.rs: VmMapping, Mappings, free regions
--   Fd, Fd/*           fs/fd/fd.rs: Filedesc
--   EventFd, EventFd/* fs/fd/event_fd.rs: EventFd and its FileOps
--   Ring, Ring/*       utils/ring_buffer.rs: RingBuffer
--   Tty, Tty/*         drivers/char/tty/core: LineDiscipline, Tty, the input queue, ioctl
--   Msg, Msg/*         ipc/msg: msgsnd, msgrcv, msgget, msgctl
--   Shm, Shm/*         ipc/shm: shmget, shmat, shmdt, shmctl, fork and exit
--   Rt, Rt/*           sched/sched_class/rt.rs: the real-time run queue and its entities
--
-- Fuel: the loop of a pipe write takes the number of bytes to write, since each round stores at least
-- one. The probing that ends `alloc_ipc_id` takes one step for each id from its first to 2^31 - 1, where
-- the addition overflows. Draining a terminal's input takes the number of bytes that are queued or that
-- an interrupt is still to queue, since each pop moves the tail up by one and each byte the head by at
-- most one. All other loops are structural.
--
-- How the parts meet: the input queue of a terminal is a ring buffer. The three kinds of System V
-- object share the ids, the keys and the permission checks of Sem, and attaching shared memory asks the
-- address space for a mapping, which is a parameter there. The descriptors of a table hold the files
-- that pipes, message queues and event counters stand behind. All share the error numbers and the wait.
--
-- The run queue's array of queues is a function from the index, and its 128-bit map one from the bit.
-- A task, and the entity that the run queue and `sched_setscheduler` share, are numbers of allocations.
--
-- Between the steps of a call that holds no lock others can act: `between` of `semop` and `shmat`, `gap`
-- of an attempt on a message queue, and `interrupts` of a terminal stand for what they do. A panic
-- leaves what the call has changed in place.
--
-- Not modelled: device drivers but for the terminals, architecture code, file systems on disk,
-- networking, the fair class of the scheduler and its per-CPU work, and the system call tables. Of the
-- modelled files, the VFS objects (inodes, attributes) that wrap an object are left out, and so is the
-- page table work of a mapping, which is ostd's.
pub mod Common
pub mod Pipe
pub mod Mqueue
pub mod Sem
pub mod Mappings
pub mod Fd
pub mod EventFd
pub mod Ring
pub mod Tty
pub mod Msg
pub mod Shm
pub mod Rt
