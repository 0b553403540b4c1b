-- ===== src/Lib.antt =====
-- vcam-kmod: a verification library for the vcam kernel module.
--
-- The module is the kernel half of a virtual camera. A producer registers dma-buf descriptors as the
-- slots of a frame pool, submits frames to them, and a consumer takes frames, holds them, and gives
-- them back; no pixel is copied. The parts, and the files that model them:
--
--   * include/vcam_uapi.h -- Uapi (the structures, the flags), Uapi/Layout (their sizes on a 64-bit
--     machine), Uapi/Ioc (VCAM_IOC and the command numbers, and the `_IOC_*` decoders of
--     verify/linux-asm-generic-ioctl.h).
--   * src/vcam_logic.c -- Logic/Pose (vcam_pose_apply), Logic/Range (vcam_range_decide), Logic/Format
--     (vcam_format_reportable, vcam_format_validate); their theorems are in Logic/Pose/Laws and
--     Logic/Format/Laws.
--   * include/vcam_kmod.h and src/vcam_pool.c -- Pool/State (struct vcam_slot, struct vcam_pool,
--     vcam_pool_init), Pool/Producer (register, unregister, submit, destroy), Pool/Consumer (take,
--     acquire, dequeue, release, peek), Pool/Control (poll, the setters, get_stats), Pool/Step (a call
--     with its reply as one step, and sequences of calls). Each function `vcam_pool_<f>` is the
--     definition `<f>`. Pool/Stream/Defs says what a client sees of it: a stream of frames, without
--     slots.
--   * The same functions with their mutex -- Threads/Prog (a program is a tree of steps: lock, unlock,
--     read, write, a service of the kernel), Threads/Calls (each `vcam_pool_<f>` as the program `<f>`),
--     Threads/System (any number of threads on one pool, one step at a time). Threads/Discipline and
--     Threads/Implements relate a program to the call in one piece, Threads/Serial orders the calls
--     of threads, so that what holds of calls one after the other (Threads/Serial/Runs) holds of
--     threads: Threads/Queue reads the frames off such an order, Threads/Stream makes it a trace of
--     the stream of frames. Threads/Pose compares the poses too, Threads/Refs counts the references
--     that threads hold on their way, and Threads/Progress counts the steps of threads.
--   * src/vcam_ctrl.c -- Ctrl/Dispatch (vcam_ioctl and its handlers); a handler `vcam_ioctl_<f>` is
--     `ioctl_<f>`. Ctrl/Serves says what each command stands for, in terms of the pool's calls and of
--     the copies from and to user memory. vcam_open and vcam_release are in Main/Module.
--   * src/vcam_main.c -- Main/Module (vcam_init, vcam_exit, the parameters and the pool), Main/Fresh
--     (the pool of a module that has just been loaded).
--   * shim/vcam_shim_kernel.h -- Shim (the dma-buf registry of the offline harness), Shim/Counts (the
--     registry as a kernel), Shim/Pointers (ERR_PTR, IS_ERR, PTR_ERR).
--   * verify/ -- Verify/Ioctl (the macros of linux-asm-generic-ioctl.h, which the shim repeats),
--     Verify/Check (the assertions of ioctl_abi_check.c).
--   * tools/vcamctl.c -- Ctl (its self-test, as the ioctls that it makes), Ctl/Commands (the commands
--     that print, and main), Ctl/Alloc (alloc_buffer), Ctl/Whole (main with its system calls).
--   * tools/vcam_selftest.c -- Device/Memory (the variables of main), Device/Expect (expect_ok,
--     expect_err, expect_val), Device/Assignments (the assignments to its variables), Device/Program
--     (main, statement by statement), Device/Alloc (alloc_dmabuf), Device/Whole (main with its system
--     calls). Process is the interface of the system calls of both programs.
--
-- How the parts meet. A user's ioctl goes through Ctrl/Dispatch, which copies the argument in, calls
-- one operation of the pool and copies the answer out; a device glue layer calls the pool directly.
-- The services below the module that are not in the repository (dma_buf_get, dma_buf_put, the copies
-- from and to user memory, misc_register) are the fields of the record `Kernel`, a parameter of every
-- definition that uses them; what the module relies on is the record `CountsRefs`: each service counts
-- references as documented, while the counters have room. Shim/Counts fills it with the harness's
-- registry, so it is not empty.
--
-- Choices of the model.
--   * A call of the pool is a function from the pool and the state of the machine to a reply and the
--     new ones, and `run` makes calls one after the other. Every function of the pool takes the pool's
--     mutex before it first reads or writes the pool and holds it up to its last access; that this
--     gives calls of several threads an order is the subject of Threads/Serial. The one exception is
--     vcam_pool_dequeue, which reads the pose of the slot after the mutex is free: there the threads
--     are compared up to the pose in Threads/Serial, and with it in Threads/Pose; Pool/Unlocked puts
--     any calls before that read.
--     (vcam_ioctl_get_version reads without the mutex too, but only the number of slots, which no call
--     changes.)
--   * A step of a thread is an access to the pool, a call of the kernel, or an operation on the mutex;
--     accesses that follow each other under the mutex are one step. Each thread makes one call: a
--     thread with several is several threads of which each starts when the one before has returned.
--     The longest call has 6 steps, which is the bound in Threads/Progress. The step of another
--     process replaces the state of the machine by any other.
--     In `run` the machine is in any state before each call; `serve` of Main/Session threads one state
--     through, for the count of references.
--   * The structures are records, pointers are values, and a NULL dma-buf is `none`. So the guards
--     against NULL arguments have no counterpart. A C array is a list that is read and written by
--     index.
--   * A u32 or u64 is a natural number, an s32 or s64 an integer. Counters of u64 wrap. The one s32
--     subtraction, of the pose, wraps as the kernel's compiler flags make it. Sequence numbers are
--     only compared.
--   * Loops over the slots and planes are recursions on the number of rounds left, which is the bound
--     of the C loop.
--   * The proofs on the slots go through Pool/Change, which describes an operation as one of seven
--     changes of the slots: the invariant (Pool/Invariant, Pool/Safety), the state machine
--     (Pool/Lifecycle), the queue (Pool/Fifo) and the pose (Pool/Frozen) are treated by the change.
--   * The programs of tools/ run on the harness's registry, with their own variables as user memory. A
--     variable has one address, at which a read or write of its type succeeds. An `errno` is compared
--     by its Linux number.
--   * The macros of the ioctl encoding are computed on 64-bit words, the width of `sizeof`; for fields
--     within their bits no narrower shift loses a bit.
--
-- Not modelled: the log messages and the output but for the lines that the commands of vcamctl print,
-- the pixels that the programs write to their buffers, the operations tables and macros of module
-- registration, the memory wrappers of the shim, which have no state of their own here, mutex_init and
-- mutex_destroy (vcam_pool_destroy is not among the calls of the threads: a module is unloaded when
-- nobody has its device open), the unit tests under host/, which are tests of this code, and the build
-- and packaging scripts.
pub mod Base
pub mod Uapi
pub mod Kernel
pub mod Logic
pub mod Pool
pub mod Ctrl
pub mod Main
pub mod Shim
pub mod Threads
pub mod Verify
pub mod Process
pub mod Ctl
pub mod Device
pub mod Tests
