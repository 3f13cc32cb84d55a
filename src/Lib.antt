-- ===== src/Lib.antt =====
-- libni: a model of the C++ library of lock-free queues, tagged pointers, hashing, scope guards,
-- back-off, a spin lock and asynchronous logging, with proofs about it.
--
-- The parts, their sources and their modules:
--   include/ni/tagged_ptr.hh             TaggedPtr, TaggedPtr/Double, TaggedPtr/Atomic
--   include/ni/cds/spsc_ring_buffer.hh   Spsc/Ring (one call at a time), Spsc/Queue (what a ring
--     promises), Spsc/Threads (each access a step)
--   include/ni/cds/spsc_linked_list.hh   Spsc/LinkedList over Chain
--   include/ni/cds/spsc_buffer_list.hh   Spsc/BufferList over Spsc/Ring and Spsc/LinkedList
--   include/ni/cds/ms_queue.hh and queue.hh   MsQueue over Chain (one call at a time),
--     MsQueue/Threads (push, each access a step), MsQueue/Poppers (pop, each access a step)
--   include/ni/cds/distributed/dynamic.hh   Distributed/Dynamic over Distributed/Backend
--   include/ni/hash, src/hash            Hash/MultiLinear, Hash/Jump over Hash/Float64
--   include/ni/scope_guard.hh            Scope/Guard
--   src/exception.cc                     Scope/Exceptions
--   include/ni/sync                      Sync/Sleep, Sync/SpinLock
--   include/ni/futex.hh                  Sync/Futex
--   include/ni/logging, src/logging      Logging and the modules below it, one for each class; in
--     Logging/MessageBus, Wait is the loop of `wait` and Threads is `wait` beside `notify`, each
--     access a step;
--     Logging/Errors is the table of error names
-- Base holds the names of the libraries, tests on numbers, lists, sums, families, bits, machine
-- words and integers. Chain is a list of nodes on a heap, which both linked queues are. Tests holds
-- the theorems at concrete inputs.
--
-- How the parts interact. The atomic pointer works on either pointer class through the interface
-- TaggedPtr.Atomic.Word. The linked list keeps its recycled nodes in a ring of pointers. The list
-- of buffers links rings by such a list and keeps released ones in a ring of pointers. MSQueue
-- links its nodes by atomic tagged pointers. LLDynamicDistributed gives each thread a backend queue
-- of its own, which it knows only by the interface Backend, and takes elements from all of them. A
-- guard reads the number of uncaught exceptions when it is made and destroyed. The spin lock backs
-- off with a Pause. In logging, a Capture makes a message of what is written to it and gives it to
-- its Logger; the Logger pushes it to the channel of the thread, a ring of pointers that the
-- MessageBus made, and notifies the bus, which wakes the worker where it sleeps on the bus's Futex;
-- the LogWorker pops the channels and has the message's Logger save it to its sinks; the LogService
-- owns the loggers by name.
--
-- How the code is translated. A class is a record of its members and a method a function of the
-- same name; a method that changes the object returns it beside its result. Overloads are named
-- after what they take. Numbers are natural numbers, and a word of w bits is reduced modulo 2^w
-- where the code can exceed it. A pointer is a number, 0 for null, and the heap a function from
-- addresses; an `assert` is a result of its own, or `none`. Loops are recursion over a list, or on
-- fuel where the number of turns depends on values: one round for each bucket in
-- jump_consistent_hash, one turn for each slot and one more in collect_pending_channels, one turn
-- for each message and one more in the worker that stops. MSQueue's push is given for each turn
-- whether its weak exchanges fail spuriously and ends within three turns more than those that do,
-- pop within two more; its destructor takes a turn for each element and one more, as that of
-- SPSCBufferList does for each buffer; that of SPSCLinkedList takes in each loop at most one for
-- each node in the list or its cache and one more; MessageBus::wait is recursion over the answers
-- of the kernel; `get` of LLDynamicDistributed is given a random number for each turn and ends
-- within one turn for each slot and one more. The theorems show that this is enough. Threads are a
-- step relation on a state, with one access of shared memory for each step and any order of steps;
-- all accesses are in one order, so the memory orders that the code names are not modelled. A
-- thread that would read through a pointer to nothing has no step.
--
-- Parameters. The random generators, which weak exchanges fail spuriously, the backend queues of
-- LLDynamicDistributed with what their methods promise, the C++ ABI's record of exceptions, what
-- posix_memalign, open, posix_fadvise, fdopen and pthread_create return, what the kernel answers to
-- a futex call, and when it puts a thread to sleep, the address that `new` gives, the element type
-- of a ring with its `Empty`, and the text that the fmt library formats.
--
-- Not modelled: threads in MSQueue of which some push and some pop, or that call try_push or
-- try_pop, and LLDynamicDistributed under threads, which is modelled one call at a time;
-- DistributedInterface of static.hh, whose methods are empty; the attributes and the name of the
-- worker's thread; the wait and wake masks of a Futex, which the code never uses; the macros of
-- logging.hh but NI_ERR_NAME; headers of aliases; and the release of memory in destructors where
-- nothing depends on it.
pub mod Base
pub mod Chain
pub mod TaggedPtr
pub mod Spsc
pub mod MsQueue
pub mod Distributed
pub mod Hash
pub mod Scope
pub mod Sync
pub mod Logging
mod Tests
