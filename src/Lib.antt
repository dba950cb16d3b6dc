-- ===== src/Lib.antt =====
-- Real-Time Data Transfer: a model of the C++ library and the theorems that make it correct.
--
-- The program runs a system at a fixed frequency. At each tick RealTimeSystem::run asks the user's
-- function for packets, hands them to a Sender, whose worker thread transmits them, and sleeps on a
-- Timer until the next tick. A tolerance lets a late sender finish; in skip mode the packets of a
-- round are dropped while it has not, and after three seconds of dropped rounds the client counts
-- as disconnected. send_before_run transmits one list before the loop starts.
--
-- The files, and the code that they are about:
--   Base, Base/*            names of the libraries and small helpers: Boolean tests, words of 64
--                           bits, decimal text, lists.
--   Errors                  src/utils/error.cpp, includes/error.h: the handler of error messages.
--   Time, Time/*            includes/timers_utils.h, src/timers/timers_utils.cpp: conversions,
--                           TIMESPEC_DIFF_NS, ADD_NS_TO_TIMESPEC and the loop of nanoseconds_sleep.
--   Timer, Timer/*          src/timers/busy_wait_timer.cpp, free_wait_timer.cpp and
--                           worst_case_timer.cpp. The three classes share their state and most of
--                           their methods word for word, so these are one record and one
--                           definition; sleep_to_next_tick is defined for each in BusyWait, FreeWait
--                           and WorstCase. Tick and Cycle are about the schedule of deadlines,
--                           Waking about the return from a sleep. Interface has the abstract class
--                           of includes/timer.h and the contract IsTimer, Classes the three classes
--                           as its instances; Shared, Sound and Returns prove that they keep it.
--   Packets, Packets/*      includes/data_packets.h: the packets, and in Memory the constructors and
--                           the assignment of DataPacketsList over a heap.
--   Guard, Guard/*          src/utils/mutex_raii.cpp, includes/mutex_raii.h and
--                           includes/atomic_val_raii.h: the guards, with the calls of one thread; a
--                           call that blocks has no result.
--   Sender, Sender/*        src/senders/tcp_sender.cpp and tcp_sender_zc.cpp, with SenderWorkerData
--                           of includes/data_packets.h. The two classes share their code but for the
--                           zero-copy send and its notifications, so these are one model, in which
--                           Transport.zero_copy, or TcpSender.zero_copy, says which class it is.
--                           Sender has the state, Worker the steps of tcp_worker_function, Caller
--                           those of initialize's end, send, end_sender and get_error, Steps their
--                           interleavings, Calls whole calls of send. Exclusion is about the mutex,
--                           Life about the flags of the thread, Wakeup about the condition variable,
--                           Queue, Account, Bytes, Wire and Delivery about the lists and their bytes,
--                           Confirmed about the notifications, Ending, Progress and Polling about the
--                           end of the worker, Renewed and
--                           Lifetimes about an object that is initialised again, Transmission about
--                           the time that a list takes, Prompt about the time of a call of send,
--                           Failure about the error that ends the worker.
--                           Interface has the abstract class of includes/sender.h and the contract
--                           IsSender, Objects the two classes as its instances, Classes the proof
--                           that they keep it, with Used, Reported and Released. Sockets has create_server and
--                           get_client, Setup initialize; Descriptors, Connection and Start are about
--                           the file descriptors.
--   ZeroCopy, ZeroCopy/*    src/senders/tcp_sender_zc.cpp: read_notification_zc, and the loop that
--                           waits for notifications as a function of the error queue.
--   System, System/*        includes/real_time_system.h, src/systems/real_time_system.cpp: the
--                           setters in System, RealTimeInfo in Info, initialize in Setup,
--                           send_before_run in BeforeRun, run in Run. The child modules of these
--                           hold the theorems. Life is about a system through all the calls of
--                           its methods. Run/Log writes down the calls that run makes;
--                           Run/Served is about run with any sender that is known by what its
--                           calls do: Run/Concrete says what makes the sender of a world a
--                           TCPSender with its worker, and Run/Delivers puts the two components
--                           together; Run/Promised does so for any class that keeps IsSender, and
--                           Run/Timed and Run/Pace for the system and a timer that keeps IsTimer.
--                           Run/Received follows the packets up to a receiver.
--                           Run/Skipped is about the rounds of skip mode, Run/Healthy about
--                           a system in which nothing goes wrong.
--   Receiver, Receiver/*    others/receiver_example.c: main with its two loops over a host. Connected
--                           is about the addresses, Counted and Seconds about the lines, Outcomes
--                           about main, and Stream puts the receiver at the other end of a sender.
--   Tests, Tests/*          concrete clocks, worlds and runs on which the theorems are applied.
--
-- A method is a function from the object's state, a record with the fields of the class, to its
-- result and the new state. What is not the library's own code is a parameter. The clock is a
-- function from the number of the reading to the reading, and each call of clock_gettime takes the
-- next number. System.World holds the virtual methods of the timer and the sender, the user's
-- function, the sleeping functions and the calls of the operating system, over a state of their
-- own: the theorems about the system hold for every such world, or name what they suppose of it.
-- Sender.Sockets.Host holds the calls of the operating system that TCPSender::initialize makes, and
-- Descriptors.IsHost what their manual pages say of descriptors. Receiver.Peer holds those of the
-- receiver's machine, and Receiver.Stream.IsConnection what TCP promises of its connection.
-- `logged` adds to a world the list of the calls made to it.
--
-- The sender and its worker are two threads, so they are a step relation: a step is one access to
-- the shared data, or one call of the operating system with a result that it may give. The model
-- starts after pthread_create, ends with end_sender, and takes any interleaving; Sender.Lifetimes
-- joins these lifetimes. What the worker
-- does with packets_list under the mutex is in two steps, and an assignment to a list by the
-- application is one step, which the theorems on delivery allow only while packets_list is NULL.
-- send and sendfile may accept any part of what they are given. pthread_exit also unwinds the
-- stack of the worker and runs its destructors a second time; that of prot_term_flag stores true
-- again. The steps leave this second store out: within one lifetime of a worker it finds true. When
-- it comes so late that a next worker has been created, it marks that one as ended; this is a
-- finding, and not part of the theorems, which take each lifetime by itself.
--
-- The platform is LP64: uint_fast32_t and uint_fast64_t have 64 bits, and their sums and products
-- are taken modulo 2^64. Pointers are addresses, `none` when NULL.
--
-- Loops whose end depends on the world run on fuel. The loop of send_before_run has 65 rounds,
-- enough for every limit of 64 bits, since each round leaves less than half of it. The waiting
-- loops of the timers and of nanoseconds_sleep end within the number of the reading at which the
-- clock passes the deadline, and the theorems give that fuel. The loop of TCPSender::initialize that
-- waits for the new thread runs on the number of its polls, and the loop of TCPSenderZC that waits
-- for notifications needs one round for each send and one more. run goes on until something ends it,
-- so its fuel counts its rounds; and so does the loop of the receiver, which nothing ends.
--
-- The counters of TCPSenderZC are `int`; the loop as a function says when they overflow, and the
-- steps are those of the code while they are below 2^31. So it is with `used_tolerated_time` of run
-- and the index of the worker's packet loop, which are `int` too and unbounded here: the code is
-- modelled while twice the tolerance, and the number of packets of a list, are below 2^31.
--
-- The bytes behind a packet's pointer are a function of the packet, fixed for all time: what it
-- means that the application changes that memory between send and the transmission is not modelled.
--
-- Not modelled: a malloc that fails, the values of errno and the clock that clock_gettime reads,
-- the destructors that do nothing, the programs under src/tests that print, and the scripts.
pub mod Base
pub mod Errors
pub mod Time
pub mod Timer
pub mod Packets
pub mod Guard
pub mod Sender
pub mod ZeroCopy
pub mod System
pub mod Receiver
pub mod Tests
