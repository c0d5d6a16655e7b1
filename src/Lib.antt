-- ===== src/Lib.antt =====
-- A library of C++ notes: servers, containers and patterns, each a program of its own. Modelled are:
--
-- TimerList: the ascending list of timers of high-performance-server-programming-linux/ch11/
--   timer_list.h, with its nodes and links in memory: `add_timer` is addTimer, `add_timer_after` its
--   private overload, `adjust_timer`, `del_timer`, `tick` and `destroy` the rest; `put_off` is the
--   part of main of ch11/nonactive_connection.cc that moves a deadline. A loop has a number of
--   rounds as its first argument; one for each timer of the list and one more are enough.
-- TimeWheel: the wheel of timers of high-performance-server-programming-linux/ch11/time_wheel.h,
--   with the linked list of a slot as a list.
-- TimeHeap: the ordered set of timers of high-performance-server-programming-linux/ch11/
--   time_heap.h, with what the shared pointers point to.
-- SmartPtr: the reference-counted pointer of cpp-living-code/SmartPtr/smart_ptr.cpp, over a heap of
--   objects and counts; the counts are 64-bit and wrap around.
-- Reactor: the echo server of libevent/Reactor.cpp: its slots, callbacks, dispatch and idle loop.
-- ChatRoom: one round of the loop of high-performance-server-programming-linux/ch09/
--   chatroom_server.cc over its slots: `join`, `leave`, `hear` and `speak` are the branches of its
--   body. The loop has three steps more than there are users. That no slot beyond the array is used
--   is a part of its invariant.
-- IdleServer: the event loop of high-performance-server-programming-linux/ch11/
--   nonactive_connection.cc, a client of TimerList: `connect`, `hear` and `obey` are the branches of
--   its body, `round` one turn of it. Its rounds are those of the list. The source reads the clock for
--   each event; a turn of the model has one time.
-- FrameSync, StateSync: GameServer/Synchronization/FrameSync.cpp and StateSync.cpp: the server's thread
--   and the threads that hand it inputs, in any order; what a mutex holds together is one step. A run
--   goes no further than where an `int`, the frame or a position, overflows.
-- Observers: head-first-design-pattern/ch2_观察者模式/Weather.cpp and cpp-living-code/design_patterns/
--   observer/observer.cpp: the subjects with their lists of observers, and the display.
-- StarBuzz, FactoryMethod: head-first-design-pattern/ch3_装饰器模式/StarBuzz.cpp and
--   ch4_工厂模式/2_FactoryMethod.cpp.
-- ThreadsafeStack: cpp-concurrency-in-action/ch3_在线程间共享数据/threadsafe_stack.cpp: each operation,
--   which holds the mutex throughout, is one step.
-- JoiningThread: cpp-concurrency-in-action/ch2_线程的基本管控/joining_thread.cpp and scoped_thread.cpp:
--   the operations of both classes over the threads that objects own. An object that is not alive is
--   one without a thread.
-- EchoServer: high-performance-server-programming-linux/ch09/echo_server.cc: `echo_tcp` and `echo_udp`
--   are the branches of its loop. The loop over recv has a round for each byte and two more.
-- UnifiedEvents: high-performance-server-programming-linux/ch10/unified_event_source.cc: `sig_handler`,
--   which may run between any two steps, and the steps of the main loop.
-- Singleton: cpp-living-code/design_patterns/Singleton/singleton.cpp and the same patterns of
--   cpp-concurrency-in-action/ch3_在线程间共享数据/code_3_11.cpp: `advance` is the next read or write
--   of a thread in getInstance. The steps of the threads come one after the other, which C++ promises
--   only where there is no data race (Singleton/Races).
-- ForkRoom: high-performance-server-programming-linux/ch13/chatroom_server.cc, with a process for each
--   client: `connect`, `sigchld`, `sigterm` and `forward` are the branches of the parent's loop, `serve`
--   (ForkRoom/Loop) the loop over what epoll_wait returns; `hear` and `relay` are the branches of a
--   child's loop, `run_child` (ForkRoom/Serving) the loop. The shared memory is its bytes by address
--   (ForkRoom/Bytes).
-- HierarchicalMutex: cpp-concurrency-in-action/ch3_在线程间共享数据/code_3_8.cpp: the mutex, and the
--   steps of any number of threads that use any number of them.
-- Epoll: the functions lt and et of high-performance-server-programming-linux/ch09/epoll.cc.
-- OneShot: high-performance-server-programming-linux/ch09/epolloneshot.cc: the steps of its loop
--   (`connect`, `dispatch`) and of its workers (`begin`, `receive`), in any order.
-- Alternate: cpp-living-code/concurrency_related/output_alternately.cpp: the steps of its two threads;
--   a read of `idx` without the mutex is taken to see a value that it has.
-- DataQueue: the two threads of cpp-concurrency-in-action/ch4_等待事件或等待其他条件/
--   condition_variable.cpp: the put, the notification, the look at the queue, the sleep and the wake-up,
--   for no reason too, are steps in any order.
-- ParallelAccumulate: cpp-concurrency-in-action/ch2_线程的基本管控/parallel_accumulate.cpp: the blocks
--   and their threads; an execution is the order in which the threads do their work.
-- LinkedList: the list of cpp-living-code/list/List.cc, with its nodes and links. A walk has a number
--   of rounds as its first argument; one for each node and one more are enough. The size wraps around
--   where the source's `int` overflows.
-- MedianFinder: the class of cpp-living-code/sort/heap_sort/priority_queue.cpp; a priority queue is
--   the list of its elements in the order in which they come out.
-- Duck: the ducks of head-first-design-pattern/ch1_策略模式/duck.cpp and the objects that they own.
-- Pizza: the stores of head-first-design-pattern/ch4_工厂模式/3_AbstractFactoryPattern.cpp.
--
-- In the servers the kernel's answers are arguments and the calls of it are recorded. In EchoServer and
-- UnifiedEvents what waits in sockets and pipes is a part of the state instead: recv takes it in order,
-- up to the size of the buffer, and a send to a client takes what there is room for.
--
-- Memory is what TimerList, LinkedList, IdleServer and SmartPtr share: nodes at addresses, commands
-- that end, fault at a null or freed pointer, or run out of rounds, and chains of linked nodes. Base
-- has the names, the integers and the lemmas on lists that all use.
--
-- Not modelled: the set-up of sockets and of signal handlers, and the layout of what is printed; what
-- a callback itself does, which is only recorded; the samples that only call the system or a library;
-- the C and Java exercises. The other servers, containers and patterns have no model.
pub mod Alternate
pub mod Base
pub mod ChatRoom
pub mod DataQueue
pub mod Duck
pub mod EchoServer
pub mod Epoll
pub mod FactoryMethod
pub mod ForkRoom
pub mod FrameSync
pub mod HierarchicalMutex
pub mod IdleServer
pub mod JoiningThread
pub mod LinkedList
pub mod MedianFinder
pub mod Memory
pub mod Observers
pub mod OneShot
pub mod ParallelAccumulate
pub mod Pizza
pub mod Reactor
pub mod Singleton
pub mod SmartPtr
pub mod StarBuzz
pub mod StateSync
pub mod ThreadsafeStack
pub mod TimeHeap
pub mod TimeWheel
pub mod TimerList
pub mod UnifiedEvents
