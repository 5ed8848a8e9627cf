-- ===== src/Lib.antt =====
-- Verification of the executors library (include/experimental): the executors, and the queues, channels,
-- schedulers, strands and timers that they are made of.
--
-- The parts and how they interact. A program submits function objects to an executor. The executors of
-- `loop_scheduler` and of `thread_pool` put them as operations into a `__scheduler`, which threads run;
-- an `__op_queue` is the list that a scheduler, a thread's context, a strand, a timer and a channel keep
-- operations in. A `strand` wraps an executor and serialises what is submitted through it. A `channel`
-- hands values from putters to getters, and posts a completion for each asynchronous operation that it
-- is done with. A `basic_timer` keeps its operations in a timer queue of the `__reactor` of its context,
-- whose thread completes those that are due. `post` and its like take several function objects, which
-- an invoker calls one after the other; `copost` runs several at the same time and gives their results to
-- one. An operation may resume a coroutine, of which there are two kinds. A polymorphic `executor` shares
-- the implementation of its target with its copies, and an `executor_work` keeps work outstanding on an
-- executor.
--
-- Files, with the code that each is about (paths under include/experimental/bits):
--   Base            library names, natural numbers, lists, integers and sums over threads
--   OpQueue         operation.h: `__op_queue`, its pointers in a memory of `_M_next` fields
--   OpQueue/Refine  the same as a list
--   Channel/Types, Channel/Base, Channel/Values    channel_base.h and channel.h: `channel<T>`, a record
--                   of the fields of the class; one function for each member, which gives the channel
--                   after the call, the completions posted and the result
--   Channel/Invariant, Channel/Calls, Channel/Fifo, Channel/Lifecycle    what its calls do
--   Channel/Void, Channel/Void/Refine    channel_void.h: `channel<void>`, a counter in place of a buffer
--   Scheduler, Scheduler/Threads    scheduler.h: the state, the code between two atomic accesses, and
--                   the threads that run it, interleaved, as a step relation
--   Scheduler/Accounts, Scheduler/Safety, Scheduler/Stranded    its count of outstanding work
--   Strand, Strand/Token, Strand/Invariant, Strand/Safety    strand.h: the same for `__strand_impl`
--   Strand/Calls    call_stack.h, and what `dispatch` of a strand decides by it
--   Members, Members/Steps, /Lists, /Shutdown    strand.h and channel_base.h: the lists that the services of
--                   strands and of channels keep
--   Executor, Executor/Calls, Executor/Ops    executor.h: the polymorphic `executor`, its counted
--                   implementations, and its calls
--   Executor/Counts, /Lifetime, /Kept, /Values, /Equal    what they do
--   Work, Work/Balance    executor_work.h: the work that objects own; Work/Pool    thread_pool.h;
--                   Work/System    the threads of system_executor.h
--   Timer, Timer/Calls, Timer/Subtract, Timer/Expires    timer.h: `basic_timer`, and `__safe_subtract`
--   Reactor, Reactor/Queues, Reactor/Thread    reactor.h, and `__timer_queue_set` of timer_queue.h: the
--                   calls on the reactor, and its thread, as a step relation
--   Reactor/Wakeup, Reactor/Sleep    how long its thread waits
--   Promise, Promise/Delivery    promise_handler.h: the handlers of `use_future`, and what the future gets
--   ForkJoin        src/examples/executor/fork_join.cpp: a pool that joins groups of functions, as a
--                   step relation
--   ForkJoin/Stacks, /Sound, /Wakeup, /Counts, /Groups    what it does
--   TimerQueue, TimerQueue/Calls    timer_queue.h: the heap of timers, and the members of `__timer_queue`
--   TimerQueue/Heap, /Sift, /Removal, /Expiry, /Wait, /Enqueue, /Cancel, /Moves,
--   /Active, /Unlink, /Links    what they do
--   Services        execution_context.h: the services of a context, as a step relation over calls
--   Services/Registry, Services/Shutdown    one service for each key; shutdown and forks
--   Recycler, Recycler/Blocks    small_block_recycler.h: the freed blocks that a thread keeps
--   Coinvoker, Coinvoker/Account, /Delivery    coinvoker.h: what the heads and the tail of copost share
--   Await, Await/Turns    await_context.h: the threads that resume a stackless coroutine
--   Await/Coroutine, /Segments    `__coroutine`, `reenter` and `await`: the order of the segments
--   Await/Handlers, /Errors    its handlers, and exception_ptr_executor.h
--   Yield, Yield/Handshake, /Outcomes    yield_context.h: a stackful coroutine and the handler that
--                   resumes it
--   Invoker, Invoker/Calls, /Kept    invoker.h, post.h, dispatch.h, defer.h: several function objects,
--                   one after the other
--   Continuation, /Ownership    continuation.h: who owns the implementations of continuations
--   OrderBook, /Quantities, /Priority    src/examples/trading/server/price_time_order_book.cpp
--   Pipeline, /Content, /Order, /Wakeup, /Lines    src/examples/executor/pipeline.cpp: queues between
--                   stages, and the stages
--   Actor, Actor/Handlers    src/examples/executor/actor.cpp: the handlers of an actor, and the members of
--                   its ring
--   Examples        runs at concrete inputs
--
-- Correspondence. A member `_M_x` of the code is a field `x`; `_Foo_bar` is `foo_bar`. Pointers are
-- natural numbers, with 0 for the null pointer. A call that the standard leaves undefined gives `none`.
-- `channel<void>` counts its buffer in a `size_t`, with the wrap-around written out; the count of a
-- scheduler is an integer. Fuel: `destroy_all` of a queue takes more than the number of operations,
-- of which each round takes one off.
-- The loops of a timer queue take fuel: more than the index for `up_heap`, more than the size of the
-- heap for `down_heap` and `get_ready_timers`, more than the number of active timers for
-- `get_all_timers`: the index falls to that of the parent or grows to that of a child in each round,
-- and the loops over timers remove one in each. The loop of `shutdown` over the objects of a service takes
-- more than their number. The matching of a new order takes more than there are orders on the other side:
-- each round but the last removes one.
--
-- Left out: the templates that adapt function objects, handlers and executors to each other (they hold
-- no state), the clock of timed waits (a time-out may come at any moment in the model of a scheduler),
-- the memory model below sequential consistency, exceptions of allocation, the tests and all
-- examples but those of a fork/join pool, of a pipeline, of actors and of an order book. An operation is
-- a number: what it does when it is completed is left open.
pub mod Base
pub mod Await
pub mod Actor
pub mod OpQueue
pub mod Channel
pub mod Coinvoker
pub mod Continuation
pub mod Scheduler
pub mod Strand
pub mod TimerQueue
pub mod Services
pub mod Recycler
pub mod Timer
pub mod Reactor
pub mod Executor
pub mod Members
pub mod Work
pub mod ForkJoin
pub mod Invoker
pub mod OrderBook
pub mod Pipeline
pub mod Promise
pub mod Yield
mod Examples
