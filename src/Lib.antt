-- ===== src/Lib.antt =====
-- bark-esp: a network audio receiver for the ESP32, in Rust over ESP-IDF and FreeRTOS.
--
-- The firmware receives UDP packets of the bark protocol (src/platform/net/udp.rs), hands them
-- through a FreeRTOS queue (src/sync/queue.rs) to the application task (src/app/mod.rs), which
-- sorts the audio packets of the current stream into a packet queue (src/app/queue.rs). When
-- enough have come, a task of its own (src/app/stream.rs) pops them, converts the samples and
-- writes frames to the DAC (src/platform/dac.rs) through a lock-free ring buffer
-- (src/sync/ringbuffer.rs) that an interrupt handler drains.
--
-- Sync.RingBuffer: src/sync/ringbuffer.rs. A ring is its two indices and its buffer; a slice into
--   it is an offset and a length; `write`, `read`, `read_in_place`, `fill`, `reset` take the state
--   that they load and return the state that they store. Sums of indices wrap at 2^32.
-- Sync.RingBuffer.Interleaved: one writer and one reader of a ring at once, in any order; each loads
--   both indices, copies, and stores its own.
-- App.Queue: src/app/queue.rs. `Shared` is the deque of slots with `head_seq`; `insert_packet`,
--   `queue_slot_mut` and `pop_front` are the methods of that name, over an interface for
--   heapless::Deque (Extern.Deque). App.Queue.Spec is the window of packets by number that they
--   are held against. The loop of `queue_slot_mut` is run on two rounds more than the index; a
--   round appends a slot, so it ends before.
-- Task.Registry: src/system/task/registry.rs, as steps of any number of tasks in any order.
-- Task.Waker: src/system/task/waker.rs. A set of wakers is its word of bits; a wake-up returns the
--   pointers of the tasks that it notifies, in order.
--   Task.Waker.Raw: its waker_impl, with the wakers of other executors.
-- Task.Execute: src/system/task/execute.rs, its task's steps and the wake-ups in any order.
-- Sync.Mutex: TaskMutex of src/sync/mutex.rs and the executor's wait of
--   src/system/task/execute.rs, one access to shared memory at a time, in any order of the tasks.
--   Sync.Mutex.Guarded: the value behind it, which a task with a guard loads and stores.
-- Sync.Critical: CriticalMutex of src/sync/mutex.rs over an interface for the critical sections of
--   FreeRTOS (Extern.Spinlock), by any number of cores.
-- Sync.Isr: src/sync/isr.rs.
-- Sync.EventGroup: src/sync/eventgroup.rs over an interface for a FreeRTOS event group
--   (Extern.EventGroup).
-- Sync.Queue: the channel of src/sync/queue.rs over an interface for a FreeRTOS queue
--   (Extern.RtosQueue). Both ends act on the one shared block;
--   Sync.Queue.Send: `send` and `receive` as polls in any order;
--   Sync.Queue.Lifetime: from `channel` to the drop of the second end. The loop that empties the
--   queue is run on one round more than its capacity, which it never holds more than.
-- App.PacketQueue: PacketQueue of src/app/queue.rs, with its lock held for each operation;
--   App.PacketQueue.Locked: the two tasks at it over Sync.Mutex.Guarded.
-- App.Stream.Run: the loop of run_stream of src/app/stream.rs, from App.PacketQueue to
--   Platform.Dac.Loop; what the other tasks do to the queue in between is any function.
--   App.Stream.Play: the frames of a packet in it.
-- App.Stream.Session: that loop and receive_audio of src/app/stream.rs on the one queue, each round
--   after the packets that come before it.
-- App.Receiver: the Receiver of src/app/mod.rs and the start of the task in src/app/stream.rs.
-- App.Dispatch: the loop of the task of src/app/mod.rs; a round takes what `receive` returned;
--   App.Dispatch.Session: the stream that it ends up with; App.Dispatch.Queued: with the packet queue
--   of App.PacketQueue in it.
-- App.Bind: Protocol::bind of src/app/protocol.rs over the models of the socket, the channel and the
--   multicast groups, with what is dropped on an error.
-- App.Protocol: src/app/protocol.rs: the callback of the socket, over the channel, and `receive`;
--   App.Protocol.Traffic: any mix of arrivals at the callback and receives.
-- App.Stream.Sample: convint8 of src/app/stream.rs, on the bits of an f32, and in
--   App.Stream.Sample.Accuracy how near it comes.
-- Platform.Dac: src/platform/dac.rs over Sync.RingBuffer: poll_write, and the interrupt handler;
--   Platform.Dac.Loop: the loop of `write`, with the interrupts that come before and the wake-ups of its waits.
--   It is given two rounds for each frame: after a poll that is pending the ring has room.
-- Platform.Dac.Setup: the calls of the driver by Dac::new, its drop and run_stream.
-- Platform.Net: the addresses and results of src/platform/net.rs.
-- Platform.Udp: the sockets of src/platform/net/udp.rs. The owner of a socket and the task of lwIP
--   are two program counters; each step is one access to the flags, to the callback that lwIP has
--   registered or to the memory of a callback.
-- Platform.Wifi: src/platform/wifi.rs, as the calls that it makes in order; Platform.Wifi.Events:
--   its event handlers and the loop of the platform task of src/platform/mod.rs;
--   Platform.Wifi.Config: the two configurations it hands over; Platform.Wifi.Boot: `init` of
--   src/platform/mod.rs with those of eventloop.rs and nvs.rs.
-- App.Timing: src/app/timing.rs over an interface for heapless::HistoryBuffer
--   (Extern.HistoryBuffer).
-- System.HeapBox: src/system/heap/boxed.rs, over a store of cells by address.
-- System.SharedBox: src/system/heap/arc.rs, the handles of one block.
-- System.Heap: the allocator of src/system/heap.rs over malloc and free.
-- System.Builder: the builder of src/system/task.rs and `spawn`; System.Builder.Entry: the entry of
--   a task, with the box of its closure.
-- System.Log: the message buffer of src/system/log.rs, System.Log.Line its lines, as bytes, and
--   System.Log.Write the call that they end in.
-- System.Top: the figures of src/system/task/top.rs; System.Top.Table: a row of its
--   table; System.Top.Frame: what one turn of its loop prints.
-- Stats: the counters of src/stats.rs; Stats.Report: its task, one `take` at a time, beside the
--   tasks that count.
--
-- Atomic operations are taken as they read, in one order. In Task.Registry, Sync.Mutex,
-- Platform.Udp and Platform.Wifi.Events a step is one atomic access, and in
-- Sync.RingBuffer.Interleaved one load, copy or store; in Sync.Queue.Send and Task.Execute it is a
-- poll or a wait, and elsewhere an operation. The calls of FreeRTOS, ESP-IDF, heapless, lwIP and
-- bark_protocol are parameters. Not modelled: the parsing of
-- packets, the C allocator and src/main.rs.
pub mod Base
pub mod Stats
pub mod Extern
pub mod Task
pub mod Sync
pub mod App
pub mod Platform
pub mod System
mod Tests
