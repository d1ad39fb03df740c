-- ===== src/Lib.antt =====
-- gtcp is an event-driven TCP networking library. The poller (internal/netpoll) waits for events of the
-- listener and of the connections and calls the server for each (engine_unix.go), which finds the
-- connection in a map (conn_matrix.go). A connection (connection_unix.go) keeps the bytes that it has
-- received and not read in an elastic ring, and those that it could not yet send in an elastic buffer
-- (pkg/buffer/elastic), which is made of a ring buffer (pkg/buffer/ring) and a linked list of slices
-- (pkg/buffer/linkedlist). A decoder (glibevent.go) cuts the bytes received into messages for the
-- user's handler; the client (client.go) does the same over a net.Conn. This library models these parts
-- from the arithmetic of the ring up to the handling of an event, the opening and closing of a
-- listener, and the packed descriptor.
--
-- The files and the code they are about:
--   PowerOfTwo      internal/math/math.go: CeilToPowerOfTwo, FloorToPowerOfTwo, IsPowerOfTwo on a
--                   64-bit int. Bits and Ceil hold the laws of the binary digits.
--   Ring            pkg/buffer/ring/ring_buffer.go: the record Buffer has the fields of the struct
--                   but its scratch field bs; Peek, Discard, Read, ReadByte, Write, WriteByte, Bytes,
--                   Buffered, Available, Reset and grow are functions on it, Ring/Growth is the choice
--                   of a capacity in grow, and Ring/WriteTo is WriteTo with a writer as parameter.
--                   Ring/View has the abstract view of a ring, the list of its bytes in order
--                   (contents), and its invariant (IsValid); each other file has the laws of the
--                   operation it is named for, in terms of contents.
--   LinkedList      pkg/buffer/linkedlist/linked_list_buffer.go: the chain of nodes is a list of
--                   slices, with the two counters beside it. Queue has contents, the invariant and the
--                   operations at the ends; Read, Discard and Look the others, and WriteTo and
--                   ReadFrom have the operations with a writer and a reader.
--   Elastic         pkg/buffer/elastic: Elastic/RingBuffer is elastic_ring_buffer.go, a ring that is
--                   taken from a pool when it is first written to and given back when it is empty, and
--                   Elastic is elastic_ring_list_buffer.go, which writes to the ring up to a limit and
--                   to the list from then on. Elastic/Contents has the abstract view, one queue of
--                   bytes; Write, Writev, Read and Look are about the operations on it, and
--                   WriteTo and ReadFrom have those with a writer and a reader.
--   Inbound         Peek, Next and Discard of connection_unix.go, on the inbound buffer; Inbound/Laws says
--                   what they hand out and leave.
--   Framing         glibevent.go: the interface Header, the default head, Decode of the default decoder,
--                   and the loop around it. Heads has the codec of the head, Decode one call,
--                   Stream and Chunks the loop on a stream of messages and on its parts, Ends and Size its end and the
--                   size of the ring.
--   Sys, Run        the system calls as a record of operations and laws, and how a method ends.
--   Netpoll         internal/netpoll: what is registered with epoll; EventList has the list of events.
--   Conn            connection_unix.go: a connection, its reading, writing, flushing and closing. Its state
--                   is explicit, the write lock included. Conn/Invariant has the bytes accepted for
--                   the peer as one sequence (stream); Front, Leftover, Call and Attempt the lemmas
--                   behind Write, Writev, Flush, Close and EventRead; Drain has the loop of Close.
--   ConnMatrix      conn_matrix.go: the map from descriptors to connections; Lookup has its laws.
--   Options         options.go, and what Server makes of the options (engine_unix.go); Options/Caps has
--                   the bounds.
--   Client          client.go; Client/Process has the loop that reads and decodes.
--   Engine          engine_unix.go: Callback, eventRead, eventWrite and accept. Traffic, PeerClose and Accept have
--                   the two ends of a readable event, and a new connection.
--   Gfd             internal/gfd/gfd.go: the descriptor of a connection with its indexes, packed into
--                   16 bytes; Gfd/RoundTrip has the laws of packing and reading.
--   BytePool        pkg/pool/byteslice: arrays kept by size classes; BytePool/Sizes is
--                   about how far a slice reaches into its array.
--   Wakeup          internal/netpoll/epoll_optimized_poller.go: how goroutines hand tasks to the event
--                   loop and wake it, as steps in any order (Wakeup/System); Wakeup/Signal is the
--                   invariant, Wakeup/NoLostWakeup keeps it, Wakeup/Stranded is about failed writes.
--   RingPool        what the elastic ring asks of the pool of rings; RingPool/Pool is that pool
--                   (pkg/pool/ringbuffer), RingPool/Calibrate its choice of sizes, and RingPool/Kept compares
--                   it with what the elastic ring asks for.
--   Socket          internal/socket: the system calls of a socket, with what the kernel has been asked and
--                   has answered as state. Ip has the addresses, ToAddr the way back with Decimal, which prints
--                   a zone; Ip/Laws is about both. Options has the setters
--                   (KeepAlive the one of Darwin) and Create the three socket functions.
--                   Descriptors, Keeps and Leaks are about what is open, Calls about the order of calls.
--   Listener        listener_unix.go on top of it; Listener/Close has the descriptors and Listener/Calls
--                   the system calls of a TCP listener.
--   TaskQueue       internal/queue/lock_free_queue.go: the lock-free queue of tasks, as the accesses of
--                   goroutines to shared memory in any order (TaskQueue/System). TaskQueue/Order has
--                   the invariant, which the files below it keep; TaskQueue/Contents, Fifo and Length
--                   are about what the queue holds, and TaskQueue/Alone about a goroutine that runs alone.
--   Alloc, Io       what the buffers ask of the pool of slices (pkg/pool/byteslice), of an io.Writer
--                   and of an io.Reader, as records of operations and laws that the code takes as parameters.
--   Errors          the error values of the modelled code.
--   Prelude         lists and slices over native numbers, Boolean tests, integers, copy.
--
-- Conventions. A byte is a number, since bytes are only moved. An int that may be negative is a ℤ, and
-- a length or position a natural number. A panic is none. Sums that the source guards against
-- overflow are taken modulo 2 ^ 64; the lengths of slices stay below 2 ^ 61 where it matters.
-- The loop of grow has a fuel of 5 rounds, each of which adds a quarter: four of them double the
-- capacity, and the loop is entered only below the double. The loops over a linked list have
-- the number of its nodes as fuel, and each round takes a node off or stops. The loop around Decode gets more fuel than there
-- are bytes, see Framing/Ends, and the loop of Close needs fuel above the bytes
-- that wait. ReadFrom of the ring gets a round of fuel for each two calls of the reader.
--
-- A system call returns its count and error and a new state of the kernel, and Sys has what the code
-- relies on: a write takes a front part of the bytes as long as its count, and none when it reports an
-- error. The results of the read calls are an argument. The handler is a parameter; a server's handler
-- may change the connection it is given. A connection that is changed through the pointer in the
-- map is stored again at its descriptor.
--
-- The kernel of Socket is any function from the calls so far to an answer; it does not fail a socket(2)
-- or fcntl(2) with EINPROGRESS. close(2) frees a number whatever it returns. What a name resolves to, the
-- interfaces and the backlog's file are parameters; methods of net.IP are written out.
--
-- Not modelled: the pool of tasks, a sync.Pool; the wait of the default poller, which runs the callbacks
-- of one wait in goroutines; the kqueue pollers, whose queues and flag are those of the epoll poller in
-- Wakeup; Start, ticker and parseProtoAddr; the setters of a connection, which pass a value on to those of
-- Socket; readv and writev; logging, and the code for Windows. internal/netpoll/fd_unix.go is an adapted
-- copy of a file of Go that nothing here uses.
pub mod Prelude
pub mod Errors
pub mod PowerOfTwo
pub mod Alloc
pub mod Io
pub mod Ring
pub mod RingPool
pub mod Elastic
pub mod Gfd
pub mod Inbound
pub mod Framing
pub mod Run
pub mod Sys
pub mod Netpoll
pub mod Conn
pub mod Options
pub mod ConnMatrix
pub mod Client
pub mod Engine
pub mod BytePool
pub mod LinkedList
pub mod TaskQueue
pub mod Socket
pub mod Listener
pub mod Wakeup
