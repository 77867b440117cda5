-- ===== src/Lib.antt =====
-- flash-relay: a TCP relay engine over io_uring, in Go.
--
-- The program. A server (flashrelay/flashrelay.go) makes one listener per worker by direct system
-- calls (internal/rawsock/rawsock.go) and starts the workers. A worker (`runWorker` of
-- flashrelay/worker.go) owns one ring (internal/uring/uring.go) and a map of connections: it keeps
-- accepts in flight, reads the first bytes of a connection, hands them to a hook on another
-- goroutine, and acts on the decision that comes back over the bridge, whose eventfd wakes the
-- ring. From then on it relays bytes in both directions until both ends are closed.
--
-- Files.
--   Base            shared names, Boolean tests, lists, signed integers, Go's words, bit operations,
--                   sums over lists, and Go's maps with numbers for keys (Base/Table)
--   Worker/Ops      the operation codes, `ud` and `unpack`
--   Worker/State    `conn`, `job`, `hookResult`, `Decision`, the counters, and the state of a worker:
--                   the locals of `runWorker` with the requests in flight and the system calls made
--   Worker/Conns    the map of connections, as a list with one entry per id
--   Worker/Actions  the closures of `runWorker`: `post`, `closeConn`, `startDuplex`, `fail`,
--                   `postRecvReq`, `growReq`, `forwardInit`, `postAccept`, `postEventfd`, `postTimeout`
--   Worker/Handlers the cases of the completion `switch`; Worker/Handlers/Hook is `case opEventfd`
--   Worker/Loop     `case opTimeout`, the `switch`, and one turn of the main loop
--   Worker/Kernel   what surrounds a worker: the kernel completes any request in flight with any
--                   result, and a hook decides any job, in any order
--   Worker/Frame    what all cases but `opAccept` leave alone
--   Worker/Footprint  the interface of a relation that every case contains, and its instances' lemmas
--   Worker/Backpressure  the connection cap
--   Worker/Tokens   what is in flight for a connection, by operation
--   Worker/Lifecycle  the phases of a connection; below it Closing, Rules, Cases, RelayCases, Hooked
--                   and Own for the connection that a case is about, Others for the rest, Sound,
--                   Switch, Accepts, Rounds, Arrivals and Runs for the worker, Always for its runs
--   Worker/Ledger   what is charged to the counters: Closures, Cases, Decisions, Events and Switch for
--                   the parts of a worker, Balance for its runs
--   Worker/Pin      `pinToCore`; Worker/Stats is `Stat` and `peerOf`
--   Worker/Buffers  the request buffer
--   Worker/HookFds  the upstream fds that hooks hand over
--   Bridge          the bridge; Bridge/Wakeup its producers and its consumer, step by step
--   Config          `Config`, `defaults` and `New`; Config/Ready what they promise
--   Rawsock         `Listen` and `DialFP` over an explicit kernel (Rawsock/Calls); Rawsock/Ledger
--                   counts the open sockets and Rawsock/Script orders the calls of a dial;
--                   Rawsock/Serve is the listeners of `Server.Run`,
--                   Rawsock/Fingerprint the profiles of `DialFingerprint`
--   Uring           the ring: Uring/Prep the entries and the `Prep` helpers, Uring/Queue `GetSQE`,
--                   `Submit`, the completion side and `post`, Uring/Setup `New` and `Close`;
--                   Uring/Slots, Uring/Post and Uring/Harvest what is proved of the queues;
--                   Uring/Fifo the ring as a plain queue, Uring/Refine that the calls are its
--   Gate            research/gate/internal: Gate/Proto the patterns of proto/proto.go, Gate/Sink the
--                   choice of the upstream of hook/hook.go, Gate/Init the reading of their list
--                   and Gate/Init/Lists what it gives,
--                   Gate/Storm `ExpandTargets` of storm/storm.go and Gate/Storm/Spans what it gives
--   Relay           research/gate/cmd/relay-uring/main.go, the research relay: Relay/State its data,
--                   Relay/Actions the closures of `worker`, Relay/Cases and Relay/Duplex the cases of
--                   the `switch`, Relay/Loop the loop, Relay/Kernel what surrounds a worker,
--                   Relay/Options the core list of `main`; Relay/Acts says what a case does to one
--                   connection and to nothing else, Relay/Phase what phase it leaves it in,
--                   Relay/Sound the invariant, case by case, and its runs, and Relay/Sizes the
--                   lengths of the buffers, case by case and over all runs
--   Tests           runs at concrete inputs
--
-- The state is passed explicitly. A closure or a case that changes a connection through its pointer
-- writes it back to the map, which is what the pointer's sharing comes to, as an id stands once.
-- Numbers are the native ones, with the wrap-around of uint64 and uint32 written out; a signed int is
-- a pair of constructors over them and does not wrap, as the sums that the code forms on ints (buffer
-- offsets and lengths) are bounded by a buffer's length. `top_up` runs on fuel: each round adds one to
-- the accepts in flight and the loop stops at AcceptBatch, so AcceptBatch rounds are enough. The main
-- loop is one turn at a time (`turn`), and a run is a list of events: a batch of completions is as many
-- events, then the overflow check and the top-up, and hooks decide in between. Ids are 64 bits of
-- which user_data keeps 56, so what is said of ids is said of runs of fewer than 2^56 events.
--
-- `post_sqe` runs on the number of submits; one is enough once the kernel consumes an entry. A worker's
-- `post` appends to the requests in flight, which is what `post_sqe` comes to.
--
-- `netip.ParseAddr` is a parameter, and so are the string functions that `Init`, `ExpandTargets` and
-- the core list of the research relay call. The loop of `ExpandTargets` runs on fuel, of which two more
-- than the width of the span are enough; its port is the one int that wraps. The kernel's answers are
-- arbitrary throughout, but that a receive writes no more bytes than its buffer has room for.
--
-- Not modelled: logging, the goroutine pool's size and the channel's capacity (a job is
-- in a queue from which any may be decided next), the contents of the ring's mappings, the
-- other research programs under research/ and the example.
pub mod Base
pub mod Worker
pub mod Bridge
pub mod Config
pub mod Rawsock
pub mod Uring
pub mod Relay
pub mod Gate
pub mod Tests
