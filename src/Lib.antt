-- ===== src/Lib.antt =====
-- The xtunnel library: TCP and UDP connections of a client, carried to a server over several
-- websocket channels at once, of which each connection picks one to send on and one to receive on.
--
-- The program's parts and the files that model them (paths from the repository's root):
--   * Protocol: what the channels carry. Protocol/Message is EncodeMessage and DecodeMessage of
--     protocol/protocol.go; Protocol/HotPair is EncodeHotPairNotify and DecodeHotPairNotify, the
--     client's batch of channel pairs that it has warmed; Protocol/ConnId is HotPairConnID,
--     SplitHotPairConnID and ShortID; Protocol/Errors is protocol/errors.go; Protocol/IpStrategy is
--     protocol/ip_strategy.go, with Choice on the addresses; Protocol/Wire has the
--     big-endian integers of encoding/binary and Go's slices.
--   * HotPairTable: hotpair_table.go, the server's table of warmed pairs, fed by those batches and
--     asked by a connection's set-up. Its children are named for what they prove: Notify, Queries,
--     Invalidate.
--   * ServerPool/Backpressure: the byte count of all write queues and the level that follows it
--     (addQueueBytes to removeQueueBytes of server_pool.go); Flow is asyncWrite and writeLoop of
--     connection.go in their atomic steps, in any interleaving; Resets is what asyncWrite does on a full
--     queue, with notifyChannelReset.
--   * ServerPool/Conns: the TCP and UDP connections of handler.go. ServerPool/Conns has the states, in a store
--     because goroutines share them by pointer, with sending and unregistering (server_pool.go);
--     Handlers the handlers and the sections of connectTarget and forwardTargetToClient; Steps their
--     interleavings, Begins, Moves and Safety what no interleaving changes, Ends how a connection begins and
--     ends, Data the choice of a downlink and the order of the data. Udp has the handlers of UDP
--     connections, with Copies on what a client broadcasts; Cleanup is cleanupChannel of
--     server_pool.go for forward connections, and Cleared what it leaves.
--   * ServerPool/Admission: handleWebSocket and allocClientChIDLocked of server_pool.go, over the same
--     channels; Admits is about which channels come to life, and under which number, and Takeover about
--     a reconnect that comes before the cleanup of the old channel.
--   * PairWarmer: pair_warmer.go, the client's queue of warmed pairs, their states and users, and the
--     primary. Pairs are shared by pointer: PairWarmer/Store has the store of pairs, and the queue
--     holds addresses. Primary is about the election and acquiring, Sweep and Channels about
--     a channel's end, Users about releasing and invalidating, Pruning about pruneIdleDrainingPairs, Heads about
--     promoteToHead and replaceHeadWithCandidate, Slots about assignPairSlot; Members has lemmas on
--     the queue. Duplicates is deduplicatePairs and Trimming trimExcessPairs, over the pointers of a
--     list; Notices the batch of notifications that the server's table is fed with, and Delivered
--     the way there; Race the race behind BuildPair, up to its result; Refresh whole
--     passes of tryRefresh and periodicRefresh, and Order what they keep.
--   * ClientPool: pool.go, the client's channels. ClientPool/Registry has the connections, with
--     registration and the note of uplinks; an operation on one connection
--     maps its entry in the map, or none, to the entry behind it and to its effects outside. Its
--     children are Selection, which is selectDownlink, with Downlink on its race, Cleanup, which is
--     cleanupChannel, and Release on a pair's way. ClientPool/Dispatch is handleChannel, one function for
--     each case; Delivery and OneChannel are about the data that reach a connection.
--     ClientPool/Writer is the joining of jobs in writeWorker, Events and Stream what it writes.
--     ClientPool/Budget is globalQueueBytes with the queues, in atomic steps; Accounting is about
--     the counter. ClientPool/Pressure is handleBackpressure and waitForBackpressure.
--     ClientPool/Writes is asyncWriteDirect and broadcastWrite for one caller at a time.
--     ClientPool/Dial is the loop of dialAndServe; Pace is about its delays, and Load about what all
--     loops together report to the relay manager, which is the interface to Relay.
--   * Reverse: the connections that the server opens through a client. Reverse/Client is the table
--     and the handlers of reverse.go, Leak its late closes and Cleanup the loss of a channel.
--     Reverse/Server is the table and the handlers of reverse_server.go with intercept, the test in
--     handleMessage, and its part of cleanupChannel; Dialer is DialStream and the pump, Outcome and
--     Ends how a dial ends. Negotiation, Copies and Warmed are about both ends at once: the choice
--     of the two channels, the copies of broadcast data, and a dial over a warmed pair, whose name
--     Protocol/ConnId takes apart. Reverse/Listeners is the client's registration of listeners, and
--     Reverse/Manager reverse_listener.go, the server's listeners, with Bounded and Told.
--   * Relay: relay.go. Relay/Nodes has the nodes and all that changes their list, Relay/Select
--     SelectNodeExcluding and its kin, with Choice and Order on what is chosen, Relay/Loads Acquire and
--     Release, Relay/Resolve what a lookup adds, Relay/Health the health score and the healthy
--     nodes, with the probes of testAllNodes in their sections, and Relay/Fraction the fractions that stand for float64.
--   * Base: lists, Boolean tests and association lists (Go maps) that the parts share.
--
-- Conventions: strings and byte slices are lists of natural numbers; an int that the code keeps
-- non-negative is a natural number, and a uint16, uint32 or byte is written with its wrap-around.
-- A function that locks a mutex for all of its body is one step; logging and events are left out.
-- The clock is an argument. Loops over slices and maps recurse on the list. DecodeHotPairNotify's
-- loop runs on fuel, the length of the payload: each round takes ten bytes at least, so the fuel
-- does not run out. trim_loop runs on one more than the number of Ready pairs: each round but the
-- last evicts one of them. A pass of the refresh is one step, with what the races of its moment
-- give as arguments.
-- A score that the code keeps as float64 is an exact fraction, so that rounding is left out; the
-- random draw of a choice is an argument. sort.Slice is a parameter that keeps the members of its
-- slice and puts none before one that it is less than, at the head; Relay/Tests has such a sort. Acts
-- of several goroutines are steps or events in any order. agg_loop runs on the number of jobs that
-- are in the queue when it looks, and write_all on the number of jobs that there are: each round
-- takes one at least.
-- The 32-bit count of a pair's users does not wrap in the model, and the 64-bit count of queued
-- bytes does not either: both take more users and more memory than a machine has.
--
-- Not modelled: the sockets, the websocket library, TLS and certificates (cert.go), the dialers
-- (dialer.go, proxy_dialer.go) and logging (log_hook.go), which are input and output; of
-- server_pool.go the counters of bytes, the armed windows of prebind requests and Shutdown; of
-- pool.go Start, Shutdown, Reconnect, pings and failed writes to a socket; of pair_warmer.go the
-- loop of Run; and the life cycles (client.go, server.go): they start and stop goroutines, whose
-- steps are modelled in any order. The configuration (config.go, server_config.go) is an argument
-- where it is read.
pub mod Base
pub mod Protocol
pub mod HotPairTable
pub mod ServerPool
pub mod PairWarmer
pub mod ClientPool
pub mod Relay
pub mod Reverse
