-- ===== src/Lib.antt =====
-- Verification of the Nexus proxy: a public server that routes TCP and UDP traffic by hostname or port
-- over websockets to backends, which the client in client/ connects; several servers form a mesh.
--
-- Parts, and the files that model them:
-- * Common, Common/*: tests, lists, maps as association lists, integers, and the removal from a slice
--   by swapping the last element in; no code of the proxy but this idiom.
-- * Bandwidth, Bandwidth/*: internal/bandwidth/scheduler.go. The hub asks `RequestSend` before each
--   write to a backend. Each method is one atomic step on a record of the scheduler's fields; a
--   `CompareAndSwap` loop is the exchange that ends it. Time is an argument in nanoseconds.
-- * Ledger, Ledger/*: client/credit_ledger.go, and `drainConnectionQueue` of client/client.go on the
--   ledger and the length of the queue. The probe's timers are the list of generations whose body has
--   not run, and any of them may run, stopped or not. No frame arrives during a drain, and the returns
--   of a drain without a queue or a connection, which leave the ledger as it is, are left out.
-- * Hostnames, Hostnames/*: hostnames/hostnames.go, and `matchesWildcard` of client/config.go. Texts
--   are lists of bytes; case and spaces are those of ASCII; `idna.Lookup.ToASCII` is a parameter.
-- * Routing, Routing/*: internal/routing/peerlist.go and internal/routing/table.go. A peer is its address
--   and an object number; the maps of the table are association lists.
-- * Balancer, Balancer/*: internal/hub/loadbalancer.go. The loop of `Select` runs on fuel, and a
--   theorem gives the number of rounds that is enough; `gcd` has fuel above its second argument, which
--   falls in each round.
-- * Claims, Claims/*: the claims of a token, in internal/hub/hub.go: `normalizeHostnames`,
--   `normalizeTCPPortClaims`, `normalizeUDPRouteClaims` and `normalizeOutboundPortClaims` with the
--   bounded list of refusals, the comparisons of sets, `encodeRejectedReason`, and its reader
--   `parsePolicyCloseReason` of client/client.go; the route keys of
--   protocol/protocol.go; the idle timeout limits of internal/config/config.go. The prose of a refusal
--   is left out.
-- * Stages, Stages/*: `validateStage0Claims` and `buildMetadataFromClaims` of internal/hub/hub.go, which
--   use the normalizers of Claims. The ASCII mapping and the check of status URIs are parameters.
-- * Idle, Idle/*: the idle timeouts of UDP flows that backends claim for a port, in
--   internal/hub/hub.go (`trackUDPFlowIdleTimeout` and its counterparts).
-- * Buffered, Buffered/*: internal/hub/buffered_conn.go. The state of `bufferedConn` with that of its
--   `drain` goroutine; a step relation interleaves the calls with the steps of `drain` between two waits,
--   and the second select of a `Write`, which takes no mutex, with both.
-- * Flows, Flows/*: `udpFlowTable` of internal/proxy/udp_listener.go. The map from keys to elements of
--   the list is a look-up in the list; the loops of `evictLocked` have the length of the list as fuel.
--   `add` and the eviction that it ends with take one reading of the clock, where the code takes two.
-- * Socks, Socks/*: client/socks5.go. An operation goes from the bytes still to be delivered to the bytes
--   that it writes and its result; `net.IP.String` is a parameter.
-- * Ports, Ports/*: `PortMapping` of client/config.go. The map of hosts is the list of its entries in the
--   order of the loop, which the theorem takes as given.
-- * Tunnel, Tunnel/*: `TunneledConn` of internal/peer/tunnel.go, and the credit message with its reader in
--   internal/peer/peer.go. A step relation interleaves the calls with one writer.
-- * Registry, Registry/*: `register`, `unregister`, `SelectBackend` and `GetLocalRoutes` of
--   internal/hub/hub.go, over Balancer, Idle, Bandwidth and Hostnames.
-- * Witnesses, Witnesses/*: concrete inputs.
--
-- Amounts, sizes and counts are natural numbers; `activeCount` is an integer, since the code lets it
-- fall below zero. The counter of a peer list wraps at 2^64. Bounds of `int64` are written out in the
-- ledger's `addClamped`; in the scheduler they are not, since its sums stay far below 2^63. The times
-- that a token claims are in seconds, and are taken to fit a `time.Duration`.
--
-- Not modelled: sockets, websockets, TLS, tokens and their signatures, timers but the probe's, logs,
-- and interleavings of goroutines inside one method. The code rules these out by a mutex for most parts.
-- Buffered and Tunnel interleave the calls in their step relations; the scheduler uses atomics and
-- re-checks the map where another call may come between, and a ledger's methods update one atomic at a
-- time.
pub mod Common
pub mod Bandwidth
pub mod Ledger
pub mod Hostnames
pub mod Routing
pub mod Balancer
pub mod Claims
pub mod Idle
pub mod Stages
pub mod Buffered
pub mod Flows
pub mod Socks
pub mod Ports
pub mod Tunnel
pub mod Registry
pub mod Witnesses
