-- ===== src/Lib.antt =====
-- chrome: a verification library for the proxy server of this repository.
--
-- The program runs services (http proxies, socks servers, tunnels) whose outgoing connections go
-- through proxies. A socks service picks one of several proxies by a balancer; an http service
-- picks a route by matching the host against sets of patterns; a dns tunnel and the socks service
-- sort addresses by sets of address ranges. This library models the parts that decide something:
--
--   Conn       conn.go. `Options` are the options of `NewConn` with their defaults, `State` what its
--              coroutines share, `Timer` and `Loop` the loop that starts attempts
--              (`startConnLoop`), `Request` the reader (`readRequest`), `Attempt` one attempt
--              (`newConn`, `sendRequest`), `Step` all of them in any order, `Outgoing` the
--              deadlines of the `Conn` that `NewConn` returns.
--   Relay      relay.go. `Options` with their defaults, and in `Loop` the copies, the channel and the
--              loop of `Relay`.
--   Manager    service.go. `Names` is `findServiceName`, `State` the manager with its services and
--              jobs (`SendEvent`), `Load` is `loadConfig`, `setOptions` and `StopJobs`, `Files`
--              is `LoadFS`.
--   Dnstun     service/tcptun/dnstun/dnstun.go. `Servers` is `DNServer` with its check, `Routes` the
--              routes with `routeCache`, `Answers` what `startExchange` makes of an answer, `Seconds`
--              the 64-bit floating point of its `math.Ceil(ttl.Seconds())`, `Ages` an answer that is
--              given out later (with exact seconds), `Worker` is `startWorker`. A pointer to a route is its
--              address, and a choice of a `select` is part of the query.
--   Proxies    proxy.go. `Chain` is `MakeProxy` with `Equal`, `IsZero` and `UnmarshalYAML`.
--   RoundRobin service/socks/balancer/roundrobin/roundrobin.go. `Steps` is `getRemote` of every
--              connection, an atomic operation at a time, and `LoadEvent`. With fewer than 2 ^ 32
--              candidates, no index leaves 32 bits.
--   Failover   service/socks/balancer/failover/failover.go. `Elem` is the score of a candidate
--              (`elem`, `fib`, `elem.succ`, `elem.fail`), `Queue` the array of candidates
--              (`queue`: `newQueue`, `pick`, `fix`), `Conn` the connection that reports to it
--              (`conn`: `Read`, `Close`).
--   Netip      internal/netiputil. `Addr` stands for `netip.Addr`, `RangeSet` (rangeset.go) is
--              `AddrRangeSet` with `AddRange`, `Add` and `Contains`, `Prefix` (parse.go) is
--              `ParsePrefix` behind `netip.ParsePrefix` and `Masked`.
--   Matchset   internal/matchset/matchset.go. `Charset` is the bit set, `Group` is
--              `charSetFromGroup`, `Parse` is `readAtom`, `parse` and `Add`, `Match` is
--              `checkPattern`, `match` and `MatchAll`.
--   Http       service/http/http.go. `Rules` is one line of a list (`parseLine`), `Lines` the
--              scanner (`scanLines`) and the two walks through included files (`parseLine` and
--              `parseFile`, `checksumLine` and `checksumFile`), `Allow` is `Init`, `match` and
--              `Allow`, built on Matchset and Netip, `Cache` the routes of `getopts`, `Maps`
--              is `mapEqual` and `rewriteHost`.
--   Base       what the others share: Boolean tests and lists over the native numbers, integers,
--              binary digits, and Go's `sort.Search`.
--
-- Conventions. A Go panic and a loop that does not return are `none`. An int that may be negative
-- is an integer of `Base.Int`; a byte is a number with its wrap-around written out. The random
-- number generator is a parameter, of which only the range of its results is assumed. An address
-- is compared through its rank; zones of IPv6 addresses are left out.
--
-- The coroutines of `NewConn` run one at a time, and so a run is a list of events; what a dial, a
-- read or a write returns is part of the event, and a write is assumed to return no more than it
-- was given. An event that is not due changes nothing. Of
-- the wait group, only the calls of Add and Done in the code are counted.
--
-- Fuel. `search_loop` has the length of the array, and each round halves what is left. `add_span`
-- has 257 rounds, one more than there are bytes. `parse_loop` has the number of bytes of the
-- pattern, and each round takes one at least. `parse_lines` and `checksum_lines` have the depth of
-- files that include each other; a cycle of files does not end in the program. Every other loop is
-- a recursion on a list.
--
-- Left out: the encoding of a pattern's atoms in UTF-8, which saves memory only (it is exact below
-- the 55040th class of a set); locks, since each operation on a queue runs under one; listeners,
-- logging, configuration files and the third-party servers; and the parts that are named in the
-- manifest as planned.
pub mod Base
pub mod Conn
pub mod Dnstun
pub mod Failover
pub mod Http
pub mod Manager
pub mod Matchset
pub mod Netip
pub mod Proxies
pub mod Relay
pub mod RoundRobin
