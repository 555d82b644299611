-- ===== src/Lib.antt =====
-- A model of parts of Lapdev: development environments on Kubernetes, with a sidecar proxy that routes
-- requests to branches and devboxes, a manager that watches namespaces, a tunnel that finds its public
-- address, and a command line tool that gives services local addresses.
--
-- Base, Net: shared names, keys with a Boolean equality, lists over native numbers, hash maps as
-- association lists (Base/Map), sets as lists, `|` and `^` of words (Base/Bits), trimming of strings
-- (Base/Text), and `std::net` addresses. The order of a list stands for the order of iteration of a hash
-- map or set; theorems range over all lists.
--
-- Sidecar: crates/kube-sidecar-proxy.
--   Sidecar/Types, Sidecar/Routing: src/config.rs. `RoutingTable` is a record of maps; each method is a
--     function of its name that takes the table last and returns it changed. A devbox connection is its
--     metadata and its target environment; its tunnel client is left out.
--   Sidecar/Registry: src/connection_registry.rs. A `watch` channel is its number, with a record of the
--     channels that were signalled; a receiver is a copy of the number.
--   Sidecar/Server: src/server.rs. A connection plans by the table and subscribes afterwards; these, the
--     calls of Sidecar/Rpc, each of them one step, and the end of a connection are the constructors of
--     `Step`. What a connection is detected to be is given. HTTP/2 is left out.
--   Sidecar/Headers: src/otel_routing.rs. `Uuid::parse_str` is a parameter.
--   Sidecar/Rpc: src/rpc.rs. The handlers change the table and the registry together, in the order of
--     the source. A handler is one step: the locks that it takes one after another are not interleaved
--     with other handlers. Heartbeats and registration, which only call the manager, are left out.
--   The children Resolve, Devboxes, Branches, Ports, Signals, ServiceRoutes and DevboxRoutes hold proofs.
--
-- Dns: crates/cli/src/devbox/dns/ip_allocator.rs. Offsets are u16 and bytes u8 with their wrap-around
--   written out. Which member of the free pool `iter().next()` yields is the parameter `pick`, of which
--   `PickLaws` says that it yields a member, and nothing only on the empty set.
--
-- Watch: crates/kube-manager/src/watch_manager.rs.
--   Watch/Manager: the watched namespaces and the table of tasks. A task is its number in the order of
--     spawning, and `abort` is recorded. A request is one step.
--   Watch/Events: `build_event` and the loop of `watch_kind`, a fold over the stream of the API server.
--     An object is its name, its version and its YAML text. Sending over the RPC client is left out: the
--     events are the output.
--   Watch/Retry: the pauses of a watcher task, by the results of its runs.
--
-- Http: crates/kube-rpc/src/http_parser.rs, reading of a request head. The stream and the clock are
--   parameters; `ReaderLaws` says that a read yields no more bytes than it has room for. Every round of
--   the loop adds a byte, so 8193 rounds are enough for a buffer of 8192 bytes. The parser `httparse`
--   and the lookup of header values are left out.
--
-- Stun: crates/tunnel/src/direct/stun.rs, reading of an answer. A datagram is the list of its bytes.
--   Every round of the loop over attributes moves at least four bytes on, so the length of the message is
--   enough fuel. Sockets, timers and the keepalive task are left out.
--
-- Tunnel: crates/tunnel/src/message.rs, the messages that open a stream. A stream is the list of its
--   bytes, a `String` the list of its bytes with the test `is_utf8`.
--
-- Quota: crates/enterprise/src/quota.rs, which limit applies to a user and an organization and when a
--   request is refused. The table is the list of its rows in any order; what exists of a resource is
--   counted by the database and is a parameter.
--
-- SidecarManager: crates/kube-manager/src/sidecar_proxy_manager.rs and sidecar_proxy_manager_rpc.rs. The
--   manager is SidecarManager, what it remembers SidecarManager.Snapshots, what it sends
--   SidecarManager.Routes, a connection SidecarManager.Sessions. A client of a sidecar's RPC is a number;
--   `Cluster` holds the process that each open connection leads to and the processes, each a server of
--   Sidecar.Rpc, whose handlers a call runs. A call without an open connection fails. The API server is
--   the field `kube_cluster_rpc_client`, whose answers are a parameter. A message of an error is a
--   constructor of `Failure`. The 64-bit counter of generations wraps.
--
-- Scheduler: crates/conductor/src/scheduler.rs. What exists on a host and which of its cores are available
--   are in Scheduler, deciding on a host and picking its cores in Scheduler.Hosts. A table is the list of
--   its rows, and a query selects from it; which of two rows that are equal in all columns of an
--   `order_by` comes first is the order of the list. What `serde_json` reads from the column `cores` is
--   the parameter `from_str`, the order in which a `HashSet` yields its items the parameter `iterate`,
--   with `IterateLaws`: the items stay the same. Casts between `usize` and `i32` wrap.
--
-- Usage: crates/enterprise/src/usage.rs. A time is its number of nanoseconds, the table the list of its
--   rows. When a day or a month begins in a time zone is a parameter, as is the id of a new row.
--
-- Dispatch: crates/api/src/kube_controller/mod.rs and the registration in crates/kube/src/server.rs. The
--   connected managers of a cluster, in the order in which they connected, each with the `Cluster` of
--   SidecarManager behind it; a change of routes is an operation of SidecarManager.Routes.
--
-- Preview: crates/kube/src/preview_url.rs and http_proxy.rs, crates/api/src/kube_controller/preview_url.rs and
--   the queries of crates/db/src/api.rs that they use. The tables and links are in Preview, a request in
--   Preview.Requests. The random end of a name, decrypting a token, the members of an organization, the
--   parser of heads and the texts of `Uuid` are parameters. A head is a text; an answer with an error is
--   its kind.
--
-- Lifecycle: crates/conductor/src/server.rs, from the handlers of crates/api/src/workspace.rs. A call leaves
--   a task, and any order of calls and of the steps of tasks is a list of events. What a host answers, the
--   limits, the quotas, and what a machine type costs are given.
--
-- Not modelled: the rest of the API server and of the conductor, and the database layer, whose code is
--   mostly queries and calls of cloud services; the Kubernetes manager, the workspace service, the transports
--   of the tunnel, the dashboard and the proxies' sockets, which are mostly input and output over services
--   that are not part of the repository; the automatic stop and the licences.
pub mod Base
pub mod Dispatch
pub mod Dns
pub mod Http
pub mod Lifecycle
pub mod Net
pub mod Preview
pub mod Quota
pub mod Scheduler
pub mod Sidecar
pub mod SidecarManager
pub mod Stun
pub mod Tunnel
pub mod Usage
pub mod Watch
