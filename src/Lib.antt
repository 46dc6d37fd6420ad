-- ===== src/Lib.antt =====
-- ggskit is a Go kit for game servers built from actors. This library models the code that decides
-- where an actor lives and which nodes exist, and proves what that code promises.
--
-- infra/actor/registry.go keeps one registration for each actor in Redis. Its five Lua scripts are
-- Actor/Registry/Scripts (registerActorScript is register_actor_script, and so on), programs over
-- the interface Redis, a record of the commands with laws on the item that a key holds;
-- Redis/Memory meets those laws. A script that fails keeps the writes it made. Actor/Registry/Runs
-- is a small program logic for scripts, Actor/Registry/View the abstract registration and the
-- promise of each call, and Scripts/Reading to Scripts/Promises prove that the scripts keep these
-- promises. The Go code around them is Actor/Registry/Config (defaults and checks), Cache (sync.Map
-- of locations, with the clock as an argument), Replies (decoding a reply), Calls (the five calls
-- over server and cache, with a connection that may be lost before or after the script runs) and
-- Stream (the consumer of the change stream, over the reads it made and the calls that use the
-- cache between them). Numbers of Lua are doubles, so lifetimes are at most 2 ^ 53 seconds; the
-- fields of older JSON texts are texts. Actor/Uid has the keys and payloads of actors, Strconv the
-- conversions of numbers that they use.
--
-- infra/actor/server_store.go is Actor/ServerStore: the server of an actor, with the invalidation
-- that processes send each other.
--
-- infra/actor/module.go is Actor/Modules: the registry of data modules and the container of an
-- actor, with its BSON. infra/actor/codec.go and payload.go are Actor/Codec: what is sent between
-- actors, over the payloads of Codec and an interface of buffers. infra/actor/service.go and
-- context.go are Actor/Sugar: calls, casts and replies over an interface of gactor.
-- infra/actor/actor.go has the same calls as the service.
--
-- infra/noderouter and infra/actor/router.go are Router, over an interface of the rendezvous
-- library.
--
-- base/codec is Codec (heads, packets, payloads over an interface of message types), base/protocol
-- is Protocol (the registry of message types), base/db/redis/dlock.go is Lock, base/crypto/aes is
-- Crypto: the padding, and in Modes the two modes over an interface of the ciphers.
--
-- infra/cluster/center.go is Cluster: Node (ids, keys, parsing), Config (the configuration and its
-- paths), Center (synchronisation, watch responses, backoff) and Lease (start, close, the lease and
-- the loop that keeps it alive, over an interface of etcd whose calls may be lost). Lease/Recovery
-- has that loop as a relation of steps, Center/Mirror and Center/Listener what the map of nodes
-- follows and what follows it. JSON is a parameter.
--
-- infra/mongobd is Background: Ops (the operations over an interface of the driver), the queues of
-- the workers, adding and stopping. Background/Order has callers and workers as a relation of
-- steps, and speaks of the records on the done channels. infra/monitor/probe is Probe: options,
-- initialisation, and the readiness of each policy. Its cache is read and written in one step for
-- each request; the code has no lock there.
--
-- Numbers of type int64 are integers; where the code adds to the clock the wrap-around is written
-- out. Times are nanoseconds. All recursions are on the structure of lists, but for the digits of a
-- number, whose fuel is the number itself, and the loop of normalizePath, whose fuel is the length
-- of the path: each of its rounds shortens it. Strings are lists of bytes.
--
-- Not modelled: the logger, the configuration files, tokens and RSA, which call other libraries,
-- the clients of Redis, MongoDB and etcd, timers and goroutines; concurrent callers are sequences
-- of calls, since each script is atomic and the cache is a concurrent map. Of the wrappers of
-- gactor and gcluster the rest only passes its arguments on.
--
-- Tests holds the theorems at concrete inputs.
pub mod Actor
pub mod Background
pub mod Cluster
pub mod Codec
pub mod Common
pub mod Crypto
pub mod Lock
pub mod Probe
pub mod Protocol
pub mod Redis
pub mod Router
pub mod Strconv
pub mod Tests
