-- ===== src/Lib.antt =====
-- A model of Canopee, a peer-to-peer network of signed, content-addressed objects, and its
-- theorems.
--
-- The program's parts, and the files that model them:
-- - crates/canopee-identity/src/identity.rs: an identity is named after its public key. Identity
--   has `from_keypair`, `sign`, `verify`.
-- - crates/canopee-storage: objects carry the digest of their payload as their id and a signature
--   (Storage/Object for object.rs and object_id.rs); they are files of a directory (Storage/Store
--   for storage.rs, whose writes are the sequences of file operations of Storage/Store/Files); an
--   owner names them by signed pointers (Storage/Pointer for pointer.rs), lets others use them by
--   capabilities (Storage/Capability for capability.rs and for the operations on the index and
--   the checks of canopee-runtime/src/capabilities.rs) and keeps the objects of others in a cache
--   (Storage/Cache for cache.rs). Storage/Types has the records of object.rs, pointer.rs, user.rs
--   and export_bundle.rs.
-- - crates/canopee-runtime: the node. Runtime/Node has the state that serving, sharing and
--   evicting touch, as a record: the directory, the cache index with its sidecar file, the set of
--   shared ids and the list of calls of the network. Its `get_object` and `store_object` are the
--   two methods of StorageObjectProvider in lib.rs, `import_bundle` and `evict` are methods of
--   Runtime, and `reconcile_shared` is that of sharing.rs. `evict_if_over_cap` is the sweep of
--   crates/canopee-node/src/lib.rs. Runtime/SharedSet is the set of ids.
-- - The rest of the runtime stands on the same node. Runtime/Network has the answers of the
--   network as a record, Runtime/Fetching is `fetch_object` of sharing.rs, Runtime/Records the
--   pointer records of records.rs and their cache (an `Account` is a node with that cache),
--   Runtime/Owned what an owner keeps under a name: profile, contacts, home index and user name,
--   Runtime/Devices the device list over the lists of Runtime/DeviceLists, Runtime/Syncing is
--   sync.rs, Runtime/Sealing puts, reads and concatenates encrypted objects as lib.rs does, and
--   Runtime/Pairing is pairing.rs, from the request of one device to the disk of the other.
-- - crates/canopee-identity/src/envelope.rs and pairing.rs: Identity/Envelope has envelopes for
--   several recipients and Identity/Pairing the codes and payloads of pairing.
-- - crates/canopee-edge/src/httpd.rs: Edge/Httpd has the requests of browsers, their relay and
--   the responses.
-- - crates/canopee-runtime/src/http.rs: how the file of an app answers a request (Http, with
--   Http/Range for `parse_range` and Http/Media for media types).
-- - crates/canopee-gateway: Gateway/Frame has the WebSocket frames of ws.rs, Gateway/Commands the
--   loop that reads a command, Gateway/Request the reading of a request's head, Gateway/Handshake
--   the requests that are admitted, and Gateway/Token the session token of lib.rs.
-- - crates/canopee-edge/src/registry.rs and ServeRegistration of
--   crates/canopee-network/src/message.rs: the edge maps subdomains to the peers that publish
--   apps (Edge/Registration, Edge/Registry).
--
-- Operations that change state take the state and return it, with an error where the code returns
-- one. Bytes and texts are lists of numbers, a text being the bytes of its UTF-8, and a map is an
-- association list. The times of clocks are arguments.
--
-- Platform is the interface to what the program calls and does not implement: keys and signatures
-- of libp2p, SHA-256 with hex, and bincode, with the laws that those document. Identity/Crypto is
-- the one to X25519, HKDF and XChaCha20-Poly1305, and the answers of peers and of the DHT are the
-- fields of a Network. Compression is an argument of the responses, the readers of JSON and of
-- UTF-8 with losses are arguments of the gateway, and the network's answer an argument of the
-- registry. Examples applies the results below to concrete inputs, over Examples/Toy, a platform
-- of small functions with the laws.
--
-- Bounds and fuel: sums of sizes are taken modulo 2 ^ 64. The sweep runs on fuel, one round for
-- each entry of the cache and one more, which suffices because each round removes an entry; so do
-- the loops that read a command and the headers of a request, whose rounds each take a byte at
-- least of a finite input, and the loop of a connection of the edge, whose rounds each take a
-- line.
--
-- Not modelled: key files and their encryption, random codes, the swarm and its events, serve
-- sessions, the gateway's commands, the command line, the SDK and the configuration; timeouts,
-- locks and tasks that run at the same time, except that the program may stop between the file
-- operations of a write or in the middle of one; errors of the file system other than a missing
-- file and the failing writes of pairing.
pub mod Prelude
pub mod Platform
pub mod Identity
pub mod Storage
pub mod Http
pub mod Runtime
pub mod Edge
pub mod Gateway
pub mod Examples
