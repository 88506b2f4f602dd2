-- ===== src/Lib.antt =====
-- A model of the Qvod P2SP media player: the peer wire protocol, the ring buffer behind the player,
-- the scheduler of pieces, the pool of connections, the DHT node, the formats of the metadata and the cache,
-- and the data structures they share.
--
-- The parts, and the files that model them:
--   Core: crates/qvs-core. `Error` is QvodError and Result (src/error.rs); `Outcome` is what a call that
--     can panic comes to; `Hex` is hex_encode and hex_decode, and `SimpleBencode` the second Bencode
--     decoder (src/util.rs); `InfoHash` is the text of a hash, `Bitfield` is Bitfield and its iterator,
--     and `NodeId` the identifiers and their distance (src/types.rs); `Meta` is FileMeta and
--     PiecePriority, with KeyFrameIndex in `Meta/Keyframes` (src/types.rs); `Peer` and `HashMap` are the
--     addresses and the maps that the others share.
--   Transport: crates/qvs-transport. `Message` is PeerMessage with its encoding (src/message.rs): the
--     identifiers in `MsgId`, the methods in `Parse`. `PeerWire` is PeerWireProtocol
--     (src/peer_wire.rs): the record and its methods in `State`, sequences of calls in `Machine`.
--     `Scheduler` is PieceScheduler (src/scheduler.rs), `Handshake` is Handshake (src/handshake.rs),
--     `Pool` is ConnectionPool with its connections (src/pool.rs).
--   Stream: crates/qvs-stream. `Buffer` is RingBuffer (src/buffer.rs): the set of filled ranges in
--     `Ranges`, the buffer itself in `Defs`. `Seek` is SeekEngine (src/seek.rs), and `Playback` is
--     MediaStream with its statistics (src/playback.rs).
--   Media: crates/qvs-media. `Sync` is AudioVideoSync (src/sync.rs).
--   Server: crates/qvs-local-server. `Range` is RangeHeader (src/range.rs), on lists of code points.
--   Dht: crates/qvs-dht. `Bucket` is KBucket and `Table` is RoutingTable (src/routing.rs). `Rpc` is
--     DhtMessage with its encoding in `Defs` and its decoding in `Decode` (src/rpc.rs), `Token` is
--     TokenManager (src/token.rs), `Krpc` is KademliaRpc (src/krpc.rs), with its answers in `Defs` and
--     its search for peers in `Search` and `Lookup`, and `Node` the loop of DhtNode that reads and answers
--     packets (src/node.rs).
--   Format: crates/qvs-format. `Bencode` is BencodeValue (src/bencode.rs): the values and their encoding
--     in `Defs`, the decoder in `Decode`. `QvsFile` is QvsFile (src/qvs_file.rs), `Uri` is QvodUri and
--     MediaUri (src/uri.rs), and `Cache` the index of CacheManager (src/cache.rs).
-- Each definition has the name of the method that it models, in the module of its type; a method with
-- `&mut self` returns the new record. A peer connection receives the messages that the codec decodes;
-- the routing table keeps its entries in buckets; a bit field is the payload of a Bitfield message; the
-- scheduler reads the bit fields of the peers; the seek engine asks the key frame index; a DHT node decodes
-- a packet, asks KademliaRpc, and encodes the answer.
--
-- Numbers are natural numbers, with the wrap-around of a fixed width written out as a remainder where
-- the code can overflow. A byte buffer is a list of numbers. The BTreeSet of filled ranges is a list in
-- the order of the set. Times are numbers of nanoseconds, and the time of a call is an argument.
-- Loops recur on the list or on the rounds left; the iterator of a bit field runs on fuel, and needs one
-- call more than there are pieces. The Bencode decoder runs on fuel too: twice the bytes and one more are
-- enough, since each call takes a byte and each round of a loop two. SHA-1 and the text of an IP address
-- are parameters; random secrets are arguments. The search of the DHT takes the socket as a parameter, and
-- has eight rounds.
--
-- Left out: the methods that hand out a mutable reference (get_peer_mut, get_congestion_mut,
-- all_connections_mut, stats_mut) and what is written through one, the flow and scope of an IPv6 address,
-- the floating-point answers (completion, filled_percentage, buffered_duration), logging,
-- congestion control, the tracker, the timers of the DHT, the streaming engine, sockets, files, threads, the
-- media backends and the graphical interface. Some are calls of libraries; the tracker, the range
-- arithmetic of P2SP and the playlists are left for later.
pub mod Prelude
pub mod Core
pub mod Transport
pub mod Format
pub mod Media
pub mod Server
pub mod Stream
pub mod Dht
