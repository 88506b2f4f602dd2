-- ===== src/Dht/Krpc/Tests.antt =====
-- The theorems on the answers of a node at concrete inputs.
use qvod_player.Prelude.{
  Bool, ◌+◌, ℕ, ◌≤◌, ◌*◌, Option, none, ◌<◌, ◌≡◌, refl, print, true, false, ◌&&◌, [], ◌∷◌, ◌++◌,
  map, ltb, if◌then◌else◌, length, replicate, Bytes, arith,
}
use qvod_player.Core.Error.{Message, QvodError, err}
use qvod_player.Core.NodeId.{same_id}
use qvod_player.Core.Peer.{SocketAddr}
use qvod_player.Dht.Table.Defs.{RoutingTable}
use qvod_player.Dht.Token.Defs.{TokenManager, verify_token, generate_token}
use qvod_player.Dht.Token.Defs as Token
use qvod_player.Dht.Rpc.Defs.{
  MessageType, MessageHeader, DhtMessage, announce, announce_response, find_peers,
  find_peers_response, peers, header_of,
}
use qvod_player.Dht.Krpc.Defs.{
  KademliaRpc, new, handle_message, get_peers, announced, answer, answer_header, compact,
}
use qvod_player.Dht.Krpc.Announce.{handle_message-announce, find_peers-announce}
use qvod_player.Dht.Bucket.Defs.{Entries}
use qvod_player.Dht.Krpc.Search.{Search, any_addr, query_all, search, to_query}
use qvod_player.Dht.Krpc.Search.Once.{Once, search-Once}
use qvod_player.Dht.Krpc.Search.Bound.{of, length-search}
use qvod_player.Dht.Krpc.Limit.{IsLimited, run, run-IsLimited}

abbrev keep : Bytes → Bytes
keep s = s

abbrev no_text : Bytes → Bytes
no_text s = []

abbrev sender : SocketAddr
sender = record { ip = 10 ∷ 0 ∷ 0 ∷ 1 ∷ []; port = 21 }

abbrev table : RoutingTable
table = record { local_id = replicate 20 7; buckets = [] }

abbrev tokens : TokenManager
tokens = record { secret_a = 1 ∷ 2 ∷ []; secret_b = 3 ∷ 4 ∷ []; last_rotation = 0 }

abbrev node : KademliaRpc
node = new table tokens

abbrev token : Bytes
token = b':' ∷ b'2' ∷ b'1' ∷ b':' ∷ []

abbrev hash : Bytes
hash = replicate 20 3

abbrev head : MessageHeader
head = header_of MessageType.announce 7

abbrev message : DhtMessage
message = announce head (replicate 20 1) hash token 8621

accepted : verify_token keep no_text node.token_manager sender token ≡ true
unfolding verify_token generate_token Token.generate_with_secret new same_id print
accepted = refl

handle_message-announce_example :
    let (t, a) = handle_message keep no_text node message sender in
    (verify_token keep no_text node.token_manager sender token ≡ false
      → (t ≡ node) × (a ≡ err (QvodError.protocol (Message.text "invalid announce token"))))
    × (verify_token keep no_text node.token_manager sender token ≡ true
        → (a ≡ answer (announce_response (answer_header head) node.routing_table.local_id))
          × (t.routing_table ≡ node.routing_table)
          × (get_peers t hash ≡ (
              if same_id hash hash && ltb (length (get_peers node hash)) 50
              then get_peers node hash ++ announced sender 8621 ∷ []
              else get_peers node hash)))
handle_message-announce_example =
    handle_message-announce keep no_text node head (replicate 20 1) hash token hash 8621 sender

abbrev question : MessageHeader
question = header_of MessageType.find_peers 8

no_peers_yet : length (get_peers node hash) < 50
unfolding get_peers new
no_peers_yet = omega arith

find_peers-announce_example :
    let t = (handle_message keep no_text node message sender).0 in
    (handle_message keep no_text t (find_peers question (replicate 20 1) hash) sender).1
    ≡ answer (
        find_peers_response
          (answer_header question)
          node.routing_table.local_id
          (peers (map compact (get_peers node hash) ++ compact (announced sender 8621) ∷ [])))
find_peers-announce_example =
    find_peers-announce keep no_text node head question (replicate 20 1) (replicate 20 1) hash token
      8621 sender sender accepted no_peers_yet

run-IsLimited_example :
    IsLimited table tokens (run keep no_text (new table tokens) ((message, sender) ∷ []))
run-IsLimited_example = run-IsLimited keep no_text table tokens ((message, sender) ∷ [])

-- A search that asks one node, and gets no answer.
abbrev silent : ℕ → SocketAddr → Option (Bytes × ℕ)
silent n addr = none

abbrev neighbours : Entries
neighbours =
    record {
      node_id = replicate 20 9;
      addr = sender;
      last_seen = 0;
      latency = 0;
      is_firewalled = false;
    }
    ∷ []

length-search_example :
    (length (of (search silent neighbours 3 hash)).asked ≤ 8 * 3)
    × ((any : Bool) (s : Search)
        → length (of (query_all silent (to_query silent 3 s) any s)).asked ≤ length s.asked + 3)
length-search_example = length-search silent neighbours 3 hash

search-Once_example : Once (of (search silent neighbours 3 hash)).asked
search-Once_example = search-Once silent neighbours 3 hash (unfold any_addr in (refl, tt))
