-- ===== src/Dht/Node/Tests.antt =====
-- The theorems on nodes at concrete inputs.
use qvod_player.Prelude.{ℕ, ◌≡◌, ◌≢◌, ◌↔◌, refl, some, [], ◌∷◌, length, replicate, Bytes, arith}
use qvod_player.Core.Error.{Message, QvodError, err}
use qvod_player.Core.Peer.{SocketAddr}
use qvod_player.Dht.Table.Defs as Table
use qvod_player.Dht.Token.Defs.{TokenManager, generate_with_secret}
use qvod_player.Dht.Rpc.Defs.{MessageType, MessageHeader, ping, header_of, encode}
use qvod_player.Dht.Rpc.Message.{IsHead}
use qvod_player.Dht.Krpc.Defs.{handle_message}
use qvod_player.Dht.Krpc.Defs as Krpc
use qvod_player.Dht.Node.Defs.{DhtNode, new, announcement}
use qvod_player.Dht.Node.PingLoop.{own_id, exchange, exchange-some}
use qvod_player.Dht.Node.Announcement.{announcement-handle_message}

abbrev keep : Bytes → Bytes
keep s = s

abbrev no_text : Bytes → Bytes
no_text s = []

abbrev at_here : SocketAddr
at_here = record { ip = 10 ∷ 0 ∷ 0 ∷ 1 ∷ []; port = 21 }

abbrev at_there : SocketAddr
at_there = record { ip = 10 ∷ 0 ∷ 0 ∷ 2 ∷ []; port = 21 }

abbrev tokens : ℕ → TokenManager
tokens n = record { secret_a = n ∷ []; secret_b = 0 ∷ []; last_rotation = 0 }

abbrev here : DhtNode
here = new (replicate 20 7) (tokens 1) 0

abbrev there : DhtNode
there = new (replicate 20 9) (tokens 2) 0

abbrev head : MessageHeader
head = header_of MessageType.ping 7

head-IsHead : IsHead MessageType.ping head (replicate 20 7)
head-IsHead = record { standard = refl; txn_fits = omega arith; id_sized = refl }

here_sized : length (own_id here) ≡ 20
unfolding new Krpc.new Table.new
here_sized = refl

there_sized : length (own_id there) ≡ 20
unfolding new Krpc.new Table.new
there_sized = refl

exchange-some_example :
    (packet : Bytes) × (exchange keep no_text 5 here there at_here at_there
        (encode (ping head (replicate 20 7)))
      ≡ some packet)
exchange-some_example =
    exchange-some keep no_text 5 here there at_here at_there head (replicate 20 7) head-IsHead
      here_sized there_sized

announcement-handle_message_example :
    let token = generate_with_secret keep no_text at_there here.krpc.token_manager.secret_a in
    let m = there.krpc.token_manager in
    ((handle_message keep no_text there.krpc
        (announcement keep no_text here (replicate 20 3) 8621 at_there)
        at_here).1
      ≡ err (QvodError.protocol (Message.text "invalid announce token")))
    ↔ ((token ≢ generate_with_secret keep no_text at_here m.secret_a)
        × (token ≢ generate_with_secret keep no_text at_here m.secret_b))
announcement-handle_message_example =
    announcement-handle_message keep no_text here there (replicate 20 3) 8621 at_here at_there
