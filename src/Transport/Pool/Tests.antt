-- ===== src/Transport/Pool/Tests.antt =====
-- The pool theorems at concrete inputs, with numbers for addresses, speeds and congestion controls.
use qvod_player.Prelude.{ℕ, ◌*◌, ◌^◌, ◌≤◌, min, false, none, List, [], ◌∷◌}
use qvod_player.Core.Peer.{PeerInfo}
use qvod_player.Transport.Pool.Defs.{ConnectionPool, new}
use qvod_player.Transport.Pool.Keys.{keys, Distinct}
use qvod_player.Transport.Pool.Limit.{Call, adding, run, IsPooled, run-IsPooled}

abbrev peer : ℕ → PeerInfo ℕ
peer n = record {
  peer_id = n ∷ [];
  addr = n;
  is_firewalled = false;
  bw_up = 0;
  bw_down = 0;
  location = none;
  latency = 0;
}

abbrev calls : List (Call ℕ)
calls =
    adding (peer 4) 0 0 ∷ adding (peer 5) (200 * 10 ^ 9) (200 * 10 ^ 9) ∷ adding (peer 6) 0 0 ∷ []

abbrev two_peers : ConnectionPool ℕ ℕ ℕ
two_peers = run 0 0 (new 2) calls

run-IsPooled_example : (min 2 50 ≤ 50) × IsPooled (min 2 50) two_peers
run-IsPooled_example = run-IsPooled 0 0 2 calls

two_peers-Distinct : Distinct (keys two_peers.connections)
two_peers-Distinct = (run-IsPooled 0 0 2 calls).1.distinct
