-- ===== src/Core/Error.antt =====
-- crates/qvs-core/src/error.rs: `QvodError`, and the `Result` that the other crates return.
use qvod_player.Prelude.{ℕ, String, List, ◌≡◌, refl}

-- A formatted message: a literal, or a literal followed by a number, by bytes of the input, or by the
-- text of an error of a parse of a number, which is left out.
pub data Message : Type 0 where
  text : String → Message
  with_number : String → ℕ → Message
  with_bytes : String → List ℕ → Message
  with_parse_error : String → Message

pub data QvodError : Type 0 where
  network : Message → QvodError
  protocol : Message → QvodError
  metadata_parse : QvodError
  dht_timeout : QvodError
  dht_routing_failed : Message → QvodError
  tracker_timeout : QvodError
  tracker_protocol : Message → QvodError
  resource_not_found : List ℕ → QvodError
  no_peers : QvodError
  nat_failed : QvodError
  cache_full : QvodError
  cache_corrupted : Message → QvodError
  unsupported_format : Message → QvodError
  decode : Message → QvodError
  invalid_uri : Message → QvodError
  bencode : Message → QvodError
  piece_verification_failed : ℕ → List ℕ → List ℕ → QvodError
  connection_limit_reached : QvodError
  timeout : Message → QvodError
  cancelled : QvodError
  server : Message → QvodError

pub data Result {ℓ} (A : Type ℓ) : Type ℓ where
  ok : A → Result A
  err : QvodError → Result A

-- Rust's `?`.
infixl 5 ◌>>=◌
abbrev pub ◌>>=◌ {ℓ κ} : {A : Type ℓ} {B : Type κ} → Result A → (A → Result B) → Result B
ok a >>= f = f a
err e >>= f = err e

-- What a successful chain went through.
pub ok-of->>= {ℓ κ} :
    {A : Type ℓ} {B : Type κ} (m : Result A) (f : A → Result B) (b : B)
    → (m >>= f) ≡ ok b
    → (a : A) × (m ≡ ok a) × (f a ≡ ok b)
ok-of->>= (ok a) f b h = (a, refl, h)
ok-of->>= (err e) f b h = cc
