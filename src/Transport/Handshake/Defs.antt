-- ===== src/Transport/Handshake/Defs.antt =====
-- crates/qvs-transport/src/handshake.rs: the record, `new`, `encode`, `decode` and `verify`.
use Prim.Native.Nat.{bit_and, bit_or}
use qvod_player.Prelude.{
  ascii, ◌+◌, Bool, true, not, ltb, ◌==◌, if◌then◌else◌, length, get_or, set, slice, replicate,
  overwrite, Bytes,
}
use qvod_player.Core.Error.{Message, QvodError, Result, ok, err}
use qvod_player.Core.NodeId.{same_id as same_bytes}

pub record Handshake : Type 0 where
  pub info_hash : Bytes
  pub peer_id : Bytes
  pub reserved : Bytes
  pub supports_metadata : Bool

abbrev pub handshake_protocol : Bytes
handshake_protocol = ascii "Qvod P2SP Protocol"

unfoldable pub new : Bytes → Bytes → Handshake
new info_hash peer_id = record {
  info_hash = info_hash;
  peer_id = peer_id;
  reserved = set (replicate 8 0) 5 (bit_or 0 0x10);
  supports_metadata = true;
}

-- The buffer is filled in place, part by part.
unfoldable pub encode : Handshake → Bytes
encode h =
    let pstr = handshake_protocol in
    let total_len = 1 + length pstr + 8 + 20 + 20 in
    let off = 1 + length pstr in
    let b0 = set (replicate total_len 0) 0 (length pstr) in
    let b1 = overwrite b0 1 pstr in
    let b2 = overwrite b1 off h.reserved in
    let b3 = overwrite b2 (off + 8) h.info_hash in overwrite b3 (off + 8 + 20) h.peer_id

-- `(reserved[5] & 0x10) != 0`
abbrev pub has_flag : Bytes → Bool
has_flag reserved = not (bit_and (get_or reserved 5 0) 0x10 == 0)

abbrev fail {ℓ} : {A : Type ℓ} → Message → Result A
fail m = err (QvodError.protocol m)

unfoldable pub decode : Bytes → Result Handshake
decode bs =
    if ltb (length bs) 2
    then fail (Message.text "handshake too short")
    else let n = get_or bs 0 0 in
      if ltb (length bs) (1 + n + 8 + 20 + 20)
      then fail (Message.text "handshake truncated")
      else if not (same_bytes (slice bs 1 (1 + n)) handshake_protocol)
      then fail (Message.with_bytes "unexpected protocol: " (slice bs 1 (1 + n)))
      else let reserved = slice bs (1 + n) (1 + n + 8) in
        ok (record {
          info_hash = slice bs (1 + n + 8) (1 + n + 8 + 20);
          peer_id = slice bs (1 + n + 8 + 20) (1 + n + 8 + 20 + 20);
          reserved = reserved;
          supports_metadata = has_flag reserved;
        })

unfoldable pub verify : Handshake → Bool
verify h = bit_and (get_or h.reserved 5 0) 0x10 == 0x10
