-- ===== src/Transport/Message/MsgId.antt =====
-- crates/qvs-transport/src/message.rs: `MsgId` and `MsgId::from_u8`.
use qvod_player.Prelude.{
  ℕ, ◌≡◌, ◌<◌, ◌↔◌, refl, sym, Bool, Option, none, some, arith, ◌==◌, if◌then◌else◌,
}

pub data MsgId : Type 0 where
  choke unchoke interested not_interested have bitfield request piece cancel port : MsgId
  suggest_piece have_all have_none reject_request allowed_fast : MsgId

-- `self.msg_id as u8`
unfoldable pub to_u8 : MsgId → ℕ
to_u8 choke = 0
to_u8 unchoke = 1
to_u8 interested = 2
to_u8 not_interested = 3
to_u8 have = 4
to_u8 bitfield = 5
to_u8 request = 6
to_u8 piece = 7
to_u8 cancel = 8
to_u8 port = 9
to_u8 suggest_piece = 13
to_u8 have_all = 14
to_u8 have_none = 15
to_u8 reject_request = 16
to_u8 allowed_fast = 17

unfoldable pub from_u8 : ℕ → Option MsgId
from_u8 v =
    if v == 0
    then some choke
    else if v == 1
    then some unchoke
    else if v == 2
    then some interested
    else if v == 3
    then some not_interested
    else if v == 4
    then some have
    else if v == 5
    then some bitfield
    else if v == 6
    then some request
    else if v == 7
    then some piece
    else if v == 8
    then some cancel
    else if v == 9
    then some port
    else if v == 13
    then some suggest_piece
    else if v == 14
    then some have_all
    else if v == 15
    then some have_none
    else if v == 16
    then some reject_request
    else if v == 17
    then some allowed_fast
    else none

-- `msg_id == other` on the fieldless enum.
unfoldable pub is : MsgId → MsgId → Bool
unfolding to_u8
is m other = to_u8 m == to_u8 other

pub from_u8-to_u8 : (m : MsgId) → from_u8 (to_u8 m) ≡ some m
unfolding from_u8 to_u8
from_u8-to_u8 choke = refl
from_u8-to_u8 _ = refl

pub to_u8_of_from_u8 : (v : ℕ) (m : MsgId) → from_u8 v ≡ some m → to_u8 m ≡ v
unfolding from_u8 to_u8
to_u8_of_from_u8 v m h = ground arith

pub to_u8-lt : (m : MsgId) → to_u8 m < 256
unfolding to_u8
to_u8-lt choke = omega arith
to_u8-lt _ = omega arith

-- An identifier byte is read as `m` exactly when it is the discriminant of `m`.
pub from_u8_iff : (v : ℕ) (m : MsgId) → (from_u8 v ≡ some m) ↔ (v ≡ to_u8 m)
from_u8_iff v m = (λ h. sym (to_u8_of_from_u8 v m h), λ e. rw e (from_u8-to_u8 m))
