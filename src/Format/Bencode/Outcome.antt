-- ===== src/Format/Bencode/Outcome.antt =====
-- The errors of the decoder. A `panics` is a slice whose start is behind its end.
use qvod_player.Prelude.{Option, none, some}
use qvod_player.Core.Error.{Message, QvodError}
use qvod_player.Core.Outcome.{Outcome, ok, err}

-- `ok_or_else`, with the message of a Bencode error.
abbrev pub or_err {ℓ} : {A : Type ℓ} → Option A → Message → Outcome A
or_err none m = err (QvodError.bencode m)
or_err (some a) m = ok a

abbrev pub fail {ℓ} : {A : Type ℓ} → Message → Outcome A
fail m = err (QvodError.bencode m)
