-- ===== src/Mesh/Frame.antt =====
-- `frame_message` and `read_message` of src/transport/unix_mesh.rs: length-prefixed frames.
-- A byte is a number below 256. A stream is the bytes that still arrive and the error that a read
-- past them gives (the end of the stream, or a timeout).
pub mod Laws
mod Tests
use glycoprotein_rs.Prelude.{
  ℕ, ◌+◌, ◌-◌, ◌*◌, ◌/◌, ◌%◌, ◌^◌, min, ◌≤◌, ◌<◌, ◌≡◌, List, [], ◌∷◌, ◌++◌, ◌||◌, length, take,
  drop, ltb, leb, if◌then◌else◌, All,
}
use glycoprotein_rs.Prelude.Text.{Str, text}
use glycoprotein_rs.Prelude.Decimal.{decimal_i32}
use glycoprotein_rs.Prelude.Result.{Result, ok, err, ◌>>=◌}
use glycoprotein_rs.Error.{GlycoError, IoError, invalid_data, frame_too_large}

abbrev pub i32_max : ℕ
i32_max = 2 ^ 31 - 1

-- DEFAULT_MAX_FRAME_LENGTH and MAX_HANDSHAKE_LENGTH
abbrev pub default_max_frame_length : ℕ
default_max_frame_length = 100_000_000

abbrev pub max_handshake_length : ℕ
max_handshake_length = 4_096

-- `i32::to_le_bytes` of a bit pattern
unfoldable pub to_le_bytes : ℕ → List ℕ
to_le_bytes w = w % 256 ∷ w / 2 ^ 8 % 256 ∷ w / 2 ^ 16 % 256 ∷ w / 2 ^ 24 % 256 ∷ []

-- `i32::from_le_bytes`, of four bytes
unfoldable pub from_le_bytes : List ℕ → ℕ
from_le_bytes (a ∷ b ∷ c ∷ d ∷ []) = a + b * 2 ^ 8 + c * 2 ^ 16 + d * 2 ^ 24
from_le_bytes _ = 0

unfoldable pub frame_message : List ℕ → ℕ → Result (List ℕ) GlycoError
frame_message payload max_frame_length =
    if ltb max_frame_length (length payload) || ltb i32_max (length payload)
    then err (frame_too_large (length payload) (min max_frame_length i32_max))
    else ok (to_le_bytes (length payload % 2 ^ 32) ++ payload)

pub record Stream : Type 0 where
  pub incoming : List ℕ
  pub ending : IoError

-- `Read::read_exact`: the bytes, and the stream behind them
unfoldable pub read_exact : ℕ → Stream → Result (List ℕ × Stream) IoError
read_exact n s =
    if leb n (length s.incoming)
    then ok (take n s.incoming, record s { incoming = drop n s.incoming })
    else err s.ending

unfoldable pub invalid_length : ℕ → IoError
unfolding decimal_i32
invalid_length w = record {
  kind = invalid_data;
  message = text "invalid message length: " ++ decimal_i32 w;
}

-- A pattern from 2 ^ 31 on is a negative length.
unfoldable pub read_message : ℕ → Stream → Result (List ℕ × Stream) IoError
read_message max_frame_length s = do
  (header, s') ← read_exact 4 s
  let w = from_le_bytes header
  if leb (2 ^ 31) w || ltb max_frame_length w then err (invalid_length w) else read_exact w s'

abbrev pub IsByte : ℕ → Type 0
IsByte b = b < 256
