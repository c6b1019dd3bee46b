-- ===== src/Mesh/Frame/Tests.antt =====
-- Runs of the frame functions, that of the source's own test among them.
use glycoprotein_rs.Mesh.Frame.Laws.{read_message_sound, read_message-frame_message}
use glycoprotein_rs.Prelude.Result.{err, ok}
use glycoprotein_rs.Prelude.Decimal.{digits_before, decimal, decimal_i32}
use glycoprotein_rs.Prelude.Text.{text}
use glycoprotein_rs.Mesh.Frame.{
  invalid_length, from_le_bytes, read_exact, to_le_bytes, read_message, frame_message,
}
use glycoprotein_rs.Prelude.{arith, ◌++◌, ◌∷◌, [], refl, ◌≡◌, ℕ, List}
use glycoprotein_rs.Error.{frame_too_large, ErrorKind, IoError}

abbrev eof : IoError
eof = record { kind = ErrorKind.unexpected_eof; message = text "failed to fill whole buffer" }

abbrev hello_frame : List ℕ
hello_frame = 5 ∷ 0 ∷ 0 ∷ 0 ∷ text "hello"

frame_message_hello : frame_message (text "hello") 100 ≡ ok hello_frame
unfolding frame_message to_le_bytes
frame_message_hello = refl

frame_message_long : frame_message (text "hello") 4 ≡ err (frame_too_large 5 4)
unfolding frame_message to_le_bytes
frame_message_long = refl

read_message_negative :
    read_message 100 (record { incoming = 255 ∷ 255 ∷ 255 ∷ 255 ∷ []; ending = eof })
    ≡ err (record { kind = ErrorKind.invalid_data; message = text "invalid message length: -1" })
unfolding read_message read_exact from_le_bytes invalid_length decimal_i32 decimal digits_before
read_message_negative = refl

read_message_hello :
    read_message 100 (record { incoming = hello_frame ++ text "x"; ending = eof })
    ≡ ok (text "hello", record { incoming = text "x"; ending = eof })
unfolding read_message read_exact from_le_bytes
read_message_hello = refl

read_message-frame_message_example :
    read_message 100 (record { incoming = hello_frame ++ text "x"; ending = eof })
    ≡ ok (text "hello", record { incoming = text "x"; ending = eof })
read_message-frame_message_example =
    read_message-frame_message (text "hello") hello_frame (text "x") 100 eof frame_message_hello

read_message_sound_example :
    (frame : List ℕ) × (frame_message (text "hello") 100 ≡ ok frame)
    × (hello_frame ++ text "x" ≡ frame ++ text "x")
    × (eof ≡ eof)
read_message_sound_example =
    read_message_sound 100 (record { incoming = hello_frame ++ text "x"; ending = eof })
      (record { incoming = text "x"; ending = eof }) (text "hello") (omega arith) read_message_hello
