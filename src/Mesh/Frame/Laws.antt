-- ===== src/Mesh/Frame/Laws.antt =====
-- What the two ends of a socket promise each other about frames.
use glycoprotein_rs.Prelude.{
  ◌∙◌, ap, inl, inr, ℕ, ◌^◌, ◌≤◌, ◌<◌, ◌≡◌, List, ◌∷◌, ◌++◌, length, take, All, arith,
  take-append-drop, take-length-append, drop-length-append, length-append, length-take,
}
use mathlib.Core.List.{append_assoc}
use glycoprotein_rs.Prelude.Result.{Result-cases, ok}
use glycoprotein_rs.Error.{IoError}
use glycoprotein_rs.Mesh.Frame.{
  Stream, IsByte, i32_max, to_le_bytes, from_le_bytes, frame_message, read_exact, read_message,
}

from-to_le_bytes : (w : ℕ) → w < 2 ^ 32 → from_le_bytes (to_le_bytes w) ≡ w
unfolding from_le_bytes to_le_bytes
from-to_le_bytes w h = omega arith

pub frame_message_cases :
    (payload : List ℕ) (m : ℕ) (frame : List ℕ)
    → frame_message payload m ≡ ok frame
    → (length payload ≤ m)
      × (length payload ≤ i32_max)
      × (frame ≡ to_le_bytes (length payload) ++ payload)
unfolding frame_message
frame_message_cases payload m frame h = ground arith

pub read_exact-append :
    (xs ys : List ℕ) (e : IoError)
    → read_exact (length xs) (record { incoming = xs ++ ys; ending = e })
      ≡ ok (xs, record { incoming = ys; ending = e })
unfolding read_exact
read_exact-append xs ys e =
    ground (arith, length-append xs ys, take-length-append xs ys, drop-length-append xs ys)

read_header :
    (w : ℕ) (xs : List ℕ) (e : IoError)
    → read_exact 4 (record { incoming = to_le_bytes w ++ xs; ending = e })
      ≡ ok (to_le_bytes w, record { incoming = xs; ending = e })
unfolding to_le_bytes
read_header w xs e = read_exact-append (to_le_bytes w) xs e

-- Whatever follows a frame on the stream, the reader takes the payload and leaves the rest.
pub read_message-frame_message :
    (payload frame rest : List ℕ) (m : ℕ) (e : IoError)
    → frame_message payload m ≡ ok frame
    → read_message m (record { incoming = frame ++ rest; ending = e })
      ≡ ok (payload, record { incoming = rest; ending = e })
unfolding read_message
read_message-frame_message payload frame rest m e h =
    let c = frame_message_cases payload m frame h in
    rw (c.2, append_assoc, read_header (length payload) (payload ++ rest) e)
      (ground (arith, c, from-to_le_bytes (length payload), read_exact-append payload rest e))

frame_message_fits :
    (payload : List ℕ) (m : ℕ)
    → length payload ≤ m
    → length payload ≤ i32_max
    → frame_message payload m ≡ ok (to_le_bytes (length payload) ++ payload)
unfolding frame_message
frame_message_fits payload m h k = ground arith

take_four :
    (xs : List ℕ)
    → 4 ≤ length xs
    → All IsByte xs
    → (take 4 xs ≡ to_le_bytes (from_le_bytes (take 4 xs))) × (from_le_bytes (take 4 xs) < 2 ^ 32)
unfolding to_le_bytes from_le_bytes
take_four (a ∷ b ∷ c ∷ d ∷ xs) h bytes = ground arith
take_four _ h bytes = absurd (omega arith)

pub read_exact_cases :
    (n : ℕ) (s s' : Stream) (xs : List ℕ)
    → read_exact n s ≡ ok (xs, s')
    → (n ≤ length s.incoming)
      × (length xs ≡ n)
      × (xs ≡ take n s.incoming)
      × (s.incoming ≡ xs ++ s'.incoming)
      × (s'.ending ≡ s.ending)
unfolding read_exact
read_exact_cases n s s' xs h =
    ground (arith, length-take n s.incoming, take-append-drop n s.incoming)

-- The read that `read_message` made, from its success.
read_message_inv :
    (m : ℕ) (s s' : Stream) (payload : List ℕ)
    → read_message m s ≡ ok (payload, s')
    → (header : List ℕ) × (body : Stream) × (read_exact 4 s ≡ ok (header, body))
      × (from_le_bytes header < 2 ^ 31)
      × (from_le_bytes header ≤ m)
      × (read_exact (from_le_bytes header) body ≡ ok (payload, s'))
unfolding read_message
read_message_inv m s s' payload h = elim (Result-cases (read_exact 4 s)) [
  | inl ((header, body), e) ↦ (header, body, e, ground arith, ground arith, ground arith)
  | inr (x, e) ↦ ground arith
]

-- The reader accepts only what the writer of a peer with the same limit makes.
pub read_message_sound :
    (m : ℕ) (s s' : Stream) (payload : List ℕ)
    → All IsByte s.incoming
    → read_message m s ≡ ok (payload, s')
    → (frame : List ℕ) × (frame_message payload m ≡ ok frame)
      × (s.incoming ≡ frame ++ s'.incoming)
      × (s'.ending ≡ s.ending)
read_message_sound m s s' payload bytes h =
    let (header, body, e, small, fits, rest) = read_message_inv m s s' payload h in
    let head = read_exact_cases 4 s body header e in
    let tail = read_exact_cases (from_le_bytes header) body s' payload rest in
    let four = take_four s.incoming head.0 bytes in
    let header_bytes : header ≡ to_le_bytes (length payload) = rw (tail.1, head.2) (four.0) in
    (
      to_le_bytes (length payload) ++ payload,
      frame_message_fits payload m (omega (arith, tail.1)) (omega (arith, tail.1)),
      rw (← header_bytes, append_assoc) (rw head.3 (ap (◌++◌ header) tail.3)),
      tail.4 ∙ head.4,
    )
