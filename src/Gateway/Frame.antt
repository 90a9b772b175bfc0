-- ===== src/Gateway/Frame.antt =====
-- Frames of crates/canopee-gateway/src/ws.rs. The input is what the stream still delivers before it
-- ends, a list of bytes below 256.
pub mod Bits
pub mod Reading
use canopee.Prelude.{
  ℕ, zero, suc, ◌+◌, ◌-◌, ◌*◌, ◌/◌, ◌%◌, Bytes, Bool, true, false, ◌||◌, Option, none, some, [],
  ◌∷◌, ◌++◌, Result, ok, err, guard, protocol_error, ◌>>=◌, ◌>>◌, length, take, drop, ltb, leb,
  ◌==◌, if◌then◌else◌,
}
use canopee.Gateway.Frame.Bits.{xor, to_be_bytes, from_be_bytes}

pub data Frame : Type 0 where
  data_frame ping pong : Bytes → Frame
  close : Option ℕ → Frame

abbrev pub max_message_bytes : ℕ
max_message_bytes = 16_777_216

unfoldable pub read_exact : ℕ → Bytes → Result (Bytes × Bytes)
read_exact n s = if leb n (length s) then ok (take n s, drop n s) else err protocol_error

abbrev number_of : Bytes × Bytes → ℕ × Bytes
number_of q = (from_be_bytes q.0, q.1)

-- The length of the payload, after the second byte.
unfoldable pub frame_length : ℕ → Bytes → Result (ℕ × Bytes)
frame_length b1 s =
    if b1 % 0x80 == 126
    then (read_exact 2 s >>= λ q. ok (number_of q))
    else if b1 % 0x80 == 127
    then (read_exact 8 s >>= λ q. ok (number_of q))
    else ok (b1 % 0x80, s)

unfoldable pub read_mask : Bool → Bytes → Result (Bytes × Bytes)
read_mask false s = ok (0 ∷ 0 ∷ 0 ∷ 0 ∷ [], s)
read_mask true s = read_exact 4 s

-- The byte at an index; a mask has four, and the index is below four.
unfoldable pub byte_at : Bytes → ℕ → ℕ
byte_at [] i = 0
byte_at (b ∷ s) zero = b
byte_at (b ∷ s) (suc i) = byte_at s i

-- `payload[i] ^= mask[i & 3]` from the index `i` on.
unfoldable pub unmask : Bytes → ℕ → Bytes → Bytes
unmask mask i [] = []
unmask mask i (b ∷ s) = xor b (byte_at mask (i % 4)) ∷ unmask mask (suc i) s

unfoldable pub close_reason : Bytes → Option ℕ
close_reason [] = none
close_reason (a ∷ []) = none
close_reason (a ∷ b ∷ s) = some (from_be_bytes (a ∷ b ∷ []))

-- The frame of an opcode, of the last flag and of a payload.
unfoldable pub frame_of : ℕ → Bool → Bytes → Result Frame
frame_of opcode fin payload =
    if opcode == 1 || opcode == 2
    then (if fin then ok (data_frame payload) else err protocol_error)
    else if opcode == 0
    then err protocol_error
    else if opcode == 9
    then ok (ping payload)
    else if opcode == 10
    then ok (pong payload)
    else if opcode == 8
    then (if fin then ok (close (close_reason payload)) else err protocol_error)
    else err protocol_error

-- What follows the length of the payload.
unfoldable pub read_body : ℕ → Bool → ℕ × Bytes → Result (Option Frame × Bytes)
read_body b0 masked sized = do
  guard (leb sized.0 max_message_bytes) protocol_error
  keyed ← read_mask masked sized.1
  body ← read_exact sized.0 keyed.1
  frame ← frame_of (b0 % 16) (leb 0x80 b0) (if masked then unmask keyed.0 0 body.0 else body.0)
  ok (some frame, body.1)

-- What follows the first two bytes.
unfoldable pub read_rest : ℕ → ℕ → Bytes → Result (Option Frame × Bytes)
read_rest b0 b1 s = do
  guard (b0 / 16 % 8 == 0) protocol_error
  sized ← frame_length b1 s
  read_body b0 (leb 0x80 b1) sized

unfoldable pub read_frame : Bytes → Result (Option Frame × Bytes)
read_frame [] = ok (none, [])
read_frame (b0 ∷ []) = err protocol_error
read_frame (b0 ∷ b1 ∷ s) = read_rest b0 b1 s

-- The length field; `flag` is the bit of the second byte that says that the payload is masked.
unfoldable pub length_field : ℕ → ℕ → Bytes
length_field flag n =
    if ltb n 126
    then (flag + n) ∷ []
    else if leb n 0xffff
    then (flag + 126) ∷ to_be_bytes 2 n
    else (flag + 127) ∷ to_be_bytes 8 n

unfoldable pub write_frame : ℕ → Bytes → Bytes
unfolding length_field
write_frame opcode payload = (0x80 + opcode) ∷ (length_field 0 (length payload) ++ payload)

abbrev reason_bytes : Option ℕ → Bytes
reason_bytes none = []
reason_bytes (some code) = to_be_bytes 2 code

unfoldable pub write_close : Option ℕ → Bytes
unfolding write_frame
write_close reason = write_frame 8 (reason_bytes reason)
