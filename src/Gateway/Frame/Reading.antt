-- ===== src/Gateway/Frame/Reading.antt =====
-- What `read_frame` of crates/canopee-gateway/src/ws.rs makes of well-formed frames.
use canopee.Prelude.{
  take-append_self, drop-append_self, ℕ, suc, ◌+◌, ◌/◌, ◌%◌, ◌^◌, ◌≤◌, ◌<◌, ◌≡◌, refl, ◌∙◌, ap,
  Bytes, Bool, true, false, some, [], ◌∷◌, ◌++◌, ok, arith, length, length-append, ltb, leb, ◌==◌,
  All, Bool-cases, inl, inr,
}
use mathlib.Core.List.{append_assoc}
use canopee.Gateway.Frame.Bits.{
  xor_self, to_be_bytes, from_be_bytes-to_be_bytes, length-to_be_bytes,
}
use canopee.Gateway.Frame.{
  Frame, max_message_bytes, read_exact, frame_length, read_mask, byte_at, unmask, frame_of,
  read_body, read_rest, read_frame, length_field, write_frame,
}

fits : (b s : Bytes) → leb (length b) (length (b ++ s)) ≡ true
fits b s = ground (arith, length-append b s)

read_exact-append : (n : ℕ) (b s : Bytes) → length b ≡ n → read_exact n (b ++ s) ≡ ok (b, s)
unfolding read_exact
read_exact-append n b s h = rw (← h, take-append_self b s, drop-append_self b s, fits b s)

-- The bit that says that a payload is masked.
abbrev pub flag_of : Bool → ℕ
flag_of false = 0
flag_of true = 0x80

frame_length-short :
    (masked : Bool) (n : ℕ) (s : Bytes) → n < 126 → frame_length (flag_of masked + n) s ≡ ok (n, s)
unfolding frame_length
frame_length-short false n s h = ground arith
frame_length-short true n s h = ground arith

frame_length-medium :
    (masked : Bool) (n : ℕ) (s : Bytes)
    → n < 256 ^ 2
    → frame_length (flag_of masked + 126) (to_be_bytes 2 n ++ s) ≡ ok (n, s)
unfolding frame_length
frame_length-medium false n s h = rw (
  read_exact-append 2 (to_be_bytes 2 n) s (length-to_be_bytes 2 n),
  from_be_bytes-to_be_bytes 2 n h,
)
frame_length-medium true n s h = rw (
  read_exact-append 2 (to_be_bytes 2 n) s (length-to_be_bytes 2 n),
  from_be_bytes-to_be_bytes 2 n h,
)

frame_length-long :
    (masked : Bool) (n : ℕ) (s : Bytes)
    → n < 256 ^ 8
    → frame_length (flag_of masked + 127) (to_be_bytes 8 n ++ s) ≡ ok (n, s)
unfolding frame_length
frame_length-long false n s h = rw (
  read_exact-append 8 (to_be_bytes 8 n) s (length-to_be_bytes 8 n),
  from_be_bytes-to_be_bytes 8 n h,
)
frame_length-long true n s h = rw (
  read_exact-append 8 (to_be_bytes 8 n) s (length-to_be_bytes 8 n),
  from_be_bytes-to_be_bytes 8 n h,
)

is_masked : (masked : Bool) (n : ℕ) → n < 128 → leb 0x80 (flag_of masked + n) ≡ masked
is_masked false n h = ground arith
is_masked true n h = ground arith

no_reserved : (opcode : ℕ) → opcode < 16 → ((0x80 + opcode) / 16 % 8 == 0) ≡ true
no_reserved opcode h = ground arith

-- After a length field, the reader knows the length of the payload and whether it is masked.
read_frame-length_field :
    (opcode n : ℕ) (masked : Bool) (s : Bytes)
    → opcode < 16
    → n ≤ max_message_bytes
    → read_frame ((0x80 + opcode) ∷ (length_field (flag_of masked) n ++ s))
      ≡ read_body (0x80 + opcode) masked (n, s)
unfolding read_frame read_rest length_field
read_frame-length_field opcode n masked s h k = elim (Bool-cases (ltb n 126)) [
  | inl short ↦ rw (
    short,
    frame_length-short masked n s (ground arith),
    is_masked masked n (ground arith),
    no_reserved opcode h,
  )
  | inr longer ↦ elim (Bool-cases (leb n 0xffff)) [
    | inl medium ↦ rw (
      longer,
      medium,
      frame_length-medium masked n s (ground arith),
      is_masked masked 126 (omega arith),
      no_reserved opcode h,
    )
    | inr long ↦ rw (
      longer,
      long,
      frame_length-long masked n s (omega arith),
      is_masked masked 127 (omega arith),
      no_reserved opcode h,
    )
  ]
]

length-unmask : (mask : Bytes) (i : ℕ) (s : Bytes) → length (unmask mask i s) ≡ length s
unfolding unmask
length-unmask mask i [] = refl
length-unmask mask i (b ∷ s) = ap suc (length-unmask mask (suc i) s)

-- Masking twice with one key gives the bytes back.
unmask-unmask :
    (mask : Bytes) (i : ℕ) (s : Bytes) → All (λ b. b < 256) s → unmask mask i (unmask mask i s) ≡ s
unfolding unmask
unmask-unmask mask i [] h = refl
unmask-unmask mask i (b ∷ s) (h, hs) =
    rw (xor_self b (byte_at mask (i % 4)) h, unmask-unmask mask (suc i) s hs)

opcode_fits : (opcode : ℕ) → opcode < 16 → (0x80 + opcode) % 16 ≡ opcode
opcode_fits opcode h = omega arith

last_flag : (opcode : ℕ) → leb 0x80 (0x80 + opcode) ≡ true
last_flag opcode = ground arith

-- What RFC 6455 has a client send for a payload, under a key of four bytes.
unfoldable pub client_frame : ℕ → Bytes → Bytes → Bytes
client_frame opcode key payload =
    (0x80 + opcode) ∷ (length_field 0x80 (length payload) ++ (key ++ unmask key 0 payload))

within : (n : ℕ) → n ≤ max_message_bytes → leb n max_message_bytes ≡ true
within n h = ground arith

module _ (opcode : ℕ) (payload rest : Bytes) {f : Frame} (small : opcode < 16)
    (short : length payload ≤ max_message_bytes) (made : frame_of opcode true payload ≡ ok f) where
  read_body-plain :
      read_body (0x80 + opcode) false (length payload, payload ++ rest) ≡ ok (some f, rest)
  unfolding read_body read_mask
  read_body-plain = rw (
    within (length payload) short,
    read_exact-append (length payload) payload rest refl,
    opcode_fits opcode small,
    last_flag opcode,
    made,
  )

  read_body-masked :
      (key : Bytes)
      → length key ≡ 4
      → All (λ b. b < 256) payload
      → read_body (0x80 + opcode) true (length payload, key ++ (unmask key 0 payload ++ rest))
        ≡ ok (some f, rest)
  unfolding read_body read_mask
  read_body-masked key four bytes = rw (
    within (length payload) short,
    read_exact-append 4 key (unmask key 0 payload ++ rest) four,
    read_exact-append (length payload) (unmask key 0 payload) rest (length-unmask key 0 payload),
    unmask-unmask key 0 payload bytes,
    opcode_fits opcode small,
    last_flag opcode,
    made,
  )

  -- A frame that the server writes, of an opcode below 16 and at most 16 MiB, is read back as the
  -- frame of its opcode and payload, and what follows it is left.
  read_frame-write_frame : read_frame (write_frame opcode payload ++ rest) ≡ ok (some f, rest)
  unfolding write_frame
  read_frame-write_frame = rw (append_assoc (length_field 0 (length payload)) payload rest) (
      read_frame-length_field opcode (length payload) false (payload ++ rest) small short
      ∙ read_body-plain)

  pub read_frame-client_frame :
      (key : Bytes)
      → length key ≡ 4
      → All (λ b. b < 256) payload
      → read_frame (client_frame opcode key payload ++ rest) ≡ ok (some f, rest)
  unfolding client_frame
  read_frame-client_frame key four bytes =
      rw
        (
          append_assoc (length_field 0x80 (length payload)) (key ++ unmask key 0 payload) rest,
          append_assoc key (unmask key 0 payload) rest,
        )
        (read_frame-length_field opcode (length payload) true
            (key ++ (unmask key 0 payload ++ rest)) small short
          ∙ read_body-masked key four bytes)
