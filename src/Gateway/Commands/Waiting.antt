-- ===== src/Gateway/Commands/Waiting.antt =====
-- How `read_command` of crates/canopee-gateway/src/ws.rs waits for a command.
use canopee.Prelude.{
  ℕ, zero, suc, ◌≤◌, ◌<◌, ◌≡◌, refl, Bytes, Bool, true, false, Option, none, some, [], ◌∷◌, ◌++◌,
  ok, err, arith, length, length-drop, leb, All, Result-cases, inl, inr,
}
use canopee.Gateway.Frame.{
  Frame, data_frame, ping, pong, close, read_exact, frame_length, read_mask, read_body, read_rest,
  read_frame, write_frame, write_close, max_message_bytes, frame_of,
}
use canopee.Gateway.Frame.Reading.{client_frame, read_frame-client_frame}
use canopee.Gateway.Commands.{Reply, read_command, command_of}

read_exact-shorter :
    (n : ℕ) (s : Bytes) {q : Bytes × Bytes} → read_exact n s ≡ ok q → length q.1 ≤ length s
unfolding read_exact
read_exact-shorter n s h = ground (arith, length-drop n s)

frame_length-shorter :
    (b1 : ℕ) (s : Bytes) {q : ℕ × Bytes} → frame_length b1 s ≡ ok q → length q.1 ≤ length s
unfolding frame_length
frame_length-shorter b1 s {q} h = elim (Result-cases (read_exact 2 s)) [
  | inl (r, e) ↦ elim (Result-cases (read_exact 8 s)) [
    | inl (t, d) ↦ ground (arith, read_exact-shorter 2 s e, read_exact-shorter 8 s d)
    | inr (x, d) ↦ ground (arith, read_exact-shorter 2 s e)
  ]
  | inr (x, e) ↦ elim (Result-cases (read_exact 8 s)) [
    | inl (t, d) ↦ ground (arith, read_exact-shorter 8 s d)
    | inr (y, d) ↦ ground arith
  ]
]

read_mask-shorter :
    (masked : Bool) (s : Bytes) {q : Bytes × Bytes}
    → read_mask masked s ≡ ok q
    → length q.1 ≤ length s
unfolding read_mask
read_mask-shorter false s h = ground arith
read_mask-shorter true s h = read_exact-shorter 4 s h

read_body-shorter :
    (b0 : ℕ) (masked : Bool) (sized : ℕ × Bytes) {q : Option Frame × Bytes}
    → read_body b0 masked sized ≡ ok q
    → length q.1 ≤ length sized.1
unfolding read_body
read_body-shorter b0 masked sized {q} h = elim (Result-cases (read_mask masked sized.1)) [
  | inr (x, e) ↦ absurd (ground arith)
  | inl (keyed, e) ↦ elim (Result-cases (read_exact sized.0 keyed.1)) [
    | inr (x, d) ↦ absurd (ground arith)
    | inl (body, d) ↦
        ground (arith, read_mask-shorter masked sized.1 e, read_exact-shorter sized.0 keyed.1 d)
  ]
]

read_frame-shorter :
    (s : Bytes) {f : Frame} {rest : Bytes}
    → read_frame s ≡ ok (some f, rest)
    → length rest < length s
unfolding read_frame read_rest
read_frame-shorter [] h = absurd (ground arith)
read_frame-shorter (b0 ∷ []) h = absurd (ground arith)
read_frame-shorter (b0 ∷ b1 ∷ s) {f} {rest} h = elim (Result-cases (frame_length b1 s)) [
  | inr (x, e) ↦ absurd (ground arith)
  | inl (sized, e) ↦ ground (
    arith,
    frame_length-shorter b1 s e,
    read_body-shorter b0 (leb 0x80 b1) sized {q = (some f, rest)},
  )
]

module _ {C : Type 0} (from_slice : Bytes → Option C) where
  after_frame :
      (fuel : ℕ) (input output rest : Bytes) (f : Frame)
      → ((s out : Bytes)
          → length s < fuel
          → (r : Reply C) × (read_command from_slice fuel s out ≡ some r))
      → read_frame input ≡ ok (some f, rest)
      → length rest < fuel
      → (r : Reply C) × (read_command from_slice (suc fuel) input output ≡ some r)
  unfolding read_command
  after_frame fuel input output rest (data_frame b) more e h = (
    record { answer = command_of from_slice b; input = rest; output = output },
    rw (e, read_command),
  )
  after_frame fuel input output rest (ping b) more e h =
      let (r, q) = more rest (output ++ write_frame 10 b) h in (r, rw (e, read_command) q)
  after_frame fuel input output rest (pong b) more e h =
      let (r, q) = more rest output h in (r, rw (e, read_command) q)
  after_frame fuel input output rest (close reason) more e h = (
    record { answer = ok none; input = rest; output = output ++ write_close reason },
    rw (e, read_command),
  )

  -- A round for each byte of the input and one more are enough for an answer.
  pub read_command_total :
      (fuel : ℕ) (input output : Bytes)
      → length input < fuel
      → (r : Reply C) × (read_command from_slice fuel input output ≡ some r)
  unfolding read_command
  read_command_total zero input output h = absurd (omega arith)
  read_command_total (suc fuel) input output h = elim (Result-cases (read_frame input)) [
    | inr (x, e) ↦ (record { answer = err x; input = []; output = output }, rw (e, read_command))
    | inl ((none, rest), e) ↦
        (record { answer = ok none; input = rest; output = output }, rw (e, read_command))
    | inl ((some f, rest), e) ↦
        after_frame fuel input output rest f (read_command_total fuel) e
          (omega (arith, read_frame-shorter input e))
  ]

  -- A ping of a client is answered with a pong of its payload, and the call waits on.
  read_command-ping :
      (fuel : ℕ) (key payload rest output : Bytes)
      → length key ≡ 4
      → length payload ≤ max_message_bytes
      → All (λ b. b < 256) payload
      → read_command from_slice (suc fuel) (client_frame 9 key payload ++ rest) output
        ≡ read_command from_slice fuel rest (output ++ write_frame 10 payload)
  unfolding read_command
  read_command-ping fuel key payload rest output four short bytes = rw (
    read_frame-client_frame 9 payload rest {f = ping payload} (omega arith) short
        (unfold frame_of in refl) key four bytes,
    read_command,
  )
