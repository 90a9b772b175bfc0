-- ===== src/Gateway/Commands.antt =====
-- The commands that `read_command` of crates/canopee-gateway/src/ws.rs takes from the frames of a
-- connection. The reader of JSON is a parameter.
pub mod Waiting
use canopee.Prelude.{
  ℕ, zero, suc, Bytes, Option, none, some, Result, ok, err, or_err, malformed, ◌>>=◌, ◌++◌, [],
}
use canopee.Gateway.Frame.{
  Frame, data_frame, ping, pong, close, read_frame, write_frame, write_close,
}

-- How a call ends: its answer, the input that it leaves and all that was written to the client.
pub record Reply (C : Type 0) : Type 0 where
  pub answer : Result (Option C)
  pub input : Bytes
  pub output : Bytes

module _ {C : Type 0} (from_slice : Bytes → Option C) where
  unfoldable pub command_of : Bytes → Result (Option C)
  command_of b = or_err (from_slice b) malformed >>= λ c. ok (some c)

  -- The loop, with fuel for its rounds; `none` where the fuel is spent.
  unfoldable pub read_command : ℕ → Bytes → Bytes → Option (Reply C)
  unfolding command_of
  read_command zero input output = none
  read_command (suc fuel) input output = elim (read_frame input) [
    | err e ↦ some (record { answer = err e; input = []; output = output })
    | ok (none, rest) ↦ some (record { answer = ok none; input = rest; output = output })
    | ok (some (data_frame b), rest) ↦
        some (record { answer = command_of b; input = rest; output = output })
    | ok (some (ping b), rest) ↦ read_command fuel rest (output ++ write_frame 10 b)
    | ok (some (pong b), rest) ↦ read_command fuel rest output
    | ok (some (close reason), rest) ↦
        some (record { answer = ok none; input = rest; output = output ++ write_close reason })
  ]

-- `reply`, with the bytes of the event's JSON.
unfoldable pub reply : Bytes → Bytes → Bytes
unfolding write_frame
reply event output = output ++ write_frame 1 event
