-- ===== src/Msg.antt =====
-- The messages of src/core/msg.rs and their frames on a stream: eight bytes of length, then the
-- serialized message.
pub mod Frames
use rtain.Base.{
  ℕ, String, Bool, true, false, List, [], ◌∷◌, ◌++◌, Option, none, some, length, take, drop, ltb,
  leb, ◌^◌, if◌then◌else◌, Outcome, ok, err, panic, ◌>>=◌, ◌>>◌,
}
use rtain.Base.Bytes.{Bytes, Codec, le_bytes, from_le_bytes}
use rtain.Cmd.{Cli}

pub data Msg : Type 0 where
  req : Cli → Msg
  ok_empty : Msg
  ok_content : String → Msg
  continue : Msg
  error : String → Msg

-- `get_req`
unfoldable pub get_req : Msg → Option Cli
get_req (req cli) = some cli
get_req ok_empty = none
get_req (ok_content text) = none
get_req continue = none
get_req (error text) = none

-- What a side has written to a stream, and whether the other side still reads.
pub record Sink : Type 0 where
  pub written : Bytes
  pub is_open : Bool

unfoldable pub write_all : Bytes → Sink → Outcome (Unit {0}) × Sink
write_all bytes s =
    if s.is_open then (ok tt, record s { written = s.written ++ bytes }) else (err "Broken pipe", s)

-- `read_exact`: the bytes, and what is left of the stream. At the end of the stream what there was
-- is read.
unfoldable pub read_exact : ℕ → Bytes → Outcome Bytes × Bytes
read_exact n input =
    if ltb (length input) n then (err "early eof", []) else (ok (take n input), drop n input)

module _ (codec : Codec Msg) where
  abbrev pub then_write : Bytes → Outcome (Unit {0}) × Sink → Outcome (Unit {0}) × Sink
  then_write msg (ok _, s) = write_all msg s
  then_write msg (err e, s) = (err e, s)
  then_write msg (panic, s) = (panic, s)

  abbrev pub write_frame : Outcome Bytes → Sink → Outcome (Unit {0}) × Sink
  write_frame (ok msg) s = then_write msg (write_all (le_bytes 8 (length msg)) s)
  write_frame (err e) s = (panic, s)
  write_frame panic s = (panic, s)

  -- `send_to`: the serializer's result is unwrapped.
  unfoldable pub send_to : Msg → Sink → Outcome (Unit {0}) × Sink
  send_to msg s = write_frame (codec.serialize msg) s

  -- The buffer of a length beyond `isize::MAX` is a panic.
  abbrev pub read_body : Outcome Bytes × Bytes → Outcome Msg × Bytes
  read_body (ok len_buf, rest) =
      let buf_len = from_le_bytes len_buf in
      let (buf, more) = read_exact buf_len rest in
      if leb (2 ^ 63) buf_len
      then (panic, rest)
      else (do bytes ← buf; codec.deserialize bytes, more)
  read_body (err e, rest) = (err e, rest)
  read_body (panic, rest) = (panic, rest)

  -- `recv_from`
  unfoldable pub recv_from : Bytes → Outcome Msg × Bytes
  recv_from input = read_body (read_exact 8 input)
