-- ===== src/Tests/Wire.antt =====
-- The theorems about messages and commands at a few of them.
use rtain.Base.{◌*◌, ◌^◌, ◌<◌, ◌≡◌, refl, List, [], ◌∷◌, ◌++◌, true, pos, ok, arith}
use rtain.Base.{ℕ_discrete}
use rtain.Base.Bytes.{Bytes, Codec}
use rtain.Base.Words.{debug}
use rtain.Cmd.{parse_memory_size}
use rtain.Cmd.Memory.{value, parse_memory_size-unit}
use rtain.Msg.{Msg, Sink, ok_content, continue}
use rtain.Msg.Frames.{send_each, recv_each, recv_each-send_each}
use rtain.Tests.Samples.{string_discrete, table_codec, table_codec-IsLawful}

unfoldable pub msg_discrete : Discrete Msg
unfolding string_discrete ℕ_discrete
msg_discrete = hlevel (ℕ_discrete, string_discrete)

abbrev messages : List Msg
messages = continue ∷ ok_content "done" ∷ []

abbrev codec : Codec Msg
codec = table_codec msg_discrete messages

abbrev sink : Sink
sink = record { written = []; is_open = true }

first_bytes : codec.serialize continue ≡ ok (0 ∷ [])
unfolding table_codec msg_discrete
first_bytes = refl

second_bytes : codec.serialize (ok_content "done") ≡ ok (1 ∷ [])
unfolding table_codec msg_discrete
second_bytes = refl

recv_each-send_each_example :
    (wire : Bytes) × (send_each codec messages sink
      ≡ (ok tt, record { written = [] ++ wire; is_open = true }))
    × ((rest : Bytes) → recv_each codec 2 (wire ++ rest) ≡ (ok messages, rest))
recv_each-send_each_example =
    recv_each-send_each codec (table_codec-IsLawful msg_discrete messages) messages sink
      ((0 ∷ [], first_bytes), ((1 ∷ [], second_bytes), tt)) refl

small_size : value 0 (b'2' ∷ b'0' ∷ []) * (1024 * 1024) < 2 ^ 63
unfolding value
small_size = omega arith

parse_memory_size-unit_example :
    parse_memory_size debug "20M" ≡ ok (pos (value 0 (b'2' ∷ b'0' ∷ []) * (1024 * 1024)))
parse_memory_size-unit_example =
    parse_memory_size-unit debug "20M" b'2' (b'0' ∷ []) b'M' refl
      ((omega arith, omega arith), ((omega arith, omega arith), tt)) refl small_size
