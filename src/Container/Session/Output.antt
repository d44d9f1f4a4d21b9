-- ===== src/Container/Session/Output.antt =====
-- The copies of a session's output, from the terminal to the client or the log: the tasks of
-- `do_run` of src/core/container/init.rs that read and write it.
use rtain.Base.{
  ℕ, Bool, true, false, ◌&&◌, [], ◌∷◌, ◌++◌, Option, none, some, length, take, drop, ltb, leb,
}
use rtain.Base.Bytes.{Bytes}

-- Where a task that copies stands: at its read, in its write with the bytes that are left, or at
-- its end, with the bytes that it never wrote.
pub data Stage : Type 0 where
  reading : Stage
  writing : Bytes → Stage
  ended : Bytes → Stage

-- From the terminal to the client or to the log: what the process has printed and nobody has read,
-- `read_from_pty`, the `simplex` of one byte, `pty_to_client` or `pty_to_log`, and what has arrived.
pub record Copy : Type 0 where
  pub output : Bytes
  pub capture : Stage
  pub pipe : Bytes
  pub forward : Stage
  pub received : Bytes

abbrev pub when : {A : Type 0} → Bool → A → Option A
when true a = some a
when false a = none

-- What `write_all` has left.
abbrev pub left : Bytes → Stage
left [] = reading
left (b ∷ bs) = writing (b ∷ bs)

-- The task's buffer.
abbrev pub held : Stage → Bytes
held reading = []
held (writing bs) = bs
held (ended bs) = bs

-- A read of `n` bytes into a buffer of 1024.
abbrev pub readable : ℕ → Bytes → Bool
readable n bytes = ltb 0 n && (leb n 1024 && leb n (length bytes))

abbrev pub read_output : ℕ → Stage → Copy → Option Copy
read_output n reading c =
    when (readable n c.output)
      (record c { capture = writing (take n c.output); output = drop n c.output })
read_output n (writing bs) c = none
read_output n (ended bs) c = none

-- The pipe takes one byte when it is empty.
abbrev pub push : Stage → Bytes → Copy → Option Copy
push (writing (b ∷ bs)) [] c = some (record c { capture = left bs; pipe = b ∷ [] })
push _ _ c = none

abbrev pub end_capture : Stage → Copy → Option Copy
end_capture reading c = some (record c { capture = ended [] })
end_capture (writing bs) c = none
end_capture (ended bs) c = none

abbrev pub pull : Stage → Bytes → Copy → Option Copy
pull reading (b ∷ bs) c = some (record c { forward = writing (b ∷ bs); pipe = [] })
pull _ _ c = none

abbrev pub deliver : Bool → Stage → Copy → Option Copy
deliver true (writing bs) c = some (record c { forward = reading; received = c.received ++ bs })
deliver _ _ c = none

-- The write to a client that is gone, or to a log that cannot be written.
abbrev pub fail : Bool → Stage → Copy → Option Copy
fail false (writing bs) c = some (record c { forward = ended bs })
fail _ _ c = none

-- The reader meets the end of the pipe when the writer has ended.
abbrev pub end_forward : Stage → Bytes → Stage → Copy → Option Copy
end_forward reading [] (ended bs) c = some (record c { forward = ended [] })
end_forward _ _ _ c = none

-- `abort`
abbrev pub abort : Copy → Copy
abort c = record c { forward = ended (held c.forward) }
