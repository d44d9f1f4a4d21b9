-- ===== src/Front/Answers.antt =====
-- A request from the client to the daemon and back.
use mathlib.Core.Path.{subst}
use rtain.Base.{
  ℕ, zero, suc, ◌<◌, take, drop, length-drop, take-drop, String, true, false, All, List, [], ◌∷◌,
  ◌++◌, append-nil, ◌≡◌, refl, ap, ◌∙◌, inl, inr, Outcome, ok, err, length, arith,
}
use rtain.Base.Bytes.{Bytes, Codec, IsLawful}
use rtain.Cmd.{Commands, run, start, exec, stop, rm, ps, logs, commit, network, create}
use rtain.Msg.{Msg, Sink, req, ok_content, continue, error, get_req, read_exact, recv_from}
use rtain.Msg.Frames.{frame, Serializes, send_each, send_to-frame, recv_from-frame}
use rtain.Network.BitVec.{BitVec}
use rtain.Daemon.{Daemon, Env, dispatch, handler, connect, replies}
use rtain.Daemon.Replies.{IsAnswer, Answered, dispatch-IsAnswer}
use rtain.Front.{Output, stdout, stderr, copied, failure, client, copy_out, client_do_run}

-- What a client that has sent a command prints for the messages of the daemon.
abbrev pub outputs : Commands → List Msg → List Output
outputs command (ok_content cont ∷ msgs) = stdout cont ∷ []
outputs command (error e ∷ msgs) = stderr (failure command e) ∷ []
outputs command _ = stderr "Failed to recv msg from daemon: early eof" ∷ []

-- A stream on which the bytes have been written.
abbrev pub sink : Bytes → Sink
sink bytes = record { written = bytes; is_open = true }

module _ (codec : Codec Msg) (debug : Outcome Msg → String) where
  client-message :
      (command : Commands) (input : Bytes)
      → Answered command
      → ((cont : String)
          → (recv_from codec input).0 ≡ ok (ok_content cont)
          → client codec debug command input ≡ ok (stdout cont ∷ []))
        × ((e : String)
            → (recv_from codec input).0 ≡ ok (error e)
            → client codec debug command input ≡ ok (stderr (failure command e) ∷ []))
        × ((recv_from codec input).0 ≡ err "early eof"
            → client codec debug command input
              ≡ ok (stderr "Failed to recv msg from daemon: early eof" ∷ []))
  unfolding client
  client-message (stop args) input a = (λ cont h. rw h refl, λ e h. rw h refl, λ h. rw h refl)
  client-message (rm args) input a = (λ cont h. rw h refl, λ e h. rw h refl, λ h. rw h refl)
  client-message (ps args) input a = (λ cont h. rw h refl, λ e h. rw h refl, λ h. rw h refl)
  client-message (logs args) input a = (λ cont h. rw h refl, λ e h. rw h refl, λ h. rw h refl)
  client-message (commit args) input a = (λ cont h. rw h refl, λ e h. rw h refl, λ h. rw h refl)
  client-message (network (create args)) input a =
      (λ cont h. rw h refl, λ e h. rw h refl, λ h. rw h refl)
  client-message (run args) input a = absurd a
  client-message (start args) input a = absurd a
  client-message (exec args) input a = absurd a

  module _ (lawful : IsLawful codec) where
    pub send_each-one :
        (msg : Msg) (bytes : Bytes)
        → codec.serialize msg ≡ ok bytes
        → send_each codec (msg ∷ []) (sink []) ≡ (ok tt, sink (frame bytes))
    unfolding send_each
    send_each-one msg bytes e = rw (send_to-frame codec lawful msg bytes (sink []) e refl) refl

    recv_from-one :
        (msg : Msg) (bytes : Bytes)
        → codec.serialize msg ≡ ok bytes
        → (recv_from codec (frame bytes)).0 ≡ ok msg
    recv_from-one msg bytes e =
        ap (λ r. r.0)
          (subst (λ l. recv_from codec l ≡ (ok msg, [])) (append-nil (frame bytes))
            (recv_from-frame codec lawful msg bytes [] e))

    recv_from-nil : (recv_from codec []).0 ≡ err "early eof"
    unfolding recv_from read_exact
    recv_from-nil = refl

    client-answer :
        (command : Commands) (msgs : List Msg)
        → Answered command
        → IsAnswer msgs
        → All (Serializes codec) msgs
        → (reply : Bytes) × (send_each codec msgs (sink []) ≡ (ok tt, sink reply))
          × (client codec debug command reply ≡ ok (outputs command msgs))
    unfolding send_each
    client-answer command msgs a (inl none) s =
        rw none ([], refl, (client-message command [] a).2 recv_from-nil)
    client-answer command msgs a (inr (inl (cont, one))) s =
        let (bytes, e) = (subst (All (Serializes codec)) one s).0 in
        rw one (
          frame bytes,
          send_each-one (ok_content cont) bytes e,
          (client-message command (frame bytes) a).0 cont (recv_from-one (ok_content cont) bytes e),
        )
    client-answer command msgs a (inr (inr (text, one))) s =
        let (bytes, e) = (subst (All (Serializes codec)) one s).0 in
        rw one (
          frame bytes,
          send_each-one (error text) bytes e,
          (client-message command (frame bytes) a).1 text (recv_from-one (error text) bytes e),
        )

-- The whole way of a command with one answer, over a lawful serializer: the client's request
-- reaches the handler of its command, and the client prints what the handler has answered, or that
-- there was no answer; it never meets a message that it does not expect.
pub request-answered :
    (B : BitVec) (env : Env B) (debug : Outcome Msg → String) (command : Commands) (d : Daemon B)
    → Answered command
    → IsLawful env.codec
    → Serializes env.codec (req (record { command = command }))
    → All (Serializes env.codec) (replies B (dispatch B env command (connect B d)).1)
    → (wire reply : Bytes) × (send_each env.codec
          (req (record { command = command }) ∷ [])
          (sink [])
        ≡ (ok tt, sink wire))
      × (handler B env wire (connect B d) ≡ dispatch B env command (connect B d))
      × (send_each env.codec (replies B (handler B env wire (connect B d)).1) (sink [])
          ≡ (ok tt, sink reply))
      × (client env.codec debug command reply
          ≡ ok (outputs command (replies B (handler B env wire (connect B d)).1)))
unfolding handler get_req
request-answered B env debug command d a lawful (bytes, e) s =
    let served : handler B env (frame bytes) (connect B d) ≡ dispatch B env command (connect B d) =
      rw (recv_from-one env.codec debug lawful (req (record { command = command })) bytes e) refl in
    let (reply, told, read) =
      client-answer env.codec debug lawful command
        (replies B (dispatch B env command (connect B d)).1) a (dispatch-IsAnswer B env command d a)
        s in
    (
      frame bytes,
      reply,
      send_each-one env.codec debug lawful (req (record { command = command })) bytes e,
      served,
      rw served told,
      rw served read,
    )

-- The loop of `read_from_daemon` ends, and prints what it reads, whatever its length.
copy_out-eq : (fuel : ℕ) (input : Bytes) → length input < fuel → copy_out fuel input ≡ input
unfolding copy_out
copy_out-eq zero input h = absurd (omega arith)
copy_out-eq (suc fuel) [] h = refl
copy_out-eq (suc fuel) (b ∷ bs) h =
    let rest = drop 1024 (b ∷ bs) in
    let shorter = length-drop 1024 (b ∷ bs) in
    ap (λ l. take 1024 (b ∷ bs) ++ l) (copy_out-eq fuel rest (omega (arith, shorter)))
    ∙ take-drop 1024 (b ∷ bs)

-- An attached client that reads `Continue` prints exactly what the daemon writes behind it, also
-- beyond the length of its buffer.
pub client_do_run-copies :
    (codec : Codec Msg) (debug : Outcome Msg → String) (bytes raw : Bytes)
    → IsLawful codec
    → codec.serialize continue ≡ ok bytes
    → client_do_run codec debug false (frame bytes ++ raw) ≡ ok (copied raw ∷ [])
unfolding client_do_run
client_do_run-copies codec debug bytes raw lawful e =
    rw (recv_from-frame codec lawful continue bytes raw e)
      (ap (λ l. ok (copied l ∷ [])) (copy_out-eq (suc (length raw)) raw (omega arith)))
