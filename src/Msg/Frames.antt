-- ===== src/Msg/Frames.antt =====
-- Messages that are sent are received, in order.
use mathlib.Core.Path.{subst}
use rtain.Base.{
  dec_lt, ◌-◌, All, zero, append-nil, length-take, ℕ, suc, ◌<◌, ◌+◌, ◌≡◌, refl, ap, arith, true,
  List, [], ◌∷◌, ◌++◌, length, take, drop, length-append, take-append, drop-append, append_assoc,
  Outcome, ok, err, panic,
}
use rtain.Base.Bytes.{Bytes, Codec, IsLawful, le_bytes, length-le_bytes, from-le_bytes}
use rtain.Msg.{Msg, Sink, write_all, read_exact, send_to, recv_from}

-- The frame of a serialized message.
abbrev pub frame : Bytes → Bytes
frame bytes = le_bytes 8 (length bytes) ++ bytes

read_exact-append :
    (n : ℕ) (front rest : Bytes)
    → length front ≡ n
    → read_exact n (front ++ rest) ≡ (ok front, rest)
unfolding read_exact
read_exact-append n front rest h =
    let size = length-append front rest in
    let first : take n (front ++ rest) ≡ front =
      subst (λ (k : ℕ). take k (front ++ rest) ≡ front) h (take-append front rest) in
    let second : drop n (front ++ rest) ≡ rest =
      subst (λ (k : ℕ). drop k (front ++ rest) ≡ rest) h (drop-append front rest) in
    rw (first, second) (ground arith)

read_exact-short :
    (n : ℕ) (input : Bytes) → length input < n → read_exact n input ≡ (err "early eof", [])
unfolding read_exact
read_exact-short n input h = ground arith

take-past {ℓ} :
    {A : Type ℓ} (xs ys : List A) (k : ℕ) → take (length xs + k) (xs ++ ys) ≡ xs ++ take k ys
take-past [] ys k = ap (λ (m : ℕ). take m ys) (omega arith)
take-past (x ∷ xs) ys k =
    subst (λ (m : ℕ). take m ((x ∷ xs) ++ ys) ≡ (x ∷ xs) ++ take k ys)
      (let sum : suc (length xs + k) ≡ suc (length xs) + k = omega arith in sum)
      (ap (λ l. x ∷ l) (take-past xs ys k))

module _ (codec : Codec Msg) (lawful : IsLawful codec) where
  pub send_to-frame :
      (msg : Msg) (bytes : Bytes) (s : Sink)
      → codec.serialize msg ≡ ok bytes
      → s.is_open ≡ true
      → send_to codec msg s ≡ (ok tt, record s { written = s.written ++ frame bytes })
  unfolding send_to write_all
  send_to-frame msg bytes s e o =
      rw e (rw o (rw (append_assoc s.written (le_bytes 8 (length bytes)) bytes) refl))

  pub recv_from-frame :
      (msg : Msg) (bytes rest : Bytes)
      → codec.serialize msg ≡ ok bytes
      → recv_from codec (frame bytes ++ rest) ≡ (ok msg, rest)
  unfolding recv_from
  recv_from-frame msg bytes rest e =
      let bound = lawful.fits msg bytes e in
      let size = from-le_bytes 8 (length bytes) (omega arith) in
      let header : read_exact 8 (frame bytes ++ rest)
          ≡ (ok (le_bytes 8 (length bytes)), bytes ++ rest) =
        rw (append_assoc (le_bytes 8 (length bytes)) bytes rest) (
          read_exact-append 8 (le_bytes 8 (length bytes)) (bytes ++ rest)
            (length-le_bytes 8 (length bytes))) in
      let body = read_exact-append (length bytes) bytes rest refl in
      rw header (rw size (rw body (rw (lawful.round_trip msg bytes e) (ground arith))))

abbrev pub send_next :
    (Sink → Outcome (Unit {0}) × Sink) → Outcome (Unit {0}) × Sink → Outcome (Unit {0}) × Sink
send_next more (ok _, s) = more s
send_next more (err e, s) = (err e, s)
send_next more (panic, s) = (panic, s)

abbrev pub cons_received : Msg → Outcome (List Msg) × Bytes → Outcome (List Msg) × Bytes
cons_received msg (ok msgs, rest) = (ok (msg ∷ msgs), rest)
cons_received msg (err e, rest) = (err e, rest)
cons_received msg (panic, rest) = (panic, rest)

abbrev pub recv_next :
    (Bytes → Outcome (List Msg) × Bytes) → Outcome Msg × Bytes → Outcome (List Msg) × Bytes
recv_next more (ok msg, rest) = cons_received msg (more rest)
recv_next more (err e, rest) = (err e, rest)
recv_next more (panic, rest) = (panic, rest)

-- Messages sent one after the other, and as many received.
unfoldable pub send_each : Codec Msg → List Msg → Sink → Outcome (Unit {0}) × Sink
unfolding send_to
send_each codec [] s = (ok tt, s)
send_each codec (msg ∷ msgs) s = send_next (send_each codec msgs) (send_to codec msg s)

unfoldable pub recv_each : Codec Msg → ℕ → Bytes → Outcome (List Msg) × Bytes
recv_each codec zero input = (ok [], input)
recv_each codec (suc n) input = recv_next (recv_each codec n) (recv_from codec input)

-- A message that the serializer takes.
abbrev pub Serializes : Codec Msg → Msg → Type 0
Serializes codec msg = (bytes : Bytes) × (codec.serialize msg ≡ ok bytes)

module _ (codec : Codec Msg) (lawful : IsLawful codec) where
  -- Messages sent one after the other on an open stream are received in this order, whatever
  -- follows them, and nothing of what follows is consumed.
  pub recv_each-send_each :
      (msgs : List Msg) (s : Sink)
      → All (Serializes codec) msgs
      → s.is_open ≡ true
      → (wire : Bytes) × (send_each codec msgs s
          ≡ (ok tt, record s { written = s.written ++ wire }))
        × ((rest : Bytes) → recv_each codec (length msgs) (wire ++ rest) ≡ (ok msgs, rest))
  unfolding send_each recv_each
  recv_each-send_each [] s h o = ([], rw (append-nil s.written) refl, λ rest. refl)
  recv_each-send_each (msg ∷ msgs) s ((bytes, e), h) o =
      let sent = send_to-frame codec lawful msg bytes s e o in
      let (wire, e1, e2) =
        recv_each-send_each msgs (record s { written = s.written ++ frame bytes }) h o in
      (
        frame bytes ++ wire,
        rw sent (rw e1 (rw (append_assoc s.written (frame bytes) wire) refl)),
        λ rest.
            rw (append_assoc (frame bytes) wire rest)
              (rw (recv_from-frame codec lawful msg bytes (wire ++ rest) e) (rw (e2 rest) refl)),
      )

  -- A stream that ends inside a frame is an error, not a message.
  pub recv_from-cut :
      (msg : Msg) (bytes : Bytes) (n : ℕ)
      → codec.serialize msg ≡ ok bytes
      → n < length (frame bytes)
      → (recv_from codec (take n (frame bytes))).0 ≡ err "early eof"
  unfolding recv_from
  recv_from-cut msg bytes n e short = elim (dec_lt n 8) [
    | yes below ↦
        let size = length-take n (frame bytes) (omega arith) in
        rw (read_exact-short 8 (take n (frame bytes)) (omega (arith, size))) refl
    | no above ↦
        let bound = lawful.fits msg bytes e in
        let header = length-le_bytes 8 (length bytes) in
        let cut : take n (frame bytes) ≡ le_bytes 8 (length bytes) ++ take (n - 8) bytes =
          subst (λ (k : ℕ). take k (frame bytes) ≡ le_bytes 8 (length bytes) ++ take (n - 8) bytes)
            (omega (arith, header)) (take-past (le_bytes 8 (length bytes)) bytes (n - 8)) in
        let whole = length-append (le_bytes 8 (length bytes)) bytes in
        let size = length-take (n - 8) bytes (omega (arith, whole, header)) in
        let body =
          read_exact-short (length bytes) (take (n - 8) bytes)
            (omega (arith, size, whole, header)) in
        let number = from-le_bytes 8 (length bytes) (omega arith) in
        rw cut (
          rw (read_exact-append 8 (le_bytes 8 (length bytes)) (take (n - 8) bytes) header)
            (rw number (rw body (ground arith))))
  ]
