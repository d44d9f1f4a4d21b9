-- ===== src/Metas/Wal/Loop.antt =====
-- The read loop of src/core/metas/wal.rs, round by round: what one frame looks like, and how the
-- loop goes over bytes that are appended.
use rtain.Base.{
  ℕ, zero, suc, ◌+◌, ◌≤◌, ◌<◌, ◌≡◌, ◌≢◌, refl, List, [], ◌∷◌, ◌++◌, Option, none, some, length,
  take, drop, arith, length-append, length-drop, take-append_le, drop-append_le, ap, sym,
}
use rtain.Base.{Outcome, ok, err, panic}
use rtain.Base.Bytes.{Bytes, from_le_bytes, Codec}
use rtain.Metas.Wal.Read.{push_front, next_frame, read_loop}

module _ {A : Type 0} (codec : Codec A) where
  abbrev pub size_of : Bytes → ℕ
  size_of bytes = from_le_bytes (take 8 bytes)

  abbrev pub rest_of : Bytes → Bytes
  rest_of bytes = drop (size_of bytes) (drop 8 bytes)

  -- What a frame that is read looks like.
  pub record IsFrame (bytes : Bytes) (op : A) (rest : Bytes) : Type 0 where
    pub header : 8 ≤ length bytes
    pub body : size_of bytes ≤ length (drop 8 bytes)
    pub decoded : codec.deserialize (take (size_of bytes) (drop 8 bytes)) ≡ ok op
    pub left : rest ≡ rest_of bytes

  pub next_frame-IsFrame :
      (bytes : Bytes) (op : A) (rest : Bytes)
      → next_frame codec bytes ≡ ok (op, rest)
      → IsFrame bytes op rest
  unfolding next_frame
  next_frame-IsFrame bytes op rest h = record {
    header = ground arith;
    body = ground arith;
    decoded = ground arith;
    left = ground arith;
  }

  pub IsFrame-next_frame :
      (bytes : Bytes) (op : A) (rest : Bytes)
      → IsFrame bytes op rest
      → next_frame codec bytes ≡ ok (op, rest)
  unfolding next_frame
  IsFrame-next_frame bytes op rest f = ground arith

  -- A frame that is read leaves fewer bytes.
  pub IsFrame-shrinks :
      (bytes : Bytes) (op : A) (rest : Bytes)
      → IsFrame bytes op rest
      → length rest + 8 ≤ length bytes
  IsFrame-shrinks bytes op rest f = omega (
    arith,
    f.header,
    ap length f.left,
    length-drop (size_of bytes) (drop 8 bytes),
    length-drop 8 bytes,
  )

  -- Bytes behind a frame do not change how it is read.
  pub IsFrame-append :
      (bytes more : Bytes) (op : A) (rest : Bytes)
      → IsFrame bytes op rest
      → IsFrame (bytes ++ more) op (rest ++ more)
  IsFrame-append bytes more op rest f =
      let head : take 8 (bytes ++ more) ≡ take 8 bytes = take-append_le 8 bytes more f.header in
      let tail : drop 8 (bytes ++ more) ≡ drop 8 bytes ++ more =
        drop-append_le 8 bytes more f.header in
      record {
        header = omega (arith, f.header, length-append bytes more);
        body = rw (head, tail) (omega (arith, f.body, length-append (drop 8 bytes) more));
        decoded =
            rw (head, tail, take-append_le (size_of bytes) (drop 8 bytes) more f.body) f.decoded;
        left =
            rw (head, tail, drop-append_le (size_of bytes) (drop 8 bytes) more f.body)
              (ap (λ l. l ++ more) f.left);
      }

  -- The two slices that panic.
  pub next_frame-short : (bytes : Bytes) → length bytes < 8 → next_frame codec bytes ≡ panic
  unfolding next_frame
  next_frame-short bytes h = ground arith

  pub next_frame-cut :
      (bytes : Bytes)
      → 8 ≤ length bytes
      → length (drop 8 bytes) < size_of bytes
      → next_frame codec bytes ≡ panic
  unfolding next_frame
  next_frame-cut bytes h k = ground arith

  pub step-ok :
      (rounds : ℕ) (bytes : Bytes) (op : A) (rest : Bytes)
      → next_frame codec bytes ≡ ok (op, rest)
      → 0 < length bytes
      → read_loop codec (suc rounds) bytes ≡ push_front op (read_loop codec rounds rest)
  unfolding read_loop
  step-ok rounds [] op rest e h = absurd (omega arith)
  step-ok rounds (b ∷ bs) op rest e h = rw (e, read_loop)

  push_front_inverse :
      (op : A) (r : Option (Outcome (List A))) (ops : List A)
      → push_front op r ≡ some (ok ops)
      → (tail : List A) × (r ≡ some (ok tail)) × (ops ≡ op ∷ tail)
  push_front_inverse op none ops h = absurd (cc)
  push_front_inverse op (some (ok tail)) ops h = (tail, refl, cc)
  push_front_inverse op (some (err e)) ops h = absurd (cc)
  push_front_inverse op (some panic) ops h = absurd (cc)

  -- The first round of a loop that succeeds.
  pub step_inverse :
      (rounds : ℕ) (b : ℕ) (bs : Bytes) (ops : List A)
      → read_loop codec (suc rounds) (b ∷ bs) ≡ some (ok ops)
      → (op : A) × (rest : Bytes) × (tail : List A) × (next_frame codec (b ∷ bs) ≡ ok (op, rest))
        × (read_loop codec rounds rest ≡ some (ok tail))
        × (ops ≡ op ∷ tail)
  unfolding read_loop
  step_inverse rounds b bs ops h = split (next_frame codec (b ∷ bs)) refl h
    where
      split :
          (x : Outcome (A × Bytes))
          → next_frame codec (b ∷ bs) ≡ x
          → read_loop codec (suc rounds) (b ∷ bs) ≡ some (ok ops)
          → (op : A) × (rest : Bytes) × (tail : List A) × (next_frame codec (b ∷ bs)
              ≡ ok (op, rest))
            × (read_loop codec rounds rest ≡ some (ok tail))
            × (ops ≡ op ∷ tail)
      split (ok (op, rest)) e h =
          let (tail, again, whole) =
            push_front_inverse op (read_loop codec rounds rest) ops (rw (e, read_loop) at h) in
          (op, rest, tail, e, again, whole)
      split (err m) e h = absurd (cc (rw (e, read_loop) at h))
      split panic e h = absurd (cc (rw (e, read_loop) at h))

  -- A frame behind bytes that are read whole is read last.
  pub read_loop-append :
      (rounds big : ℕ) (bytes more : Bytes) (ops : List A) (op : A)
      → read_loop codec rounds bytes ≡ some (ok ops)
      → IsFrame more op []
      → length (bytes ++ more) ≤ big
      → read_loop codec big (bytes ++ more) ≡ some (ok (ops ++ op ∷ []))
  unfolding read_loop
  read_loop-append rounds zero [] more ops op h f fits = absurd (omega (arith, f.header))
  read_loop-append rounds (suc big) [] more ops op h f fits =
      rw (step-ok big more op [] (IsFrame-next_frame more op [] f) (omega (arith, f.header)))
        (let e : ops ≡ [] = cc in rw e)
  read_loop-append zero big (b ∷ bs) more ops op h f fits = absurd (cc)
  read_loop-append (suc rounds) zero (b ∷ bs) more ops op h f fits = absurd (omega arith)
  read_loop-append (suc rounds) (suc big) (b ∷ bs) more ops op h f fits =
      let (o, rest, tail, e, again, whole) = step_inverse rounds b bs ops h in
      let frame_o = next_frame-IsFrame (b ∷ bs) o rest e in
      rw
        (step-ok big (b ∷ bs ++ more) o (rest ++ more)
          (IsFrame-next_frame _ o _ (IsFrame-append (b ∷ bs) more o rest frame_o)) (omega arith))
        (rw
          (read_loop-append rounds big rest more tail op again f (
            omega (
              arith,
              IsFrame-shrinks (b ∷ bs) o rest frame_o,
              length-append rest more,
              length-append bs more,
            )))
          (ap (λ l. some (ok (l ++ op ∷ []))) (sym whole)))

  -- Bytes behind them that are no whole frame make the loop panic.
  pub read_loop-torn :
      (rounds big : ℕ) (bytes more : Bytes) (ops : List A)
      → read_loop codec rounds bytes ≡ some (ok ops)
      → next_frame codec more ≡ panic
      → 0 < length more
      → length (bytes ++ more) ≤ big
      → read_loop codec big (bytes ++ more) ≡ some panic
  unfolding read_loop
  read_loop-torn rounds big [] [] ops h p some_more fits = absurd (omega arith)
  read_loop-torn rounds zero [] (m ∷ more) ops h p some_more fits = absurd (omega arith)
  read_loop-torn rounds (suc big) [] (m ∷ more) ops h p some_more fits = rw (p, read_loop)
  read_loop-torn zero big (b ∷ bs) more ops h p some_more fits = absurd (cc)
  read_loop-torn (suc rounds) zero (b ∷ bs) more ops h p some_more fits = absurd (omega arith)
  read_loop-torn (suc rounds) (suc big) (b ∷ bs) more ops h p some_more fits =
      let (o, rest, tail, e, again, whole) = step_inverse rounds b bs ops h in
      let frame_o = next_frame-IsFrame (b ∷ bs) o rest e in
      rw
        (step-ok big (b ∷ bs ++ more) o (rest ++ more)
          (IsFrame-next_frame _ o _ (IsFrame-append (b ∷ bs) more o rest frame_o)) (omega arith))
        (rw (
          read_loop-torn rounds big rest more tail again p some_more (
            omega (
              arith,
              IsFrame-shrinks (b ∷ bs) o rest frame_o,
              length-append rest more,
              length-append bs more,
            ))))

  -- As many rounds as there are bytes are enough.
  pub read_loop-ne-none :
      (rounds : ℕ) (bytes : Bytes) → length bytes ≤ rounds → read_loop codec rounds bytes ≢ none
  unfolding read_loop
  read_loop-ne-none rounds [] h = λ e. cc
  read_loop-ne-none zero (b ∷ bs) h = absurd (omega arith)
  read_loop-ne-none (suc rounds) (b ∷ bs) h =
      split (next_frame codec (b ∷ bs)) refl (read_loop-ne-none rounds)
    where
      push_front-ne-none :
          (op : A) (r : Option (Outcome (List A))) → r ≢ none → push_front op r ≢ none
      push_front-ne-none op none h' = absurd (h' refl)
      push_front-ne-none op (some r) h' = λ e. cc

      split :
          (x : Outcome (A × Bytes))
          → next_frame codec (b ∷ bs) ≡ x
          → ((rest : Bytes) → length rest ≤ rounds → read_loop codec rounds rest ≢ none)
          → read_loop codec (suc rounds) (b ∷ bs) ≢ none
      split (ok (op, rest)) e again =
          rw (e, read_loop)
            (push_front-ne-none op (read_loop codec rounds rest) (
              again rest
                (omega (arith, IsFrame-shrinks _ op rest (next_frame-IsFrame (b ∷ bs) op rest e)))))
      split (err m) e again = rw (e, read_loop) (λ x. cc)
      split panic e again = rw (e, read_loop) (λ x. cc)
