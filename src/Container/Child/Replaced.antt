-- ===== src/Container/Child/Replaced.antt =====
-- What a process has done when it is replaced by a command.
use mathlib.Core.Path.{subst}
use rtain.Base.{
  String, Bool, true, false, List, [], ◌∷◌, ◌++◌, append_assoc, append-nil, ◌≡◌, refl, sym, ap, ◌∙◌,
  Outcome, ok, err, panic,
}
use rtain.Base.Text.{codes}
use rtain.Container.Task.{◌>>◌, go_on, answer, or_else, on_error, unwrapped}
use rtain.Container.Child.{
  Syscall, write_word, read_word, execvp, Trace, Word, exit, cont, other, Kernel, Fate, replaced,
  Proc, minus_one, give_up, has_nul, any_nul, sys, must, exec_words, do_exec, or_exit, on_word,
  meet,
}

pub >>-eq-ok :
    {A : Type 0} (m : Proc (Unit {0})) (next : Proc A) (t : Trace) (a : A) (t' : Trace)
    → (m >> next) t ≡ (ok a, t')
    → (t1 : Trace) × (m t ≡ (ok tt, t1)) × (next t1 ≡ (ok a, t'))
>>-eq-ok m next t a t' h = after (m t) refl h
  where
    after :
        (r : Outcome (Unit {0}) × Trace)
        → m t ≡ r
        → go_on (λ _. next) r ≡ (ok a, t')
        → (t1 : Trace) × (m t ≡ (ok tt, t1)) × (next t1 ≡ (ok a, t'))
    after (ok tt, t1) e h = (t1, e, h)
    after (err m, t1) e h = absurd (cc (ap (λ r. r.0) h))
    after (panic, t1) e h = absurd (cc (ap (λ r. r.0) h))

-- A command that replaces a process.
abbrev pub Runs : Kernel → List String → Trace → Trace → Type 0
Runs kernel command t t' =
    (program : String) × (args : List String) × (command ≡ program ∷ args)
    × (kernel.call t (execvp program command) ≡ ok tt)
    × (t' ≡ t ++ execvp program command ∷ [])

-- Calls that follow a trace, each with success.
abbrev pub Succeed : Kernel → Trace → Trace → Type 0
Succeed kernel t [] = Unit {0}
Succeed kernel t (c ∷ cs) = (kernel.call t c ≡ ok tt) × Succeed kernel (t ++ c ∷ []) cs

pub Succeed-append :
    (kernel : Kernel) (t cs ds : Trace)
    → Succeed kernel t cs
    → Succeed kernel (t ++ cs) ds
    → Succeed kernel t (cs ++ ds)
Succeed-append kernel t [] ds h k = subst (λ l. Succeed kernel l ds) (append-nil t) k
Succeed-append kernel t (c ∷ cs) ds (now, h) k = (
  now,
  Succeed-append kernel (t ++ c ∷ []) cs ds h
      (subst (λ l. Succeed kernel l ds) (sym (append_assoc t (c ∷ []) cs)) k),
)

module _ (kernel : Kernel) where
  -- A process that gives up has not been replaced.
  pub gives_up : (t t' : Trace) → give_up kernel t ≡ (ok replaced, t') → ⊥
  gives_up t t' h =
      let (t1, _, last) =
        >>-eq-ok (must kernel (write_word "EXIT")) (answer (ok minus_one)) t replaced t' h in
      absurd (cc (ap (λ r. r.0) last))

  pub or_exit-replaced :
      (r : Outcome (Unit {0}) × Trace) (next : Proc Fate) (t' : Trace)
      → or_exit kernel r next ≡ (ok replaced, t')
      → (t1 : Trace) × (r ≡ (ok tt, t1)) × (next t1 ≡ (ok replaced, t'))
  or_exit-replaced (ok tt, t1) next t' h = (t1, refl, h)
  or_exit-replaced (err e, t1) next t' h = absurd (gives_up t1 t' h)
  or_exit-replaced (panic, t1) next t' h = absurd (cc (ap (λ r. r.0) h))

  exec_words-replaced :
      (program : String) (args : List String) (b c : Bool) (t t' : Trace)
      → or_else (exec_words kernel program (program ∷ args) b c) (λ e. answer (ok minus_one)) t
        ≡ (ok replaced, t')
      → (kernel.call t (execvp program (program ∷ args)) ≡ ok tt)
        × (t' ≡ t ++ execvp program (program ∷ args) ∷ [])
  unfolding sys
  exec_words-replaced program args true c t t' h = absurd (cc (ap (λ r. r.0) h))
  exec_words-replaced program args false true t t' h = absurd (cc (ap (λ r. r.0) h))
  exec_words-replaced program args false false t t' h =
      answered (kernel.call t (execvp program (program ∷ args))) refl h
    where
      answered :
          (r : Outcome (Unit {0}))
          → kernel.call t (execvp program (program ∷ args)) ≡ r
          → on_error
              (λ e. answer (ok minus_one))
              (go_on (λ _. answer (ok replaced)) (r, t ++ execvp program (program ∷ args) ∷ []))
            ≡ (ok replaced, t')
          → (kernel.call t (execvp program (program ∷ args)) ≡ ok tt)
            × (t' ≡ t ++ execvp program (program ∷ args) ∷ [])
      answered (ok tt) e h = (e, sym (ap (λ r. r.1) h))
      answered (err m) e h = absurd (cc (ap (λ r. r.0) h))
      answered panic e h = absurd (cc (ap (λ r. r.0) h))

  on_word-replaced :
      (command : List String) (w : Outcome Word) (t t' : Trace)
      → on_word kernel command w t ≡ (ok replaced, t')
      → (w ≡ ok cont) × Runs kernel command t t'
  unfolding do_exec
  on_word-replaced [] (ok cont) t t' h = absurd (cc (ap (λ r. r.0) h))
  on_word-replaced (program ∷ args) (ok cont) t t' h =
      let (ran, made) =
        exec_words-replaced program args (has_nul (codes program)) (any_nul (program ∷ args)) t t'
          h in
      (refl, (program, args, refl, ran, made))
  on_word-replaced command (ok exit) t t' h = absurd (cc (ap (λ r. r.0) h))
  on_word-replaced command (ok other) t t' h = absurd (cc (ap (λ r. r.0) h))
  on_word-replaced command (err e) t t' h = absurd (cc (ap (λ r. r.0) h))
  on_word-replaced command panic t t' h = absurd (cc (ap (λ r. r.0) h))

  unwrapped-ok : (r : Outcome (Unit {0})) → unwrapped r ≡ ok tt → r ≡ ok tt
  unwrapped-ok (ok tt) h = refl
  unwrapped-ok (err e) h = absurd (cc)
  unwrapped-ok panic h = absurd (cc)

  must-calls :
      (c : Syscall) (t t' : Trace)
      → must kernel c t ≡ (ok tt, t')
      → (kernel.call t c ≡ ok tt) × (t' ≡ t ++ c ∷ [])
  unfolding must
  must-calls c t t' h = (unwrapped-ok (kernel.call t c) (ap (λ r. r.0) h), sym (ap (λ r. r.1) h))

  pub meet-replaced :
      (command : List String) (t t' : Trace)
      → meet kernel command t ≡ (ok replaced, t')
      → (kernel.call t (write_word "WAIT") ≡ ok tt)
        × (kernel.read_exact (t ++ write_word "WAIT" ∷ []) ≡ ok cont)
        × Runs kernel command (t ++ write_word "WAIT" ∷ read_word ∷ []) t'
  unfolding meet
  meet-replaced command t t' h =
      let (t1, written, rest) =
        >>-eq-ok (must kernel (write_word "WAIT"))
          (λ t. on_word kernel command (kernel.read_exact t) (t ++ read_word ∷ [])) t replaced t'
          h in
      let (said, same) = must-calls (write_word "WAIT") t t1 written in
      let (met, runs) =
        on_word-replaced command (kernel.read_exact t1) (t1 ++ read_word ∷ []) t' rest in
      (
        said,
        subst (λ l. kernel.read_exact l ≡ ok cont) same met,
        subst (λ l. Runs kernel command l t')
            (ap (λ l. l ++ read_word ∷ []) same
              ∙ append_assoc t (write_word "WAIT" ∷ []) (read_word ∷ []))
            runs,
      )
