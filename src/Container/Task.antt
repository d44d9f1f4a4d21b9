-- ===== src/Container/Task.antt =====
-- A chain of steps that may fail and that act on a state: the world of the handlers, or the calls
-- that a process has made.
use rtain.Base.{ℤ, String, Outcome, ok, err, panic, dropped}
use rtain.Container.World.{Call, write_word, World, call}

abbrev pub Steps : Type 0 → Type 0 → Type 0
Steps S A = S → Outcome A × S

abbrev pub Task : Type 0 → Type 0
Task A = Steps World A

abbrev pub go_on : {S A B : Type 0} → (A → Steps S B) → Outcome A × S → Outcome B × S
go_on next (ok a, w) = next a w
go_on next (err e, w) = (err e, w)
go_on next (panic, w) = (panic, w)

infixl 5 ◌>>=◌ ◌>>◌
abbrev pub ◌>>=◌ : {S A B : Type 0} → Steps S A → (A → Steps S B) → Steps S B
step >>= next = λ w. go_on next (step w)

abbrev pub ◌>>◌ : {S B : Type 0} → Steps S (Unit {0}) → Steps S B → Steps S B
step >> next = λ w. go_on (λ _. next) (step w)

-- A result that the host gives.
abbrev pub answer : {S A : Type 0} → Outcome A → Steps S A
answer r = λ w. (r, w)

abbrev pub on_error : {S A : Type 0} → (String → Steps S A) → Outcome A × S → Outcome A × S
on_error handle (ok a, w) = (ok a, w)
on_error handle (err e, w) = handle e w
on_error handle (panic, w) = (panic, w)

-- `if let Err(e) = step { … }`
abbrev pub or_else : {S A : Type 0} → Steps S A → (String → Steps S A) → Steps S A
or_else step handle = λ w. on_error handle (step w)

-- `let _ = step;`
abbrev pub ignoring : {S : Type 0} → Steps S (Unit {0}) → Steps S (Unit {0})
ignoring step = λ w. dropped (step w)

-- A call of the host that is written down.
abbrev pub noted : Call → Task (Unit {0})
noted c = λ w. (ok tt, call c w)

-- `unwrap`: an error is a panic.
abbrev pub unwrapped : {A : Type 0} → Outcome A → Outcome A
unwrapped (ok a) = ok a
unwrapped (err e) = panic
unwrapped panic = panic

-- `p_sock.write(word).unwrap()`, with the host's answer.
abbrev pub tell : ℤ → String → Outcome (Unit {0}) → Task (Unit {0})
tell child word written = noted (write_word child word) >> answer (unwrapped written)
