-- ===== src/Container/Child/Words.antt =====
-- What a container's process says to its parent.
use rtain.Base.{
  String, Bool, true, false, List, [], ◌∷◌, ◌++◌, append_assoc, append-nil, ◌≡◌, refl, sym, ap, ◌∙◌,
  ◌⊎◌, inl, inr, Outcome, ok, err, panic,
}
use rtain.Base.Text.{codes}
use rtain.Container.Task.{◌>>=◌, ◌>>◌, go_on, answer, or_else, on_error, unwrapped}
use rtain.Container.Child.{
  Syscall, write_word, read_word, execvp, Trace, Word, exit, cont, dup2, create_dir, remove_dir_all,
  other, Kernel, Fate, replaced, Proc, minus_one, give_up, has_nul, any_nul, sys, must, setup_stdio,
  switch_root, unless_exists, make_proc, setup_mount, exec_words, do_exec, or_exit, on_word, meet,
  child_func,
}

abbrev word_in : Syscall → List String
word_in (write_word word) = word ∷ []
word_in _ = []

-- The words that are written, in order.
unfoldable pub words : Trace → List String
words [] = []
words (c ∷ t) = word_in c ++ words t

words-append : (t u : Trace) → words (t ++ u) ≡ words t ++ words u
unfolding words
words-append [] u = refl
words-append (c ∷ t) u =
    ap (λ l. word_in c ++ l) (words-append t u) ∙ sym (append_assoc (word_in c) (words t) (words u))

words-step : (t : Trace) (c : Syscall) → words (t ++ c ∷ []) ≡ words t ++ word_in c
unfolding words
words-step t c = words-append t (c ∷ []) ∙ ap (λ l. words t ++ l) (append-nil (word_in c))

-- A step that writes no word, whatever it gives.
abbrev Silent : {A : Type 0} → Proc A → Type 0
Silent m = (t : Trace) → words (m t).1 ≡ words t

Silent-answer : {A : Type 0} (r : Outcome A) → Silent (answer r)
Silent-answer r t = refl

Silent->>= :
    {A B : Type 0} (m : Proc A) (next : A → Proc B)
    → Silent m
    → ((a : A) → Silent (next a))
    → Silent (m >>= next)
Silent->>= {A} {B} m next hm hn t = after (m t) (hm t)
  where
    after : (r : Outcome A × Trace) → words r.1 ≡ words t → words (go_on next r).1 ≡ words t
    after (ok a, u) h = hn a u ∙ h
    after (err e, u) h = h
    after (panic, u) h = h

Silent->> :
    {B : Type 0} (m : Proc (Unit {0})) (next : Proc B) → Silent m → Silent next → Silent (m >> next)
Silent->> m next hm hn = Silent->>= m (λ _. next) hm (λ _. hn)

-- One word at most: `EXIT` at the end of a process that gives up, or `WAIT`. A process without a
-- word has panicked.
abbrev pub OneWord : Outcome Fate → Trace → Type 0
OneWord r t =
    ((words t ≡ "EXIT" ∷ []) × ((r ≡ ok minus_one) ⊎ (r ≡ panic)))
    ⊎ ((words t ≡ "WAIT" ∷ []) ⊎ ((words t ≡ []) × (r ≡ panic)))

abbrev Speaks : Outcome Fate × Trace → Type 0
Speaks r = OneWord r.0 r.1

module _ (kernel : Kernel) where
  Silent-sys : (c : Syscall) → word_in c ≡ [] → Silent (sys kernel c)
  unfolding sys
  Silent-sys c h t = words-step t c ∙ (ap (λ l. words t ++ l) h ∙ append-nil (words t))

  Silent-step :
      {B : Type 0} (c : Syscall) (next : Proc B)
      → word_in c ≡ []
      → Silent next
      → Silent (sys kernel c >> next)
  Silent-step c next h = Silent->> (sys kernel c) next (Silent-sys c h)

  setup_stdio-Silent : Silent (setup_stdio kernel)
  unfolding setup_stdio
  setup_stdio-Silent = Silent-step _ _ refl (
      Silent-step _ _ refl (Silent-step _ _ refl (Silent-step _ _ refl (Silent-sys (dup2 2) refl))))

  switch_root-Silent : (root : String) → Silent (switch_root kernel root)
  unfolding switch_root
  switch_root-Silent root = Silent-step _ _ refl (
      Silent-step _ _ refl (
        Silent-step _ _ refl (
          Silent-step _ _ refl
            (Silent-step _ _ refl (Silent-sys (remove_dir_all "/.pivot_root") refl)))))

  make_proc-Silent : Silent (make_proc kernel)
  unfolding make_proc
  make_proc-Silent t = made (kernel.exists t "/proc")
    where
      made : (b : Bool) → words (unless_exists kernel b "/proc" t).1 ≡ words t
      made true = refl
      made false = Silent-sys (create_dir "/proc") refl t

  setup_mount-Silent : (root : String) → Silent (setup_mount kernel root)
  unfolding setup_mount
  setup_mount-Silent root = Silent-step _ _ refl (
      Silent->> (switch_root kernel root) _ (switch_root-Silent root)
        (Silent->> (make_proc kernel) _ make_proc-Silent (Silent-sys _ refl)))

  or_else-Silent :
      {A : Type 0} (m : Proc A) (r : Outcome A) → Silent m → Silent (or_else m (λ e. answer r))
  or_else-Silent {A} m r h t = after (m t) (h t)
    where
      after :
          (s : Outcome A × Trace)
          → words s.1 ≡ words t
          → words (on_error (λ e. answer r) s).1 ≡ words t
      after (ok a, u) h = h
      after (err e, u) h = h
      after (panic, u) h = h

  exec_words-Silent :
      (program : String) (args : List String) (b c : Bool)
      → Silent (exec_words kernel program args b c)
  exec_words-Silent program args true c t = refl
  exec_words-Silent program args false true t = refl
  exec_words-Silent program args false false t =
      Silent-step (execvp program args) (answer (ok replaced)) refl (Silent-answer (ok replaced)) t

  do_exec-Silent : (command : List String) → Silent (do_exec kernel command)
  unfolding do_exec
  do_exec-Silent [] t = refl
  do_exec-Silent (program ∷ args) t =
      exec_words-Silent program (program ∷ args) (has_nul (codes program))
        (any_nul (program ∷ args)) t

  on_word-Silent : (command : List String) (w : Outcome Word) → Silent (on_word kernel command w)
  on_word-Silent command (ok cont) t =
      or_else-Silent (do_exec kernel command) (ok minus_one) (do_exec-Silent command) t
  on_word-Silent command (ok exit) t = refl
  on_word-Silent command (ok other) t = refl
  on_word-Silent command (err e) t = refl
  on_word-Silent command panic t = refl

  must-words :
      (word : String) (t : Trace)
      → words t ≡ []
      → words (must kernel (write_word word) t).1 ≡ word ∷ []
  unfolding must
  must-words word t h = words-step t (write_word word) ∙ ap (λ l. l ++ word ∷ []) h

  give_up-Speaks : (t : Trace) → words t ≡ [] → Speaks (give_up kernel t)
  unfolding must
  give_up-Speaks t h = after (kernel.call t (write_word "EXIT"))
    where
      said : words (t ++ write_word "EXIT" ∷ []) ≡ "EXIT" ∷ []
      said = must-words "EXIT" t h

      after :
          (o : Outcome (Unit {0}))
          → Speaks (go_on (λ _. answer (ok minus_one)) (unwrapped o, t ++ write_word "EXIT" ∷ []))
      after (ok _) = inl (said, inl refl)
      after (err e) = inl (said, inr refl)
      after panic = inl (said, inr refl)

  meet-words :
      (command : List String) (t : Trace)
      → words t ≡ []
      → words (meet kernel command t).1 ≡ "WAIT" ∷ []
  unfolding meet
  meet-words command t h = after (must kernel (write_word "WAIT") t) (must-words "WAIT" t h)
    where
      next : Proc Fate
      next t = on_word kernel command (kernel.read_exact t) (t ++ read_word ∷ [])

      after :
          (r : Outcome (Unit {0}) × Trace)
          → words r.1 ≡ "WAIT" ∷ []
          → words (go_on (λ _. next) r).1 ≡ "WAIT" ∷ []
      after (ok _, u) h =
          on_word-Silent command (kernel.read_exact u) (u ++ read_word ∷ [])
          ∙ (words-step u read_word ∙ (append-nil (words u) ∙ h))
      after (err e, u) h = h
      after (panic, u) h = h

  or_exit-Speaks :
      (r : Outcome (Unit {0}) × Trace) (next : Proc Fate)
      → words r.1 ≡ []
      → ((t : Trace) → words t ≡ [] → Speaks (next t))
      → Speaks (or_exit kernel r next)
  or_exit-Speaks (ok _, t) next h k = k t h
  or_exit-Speaks (err e, t) next h k = give_up-Speaks t h
  or_exit-Speaks (panic, t) next h k = inr (inr (h, refl))

  -- Whatever the kernel answers, the process of a new container writes one word: `EXIT` when it
  -- gives up before it is ready, or `WAIT`, and no word behind it. Without a word it has panicked.
  pub child_func-OneWord :
      (root : String) (command : List String)
      → OneWord (child_func kernel root command []).0 (child_func kernel root command []).1
  unfolding child_func words
  child_func-OneWord root command =
      or_exit-Speaks (setup_stdio kernel []) _ (setup_stdio-Silent []) (λ t h.
        or_exit-Speaks (setup_mount kernel root t) (meet kernel command)
          (setup_mount-Silent root t ∙ h) (λ t h. inr (inl (meet-words command t h))))
