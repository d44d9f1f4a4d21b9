-- ===== src/Container/Child/Order.antt =====
-- In which order the processes of a container make their calls before they run a command.
use mathlib.Core.Path.{subst}
use rtain.Base.{
  String, Bool, true, false, List, [], ◌∷◌, ◌++◌, append_assoc, append-nil, none, some, ◌≡◌, refl,
  sym, ap, ◌∙◌, Outcome, ok, err, panic,
}
use rtain.Base.Text.{◌⧺◌}
use rtain.Container.Task.{◌>>◌}
use rtain.Container.Child.Replaced.{
  Succeed, Succeed-append, >>-eq-ok, Runs, gives_up, or_exit-replaced, meet-replaced,
}
use rtain.Container.Child.{
  ms_rec, ms_private, ms_bind, ms_noexec, ms_nosuid, ms_nodev, Syscall, clone_master, clone_slave,
  dup2, mount, create_dir, create_dir_all, remove_dir_all, pivot_root, chdir, umount_detached,
  open_file, setns, fork, WaitStatus, write_word, read_word, execvp, Trace, cont, Kernel, replaced,
  Proc, sys, setup_stdio, switch_root, unless_exists, make_proc, setup_mount, or_exit, meet,
  child_func, Side, parent, child, reaped, on_fork, ns_path, namespaces, enter_each, enter_ns,
  exec_child,
}

-- The calls that bind the terminal to the standard streams.
abbrev pub stdio : Trace
stdio = clone_master ∷ clone_slave ∷ dup2 0 ∷ dup2 1 ∷ dup2 2 ∷ []

abbrev proc_made : Bool → Trace
proc_made true = []
proc_made false = create_dir "/proc" ∷ []

-- The calls of `switch_root`.
abbrev pub switched : String → Trace
switched root =
    mount (some root) root none (ms_bind ∷ ms_rec ∷ [])
    ∷ create_dir_all (root ⧺ "/.pivot_root")
    ∷ pivot_root root (root ⧺ "/.pivot_root")
    ∷ chdir "/"
    ∷ umount_detached "/.pivot_root"
    ∷ remove_dir_all "/.pivot_root"
    ∷ []

-- The calls that put a process into its own root: the mounts are made private, the new root is
-- bound and becomes the root, and the old one is unmounted before `/proc` is mounted.
abbrev pub rooted : String → Bool → Trace
rooted root has_proc =
    mount none "/" none (ms_rec ∷ ms_private ∷ [])
    ∷ (switched root
        ++ (proc_made has_proc
            ++ mount (some "proc") "/proc" (some "proc") (ms_noexec ∷ ms_nosuid ∷ ms_nodev ∷ [])
              ∷ []))

-- The calls of `enter_ns`.
abbrev pub joins : String → List String → Trace
joins pid [] = []
joins pid (ns ∷ rest) = open_file (ns_path pid ns) ∷ setns (ns_path pid ns) ∷ joins pid rest

module _ (kernel : Kernel) where
  -- A step that, when it succeeds, has made the given calls, each with success.
  abbrev Makes : Proc (Unit {0}) → Trace → Type 0
  Makes m calls = (t t' : Trace) → m t ≡ (ok tt, t') → (t' ≡ t ++ calls) × Succeed kernel t calls

  Makes-sys : (c : Syscall) → Makes (sys kernel c) (c ∷ [])
  unfolding sys
  Makes-sys c t t' h = (sym (ap (λ r. r.1) h), (ap (λ r. r.0) h, tt))

  Makes->> :
      (m n : Proc (Unit {0})) (cs ds : Trace) → Makes m cs → Makes n ds → Makes (m >> n) (cs ++ ds)
  Makes->> m n cs ds hm hn t t' h =
      let (t1, first, second) = >>-eq-ok m n t tt t' h in
      let (made, good) = hm t t1 first in
      let (last, fine) = hn t1 t' second in
      (
        last ∙ (ap (λ l. l ++ ds) made ∙ append_assoc t cs ds),
        Succeed-append kernel t cs ds good (subst (λ l. Succeed kernel l ds) made fine),
      )

  Makes-step :
      (c : Syscall) (n : Proc (Unit {0})) (ds : Trace)
      → Makes n ds
      → Makes (sys kernel c >> n) (c ∷ ds)
  Makes-step c n ds h = Makes->> (sys kernel c) n (c ∷ []) ds (Makes-sys c) h

  setup_stdio-Makes : Makes (setup_stdio kernel) stdio
  unfolding setup_stdio
  setup_stdio-Makes =
      Makes-step _ _ _ (Makes-step _ _ _ (Makes-step _ _ _ (Makes-step _ _ _ (Makes-sys (dup2 2)))))

  switch_root-Makes : (root : String) → Makes (switch_root kernel root) (switched root)
  unfolding switch_root
  switch_root-Makes root = Makes-step _ _ _ (
      Makes-step _ _ _ (
        Makes-step _ _ _
          (Makes-step _ _ _ (Makes-step _ _ _ (Makes-sys (remove_dir_all "/.pivot_root"))))))

  unless_exists-Makes : (b : Bool) → Makes (unless_exists kernel b "/proc") (proc_made b)
  unless_exists-Makes true t t' h = (sym (append-nil t ∙ ap (λ r. r.1) h), tt)
  unless_exists-Makes false t t' h = Makes-sys (create_dir "/proc") t t' h

  setup_mount-calls :
      (root : String) (t t' : Trace)
      → setup_mount kernel root t ≡ (ok tt, t')
      → (has_proc : Bool) × (t' ≡ t ++ rooted root has_proc)
        × Succeed kernel t (rooted root has_proc)
  unfolding setup_mount make_proc
  setup_mount-calls root t t' h =
      let m1 = mount none "/" none (ms_rec ∷ ms_private ∷ []) in
      let m2 = mount (some "proc") "/proc" (some "proc") (ms_noexec ∷ ms_nosuid ∷ ms_nodev ∷ []) in
      let (t1, h1, r1) =
        >>-eq-ok (sys kernel m1) (switch_root kernel root >> (make_proc kernel >> sys kernel m2)) t
          tt t' h in
      let (t2, h2, r2) =
        >>-eq-ok (switch_root kernel root) (make_proc kernel >> sys kernel m2) t1 tt t' r1 in
      let has_proc = kernel.exists t2 "/proc" in
      let rest = proc_made has_proc ++ m2 ∷ [] in
      let (first, good1) = Makes-sys m1 t t1 h1 in
      let (second, good2) = switch_root-Makes root t1 t2 h2 in
      let (third, good3) =
        Makes->> (unless_exists kernel has_proc "/proc") (sys kernel m2) (proc_made has_proc)
          (m2 ∷ []) (unless_exists-Makes has_proc) (Makes-sys m2) t2 t' r2 in
      (
        has_proc,
        third
            ∙ (ap (λ l. l ++ rest) (second ∙ ap (λ l. l ++ switched root) first)
                ∙ (append_assoc (t ++ m1 ∷ []) (switched root) rest
                    ∙ append_assoc t (m1 ∷ []) (switched root ++ rest))),
        (
          good1.0,
          subst (λ l. Succeed kernel l (switched root ++ rest)) first
              (Succeed-append kernel t1 (switched root) rest good2
                (subst (λ l. Succeed kernel l rest) second good3)),
        ),
      )

  -- Where the process of a new container is replaced by its command, it has made exactly these
  -- calls, each with success: the terminal, the root, the words, and last the command. The parent's
  -- word was `CONT`.
  pub child_func-order :
      (root : String) (command : List String) (t : Trace)
      → child_func kernel root command [] ≡ (ok replaced, t)
      → (has_proc : Bool) × (program : String) × (args : List String) × (command ≡ program ∷ args)
        × Succeed kernel [] ((stdio ++ rooted root has_proc) ++ write_word "WAIT" ∷ [])
        × (kernel.read_exact ((stdio ++ rooted root has_proc) ++ write_word "WAIT" ∷ []) ≡ ok cont)
        × (kernel.call
              ((stdio ++ rooted root has_proc) ++ write_word "WAIT" ∷ read_word ∷ [])
              (execvp program command)
            ≡ ok tt)
        × (t
            ≡ ((stdio ++ rooted root has_proc) ++ write_word "WAIT" ∷ read_word ∷ [])
              ++ execvp program command ∷ [])
  unfolding child_func
  child_func-order root command t h =
      let (t1, h1, r1) =
        or_exit-replaced kernel (setup_stdio kernel [])
          (λ t. or_exit kernel (setup_mount kernel root t) (meet kernel command)) t h in
      let (t2, h2, r2) =
        or_exit-replaced kernel (setup_mount kernel root t1) (meet kernel command) t r1 in
      let (has_proc, made, good) = setup_mount-calls root t1 t2 h2 in
      let (bound, fine) = setup_stdio-Makes [] t1 h1 in
      let all = made ∙ ap (λ l. l ++ rooted root has_proc) bound in
      let (said, met, (program, args, words, ran, last)) =
        subst
          (λ l.
            (kernel.call l (write_word "WAIT") ≡ ok tt)
            × (kernel.read_exact (l ++ write_word "WAIT" ∷ []) ≡ ok cont)
            × Runs kernel command (l ++ write_word "WAIT" ∷ read_word ∷ []) t)
          all (meet-replaced kernel command t2 t r2) in
      let before =
        Succeed-append kernel [] stdio (rooted root has_proc) fine
          (subst (λ l. Succeed kernel l (rooted root has_proc)) bound good) in
      (
        has_proc,
        program,
        args,
        words,
        Succeed-append kernel [] (stdio ++ rooted root has_proc) (write_word "WAIT" ∷ []) before
            (said, tt),
        met,
        ran,
        last,
      )

  enter_each-Makes :
      (pid : String) (names : List String) → Makes (enter_each kernel pid names) (joins pid names)
  unfolding enter_each
  enter_each-Makes pid [] t t' h = (sym (append-nil t ∙ ap (λ r. r.1) h), tt)
  enter_each-Makes pid (ns ∷ rest) t t' h =
      Makes-step _ _ _ (Makes-step _ _ _ (enter_each-Makes pid rest)) t t' h

  on_fork-replaced :
      (command : List String) (side : Outcome Side) (t t' : Trace)
      → on_fork kernel command side t ≡ (ok replaced, t')
      → (side ≡ ok child)
        × (t1 : Trace) × (setup_stdio kernel t ≡ (ok tt, t1))
        × (meet kernel command t1 ≡ (ok replaced, t'))
  on_fork-replaced command (ok (parent pid)) t t' h =
      absurd (reaps (kernel.waitpid t pid) (ap (λ r. r.0) h))
    where
      reaps : (r : Outcome WaitStatus) → reaped r ≡ ok replaced → ⊥
      reaps (ok status) h = cc
      reaps (err e) h = cc
      reaps panic h = cc
  on_fork-replaced command (ok child) t t' h =
      let (t1, bound, rest) =
        or_exit-replaced kernel (setup_stdio kernel t) (meet kernel command) t' h in
      (refl, t1, bound, rest)
  on_fork-replaced command (err e) t t' h = absurd (gives_up kernel t t' h)
  on_fork-replaced command panic t t' h = absurd (cc (ap (λ r. r.0) h))

  -- Where the process of an exec is replaced by the command, it has entered the five namespaces of
  -- the container, each with success and in the order of the code, before its fork; it is the child
  -- of the fork, bound to the terminal, and the parent's word was `CONT`.
  pub exec_child-order :
      (pid : String) (command : List String) (t : Trace)
      → exec_child kernel pid command [] ≡ (ok replaced, t)
      → (program : String) × (args : List String) × (command ≡ program ∷ args)
        × Succeed kernel [] (joins pid namespaces)
        × (kernel.fork (joins pid namespaces) ≡ ok child)
        × Succeed kernel (joins pid namespaces ++ fork ∷ []) (stdio ++ write_word "WAIT" ∷ [])
        × (kernel.read_exact
              (((joins pid namespaces ++ fork ∷ []) ++ stdio) ++ write_word "WAIT" ∷ [])
            ≡ ok cont)
        × (kernel.call
              (((joins pid namespaces ++ fork ∷ []) ++ stdio) ++ write_word "WAIT" ∷ read_word ∷ [])
              (execvp program command)
            ≡ ok tt)
        × (t
            ≡ (((joins pid namespaces ++ fork ∷ []) ++ stdio) ++ write_word "WAIT" ∷ read_word ∷ [])
              ++ execvp program command ∷ [])
  unfolding exec_child enter_ns
  exec_child-order pid command t h =
      let (t1, h1, r1) =
        or_exit-replaced kernel (enter_ns kernel pid [])
          (λ t. on_fork kernel command (kernel.fork t) (t ++ fork ∷ [])) t h in
      let (joined, entered) = enter_each-Makes pid namespaces [] t1 h1 in
      let (forked, t2, h2, r2) = on_fork-replaced command (kernel.fork t1) (t1 ++ fork ∷ []) t r1 in
      let (bound, fine) = setup_stdio-Makes (t1 ++ fork ∷ []) t2 h2 in
      let all = bound ∙ ap (λ l. (l ++ fork ∷ []) ++ stdio) joined in
      let (said, met, (program, args, words, ran, last)) =
        subst
          (λ l.
            (kernel.call l (write_word "WAIT") ≡ ok tt)
            × (kernel.read_exact (l ++ write_word "WAIT" ∷ []) ≡ ok cont)
            × Runs kernel command (l ++ write_word "WAIT" ∷ read_word ∷ []) t)
          all (meet-replaced kernel command t2 t r2) in
      let here = joins pid namespaces ++ fork ∷ [] in
      (
        program,
        args,
        words,
        entered,
        subst (λ l. kernel.fork l ≡ ok child) joined forked,
        Succeed-append kernel here stdio (write_word "WAIT" ∷ [])
            (subst (λ l. Succeed kernel (l ++ fork ∷ []) stdio) joined fine) (said, tt),
        met,
        ran,
        last,
      )
