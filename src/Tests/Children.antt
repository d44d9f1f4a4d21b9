-- ===== src/Tests/Children.antt =====
-- The theorems about the processes of a container, where every call succeeds.
use rtain.Base.{ok, Bool, true, String, List, [], ◌∷◌, ◌++◌, ◌≡◌, refl, ok}
use rtain.Container.Child.{
  Trace, Kernel, child, cont, replaced, exited, write_word, read_word, execvp, fork, sys, must,
  setup_stdio, switch_root, make_proc, setup_mount, do_exec, has_nul, any_nul, meet, child_func,
  enter_each, enter_ns, exec_child, namespaces,
}
use rtain.Container.Child.Replaced.{Succeed}
use rtain.Container.Child.Order.{stdio, rooted, joins, child_func-order, exec_child-order}
use rtain.Container.Child.Words.{OneWord, child_func-OneWord}
use rtain.Base.{pos}

abbrev kernel : Kernel
kernel = record {
  call = λ t c. ok tt;
  exists = λ t path. true;
  read_exact = λ t. ok cont;
  fork = λ t. ok child;
  waitpid = λ t pid. ok (exited (pos 0));
}

abbrev container_calls : Trace
container_calls =
    ((stdio ++ rooted "/m" true) ++ write_word "WAIT" ∷ read_word ∷ [])
    ++ execvp "sh" ("sh" ∷ []) ∷ []

container_runs : child_func kernel "/m" ("sh" ∷ []) [] ≡ (ok replaced, container_calls)
unfolding child_func setup_stdio setup_mount switch_root make_proc meet do_exec sys must has_nul
    any_nul
container_runs = refl

child_func-order_example :
    (has_proc : Bool) × (program : String) × (args : List String) × ("sh" ∷ [] ≡ program ∷ args)
    × Succeed kernel [] ((stdio ++ rooted "/m" has_proc) ++ write_word "WAIT" ∷ [])
    × (kernel.read_exact ((stdio ++ rooted "/m" has_proc) ++ write_word "WAIT" ∷ []) ≡ ok cont)
    × (kernel.call
          ((stdio ++ rooted "/m" has_proc) ++ write_word "WAIT" ∷ read_word ∷ [])
          (execvp program ("sh" ∷ []))
        ≡ ok tt)
    × (container_calls
        ≡ ((stdio ++ rooted "/m" has_proc) ++ write_word "WAIT" ∷ read_word ∷ [])
          ++ execvp program ("sh" ∷ []) ∷ [])
child_func-order_example = child_func-order kernel "/m" ("sh" ∷ []) container_calls container_runs

child_func-OneWord_example :
    OneWord (child_func kernel "/m" ("sh" ∷ []) []).0 (child_func kernel "/m" ("sh" ∷ []) []).1
child_func-OneWord_example = child_func-OneWord kernel "/m" ("sh" ∷ [])

abbrev exec_calls : Trace
exec_calls =
    (((joins "42" namespaces ++ fork ∷ []) ++ stdio) ++ write_word "WAIT" ∷ read_word ∷ [])
    ++ execvp "ls" ("ls" ∷ []) ∷ []

exec_runs : exec_child kernel "42" ("ls" ∷ []) [] ≡ (ok replaced, exec_calls)
unfolding exec_child enter_ns enter_each setup_stdio meet do_exec sys must has_nul any_nul
exec_runs = refl

exec_child-order_example :
    (program : String) × (args : List String) × ("ls" ∷ [] ≡ program ∷ args)
    × Succeed kernel [] (joins "42" namespaces)
    × (kernel.fork (joins "42" namespaces) ≡ ok child)
    × Succeed kernel (joins "42" namespaces ++ fork ∷ []) (stdio ++ write_word "WAIT" ∷ [])
    × (kernel.read_exact (((joins "42" namespaces ++ fork ∷ []) ++ stdio) ++ write_word "WAIT" ∷ [])
        ≡ ok cont)
    × (kernel.call
          (((joins "42" namespaces ++ fork ∷ []) ++ stdio) ++ write_word "WAIT" ∷ read_word ∷ [])
          (execvp program ("ls" ∷ []))
        ≡ ok tt)
    × (exec_calls
        ≡ (((joins "42" namespaces ++ fork ∷ []) ++ stdio) ++ write_word "WAIT" ∷ read_word ∷ [])
          ++ execvp program ("ls" ∷ []) ∷ [])
exec_child-order_example = exec_child-order kernel "42" ("ls" ∷ []) exec_calls exec_runs
