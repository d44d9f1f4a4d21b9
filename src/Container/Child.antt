-- ===== src/Container/Child.antt =====
-- What runs in the processes of a container: `child_func`, `setup_mount`, `switch_root` and
-- `do_init` of src/core/container/init.rs, and `child_func`, `enter_ns` and `do_exec` of
-- src/core/container/exec.rs. What the kernel answers is a parameter.
pub mod Replaced
pub mod Order
pub mod Words
use rtain.Base.Text.{◌⧺◌, codes}
use rtain.Base.{
  ℕ, String, Bool, true, false, ◌==◌, ◌||◌, List, [], ◌∷◌, ◌++◌, Option, none, some, ℤ, pos, negsuc,
  Outcome, ok, err, panic, if◌then◌else◌,
}
use rtain.Container.Task.{Steps, ◌>>=◌, ◌>>◌, answer, or_else, on_error, unwrapped}

pub data MountFlag : Type 0 where
  ms_rec ms_private ms_bind ms_noexec ms_nosuid ms_nodev : MountFlag

-- The calls of a process.
pub data Syscall : Type 0 where
  -- the two ends of the terminal, and the slave onto a standard stream
  clone_master clone_slave : Syscall
  dup2 : ℕ → Syscall
  mount : Option String → String → Option String → List MountFlag → Syscall
  create_dir create_dir_all remove_dir_all : String → Syscall
  pivot_root : String → String → Syscall
  chdir umount_detached : String → Syscall
  open_file setns : String → Syscall
  fork waitpid : Syscall
  -- the socket pair
  write_word : String → Syscall
  read_word : Syscall
  execvp : String → List String → Syscall

abbrev pub Trace : Type 0
Trace = List Syscall

-- The word of the parent.
pub data Word : Type 0 where
  exit cont other : Word

-- The side of a fork, with the identifier of the child.
pub data Side : Type 0 where
  parent : ℤ → Side
  child : Side

pub data WaitStatus : Type 0 where
  exited signaled : ℤ → WaitStatus
  unusual : WaitStatus

-- What the kernel answers to a call, behind the calls before it.
pub record Kernel : Type 0 where
  pub call : Trace → Syscall → Outcome (Unit {0})
  pub exists : Trace → String → Bool
  pub read_exact : Trace → Outcome Word
  pub fork : Trace → Outcome Side
  pub waitpid : Trace → ℤ → Outcome WaitStatus

-- A process gives back a code, or runs a program in its place.
pub data Fate : Type 0 where
  returns : ℤ → Fate
  replaced : Fate

abbrev pub Proc : Type 0 → Type 0
Proc A = Steps Trace A

-- `return -1`
abbrev pub minus_one : Fate
minus_one = returns (negsuc 0)

-- A text with a zero byte is not a C string.
unfoldable pub has_nul : List ℕ → Bool
has_nul [] = false
has_nul (c ∷ cs) = c == 0 || has_nul cs

unfoldable pub any_nul : List String → Bool
any_nul [] = false
any_nul (word ∷ words) = has_nul (codes word) || any_nul words

abbrev pub ns_path : String → String → String
ns_path pid ns = "/proc/" ⧺ pid ⧺ "/ns/" ⧺ ns

abbrev pub namespaces : List String
namespaces = "ipc" ∷ "uts" ∷ "net" ∷ "pid" ∷ "mnt" ∷ []

abbrev pub code_of : WaitStatus → ℤ
code_of (exited code) = code
code_of (signaled sig) = sig
code_of unusual = negsuc 0

abbrev pub reaped : Outcome WaitStatus → Outcome Fate
reaped (ok status) = ok (returns (code_of status))
reaped (err e) = panic
reaped panic = panic

module _ (kernel : Kernel) where
  unfoldable pub sys : Syscall → Proc (Unit {0})
  sys c t = (kernel.call t c, t ++ c ∷ [])

  -- A call whose result is unwrapped.
  unfoldable pub must : Syscall → Proc (Unit {0})
  must c t = (unwrapped (kernel.call t c), t ++ c ∷ [])

  unfoldable pub setup_stdio : Proc (Unit {0})
  setup_stdio = do sys clone_master; sys clone_slave; sys (dup2 0); sys (dup2 1); sys (dup2 2)

  unfoldable pub switch_root : String → Proc (Unit {0})
  switch_root root = do
    sys (mount (some root) root none (ms_bind ∷ ms_rec ∷ []))
    sys (create_dir_all (root ⧺ "/.pivot_root"))
    sys (pivot_root root (root ⧺ "/.pivot_root"))
    sys (chdir "/")
    sys (umount_detached "/.pivot_root")
    sys (remove_dir_all "/.pivot_root")

  abbrev pub unless_exists : Bool → String → Proc (Unit {0})
  unless_exists true path = answer (ok tt)
  unless_exists false path = sys (create_dir path)

  unfoldable pub make_proc : Proc (Unit {0})
  make_proc t = unless_exists (kernel.exists t "/proc") "/proc" t

  unfoldable pub setup_mount : String → Proc (Unit {0})
  setup_mount mnt_path = do
    sys (mount none "/" none (ms_rec ∷ ms_private ∷ []))
    switch_root mnt_path
    make_proc
    sys (mount (some "proc") "/proc" (some "proc") (ms_noexec ∷ ms_nosuid ∷ ms_nodev ∷ []))

  -- The program and its arguments: the strings of the arguments are unwrapped.
  abbrev pub exec_words : String → List String → Bool → Bool → Proc Fate
  exec_words program words true other_nul = answer (err "nul byte found in provided data")
  exec_words program words false true = answer panic
  exec_words program words false false = do sys (execvp program words); answer (ok replaced)

  -- `do_init` and `do_exec`: a command without a word is a panic.
  unfoldable pub do_exec : List String → Proc Fate
  do_exec [] = answer panic
  do_exec (program ∷ args) =
      exec_words program (program ∷ args) (has_nul (codes program)) (any_nul (program ∷ args))

  -- `EXIT`, and the code -1.
  abbrev pub give_up : Proc Fate
  give_up = must (write_word "EXIT") >> answer (ok minus_one)

  -- A step whose error sends `EXIT` and ends the process.
  abbrev pub or_exit : Outcome (Unit {0}) × Trace → Proc Fate → Outcome Fate × Trace
  or_exit (ok _, t) next = next t
  or_exit (err e, t) next = give_up t
  or_exit (panic, t) next = (panic, t)

  -- What follows the word of the parent; other words are unreachable.
  abbrev pub on_word : List String → Outcome Word → Proc Fate
  on_word command (ok cont) = or_else (do_exec command) (λ e. answer (ok minus_one))
  on_word command (ok exit) = answer (ok minus_one)
  on_word command (ok other) = answer panic
  on_word command (err e) = answer panic
  on_word command panic = answer panic

  -- The two words with the parent, then the command.
  unfoldable pub meet : List String → Proc Fate
  meet command t =
      (must (write_word "WAIT")
          >> (λ t. on_word command (kernel.read_exact t) (t ++ read_word ∷ [])))
        t

  -- `child_func` of a new container.
  unfoldable pub child_func : String → List String → Proc Fate
  child_func mnt_path command t =
      or_exit (setup_stdio t) (λ t. or_exit (setup_mount mnt_path t) (meet command))

  -- The loop of `enter_ns`.
  unfoldable pub enter_each : String → List String → Proc (Unit {0})
  enter_each pid [] = answer (ok tt)
  enter_each pid (ns ∷ rest) = do
    sys (open_file (ns_path pid ns))
    sys (setns (ns_path pid ns))
    enter_each pid rest

  unfoldable pub enter_ns : String → Proc (Unit {0})
  enter_ns pid = enter_each pid namespaces

  -- The parent waits and exits with the code of the child; the child runs the command.
  abbrev pub on_fork : List String → Outcome Side → Proc Fate
  on_fork command (ok (parent pid)) t = (reaped (kernel.waitpid t pid), t ++ waitpid ∷ [])
  on_fork command (ok child) t = or_exit (setup_stdio t) (meet command)
  on_fork command (err e) t = give_up t
  on_fork command panic t = (panic, t)

  -- `child_func` of an exec.
  unfoldable pub exec_child : String → List String → Proc Fate
  exec_child pid command t =
      or_exit (enter_ns pid t) (λ t. on_fork command (kernel.fork t) (t ++ fork ∷ []))
