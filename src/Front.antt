-- ===== src/Front.antt =====
-- The client: src/front/ops.rs and src/front/cli.rs. What a client reads is the list of bytes that
-- the daemon has written on its connection before it is closed.
pub mod Answers
pub mod Attached
use rtain.Base.Text.{◌⧺◌}
use rtain.Base.{
  ℕ, zero, suc, String, Bool, true, false, List, [], ◌∷◌, ◌++◌, Outcome, ok, err, panic, length,
  take, drop, if◌then◌else◌,
}
use rtain.Base.Bytes.{Bytes, Codec}
use rtain.Cmd.{
  Cli, Commands, run, start, exec, stop, rm, ps, logs, commit, network, NetworkCommands, create,
}
use rtain.Msg.{Msg, req, ok_empty, ok_content, continue, error, recv_from}

-- What the client prints.
pub data Output : Type 0 where
  stdout stderr : String → Output
  copied : Bytes → Output

-- One message is expected; another is unreachable.
abbrev pub answered : (String → String) → Outcome Msg → Outcome (List Output)
answered failure (ok (ok_content cont)) = ok (stdout cont ∷ [])
answered failure (ok (error e)) = ok (stderr (failure e) ∷ [])
answered failure (ok (req cli)) = panic
answered failure (ok ok_empty) = panic
answered failure (ok continue) = panic
answered failure (err e) = ok (stderr ("Failed to recv msg from daemon: " ⧺ e) ∷ [])
answered failure panic = panic

-- `client_create_network`: another message is reported.
abbrev pub answered_network : (String → String) → Outcome Msg → Outcome (List Output)
answered_network failure (ok (ok_content cont)) = ok (stdout cont ∷ [])
answered_network failure (ok (error e)) = ok (stderr (failure e) ∷ [])
answered_network failure (ok (req cli)) = ok (stderr "Unexpected response from daemon" ∷ [])
answered_network failure (ok ok_empty) = ok (stderr "Unexpected response from daemon" ∷ [])
answered_network failure (ok continue) = ok (stderr "Unexpected response from daemon" ∷ [])
answered_network failure (err e) = ok (stderr ("Failed to recv msg from daemon: " ⧺ e) ∷ [])
answered_network failure panic = panic

-- The text before the reason of a failure.
abbrev pub failure : Commands → String → String
failure (run args) e = e
failure (start args) e = e
failure (exec args) e = e
failure (stop args) e = "Failed to stop container " ⧺ args.name ⧺ ", due to: " ⧺ e
failure (rm args) e = "Failed to rm containers, due to: " ⧺ e
failure (ps args) e = "Failed to list containers, due to: " ⧺ e
failure (logs args) e = "Failed to show log for container " ⧺ args.name ⧺ ", due to: " ⧺ e
failure (commit args) e = "Failed to commit container, due to: " ⧺ e
failure (network (create args)) e = "Failed to create network " ⧺ args.name ⧺ ", due to: " ⧺ e

-- The loop of `read_from_daemon`: reads of at most 1024 bytes until one gives none.
unfoldable pub copy_out : ℕ → Bytes → Bytes
copy_out zero input = []
copy_out (suc fuel) [] = []
copy_out (suc fuel) (b ∷ bs) = take 1024 (b ∷ bs) ++ copy_out fuel (drop 1024 (b ∷ bs))

module _ (codec : Codec Msg) (debug : Outcome Msg → String) where
  abbrev pub unexpected : Outcome Msg → Outcome (List Output)
  unexpected resp = ok (stderr ("Unexpected response from daemon: " ⧺ debug resp) ∷ [])

  -- The process's output, each round of which takes a byte or more.
  abbrev pub attached : Outcome Msg × Bytes → Outcome (List Output)
  attached (ok continue, rest) = ok (copied (copy_out (suc (length rest)) rest) ∷ [])
  attached (ok (req cli), rest) = unexpected (ok (req cli))
  attached (ok ok_empty, rest) = unexpected (ok ok_empty)
  attached (ok (ok_content text), rest) = unexpected (ok (ok_content text))
  attached (ok (error e), rest) = unexpected (ok (error e))
  attached (err e, rest) = unexpected (err e)
  attached (panic, rest) = panic

  -- `client_do_run`
  unfoldable pub client_do_run : Bool → Bytes → Outcome (List Output)
  client_do_run true input = ok []
  client_do_run false input = attached (recv_from codec input)

  -- The `match` of `run_client` over the commands.
  unfoldable pub client : Commands → Bytes → Outcome (List Output)
  unfolding client_do_run
  client (run args) input = client_do_run args.detach input
  client (start args) input = client_do_run args.detach input
  client (exec args) input = client_do_run false input
  client (stop args) input = answered (failure (stop args)) (recv_from codec input).0
  client (rm args) input = answered (failure (rm args)) (recv_from codec input).0
  client (ps args) input = answered (failure (ps args)) (recv_from codec input).0
  client (logs args) input = answered (failure (logs args)) (recv_from codec input).0
  client (commit args) input = answered (failure (commit args)) (recv_from codec input).0
  client (network (create args)) input =
      answered_network (failure (network (create args))) (recv_from codec input).0
