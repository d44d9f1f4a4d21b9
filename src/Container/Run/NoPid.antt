-- ===== src/Container/Run/NoPid.antt =====
-- No client is ever attached to a new container.
use rtain.Base.{
  ℕ, String, Bool, [], ◌∷◌, ◌++◌, none, ℤ, ◌≡◌, refl, ◌⊎◌, inl, inr, Outcome, ok, err, panic,
}
use rtain.Metas.Types.{ContainerMeta}
use rtain.Metas.Container
use rtain.Metas.Container.{get_pid}
use rtain.Msg.{error}
use rtain.Cmd.{RunArgs}
use rtain.Container.World.{Host, Journal, World, Handled}
use rtain.Container.Task.{Task, answer, go_on}
use rtain.Container.Run.{Maker, record_of, make_container, run_prepare, run_container, prepared}

-- A result whose record, where there is one, has no process.
abbrev NoPid : Outcome ContainerMeta × World → Type 0
NoPid (ok meta, w) = get_pid meta ≡ none
NoPid (err e, w) = Unit
NoPid (panic, w) = Unit

-- What follows a step decides.
go_on-NoPid :
    {A : Type 0} (next : A → Task ContainerMeta) (r : Outcome A × World)
    → ((a : A) (w : World) → NoPid (next a w))
    → NoPid (go_on next r)
go_on-NoPid next (ok a, w) h = h a w
go_on-NoPid next (err e, w) h = tt
go_on-NoPid next (panic, w) h = tt

module _ (host : Host) (maker : Maker) (journal : Journal) (id : String) (time : ℕ)
    (args : RunArgs) where
  run_prepare-NoPid : (w : World) → NoPid (run_prepare host maker journal id time args w)
  unfolding run_prepare get_pid Container.new
  run_prepare-NoPid w =
      go_on-NoPid {A = Unit {0}} (λ _. answer (ok (record_of host maker journal id time args)))
        (make_container host maker journal id time args w) (λ _ w'. refl)

  -- Whatever attaching a client would do, and whatever the host answers, a run ends with an error
  -- for the client or with a panic: the record of the new container never has a process.
  pub run_container-error :
      (do_run : ContainerMeta → ℤ → Bool → World → Handled) (w : World)
      → ((run_container host maker journal do_run id time args w).0 ≡ panic)
        ⊎ ((e : String) × (w' : World) × (run_container host maker journal do_run id time args w
              ≡ (ok tt, record w' { sent = w'.sent ++ error e ∷ [] })))
  unfolding run_container
  run_container-error do_run w =
      ends (run_prepare host maker journal id time args w) (run_prepare-NoPid w)
    where
      ends :
          (r : Outcome ContainerMeta × World)
          → NoPid r
          → ((prepared host maker journal do_run args.detach r).0 ≡ panic)
            ⊎ ((e : String) × (w' : World) × (prepared host maker journal do_run args.detach r
                  ≡ (ok tt, record w' { sent = w'.sent ++ error e ∷ [] })))
      ends (ok meta, w') h = inr ("Container is not running", w', rw h refl)
      ends (err e, w') h = inr (e, w', refl)
      ends (panic, w') h = inl refl
