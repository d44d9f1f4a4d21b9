-- ===== src/Container/Session/Wait.antt =====
-- The wait for the process of an attached session: when it ends, and when a signal is lost.
use mathlib.Core.Path.{subst}
use rtain.Base.{
  Bool, true, false, List, [], ◌∷◌, Option, none, some, ℤ, ◌≡◌, ◌≢◌, refl, String, arith, Outcome,
  ok, All,
}
use rtain.Container.Session.{
  Status, Watcher, starting, listening, done, Session, Event, closes, exits, watch, other_signal,
  wait_fails, feed_ends, wake, on_child, move, step, then_run, run, begin,
}
use rtain.Container.Session.Output.{Stage, reading, writing, ended}

-- A listener that has not heard of the end of the process.
abbrev Unheard : Watcher → Type 0
Unheard starting = Unit {0}
Unheard (listening true) = ⊥
Unheard (listening false) = Unit {0}
Unheard (done r) = ⊥

abbrev Feeds : Stage → Type 0
Feeds reading = Unit {0}
Feeds (writing bs) = Unit {0}
Feeds (ended bs) = ⊥

record IsStuck (status : Status) (s : Session) : Type 0 where
  pub attached : s.detach ≡ false
  pub there : s.is_open ≡ true
  pub dead : s.exit_status ≡ some status
  pub unheard : Unheard s.watcher
  pub feeds : Feeds s.feed
  pub goes_on : s.ending ≡ none

-- The client stays, the task that copies what it types goes on, no wait fails, and no other child of
-- the daemon ends.
abbrev pub quiet : Event → Bool
quiet closes = false
quiet feed_ends = false
quiet other_signal = false
quiet (wait_fails e) = false
quiet _ = true

abbrev pub Then : (Session → Type 0) → Option Session → Type 0
Then P none = Unit {0}
Then P (some s) = P s

-- Before the listener is there.
record IsEarly (s : Session) : Type 0 where
  pub attached : s.detach ≡ false
  pub there : s.is_open ≡ true
  pub no_listener : s.watcher ≡ starting
  pub feeds : Feeds s.feed
  pub goes_on : s.ending ≡ none

abbrev pub early : Event → Bool
early watch = false
early e = quiet e

-- After a signal that was heard.
abbrev Heard : Watcher → Type 0
Heard starting = ⊥
Heard (listening true) = Unit {0}
Heard (listening false) = ⊥
Heard (done r) = Unit {0}

record IsHeard (status : Status) (s : Session) : Type 0 where
  pub attached : s.detach ≡ false
  pub dead : s.exit_status ≡ some status
  pub heard : Heard s.watcher

-- The steps of the daemon that are left.
abbrev pub to_end : Watcher → List Event
to_end (listening heard) = wake ∷ on_child ∷ []
to_end starting = []
to_end (done r) = on_child ∷ []

pub trivial : (events : List Event) → All (λ e. Unit {0}) events
trivial [] = tt
trivial (e ∷ events) = (tt, trivial events)

abbrev Over : Option Session → Type 0
Over none = ⊥
Over (some s) = s.ending ≢ none

module _ (print : ℤ → String) where
  step-IsStuck :
      (status : Status) (e : Event) (s : Session)
      → quiet e ≡ true
      → IsStuck status s
      → Then (IsStuck status) (step print e s)
  unfolding step move
  step-IsStuck status e s q h = ground arith

  -- A property that every step of some kind keeps, is kept by every sequence of them.
  pub run-Then :
      (P : Session → Type 0) (Q : Event → Type 0)
      → ((e : Event) (s : Session) → Q e → P s → Then P (step print e s))
      → (events : List Event) (s s' : Session) → All Q events
      → P s
      → run print events s ≡ some s'
      → P s'
  unfolding run
  run-Then P Q keeps [] s s' q p h = let same : s ≡ s' = cc in subst P same p
  run-Then P Q keeps (e ∷ events) s s' q p h =
      after (step print e s) (keeps e s q.0 p) h (λ m. run-Then P Q keeps events m s' q.1)
    where
      after :
          (r : Option Session)
          → Then P r
          → then_run print (run print events) r ≡ some s'
          → ((m : Session) → P m → run print events m ≡ some s' → P s')
          → P s'
      after none a h rest = absurd (cc)
      after (some m) a h rest = rest m a h

  step-IsEarly :
      (e : Event) (s : Session) → early e ≡ true → IsEarly s → Then IsEarly (step print e s)
  unfolding step move
  step-IsEarly e s q h = ground arith

  exits-IsStuck :
      (status : Status) (s : Session)
      → IsEarly s
      → Then (IsStuck status) (step print (exits status) s)
  unfolding step move
  exits-IsStuck status s h = ground arith

  -- The end of a process before its listener is there goes unnoticed: no sequence of steps brings
  -- the attached session to its end, as long as the client stays, the task that copies what it
  -- types does not end (its input does not end, and no write to the terminal fails), no wait fails,
  -- and no other child of the daemon ends.
  pub lost_signal :
      (before after : List Event) (status : Status) (s1 s2 : Session)
      → All (λ e. early e ≡ true) before
      → All (λ e. quiet e ≡ true) after
      → run print before (begin false true) ≡ some s1
      → run print (exits status ∷ after) s1 ≡ some s2
      → (s2.ending ≡ none) × (s2.exit_status ≡ some status)
  unfolding run
  lost_signal before after status s1 s2 b q h k =
      stuck (step print (exits status) s1) (exits-IsStuck status s1 first) k
    where
      start : IsEarly (begin false true)
      start = record {
        attached = refl;
        there = refl;
        no_listener = refl;
        feeds = tt;
        goes_on = refl;
      }

      first : IsEarly s1
      first =
          run-Then IsEarly (λ e. early e ≡ true) step-IsEarly before (begin false true) s1 b start h

      stuck :
          (r : Option Session)
          → Then (IsStuck status) r
          → then_run print (run print after) r ≡ some s2
          → (s2.ending ≡ none) × (s2.exit_status ≡ some status)
      stuck none a h = absurd (cc)
      stuck (some m) a h =
          let last =
            run-Then (IsStuck status) (λ e. quiet e ≡ true) (step-IsStuck status) after m s2 q a
              h in
          (last.goes_on, last.dead)

  step-IsHeard :
      (status : Status) (e : Event) (s : Session)
      → Unit {0}
      → IsHeard status s
      → Then (IsHeard status) (step print e s)
  unfolding step move
  step-IsHeard status e s q h = ground arith

  exits-IsHeard :
      (status : Status) (s : Session) (heard : Bool)
      → s.detach ≡ false
      → s.watcher ≡ listening heard
      → Then (IsHeard status) (step print (exits status) s)
  unfolding step move
  exits-IsHeard status s heard d w = ground arith

  on_child-Over :
      (r : Outcome Status) (s : Session)
      → s.detach ≡ false
      → s.watcher ≡ done r
      → s.ending ≡ none
      → Over (step print on_child s)
  unfolding step move
  on_child-Over r s d w e = ground arith

  last-Over : (r : Option Session) → Over r → Over (then_run print (λ x. some x) r)
  last-Over none h = h
  last-Over (some s) h = h

  wake-eq :
      (status : Status) (s : Session)
      → s.watcher ≡ listening true
      → s.exit_status ≡ some status
      → s.ending ≡ none
      → step print wake s ≡ some (record s { watcher = done (ok status) })
  unfolding step move
  wake-eq status s w d e = ground arith

  to_end-Over :
      (status : Status) (w : Watcher) (s : Session)
      → s.watcher ≡ w
      → IsHeard status s
      → s.ending ≡ none
      → Over (run print (to_end w) s)
  unfolding run
  to_end-Over status starting s w h e = absurd (subst Heard w h.heard)
  to_end-Over status (listening false) s w h e = absurd (subst Heard w h.heard)
  to_end-Over status (listening true) s w h e =
      let t = record s { watcher = done (ok status) } in
      rw (wake-eq status s w h.dead e)
        (last-Over (step print on_child t) (on_child-Over (ok status) t h.attached refl e))
  to_end-Over status (done r) s w h e =
      last-Over (step print on_child s) (on_child-Over r s h.attached w e)

  -- A process whose end is heard by the listener brings the session to its end: at every later
  -- moment at which it is not over, the steps that are left to the daemon alone end it.
  pub heard_ends :
      (status : Status) (heard : Bool) (after : List Event) (s1 s2 : Session)
      → s1.detach ≡ false
      → s1.watcher ≡ listening heard
      → run print (exits status ∷ after) s1 ≡ some s2
      → s2.ending ≡ none
      → (s3 : Session) × (run print (to_end s2.watcher) s2 ≡ some s3) × (s3.ending ≢ none)
  unfolding run
  heard_ends status heard after s1 s2 d w h e = reached (run print (to_end s2.watcher) s2) (
      to_end-Over status s2.watcher s2 refl
        (was_heard (step print (exits status) s1) (exits-IsHeard status s1 heard d w) h) e)
    where
      was_heard :
          (r : Option Session)
          → Then (IsHeard status) r
          → then_run print (run print after) r ≡ some s2
          → IsHeard status s2
      was_heard none a h = absurd (cc)
      was_heard (some m) a h =
          run-Then (IsHeard status) (λ e. Unit {0}) (step-IsHeard status) after m s2 (trivial after)
            a h

      reached : (r : Option Session) → Over r → (s3 : Session) × (r ≡ some s3) × (s3.ending ≢ none)
      reached none o = absurd o
      reached (some s3) o = (s3, refl, o)
