-- ===== src/Container/Session/Order.antt =====
-- Where the bytes of the output are.
use rtain.Base.{true, false, Bool, List, [], ◌∷◌, ◌++◌, Option, none, some, ◌≡◌, ◌≢◌, ◌⊎◌}
use rtain.Base.Bytes.{Bytes}
use rtain.Container.Session.{Session, Event, prints}
use rtain.Container.Session.Output.{ended, Stage, writing, Copy, when, held}

-- The buffer of a task that goes on, and of one that has ended.
abbrev pub live : Stage → Bytes
live (writing bs) = bs
live _ = []

abbrev pub dropped : Stage → Bytes
dropped (ended bs) = bs
dropped _ = []

-- What is on its way: in a task that goes on, in the pipe, or in the terminal.
abbrev pub under_way : Copy → Bytes
under_way c = live c.forward ++ (c.pipe ++ (live c.capture ++ c.output))

-- What the last task had in its buffer when it ended.
abbrev pub lost : Copy → Bytes
lost c = dropped c.forward

abbrev in_flight : Copy → Bytes
in_flight c = held c.forward ++ (c.pipe ++ (held c.capture ++ c.output))

abbrev traffic : Copy → Bytes
traffic c = c.received ++ in_flight c

abbrev pub printed_by : Event → Bytes
printed_by (prints bs) = bs
printed_by _ = []

-- What the process prints during a sequence of steps.
unfoldable pub printed : List Event → Bytes
printed [] = []
printed (e ∷ events) = printed_by e ++ printed events

-- A step that moves bytes.
abbrev Keeps : Copy → Option Copy → Type 0
Keeps c none = Unit {0}
Keeps c (some c') = traffic c' ≡ traffic c

when-Keeps : (b : Bool) (c c' : Copy) → traffic c' ≡ traffic c → Keeps c (when b c')
when-Keeps true c c' h = h
when-Keeps false c c' h = tt

-- A step behind which the process has printed `bs` more.
abbrev Adds : Bytes → Session → Option Session → Type 0
Adds bs s none = Unit {0}
Adds bs s (some s') = traffic s'.copy ≡ traffic s.copy ++ bs

-- The first task never drops a byte, and the last only with a reason.
record IsTidy (s : Session) : Type 0 where
  pub captured : dropped s.copy.capture ≡ []
  pub forwarded : (lost s.copy ≡ []) ⊎ ((s.is_open ≡ false) ⊎ (s.ending ≢ none))
