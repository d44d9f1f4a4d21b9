-- ===== src/Metas/Query/Conditions.antt =====
-- What the single conditions of a filter mean.
use rtain.Base.{
  ℕ, ◌≡◌, refl, sym, ap, ◌∙◌, ◌↔◌, inl, inr, String, true, false, not, List, [], ◌∷◌, ◌++◌, Option,
  none, some, arith, if◌then◌else◌, get_elem?, Bool-cases, eq_iff,
}
use rtain.Base.Dict
use rtain.Base.Dict.{Dict}
use rtain.Base.Text.{contains, starts_with}
use rtain.Metas.Types.{
  ContainerStatus, creating, running, paused, restarting, removing, exited, dead,
}
use rtain.Metas.Query.{place, is_value, status_eq, has_labels}

-- The statuses at their places.
abbrev statuses : List ContainerStatus
statuses = creating ∷ running ∷ paused ∷ restarting ∷ removing ∷ exited ∷ dead ∷ []

status_at-place : (a : ContainerStatus) → get_elem? statuses (place a) ≡ some a
status_at-place creating = refl
status_at-place running = refl
status_at-place paused = refl
status_at-place restarting = refl
status_at-place removing = refl
status_at-place exited = refl
status_at-place dead = refl

pub status_eq_iff : (a b : ContainerStatus) → (status_eq a b ≡ true) ↔ (a ≡ b)
unfolding status_eq
status_eq_iff a b = (
  (λ h.
      let same : place a ≡ place b = ground arith in
      let both : some a ≡ some b =
        sym (status_at-place a) ∙ ap (get_elem? statuses) same ∙ status_at-place b in
      cc),
  (λ e. let same : place a ≡ place b = ap (λ c. place c) e in ground arith),
)

cons_injective : {x y : ℕ} {xs ys : List ℕ} → (x ∷ xs) ≡ (y ∷ ys) → (x ≡ y) × (xs ≡ ys)
cons_injective e = (cc, cc)

pub starts_with_iff :
    (p t : List ℕ) → (starts_with p t ≡ true) ↔ ((rest : List ℕ) × (t ≡ p ++ rest))
starts_with_iff [] t = (λ _. (t, refl), λ _. refl)
starts_with_iff (x ∷ p) [] = (λ h. absurd (cc), λ (rest, e). absurd (cc))
starts_with_iff (x ∷ p) (c ∷ t) = (
  (λ h.
      let (rest, e) = (starts_with_iff p t).0 (ground arith) in
      let same : x ≡ c = ground arith in (rest, cc)),
  (λ (rest, e).
      let front = cons_injective e in
      let later = (starts_with_iff p t).1 (rest, front.1) in ground (arith, front.0, later)),
)

-- A filter's tests, each where the filter has one.
abbrev pub On {ℓ} : {A : Type ℓ} → Option A → (A → Type 0) → Type 0
On none P = Unit {0}
On (some a) P = P a

-- A text stands somewhere in another.
abbrev pub Occurs : List ℕ → List ℕ → Type 0
Occurs pattern text = (before : List ℕ) × (after : List ℕ) × (text ≡ before ++ pattern ++ after)

pub contains_iff : (p t : List ℕ) → (contains p t ≡ true) ↔ Occurs p t
unfolding contains
contains_iff p [] = (
  (λ h. let (rest, e) = (starts_with_iff p []).0 h in ([], rest, e)),
  (λ (before, after, e). nothing_before before p after e),
)
  where
    nothing_before : (before p after : List ℕ) → [] ≡ before ++ p ++ after → starts_with p [] ≡ true
    nothing_before [] [] after e = refl
    nothing_before [] (x ∷ p) after e = absurd (cc)
    nothing_before (b ∷ before) p after e = absurd (cc)
contains_iff p (c ∷ t) = (
  (λ h. elim (Bool-cases (starts_with p (c ∷ t))) [
    | inl here ↦ let (rest, e) = (starts_with_iff p (c ∷ t)).0 here in ([], rest, e)
    | inr there ↦
        let (before, after, e) = (contains_iff p t).0 (ground arith) in
        (c ∷ before, after, ap (λ l. c ∷ l) e)
  ]),
  (λ (before, after, e). from_here before after e (contains_iff p t).1),
)
  where
    from_here :
        (before after : List ℕ)
        → (c ∷ t) ≡ before ++ p ++ after
        → (Occurs p t → contains p t ≡ true)
        → contains p (c ∷ t) ≡ true
    from_here [] after e later =
        let here = (starts_with_iff p (c ∷ t)).1 (after, e) in rw (here, contains) refl
    from_here (b ∷ before) after e later =
        let there = later (before, after, (cons_injective e).1) in ground arith

abbrev pub Labelled : Dict String → Dict String → Type 0
Labelled [] labels = Unit {0}
Labelled ((key, value) ∷ wanted) labels =
    (Dict.get key labels ≡ some value) × Labelled wanted labels

pub has_labels_iff :
    (wanted labels : Dict String) → (has_labels wanted labels ≡ true) ↔ Labelled wanted labels
unfolding has_labels
has_labels_iff [] labels = (λ _. tt, λ _. refl)
has_labels_iff ((key, value) ∷ wanted) labels = (
  (λ h. (value_is (Dict.get key labels) h, (has_labels_iff wanted labels).0 (ground arith))),
  (λ (here, there).
      let later = (has_labels_iff wanted labels).1 there in
      rw here (rw later (ground (arith, eq_iff value value)))),
)
  where
    value_is :
        (found : Option String)
        → (if not (is_value value found) then false else has_labels wanted labels) ≡ true
        → found ≡ some value
    value_is none h = absurd (cc)
    value_is (some v) h = ap some ((eq_iff v value).0 (ground arith))
