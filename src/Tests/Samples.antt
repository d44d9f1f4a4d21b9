-- ===== src/Tests/Samples.antt =====
-- Sample data: a lawful serializer that knows a few operations and states, by their places in a
-- table.
use mathlib.Core.Bool.{Bool-discrete}
use mathlib.Core.Logic.{dite}
use mathlib.Core.Option
use rtain.Base.Bytes.{Bytes, Codec, IsLawful}
use mathlib.Core.Path.{subst}
use rtain.Base.{
  ◌^◌, refl, ap, ℕ, zero, suc, ◌≡◌, ◌<◌, get_elem?, Outcome, ok, err, arith, length, String, List,
  [], ◌∷◌, Option, none, some, true, false, ℕ_discrete, str_eq, eq_iff,
}
use rtain.Metas.Types.{
  ContainerMeta, MountPoint, bind, running, StorageOperation, InnerState, create, update_status,
  add_mount, detach_network, delete, batch, cons, nil,
}
use rtain.Metas.Container
use rtain.Metas.Apply.{Clock, empty}
use rtain.Metas.Storage.{Codecs, StorageConfig}

unfoldable pub string_discrete : Discrete String
string_discrete s t =
    dite (Bool-discrete (str_eq s t) true) (λ same. yes ((eq_iff s t).0 same))
      (λ differ. no (λ p. differ ((eq_iff s t).1 p)))

pub meta_discrete : Discrete ContainerMeta
meta_discrete = hlevel (ℕ_discrete, string_discrete)

unfoldable pub operation_discrete : Discrete StorageOperation
unfolding string_discrete ℕ_discrete
operation_discrete = hlevel (ℕ_discrete, string_discrete)

unfoldable pub state_discrete : Discrete InnerState
unfolding string_discrete ℕ_discrete
state_discrete = hlevel (ℕ_discrete, string_discrete)

-- The place of a value in a list.
place {ℓ} : {A : Type ℓ} → Discrete A → List A → A → Option ℕ
place dec [] a = none
place dec (x ∷ xs) a =
    let rest = place dec xs a in
    elim (dec x a) [ yes same ↦ some 0 | no differ ↦ Option.map (λ n. suc n) rest ]

get_elem-place {ℓ} :
    {A : Type ℓ} (dec : Discrete A) (xs : List A) (a : A) (i : ℕ)
    → place dec xs a ≡ some i
    → get_elem? xs i ≡ some a
unfolding place
get_elem-place dec [] a i h = absurd (cc)
get_elem-place dec (x ∷ xs) a zero h = ground arith
get_elem-place dec (x ∷ xs) a (suc i) h = ground (arith, get_elem-place dec xs a i)

abbrev write_place : Option ℕ → Outcome Bytes
write_place none = err "unknown"
write_place (some i) = ok (i ∷ [])

abbrev found_at : {A : Type 0} → Option A → Outcome A
found_at none = err "no such place"
found_at (some a) = ok a

abbrev read_place : {A : Type 0} → List A → Bytes → Outcome A
read_place table [] = err "not one byte"
read_place table (i ∷ []) = found_at (get_elem? table i)
read_place table (i ∷ j ∷ more) = err "not one byte"

-- A value is written as its place, in one byte.
unfoldable pub table_codec : {A : Type 0} → Discrete A → List A → Codec A
unfolding place
table_codec dec table = record {
  serialize = λ a. write_place (place dec table a);
  deserialize = read_place table;
}

read-write_place :
    {A : Type 0} (dec : Discrete A) (table : List A) (a : A) (o : Option ℕ) (bytes : Bytes)
    → place dec table a ≡ o
    → write_place o ≡ ok bytes
    → (read_place table bytes ≡ ok a) × (length bytes < 2 ^ 63)
read-write_place dec table a none bytes p h = absurd (cc)
read-write_place dec table a (some i) bytes p h =
    let found = get_elem-place dec table a i p in
    let same : i ∷ [] ≡ bytes = cc in
    subst (λ (b : Bytes). (read_place table b ≡ ok a) × (length b < 2 ^ 63)) same
      (ap found_at found, omega arith)

pub table_codec-IsLawful :
    {A : Type 0} (dec : Discrete A) (table : List A) → IsLawful (table_codec dec table)
unfolding table_codec
table_codec-IsLawful dec table = record {
  round_trip = λ a bytes h. (read-write_place dec table a (place dec table a) bytes refl h).0;
  fits = λ a bytes h. (read-write_place dec table a (place dec table a) bytes refl h).1;
}

abbrev pub web : ContainerMeta
web = Container.new 100 "0a1b" "web" "busybox.tar" ("sh" ∷ []) []

abbrev pub bind_mount : MountPoint
bind_mount = record { source = "/srv"; destination = "/data"; mount_type = bind; read_only = false }

abbrev pub operations : List StorageOperation
operations =
    create web
    ∷ update_status "0a1b" running
    ∷ batch (cons (add_mount "0a1b" bind_mount) (cons (detach_network "0a1b") nil))
    ∷ delete ""
    ∷ delete "0a1b"
    ∷ []

abbrev pub clock : Clock
clock path = 1000

-- What the first operation makes.
abbrev pub one_container : InnerState
one_container = record { by_id = ("0a1b", web) ∷ []; by_name = ("web", "0a1b") ∷ [] }

abbrev pub codecs : Codecs
codecs = record {
  operations = table_codec operation_discrete operations;
  states = table_codec state_discrete (empty ∷ one_container ∷ []);
}

abbrev pub config : StorageConfig
config = record {
  wal_dir = "/tmp/rtain/containermetas/wal";
  snapshots_dir = "/tmp/rtain/containermetas/snapshots";
  max_wals = 10;
  max_snapshots = 10;
  snapshot_intervals_secs = 60;
  cleanup_interval_secs = 180;
}
