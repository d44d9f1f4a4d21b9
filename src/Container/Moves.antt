-- ===== src/Container/Moves.antt =====
-- Moves of the storage: requests one after the other.
pub mod Handlers
pub mod Attached
pub mod Made
use rtain.Base.{ℕ, String, List, [], Option, none, some, Outcome, ok, err, panic}
use rtain.Metas.Types.{
  ContainerMeta, ContainerStatus, StorageOperation, create, update_status, delete,
}
use rtain.Metas.Container
use rtain.Metas.Storage.{StorageInner, handle_request, get_meta_by_name}
use rtain.Container.World.{Call, Journal, World, Handled, execute, updates, on_lookup, look_up}
use rtain.Base.{dropped}
use rtain.Container.Task.{Task, ◌>>=◌, ◌>>◌, answer, noted, or_else, ignoring, go_on, on_error}

-- The operations that the handlers ask for.
pub data Asked : StorageOperation → Type 0 where
  registers :
      (time : ℕ) (id name image : String) (command : List String)
      → Asked (create (Container.new time id name image command []))
  changes : (id : String) (status : ContainerStatus) → Asked (update_status id status)
  removes : (id : String) → Asked (delete id)

-- Requests one after the other, on the journals that `J` allows.
pub data Moves (J : Journal → Type 0) : StorageInner → StorageInner → Type 0 where
  stays : (s : StorageInner) → Moves J s s
  asks :
      {t : StorageInner} (j : Journal) (op : StorageOperation) (s : StorageInner)
      → J j
      → Asked op
      → Moves J (handle_request j.codecs j.disk j.now j.clock op s).1 t
      → Moves J s t

-- A step that moves the storage.
abbrev pub Acts : (Journal → Type 0) → {A : Type 0} → Task A → Type 0
Acts J task = (w : World) → Moves J w.metas (task w).1.metas

-- The same, from which a chain is known by its parts.
pub record Chain (J : Journal → Type 0) {A : Type 0} (task : Task A) : Type 0 where
  pub moves : Acts J task

module _ {J : Journal → Type 0} where
  pub Moves-trans : {s t u : StorageInner} → Moves J s t → Moves J t u → Moves J s u
  Moves-trans (stays _) n = n
  Moves-trans (asks j op s h a m) n = asks j op s h a (Moves-trans m n)

  pub execute-Moves : (j : Journal) (op : StorageOperation) → J j → Asked op → Acts J (execute j op)
  unfolding execute
  execute-Moves j op h a w = asks j op w.metas h a (stays _)

  pub updates-Moves :
      (j : Journal) (id : String) (status : ContainerStatus) → J j → Acts J (updates j id status)
  unfolding updates
  updates-Moves j id status h = execute-Moves j (update_status id status) h (changes id status)

  pub go_on-Moves :
      {A B : Type 0} (next : A → Task B) (s : StorageInner) (r : Outcome A × World)
      → Moves J s r.1.metas
      → ((a : A) → Acts J (next a))
      → Moves J s (go_on next r).1.metas
  go_on-Moves next s (ok a, w) m h = Moves-trans m (h a w)
  go_on-Moves next s (err e, w) m h = m
  go_on-Moves next s (panic, w) m h = m

  on_error-Moves :
      {A : Type 0} (handle : String → Task A) (s : StorageInner) (r : Outcome A × World)
      → Moves J s r.1.metas
      → ((e : String) → Acts J (handle e))
      → Moves J s (on_error handle r).1.metas
  on_error-Moves handle s (ok a, w) m h = m
  on_error-Moves handle s (err e, w) m h = Moves-trans m (h e w)
  on_error-Moves handle s (panic, w) m h = m

  dropped-Moves :
      (s : StorageInner) (r : Outcome (Unit {0}) × World)
      → Moves J s r.1.metas
      → Moves J s (dropped r).1.metas
  dropped-Moves s (ok _, w) m = m
  dropped-Moves s (err e, w) m = m
  dropped-Moves s (panic, w) m = m

  pub answered : {A : Type 0} (r : Outcome A) → Chain J (answer r)
  answered r = record { moves = λ w. stays w.metas }

  pub noting : (c : Call) → Chain J (noted c)
  noting c = record { moves = λ w. stays w.metas }

  pub executing : (j : Journal) (op : StorageOperation) → J j → Asked op → Chain J (execute j op)
  executing j op h a = record { moves = execute-Moves j op h a }

  pub bound :
      {A B : Type 0} {task : Task A} {next : A → Task B}
      → Chain J task
      → ((a : A) → Chain J (next a))
      → Chain J (task >>= next)
  bound {task = task} {next = next} m h = record {
    moves = λ w. go_on-Moves next w.metas (task w) (m.moves w) (λ a. (h a).moves);
  }

  pub followed :
      {B : Type 0} {task : Task (Unit {0})} {next : Task B}
      → Chain J task
      → Chain J next
      → Chain J (task >> next)
  followed {task = task} {next = next} m n = record {
    moves = λ w. go_on-Moves (λ _. next) w.metas (task w) (m.moves w) (λ _. n.moves);
  }

  pub handled :
      {A : Type 0} {task : Task A} {handle : String → Task A}
      → Chain J task
      → ((e : String) → Chain J (handle e))
      → Chain J (or_else task handle)
  handled {task = task} {handle = handle} m h = record {
    moves = λ w. on_error-Moves handle w.metas (task w) (m.moves w) (λ e. (h e).moves);
  }

  pub ignored : {task : Task (Unit {0})} → Chain J task → Chain J (ignoring task)
  ignored {task = task} m = record { moves = λ w. dropped-Moves w.metas (task w) (m.moves w) }

  on_lookup-Moves :
      (missing : World → Handled) (found : ContainerMeta → World → Handled)
      (r : Outcome (Option ContainerMeta))
      → Acts J missing
      → ((meta : ContainerMeta) → Acts J (found meta))
      → Acts J (λ w. on_lookup missing found w r)
  on_lookup-Moves missing found (ok none) m h w = m w
  on_lookup-Moves missing found (ok (some meta)) m h w = h meta w
  on_lookup-Moves missing found (err e) m h w = stays w.metas
  on_lookup-Moves missing found panic m h w = stays w.metas

  pub look_up-Moves :
      (name : String) (missing : World → Handled) (found : ContainerMeta → World → Handled)
      → Acts J missing
      → ((meta : ContainerMeta) → Acts J (found meta))
      → Acts J (look_up name missing found)
  look_up-Moves name missing found m h w =
      on_lookup-Moves missing found (get_meta_by_name name w.metas) m h w
