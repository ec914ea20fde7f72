-- ===== src/Kubernetes/Supervisor.antt =====
-- proberca/k8s/supervisor.py: the states of the watchers and the freeze of a revision. Threads,
-- listeners and waits are left out: `check` is one pass of the loop of `wait_until_synchronized`.
-- The inventory is what its `freeze` returns.
pub mod Freeze
use probe_rca.Prelude.{
  ℕ, ◌+◌, String, Bool, true, false, ◌&&◌, ◌||◌, not, Option, none, some, List, [], ◌∷◌, map, mem,
  any, all, length, keep, ◌==◌, nat_eq, string_eq, if◌then◌else◌, Result, ok, err, guard, ◌>>=◌,
  ◌>>◌,
}
use probe_rca.Prelude.Keys.{Dict, get, put, keys_where}

pub data WatcherState : Type 0 where
  starting synchronized relisting reconnecting fatal stopped : WatcherState

pub data SupervisorError : Type 0 where
  watcher_fatal supervisor_fatal unsynchronized stale_inventory reason_required : SupervisorError
  supervisor_relisting : List String → SupervisorError
  unknown_kind : String → SupervisorError

pub record Supervisor : Type 0 where
  pub watchers : List String
  pub states : Dict WatcherState
  pub errors : Dict String
  pub relist_count : ℕ
  pub reconnect_count : ℕ

pub record Revision : Type 0 where
  pub is_synchronized : Bool
  pub is_stale : Bool

abbrev pub is_synced : WatcherState → Bool
is_synced synchronized = true
is_synced _ = false

abbrev pub is_fatal : WatcherState → Bool
is_fatal fatal = true
is_fatal _ = false

abbrev pub is_reconnecting : WatcherState → Bool
is_reconnecting reconnecting = true
is_reconnecting _ = false

abbrev pub is_relisting : WatcherState → Bool
is_relisting relisting = true
is_relisting _ = false

-- The states in which no revision is frozen for want of a list.
abbrev pub is_listing : WatcherState → Bool
is_listing starting = true
is_listing relisting = true
is_listing _ = false

-- {watcher.resource_kind: "starting" for watcher in self.watchers}
unfoldable pub starting_states : List String → Dict WatcherState
starting_states [] = []
starting_states (kind ∷ kinds) = put kind starting (starting_states kinds)

unfoldable pub new : List String → Supervisor
new watchers = record {
  watchers = watchers;
  states = starting_states watchers;
  errors = [];
  relist_count = 0;
  reconnect_count = 0;
}

abbrev was_relisting : Option WatcherState → Bool
was_relisting none = false
was_relisting (some state) = is_relisting state

abbrev errors_with : String → WatcherState → Option String → Dict String → Dict String
errors_with kind state none errors = errors
errors_with kind state (some error) errors =
    if is_fatal state then put kind error errors else errors

unfoldable pub update_watcher_state :
    (kind : String) → WatcherState → (error : Option String) → Supervisor → Supervisor
update_watcher_state kind state error s = record s {
  states = put kind state s.states;
  errors = errors_with kind state error s.errors;
  reconnect_count = if is_reconnecting state then s.reconnect_count + 1 else s.reconnect_count;
  relist_count =
      if is_relisting state && not (was_relisting (get kind s.states))
      then s.relist_count + 1
      else s.relist_count;
}

abbrev pub is_none {ℓ} : {A : Type ℓ} → List A → Bool
is_none [] = true
is_none (x ∷ xs) = false

abbrev pub any_value : (WatcherState → Bool) → Dict WatcherState → Bool
any_value p [] = false
any_value p ((kind, state) ∷ d) = p state || any_value p d

-- Whether all watchers are synchronized; a recorded error raises.
unfoldable pub check : Supervisor → Result SupervisorError Bool
check s = do
  guard (is_none s.errors) watcher_fatal
  ok (not (is_none s.states) && not (any_value (λ state. not (is_synced state)) s.states))

abbrev none_listing : List String → Result SupervisorError (Unit {0})
none_listing [] = ok tt
none_listing (kind ∷ kinds) = err (supervisor_relisting (kind ∷ kinds))

unfoldable pub freeze_revision : Supervisor → Revision → Result SupervisorError Revision
freeze_revision s revision = do
  guard (is_none s.errors && not (any_value is_fatal s.states)) supervisor_fatal
  none_listing (keys_where is_listing s.states)
  guard revision.is_synchronized unsynchronized
  guard (not revision.is_stale) stale_inventory
  ok revision

-- The watcher itself is asked to relist after the state has changed.
unfoldable pub request_relist :
    (kind : String) (is_reason_blank : Bool) → Supervisor → Result SupervisorError Supervisor
request_relist kind is_reason_blank s = do
  guard (not is_reason_blank) reason_required
  guard (length (keep (λ k. k == kind) s.watchers) == 1) (unknown_kind kind)
  ok (update_watcher_state kind relisting none s)
