-- ===== src/Kubernetes/Supervisor/Freeze.antt =====
-- proberca/k8s/supervisor.py: when a revision is frozen.
use probe_rca.Prelude.{
  ◌≡◌, ◌↔◌, inl, inr, refl, String, Bool, true, false, not, Option, some, List, [], ◌∷◌, arith,
  string_eq, nat_eq, ok, err, Option-cases,
}
use probe_rca.Prelude.Keys.{Dict, put, keys_where, insert}
use probe_rca.Kubernetes.Supervisor.{
  WatcherState, fatal, Supervisor, Revision, update_watcher_state, freeze_revision, is_none,
  any_value, is_fatal, is_listing, supervisor_fatal,
}

insert_some : (a : String) (xs : List String) → is_none (insert a xs) ≡ false
unfolding insert
insert_some a [] = refl
insert_some a (x ∷ xs) = ground arith

keys_where-any :
    (p : WatcherState → Bool) (d : Dict WatcherState)
    → is_none (keys_where p d) ≡ not (any_value p d)
unfolding keys_where
keys_where-any p [] = refl
keys_where-any p ((j, v) ∷ d) = ground (arith, keys_where-any p d, insert_some j (keys_where p d))

-- A revision is frozen exactly if no error is on record, no watcher is fatal, starting or
-- relisting, and the inventory's revision is synchronized and not stale; it is then that revision.
pub freeze_revision_exact :
    (s : Supervisor) (r q : Revision)
    → (freeze_revision s r ≡ ok q) ↔ (
        (is_none s.errors ≡ true)
        × (any_value is_fatal s.states ≡ false)
        × (any_value is_listing s.states ≡ false)
        × (r.is_synchronized ≡ true)
        × (r.is_stale ≡ false)
        × (q ≡ r))
unfolding freeze_revision
freeze_revision_exact s r q = (
  λ h. ground (arith, keys_where-any is_listing s.states),
  λ h. ground (arith, keys_where-any is_listing s.states),
)

pub record Update : Type 0 where
  pub kind : String
  pub state : WatcherState
  pub error : Option String

unfoldable pub update_all : List Update → Supervisor → Supervisor
update_all [] s = s
update_all (u ∷ us) s = update_all us (update_watcher_state u.kind u.state u.error s)

put_some : (k v : String) (d : Dict String) → is_none (put k v d) ≡ false
unfolding put
put_some k v [] = refl
put_some k v ((j, w) ∷ d) = ground arith

update-keeps_error :
    (u : Update) (s : Supervisor)
    → is_none s.errors ≡ false
    → is_none (update_watcher_state u.kind u.state u.error s).errors ≡ false
unfolding update_watcher_state
update-keeps_error u s h = elim (Option-cases u.error) [
  | inl without ↦ ground arith
  | inr (error, raised) ↦ ground (arith, put_some u.kind error s.errors)
]

update_all-keeps_error :
    (us : List Update) (s : Supervisor)
    → is_none s.errors ≡ false
    → is_none (update_all us s).errors ≡ false
unfolding update_all
update_all-keeps_error [] s h = h
update_all-keeps_error (u ∷ us) s h =
    update_all-keeps_error us (update_watcher_state u.kind u.state u.error s)
      (update-keeps_error u s h)

refused :
    (s : Supervisor) (r : Revision)
    → is_none s.errors ≡ false
    → freeze_revision s r ≡ err supervisor_fatal
unfolding freeze_revision
refused s r h = ground arith

-- A fatal update with its error is for good: whatever updates follow, no revision is frozen again.
pub fatal_for_good :
    (kind error : String) (us : List Update) (s : Supervisor) (r : Revision)
    → freeze_revision (update_all us (update_watcher_state kind fatal (some error) s)) r
      ≡ err supervisor_fatal
unfolding update_watcher_state
fatal_for_good kind error us s r =
    refused (update_all us (update_watcher_state kind fatal (some error) s)) r (
      update_all-keeps_error us (update_watcher_state kind fatal (some error) s)
        (put_some kind error s.errors))
