-- ===== src/Kubernetes/Samples.antt =====
-- proberca/k8s/supervisor.py: two watchers, one of which becomes fatal.
use probe_rca.Prelude.{◌≡◌, true, false, none, some, List, [], ◌∷◌, err}
use probe_rca.Kubernetes.Supervisor.{
  synchronized, fatal, Supervisor, Revision, update_watcher_state, freeze_revision,
  supervisor_fatal,
}
use probe_rca.Kubernetes.Supervisor.Freeze.{Update, update_all, fatal_for_good}

abbrev supervisor : Supervisor
supervisor = record {
  watchers = "Pod" ∷ "Service" ∷ [];
  states = ("Pod", synchronized) ∷ ("Service", synchronized) ∷ [];
  errors = [];
  relist_count = 0;
  reconnect_count = 0;
}

abbrev revision : Revision
revision = record { is_synchronized = true; is_stale = false }

abbrev updates : List Update
updates = record { kind = "Pod"; state = synchronized; error = none } ∷ []

fatal_for_good_example :
    freeze_revision
      (update_all updates (update_watcher_state "Pod" fatal (some "gone") supervisor))
      revision
    ≡ err supervisor_fatal
fatal_for_good_example = fatal_for_good "Pod" "gone" updates supervisor revision
