-- ===== src/Lib.antt =====
-- A model of probeRCA's live layer, its topology store, its alert state machine and
-- its choice of candidates.
--
-- The runner of proberca/live polls a scheduler for windows of event time, runs
-- each of them in a fenced transaction while its replica holds the lease, and
-- commits it to a journal of sequence numbers. The alert state machine turns the
-- anomaly scores of each window into a state, events and a gate for the models.
--
--   Live/Scheduler.antt: proberca/live/scheduler.py. LiveWindowScheduler is the
--     record Scheduler; eligible_windows, advance and from_run_state keep their
--     names, and a raise is a value of SchedulerError.
--   Live/Lease.antt, Live/Leader.antt: proberca/live/leader.py. The lease API is
--     the record LeaseApi, LeaseCoordinator the record Coordinator; a method
--     returns the new records. acquire_from and renew_from are the methods from
--     the read of the lease on, so that another replica's write can come between;
--     renew and try_acquire have an argument for each reading of the clock, and
--     try_acquire one for the lease that is read again.
--   Live/RunState/Record, Memory, Store, Writes: proberca/live/run_state.py, the
--     record of what a run has committed, and its two stores. The Kubernetes store
--     keeps the record in an annotation of the lease; its methods are split at the
--     read and at the write of the lease. Whether the API accepts a write is the
--     parameter Accepts. Authority is what both stores promise.
--   Live/Coordinator.antt: proberca/live/coordinator.py, the leadership of
--     LiveCommitCoordinator over that store.
--   Live/Transaction.antt: proberca/live/transaction.py, the transaction of a
--     window and the phases around the run-state commit.
--   Live/Sequence.antt: proberca/live/sequence.py, the journal. The file is a list
--     of lines; commit_entry_over separates the read before the lock from the
--     read under it.
--   Live/Progress.antt: proberca/live/progress.py, the stages of a window and the
--     history of its events; Progress/Methods has the methods, each with the clocks
--     and the thread that it reads.
--   Live/Watchdog.antt: proberca/live/watchdog.py, the stall detector. A callback
--     is what it raises, and the callbacks that ran are a list.
--   Live/Gate.antt: proberca/live/gate.py, the gate over the final scenarios.
--   Kubernetes/Supervisor.antt: proberca/k8s/supervisor.py, the watcher states and
--     the freeze of a revision.
--   Replay/Reader.antt: proberca/replay/reader.py, duplicates and windows of a
--     recorded stream, and proberca/orchestration/state.py, the checks of the
--     constructor of EngineWindowInput, whose raise ends the stream.
--   Topology.antt: proberca/topology/core.py. Snapshot has the canonical order of
--     a snapshot, Store the store with add, query and remove_expired.
--   Candidates.antt: proberca/candidates/builder.py. Search has _bfs, Builder the
--     seeds and the graph of the allowed namespaces, Services prepare up to the
--     candidate services, Limits _limit_provenance. The graph is the value that
--     build_topology_graph returned.
--   Alerting.antt: proberca/alerting/state_machine.py. Types has the records,
--     Counters _advance, Triggers the business impact, direct alarms and
--     composite rules, Alarms what alarms in a window, Transition the branches
--     of step, Outputs the events and the gate, Machine the whole step.
--   Prelude.antt: tests, lists, sorted sets and dicts of text keys, results.
--   Samples.antt of each part: concrete inputs.
--
-- Timestamps and scores are natural numbers: the code compares floats, and reads
-- no score below 0. A Python set is its sorted list, a dict an association list.
-- The search of Candidates runs on fuel: fuel_for counts a round for each service
-- that can still come into the queue, which is as many rounds as it can take. Every
-- other loop runs over a list. SHA-256 is a parameter where a fingerprint is
-- computed.
--
-- Not modelled: the Kubernetes lease adapter, file locking and fsync, JSON
-- encoding, type checks of arguments, and the parts of the repository that the
-- manifest lists as such (the topology graph, collection, numeric inference,
-- reports, the command line).
pub mod Prelude
pub mod Alerting
pub mod Candidates
pub mod Kubernetes
pub mod Live
pub mod Replay
pub mod Topology
