-- ===== src/Live/RunState/Runs.antt =====
-- proberca/live/run_state.py: runs of the two stores.
use probe_rca.Prelude.{◌≡◌, ◌⊎◌, sym, inl, inr, ok, arith}
use probe_rca.Live.RunState.Record.{LeaseRunStateRecord, Hashes}
use probe_rca.Live.RunState.Memory.{MemoryStore}
use probe_rca.Live.RunState.MemoryRefines.{MemoryStep, MemoryStep-Step}
use probe_rca.Live.RunState.Store.{LeaseStore, decode}
use probe_rca.Live.RunState.LeaseSteps.{Accepts, CreatesOnce, Moves}
use probe_rca.Live.RunState.LeaseRefines.{LeaseRun, LeaseStep-Step}
use probe_rca.Live.RunState.Validity.{IsValid}
use probe_rca.Live.RunState.Authority.{Step, Reach, authority, Keeps, Reach-Keeps}
use probe_rca.Live.Lease.{LeaseApi}

pub data MemoryRun (h : Hashes) (s : MemoryStore) : MemoryStore → Type 0 where
  here : MemoryRun h s s
  next : {mid last : MemoryStore} → MemoryRun h s mid → MemoryStep h mid last → MemoryRun h s last

-- A run of the in-memory store is a run of the authority.
pub MemoryRun-Reach :
    (h : Hashes) (s : MemoryStore) {s' : MemoryStore}
    → MemoryRun h s s'
    → Reach (authority s.current) (authority s'.current)
MemoryRun-Reach h s here = Reach.here
MemoryRun-Reach h s (next run st) = Reach.next (MemoryRun-Reach h s run) (MemoryStep-Step h st)

module _ (h : Hashes) (s : LeaseStore) where
  -- A lease from which the store reads a record that the authority can reach from `r`.
  abbrev pub Reaches : LeaseRunStateRecord → LeaseApi → Type 0
  Reaches r api =
      (now : LeaseRunStateRecord) × (decode h s api.value ≡ ok now)
      × Reach (authority r) (authority now)

  Moves-Reaches :
      (r : LeaseRunStateRecord) (api api' : LeaseApi)
      → Reaches r api
      → (api' ≡ api) ⊎ Moves h s api api'
      → Reaches r api'
  Moves-Reaches r api api' reached (inl same) = rw same reached
  Moves-Reaches r api api' (now, decoded, reached) (inr m) =
      let same : m.before ≡ now = ground (arith, m.reads_before, decoded) in
      let step : Step (authority now) (authority m.after) = rw (sym same) m.step in
      (m.after, m.reads_after, Reach.next reached step)

  -- A run of the Kubernetes store, whatever other replicas write between its reads and its writes,
  -- is a run of the authority: the lease is decoded at its end, if it was at its start. The initial
  -- record is valid, commits are of the store's run, and the API refuses to create a lease that
  -- exists, as Kubernetes does.
  pub LeaseRun-Reach :
      (accepts : Accepts) (r : LeaseRunStateRecord) (api : LeaseApi) {api' : LeaseApi}
      → CreatesOnce accepts
      → IsValid h s.initial_record
      → decode h s api.value ≡ ok r
      → LeaseRun h s accepts api api'
      → Reaches r api'
  LeaseRun-Reach accepts r api once valid decoded LeaseRun.here = (r, decoded, Reach.here)
  LeaseRun-Reach accepts r api once valid decoded (LeaseRun.next {mid} {last} run st) =
      Moves-Reaches r mid last (LeaseRun-Reach accepts r api once valid decoded run)
        (LeaseStep-Step h s accepts once mid last valid st)

  -- Over any run, what was committed is not lost and not replaced.
  pub LeaseRun-Keeps :
      (accepts : Accepts) (r : LeaseRunStateRecord) (api : LeaseApi) {api' : LeaseApi}
      → CreatesOnce accepts
      → IsValid h s.initial_record
      → decode h s api.value ≡ ok r
      → LeaseRun h s accepts api api'
      → (now : LeaseRunStateRecord) × (decode h s api'.value ≡ ok now)
        × Keeps (authority r) (authority now)
  LeaseRun-Keeps accepts r api once valid decoded run =
      let (now, decoded', reached) = LeaseRun-Reach accepts r api once valid decoded run in
      (now, decoded', Reach-Keeps reached)
