-- ===== src/Candidates/Search/Nearest.antt =====
-- proberca/candidates/builder.py: that a round of `_bfs` comes to what is nearest.
use mathlib.Core.Path.{subst}
use probe_rca.Prelude.{
  ℕ, ◌+◌, ◌<◌, ◌≡◌, refl, String, true, false, List, [], ◌∷◌, leb, mem, All, string_eq, nat_eq,
  if-keeps, Bool-cases, Option-cases, inl, inr, arith, eq_iff,
}
use probe_rca.Prelude.Keys.{get}
use probe_rca.Prelude.Members.{Among, Among-append, Among-append_last, All-path}
use probe_rca.Candidates.Relation.{TopologyRelation}
use probe_rca.Candidates.Search.{
  Bfs, Entry, Search, hops, adjacent, extension, extend, extend_all, found, visit, round, target_of,
  get_or,
}
use probe_rca.Candidates.Search.Ends.{hops-extension}
use probe_rca.Candidates.Search.Ways.{
  Leads, Leads-append, IsTrail, IsSearch, Leaves, adjacent-Leaves, Among-adjacent,
  extension-current, extend-IsSearch,
}
use probe_rca.Candidates.Search.Sound.{has, found-has}
use probe_rca.Candidates.Search.Keeps.{extend_all-has}

-- So many relations lead from the seed to the service, and no fewer.
abbrev pub IsAt : Bfs → (seed : String) → (distance : ℕ) → (service : String) → Type 0
IsAt b seed n t = Leads b seed n t × ((m : ℕ) → m < n → ¬ Leads b seed m t)

-- A part of a shortest way is a shortest way.
pub IsAt-prefix :
    (b : Bfs) (seed x t : String) (m n : ℕ)
    → Leads b seed m x
    → Leads b x n t
    → IsAt b seed (m + n) t
    → IsAt b seed m x
IsAt-prefix b seed x t m n first rest (way, least) = (
  first,
  λ k fewer shorter.
      least (k + n) (omega (arith, fewer)) (Leads-append b seed x t k n shorter rest),
)

-- A search that is further on has the entries of its queue but the first.
module _ (b : Bfs) (seed : String) where
  extend-Among :
      (e : Entry) (r : TopologyRelation) (s : Search) (a : Entry)
      → Among a s.queue
      → Among a (extend b seed e r s).queue
  unfolding extend found
  extend-Among e r s a m =
      if-keeps (λ (s' : Search). Among a s'.queue) (mem (target_of b r) e.path) m
        (if-keeps (λ (s' : Search). Among a s'.queue)
          (leb (hops (extension b e r))
            (get_or (hops (extension b e r)) (get (extension b e r).current s.shortest)))
          (Among-append a s.queue (extension b e r ∷ []) m) m)

  extend_all-Among :
      (e : Entry) (rs : List TopologyRelation) (s : Search) (a : Entry)
      → Among a s.queue
      → Among a (extend_all b seed e rs s).queue
  unfolding extend_all
  extend_all-Among e [] s a m = m
  extend_all-Among e (r ∷ rs) s a m =
      extend_all-Among e rs (extend b seed e r s) a (extend-Among e r s a m)

  pub round-Among :
      (e : Entry) (rest : List Entry) (s : Search) (a : Entry)
      → Among a rest
      → Among a (round b seed (e ∷ rest) s).queue
  unfolding round visit
  round-Among e rest s a m =
      if-keeps (λ (s' : Search). Among a s'.queue) (leb b.max_hops (hops e)) m
        (extend_all-Among e (adjacent b e.current) (record s { queue = rest }) a m)

  -- The nearest way to a service is put on record, and in the queue, when the search comes to it.
  abbrev pub Reached : Entry → TopologyRelation → Search → Type 0
  Reached e r s =
      (has b seed (hops e + 1) (target_of b r) s.output ≡ true) × Among (extension b e r) s.queue

  not_on_path :
      (e : Entry) (x : String)
      → IsTrail b seed e
      → IsAt b seed (hops e + 1) x
      → mem x e.path ≡ false
  not_on_path e x trail at = elim (Bool-cases (mem x e.path)) [
    | inl on_path ↦
        let (i, short, way) = trail.1 x on_path in absurd (at.1 i (omega (arith, short)) way)
    | inr off ↦ off
  ]

  no_shorter :
      (x : String) (n : ℕ) (s : Search)
      → IsSearch b seed s
      → IsAt b seed n x
      → leb n (get_or n (get x s.shortest)) ≡ true
  no_shorter x n s (trails, ways) at = elim (Option-cases (get x s.shortest)) [
    | inl unknown ↦ rw unknown (ground arith)
    | inr (m, known) ↦ elim (Bool-cases (leb n m)) [
      | inl le ↦ rw known le
      | inr gt ↦ absurd (at.1 m (ground (arith, gt)) (ways x m known))
    ]
  ]

  found-Among :
      (e : Entry) (s : Search)
      → leb (hops e) (get_or (hops e) (get e.current s.shortest)) ≡ true
      → Among e (found b seed e s).queue
  unfolding found
  found-Among e s nearest = rw nearest (Among-append_last e s.queue)

  extend-found :
      (e : Entry) (r : TopologyRelation) (s : Search)
      → mem (target_of b r) e.path ≡ false
      → extend b seed e r s ≡ found b seed (extension b e r) s
  unfolding extend
  extend-found e r s off = rw off refl

  extend-Reached :
      (e : Entry) (r : TopologyRelation) (s : Search)
      → IsTrail b seed e
      → IsAt b seed (hops e + 1) (target_of b r)
      → IsSearch b seed s
      → Reached e r (extend b seed e r s)
  extend-Reached e r s trail at search =
      let x = extension b e r in
      let at_x : IsAt b seed (hops x) x.current =
        rw (hops-extension b e r, extension-current b e r) at in
      rw (extend-found e r s (not_on_path e (target_of b r) trail at)) (
        ground (
          arith,
          found-has b seed seed x s (hops e + 1) (target_of b r),
          hops-extension b e r,
          extension-current b e r,
          eq_iff (target_of b r) x.current,
          eq_iff seed seed,
        ),
        found-Among x s (no_shorter x.current (hops x) s search at_x),
      )

  extend_all-Reached :
      (e : Entry) (r : TopologyRelation) (rs : List TopologyRelation) (s : Search)
      → Among r rs
      → IsTrail b seed e
      → All (Leaves b e.current) rs
      → IsAt b seed (hops e + 1) (target_of b r)
      → IsSearch b seed s
      → Reached e r (extend_all b seed e rs s)
  unfolding extend_all
  extend_all-Reached e r [] s m trail leave at search = absurd m
  extend_all-Reached e r (q ∷ rs) s (inl same) trail leave at search =
      let here : Reached e r (extend b seed e q s) =
        subst (λ x. Reached e r (extend b seed e x s)) same
          (extend-Reached e r s trail at search) in
      (
        extend_all-has b b seed seed e rs (extend b seed e q s) (hops e + 1) (target_of b r) here.0,
        extend_all-Among e rs (extend b seed e q s) (extension b e r) here.1,
      )
  extend_all-Reached e r (q ∷ rs) s (inr m) trail leave at search =
      extend_all-Reached e r rs (extend b seed e q s) m trail leave.1 at
        (extend-IsSearch b seed e q s trail leave.0 search)

  pub round-Reached :
      (e : Entry) (rest : List Entry) (r : TopologyRelation) (s : Search)
      → s.queue ≡ e ∷ rest
      → hops e < b.max_hops
      → Leaves b e.current r
      → IsAt b seed (hops e + 1) (target_of b r)
      → IsSearch b seed s
      → Reached e r (round b seed (e ∷ rest) s)
  unfolding round visit
  round-Reached e rest r s held near leaves at (trails, ways) =
      let (trail, others) : All (IsTrail b seed) (e ∷ rest) =
        All-path (IsTrail b seed) s.queue (e ∷ rest) held trails in
      let not_far : leb b.max_hops (hops e) ≡ false = ground (arith, near) in
      rw not_far (
        extend_all-Reached e r (adjacent b e.current) (record s { queue = rest })
          (Among-adjacent b e.current r leaves) trail (adjacent-Leaves b e.current) at
          (others, ways))
