-- ===== src/Candidates/Search/Complete.antt =====
-- proberca/candidates/builder.py: that `_bfs` misses no service within its hops.
use mathlib.Core.Path.{subst}
use probe_rca.Prelude.{
  ℕ, zero, suc, ◌+◌, ◌≤◌, ◌<◌, ◌≡◌, refl, sym, ap, ◌∙◌, String, true, List, [], ◌∷◌, length, ◌-◌,
  string_eq, nat_eq, List-cases, inl, inr, arith,
}
use probe_rca.Prelude.Members.{Among, All-Among}
use probe_rca.Candidates.Relation.{TopologyRelation, Provenance}
use probe_rca.Candidates.Search.{
  Bfs, Entry, Search, hops, extension, round, run, start, search_from, bfs, target_of, enough,
}
use probe_rca.Candidates.Search.Ends.{
  hops-extension, round-total, start-total, total, fuel_for-positive,
}
use probe_rca.Candidates.Search.Ways.{
  Leads, IsTrail, IsSearch, Leaves, extension-current, extension-Leads, round-IsSearch,
  start-IsSearch,
}
use probe_rca.Candidates.Search.Sound.{has}
use probe_rca.Candidates.Search.Keeps.{run-has, bfs-has}
use probe_rca.Candidates.Search.Nearest.{IsAt, IsAt-prefix, Reached, round-Among, round-Reached}

module _ (b : Bfs) (seed : String) where
  total-positive : (e : Entry) (q : List Entry) → Among e q → 0 < total b q
  total-positive e [] m = absurd m
  total-positive e (x ∷ q) m =
      omega (arith, fuel_for-positive (length b.relations) (b.max_hops - hops x))

  -- From an entry in the queue that is on record, the search comes to every service that is nearest
  -- by its way. The seed's entry is not on record, and its own service is not asked for.
  abbrev IsPending : Entry → ℕ → Search → Type 0
  IsPending e n s = Among e s.queue × (n ≡ 0 → has b seed (hops e) e.current s.output ≡ true)

  head :
      (e x : Entry) (r : TopologyRelation) (rest : List Entry) (s : Search) (n : ℕ) (t : String)
      → e ≡ x
      → s.queue ≡ x ∷ rest
      → hops e < b.max_hops
      → IsSearch b seed s
      → Among e s.queue
      → Leaves b e.current r
      → Leads b (target_of b r) n t
      → IsAt b seed (hops e + suc n) t
      → Reached b seed e r (round b seed (x ∷ rest) s)
  head e x r rest s n t same held near search m leaves on at =
      let trail = All-Among (IsTrail b seed) e s.queue search.0 m in
      let sum : hops e + suc n ≡ (hops e + 1) + n = omega arith in
      let at_target : IsAt b seed (hops e + 1) (target_of b r) =
        IsAt-prefix b seed (target_of b r) t (hops e + 1) n
          (extension-Leads b seed e r trail leaves) on (subst (λ k. IsAt b seed k t) sum at) in
      subst (λ y. Reached b seed e r (round b seed (y ∷ rest) s)) same
        (round-Reached b seed e rest r s (held ∙ ap (λ y. y ∷ rest) (sym same)) near leaves
          at_target search)

  run_complete :
      (fuel : ℕ) (s : Search) (e : Entry) (n : ℕ) (t : String)
      → total b s.queue ≤ fuel
      → IsSearch b seed s
      → IsPending e n s
      → Leads b e.current n t
      → IsAt b seed (hops e + n) t
      → hops e + n ≤ b.max_hops
      → has b seed (hops e + n) t (run b seed fuel s).output ≡ true
  unfolding run
  run_complete fuel s e zero t enough search (m, recorded) way at within =
      let same : hops e + 0 ≡ hops e = omega arith in
      rw (same, sym way) (run-has b b seed seed fuel s (hops e) e.current (recorded refl))
  run_complete zero s e (suc n) t enough search (m, recorded) way at within =
      absurd (omega (arith, enough, total-positive e s.queue m))
  run_complete (suc fuel) s e (suc n) t enough search (m, recorded) way at within =
      elim (List-cases s.queue) [
        | inl empty ↦ absurd (subst (Among e) empty m)
        | inr (x, rest, held) ↦
            let next = round b seed (x ∷ rest) s in
            let fewer : total b next.queue ≤ fuel =
              omega (arith, enough, ap (total b) held, round-total b seed x rest s) in
            let next_search = round-IsSearch b seed x rest s held search in
            let (r, among, from, on) = way in
            subst
              (λ q.
                has b seed (hops e + suc n) t (run b seed fuel (round b seed q s)).output ≡ true)
              (sym held)
              (elim (subst (Among e) held m) [
                | inr later ↦
                    run_complete fuel next e (suc n) t fewer next_search
                      (round-Among b seed x rest s e later, λ z. absurd (omega (arith, z))) way at
                      within
                | inl same ↦
                    let sum : hops e + suc n ≡ hops (extension b e r) + n =
                      omega (arith, hops-extension b e r) in
                    let reached : Reached b seed e r next =
                      head e x r rest s n t same held (omega (arith, within)) search m (among, from)
                        on at in
                    rw sum (
                      run_complete fuel next (extension b e r) n t fewer next_search
                        (
                          reached.1,
                          λ z. rw (hops-extension b e r, extension-current b e r) reached.0,
                        )
                        (rw (extension-current b e r) on) (rw (sym sum) at)
                        (omega (arith, sum, within)))
              ])
      ]

  search_from_complete :
      (before : Provenance) (n : ℕ) (t : String)
      → 0 < n
      → IsAt b seed n t
      → n ≤ b.max_hops
      → has b seed n t (search_from b seed before).output ≡ true
  unfolding search_from
  search_from_complete before n t far at within =
      let sum : 0 + n ≡ n = omega arith in
      subst (λ k. has b seed k t (run b seed (enough b) (start seed before)).output ≡ true) sum
        (run_complete (enough b) (start seed before) seed_entry n t (start-total b seed before)
          (start-IsSearch b seed before) (inl refl, λ z. absurd (omega (arith, far, z))) at.0
          (subst (λ k. IsAt b seed k t) (sym sum) at) (omega (arith, within)))
    where
      seed_entry : Entry
      seed_entry = record { current = seed; path = seed ∷ []; relation_ids = [] }

-- Every service other than the seed to which some seed's shortest way has at most `max_hops`
-- relations is on record for that seed, with the length of that way, whatever was there before.
pub bfs_complete :
    (b : Bfs) (seeds : List String) (before : Provenance) (seed : String) (n : ℕ) (t : String)
    → Among seed seeds
    → 0 < n
    → IsAt b seed n t
    → n ≤ b.max_hops
    → has b seed n t (bfs b seeds before) ≡ true
unfolding bfs
bfs_complete b [] before seed n t m far at within = absurd m
bfs_complete b (x ∷ seeds) before seed n t (inl same) far at within =
    bfs-has b b seeds (search_from b x before).output seed n t (
      subst (λ y. has b seed n t (search_from b y before).output ≡ true) same
        (search_from_complete b seed before n t far at within))
bfs_complete b (x ∷ seeds) before seed n t (inr m) far at within =
    bfs_complete b seeds (search_from b x before).output seed n t m far at within
