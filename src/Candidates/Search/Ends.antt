-- ===== src/Candidates/Search/Ends.antt =====
-- proberca/candidates/builder.py: that `_bfs` ends.
use probe_rca.Prelude.{
  ℕ, zero, suc, ◌+◌, ◌*◌, ◌-◌, ◌≤◌, ◌<◌, ◌≡◌, refl, String, List, [], ◌∷◌, ◌++◌, length, leb, ◌==◌,
  string_eq, keep, length-append, length-keep, Bool-cases, inl, inr, arith, ap, ◌∙◌, List-cases,
}
use native.Mathlib.Nat.{mul-le-mul_right}
use probe_rca.Prelude.Sorting.{length-sort_by}
use probe_rca.Candidates.Relation.{TopologyRelation, Provenance}
use probe_rca.Candidates.Search.{
  Bfs, Entry, Search, hops, adjacent, extension, extend, extend_all, found, visit, round, run,
  fuel_for, start, search_from, enough, key_of, relation_le,
}

abbrev pub weight : Bfs → ℕ → ℕ
weight b n = fuel_for (length b.relations) (b.max_hops - n)

-- The rounds that a queue needs at most.
abbrev pub total : Bfs → List Entry → ℕ
total b [] = 0
total b (e ∷ q) = weight b (hops e) + total b q

total-append :
    (b : Bfs) (q : List Entry) (e : Entry) → total b (q ++ e ∷ []) ≡ total b q + weight b (hops e)
total-append b [] e = omega arith
total-append b (x ∷ q) e = omega (arith, total-append b q e)

pub hops-extension :
    (b : Bfs) (e : Entry) (r : TopologyRelation) → hops (extension b e r) ≡ hops e + 1
unfolding extension
hops-extension b e r = elim (Bool-cases b.incoming) [
  | inl up ↦ ground (arith, up)
  | inr down ↦ ground (arith, down, length-append e.relation_ids (r.relation_id ∷ []))
]

extend-total :
    (b : Bfs) (seed : String) (e : Entry) (r : TopologyRelation) (s : Search)
    → total b (extend b seed e r s).queue ≤ total b s.queue + weight b (hops e + 1)
unfolding extend found
extend-total b seed e r s =
    ground (arith, total-append b s.queue (extension b e r), hops-extension b e r)

extend_all-total :
    (b : Bfs) (seed : String) (e : Entry) (rs : List TopologyRelation) (s : Search)
    → total b (extend_all b seed e rs s).queue ≤ total b s.queue + length rs * weight b (hops e + 1)
unfolding extend_all
extend_all-total b seed e [] s = omega arith
extend_all-total b seed e (r ∷ rs) s =
    omega (arith, extend-total b seed e r s, extend_all-total b seed e rs (extend b seed e r s))

length-adjacent : (b : Bfs) (current : String) → length (adjacent b current) ≤ length b.relations
unfolding adjacent
length-adjacent b current =
    let kept = keep (λ r. key_of b r == current) b.relations in
    omega
      (arith, length-sort_by relation_le kept, length-keep (λ r. key_of b r == current) b.relations)

pub fuel_for-positive : (n k : ℕ) → 0 < fuel_for n k
unfolding fuel_for
fuel_for-positive n zero = omega arith
fuel_for-positive n (suc k) = omega arith

-- What a visit spends: its own round, and those of the entries that it adds.
weight-step :
    (b : Bfs) (n : ℕ) → n < b.max_hops → weight b n ≡ 1 + length b.relations * weight b (n + 1)
unfolding fuel_for
weight-step b n h =
    let left : b.max_hops - n ≡ suc (b.max_hops - (n + 1)) = omega arith in rw left refl

extensions-total :
    (b : Bfs) (seed : String) (e : Entry) (s : Search)
    → hops e < b.max_hops
    → total b (extend_all b seed e (adjacent b e.current) s).queue + 1
      ≤ weight b (hops e) + total b s.queue
extensions-total b seed e s h = omega (
  arith,
  weight-step b (hops e) h,
  extend_all-total b seed e (adjacent b e.current) s,
  mul-le-mul_right (weight b (hops e + 1)) (length-adjacent b e.current),
)

-- A round takes at least one off the rounds that the queue needs.
pub round-total :
    (b : Bfs) (seed : String) (e : Entry) (rest : List Entry) (s : Search)
    → total b (round b seed (e ∷ rest) s).queue + 1 ≤ total b (e ∷ rest)
unfolding round visit
round-total b seed e rest s = elim (Bool-cases (leb b.max_hops (hops e))) [
  | inl far ↦ ground (arith, far, fuel_for-positive (length b.relations) (b.max_hops - hops e))
  | inr near ↦ ground (arith, near, extensions-total b seed e (record s { queue = rest }))
]

run-nothing :
    (b : Bfs) (seed : String) (fuel : ℕ) (s : Search) → s.queue ≡ [] → run b seed fuel s ≡ s
unfolding run round
run-nothing b seed zero s h = refl
run-nothing b seed (suc fuel) s h =
    ap (λ q. run b seed fuel (round b seed q s)) h ∙ run-nothing b seed fuel s h

run_ends :
    (b : Bfs) (seed : String) (fuel : ℕ) (s : Search)
    → total b s.queue ≤ fuel
    → (run b seed fuel s).queue ≡ []
unfolding run
run_ends b seed zero s h = elim (List-cases s.queue) [
  | inl empty ↦ empty
  | inr (e, rest, held) ↦
      ground (arith, h, held, fuel_for-positive (length b.relations) (b.max_hops - hops e))
]
run_ends b seed (suc fuel) s h = elim (List-cases s.queue) [
  | inl empty ↦ ap (λ t. t.queue) (run-nothing b seed (suc fuel) s empty) ∙ empty
  | inr (e, rest, held) ↦
      ap (λ q. (run b seed fuel (round b seed q s)).queue) held
      ∙ run_ends b seed fuel (round b seed (e ∷ rest) s)
          (ground (arith, h, held, round-total b seed e rest s))
]

pub start-total :
    (b : Bfs) (seed : String) (output : Provenance) → total b (start seed output).queue ≤ enough b
start-total b seed output =
    let all_left : b.max_hops - 0 ≡ b.max_hops = omega arith in
    let same : weight b 0 ≡ enough b = ap (fuel_for (length b.relations)) all_left in
    omega (arith, same)

-- The search from a seed ends: the fuel is enough to empty the queue, whatever is on record before.
pub search_from_ends :
    (b : Bfs) (seed : String) (output : Provenance) → (search_from b seed output).queue ≡ []
unfolding search_from
search_from_ends b seed output =
    run_ends b seed (enough b) (start seed output) (start-total b seed output)
