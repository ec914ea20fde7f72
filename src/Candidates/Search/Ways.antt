-- ===== src/Candidates/Search/Ways.antt =====
-- proberca/candidates/builder.py: ways along relations, and that `_bfs` follows them.
use probe_rca.Prelude.{
  ℕ, zero, suc, ◌+◌, ◌≤◌, ◌≡◌, refl, String, true, false, ◌||◌, some, List, [], ◌∷◌, ◌++◌, leb, mem,
  keep, All, ◌==◌, string_eq, if-keeps, Bool-cases, ◌⊎◌, inl, inr, arith, eq_iff,
}
use probe_rca.Prelude.Keys.{get, put, get-put}
use probe_rca.Prelude.Members.{
  Among, All-path, All-Among_self, All-keep, All-sort_by, All-weaken, All-append, Among-keep,
  Among-sort_by,
}
use probe_rca.Candidates.Relation.{TopologyRelation, Provenance}
use probe_rca.Candidates.Search.{
  Bfs, Entry, Search, hops, adjacent, extension, extend, extend_all, found, visit, round, start,
  get_or, key_of, target_of, relation_le,
}
use probe_rca.Candidates.Search.Ends.{hops-extension}

-- A way of so many relations from one service to another, in the direction of the search.
abbrev pub Leads : Bfs → String → ℕ → String → Type 0
Leads b x zero y = x ≡ y
Leads b x (suc n) y =
    (r : TopologyRelation) × Among r b.relations × (key_of b r ≡ x) × Leads b (target_of b r) n y

pub Leads-append :
    (b : Bfs) (x y z : String) (m n : ℕ) → Leads b x m y → Leads b y n z → Leads b x (m + n) z
Leads-append b x y z zero n p q = let same : 0 + n ≡ n = omega arith in rw (same, p) q
Leads-append b x y z (suc m) n (r, among, from, p) q =
    let same : suc m + n ≡ suc (m + n) = omega arith in
    rw same (r, among, from, Leads-append b (target_of b r) y z m n p q)

pub Leads-relation :
    (b : Bfs) (x : String) (r : TopologyRelation)
    → Among r b.relations
    → key_of b r ≡ x
    → Leads b x 1 (target_of b r)
Leads-relation b x r among from = (r, among, from, refl)

-- An entry's service is reached in as many relations as it says, and each on its path in no more.
abbrev pub IsTrail : Bfs → String → Entry → Type 0
IsTrail b seed e =
    Leads b seed (hops e) e.current
    × ((x : String) → mem x e.path ≡ true → (i : ℕ) × (i ≤ hops e) × Leads b seed i x)

abbrev pub IsSearch : Bfs → String → Search → Type 0
IsSearch b seed s =
    All (IsTrail b seed) s.queue
    × ((x : String) (n : ℕ) → get x s.shortest ≡ some n → Leads b seed n x)

-- The relations that leave a service.
abbrev pub Leaves : Bfs → String → TopologyRelation → Type 0
Leaves b x r = Among r b.relations × (key_of b r ≡ x)

pub adjacent-Leaves : (b : Bfs) (x : String) → All (Leaves b x) (adjacent b x)
unfolding adjacent
adjacent-Leaves b x =
    All-sort_by (Leaves b x) relation_le (keep (λ r. key_of b r == x) b.relations) (
      All-weaken (λ r h. (h.0, (eq_iff (key_of b r) x).0 h.1))
        (keep (λ r. key_of b r == x) b.relations)
        (All-keep (λ r. Among r b.relations) (λ r. key_of b r == x) b.relations
          (All-Among_self b.relations)))

pub Among-adjacent :
    (b : Bfs) (x : String) (r : TopologyRelation) → Leaves b x r → Among r (adjacent b x)
unfolding adjacent
Among-adjacent b x r (among, from) =
    Among-sort_by relation_le r (keep (λ r. key_of b r == x) b.relations)
      (Among-keep (λ r. key_of b r == x) r b.relations ((eq_iff (key_of b r) x).1 from) among)

mem_last : (x y : String) (xs : List String) → mem x (xs ++ y ∷ []) ≡ (x == y || mem x xs)
mem_last x y [] = ground arith
mem_last x y (z ∷ zs) = ground (arith, mem_last x y zs)

mem-extension :
    (b : Bfs) (e : Entry) (r : TopologyRelation) (x : String)
    → mem x (extension b e r).path ≡ (x == target_of b r || mem x e.path)
unfolding extension
mem-extension b e r x = elim (Bool-cases b.incoming) [
  | inl up ↦ ground (arith, up)
  | inr down ↦ ground (arith, down, mem_last x (target_of b r) e.path)
]

pub extension-current :
    (b : Bfs) (e : Entry) (r : TopologyRelation) → (extension b e r).current ≡ target_of b r
unfolding extension
extension-current b e r = refl

pub extension-Leads :
    (b : Bfs) (seed : String) (e : Entry) (r : TopologyRelation)
    → IsTrail b seed e
    → Leaves b e.current r
    → Leads b seed (hops e + 1) (target_of b r)
extension-Leads b seed e r (reached, along) (among, from) =
    Leads-append b seed e.current (target_of b r) (hops e) 1 reached
      (Leads-relation b e.current r among from)

pub extension-IsTrail :
    (b : Bfs) (seed : String) (e : Entry) (r : TopologyRelation)
    → IsTrail b seed e
    → Leaves b e.current r
    → IsTrail b seed (extension b e r)
extension-IsTrail b seed e r trail leaves =
    let one_more = extension-Leads b seed e r trail leaves in
    rw (hops-extension b e r, extension-current b e r)
      (one_more, λ x on_path. along x (Bool-cases (x == target_of b r)) on_path)
  where
    along :
        (x : String)
        → ((x == target_of b r) ≡ true) ⊎ ((x == target_of b r) ≡ false)
        → mem x (extension b e r).path ≡ true
        → (i : ℕ) × (i ≤ hops e + 1) × Leads b seed i x
    along x (inl same) on_path = (
      hops e + 1,
      omega arith,
      rw ((eq_iff x (target_of b r)).0 same) (extension-Leads b seed e r trail leaves),
    )
    along x (inr other) on_path =
        let (i, short, way) = trail.1 x (ground (arith, other, on_path, mem-extension b e r x)) in
        (i, omega (arith, short), way)

found-IsSearch :
    (b : Bfs) (seed : String) (e : Entry) (s : Search)
    → IsTrail b seed e
    → IsSearch b seed s
    → IsSearch b seed (found b seed e s)
unfolding found
found-IsSearch b seed e s trail (trails, ways) =
    if-keeps (IsSearch b seed) (leb (hops e) (get_or (hops e) (get e.current s.shortest)))
      (All-append (IsTrail b seed) s.queue (e ∷ []) trails (trail, tt), shorter) (trails, ways)
  where
    shorter :
        (x : String) (n : ℕ) → get x (put e.current (hops e) s.shortest) ≡ some n → Leads b seed n x
    shorter x n known = elim (Bool-cases (x == e.current)) [
      | inl same ↦
          let n_hops : n ≡ hops e = ground (
            arith,
            known,
            same,
            get-put e.current x (hops e) s.shortest,
            eq_iff x e.current,
            eq_iff e.current x,
          ) in
          rw (n_hops, (eq_iff x e.current).0 same) trail.0
      | inr other ↦ ways x n (
          ground (
            arith,
            known,
            other,
            get-put e.current x (hops e) s.shortest,
            eq_iff x e.current,
            eq_iff e.current x,
          ))
    ]

pub extend-IsSearch :
    (b : Bfs) (seed : String) (e : Entry) (r : TopologyRelation) (s : Search)
    → IsTrail b seed e
    → Leaves b e.current r
    → IsSearch b seed s
    → IsSearch b seed (extend b seed e r s)
unfolding extend
extend-IsSearch b seed e r s trail leaves sound =
    if-keeps (IsSearch b seed) (mem (target_of b r) e.path) sound
      (found-IsSearch b seed (extension b e r) s (extension-IsTrail b seed e r trail leaves) sound)

pub extend_all-IsSearch :
    (b : Bfs) (seed : String) (e : Entry) (rs : List TopologyRelation) (s : Search)
    → IsTrail b seed e
    → All (Leaves b e.current) rs
    → IsSearch b seed s
    → IsSearch b seed (extend_all b seed e rs s)
unfolding extend_all
extend_all-IsSearch b seed e [] s trail leave sound = sound
extend_all-IsSearch b seed e (r ∷ rs) s trail leave sound =
    extend_all-IsSearch b seed e rs (extend b seed e r s) trail leave.1
      (extend-IsSearch b seed e r s trail leave.0 sound)

pub round-IsSearch :
    (b : Bfs) (seed : String) (e : Entry) (rest : List Entry) (s : Search)
    → s.queue ≡ e ∷ rest
    → IsSearch b seed s
    → IsSearch b seed (round b seed (e ∷ rest) s)
unfolding round visit
round-IsSearch b seed e rest s held (trails, ways) =
    let (trail, others) : All (IsTrail b seed) (e ∷ rest) =
      All-path (IsTrail b seed) s.queue (e ∷ rest) held trails in
    let left : IsSearch b seed (record s { queue = rest }) = (others, ways) in
    if-keeps (IsSearch b seed) (leb b.max_hops (hops e)) left (
      extend_all-IsSearch b seed e (adjacent b e.current) (record s { queue = rest }) trail
        (adjacent-Leaves b e.current) left)

pub start-IsSearch :
    (b : Bfs) (seed : String) (output : Provenance) → IsSearch b seed (start seed output)
unfolding get
start-IsSearch b seed output = (
  ((refl, λ x on_path. (0, omega arith, ground (arith, on_path, eq_iff x seed))), tt),
  λ x n known. elim (Bool-cases (x == seed)) [
    | inl same ↦
        (let none_yet : n ≡ 0 = ground (arith, known, same) in
          rw (none_yet, (eq_iff x seed).0 same) refl)
    | inr other ↦ ground (arith, known, other)
  ],
)
