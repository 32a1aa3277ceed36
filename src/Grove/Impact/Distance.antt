-- ===== src/Grove/Impact/Distance.antt =====
-- Impact finds exactly what depends on the seeds within the depth, and its search ends.
use grove_suite.Prelude.{
  ℕ, zero, suc, ◌≤◌, ◌<◌, ◌≡◌, inl, inr, refl, sym, ap, subst, ◌∙◌, true, false, leb, if◌then◌else◌,
  leb→le, leb→lt, List, [], ◌∷◌, Option, none, some, map, Text, text_eq, text_eq_iff, text_eq_refl,
  Map, lookup, lookup-insert, member, arith, Bool-cases, Option-cases, List-cases,
}
use grove_suite.Prelude.Members.{Among}
use grove_suite.Grove.Data.{Edge}
use grove_suite.Grove.Impact.{followed, Frontier, scan, expand, search_from, start}
use grove_suite.Grove.Impact.Growth.{
  popped, Into, Grows, scan_rule, scan-Grows, scan_met, Rising, Rising-weaken, Level, scan-Level,
}

-- `v` depends on a seed along `k` followed edges.
pub data Within (edges : List Edge) (seeds : List Text) : ℕ → Text → Type 0 where
  here : {v : Text} → member v seeds ≡ true → Within edges seeds 0 v
  hop :
      {k : ℕ} (e : Edge)
      → Among e edges
      → followed e.type ≡ true
      → Within edges seeds k e.to
      → Within edges seeds (suc k) e.from

module _ (edges : List Edge) (max_depth : ℕ) (seeds : List Text) where
  -- Each source of an edge into `u` is at most one deeper.
  abbrev Met : Map ℕ → Text → ℕ → Type 0
  Met visited u d =
      (e : Edge)
      → Among e edges
      → Into u e
      → (n : ℕ) × (lookup e.from visited ≡ some n) × (n ≤ suc d)

  abbrev Sound : Map ℕ → Type 0
  Sound visited =
      (v : Text) (d : ℕ) → lookup v visited ≡ some d → Within edges seeds d v × (d ≤ max_depth)

  -- What holds between the rounds.
  record Balanced (s : Frontier) : Type 0 where
    low : ℕ
    level : Level low s
    sound : Sound s.visited
    closed :
        (u : Text) (d : ℕ)
        → lookup u s.visited ≡ some d
        → d < max_depth
        → member u s.queue ≡ false
        → Met s.visited u d
    seeded : (v : Text) → member v seeds ≡ true → lookup v s.visited ≡ some 0

  Met-old : (s t : Frontier) (u : Text) (d : ℕ) → Grows s t → Met s.visited u d → Met t.visited u d
  Met-old s t u d g met e m into = let (n, at, le) = met e m into in (n, g.old e.from n at, le)

  scan-Sound :
      (node : Text) (d : ℕ) (s : Frontier)
      → lookup node s.visited ≡ some d
      → d < max_depth
      → Sound s.visited
      → Sound (scan node d s edges).visited
  scan-Sound node d s at deep sound =
      scan_rule node d (λ (t : Frontier). Sound t.visited) edges
        (λ t e m into h kept v k there. elim (Bool-cases (text_eq e.from v)) [
          | inl same ↦
              let reached : Within edges seeds (suc d) e.from =
                hop e m into.1 (subst (Within edges seeds d) (sym into.0) (sound node d at).0) in
              let k-is : suc d ≡ k =
                ground (arith, lookup-insert e.from v (suc d) t.visited, same, there) in
              (
                subst (λ n. Within edges seeds n v) k-is
                    (subst (Within edges seeds (suc d)) ((text_eq_iff e.from v).0 same) reached),
                omega arith,
              )
          | inr other ↦
              kept v k (ground (arith, lookup-insert e.from v (suc d) t.visited, other, there))
        ])
        s sound

  scan-Met :
      (node : Text) (d : ℕ) (s : Frontier) → Level d s → Met (scan node d s edges).visited node d
  scan-Met node d s level e m into =
      let t = scan node d s edges in
      elim (Option-cases (lookup e.from t.visited)) [
        | inl missed ↦ ground (arith, scan_met node d s edges e m into, missed)
        | inr (n, at) ↦ (n, at, (scan-Level node d s edges level).below e.from n at)
      ]

  popped-Level :
      (s : Frontier) (node : Text) (rest : List Text) (b : Balanced s)
      → s.queue ≡ node ∷ rest
      → (d : ℕ) × (lookup node s.visited ≡ some d) × Level d (popped s rest)
  popped-Level s node rest b e =
      let (d, at, above, under, others) =
        subst (Rising s.visited b.low (suc b.low)) e b.level.rising in
      (
        d,
        at,
        record {
          rising = Rising-weaken s.visited d (suc b.low) (suc d) rest (omega arith) others;
          below = λ v k there. omega (arith, b.level.below v k there);
        },
      )

  popped-closed :
      (s : Frontier) (node : Text) (rest : List Text) (b : Balanced s)
      → s.queue ≡ node ∷ rest
      → (u : Text) (k : ℕ) → text_eq node u ≡ false
      → lookup u s.visited ≡ some k
      → k < max_depth
      → member u rest ≡ false
      → Met s.visited u k
  unfolding member
  popped-closed s node rest b e u k other at deep gone =
      b.closed u k at deep (ap (member u) e ∙ ground (arith, other, gone))

  scanned-Balanced :
      (s : Frontier) (node : Text) (rest : List Text) (b : Balanced s)
      → s.queue ≡ node ∷ rest
      → (d : ℕ) → lookup node s.visited ≡ some d
      → Level d (popped s rest)
      → d < max_depth
      → Balanced (scan node d (popped s rest) edges)
  scanned-Balanced s node rest b e d at level deep =
      let t = scan node d (popped s rest) edges in
      let g = scan-Grows node d (popped s rest) edges in
      record {
        low = d;
        level = scan-Level node d (popped s rest) edges level;
        sound = scan-Sound node d (popped s rest) at deep b.sound;
        closed = λ u k there below gone. elim (Bool-cases (text_eq node u)) [
          | inl same ↦
              let k-is : d ≡ k = ground (arith, g.old node d at, text_eq_iff node u, same, there) in
              subst (λ n. Met t.visited u n) k-is
                (subst (λ v. Met t.visited v d) ((text_eq_iff node u).0 same)
                  (scan-Met node d (popped s rest) level))
          | inr other ↦
              let there' : lookup u s.visited ≡ some k = ground (arith, g.fresh u k there, gone) in
              let gone' : member u rest ≡ false = ground (arith, g.keeps u, gone) in
              Met-old (popped s rest) t u k g
                (popped-closed s node rest b e u k other there' below gone')
        ];
        seeded = λ v m. g.old v 0 (b.seeded v m);
      }

  popped-Balanced :
      (s : Frontier) (node : Text) (rest : List Text) (b : Balanced s)
      → s.queue ≡ node ∷ rest
      → (d : ℕ) → lookup node s.visited ≡ some d
      → Level d (popped s rest)
      → max_depth ≤ d
      → Balanced (popped s rest)
  popped-Balanced s node rest b e d at level deep = record {
    low = d;
    level = level;
    sound = b.sound;
    closed = λ u k there below gone. elim (Bool-cases (text_eq node u)) [
      | inl same ↦
          let k-is : d ≡ k = ground (arith, at, text_eq_iff node u, same, there) in
          absurd (omega (arith, k-is))
      | inr other ↦ popped-closed s node rest b e u k other there below gone
    ];
    seeded = b.seeded;
  }

  expand_eq :
      (s : Frontier) (node : Text) (rest : List Text) (d : ℕ)
      → lookup node s.visited ≡ some d
      → expand edges max_depth s node rest
        ≡ (if leb max_depth d then popped s rest else scan node d (popped s rest) edges)
  unfolding expand
  expand_eq s node rest d at =
      ap
        (λ (o : Option ℕ).
          let k : ℕ = elim o [ none ↦ 0 | some n ↦ n ] in
          if leb max_depth k then popped s rest else scan node k (popped s rest) edges)
        at

  expand-Balanced :
      (s : Frontier) (node : Text) (rest : List Text)
      → s.queue ≡ node ∷ rest
      → Balanced s
      → Balanced (expand edges max_depth s node rest)
  expand-Balanced s node rest e b =
      let (d, at, level) = popped-Level s node rest b e in
      subst Balanced (sym (expand_eq s node rest d at)) (elim (Bool-cases (leb max_depth d)) [
        | inl deep ↦ rw deep (popped-Balanced s node rest b e d at level (leb→le max_depth d deep))
        | inr shallow ↦
            rw shallow (scanned-Balanced s node rest b e d at level (leb→lt max_depth d shallow))
      ])

  -- An invariant of the rounds holds at the end, where the queue is empty.
  search_from-Balanced :
      (fuel : ℕ) (s : Frontier) (visited : Map ℕ)
      → Balanced s
      → search_from edges max_depth fuel s ≡ some visited
      → (t : Frontier) × Balanced t × (t.queue ≡ []) × (t.visited ≡ visited)
  unfolding search_from
  search_from-Balanced zero s visited b h = elim (List-cases s.queue) [
    | inl empty ↦ (s, b, empty, ground (arith, empty))
    | inr (node, rest, e) ↦ ground (arith, e)
  ]
  search_from-Balanced (suc fuel) s visited b h = elim (List-cases s.queue) [
    | inl empty ↦ (s, b, empty, ground (arith, empty))
    | inr (node, rest, e) ↦
        search_from-Balanced fuel (expand edges max_depth s node rest) visited
          (expand-Balanced s node rest e b) (ground (arith, e))
  ]

  abbrev at_zero : List Text → Map ℕ
  at_zero ss = map (λ seed. (seed, 0)) ss

  start-lookup :
      (ss : List Text) (v : Text) → lookup v (at_zero ss) ≡ (if member v ss then some 0 else none)
  unfolding lookup member
  start-lookup [] v = refl
  start-lookup (t ∷ ss) v = elim (Bool-cases (text_eq t v)) [
    | inl h ↦ rw h refl
    | inr h ↦ rw h (start-lookup ss v)
  ]

  start-Rising :
      (high : ℕ) (ss : List Text)
      → ((v : Text) → member v ss ≡ true → member v seeds ≡ true)
      → Rising (at_zero seeds) 0 high ss
  unfolding member
  start-Rising high [] all = tt
  start-Rising high (t ∷ ss) all = (
    0,
    ground (arith, start-lookup seeds t, all t, text_eq_refl t),
    omega arith,
    omega arith,
    start-Rising high ss (λ v m. all v (ground (arith, m))),
  )

  start-Balanced : Balanced (start seeds)
  unfolding start
  start-Balanced = record {
    low = 0;
    level = record {
      rising = start-Rising 1 seeds (λ v m. m);
      below = λ v d at. ground (arith, start-lookup seeds v, at);
    };
    sound = λ v d at. elim (Bool-cases (member v seeds)) [
      | inl m ↦
          let d-is : 0 ≡ d = ground (arith, start-lookup seeds v, m, at) in
          (subst (λ n. Within edges seeds n v) d-is (here m), omega (arith, d-is))
      | inr m ↦ ground (arith, start-lookup seeds v, m, at)
    ];
    closed = λ u d at deep gone. ground (arith, start-lookup seeds u, at, gone);
    seeded = λ v m. ground (arith, start-lookup seeds v, m);
  }

  Within-found :
      (t : Frontier) (k : ℕ) (v : Text)
      → Balanced t
      → t.queue ≡ []
      → Within edges seeds k v
      → k ≤ max_depth
      → (d : ℕ) × (lookup v t.visited ≡ some d) × (d ≤ k)
  unfolding member
  Within-found t k v b empty (here m) le = (0, b.seeded v m, omega arith)
  Within-found t (suc k) v b empty (hop e m follow w) le =
      let (d, at, near) = Within-found t k e.to b empty w (omega arith) in
      let (n, there, deep) =
        b.closed e.to d at (omega arith) (ap (member e.to) empty) e m (refl, follow) in
      (n, there, omega arith)

  -- What the search has found is every node within the depth, at its distance from the seeds.
  pub search_found :
      (fuel : ℕ) (visited : Map ℕ)
      → search_from edges max_depth fuel (start seeds) ≡ some visited
      → (v : Text)
      → ((d : ℕ) → lookup v visited ≡ some d → Within edges seeds d v × (d ≤ max_depth))
        × ((k : ℕ)
            → Within edges seeds k v
            → k ≤ max_depth
            → (d : ℕ) × (lookup v visited ≡ some d) × (d ≤ k))
  search_found fuel visited h v =
      let (t, b, empty, same) = search_from-Balanced fuel (start seeds) visited start-Balanced h in
      subst
        (λ m.
          ((d : ℕ) → lookup v m ≡ some d → Within edges seeds d v × (d ≤ max_depth))
          × ((k : ℕ)
              → Within edges seeds k v
              → k ≤ max_depth
              → (d : ℕ) × (lookup v m ≡ some d) × (d ≤ k)))
        same (b.sound v, λ k w le. Within-found t k v b empty w le)
