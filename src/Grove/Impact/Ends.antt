-- ===== src/Grove/Impact/Ends.antt =====
-- The search of Impact ends: the fuel is enough on every graph.
use grove_suite.Prelude.{
  ℕ, zero, suc, ◌+◌, ◌≤◌, ◌≡◌, inl, inr, ap, leb, if◌then◌else◌, List, [], ◌∷◌, none, some, length,
  Text, text_eq_refl, Map, lookup, insert, lookup-insert, arith, Bool-cases, length-append,
  List-cases,
}
use grove_suite.Prelude.Members.{Among}
use grove_suite.Grove.Data.{Edge}
use grove_suite.Grove.Impact.{
  Frontier, is_visited, depth_of, scan, expand, search_from, start, blast_radius,
}
use grove_suite.Grove.Impact.Growth.{popped, scan_rule}

-- The edges whose source has not been visited.
abbrev unmet : Map ℕ → List Edge → ℕ
unmet visited [] = 0
unmet visited (e ∷ es) =
    if is_visited e.from visited then unmet visited es else suc (unmet visited es)

unmet-insert :
    (k : Text) (n : ℕ) (visited : Map ℕ) (es : List Edge)
    → unmet (insert k n visited) es ≤ unmet visited es
unmet-insert k n visited [] = omega arith
unmet-insert k n visited (e ∷ es) =
    ground (arith, lookup-insert k e.from n visited, unmet-insert k n visited es)

unmet-insert_fresh :
    (n : ℕ) (visited : Map ℕ) (e : Edge) (es : List Edge)
    → Among e es
    → lookup e.from visited ≡ none
    → suc (unmet (insert e.from n visited) es) ≤ unmet visited es
unmet-insert_fresh n visited e [] m h = absurd m
unmet-insert_fresh n visited e (f ∷ es) (inl same) h = ground (
  arith,
  ap (λ (x : Edge). x.from) same,
  lookup-insert e.from f.from n visited,
  text_eq_refl f.from,
  unmet-insert e.from n visited es,
  h,
)
unmet-insert_fresh n visited e (f ∷ es) (inr m) h =
    ground (arith, lookup-insert e.from f.from n visited, unmet-insert_fresh n visited e es m h)

module _ (edges : List Edge) (max_depth : ℕ) where
  -- A push takes an edge from the second part and adds a node to the first.
  abbrev work : Frontier → ℕ
  work s = length s.queue + unmet s.visited edges

  scan-work : (node : Text) (d : ℕ) (s : Frontier) → work (scan node d s edges) ≤ work s
  scan-work node d s =
      scan_rule node d (λ t. work t ≤ work s) edges
        (λ t e m into fresh le. omega (
          arith,
          unmet-insert_fresh (suc d) t.visited e edges m fresh,
          length-append t.queue (e.from ∷ []),
          le,
        ))
        s (omega arith)

  expand-work :
      (s : Frontier) (node : Text) (rest : List Text)
      → s.queue ≡ node ∷ rest
      → suc (work (expand edges max_depth s node rest)) ≤ work s
  unfolding expand
  expand-work s node rest e =
      let d = depth_of node s.visited in
      elim (Bool-cases (leb max_depth d)) [
        | inl deep ↦ rw deep (omega (arith, ap length e))
        | inr shallow ↦ rw shallow (omega (arith, ap length e, scan-work node d (popped s rest)))
      ]

  search_from_ends :
      (fuel : ℕ) (s : Frontier)
      → work s ≤ fuel
      → (visited : Map ℕ) × (search_from edges max_depth fuel s ≡ some visited)
  unfolding search_from
  search_from_ends zero s le = elim (List-cases s.queue) [
    | inl empty ↦ (s.visited, ground (arith, empty))
    | inr (node, rest, e) ↦ absurd (omega (arith, ap length e))
  ]
  search_from_ends (suc fuel) s le = elim (List-cases s.queue) [
    | inl empty ↦ (s.visited, ground (arith, empty))
    | inr (node, rest, e) ↦
        let (visited, ends) =
          search_from_ends fuel (expand edges max_depth s node rest)
            (omega (arith, expand-work s node rest e)) in
        (visited, ground (arith, e, ends))
  ]

  unmet_le : (visited : Map ℕ) (es : List Edge) → unmet visited es ≤ length es
  unmet_le visited [] = omega arith
  unmet_le visited (e ∷ es) = ground (arith, unmet_le visited es)

-- The search for what depends on the seeds ends on every graph, cycles included, at every depth:
-- as many rounds as there are seeds and edges are enough.
pub blast_radius_ends :
    (edges : List Edge) (max_depth : ℕ) (seeds : List Text)
    → (visited : Map ℕ) × (blast_radius edges max_depth seeds ≡ some visited)
unfolding blast_radius start
blast_radius_ends edges max_depth seeds =
    search_from_ends edges max_depth (length seeds + length edges) (start seeds)
      (omega (arith, unmet_le edges max_depth (start seeds).visited edges))
