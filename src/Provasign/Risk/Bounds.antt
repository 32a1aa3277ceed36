-- ===== src/Provasign/Risk/Bounds.antt =====
-- The scores of risk.go: their bounds, the overall score and the order of the cells.
use grove_suite.Prelude.{
  ℕ, ◌≤◌, ◌≡◌, refl, sym, ap, ◌∙◌, Bool, true, ◌&&◌, ltb, leb, le→leb, if◌then◌else◌, List, [], ◌∷◌,
  length, map, All, Text, arith, Bool-cases, inl, inr,
}
use grove_suite.Prelude.Sorts.{place, sort_stable}
use grove_suite.Provasign.Data.{Finding}
use grove_suite.Provasign.Risk.{
  Components, Cell, Inputs, clamp, heatmap_of, unique_files, severity_value, worst_from, score_of,
  cell_of, overall_from, hotter, compute,
}

-- No score is above the one before it.
abbrev pub falls : ℕ → List Cell → Bool
falls n [] = true
falls n (c ∷ cs) = leb c.score n && falls c.score cs

-- The score that stands first.
abbrev pub top : List Cell → ℕ
top [] = 0
top (c ∷ cs) = c.score

abbrev pub higher : ℕ → ℕ → ℕ
higher a b = if ltb a b then b else a

higher_swap : (a b c : ℕ) → higher (higher a b) c ≡ higher (higher a c) b
higher_swap a b c = ground arith

overall_from-place :
    (b : ℕ) (c : Cell) (cs : List Cell)
    → overall_from b (place hotter c cs) ≡ overall_from b (c ∷ cs)
unfolding overall_from place
overall_from-place b c [] = refl
overall_from-place b c (d ∷ ds) = elim (Bool-cases (hotter d c)) [
  | inl h ↦ rw h (
      overall_from-place (higher b d.score) c ds
      ∙ ap (λ n. overall_from n ds) (higher_swap b d.score c.score))
  | inr h ↦ rw h refl
]

overall_from-sort_stable :
    (b : ℕ) (cs : List Cell) → overall_from b (sort_stable hotter cs) ≡ overall_from b cs
unfolding overall_from sort_stable
overall_from-sort_stable b [] = refl
overall_from-sort_stable b (c ∷ cs) =
    overall_from-place b c (sort_stable hotter cs) ∙ overall_from-sort_stable (higher b c.score) cs

falls-place :
    (n : ℕ) (c : Cell) (cs : List Cell)
    → leb c.score n ≡ true
    → falls n cs ≡ true
    → falls n (place hotter c cs) ≡ true
unfolding place
falls-place n c [] h f = ground (arith, h)
falls-place n c (d ∷ ds) h f = ground (arith, falls-place d.score c ds)

falls-sort_stable :
    (n : ℕ) (cs : List Cell)
    → All (λ (c : Cell). leb c.score n ≡ true) cs
    → falls n (sort_stable hotter cs) ≡ true
unfolding sort_stable
falls-sort_stable n [] h = refl
falls-sort_stable n (c ∷ cs) h =
    falls-place n c (sort_stable hotter cs) h.0 (falls-sort_stable n cs h.1)

falls_weaken : (m n : ℕ) (cs : List Cell) → leb m n ≡ true → falls m cs ≡ true → falls n cs ≡ true
falls_weaken m n [] h f = refl
falls_weaken m n (c ∷ cs) h f = ground arith

overall_from-falls : (n : ℕ) (cs : List Cell) → falls n cs ≡ true → overall_from n cs ≡ n
unfolding overall_from
overall_from-falls n [] f = refl
overall_from-falls n (c ∷ cs) f =
    ap (λ k. overall_from k cs) (ground (arith, f))
    ∙ overall_from-falls n cs (falls_weaken c.score n cs (ground (arith, f)) (ground (arith, f)))

overall_from-top : (n : ℕ) (cs : List Cell) → falls n cs ≡ true → overall_from 0 cs ≡ top cs
unfolding overall_from
overall_from-top n [] f = refl
overall_from-top n (c ∷ cs) f =
    ap (λ k. overall_from k cs) (ground arith) ∙ overall_from-falls c.score cs (ground (arith, f))

score_of-le : (c : Components) → score_of c ≤ 100000
unfolding score_of
score_of-le c = ground arith

cells-le :
    (inputs : Inputs) (touch : ℕ) (files : List Text)
    → All (λ (c : Cell). leb c.score 100000 ≡ true) (map (cell_of inputs touch) files)
unfolding cell_of
cells-le inputs touch [] = tt
cells-le inputs touch (f ∷ fs) =
    (le→leb _ 100000 (score_of-le (cell_of inputs touch f).components), cells-le inputs touch fs)

heatmap_of_ranked :
    (inputs : Inputs) (files : List Text)
    → (falls 100000 (heatmap_of inputs files).cells ≡ true)
      × ((heatmap_of inputs files).overall ≡ top (heatmap_of inputs files).cells)
unfolding heatmap_of
heatmap_of_ranked inputs [] = (refl, refl)
heatmap_of_ranked inputs (f ∷ fs) =
    let cells = map (cell_of inputs (clamp 20 (length (f ∷ fs)))) (f ∷ fs) in
    let sorted =
      falls-sort_stable 100000 cells (cells-le inputs (clamp 20 (length (f ∷ fs))) (f ∷ fs)) in
    (
      sorted,
      sym (overall_from-sort_stable 0 cells)
          ∙ overall_from-top 100000 (sort_stable hotter cells) sorted,
    )

-- In the heatmap the cells stand with the hottest first, no score is above one, and the overall
-- score is that of the first cell, or zero where no file is touched.
pub compute_overall :
    (inputs : Inputs)
    → (falls 100000 (compute inputs).cells ≡ true)
      × ((compute inputs).overall ≡ top (compute inputs).cells)
unfolding compute
compute_overall inputs = heatmap_of_ranked inputs (unique_files inputs.icr.files)

-- The worst of the findings wins.
pub worst_from_max :
    (worst : ℕ) (fs : List Finding)
    → (worst ≤ worst_from worst fs)
      × All (λ (f : Finding). severity_value f.severity ≤ worst_from worst fs) fs
unfolding worst_from
worst_from_max worst [] = (omega arith, tt)
worst_from_max worst (f ∷ fs) =
    let v = severity_value f.severity in
    let ih = worst_from_max (higher worst v) fs in
    (ground (arith, ih.0), (ground (arith, ih.0), ih.1))
