-- ===== src/Provasign/DiffScope/Ranges.antt =====
-- mergeRanges of diffscope.go: the lines that it covers.
use grove_suite.Prelude.{
  ℕ, suc, ◌≡◌, refl, ap, ◌∙◌, Bool, true, false, ◌&&◌, ◌||◌, leb, any, List, [], ◌∷◌, is_empty,
  Text, insert, lookup-insert, text_eq, Bool-cases, inl, inr, arith,
}
use grove_suite.Prelude.Sorts.{place, sort_stable}
use grove_suite.Provasign.DiffScope.{
  LineRange, range_contains, AddedLineMap, earlier, extended, merge_from, merge_sorted,
  merge_ranges, normalize_path, in_scope,
}

abbrev pub covered : ℕ → List LineRange → Bool
covered line rs = any (range_contains line) rs

-- The starts rise from `n` on.
abbrev ordered : ℕ → List LineRange → Bool
ordered n [] = true
ordered n (r ∷ rs) = leb n r.start && ordered r.start rs

-- Every range starts past the one before, with a line between.
abbrev pub gaps : ℕ → List LineRange → Bool
gaps n [] = true
gaps n (r ∷ rs) = leb n r.start && gaps (suc r.stop) rs

covered-place :
    (line : ℕ) (r : LineRange) (rs : List LineRange)
    → covered line (place earlier r rs) ≡ covered line (r ∷ rs)
unfolding place
covered-place line r [] = refl
covered-place line r (s ∷ rs) = ground (arith, covered-place line r rs)

covered-sort_stable :
    (line : ℕ) (rs : List LineRange) → covered line (sort_stable earlier rs) ≡ covered line rs
unfolding sort_stable
covered-sort_stable line [] = refl
covered-sort_stable line (r ∷ rs) =
    covered-place line r (sort_stable earlier rs)
    ∙ ap (λ b. range_contains line r || b) (covered-sort_stable line rs)

ordered-place :
    (n : ℕ) (r : LineRange) (rs : List LineRange)
    → leb n r.start ≡ true
    → ordered n rs ≡ true
    → ordered n (place earlier r rs) ≡ true
unfolding place
ordered-place n r [] h o = ground (arith, h)
ordered-place n r (s ∷ rs) h o = ground (arith, ordered-place s.start r rs)

ordered-sort_stable : (rs : List LineRange) → ordered 0 (sort_stable earlier rs) ≡ true
unfolding sort_stable
ordered-sort_stable [] = refl
ordered-sort_stable (r ∷ rs) =
    ordered-place 0 r (sort_stable earlier rs) (ground arith) (ordered-sort_stable rs)

ordered_weaken :
    (m n : ℕ) (rs : List LineRange) → leb m n ≡ true → ordered n rs ≡ true → ordered m rs ≡ true
ordered_weaken m n [] h o = refl
ordered_weaken m n (r ∷ rs) h o = ground arith

covered-merge_from :
    (line : ℕ) (last : LineRange) (rs : List LineRange)
    → ordered last.start rs ≡ true
    → covered line (merge_from last rs) ≡ covered line (last ∷ rs)
unfolding merge_from
covered-merge_from line last [] o = refl
covered-merge_from line last (r ∷ rs) o = ground (
  arith,
  covered-merge_from line (extended last r) rs,
  covered-merge_from line r rs,
  ordered_weaken last.start r.start rs,
)

gaps-merge_from :
    (n : ℕ) (last : LineRange) (rs : List LineRange)
    → leb n last.start ≡ true
    → gaps n (merge_from last rs) ≡ true
unfolding merge_from
gaps-merge_from n last [] h = ground (arith, h)
gaps-merge_from n last (r ∷ rs) h =
    ground (arith, gaps-merge_from n (extended last r) rs, gaps-merge_from (suc last.stop) r rs)

merge_sorted_lem :
    (line : ℕ) (rs : List LineRange)
    → ordered 0 rs ≡ true
    → (covered line (merge_sorted rs) ≡ covered line rs) × (gaps 0 (merge_sorted rs) ≡ true)
unfolding merge_sorted
merge_sorted_lem line [] o = (refl, refl)
merge_sorted_lem line (r ∷ rs) o =
    (covered-merge_from line r rs (ground (arith, o)), gaps-merge_from 0 r rs (ground arith))

-- mergeRanges covers the same lines, and leaves at least one line between its ranges.
pub merge_ranges_lem :
    (line : ℕ) (rs : List LineRange)
    → (covered line (merge_ranges rs) ≡ covered line rs) × (gaps 0 (merge_ranges rs) ≡ true)
unfolding merge_ranges
merge_ranges_lem line [] = (refl, refl)
merge_ranges_lem line (r ∷ []) = (refl, ground arith)
merge_ranges_lem line (r ∷ s ∷ rs) =
    let sorted = sort_stable earlier (r ∷ s ∷ rs) in
    let m = merge_sorted_lem line sorted (ordered-sort_stable (r ∷ s ∷ rs)) in
    (m.0 ∙ covered-sort_stable line (r ∷ s ∷ rs), m.1)

merge_from-is_empty :
    (last : LineRange) (rs : List LineRange) → is_empty (merge_from last rs) ≡ false
unfolding merge_from
merge_from-is_empty last [] = refl
merge_from-is_empty last (r ∷ rs) = ground (arith, merge_from-is_empty (extended last r) rs)

merge_sorted-is_empty : (rs : List LineRange) → is_empty (merge_sorted rs) ≡ is_empty rs
unfolding merge_sorted
merge_sorted-is_empty [] = refl
merge_sorted-is_empty (r ∷ rs) = merge_from-is_empty r rs

place-is_empty : (r : LineRange) (rs : List LineRange) → is_empty (place earlier r rs) ≡ false
unfolding place
place-is_empty r [] = refl
place-is_empty r (s ∷ rs) = ground arith

merge_ranges-is_empty : (rs : List LineRange) → is_empty (merge_ranges rs) ≡ is_empty rs
unfolding merge_ranges sort_stable
merge_ranges-is_empty [] = refl
merge_ranges-is_empty (r ∷ []) = refl
merge_ranges-is_empty (r ∷ s ∷ rs) =
    merge_sorted-is_empty (sort_stable earlier (r ∷ s ∷ rs))
    ∙ place-is_empty r (sort_stable earlier (s ∷ rs))

-- Whether a finding is in scope does not change when the ranges of a file are merged.
pub in_scope-merge_ranges :
    (trim_space : Text → Text) (m : AddedLineMap) (file path : Text) (line : ℕ)
    (rs : List LineRange)
    → in_scope trim_space (insert file (merge_ranges rs) m) path line
      ≡ in_scope trim_space (insert file rs m) path line
unfolding in_scope
in_scope-merge_ranges trim_space m file path line rs =
    elim (Bool-cases (text_eq file (normalize_path trim_space path))) [
      | inl same ↦
          rw
            (
              in_scope,
              lookup-insert file (normalize_path trim_space path) (merge_ranges rs) m,
              lookup-insert file (normalize_path trim_space path) rs m,
              same,
              merge_ranges-is_empty rs,
              (merge_ranges_lem line rs).0,
            )
            refl
      | inr other ↦
          rw
            (
              in_scope,
              lookup-insert file (normalize_path trim_space path) (merge_ranges rs) m,
              lookup-insert file (normalize_path trim_space path) rs m,
              other,
            )
            refl
    ]
