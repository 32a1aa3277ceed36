-- ===== src/Witnesses/DiffScope.antt =====
-- The scope of a diff at concrete inputs.
use grove_suite.Prelude.{◌≡◌, refl, true, List, [], ◌∷◌, codes, insert, has_prefix, lookup, text_eq}
use grove_suite.Prelude.Sorts.{sort_stable}
use grove_suite.Provasign.DiffScope.{
  LineRange, merge_ranges, in_scope, normalize_path, merge_sorted, merge_from,
}
use grove_suite.Provasign.DiffScope.Ranges.{covered, gaps, merge_ranges_lem, in_scope-merge_ranges}

abbrev added : List LineRange
added =
    record { start = 9; stop = 12 }
    ∷ record { start = 3; stop = 5 }
    ∷ record { start = 5; stop = 7 }
    ∷ []

merge_ranges_lem_example :
    (covered 6 (merge_ranges added) ≡ true) × (gaps 0 (merge_ranges added) ≡ true)
merge_ranges_lem_example = merge_ranges_lem 6 added

in_scope-merge_ranges_example :
    in_scope (λ t. t) (insert (codes "a.go") (merge_ranges added) []) (codes "./a.go") 8
    ≡ in_scope (λ t. t) (insert (codes "a.go") added []) (codes "./a.go") 8
in_scope-merge_ranges_example =
    in_scope-merge_ranges (λ t. t) [] (codes "a.go") (codes "./a.go") 8 added

-- A leading "./" is dropped.
relative_path :
    in_scope (λ t. t) (insert (codes "a.go") (merge_ranges added) []) (codes "./a.go") 6 ≡ true
unfolding in_scope normalize_path has_prefix insert lookup text_eq merge_ranges merge_sorted
    merge_from sort_stable
relative_path = refl
