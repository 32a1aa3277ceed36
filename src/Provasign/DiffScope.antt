-- ===== src/Provasign/DiffScope.antt =====
-- provasign/internal/core/diffscope.go: the added lines of a diff, by file, and whether a finding is
-- among them. The trimming of spaces is the standard library's, a parameter. Lines are not negative.
pub mod Ranges
use Prim.Native.String.{String}
use grove_suite.Prelude.{
  ℕ, Bool, true, false, ◌&&◌, ◌||◌, ◌==◌, ltb, leb, if◌then◌else◌, any, drop, List, [], ◌∷◌, Option,
  none, some, is_empty, has_prefix, Text, codes, Map, lookup,
}
use grove_suite.Prelude.Sorts.{sort_stable}

-- The lines from `start` up to but without `stop`.
pub record LineRange : Type 0 where
  pub start : ℕ
  pub stop : ℕ

abbrev pub range_contains : ℕ → LineRange → Bool
range_contains line r = leb r.start line && ltb line r.stop

abbrev pub AddedLineMap : Type 0
AddedLineMap = Map (List LineRange)

abbrev earlier : LineRange → LineRange → Bool
earlier r s = ltb r.start s.start

abbrev pub extended : LineRange → LineRange → LineRange
extended last r = record {
  start = last.start;
  stop = if ltb last.stop r.stop then r.stop else last.stop;
}

-- The second loop of `mergeRanges`, `last` being the range that the output ends in.
unfoldable pub merge_from : LineRange → List LineRange → List LineRange
merge_from last [] = last ∷ []
merge_from last (r ∷ rs) =
    let joined = merge_from (extended last r) rs in
    let apart = last ∷ merge_from r rs in if leb r.start last.stop then joined else apart

unfoldable pub merge_sorted : List LineRange → List LineRange
unfolding merge_from
merge_sorted [] = []
merge_sorted (r ∷ rs) = merge_from r rs

unfoldable pub merge_ranges : List LineRange → List LineRange
unfolding merge_sorted
merge_ranges [] = []
merge_ranges (r ∷ []) = r ∷ []
merge_ranges (r ∷ s ∷ rs) = merge_sorted (sort_stable earlier (r ∷ s ∷ rs))

module _ (trim_space : Text → Text) where
  unfoldable pub normalize_path : Text → Text
  normalize_path p = let q = trim_space p in if has_prefix q (codes "./") then drop 2 q else q

  unfoldable pub in_scope : AddedLineMap → Text → ℕ → Bool
  unfolding normalize_path lookup
  in_scope m path line = elim (lookup (normalize_path path) m) [
    | none ↦ false
    | some ranges ↦
        (if line == 0 || is_empty ranges then true else any (range_contains line) ranges)
  ]
