-- ===== src/Fuse/Imports.antt =====
-- fuse/internal/merge/strategies/imports.go: the three-way merge of import statements. The sets of
-- paths are lists of paths; confidences are hundredths.
pub mod Union
use grove_suite.Prelude.{
  ℕ, Bool, true, false, not, ◌&&◌, ◌||◌, List, [], ◌∷◌, ◌++◌, ◌==◌, ltb, if◌then◌else◌, length, all,
  keep_if, Text, codes, text_eq, text_lt, member,
}
use grove_suite.Prelude.Sorts.{sort_stable}
use grove_suite.Fuse.Data.{ImportStatement}

pub record ImportMergeResult : Type 0 where
  pub merged : List ImportStatement
  pub confidence : ℕ

-- Each path once.
unfoldable pub path_set : List ImportStatement → List Text
path_set [] = []
path_set (i ∷ is) = let rest = path_set is in if member i.path rest then rest else i.path ∷ rest

-- The paths of ours and theirs, without those of base that both sides removed.
unfoldable pub kept_paths :
    List ImportStatement → List ImportStatement → List ImportStatement → List Text
kept_paths base ours theirs =
    let dropped =
      keep_if (λ p. not (member p (path_set ours)) && not (member p (path_set theirs)))
        (path_set base) in
    keep_if (λ p. not (member p dropped)) (path_set ours ++ path_set theirs)

-- One of the two loops that compose the output, from the paths `seen` so far.
unfoldable pub unseen :
    List Text → List Text → List ImportStatement → List ImportStatement × List Text
unseen keep seen [] = ([], seen)
unseen keep seen (i ∷ is) =
    let skipped = unseen keep seen is in
    let taken : List ImportStatement × List Text =
      let (out, seen') = unseen keep (i.path ∷ seen) is in (i ∷ out, seen') in
    if not (member i.path keep) || member i.path seen then skipped else taken

unfoldable pub group_order : Text → ℕ
group_order g =
    if text_eq g (codes "stdlib")
    then 0
    else if text_eq g (codes "external")
    then 1
    else if text_eq g (codes "relative")
    then 2
    else 3

unfoldable pub import_less : ImportStatement → ImportStatement → Bool
unfolding group_order
import_less i j =
    if not (text_eq i.group j.group)
    then ltb (group_order i.group) (group_order j.group)
    else text_lt i.path j.path

unfoldable pub same_path_set : List Text → List Text → Bool
same_path_set a b = length a == length b && all (λ p. member p b) a

unfoldable pub import_merge :
    List ImportStatement → List ImportStatement → List ImportStatement → ImportMergeResult
unfolding unseen kept_paths path_set same_path_set import_less
import_merge base ours theirs =
    let keep = kept_paths base ours theirs in
    let (first, seen) = unseen keep [] ours in
    let (second, seen') = unseen keep seen theirs in
    record {
      merged = sort_stable import_less (first ++ second);
      confidence = if same_path_set (path_set ours) (path_set theirs) then 100 else 90;
    }
