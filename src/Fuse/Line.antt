-- ===== src/Fuse/Line.antt =====
-- fuse/internal/merge/strategies/line.go: the line-level three-way merge. A `nil` and an empty
-- slice of lines are one list, since no hunk of the source holds an empty slice that is not nil.
-- Confidences are kept in hundredths.
pub mod Patch
pub mod Slots
pub mod Assemble
pub mod Disjoint
pub mod Symmetry
use grove_suite.Prelude.Strings.{split_newlines}
use grove_suite.Prelude.{
  ℕ, zero, suc, ◌+◌, ◌-◌, Bool, true, false, not, ◌&&◌, ◌||◌, List, [], ◌∷◌, ◌++◌, ◌==◌, ltb, leb,
  if◌then◌else◌, length, replicate, get_or, set, is_empty, Text, codes, text_eq, texts_eq,
}

pub record LineMergeResult : Type 0 where
  pub merged : Text
  pub has_conflict : Bool
  pub confidence : ℕ

unfoldable pub split_lines : Text → List Text
unfolding split_newlines
split_lines [] = []
split_lines (c ∷ s) = split_newlines (c ∷ s)

-- `strings.Join lines "\n"`.
unfoldable pub join_lines : List Text → Text
join_lines [] = []
join_lines (l ∷ []) = l
join_lines (l ∷ k ∷ ls) = l ++ (10 ∷ join_lines (k ∷ ls))

-- [base_start, base_end) on base becomes `lines` on the side.
pub record Hunk : Type 0 where
  pub base_start : ℕ
  pub base_end : ℕ
  pub lines : List Text
  pub unchanged : Bool

abbrev pub kept : ℕ → Text → Hunk
kept i b = record { base_start = i; base_end = suc i; lines = b ∷ []; unchanged = true }

abbrev pub deleted : ℕ → Hunk
deleted i = record { base_start = i; base_end = suc i; lines = []; unchanged = false }

abbrev pub inserted : ℕ → Text → Hunk
inserted i s = record { base_start = i; base_end = i; lines = s ∷ []; unchanged = false }

abbrev first : List ℕ → ℕ
first r = get_or r 0 0

-- One row of the table, from the row below it: the entries for `x` against each suffix of `b`.
unfoldable pub lcs_row : Text → List Text → List ℕ → List ℕ
lcs_row x [] below = 0 ∷ []
lcs_row x (y ∷ ys) [] = []
lcs_row x (y ∷ ys) (d ∷ below) =
    let rest = lcs_row x ys below in
    (if text_eq x y then suc (first below) else if leb (first rest) d then d else first rest) ∷ rest

unfoldable pub lcs_table : List Text → List Text → List (List ℕ)
unfolding lcs_row
lcs_table [] b = replicate (suc (length b)) 0 ∷ []
lcs_table (x ∷ xs) b = let t = lcs_table xs b in lcs_row x b (get_or t 0 []) ∷ t

abbrev pub cell : List (List ℕ) → ℕ → ℕ → ℕ
cell t i j = get_or (get_or t i []) j 0

-- The loop of `diffLines` at (i, j), with the suffixes base[i:] and side[j:].
unfoldable pub diff_from : List (List ℕ) → ℕ → ℕ → List Text → List Text → List Hunk
diff_from t i j [] [] = []
diff_from t i j [] (s ∷ ss) = inserted i s ∷ diff_from t i (suc j) [] ss
diff_from t i j (b ∷ bs) [] = deleted i ∷ diff_from t (suc i) j bs []
diff_from t i j (b ∷ bs) (s ∷ ss) =
    let keeping = kept i b ∷ diff_from t (suc i) (suc j) bs ss in
    let deleting = deleted i ∷ diff_from t (suc i) j bs (s ∷ ss) in
    let inserting = inserted i s ∷ diff_from t i (suc j) (b ∷ bs) ss in
    if text_eq b s
    then keeping
    else if leb (cell t i (suc j)) (cell t (suc i) j)
    then deleting
    else inserting

abbrev pub bool_eq : Bool → Bool → Bool
bool_eq true b = b
bool_eq false b = not b

-- The loop of `coalesceHunks`, `last` being the hunk that the output ends in.
unfoldable pub coalesce_from : Hunk → List Hunk → List Hunk
coalesce_from last [] = last ∷ []
coalesce_from last (cur ∷ rest) =
    let joined =
      coalesce_from (record last { base_end = cur.base_end; lines = last.lines ++ cur.lines })
        rest in
    let apart = last ∷ coalesce_from cur rest in
    if bool_eq last.unchanged cur.unchanged && last.base_end == cur.base_start
    then joined
    else apart

unfoldable pub coalesce_hunks : List Hunk → List Hunk
unfolding coalesce_from
coalesce_hunks [] = []
coalesce_hunks (h ∷ hs) = coalesce_from h hs

unfoldable pub diff_lines : List Text → List Text → List Hunk
unfolding coalesce_hunks diff_from lcs_table
diff_lines base side = coalesce_hunks (diff_from (lcs_table base side) 0 0 base side)

pub data LineTag : Type 0 where
  keep : LineTag
  delete : LineTag
  replace : List Text → LineTag

-- Tag the `n` lines from `i`: the first as given, the others deleted.
unfoldable pub mark : ℕ → ℕ → LineTag → List LineTag → List LineTag
mark i zero tag tags = tags
mark i (suc n) tag tags = mark (suc i) n delete (set tags i tag)

-- Whether the hunk after a pure deletion is an insertion where the deletion ends.
unfoldable pub follows : ℕ → List Hunk → Bool
follows e [] = false
follows e (h ∷ hs) = not h.unchanged && (h.base_start == e && h.base_end == h.base_start)

abbrev pub head_lines : List Hunk → List Text
head_lines [] = []
head_lines (h ∷ hs) = h.lines

abbrev pub replace_or_delete : List Text → LineTag
replace_or_delete [] = delete
replace_or_delete (l ∷ ls) = replace (l ∷ ls)

-- `consumed` says that the deletion before the hunk took its lines, which sets them to nil.
abbrev pub emptied : Bool → Hunk → Hunk
emptied consumed h = record h { lines = if consumed then [] else h.lines }

-- Whether the hunk takes the lines of the next one.
unfoldable pub takes_next : Hunk → List Hunk → Bool
unfolding follows
takes_next h rest = not h.unchanged && (is_empty h.lines && follows h.base_end rest)

-- The body of the loop of `tagLines`.
unfoldable pub tag_hunk : Hunk → List Hunk → List LineTag → List LineTag
unfolding mark follows
tag_hunk h rest tags =
    let width = h.base_end - h.base_start in
    if h.unchanged
    then tags
    else if ltb h.base_start h.base_end && not (is_empty h.lines)
    then mark h.base_start width (replace h.lines) tags
    else if is_empty h.lines
    then mark h.base_start width
        (replace_or_delete (if follows h.base_end rest then head_lines rest else [])) tags
    else tags

-- The loop of `tagLines`. It empties hunks of the caller's slice, so the hunks come back too.
unfoldable pub tag_hunks : Bool → List Hunk → List LineTag → List LineTag × List Hunk
unfolding takes_next tag_hunk
tag_hunks consumed [] tags = (tags, [])
tag_hunks consumed (h ∷ rest) tags =
    let here = emptied consumed h in
    let (tags', rest') = tag_hunks (takes_next here rest) rest (tag_hunk here rest tags) in
    (tags', here ∷ rest')

unfoldable pub tag_lines : ℕ → List Hunk → List LineTag × List Hunk
unfolding tag_hunks
tag_lines n hunks = tag_hunks false hunks (replicate n keep)

-- `preInsertions`, as the function of the index that the map stands for.
unfoldable pub pre_insertions : List Hunk → ℕ → List Text
pre_insertions [] i = []
pre_insertions (h ∷ hs) i =
    let rest = pre_insertions hs i in
    if not h.unchanged && (h.base_start == h.base_end && h.base_start == i)
    then h.lines ++ rest
    else rest

unfoldable pub conflict_block : List Text → List Text → List Text
conflict_block ours theirs =
    (codes "<<<<<<< OURS" ∷ ours) ++ ((codes "=======" ∷ theirs) ++ (codes ">>>>>>> THEIRS" ∷ []))

-- What stands before base[i]: the lines and whether they conflict.
unfoldable pub merge_insertions : List Text → List Text → List Text × Bool
merge_insertions o t =
    if texts_eq o t
    then (o, false)
    else if is_empty o
    then (t, false)
    else if is_empty t
    then (o, false)
    else (conflict_block o t, true)

unfoldable pub merge_tags : Text → LineTag → LineTag → List Text × Bool
merge_tags b keep keep = (b ∷ [], false)
merge_tags b delete delete = ([], false)
merge_tags b delete keep = ([], false)
merge_tags b keep delete = ([], false)
merge_tags b (replace o) keep = (o, false)
merge_tags b keep (replace t) = (t, false)
merge_tags b (replace o) (replace t) =
    if texts_eq o t then (o, false) else (conflict_block o t, true)
merge_tags b (replace o) delete = (conflict_block o [], true)
merge_tags b delete (replace t) = (conflict_block [] t, true)

abbrev pub joins : List Text × Bool → List Text × Bool → List Text × Bool
joins (xs, c) (ys, d) = (xs ++ ys, c || d)

-- The loop of `applyHunks` from base index `i`, with the suffix base[i:].
unfoldable pub apply_from :
    (ℕ → List Text)
    → (ℕ → List Text)
    → List LineTag
    → List LineTag
    → ℕ
    → List Text
    → List Text × Bool
unfolding merge_insertions merge_tags
apply_from o_pre t_pre o_tags t_tags i [] = merge_insertions (o_pre i) (t_pre i)
apply_from o_pre t_pre o_tags t_tags i (b ∷ bs) = joins (merge_insertions (o_pre i) (t_pre i)) (
    joins (merge_tags b (get_or o_tags i keep) (get_or t_tags i keep))
      (apply_from o_pre t_pre o_tags t_tags (suc i) bs))

unfoldable pub apply_hunks : List Text → List Hunk → List Hunk → List Text × Bool
unfolding apply_from tag_lines pre_insertions
apply_hunks base h_ours h_theirs =
    let (o_tags, h_ours') = tag_lines (length base) h_ours in
    let (t_tags, h_theirs') = tag_lines (length base) h_theirs in
    apply_from (pre_insertions h_ours') (pre_insertions h_theirs') o_tags t_tags 0 base

abbrev pub result_of : List Text × Bool → LineMergeResult
result_of (lines, conflict) = record {
  merged = join_lines lines;
  has_conflict = conflict;
  confidence = if conflict then 0 else 70;
}

unfoldable pub line_merge : Text → Text → Text → LineMergeResult
unfolding split_lines join_lines diff_lines apply_hunks text_eq texts_eq
line_merge base ours theirs =
    if text_eq ours theirs
    then record { merged = ours; has_conflict = false; confidence = 100 }
    else if text_eq base ours
    then record { merged = theirs; has_conflict = false; confidence = 95 }
    else if text_eq base theirs
    then record { merged = ours; has_conflict = false; confidence = 95 }
    else (let b = split_lines base in
        result_of
          (apply_hunks b (diff_lines b (split_lines ours)) (diff_lines b (split_lines theirs))))
