-- ===== src/Fuse/Line/Disjoint.antt =====
-- applyHunks of line.go where the two sides change different places.
use grove_suite.Prelude.{
  ℕ, suc, ◌≡◌, ◌≢◌, refl, ap₂, Bool, true, false, ◌&&◌, ◌||◌, List, [], ◌∷◌, arith, if◌then◌else◌,
  get_or, is_empty, Text, text_eq_iff, texts_eq_iff, and_left, and_right,
}
use grove_suite.Fuse.Line.{
  LineTag, keep, delete, replace, join_lines, merge_insertions, merge_tags, joins, apply_from,
  apply_hunks, diff_lines, split_lines, line_merge, Hunk,
}
use grove_suite.Fuse.Line.Assemble.{assemble, text_of, side_tags, side_insertions}

abbrev pub is_keep : LineTag → Bool
is_keep keep = true
is_keep delete = false
is_keep (replace ls) = false

-- The lines or the tag of the side that has a change.
abbrev pub either_lines : List Text → List Text → List Text
either_lines o t = if is_empty o then t else o

abbrev pub either_tag : LineTag → LineTag → LineTag
either_tag o t = if is_keep o then t else o

-- No place before a base line, and no base line, is changed on both sides.
unfoldable pub disjoint_from :
    (ℕ → List Text) → (ℕ → List Text) → (ℕ → LineTag) → (ℕ → LineTag) → ℕ → List Text → Bool
disjoint_from o_pre t_pre o_tag t_tag i [] = is_empty (o_pre i) || is_empty (t_pre i)
disjoint_from o_pre t_pre o_tag t_tag i (b ∷ bs) =
    (is_empty (o_pre i) || is_empty (t_pre i))
    && ((is_keep (o_tag i) || is_keep (t_tag i))
        && disjoint_from o_pre t_pre o_tag t_tag (suc i) bs)

merge_insertions-either :
    (o t : List Text)
    → (is_empty o || is_empty t) ≡ true
    → merge_insertions o t ≡ (either_lines o t, false)
unfolding merge_insertions
merge_insertions-either [] t h = ground (arith, texts_eq_iff [] t)
merge_insertions-either (o ∷ os) [] h = ground (arith, texts_eq_iff (o ∷ os) [])
merge_insertions-either (o ∷ os) (t ∷ ts) h = cc

merge_tags-either :
    (b : Text) (o t : LineTag)
    → (is_keep o || is_keep t) ≡ true
    → merge_tags b o t ≡ (text_of (either_tag o t) b, false)
unfolding merge_tags
merge_tags-either b keep keep h = refl
merge_tags-either b keep delete h = refl
merge_tags-either b keep (replace t) h = refl
merge_tags-either b delete keep h = refl
merge_tags-either b (replace o) keep h = refl
merge_tags-either b delete delete h = cc
merge_tags-either b delete (replace t) h = cc
merge_tags-either b (replace o) delete h = cc
merge_tags-either b (replace o) (replace t) h = cc

apply_from-either :
    (o_pre t_pre : ℕ → List Text) (o_tags t_tags : List LineTag) (i : ℕ) (bs : List Text)
    → disjoint_from o_pre t_pre (λ k. get_or o_tags k keep) (λ k. get_or t_tags k keep) i bs ≡ true
    → apply_from o_pre t_pre o_tags t_tags i bs ≡ (
      assemble
          (λ k. either_lines (o_pre k) (t_pre k))
          (λ k. either_tag (get_or o_tags k keep) (get_or t_tags k keep))
          i
          bs,
      false,
    )
unfolding apply_from assemble disjoint_from
apply_from-either o_pre t_pre o_tags t_tags i [] h = merge_insertions-either (o_pre i) (t_pre i) h
apply_from-either o_pre t_pre o_tags t_tags i (b ∷ bs) h =
    let others = and_right (is_empty (o_pre i) || is_empty (t_pre i)) _ h in
    ap₂ joins (merge_insertions-either (o_pre i) (t_pre i) (and_left _ _ h)) (
      ap₂ joins
        (merge_tags-either b (get_or o_tags i keep) (get_or t_tags i keep) (and_left _ _ others))
        (apply_from-either o_pre t_pre o_tags t_tags (suc i) bs (and_right _ _ others)))

-- The two sides' hunks are disjoint.
unfoldable pub are_disjoint : List Text → List Hunk → List Hunk → Bool
unfolding disjoint_from side_tags side_insertions
are_disjoint base ho ht =
    disjoint_from (side_insertions base ho) (side_insertions base ht) (side_tags base ho)
      (side_tags base ht) 0 base

-- Base with each place taken from the side that changes it.
unfoldable pub both_edits : List Text → List Hunk → List Hunk → List Text
unfolding assemble side_tags side_insertions
both_edits base ho ht =
    assemble (λ k. either_lines (side_insertions base ho k) (side_insertions base ht k))
      (λ k. either_tag (side_tags base ho k) (side_tags base ht k)) 0 base

pub apply_hunks-disjoint :
    (base : List Text) (ho ht : List Hunk)
    → are_disjoint base ho ht ≡ true
    → apply_hunks base ho ht ≡ (both_edits base ho ht, false)
unfolding apply_hunks are_disjoint both_edits side_tags side_insertions
apply_hunks-disjoint base ho ht h = apply_from-either _ _ _ _ 0 base h

-- Where ours and theirs change different places of base, LineMerge reports no conflict, and its
-- text is base with each place taken from the side that changes it; hypotheses: the three texts
-- differ pairwise, and no place is changed by the hunks of both sides.
pub line_merge_disjoint :
    (base ours theirs : Text)
    → ours ≢ theirs
    → base ≢ ours
    → base ≢ theirs
    → let b = split_lines base in
      let ho = diff_lines b (split_lines ours) in
      let ht = diff_lines b (split_lines theirs) in
      are_disjoint b ho ht ≡ true
      → line_merge base ours theirs
        ≡ record { merged = join_lines (both_edits b ho ht); has_conflict = false; confidence = 70 }
unfolding line_merge
line_merge_disjoint base ours theirs n₁ n₂ n₃ h = ground (
  arith,
  text_eq_iff ours theirs,
  text_eq_iff base ours,
  text_eq_iff base theirs,
  apply_hunks-disjoint (split_lines base) (diff_lines (split_lines base) (split_lines ours))
      (diff_lines (split_lines base) (split_lines theirs)) h,
)
