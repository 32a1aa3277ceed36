-- ===== src/Fuse/Line/Symmetry.antt =====
-- LineMerge of line.go with the two sides exchanged.
use grove_suite.Prelude.{
  ℕ, suc, ◌≡◌, refl, ap, ap₂, Bool, false, ◌||◌, List, [], ◌∷◌, ◌++◌, arith, if◌then◌else◌, get_or,
  Text, text_eq_iff, texts_eq_iff,
}
use grove_suite.Fuse.Line.{
  LineTag, keep, delete, replace, join_lines, merge_insertions, merge_tags, joins, apply_from,
  apply_hunks, diff_lines, split_lines, result_of, line_merge, Hunk,
}

-- Two merges conflict alike, and say the same where they do not.
abbrev pub Mirrors : List Text × Bool → List Text × Bool → Type 0
Mirrors p q = (p.1 ≡ q.1) × (p.1 ≡ false → p.0 ≡ q.0)

merge_insertions-Mirrors : (o t : List Text) → Mirrors (merge_insertions o t) (merge_insertions t o)
unfolding merge_insertions
merge_insertions-Mirrors [] [] = ground (arith, texts_eq_iff [] [])
merge_insertions-Mirrors [] (t ∷ ts) =
    ground (arith, texts_eq_iff [] (t ∷ ts), texts_eq_iff (t ∷ ts) [])
merge_insertions-Mirrors (o ∷ os) [] =
    ground (arith, texts_eq_iff [] (o ∷ os), texts_eq_iff (o ∷ os) [])
merge_insertions-Mirrors (o ∷ os) (t ∷ ts) =
    ground (arith, texts_eq_iff (t ∷ ts) (o ∷ os), texts_eq_iff (o ∷ os) (t ∷ ts))

merge_tags-Mirrors : (b : Text) (o t : LineTag) → Mirrors (merge_tags b o t) (merge_tags b t o)
unfolding merge_tags
merge_tags-Mirrors b (replace o) (replace t) = ground (arith, texts_eq_iff o t, texts_eq_iff t o)
merge_tags-Mirrors b keep keep = (refl, λ h. refl)
merge_tags-Mirrors b keep delete = (refl, λ h. refl)
merge_tags-Mirrors b keep (replace t) = (refl, λ h. refl)
merge_tags-Mirrors b delete keep = (refl, λ h. refl)
merge_tags-Mirrors b delete delete = (refl, λ h. refl)
merge_tags-Mirrors b delete (replace t) = (refl, λ h. cc)
merge_tags-Mirrors b (replace o) keep = (refl, λ h. refl)
merge_tags-Mirrors b (replace o) delete = (refl, λ h. cc)

joins-Mirrors :
    (p p' q q' : List Text × Bool) → Mirrors p p' → Mirrors q q' → Mirrors (joins p q) (joins p' q')
joins-Mirrors (xs, c) (xs', c') (ys, d) (ys', d') m n =
    (ap₂ ◌||◌ m.0 n.0, λ h. ap₂ ◌++◌ (m.1 (ground arith)) (n.1 (ground arith)))

apply_from-Mirrors :
    (o_pre t_pre : ℕ → List Text) (o_tags t_tags : List LineTag) (i : ℕ) (bs : List Text)
    → Mirrors
        (apply_from o_pre t_pre o_tags t_tags i bs)
        (apply_from t_pre o_pre t_tags o_tags i bs)
unfolding apply_from
apply_from-Mirrors o_pre t_pre o_tags t_tags i [] = merge_insertions-Mirrors (o_pre i) (t_pre i)
apply_from-Mirrors o_pre t_pre o_tags t_tags i (b ∷ bs) =
    joins-Mirrors _ _ _ _ (merge_insertions-Mirrors (o_pre i) (t_pre i)) (
      joins-Mirrors _ _ _ _ (merge_tags-Mirrors b (get_or o_tags i keep) (get_or t_tags i keep))
        (apply_from-Mirrors o_pre t_pre o_tags t_tags (suc i) bs))

apply_hunks-Mirrors :
    (base : List Text) (ho ht : List Hunk)
    → Mirrors (apply_hunks base ho ht) (apply_hunks base ht ho)
unfolding apply_hunks
apply_hunks-Mirrors base ho ht = apply_from-Mirrors _ _ _ _ 0 base

result_of-Mirrors :
    (p q : List Text × Bool)
    → Mirrors p q
    → ((result_of p).has_conflict ≡ (result_of q).has_conflict)
      × ((result_of p).confidence ≡ (result_of q).confidence)
      × ((result_of p).has_conflict ≡ false → (result_of p).merged ≡ (result_of q).merged)
result_of-Mirrors (xs, c) (ys, d) m =
    (m.0, ap (λ (b : Bool). if b then 0 else 70) m.0, λ h. ap join_lines (m.1 h))

-- LineMerge treats the sides alike: with ours and theirs exchanged it reports a conflict in the
-- same cases and with the same confidence, and where it reports none the merged text is the same.
pub line_merge_symmetric :
    (base ours theirs : Text)
    → let m = line_merge base ours theirs in
      let n = line_merge base theirs ours in
      (m.has_conflict ≡ n.has_conflict)
      × (m.confidence ≡ n.confidence)
      × (m.has_conflict ≡ false → m.merged ≡ n.merged)
unfolding line_merge
line_merge_symmetric base ours theirs = ground (
  arith,
  text_eq_iff ours theirs,
  text_eq_iff theirs ours,
  text_eq_iff base ours,
  text_eq_iff base theirs,
  result_of-Mirrors _ _ (
      apply_hunks-Mirrors (split_lines base) (diff_lines (split_lines base) (split_lines ours))
        (diff_lines (split_lines base) (split_lines theirs))),
)
