-- ===== src/Fuse/Line/Assemble.antt =====
-- tagLines and preInsertions of line.go: reading base through one side's tags and insertions
-- gives that side back.
use grove_suite.Prelude.{
  ℕ, suc, ◌+◌, ◌≤◌, ◌<◌, ◌≡◌, ◌⊎◌, subst, refl, sym, ap, ap₂, ◌∙◌, true, false, inl, inr, List, [],
  ◌∷◌, ◌++◌, append_assoc, append-nil, arith, length, replicate, get_or, is_empty, get_or-replicate,
  length-replicate, Text, Bool-cases,
}
use grove_suite.Fuse.Line.{
  Hunk, LineTag, keep, delete, replace, tag_lines, pre_insertions, diff_lines,
}
use grove_suite.Fuse.Line.Patch.{Describes, diff_lines-Describes, diff_lines-Alternates}
use grove_suite.Fuse.Line.Slots.{tag_by, tag_over, tag_hunks-tag_over}

abbrev pub text_of : LineTag → Text → List Text
text_of keep b = b ∷ []
text_of delete b = []
text_of (replace ls) b = ls

-- What stands at the lines `old` of base, from index `i`, in front of index i + length old.
segment : (ℕ → List Text) → (ℕ → LineTag) → ℕ → List Text → List Text
segment pre tag i [] = []
segment pre tag i (b ∷ old) = pre i ++ (text_of (tag i) b ++ segment pre tag (suc i) old)

-- The side as its tags and insertions give it.
unfoldable pub assemble : (ℕ → List Text) → (ℕ → LineTag) → ℕ → List Text → List Text
assemble pre tag i [] = pre i
assemble pre tag i (b ∷ bs) = pre i ++ (text_of (tag i) b ++ assemble pre tag (suc i) bs)

module _ (pre : ℕ → List Text) (tag : ℕ → LineTag) where
  assemble-append :
      (i : ℕ) (old bs : List Text)
      → assemble pre tag i (old ++ bs)
        ≡ segment pre tag i old ++ assemble pre tag (i + length old) bs
  unfolding assemble segment
  assemble-append i [] bs = ap (λ k. assemble pre tag k bs) (omega arith)
  assemble-append i (b ∷ old) bs =
      let e : suc i + length old ≡ i + suc (length old) = omega arith in
      rw (assemble-append (suc i) old bs, e) (simp append_assoc)

  segment-keep :
      (i : ℕ) (old : List Text)
      → ((k : ℕ) → i ≤ k → k < i + length old → (pre k ≡ []) × (tag k ≡ keep))
      → segment pre tag i old ≡ old
  unfolding segment
  segment-keep i [] h = refl
  segment-keep i (b ∷ old) h =
      let here = h i (omega arith) (omega arith) in
      rw (here.0, here.1)
        (ap (λ r. b ∷ r) (segment-keep (suc i) old (λ k le lt. h k (omega arith) (omega arith))))

  segment-delete :
      (i : ℕ) (old : List Text)
      → ((k : ℕ) → i ≤ k → k < i + length old → (pre k ≡ []) × (tag k ≡ delete))
      → segment pre tag i old ≡ []
  unfolding segment
  segment-delete i [] h = refl
  segment-delete i (b ∷ old) h =
      let here = h i (omega arith) (omega arith) in
      rw (here.0, here.1) (segment-delete (suc i) old (λ k le lt. h k (omega arith) (omega arith)))

assemble_cong :
    (pre pre' : ℕ → List Text) (tag tag' : ℕ → LineTag) (i : ℕ) (bs : List Text)
    → ((k : ℕ) → i ≤ k → pre k ≡ pre' k)
    → ((k : ℕ) → i ≤ k → k < i + length bs → tag k ≡ tag' k)
    → assemble pre tag i bs ≡ assemble pre' tag' i bs
unfolding assemble
assemble_cong pre pre' tag tag' i [] p t = p i (omega arith)
assemble_cong pre pre' tag tag' i (b ∷ bs) p t =
    rw (p i (omega arith), t i (omega arith) (omega arith))
      (ap (λ r. pre' i ++ (text_of (tag' i) b ++ r))
        (assemble_cong pre pre' tag tag' (suc i) bs (λ k h. p k (omega arith))
          (λ k h l. t k (omega arith) (omega arith))))

-- Hunks from index `i` on say nothing below it.
tag_over_below :
    (hs : List Hunk) (i : ℕ) (bs ss : List Text) (k : ℕ) (tag : LineTag)
    → Describes i bs ss hs
    → k < i
    → tag_over hs k tag ≡ tag
unfolding tag_over
tag_over_below [] i bs ss k tag d h = refl
tag_over_below (g ∷ hs) i bs ss k tag d h =
    tag_over_below hs g.base_end d.1 d.2 k (tag_by g k tag) d.8 (omega (arith, d.6))
    ∙ (unfold tag_by in ground (arith, d.5))

pre_insertions_below :
    (hs : List Hunk) (i : ℕ) (bs ss : List Text) (k : ℕ)
    → Describes i bs ss hs
    → k < i
    → pre_insertions hs k ≡ []
unfolding pre_insertions
pre_insertions_below [] i bs ss k d h = refl
pre_insertions_below (g ∷ hs) i bs ss k d h =
    ground (arith, d.5, d.6, pre_insertions_below hs g.base_end d.1 d.2 k d.8)

assemble_front :
    (pre pre' : ℕ → List Text) (tag : ℕ → LineTag) (ls : List Text) (i : ℕ) (bs : List Text)
    → pre i ≡ ls ++ pre' i
    → ((k : ℕ) → i < k → pre k ≡ pre' k)
    → assemble pre tag i bs ≡ ls ++ assemble pre' tag i bs
unfolding assemble
assemble_front pre pre' tag ls i [] here later = here
assemble_front pre pre' tag ls i (b ∷ bs) here later =
    rw (here, assemble_cong pre pre' tag tag (suc i) bs later (λ k h l. refl)) (simp append_assoc)

nil_of_empty : (ls : List Text) → is_empty ls ≡ true → ls ≡ []
nil_of_empty [] e = refl
nil_of_empty (l ∷ ls) e = cc

abbrev Reads : List Hunk → ℕ → List Text → List Text → Type 0
Reads hs i bs ss = assemble (pre_insertions hs) (λ k. tag_over hs k keep) i bs ≡ ss

-- One hunk in front of hunks that read right, by what it replaces and what it puts there.
module _ (h : Hunk) (hs : List Hunk) (i : ℕ) (bs ss : List Text) (start : h.base_start ≡ i)
    (rest : Reads hs h.base_end bs ss) where
  tag_past : (k : ℕ) → h.base_end ≤ k → tag_over (h ∷ hs) k keep ≡ tag_over hs k keep
  unfolding tag_over tag_by
  tag_past k le = ap (tag_over hs k) (ground arith)

  Reads-rest :
      ((k : ℕ) → h.base_end ≤ k → pre_insertions (h ∷ hs) k ≡ pre_insertions hs k)
      → assemble (pre_insertions (h ∷ hs)) (λ k. tag_over (h ∷ hs) k keep) h.base_end bs ≡ ss
  Reads-rest p =
      assemble_cong (pre_insertions (h ∷ hs)) (pre_insertions hs) (λ k. tag_over (h ∷ hs) k keep)
        (λ k. tag_over hs k keep) h.base_end bs p (λ k le lt. tag_past k le)
      ∙ rest

  Reads-insert : h.unchanged ≡ false → h.base_end ≡ i → Reads (h ∷ hs) i bs (h.lines ++ ss)
  unfolding pre_insertions
  Reads-insert u e =
      assemble_front (pre_insertions (h ∷ hs)) (pre_insertions hs) (λ k. tag_over (h ∷ hs) k keep)
        h.lines i bs (ground arith) (λ k lt. ground arith)
      ∙ ap (◌++◌ h.lines) (
          assemble_cong (pre_insertions hs) (pre_insertions hs) _ _ i bs (λ k le. refl)
            (λ k le lt. tag_past k (omega (arith, e)))
          ∙ subst (λ n. Reads hs n bs ss) e rest)

  module _ (old : List Text) (end : h.base_end ≡ i + length old) (b' s' : List Text)
      (below : Describes h.base_end b' s' hs) where
    Reads-over :
        (seg : List Text)
        → ((k : ℕ) → h.base_end ≤ k → pre_insertions (h ∷ hs) k ≡ pre_insertions hs k)
        → segment (pre_insertions (h ∷ hs)) (λ k. tag_over (h ∷ hs) k keep) i old ≡ seg
        → Reads (h ∷ hs) i (old ++ bs) (seg ++ ss)
    Reads-over seg p e =
        assemble-append (pre_insertions (h ∷ hs)) (λ k. tag_over (h ∷ hs) k keep) i old bs
        ∙ ap₂ ◌++◌ e (rw (← end) (Reads-rest p))

    inside : (k : ℕ) → k < h.base_end → tag_over (h ∷ hs) k keep ≡ tag_by h k keep
    unfolding tag_over
    inside k lt = tag_over_below hs h.base_end b' s' k (tag_by h k keep) below lt

    quiet :
        (k : ℕ)
        → k < h.base_end
        → (h.unchanged ≡ true) ⊎ (h.base_start < h.base_end)
        → pre_insertions (h ∷ hs) k ≡ []
    unfolding pre_insertions
    quiet k lt c = ground (arith, pre_insertions_below hs h.base_end b' s' k below)

    Reads-keep : h.unchanged ≡ true → Reads (h ∷ hs) i (old ++ bs) (old ++ ss)
    Reads-keep u =
        Reads-over old (λ k le. unfold pre_insertions in ground arith)
          (segment-keep _ _ i old (λ k le lt. (
            quiet k (omega (arith, end)) (inl u),
            inside k (omega (arith, end)) ∙ (unfold tag_by in ground arith),
          )))

    Reads-delete :
        h.unchanged ≡ false → h.lines ≡ [] → 0 < length old → Reads (h ∷ hs) i (old ++ bs) ss
    Reads-delete u e pos =
        Reads-over [] (λ k le. unfold pre_insertions in ground (arith, start, end))
          (segment-delete _ _ i old (λ k le lt. (
            quiet k (omega (arith, end)) (inr (omega (arith, start, end))),
            inside k (omega (arith, end)) ∙ (unfold tag_by in ground (arith, start, end)),
          )))

  Reads-replace :
      (b : Text) (old : List Text) (b' s' : List Text)
      → h.base_end ≡ i + suc (length old)
      → Describes h.base_end b' s' hs
      → h.unchanged ≡ false
      → is_empty h.lines ≡ false
      → Reads (h ∷ hs) i (b ∷ (old ++ bs)) (h.lines ++ ss)
  unfolding segment
  Reads-replace b old b' s' end below u e =
      Reads-over (b ∷ old) end b' s' below h.lines
        (λ k le. unfold pre_insertions in ground (arith, start, end))
        (rw (quiet (b ∷ old) end b' s' below i (omega (arith, end)) (inr wide), first)
          (ap (◌++◌ h.lines) rest_deleted ∙ append-nil h.lines))
    where
      wide : h.base_start < h.base_end
      wide = omega (arith, start, end)

      first : tag_over (h ∷ hs) i keep ≡ replace h.lines
      first =
          inside (b ∷ old) end b' s' below i (omega (arith, end))
          ∙ (unfold tag_by in ground (arith, start, end))

      rest_deleted :
          segment (pre_insertions (h ∷ hs)) (λ k. tag_over (h ∷ hs) k keep) (suc i) old ≡ []
      rest_deleted = segment-delete _ _ (suc i) old (λ k le lt. (
        quiet (b ∷ old) end b' s' below k (omega (arith, end)) (inr wide),
        inside (b ∷ old) end b' s' below k (omega (arith, end))
            ∙ (unfold tag_by in ground (arith, start, end)),
      ))

  Reads-changed :
      (old b' s' : List Text)
      → h.base_end ≡ i + length old
      → Describes h.base_end b' s' hs
      → h.unchanged ≡ false
      → Reads (h ∷ hs) i (old ++ bs) (h.lines ++ ss)
  Reads-changed [] b' s' end below u = Reads-insert u (omega (arith, end))
  Reads-changed (b ∷ old) b' s' end below u = elim (Bool-cases (is_empty h.lines)) [
    | inl e ↦
        (let none_left = nil_of_empty h.lines e in
          subst (λ ls. Reads (h ∷ hs) i (b ∷ (old ++ bs)) (ls ++ ss)) (sym none_left)
            (Reads-delete (b ∷ old) end b' s' below u none_left (omega arith)))
    | inr e ↦ Reads-replace b old b' s' end below u e
  ]

-- Reading base through the hunks gives the side that they describe.
Describes-Reads :
    (hs : List Hunk) (i : ℕ) (bs ss : List Text) → Describes i bs ss hs → Reads hs i bs ss
Describes-Reads [] i bs ss d = rw (d.0, d.1) (unfold assemble pre_insertions in refl)
Describes-Reads (h ∷ hs) i bs ss (old, bs', ss', e₁, e₂, start, end, same, d) =
    let ih : Reads hs h.base_end bs' ss' = Describes-Reads hs h.base_end bs' ss' d in
    rw (e₁, e₂)
      (elim (Bool-cases h.unchanged) [
        | inl u ↦
            subst (λ ls. Reads (h ∷ hs) i (old ++ bs') (ls ++ ss')) (sym (same u))
              (Reads-keep h hs i bs' ss' start ih old end bs' ss' d u)
        | inr u ↦ Reads-changed h hs i bs' ss' start ih old bs' ss' end d u
      ])

-- The tags and the insertions that `applyHunks` reads for one side.
unfoldable pub side_tags : List Text → List Hunk → ℕ → LineTag
side_tags base hs k = get_or (tag_lines (length base) hs).0 k keep

unfoldable pub side_insertions : List Text → List Hunk → ℕ → List Text
side_insertions base hs = pre_insertions (tag_lines (length base) hs).1

-- Reading base through the tags and the insertions of diffLines gives the side, line by line.
pub assemble-diff_lines :
    (base side : List Text)
    → assemble
        (side_insertions base (diff_lines base side))
        (side_tags base (diff_lines base side))
        0
        base
      ≡ side
unfolding tag_lines side_tags side_insertions
assemble-diff_lines base side =
    let hs = diff_lines base side in
    let d = diff_lines-Describes base side in
    let (same, tags) =
      tag_hunks-tag_over hs (replicate (length base) keep) 0 base side
        (diff_lines-Alternates base side) d in
    assemble_cong _ (pre_insertions hs) _ (λ k. tag_over hs k keep) 0 base
      (λ k le. ap (λ r. pre_insertions r k) same)
      (λ k le lt.
        tags k (omega (arith, length-replicate (length base) keep))
        ∙ ap (tag_over hs k) (get_or-replicate (length base) k keep))
    ∙ Describes-Reads hs 0 base side d
