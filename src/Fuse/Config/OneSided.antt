-- ===== src/Fuse/Config/OneSided.antt =====
-- The deep merge where one side is base.
use grove_suite.Prelude.{
  ◌≡◌, refl, ap, ◌∙◌, Bool, false, ◌||◌, Option, none, some, Text, text_eq, text_eq_iff,
  text_eq_refl, arith, inl, inr, Bool-cases, Option-cases,
}
use grove_suite.Fuse.Config.{
  Value, Entries, nil, whole, object, no_entries, entry, entry_of, or_nil, with_theirs, merge_whole,
  merge_value, merge_entries,
}

-- No map in the value holds a key twice.
unfoldable mutual
  pub WellKeyed : Value → Type 0
  WellKeyed nil = Unit
  WellKeyed (whole t) = Unit
  WellKeyed (object es) = WellKeyedEntries es

  pub WellKeyedEntries : Entries → Type 0
  WellKeyedEntries no_entries = Unit
  WellKeyedEntries (entry k v es) = (entry_of k es ≡ none) × WellKeyed v × WellKeyedEntries es

module _ (marshal : Value → Text) where
  whole_ours : (v t : Value) → (merge_whole marshal v v t).1 ≡ false
  unfolding merge_whole
  whole_ours v t = ground (arith, text_eq_refl (marshal v))

  whole_theirs : (v o : Value) → (merge_whole marshal v o v).1 ≡ false
  unfolding merge_whole
  whole_theirs v o = ground (arith, text_eq_refl (marshal v))

  or_known : (b o : Bool) → b ≡ false → o ≡ false → (b || o) ≡ false
  or_known b o h g = ground (arith, h, g)

  -- Every entry of the second stands in the first.
  Stand : Entries → Entries → Type 0
  Stand bs os = (k : Text) (v : Value) → entry_of k os ≡ some v → entry_of k bs ≡ some v

  Stand-tail :
      (bs os : Entries) (k : Text) (o : Value)
      → entry_of k os ≡ none
      → Stand bs (entry k o os)
      → Stand bs os
  unfolding Stand text_eq
  Stand-tail bs os k o fresh all j v at = elim (Bool-cases (text_eq k j)) [
    | inl same ↦ ground (arith, ap (λ i. entry_of i os) ((text_eq_iff k j).0 same), fresh, at)
    | inr other ↦ all j v (ground (arith, other, at))
  ]

  chosen :
      (x : Option Value) (kept both : Entries × Bool)
      → kept.1 ≡ false
      → ((t : Value) → x ≡ some t → both.1 ≡ false)
      → (with_theirs x kept both).1 ≡ false
  chosen none kept both h g = h
  chosen (some t) kept both h g = g t refl

  merge_entries-cons :
      (bs os ts : Entries) (k : Text) (o : Value)
      → (merge_entries marshal bs os ts).1 ≡ false
      → ((t : Value)
          → entry_of k ts ≡ some t
          → (merge_value marshal (or_nil (entry_of k bs)) o t).1 ≡ false)
      → (merge_entries marshal bs (entry k o os) ts).1 ≡ false
  unfolding merge_value
  merge_entries-cons bs os ts k o rest both = elim (Option-cases (entry_of k ts)) [
    | inl gone ↦ chosen (entry_of k ts) _ _ rest (λ t at. ground (arith, gone, at))
    | inr (t, at) ↦ chosen (entry_of k ts) _ _ rest (λ u at'.
        or_known _ _
          (ap (λ v. (merge_value marshal (or_nil (entry_of k bs)) o (or_nil v)).1) at ∙ both t at)
          rest)
  ]

  mutual
    unfolding WellKeyed merge_value Stand

    ours_is_base : (v t : Value) → WellKeyed v → (merge_value marshal v v t).1 ≡ false
    ours_is_base nil t w = whole_ours nil t
    ours_is_base (whole x) t w = whole_ours (whole x) t
    ours_is_base (object os) nil w = whole_ours (object os) nil
    ours_is_base (object os) (whole x) w = whole_ours (object os) (whole x)
    ours_is_base (object os) (object ts) w = ours_stands os os ts w (λ k v at. at)

    ours_stands :
        (bs os ts : Entries)
        → WellKeyedEntries os
        → Stand bs os
        → (merge_entries marshal bs os ts).1 ≡ false
    ours_stands bs no_entries ts w all = refl
    ours_stands bs (entry k o os) ts w all =
        merge_entries-cons bs os ts k o (ours_stands bs os ts w.2 (Stand-tail bs os k o w.0 all))
          (λ t at. rw (all k o (ground (arith, text_eq_refl k))) (ours_is_base o t w.1))

  mutual
    unfolding merge_value

    theirs_is_base : (v o : Value) → (merge_value marshal v o v).1 ≡ false
    theirs_is_base nil nil = whole_theirs nil nil
    theirs_is_base nil (whole x) = whole_theirs nil (whole x)
    theirs_is_base nil (object os) = whole_theirs nil (object os)
    theirs_is_base (whole y) nil = whole_theirs (whole y) nil
    theirs_is_base (whole y) (whole x) = whole_theirs (whole y) (whole x)
    theirs_is_base (whole y) (object os) = whole_theirs (whole y) (object os)
    theirs_is_base (object vs) nil = whole_theirs (object vs) nil
    theirs_is_base (object vs) (whole x) = whole_theirs (object vs) (whole x)
    theirs_is_base (object vs) (object os) = theirs_stands vs os

    theirs_stands : (vs os : Entries) → (merge_entries marshal vs os vs).1 ≡ false
    theirs_stands vs no_entries = refl
    theirs_stands vs (entry k o os) =
        merge_entries-cons vs os vs k o (theirs_stands vs os) (λ t at. rw at (theirs_is_base t o))

-- The deep merge of a config reports no conflict where only one side has changed it: where theirs
-- is base, and, if no map of base holds a key twice, where ours is.
pub merge_value_one_sided :
    (marshal : Value → Text) (base side : Value)
    → WellKeyed base
    → ((merge_value marshal base side base).1 ≡ false)
      × ((merge_value marshal base base side).1 ≡ false)
merge_value_one_sided marshal base side w =
    (theirs_is_base marshal base side, ours_is_base marshal base side w)
