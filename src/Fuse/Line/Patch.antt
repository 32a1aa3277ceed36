-- ===== src/Fuse/Line/Patch.antt =====
-- diffLines and coalesceHunks of line.go: the hunks describe how base becomes the side.
use grove_suite.Prelude.{
  ℕ, suc, ◌+◌, ◌≡◌, refl, sym, ap, inl, inr, Bool, true, false, ◌&&◌, List, [], ap₂, and_left, ◌∷◌,
  ◌++◌, append_assoc, arith, ◌==◌, leb, length, length-append, Text, text_eq, eq_of_text_eq,
  Bool-cases,
}
use grove_suite.Fuse.Line.{
  Hunk, cell, lcs_table, diff_from, bool_eq, coalesce_from, coalesce_hunks, diff_lines,
}

-- The hunks cut base and the side into pieces, in order and from base index `i`: each replaces
-- the piece `old` of base by its lines, and an unchanged one by the same lines.
abbrev pub Describes : ℕ → List Text → List Text → List Hunk → Type 0
Describes i bs ss [] = (bs ≡ []) × (ss ≡ [])
Describes i bs ss (h ∷ hs) =
    (old : List Text) × (bs' : List Text) × (ss' : List Text) × (bs ≡ old ++ bs')
    × (ss ≡ h.lines ++ ss')
    × (h.base_start ≡ i)
    × (h.base_end ≡ i + length old)
    × (h.unchanged ≡ true → h.lines ≡ old)
    × Describes h.base_end bs' ss' hs

pub diff_from-Describes :
    (t : List (List ℕ)) (i j : ℕ) (bs ss : List Text) → Describes i bs ss (diff_from t i j bs ss)
unfolding diff_from
diff_from-Describes t i j [] [] = (refl, refl)
diff_from-Describes t i j [] (s ∷ ss) =
    ([], [], ss, refl, refl, refl, omega arith, (λ e. cc), diff_from-Describes t i (suc j) [] ss)
diff_from-Describes t i j (b ∷ bs) [] = (
  b ∷ [],
  bs,
  [],
  refl,
  refl,
  refl,
  omega arith,
  (λ e. cc),
  diff_from-Describes t (suc i) j bs [],
)
diff_from-Describes t i j (b ∷ bs) (s ∷ ss) = elim (Bool-cases (text_eq b s)) [
  | inl same ↦ rw same (
    b ∷ [],
    bs,
    ss,
    refl,
    ap (λ x. x ∷ ss) (sym (eq_of_text_eq b s same)),
    refl,
    omega arith,
    (λ e. refl),
    diff_from-Describes t (suc i) (suc j) bs ss,
  )
  | inr differ ↦ rw differ (elim (Bool-cases (leb (cell t i (suc j)) (cell t (suc i) j))) [
    | inl e ↦ rw e (
      b ∷ [],
      bs,
      s ∷ ss,
      refl,
      refl,
      refl,
      omega arith,
      (λ e. cc),
      diff_from-Describes t (suc i) j bs (s ∷ ss),
    )
    | inr e ↦ rw e (
      [],
      b ∷ bs,
      ss,
      refl,
      refl,
      refl,
      omega arith,
      (λ e. cc),
      diff_from-Describes t i (suc j) (b ∷ bs) ss,
    )
  ])
]

join-Describes :
    (last cur : Hunk) (rest : List Hunk) (i : ℕ) (bs ss : List Text)
    → bool_eq last.unchanged cur.unchanged ≡ true
    → Describes i bs ss (last ∷ cur ∷ rest)
    → Describes i bs ss
        (record last { base_end = cur.base_end; lines = last.lines ++ cur.lines } ∷ rest)
join-Describes last cur rest i bs ss same
      (old, bs', ss', e₁, e₂, e₃, e₄, e₅, (old', bs'', ss'', f₁, f₂, f₃, f₄, f₅, d)) =
    (
      old ++ old',
      bs'',
      ss'',
      rw (e₁, f₁) (sym (append_assoc old old' bs'')),
      rw (e₂, f₂) (sym (append_assoc last.lines cur.lines ss'')),
      e₃,
      omega (arith, e₄, f₄, length-append old old'),
      (λ u. ap₂ ◌++◌ (e₅ u) (f₅ (both last.unchanged cur.unchanged same u))),
      d,
    )
  where
    both : (a b : Bool) → bool_eq a b ≡ true → a ≡ true → b ≡ true
    both true b h e = h
    both false b h e = cc

pub coalesce_from-Describes :
    (last : Hunk) (hs : List Hunk) (i : ℕ) (bs ss : List Text)
    → Describes i bs ss (last ∷ hs)
    → Describes i bs ss (coalesce_from last hs)
unfolding coalesce_from
coalesce_from-Describes last [] i bs ss d = d
coalesce_from-Describes last (cur ∷ rest) i bs ss d =
    elim (Bool-cases (bool_eq last.unchanged cur.unchanged && last.base_end == cur.base_start)) [
      | inl joined ↦ rw joined (
          coalesce_from-Describes _ rest i bs ss
            (join-Describes last cur rest i bs ss (and_left _ _ joined) d))
      | inr apart ↦ rw apart (
        d.0,
        d.1,
        d.2,
        d.3,
        d.4,
        d.5,
        d.6,
        d.7,
        coalesce_from-Describes cur rest last.base_end d.1 d.2 d.8,
      )
    ]

pub diff_lines-Describes : (base side : List Text) → Describes 0 base side (diff_lines base side)
unfolding diff_lines coalesce_hunks
diff_lines-Describes base side =
    go (diff_from (lcs_table base side) 0 0 base side)
      (diff_from-Describes (lcs_table base side) 0 0 base side)
  where
    go : (hs : List Hunk) → Describes 0 base side hs → Describes 0 base side (coalesce_hunks hs)
    go [] d = d
    go (h ∷ hs) d = coalesce_from-Describes h hs 0 base side d

-- Neighbours are of different kinds.
abbrev pub Alternates : List Hunk → Type 0
Alternates [] = Unit
Alternates (h ∷ []) = Unit
Alternates (h ∷ k ∷ hs) = (bool_eq h.unchanged k.unchanged ≡ false) × Alternates (k ∷ hs)

abbrev HeadIs : Bool → List Hunk → Type 0
HeadIs u [] = ⊥
HeadIs u (h ∷ hs) = h.unchanged ≡ u

Alternates-cons :
    (h : Hunk) (hs : List Hunk) (u : Bool)
    → bool_eq h.unchanged u ≡ false
    → HeadIs u hs
    → Alternates hs
    → Alternates (h ∷ hs)
Alternates-cons h [] u differ head a = tt
Alternates-cons h (k ∷ hs) u differ head a = (rw head differ, a)

coalesce_from-Alternates :
    (last : Hunk) (hs : List Hunk) (i : ℕ) (bs ss : List Text)
    → Describes i bs ss (last ∷ hs)
    → HeadIs last.unchanged (coalesce_from last hs) × Alternates (coalesce_from last hs)
unfolding coalesce_from
coalesce_from-Alternates last [] i bs ss d = (refl, tt)
coalesce_from-Alternates last (cur ∷ rest) i bs ss d =
    elim (Bool-cases (bool_eq last.unchanged cur.unchanged && last.base_end == cur.base_start)) [
      | inl joined ↦ rw joined (
          coalesce_from-Alternates _ rest i bs ss
            (join-Describes last cur rest i bs ss (and_left _ _ joined) d))
      | inr apart ↦ rw apart (
          let ih = coalesce_from-Alternates cur rest last.base_end d.1 d.2 d.8 in
          (refl, Alternates-cons last _ _ (touching apart) ih.0 ih.1))
    ]
  where
    touching :
        (bool_eq last.unchanged cur.unchanged && last.base_end == cur.base_start) ≡ false
        → bool_eq last.unchanged cur.unchanged ≡ false
    touching h = ground (arith, d.8.5)

pub diff_lines-Alternates : (base side : List Text) → Alternates (diff_lines base side)
unfolding diff_lines coalesce_hunks
diff_lines-Alternates base side =
    go (diff_from (lcs_table base side) 0 0 base side)
      (diff_from-Describes (lcs_table base side) 0 0 base side)
  where
    go : (hs : List Hunk) → Describes 0 base side hs → Alternates (coalesce_hunks hs)
    go [] d = tt
    go (h ∷ hs) d = (coalesce_from-Alternates h hs 0 base side d).1
