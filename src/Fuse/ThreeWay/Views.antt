-- ===== src/Fuse/ThreeWay/Views.antt =====
-- threeway.go against the textbook rule on what each side sees of a symbol.
use grove_suite.Prelude.{◌≡◌, ◌≢◌, ◌↔◌, refl, Option, none, some, arith, Text, text_eq_iff}
use grove_suite.Fuse.Data.{SymbolData}
use grove_suite.Fuse.ThreeWay.{
  MergeAction, keep, use_ours, use_theirs, converged, delete, conflict, three_way_symbol,
}

-- A side sees a symbol as its body, or not at all.
abbrev pub view : Option SymbolData → Option Text
view none = none
view (some s) = some s.body

-- The body that an action leaves, given what each side sees.
abbrev pub chosen : MergeAction → Option Text → Option Text → Option Text
chosen keep o t = o
chosen use_ours o t = o
chosen use_theirs o t = t
chosen converged o t = o
chosen delete o t = none
chosen conflict o t = none

abbrev pub mirrored : MergeAction → MergeAction
mirrored keep = keep
mirrored use_ours = use_theirs
mirrored use_theirs = use_ours
mirrored converged = converged
mirrored delete = delete
mirrored conflict = conflict

-- ThreeWaySymbol reports a conflict exactly where ours, theirs and base see three different
-- things, an absent symbol being one of the things that a side can see.
pub three_way_symbol-conflict_iff :
    (b o t : Option SymbolData)
    → (three_way_symbol b o t ≡ conflict)
      ↔ ((view o ≢ view t) × (view o ≢ view b) × (view t ≢ view b))
unfolding three_way_symbol
three_way_symbol-conflict_iff none none none = ground arith
three_way_symbol-conflict_iff (some b) none none = ground arith
three_way_symbol-conflict_iff none (some o) none = ground arith
three_way_symbol-conflict_iff none none (some t) = ground arith
three_way_symbol-conflict_iff none (some o) (some t) = ground (arith, text_eq_iff o.body t.body)
three_way_symbol-conflict_iff (some b) none (some t) = ground (arith, text_eq_iff t.body b.body)
three_way_symbol-conflict_iff (some b) (some o) none = ground (arith, text_eq_iff o.body b.body)
three_way_symbol-conflict_iff (some b) (some o) (some t) =
    ground (arith, text_eq_iff o.body t.body, text_eq_iff o.body b.body, text_eq_iff t.body b.body)

-- Where ThreeWaySymbol reports no conflict, its action leaves what theirs sees if ours sees what
-- base sees, and what ours sees if theirs sees what base sees or what ours sees.
pub three_way_symbol-chosen :
    (b o t : Option SymbolData)
    → three_way_symbol b o t ≢ conflict
    → let left = chosen (three_way_symbol b o t) (view o) (view t) in
      (view o ≡ view b → left ≡ view t)
      × (view t ≡ view b → left ≡ view o)
      × (view o ≡ view t → left ≡ view o)
unfolding three_way_symbol
three_way_symbol-chosen none none none h = ground arith
three_way_symbol-chosen (some b) none none h = ground arith
three_way_symbol-chosen none (some o) none h = ground arith
three_way_symbol-chosen none none (some t) h = ground arith
three_way_symbol-chosen none (some o) (some t) h = ground (arith, text_eq_iff o.body t.body)
three_way_symbol-chosen (some b) none (some t) h = ground (arith, text_eq_iff t.body b.body)
three_way_symbol-chosen (some b) (some o) none h = ground (arith, text_eq_iff o.body b.body)
three_way_symbol-chosen (some b) (some o) (some t) h =
    ground (arith, text_eq_iff o.body t.body, text_eq_iff o.body b.body, text_eq_iff t.body b.body)

-- With the sides exchanged ThreeWaySymbol takes the mirrored action.
pub three_way_symbol-mirrored :
    (b o t : Option SymbolData) → three_way_symbol b t o ≡ mirrored (three_way_symbol b o t)
unfolding three_way_symbol
three_way_symbol-mirrored none none none = refl
three_way_symbol-mirrored (some b) none none = refl
three_way_symbol-mirrored none (some o) none = refl
three_way_symbol-mirrored none none (some t) = refl
three_way_symbol-mirrored none (some o) (some t) =
    ground (arith, text_eq_iff o.body t.body, text_eq_iff t.body o.body)
three_way_symbol-mirrored (some b) none (some t) = ground arith
three_way_symbol-mirrored (some b) (some o) none = ground arith
three_way_symbol-mirrored (some b) (some o) (some t) = ground (
  arith,
  text_eq_iff o.body t.body,
  text_eq_iff t.body o.body,
  text_eq_iff o.body b.body,
  text_eq_iff t.body b.body,
)
