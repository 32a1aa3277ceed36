-- ===== src/Grove/Impact/Growth.antt =====
-- One round of the search of Impact: what it adds, and the order of the depths in the queue.
use grove_suite.Prelude.{
  ℕ, suc, ◌≤◌, ◌≡◌, ◌⊎◌, inl, inr, refl, sym, ap, subst, ◌∙◌, true, ◌||◌, List, [], ◌∷◌, ◌++◌, none,
  some, Text, text_eq, text_eq_iff, text_eq_refl, Map, lookup, insert, lookup-insert, member, arith,
  Option-cases,
}
use grove_suite.Prelude.Members.{Among}
use grove_suite.Grove.Data.{Edge}
use grove_suite.Grove.Impact.{followed, Frontier, is_visited, offer, scan}

abbrev pub pushed : ℕ → Frontier → Edge → Frontier
pushed depth s e = record {
  visited = insert e.from (suc depth) s.visited;
  queue = s.queue ++ e.from ∷ [];
}

-- The state after the head of the queue was taken off.
abbrev pub popped : Frontier → List Text → Frontier
popped s rest = record { visited = s.visited; queue = rest }

-- The edge leads into the node, and is followed.
abbrev pub Into : Text → Edge → Type 0
Into node e = (e.to ≡ node) × (followed e.type ≡ true)

offer_cases :
    (node : Text) (depth : ℕ) (s : Frontier) (e : Edge)
    → ((offer node depth s e ≡ s) × (Into node e → is_visited e.from s.visited ≡ true))
      ⊎ ((offer node depth s e ≡ pushed depth s e) × Into node e × (lookup e.from s.visited ≡ none))
unfolding offer
offer_cases node depth s e = elim (Option-cases (lookup e.from s.visited)) [
  | inl h ↦ ground (arith, text_eq_iff e.to node, h)
  | inr (d, h) ↦ ground (arith, text_eq_iff e.to node, h)
]

-- What every push keeps, the scan keeps.
pub scan_rule :
    (node : Text) (depth : ℕ) (P : Frontier → Type 0) (es : List Edge)
    → ((s : Frontier) (e : Edge)
        → Among e es
        → Into node e
        → lookup e.from s.visited ≡ none
        → P s
        → P (pushed depth s e))
    → (s : Frontier) → P s
    → P (scan node depth s es)
unfolding scan
scan_rule node depth P [] keep s p = p
scan_rule node depth P (e ∷ es) keep s p =
    let next : P (offer node depth s e) = elim (offer_cases node depth s e) [
      | inl (same, _) ↦ subst P (sym same) p
      | inr (new, into, fresh) ↦ subst P (sym new) (keep s e (inl refl) into fresh p)
    ] in
    scan_rule node depth P es (λ s e m. keep s e (inr m)) (offer node depth s e) next

-- What a search has gone on from `s` to `t`.
pub record Grows (s t : Frontier) : Type 0 where
  pub old : (v : Text) (d : ℕ) → lookup v s.visited ≡ some d → lookup v t.visited ≡ some d
  pub fresh :
      (v : Text) (d : ℕ)
      → lookup v t.visited ≡ some d
      → (lookup v s.visited ≡ some d) ⊎ (member v t.queue ≡ true)
  pub keeps : (v : Text) → member v s.queue ≡ true → member v t.queue ≡ true

pub Grows-refl : (s : Frontier) → Grows s s
Grows-refl s = record { old = λ v d h. h; fresh = λ v d h. inl h; keeps = λ v h. h }

member-concat : (v k : Text) (q : List Text) → member v (q ++ k ∷ []) ≡ (member v q || text_eq k v)
unfolding member
member-concat v k [] = ground arith
member-concat v k (j ∷ q) = ground (arith, member-concat v k q)

insert_old :
    (k v : Text) (n d : ℕ) (m : Map ℕ)
    → lookup k m ≡ none
    → lookup v m ≡ some d
    → lookup v (insert k n m) ≡ some d
insert_old k v n d m h g = ground (arith, lookup-insert k v n m, text_eq_iff k v, h, g)

Grows-pushed :
    (depth : ℕ) (s t : Frontier) (e : Edge)
    → lookup e.from t.visited ≡ none
    → Grows s t
    → Grows s (pushed depth t e)
Grows-pushed depth s t e h g = record {
  old = λ v d there. insert_old e.from v (suc depth) d t.visited h (g.old v d there);
  fresh = λ v d there. ground (
    arith,
    lookup-insert e.from v (suc depth) t.visited,
    member-concat v e.from t.queue,
    g.fresh v d,
  );
  keeps = λ v there. ground (arith, member-concat v e.from t.queue, g.keeps v there);
}

pub scan-Grows :
    (node : Text) (depth : ℕ) (s : Frontier) (es : List Edge) → Grows s (scan node depth s es)
scan-Grows node depth s es =
    scan_rule node depth (Grows s) es (λ t e m into h. Grows-pushed depth s t e h) s (Grows-refl s)

is_visited-old :
    (s t : Frontier) (v : Text)
    → Grows s t
    → is_visited v s.visited ≡ true
    → is_visited v t.visited ≡ true
is_visited-old s t v g h = elim (Option-cases (lookup v s.visited)) [
  | inl unseen ↦ ground (arith, unseen, h)
  | inr (d, seen) ↦ ground (arith, g.old v d seen)
]

is_visited-pushed :
    (depth : ℕ) (s : Frontier) (e : Edge) → is_visited e.from (pushed depth s e).visited ≡ true
is_visited-pushed depth s e =
    ground (arith, lookup-insert e.from e.from (suc depth) s.visited, text_eq_refl e.from)

-- After the scan every source of an edge into the node has been visited.
pub scan_met :
    (node : Text) (depth : ℕ) (s : Frontier) (es : List Edge) (e : Edge)
    → Among e es
    → Into node e
    → is_visited e.from (scan node depth s es).visited ≡ true
unfolding scan
scan_met node depth s [] e m into = absurd m
scan_met node depth s (f ∷ es) e (inr m) into =
    scan_met node depth (offer node depth s f) es e m into
scan_met node depth s (f ∷ es) e (inl same) into =
    let t = offer node depth s f in
    let here : is_visited f.from t.visited ≡ true = elim (offer_cases node depth s f) [
      | inl (kept, seen) ↦
          ap (λ (u : Frontier). is_visited f.from u.visited) kept
          ∙ seen (subst (Into node) same into)
      | inr (new, _, _) ↦
          ap (λ (u : Frontier). is_visited f.from u.visited) new ∙ is_visited-pushed depth s f
    ] in
    ap (λ (x : Edge). is_visited x.from (scan node depth t es).visited) same
    ∙ is_visited-old t (scan node depth t es) f.from (scan-Grows node depth t es) here

-- The depths in the queue do not fall, from `low` on to at most `high`.
abbrev pub Rising : Map ℕ → ℕ → ℕ → List Text → Type 0
Rising visited low high [] = Unit
Rising visited low high (q ∷ qs) =
    (d : ℕ) × (lookup q visited ≡ some d) × (low ≤ d) × (d ≤ high) × Rising visited d high qs

Rising-insert :
    (visited : Map ℕ) (low high : ℕ) (qs : List Text) (k : Text) (n : ℕ)
    → lookup k visited ≡ none
    → Rising visited low high qs
    → Rising (insert k n visited) low high qs
Rising-insert visited low high [] k n h r = tt
Rising-insert visited low high (q ∷ qs) k n h (d, at, above, under, r) =
    (d, insert_old k q n d visited h at, above, under, Rising-insert visited d high qs k n h r)

Rising-concat :
    (visited : Map ℕ) (low high : ℕ) (qs : List Text) (k : Text)
    → low ≤ high
    → lookup k visited ≡ some high
    → Rising visited low high qs
    → Rising visited low high (qs ++ k ∷ [])
Rising-concat visited low high [] k le at r = (high, at, le, omega arith, tt)
Rising-concat visited low high (q ∷ qs) k le at (d, there, above, under, r) =
    (d, there, above, under, Rising-concat visited d high qs k under at r)

pub Rising-weaken :
    (visited : Map ℕ) (low high top : ℕ) (qs : List Text)
    → high ≤ top
    → Rising visited low high qs
    → Rising visited low top qs
Rising-weaken visited low high top [] le r = tt
Rising-weaken visited low high top (q ∷ qs) le (d, at, above, under, r) =
    (d, at, above, omega arith, Rising-weaken visited d high top qs le r)

-- The depths of the queue are `low` and then one more, and none that was given is above.
pub record Level (low : ℕ) (s : Frontier) : Type 0 where
  pub rising : Rising s.visited low (suc low) s.queue
  pub below : (v : Text) (d : ℕ) → lookup v s.visited ≡ some d → d ≤ suc low

pub scan-Level :
    (node : Text) (depth : ℕ) (s : Frontier) (es : List Edge)
    → Level depth s
    → Level depth (scan node depth s es)
scan-Level node depth s es =
    scan_rule node depth (Level depth) es
      (λ t e m into h l. record {
        rising =
            Rising-concat (pushed depth t e).visited depth (suc depth) t.queue e.from (omega arith)
              (ground
                (arith, lookup-insert e.from e.from (suc depth) t.visited, text_eq_refl e.from))
              (Rising-insert t.visited depth (suc depth) t.queue e.from (suc depth) h l.rising);
        below = λ v d at. ground (arith, lookup-insert e.from v (suc depth) t.visited, l.below v d);
      })
      s
