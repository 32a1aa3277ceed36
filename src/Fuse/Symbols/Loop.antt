-- ===== src/Fuse/Symbols/Loop.antt =====
-- The loop of SymbolMerge in symbol.go: every key is decided once, and what the results add up to.
use grove_suite.Prelude.{
  ℕ, ◌+◌, ◌*◌, ◌≤◌, ◌<◌, ◌⊎◌, ◌&&◌, ◌==◌, ltb, if◌then◌else◌, is_empty, ◌≡◌, ◌≢◌, refl, sym, ◌∙◌,
  true, false, not, ◌||◌, inl, inr, List, [], ◌∷◌, ◌++◌, Option, none, some, arith, length,
  length-append, Text, text_eq_iff, Map, lookup, member, distinct, Bool-cases, and_right,
  append_assoc, append-nil,
}
use grove_suite.Fuse.Data.{SymbolData, SymbolConflict}
use grove_suite.Fuse.Floats.{half, one, forty_five, mean_float}
use grove_suite.Fuse.Floats.Rounding.{round-le, le-round, mean_float-le, le-mean_float}
use grove_suite.Fuse.ThreeWay.{three_way_symbol}
use grove_suite.Fuse.Symbols.{
  Outcome, Progress, outcome, decide_key, merge_keys, add_outcome, ordered_keys, symbol_merge,
  start, confidence_of, keys_of,
}
use grove_suite.Fuse.Symbols.Keys.{has_key, member-ordered_keys, distinct-ordered_keys}

-- What a list of keys yields, each decided by `f`.
abbrev pub emitted_by : (Text → Outcome) → List Text → List SymbolData
emitted_by f [] = []
emitted_by f (k ∷ ks) = (f k).emitted ++ emitted_by f ks

abbrev pub clashes_by : (Text → Outcome) → List Text → List SymbolConflict
clashes_by f [] = []
clashes_by f (k ∷ ks) = (f k).clashes ++ clashes_by f ks

module _ (base ours theirs : Map SymbolData) where
  -- Where no key comes twice, the loop skips none.
  pub merge_keys-collects :
      (used ks : List Text) (p : Progress)
      → distinct ks ≡ true
      → ((k : Text) → member k ks ≡ true → member k used ≡ false)
      → let q = merge_keys base ours theirs used ks p in
        (q.merged ≡ p.merged ++ emitted_by (decide_key base ours theirs) ks)
        × (q.conflicts ≡ p.conflicts ++ clashes_by (decide_key base ours theirs) ks)
  unfolding merge_keys
  merge_keys-collects used [] p d fresh = (sym (append-nil _), sym (append-nil _))
  merge_keys-collects used (k ∷ ks) p d fresh =
      let r = decide_key base ours theirs k in
      let here : member k used ≡ false =
        fresh k (unfold member in ground (arith, text_eq_iff k k)) in
      let ih =
        merge_keys-collects (k ∷ used) ks (add_outcome p r) (and_right (not (member k ks)) _ d)
          (λ j m. unfold member in ground (arith, text_eq_iff k j, fresh j)) in
      rw here
        (ih.0 ∙ append_assoc p.merged r.emitted _, ih.1 ∙ append_assoc p.conflicts r.clashes _)

  -- The accumulators between two rounds.
  record Inv (p : Progress) : Type 0 where
    placed : length p.conflicts ≤ length p.merged
    at_most : p.conf_sum ≤ 2 * p.conf_n * half
    clean_least : p.conflicts ≡ [] → p.conf_n * half ≤ p.conf_sum

  decide_key-bounds :
      (k : Text)
      → let r = decide_key base ours theirs k in
        (length r.clashes ≤ length r.emitted)
        × ((r.count ≡ 0) ⊎ (r.count ≡ 1))
        × (r.weight ≤ 2 * r.count * half)
        × (r.clashes ≡ [] → r.count * half ≤ r.weight)
  unfolding decide_key
  decide_key-bounds k = go (lookup k base) (lookup k ours) (lookup k theirs)
    where
      go :
          (b o t : Option SymbolData)
          → let r = outcome k b o t (three_way_symbol b o t) in
            (length r.clashes ≤ length r.emitted)
            × ((r.count ≡ 0) ⊎ (r.count ≡ 1))
            × (r.weight ≤ 2 * r.count * half)
            × (r.clashes ≡ [] → r.count * half ≤ r.weight)
      go none none none = ground arith
      go (some b) none none = ground arith
      go none (some o) none = ground arith
      go none none (some t) = ground arith
      go none (some o) (some t) = ground arith
      go (some b) none (some t) = ground arith
      go (some b) (some o) none = ground arith
      go (some b) (some o) (some t) = ground arith

  append-nil_left : (xs ys : List SymbolConflict) → xs ++ ys ≡ [] → (xs ≡ []) × (ys ≡ [])
  append-nil_left [] ys h = (refl, h)
  append-nil_left (x ∷ xs) ys h = cc

  add_outcome-Inv :
      (p : Progress) (k : Text) → Inv p → Inv (add_outcome p (decide_key base ours theirs k))
  add_outcome-Inv p k v =
      let r = decide_key base ours theirs k in
      let (placed, counted, at_most, clean) = decide_key-bounds k in
      record {
        placed = omega (
          arith,
          v.placed,
          placed,
          length-append p.conflicts r.clashes,
          length-append p.merged r.emitted,
        );
        at_most = elim counted [
          | inl e ↦ rw e (omega (arith, v.at_most))
          | inr e ↦ rw e (
              round-le (p.conf_sum + r.weight) (2 * (p.conf_n + 1))
                (omega (arith, v.at_most, at_most, e)))
        ];
        clean_least = λ n.
            let (old, new) = append-nil_left p.conflicts r.clashes n in
            elim counted [
              | inl e ↦ rw e (omega (arith, v.clean_least old))
              | inr e ↦ rw e (
                  le-round (p.conf_sum + r.weight) (p.conf_n + 1)
                    (omega (arith, v.clean_least old, clean new, e)))
            ];
      }

  merge_keys-Inv :
      (used ks : List Text) (p : Progress) → Inv p → Inv (merge_keys base ours theirs used ks p)
  unfolding merge_keys
  merge_keys-Inv used [] p v = v
  merge_keys-Inv used (k ∷ ks) p v = elim (Bool-cases (member k used)) [
    | inl h ↦ rw h (merge_keys-Inv used ks p v)
    | inr h ↦ rw h (merge_keys-Inv (k ∷ used) ks _ (add_outcome-Inv p k v))
  ]

  -- SymbolMerge decides a list of keys, in the order of orderedKeys, and its merged symbols and its
  -- conflicts are what these decisions yield. A key is in this list exactly where one of the three
  -- maps holds it, and no key is in it twice. Hypotheses: no map holds a key twice, as in Go.
  pub symbol_merge-decides :
      distinct (keys_of base) ≡ true
      → distinct (keys_of ours) ≡ true
      → distinct (keys_of theirs) ≡ true
      → let ks = ordered_keys ours theirs base in
        let m = symbol_merge base ours theirs in
        (m.merged ≡ emitted_by (decide_key base ours theirs) ks)
        × (m.conflicts ≡ clashes_by (decide_key base ours theirs) ks)
        × ((k : Text) → member k ks ≡ (has_key k ours || (has_key k theirs || has_key k base)))
        × (distinct ks ≡ true)
  unfolding symbol_merge
  symbol_merge-decides db de dt =
      let once = distinct-ordered_keys ours theirs base de dt db in
      let done =
        merge_keys-collects [] (ordered_keys ours theirs base) start once
          (λ k h. unfold member in refl) in
      (done.0, done.1, (λ k. member-ordered_keys k ours theirs base), once)

  mean-bounds :
      (p : Progress)
      → Inv p
      → let c = if p.conf_n == 0 then one else mean_float p.conf_sum p.conf_n in
        (c ≤ one) × (p.conflicts ≡ [] → half ≤ c)
  mean-bounds p v = elim (Bool-cases (p.conf_n == 0)) [
    | inl e ↦ rw e (omega arith, λ n. omega arith)
    | inr e ↦
        (let some_key : 0 < p.conf_n = ground (arith, e) in
          rw e (
            mean_float-le p.conf_sum p.conf_n some_key (omega (arith, v.at_most)),
            λ n. le-mean_float p.conf_sum p.conf_n some_key (omega (arith, v.clean_least n)),
          ))
  ]

  confidence_of-bounds :
      (p : Progress)
      → Inv p
      → let c = confidence_of p in
        (c.num ≤ c.den)
        × (p.conflicts ≢ [] → 2 * c.num ≤ c.den)
        × (p.conflicts ≡ [] → c.den ≤ 2 * c.num)
  unfolding confidence_of
  confidence_of-bounds p v =
      let c = if p.conf_n == 0 then one else mean_float p.conf_sum p.conf_n in
      let (top, clean) = mean-bounds p v in
      (capped p.conflicts c top, λ n. halved p.conflicts c n, λ n. rw n (omega (arith, clean n)))
    where
      capped :
          (cs : List SymbolConflict) (c : ℕ)
          → c ≤ one
          → (if not (is_empty cs) && ltb half c then forty_five else c) ≤ one
      capped cs c h = ground (arith, h)

      halved :
          (cs : List SymbolConflict) (c : ℕ)
          → cs ≢ []
          → 2 * (if not (is_empty cs) && ltb half c then forty_five else c) ≤ one
      halved [] c n = absurd (n refl)
      halved (x ∷ cs) c n = ground arith

  -- Every conflict of SymbolMerge has a merged symbol with markers in its place, so the count of
  -- symbols merged automatically is never negative. The confidence, with the rounding of doubles,
  -- is at most 1; it is at most 1/2 where there is a conflict, and at least 1/2 where there is none.
  pub symbol_merge_bounds :
      let m = symbol_merge base ours theirs in
      (length m.conflicts ≤ length m.merged)
      × (m.confidence.num ≤ m.confidence.den)
      × (m.conflicts ≢ [] → 2 * m.confidence.num ≤ m.confidence.den)
      × (m.conflicts ≡ [] → m.confidence.den ≤ 2 * m.confidence.num)
  unfolding symbol_merge
  symbol_merge_bounds =
      let p = merge_keys base ours theirs [] (ordered_keys ours theirs base) start in
      let v =
        merge_keys-Inv [] (ordered_keys ours theirs base) start (record {
          placed = omega arith;
          at_most = omega arith;
          clean_least = λ e. omega arith;
        }) in
      (let c = confidence_of-bounds p v in (v.placed, c.0, c.1, c.2))
