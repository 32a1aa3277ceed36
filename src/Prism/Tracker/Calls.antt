-- ===== src/Prism/Tracker/Calls.antt =====
-- Lookup and whole sessions of tracker.go.
use mathlib.Core.Option
use grove_suite.Prelude.{
  ℕ, ◌≡◌, refl, sym, ap, ◌∙◌, List, [], ◌∷◌, Option, none, some, Text, text_eq, inl, inr, arith,
  Option-cases, lookup,
}
use grove_suite.Prism.Tracker.{Entry, Tracker, new_tracker, deref, record_file, lookup_file, reset}
use grove_suite.Prism.Tracker.Elements.{
  files, seen, without, number_at, seen-number_at-none, number_at-seen-none, seen-file_path,
  deref-number_at, files-unlink,
}
use grove_suite.Prism.Tracker.Lru.{WellFormed, moved_front, record_file_refines}

abbrev to_front : Option Entry → Text → List Entry → List Entry
to_front none path es = es
to_front (some e) path es = e ∷ without path es

-- The entries after a file was looked up.
abbrev pub used : Text → List Entry → List Entry
used path es = to_front (seen path es) path es

-- Where table and list agree, Lookup keeps them so; it finds the entry of the path, if there is
-- one, with whether its hash is the one asked for, and moves it to the front.
pub lookup_file_refines :
    (path hash : Text) (t : Tracker)
    → WellFormed t
    → WellFormed (lookup_file path hash t).1
      × ((lookup_file path hash t).0
          ≡ Option.map (λ (e : Entry). (e, text_eq e.content_hash hash)) (seen path (files t.lru)))
      × (files (lookup_file path hash t).1.lru ≡ used path (files t.lru))
unfolding lookup_file
lookup_file_refines path hash t w = elim (Option-cases (number_at path t.lru)) [
  | inl n ↦ rw (lookup_file, w.agree path, n, seen-number_at-none path t.lru n) (w, refl, refl)
  | inr (k, n) ↦ elim (Option-cases (deref k t.lru)) [
    | inl nothing ↦ absurd (
        ground (arith, number_at-seen-none path t.lru, deref-number_at path k t.lru w.linked_lru n))
    | inr (e, there) ↦
        (let there' : seen path (files t.lru) ≡ some e =
            sym (deref-number_at path k t.lru w.linked_lru n) ∙ there in
          rw (lookup_file, w.agree path, n, there, there')
            (
              moved_front t path k e w n (seen-file_path path (files t.lru) e there'),
              refl,
              ap (λ es. e ∷ es) (files-unlink path k t.lru w.linked_lru n),
            ))
  ]
]

new_tracker-WellFormed : (n : ℕ) → WellFormed (new_tracker n)
unfolding new_tracker lookup
new_tracker-WellFormed n = record {
  agree = λ q. refl;
  linked_lru = refl;
  below_next = refl;
  bounded = ground (arith);
}

reset-WellFormed : (t : Tracker) → WellFormed t → WellFormed (reset t)
unfolding reset lookup
reset-WellFormed t w = record {
  agree = λ q. refl;
  linked_lru = refl;
  below_next = refl;
  bounded = ground (arith);
}

-- The calls of a session, and the tracker after them.
pub data TrackerCall : Type 0 where
  record_call : Text → Text → ℕ → Text → TrackerCall
  lookup_call : Text → Text → TrackerCall
  reset_call : TrackerCall

unfoldable pub run_calls : List TrackerCall → Tracker → Tracker
unfolding record_file lookup_file reset
run_calls [] t = t
run_calls (record_call path hash tokens level ∷ cs) t =
    run_calls cs (record_file path hash tokens level t)
run_calls (lookup_call path hash ∷ cs) t = run_calls cs (lookup_file path hash t).1
run_calls (reset_call ∷ cs) t = run_calls cs (reset t)

run_calls-WellFormed :
    (cs : List TrackerCall) (t : Tracker) → WellFormed t → WellFormed (run_calls cs t)
unfolding run_calls
run_calls-WellFormed [] t w = w
run_calls-WellFormed (record_call path hash tokens level ∷ cs) t w =
    run_calls-WellFormed cs (record_file path hash tokens level t)
      (record_file_refines path hash tokens level t w).0
run_calls-WellFormed (lookup_call path hash ∷ cs) t w =
    run_calls-WellFormed cs (lookup_file path hash t).1 (lookup_file_refines path hash t w).0
run_calls-WellFormed (reset_call ∷ cs) t w =
    run_calls-WellFormed cs (reset t) (reset-WellFormed t w)

-- After any calls on a new tracker, table and list agree, no file stands twice, and no more files
-- are tracked than its capacity.
pub tracker_invariant : (n : ℕ) (cs : List TrackerCall) → WellFormed (run_calls cs (new_tracker n))
tracker_invariant n cs = run_calls-WellFormed cs (new_tracker n) (new_tracker-WellFormed n)
