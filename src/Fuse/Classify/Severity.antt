-- ===== src/Fuse/Classify/Severity.antt =====
-- engine.go of the classification: breaking changes dominate, and when nothing is reported.
use grove_suite.Prelude.{
  ℕ, ◌≤◌, ◌≡◌, ◌↔◌, ap, false, List, [], ◌∷◌, All, arith, length, ltb, if◌then◌else◌,
}
use grove_suite.Fuse.Data.{BreakingChange, ConflictSeverity, none_type, none_severity}
use grove_suite.Fuse.Classify.{
  Inputs, rank, max_from, max_breaking_severity, by_counts, classify, symbol_delta, import_churn,
  has_architectural_signals,
}

max_from-above :
    (best : ConflictSeverity) (bs : List BreakingChange) (k : ℕ)
    → rank (max_from best bs) ≤ k
    → (rank best ≤ k) × All (λ b. rank b.severity ≤ k) bs
unfolding max_from
max_from-above best [] k h = (h, tt)
max_from-above best (b ∷ bs) k h =
    let ih =
      max_from-above (if ltb (rank best) (rank b.severity) then b.severity else best) bs k h in
    (ground (arith, ih.0), (ground (arith, ih.0), ih.1))

classify-ge-max :
    (i : Inputs)
    → i.is_config_file ≡ false
    → rank (max_breaking_severity i.breaking_changes) ≤ rank (classify i).severity
unfolding classify
classify-ge-max i c = ground arith

-- A file that is no config file is classified at least as severe as each of its breaking changes.
pub classify-ge-breaking :
    (i : Inputs)
    → i.is_config_file ≡ false
    → All (λ b. rank b.severity ≤ rank (classify i).severity) i.breaking_changes
unfolding max_breaking_severity
classify-ge-breaking i c =
    (max_from-above none_severity i.breaking_changes _ (classify-ge-max i c)).1

signals_nil : (i : Inputs) → i.symbol_conflicts ≡ [] → has_architectural_signals i ≡ false
unfolding has_architectural_signals
signals_nil i h = rw h

-- Classify reports the type NONE exactly for a file that is no config file, with no breaking change
-- above NONE, no symbol conflict, no import added or removed and no side with more or fewer symbols.
pub classify-none_iff :
    (i : Inputs)
    → ((classify i).type ≡ none_type) ↔ (
        (i.is_config_file ≡ false)
        × (max_breaking_severity i.breaking_changes ≡ none_severity)
        × (i.symbol_conflicts ≡ [])
        × (import_churn i ≡ 0)
        × (symbol_delta i ≡ 0))
unfolding classify by_counts
classify-none_iff i = (λ h. ground arith, λ h. ground (arith, signals_nil i h.2, ap length h.2))
