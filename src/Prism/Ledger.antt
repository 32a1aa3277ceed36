-- ===== src/Prism/Ledger.antt =====
-- prism/internal/session/ledger.go and confidence.go: the tokens that a session was asked for and
-- was given, and how far a delivery may have left the model's window. Counters of 64 bits are their
-- bits as a number below 2 ^ 64; token counts are not negative.
pub mod Balance
use grove_suite.Prelude.{
  ℕ, zero, suc, ◌+◌, ◌*◌, ◌%◌, Bool, true, false, ◌==◌, ltb, if◌then◌else◌, List, [], ◌∷◌, Option,
  none, some, Text, Map, lookup, insert,
}
use grove_suite.Prelude.Integers.{ℤ, pos, negsuc}

-- The sum of two counters, which wraps.
unfoldable pub add64 : ℕ → ℕ → ℕ
add64 a b = (a + b) % 18446744073709551616

pub record ToolStats : Type 0 where
  pub calls : ℕ
  pub original : ℕ
  pub delivered : ℕ

pub record Ledger : Type 0 where
  pub session_id : Text
  pub total_original : ℕ
  pub total_delivered : ℕ
  pub by_tool : Map ToolStats
  pub start_time : ℕ

-- `NewLedger`, at the time `now`.
unfoldable pub new_ledger : Text → ℕ → Ledger
new_ledger id now = record {
  session_id = id;
  total_original = 0;
  total_delivered = 0;
  by_tool = [];
  start_time = now;
}

abbrev pub stats_or_new : Option ToolStats → ToolStats
stats_or_new none = record { calls = 0; original = 0; delivered = 0 }
stats_or_new (some s) = s

abbrev pub add_call : ℕ → ℕ → ToolStats → ToolStats
add_call original delivered s = record {
  calls = add64 s.calls 1;
  original = add64 s.original original;
  delivered = add64 s.delivered delivered;
}

unfoldable pub record_tokens : Text → ℕ → ℕ → Ledger → Ledger
unfolding lookup insert add64
record_tokens tool original delivered l = record l {
  by_tool =
      insert tool (add_call original delivered (stats_or_new (lookup tool l.by_tool))) l.by_tool;
  total_original = add64 l.total_original original;
  total_delivered = add64 l.total_delivered delivered;
}

pub data Confidence : Type 0 where
  high medium low : Confidence

-- The ratio's tests, in whole numbers. They agree with the source's floats where the window is
-- below 2 ^ 50. A count that is negative has a ratio below every threshold.
unfoldable pub estimate_confidence : ℤ → ℤ → Confidence
estimate_confidence tokens_since (negsuc w) = low
estimate_confidence tokens_since (pos zero) = low
estimate_confidence (negsuc t) (pos (suc w)) = high
estimate_confidence (pos t) (pos (suc w)) =
    if ltb (10 * t) (3 * suc w) then high else if ltb (10 * t) (7 * suc w) then medium else low
