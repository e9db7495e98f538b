-- ===== src/Tests/Recovery.antt =====
-- Recovery at concrete inputs.
use unshackled.Prelude.{◌≤◌, ◌≡◌, refl, ◌↔◌, true, false, List, [], ◌∷◌, ◌++◌, arith}
use unshackled.Text.{Text, codes, trim_start, starts_with, is_whitespace, text_eq}
use unshackled.Text.Split.{lines_from, is_empty, tokens_from, strip_cr}
use unshackled.Recovery.Detect.{
  slash_flood, malformed_tool_call, longest_repeat_run, run_line, run_step, is_slash_flood,
  is_repeated_token_loop, is_fence_line, max_punctuation_runs, scan_lines, scan_line, count_tokens,
  token_step,
}
use unshackled.Recovery.Detect.Runs.{HasBlock, longest_repeat_run_iff}
use unshackled.Recovery.Monitor.{fresh, push_all, detected}
use unshackled.Recovery.Monitor.Chunks.{HasCleanCuts, detected-push_all}
use unshackled.Recovery.Monitor.Cuts.{missed_fence}
use unshackled.Recovery.Engine.{
  RecoveryEngine, default_budget, recovering, degraded, clean, bad, turns, step_completable,
}
use unshackled.Recovery.Engine.Ladder.{bad_streak-health, degraded_revives}

abbrev flood : Text
flood = codes "path //////// end"

abbrev chunks : List Text
chunks = codes "a //" ∷ codes "//////" ∷ codes " b" ∷ []

chunks-HasCleanCuts : HasCleanCuts [] chunks
unfolding trim_start is_whitespace
chunks-HasCleanCuts = ((ground arith, ground arith), ((ground arith, ground arith), tt))

detected-push_all_example : detected (push_all fresh chunks) ≡ true
unfolding is_slash_flood is_repeated_token_loop max_punctuation_runs scan_lines scan_line lines_from
    is_empty strip_cr longest_repeat_run run_line run_step is_fence_line starts_with trim_start
    is_whitespace tokens_from count_tokens token_step text_eq
detected-push_all_example = detected-push_all chunks chunks-HasCleanCuts

missed_fence_example :
    (detected (push_all fresh (codes "`" ∷ (codes "``\n" ++ flood) ∷ [])) ≡ true)
    × (is_slash_flood (codes "```\n" ++ flood) ≡ false)
unfolding is_fence_line starts_with trim_start is_whitespace longest_repeat_run run_line run_step
missed_fence_example = missed_fence flood refl refl (omega arith) (omega arith)

longest_repeat_run_iff_example :
    (3 ≤ longest_repeat_run (codes "x /// y")) ↔ HasBlock 3 (codes "x /// y")
longest_repeat_run_iff_example = longest_repeat_run_iff 3 (codes "x /// y")

abbrev engine : RecoveryEngine
engine = record {
  budget = default_budget;
  attempts = 3;
  health = degraded;
  last_turn_clean = false;
}

bad_streak-health_example :
    (turns engine (bad slash_flood ∷ clean ∷ bad slash_flood ∷ bad malformed_tool_call ∷ [])).health
    ≡ recovering
bad_streak-health_example =
    bad_streak-health engine (bad slash_flood ∷ []) slash_flood (malformed_tool_call ∷ [])
      (omega arith)

degraded_revives_example :
    ((turns engine (clean ∷ [])).health ≡ degraded)
    × ((turns engine (clean ∷ bad slash_flood ∷ [])).health ≡ recovering)
    × (step_completable (turns engine (clean ∷ bad slash_flood ∷ clean ∷ [])) ≡ true)
degraded_revives_example = degraded_revives engine slash_flood refl (omega arith)
