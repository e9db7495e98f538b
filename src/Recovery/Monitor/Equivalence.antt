-- ===== src/Recovery/Monitor/Equivalence.antt =====
-- `StreamMonitor` and the detectors that scan the whole text.
use unshackled.Prelude.{◌≡◌, ◌||◌, arith}
use unshackled.Text.{Text}
use unshackled.Recovery.Detect.{is_slash_flood, is_repeated_token_loop}
use unshackled.Recovery.Monitor.Lines.{push-max_punctuation_runs}
use unshackled.Recovery.Monitor.Tokens.{push-count_tokens}
use unshackled.Recovery.Monitor.{fresh, push, detected}

-- One push of a whole text gives the verdict of the two detectors that scan it: a slash flood or a
-- repeated-token loop.
pub detected-push :
    (text : Text)
    → detected (push fresh text) ≡ (is_slash_flood text || is_repeated_token_loop text)
unfolding detected push is_slash_flood is_repeated_token_loop
detected-push text = ground (arith, push-max_punctuation_runs text, push-count_tokens text)
