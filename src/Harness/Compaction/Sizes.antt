-- ===== src/Harness/Compaction/Sizes.antt =====
-- crates/localpilot-harness/src/compaction.rs: the sizes of messages, and texts cut to a length.
use unshackled.Prelude.{
  ℕ, zero, suc, ◌+◌, ◌/◌, Option, none, some, List, [], ◌∷◌, ◌++◌, length, ltb, if◌then◌else◌,
}
use unshackled.Text.{Text, codes}
use unshackled.Core.Messages.{ContentBlock, text, reasoning, tool_use, tool_result, Message}

-- `str::len`, the number of bytes in UTF-8.
unfoldable pub byte_len : Text → ℕ
byte_len [] = 0
byte_len (c ∷ s) =
    (if ltb c 0x80 then 1 else if ltb c 0x800 then 2 else if ltb c 0x10000 then 3 else 4)
    + byte_len s

unfoldable pub block_chars : ContentBlock → ℕ
unfolding byte_len
block_chars (text t) = byte_len t
block_chars (reasoning t signature provider_metadata) = byte_len t
block_chars (tool_use call) = byte_len call.name + byte_len call.input
block_chars (tool_result r) = byte_len r.output

unfoldable pub content_chars : List ContentBlock → ℕ
unfolding block_chars
content_chars [] = 0
content_chars (b ∷ bs) = block_chars b + content_chars bs

unfoldable pub message_chars : Message → ℕ
unfolding content_chars
message_chars m = content_chars m.content

unfoldable pub total_chars : List Message → ℕ
unfolding message_chars
total_chars [] = 0
total_chars (m ∷ ms) = message_chars m + total_chars ms

unfoldable pub estimate_tokens : List Message → ℕ
unfolding total_chars
estimate_tokens ms = total_chars ms / 4

-- `iter().take(n)`.
unfoldable pub take {ℓ} : {A : Type ℓ} → ℕ → List A → List A
take zero xs = []
take (suc n) [] = []
take (suc n) (x ∷ xs) = x ∷ take n xs

unfoldable pub truncate : Text → ℕ → Text
unfolding take
truncate t max_chars = take max_chars t ++ (if ltb max_chars (length t) then codes "..." else [])

unfoldable pub first_text_of : List ContentBlock → Option Text
first_text_of [] = none
first_text_of (text t ∷ bs) = some t
first_text_of (b ∷ bs) = first_text_of bs

unfoldable pub first_text : Message → Option Text
unfolding first_text_of
first_text m = first_text_of m.content
