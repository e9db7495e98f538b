-- ===== src/Llm/Thinking.antt =====
-- crates/localpilot-llm/src/event.rs: the filter of inline reasoning. The tags are ASCII, so that what
-- is kept of a text counts the same in characters as in bytes.
use unshackled.Prelude.{
  ℕ, zero, suc, ◌-◌, Bool, true, false, not, Option, none, some, List, [], ◌∷◌, ◌++◌, length,
  if◌then◌else◌,
}
use unshackled.Text.{Text, codes}
use unshackled.Text.Split.{is_empty}
use unshackled.Text.Trim.{split_once}
use unshackled.Text.Suffix.{is_suffix, take, drop}
use unshackled.Llm.Events.{ModelEvent, text_delta, reasoning_delta}
pub mod Tags
pub mod Clear
pub mod Loop
pub mod Chunks
pub mod Routes

abbrev pub think_open : Text
think_open = codes "<think>"

abbrev pub think_close : Text
think_close = codes "</think>"

pub record InlineThinkingFilter : Type 0 where
  pub in_thinking : Bool
  pub held : Text

abbrev pub default_filter : InlineThinkingFilter
default_filter = record { in_thinking = false; held = [] }

-- The tag to look for, and the event of the text before it.
abbrev pub tag_of : Bool → Text
tag_of true = think_close
tag_of false = think_open

abbrev pub event_of : Bool → Text → ModelEvent
event_of true t = reasoning_delta t
event_of false t = text_delta t

-- The lengths from the given one down to 1.
unfoldable pub longest_suffix : ℕ → Text → Text → ℕ
unfolding is_suffix
longest_suffix zero text tag = 0
longest_suffix (suc n) text tag =
    let shorter = longest_suffix n text tag in
    if is_suffix (take (suc n) tag) text then suc n else shorter

unfoldable pub partial_tag_suffix : Text → Text → ℕ
unfolding longest_suffix
partial_tag_suffix text tag = longest_suffix (length tag - 1) text tag

-- The event of a text that is not empty, before what comes behind it.
abbrev pub emit :
    Bool → Text → List ModelEvent × InlineThinkingFilter → List ModelEvent × InlineThinkingFilter
emit thinking [] r = r
emit thinking (c ∷ t) (events, f) = (event_of thinking (c ∷ t) ∷ events, f)

unfoldable pub emit_clear : Bool → Text → List ModelEvent × InlineThinkingFilter
unfolding partial_tag_suffix
emit_clear thinking held =
    let n = length held - partial_tag_suffix held (tag_of thinking) in
    emit thinking (take n held) ([], record { in_thinking = thinking; held = drop n held })

abbrev pub on_tag :
    (Text → List ModelEvent × InlineThinkingFilter)
    → Bool
    → Text
    → Option (Text × Text)
    → List ModelEvent × InlineThinkingFilter
on_tag again thinking held none = emit_clear thinking held
on_tag again thinking held (some (before, rest)) = emit thinking before (again rest)

-- The loop of `push`, with fuel.
unfoldable pub filter_from : ℕ → Bool → Text → List ModelEvent × InlineThinkingFilter
unfolding split_once emit_clear
filter_from zero thinking held = ([], record { in_thinking = thinking; held = held })
filter_from (suc n) thinking held =
    on_tag (filter_from n (not thinking)) thinking held (split_once (tag_of thinking) held)

-- Each round but the last takes a tag from the text, so its length and one are enough fuel.
unfoldable pub push : InlineThinkingFilter → Text → List ModelEvent × InlineThinkingFilter
unfolding filter_from
push f delta = let held = f.held ++ delta in filter_from (suc (length held)) f.in_thinking held

unfoldable pub finish : InlineThinkingFilter → List ModelEvent × InlineThinkingFilter
unfolding is_empty
finish f =
    if is_empty f.held
    then ([], f)
    else (event_of f.in_thinking f.held ∷ [], record f { held = [] })
