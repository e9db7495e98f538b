-- ===== src/Harness/Compaction/Loops.antt =====
-- What the loops of `compact_plan` keep of the exchanges.
use unshackled.Prelude.{
  ℕ, ◌≡◌, refl, sym, ap, ◌∙◌, Bool, true, false, ◌&&◌, ◌||◌, Option, some, List, [], ◌∷◌, ◌++◌,
  append_assoc, append-nil, arith, if◌then◌else◌, Bool-cases, inl, inr, All, All-append, any,
  any-append,
}
use unshackled.Text.{Text}
use unshackled.Core.Messages.{user, assistant, tool, Message}
use unshackled.Core.Summary.{StructuredSummary, has_none}
use unshackled.Harness.Compaction.Parts.{
  flatten, is_role, split_system, push_last, group_onto, build_messages, fits,
}
use unshackled.Harness.Compaction.Trim.{drop_oldest, drop_with_summary, find_cut}
use unshackled.Harness.Compaction.Pairs.{starts_user, Headed, IsGrouped}

pub split_system-append : (ms : List Message) → (split_system ms).0 ++ (split_system ms).1 ≡ ms
unfolding split_system
split_system-append [] = refl
split_system-append (m ∷ ms) = ground (arith, split_system-append ms)

pub flatten-append : (a b : List (List Message)) → flatten (a ++ b) ≡ flatten a ++ flatten b
flatten-append [] b = refl
flatten-append (e ∷ a) b =
    ap (◌++◌ e) (flatten-append a b) ∙ sym (append_assoc e (flatten a) (flatten b))

push_last-new :
    (es : List (List Message)) (m : Message) → push_last (es ++ [] ∷ []) m ≡ es ++ (m ∷ []) ∷ []
unfolding push_last
push_last-new [] m = refl
push_last-new (e ∷ []) m = refl
push_last-new (e ∷ f ∷ es) m = ap (◌∷◌ e) (push_last-new (f ∷ es) m)

flatten-push_last :
    (e : List Message) (es : List (List Message)) (m : Message)
    → flatten (push_last (e ∷ es) m) ≡ flatten (e ∷ es) ++ m ∷ []
unfolding push_last
flatten-push_last e [] m = append-nil (e ++ m ∷ []) ∙ ap (λ z. z ++ m ∷ []) (sym (append-nil e))
flatten-push_last e (f ∷ es) m =
    ap (◌++◌ e) (flatten-push_last f es m) ∙ sym (append_assoc e (flatten (f ∷ es)) (m ∷ []))

-- One round of the grouping.
abbrev grouped : List (List Message) → Message → List (List Message)
grouped es m = push_last (if is_role user m || has_none es then es ++ [] ∷ [] else es) m

grouped-nil : (m : Message) → grouped [] m ≡ (m ∷ []) ∷ []
unfolding push_last
grouped-nil m = elim (Bool-cases (is_role user m)) [ inl y ↦ rw y refl | inr n ↦ rw n refl ]

grouped-user :
    (e : List Message) (es : List (List Message)) (m : Message)
    → is_role user m ≡ true
    → grouped (e ∷ es) m ≡ (e ∷ es) ++ (m ∷ []) ∷ []
grouped-user e es m y = rw y (push_last-new (e ∷ es) m)

grouped-other :
    (e : List Message) (es : List (List Message)) (m : Message)
    → is_role user m ≡ false
    → grouped (e ∷ es) m ≡ push_last (e ∷ es) m
grouped-other e es m n = rw n refl

flatten-grouped :
    (es : List (List Message)) (m : Message) → flatten (grouped es m) ≡ flatten es ++ m ∷ []
flatten-grouped [] m = ap flatten (grouped-nil m)
flatten-grouped (e ∷ es) m = elim (Bool-cases (is_role user m)) [
  | inl y ↦ ap flatten (grouped-user e es m y) ∙ flatten-append (e ∷ es) ((m ∷ []) ∷ [])
  | inr n ↦ ap flatten (grouped-other e es m n) ∙ flatten-push_last e es m
]

pub flatten-group_onto :
    (es : List (List Message)) (ms : List Message) → flatten (group_onto es ms) ≡ flatten es ++ ms
unfolding group_onto
flatten-group_onto es [] = rw append-nil refl
flatten-group_onto es (m ∷ ms) =
    flatten-group_onto (grouped es m) ms
    ∙ ap (λ z. z ++ ms) (flatten-grouped es m)
    ∙ append_assoc (flatten es) (m ∷ []) ms

starts_user-last :
    (e : List Message) (m : Message) → starts_user e ≡ true → starts_user (e ++ m ∷ []) ≡ true
starts_user-last [] m h = ground (arith, h)
starts_user-last (n ∷ e) m h = h

Headed-push_last : (es : List (List Message)) (m : Message) → Headed es → Headed (push_last es m)
unfolding push_last
Headed-push_last [] m h = tt
Headed-push_last (e ∷ []) m h = (starts_user-last e m h.0, tt)
Headed-push_last (e ∷ f ∷ es) m h = (h.0, Headed-push_last (f ∷ es) m h.1)

IsGrouped-push_last :
    (e : List Message) (es : List (List Message)) (m : Message)
    → Headed es
    → IsGrouped (push_last (e ∷ es) m)
unfolding push_last
IsGrouped-push_last e [] m h = tt
IsGrouped-push_last e (f ∷ es) m h = Headed-push_last (f ∷ es) m h

Headed-append : (a b : List (List Message)) → Headed a → Headed b → Headed (a ++ b)
Headed-append [] b h k = k
Headed-append (e ∷ a) b h k = (h.0, Headed-append a b h.1 k)

IsGrouped-grouped :
    (es : List (List Message)) (m : Message) → IsGrouped es → IsGrouped (grouped es m)
IsGrouped-grouped [] m h = rw (grouped-nil m) tt
IsGrouped-grouped (e ∷ es) m h = elim (Bool-cases (is_role user m)) [
  | inl y ↦ rw (grouped-user e es m y) (Headed-append es ((m ∷ []) ∷ []) h (y, tt))
  | inr n ↦ rw (grouped-other e es m n) (IsGrouped-push_last e es m h)
]

pub group_onto-IsGrouped :
    (es : List (List Message)) (ms : List Message) → IsGrouped es → IsGrouped (group_onto es ms)
unfolding group_onto
group_onto-IsGrouped es [] h = h
group_onto-IsGrouped es (m ∷ ms) h =
    group_onto-IsGrouped (grouped es m) ms (IsGrouped-grouped es m h)

-- No user message stands behind the first message.
abbrev pub has_user : List Message → Bool
has_user = any (is_role user)

abbrev pub IsExchange : List Message → Type 0
IsExchange [] = ⊥
IsExchange (m ∷ ms) = has_user ms ≡ false

IsExchange-last :
    (e : List Message) (m : Message)
    → is_role user m ≡ false
    → IsExchange e
    → IsExchange (e ++ m ∷ [])
IsExchange-last [] m n h = absurd h
IsExchange-last (f ∷ e) m n h = any-append (is_role user) e (m ∷ []) ∙ ground (arith, h, n)

AreExchanges-push_last :
    (es : List (List Message)) (m : Message)
    → is_role user m ≡ false
    → All IsExchange es
    → All IsExchange (push_last es m)
unfolding push_last
AreExchanges-push_last [] m n h = tt
AreExchanges-push_last (e ∷ []) m n h = (IsExchange-last e m n h.0, tt)
AreExchanges-push_last (e ∷ f ∷ es) m n h = (h.0, AreExchanges-push_last (f ∷ es) m n h.1)

AreExchanges-grouped :
    (es : List (List Message)) (m : Message) → All IsExchange es → All IsExchange (grouped es m)
AreExchanges-grouped [] m h = rw (grouped-nil m) (refl, tt)
AreExchanges-grouped (e ∷ es) m h = elim (Bool-cases (is_role user m)) [
  | inl y ↦ rw (grouped-user e es m y) (All-append IsExchange (e ∷ es) ((m ∷ []) ∷ []) h (refl, tt))
  | inr n ↦ rw (grouped-other e es m n) (AreExchanges-push_last (e ∷ es) m n h)
]

-- The grouping gives exchanges.
pub group_onto-AreExchanges :
    (es : List (List Message)) (ms : List Message)
    → All IsExchange es
    → All IsExchange (group_onto es ms)
unfolding group_onto
group_onto-AreExchanges es [] h = h
group_onto-AreExchanges es (m ∷ ms) h =
    group_onto-AreExchanges (grouped es m) ms (AreExchanges-grouped es m h)

-- A cut behind `before` and what follows it, at an assistant's message.
pub record CutAt (first : Message) (rest before suffix : List Message) : Type 0 where
  pub turn : Message
  pub later : List Message
  pub is_turn : is_role assistant turn ≡ true
  pub whole : rest ≡ before ++ turn ∷ later
  pub kept : suffix ≡ first ∷ turn ∷ later

module _ (sys : List Message) (token_limit : ℕ) where
  pub drop_oldest-append :
      (es : List (List Message))
      → (drop_oldest sys token_limit es).0 ++ (drop_oldest sys token_limit es).1 ≡ es
  unfolding drop_oldest
  drop_oldest-append [] = refl
  drop_oldest-append (e ∷ []) = refl
  drop_oldest-append (e ∷ f ∷ es) = ground (arith, drop_oldest-append (f ∷ es))

  module _ (carried : List Text) where
    pub drop_with_summary-append :
        (dropped es : List (List Message))
        → (drop_with_summary sys token_limit carried dropped es).0
            ++ (drop_with_summary sys token_limit carried dropped es).1
          ≡ dropped ++ es
    unfolding drop_with_summary
    drop_with_summary-append dropped [] = refl
    drop_with_summary-append dropped (e ∷ []) = refl
    drop_with_summary-append dropped (e ∷ f ∷ es) = ground (
      arith,
      drop_with_summary-append (dropped ++ e ∷ []) (f ∷ es),
      append_assoc dropped (e ∷ []) (f ∷ es),
    )

  pub find_cut-CutAt :
      (summary : Option StructuredSummary) (first : Message) (before : List Message)
      (previous : Message) (ms p s : List Message)
      → find_cut sys token_limit summary first before previous ms ≡ some (p, s)
      → CutAt first (before ++ ms) p s
  unfolding find_cut
  find_cut-CutAt summary first before previous [] p s h = ground (arith, h)
  find_cut-CutAt summary first before previous (m ∷ ms) p s h = elim (Bool-cases cut) [
    | inl y ↦ record {
      turn = m;
      later = ms;
      is_turn = ground (arith, y);
      whole = ground (arith, y, h);
      kept = ground (arith, y, h);
    }
    | inr n ↦
        let later : find_cut sys token_limit summary first (before ++ m ∷ []) m ms ≡ some (p, s) =
          ground (arith, n, h) in
        rw (append_assoc before (m ∷ []) ms) at
          (find_cut-CutAt summary first (before ++ m ∷ []) m ms p s later)
  ]
    where
      cut : Bool
      cut =
          is_role assistant m
          && (is_role tool previous || is_role user previous)
          && fits (build_messages sys summary ((first ∷ m ∷ ms) ∷ [])) token_limit
