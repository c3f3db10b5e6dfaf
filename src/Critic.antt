-- ===== src/Critic.antt =====
-- src/agents/critic.py: the deterministic rule evaluator that reviews a task's payload, and the
-- counts that the judge decides by.
pub mod Approval
pub mod Counts
pub mod Tally
pub mod Memory
pub mod Review
pub mod Samples
mod Tests
use Prim.Native.String.{count}
use multi_agent_intel_pipeli.Prelude.{
  ℕ, ◌+◌, String, Bool, true, false, not, ◌&&◌, List, [], ◌∷◌, Option, ◌==◌, leb, if◌then◌else◌,
  strip, split_dots, or_default, nonempty_text,
}
use multi_agent_intel_pipeli.Value.{
  Value, null, str, list, obj, Fields, Items, nil, cons, get, has_items, has_fields,
}

-- One entry of a task contract's `validation_rules`; `none` is a key that the entry lacks.
pub record Rule : Type 0 where
  pub check : Option String
  pub field : Option String
  pub sub_field : Option String
  pub value : Option ℕ
  pub class : Option String
  pub message : Option String

walk : Value → List String → Value
walk v [] = v
walk (obj fs) (part ∷ parts) = walk (get part fs) parts
walk _ (part ∷ parts) = null

unfoldable pub resolve_field : Fields → String → Value
unfolding walk
resolve_field payload field_path = walk (obj payload) (split_dots field_path)

unfoldable pub check_non_placeholder : Value → Bool
check_non_placeholder null = false
check_non_placeholder (str s) =
    let stripped = strip s in nonempty_text stripped && not (stripped == "n/v")
check_non_placeholder (list xs) = has_items xs
check_non_placeholder (obj fs) = has_fields fs
check_non_placeholder _ = true

items_length : Items → ℕ
items_length nil = 0
items_length (cons v vs) = 1 + items_length vs

unfoldable pub check_min_items : Value → ℕ → Bool
unfolding items_length
check_min_items (list xs) threshold = leb threshold (items_length xs)
check_min_items _ threshold = false

unfoldable pub check_min_length : Value → ℕ → Bool
check_min_length (str s) threshold = leb threshold (count (strip s))
check_min_length _ threshold = false

item_non_placeholder : String → Value → Bool
unfolding check_non_placeholder
item_non_placeholder sub_field (obj fs) = check_non_placeholder (get sub_field fs)
item_non_placeholder sub_field _ = false

-- The loop returns as soon as the count of good items reaches the threshold.
count_items : String → ℕ → ℕ → Items → Bool
unfolding item_non_placeholder
count_items sub_field threshold n nil = false
count_items sub_field threshold n (cons item items) =
    let found =
      if leb threshold (n + 1) then true else count_items sub_field threshold (n + 1) items in
    let next = count_items sub_field threshold n items in
    if item_non_placeholder sub_field item then found else next

unfoldable pub check_nested_field_non_placeholder : Value → String → ℕ → Bool
unfolding count_items
check_nested_field_non_placeholder (list xs) sub_field threshold =
    count_items sub_field threshold 0 xs
check_nested_field_non_placeholder _ sub_field threshold = false

unfoldable pub evaluate_rule : Rule → Fields → Bool
unfolding resolve_field check_non_placeholder check_min_items check_min_length
    check_nested_field_non_placeholder
evaluate_rule rule payload =
    let check = or_default "" rule.check in
    let value = resolve_field payload (or_default "" rule.field) in
    let threshold = or_default 1 rule.value in
    if check == "non_placeholder"
    then check_non_placeholder value
    else if check == "min_items"
    then check_min_items value threshold
    else if check == "min_length"
    then check_min_length value threshold
    else if check == "nested_field_non_placeholder"
    then check_nested_field_non_placeholder value (or_default "" rule.sub_field) threshold
    else false
