-- ===== src/Department/Goods.antt =====
-- src/agents/lead.py: what the lead adds to the payload when it closes the package. `none` is the
-- exception where a field is no list.
use multi_agent_intel_pipeli.Prelude.{
  String, Bool, List, [], ◌∷◌, ◌++◌, map, Option, none, some, if◌then◌else◌, any, contains, concat,
  join, take, or_default,
}
use multi_agent_intel_pipeli.Value.{
  Value, str, list, Fields, Items, nil, cons, find, get, truthy, iterate,
}
use multi_agent_intel_pipeli.Python.{Python}
use multi_agent_intel_pipeli.Supervisor.{set_field}

abbrev label_if : Bool → String → List String
label_if flag label = if flag then label ∷ [] else []

abbrev classify : List String → String
classify [] = "unclear"
classify (label ∷ []) = label
classify (label ∷ other ∷ more) = "mixed"

abbrev made_words : List String
made_words = "manufactur" ∷ "produc" ∷ "assembl" ∷ " made " ∷ "fabricat" ∷ "machining" ∷ []

abbrev distributed_words : List String
distributed_words =
    "distribut" ∷ "wholesal" ∷ "trading" ∷ "trade" ∷ "resell" ∷ "import" ∷ "export" ∷ []

abbrev stock_words : List String
stock_words =
    "held-in-stock" ∷ "held in stock" ∷ "inventory" ∷ "excess stock" ∷ "surplus" ∷ "warehouse"
    ∷ "overstock" ∷ "stock" ∷ []

-- `payload.get(key, [])`
abbrev list_or : String → Fields → Value
list_or key payload = or_default (list nil) (find key payload)

-- `value[:6]`, of a list or of a text.
first_six : Value → Option (List Value)
first_six (Value.obj fs) = none
first_six v = elim (iterate v) [ none ↦ none | some xs ↦ some (take 6 xs) ]

items_of : List Value → Items
items_of [] = nil
items_of (x ∷ xs) = cons x (items_of xs)

module _ (py : Python) where
  texts_of : Option (List Value) → Option (List String)
  texts_of none = none
  texts_of (some xs) = some (map py.text xs)

  description_of : Fields → String
  description_of payload = elim (find "description" payload) [ none ↦ "" | some v ↦ py.text v ]

  labels : String → String
  labels said =
      let found = λ (ws : List String). any (λ w. contains w said) ws in
      classify (
        label_if (found made_words) "manufacturer"
        ++ (label_if (found distributed_words) "distributor"
            ++ label_if (found stock_words) "held_in_stock"))

  -- `_classify_goods`
  unfoldable pub classify_goods : Fields → Option String
  unfolding texts_of description_of labels
  classify_goods payload = elim (texts_of (iterate (list_or "product_asset_scope" payload))) [
    | none ↦ none
    | some scope ↦ elim (texts_of (iterate (list_or "products_and_services" payload))) [
      | none ↦ none
      | some services ↦
          some (labels (py.lower (join " " (description_of payload ∷ (scope ++ services)))))
    ]
  ]

  abbrev pending_items : List Value → List Value
  pending_items ps = map (λ p. str (concat (py.text p ∷ " — classification pending" ∷ []))) ps

  scope_of : Fields → Option (List Value) → Option Fields
  scope_of payload none = none
  scope_of payload (some ps) =
      some (set_field "product_asset_scope" (list (items_of (pending_items ps))) payload)

  -- The safety net: an empty `product_asset_scope` is filled from the first six products.
  unfoldable pub fill_scope : Fields → Option Fields
  unfolding scope_of first_six items_of
  fill_scope payload =
      let products = list_or "products_and_services" payload in
      if truthy (get "product_asset_scope" payload)
      then some payload
      else if truthy products
      then scope_of payload (first_six products)
      else some payload
