-- ===== src/Gateway/Reroute/Enforced.antt =====
-- What the rules and the result of `ApplyControls` (internal/gatewayreroute/gatewayreroute.go) say.
use ai_finops_operator.Prelude.{◌≡◌, subst, sym, ◌∙◌, String, true, false, ◌==◌, none, some}
use ai_finops_operator.Prelude.Dict.{Dict, lookup}
use ai_finops_operator.Gateway.Json.{
  Json, Items, Fields, text, object, nil, cons, get, as_object, Unstructured,
}
use ai_finops_operator.Gateway.Reroute.{
  Controls, is_set, value_of, rule_model, first_backend, set_first_backend, body_mutation,
  block_backend_name,
}
use ai_finops_operator.Gateway.Reroute.Rules.{
  model_of, rule_model-set_first_backend, first_backend-set_first_backend,
}

-- What a backend of a rule of the model must be under the controls.
abbrev pub IsServed : Controls → String → Fields → Type 0
IsServed c model b =
    ((target : String)
      → lookup model c.desired ≡ some target
      → (value_of c.backends target == "") ≡ false
      → (get "name" b ≡ some (text (value_of c.backends target)))
        × (get "bodyMutation" b ≡ some (body_mutation target)))
    × (lookup model c.desired ≡ none
        → is_set c.blocked model ≡ true
        → (get "name" b ≡ some (text block_backend_name)) × (get "bodyMutation" b ≡ none))

-- The rule obeys the controls: so does its first backend, if it has a model and a backend.
abbrev pub IsObeying : Unstructured → Controls → Json → Type 0
IsObeying u c r = elim (as_object r) [
  | none ↦ Unit
  | some rule ↦
      (rule_model u rule == "") ≡ false
      → (b : Fields × Items) → first_backend u rule ≡ some b
      → IsServed c (rule_model u rule) b.0
]

-- The model is to be rerouted to one that no known backend serves.
abbrev pub IsUnserved : Controls → String → Type 0
IsUnserved c model =
    (target : String) × (lookup model c.desired ≡ some target)
    × ((value_of c.backends target == "") ≡ true)

-- What a rule becomes: one that obeys the controls, and itself if no known backend can serve it.
abbrev pub IsEnforced : Unstructured → Controls → Json → Json → Type 0
IsEnforced u c r r' = IsObeying u c r' × (IsUnserved c (model_of u r) → r' ≡ r)

abbrev pub AllPairs : (Json → Json → Type 0) → Items → Items → Type 0
AllPairs P nil nil = Unit
AllPairs P nil (cons r' rs') = ⊥
AllPairs P (cons r rs) nil = ⊥
AllPairs P (cons r rs) (cons r' rs') = P r r' × AllPairs P rs rs'

some_injective : {a b : Fields × Items} → some a ≡ some b → a ≡ b
some_injective h = cc

written :
    (u : Unstructured) (c : Controls) (rule b : Fields) (bs : Items)
    → IsServed c (rule_model u rule) b
    → IsObeying u c (object (set_first_backend u rule b bs))
written u c rule b bs served n x g = rw (rule_model-set_first_backend u rule b bs) (
    subst (λ y. IsServed c (rule_model u rule) y.0)
      (some_injective (sym (first_backend-set_first_backend u rule b bs) ∙ g)) served)
