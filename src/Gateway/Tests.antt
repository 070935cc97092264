-- ===== src/Gateway/Tests.antt =====
-- Runs of internal/gatewayreroute on a route of two models, and the theorems applied to it.
use ai_finops_operator.Prelude.{
  ◌≡◌, refl, String, Bool, true, false, none, [], ◌∷◌, arith, eq_iff, List,
}
use ai_finops_operator.Prelude.Dict.{Dict, lookup}
use ai_finops_operator.Gateway.Actuator.{Route, model_backends, IsServing, model_backends-IsServing}
use ai_finops_operator.Gateway.Json.{
  Json, Items, Fields, text, array, object, nil, cons, end, field, get, put, remove, Unstructured,
  slice_of, string_of,
}
use ai_finops_operator.Gateway.Refinement.{Mark, shown_rules, AllHold, apply_all, marks_of}
use ai_finops_operator.Gateway.Refinement.Runs.{apply_all-Refines}
use ai_finops_operator.Gateway.Reroute.{
  Controls, apply_controls, apply_rules, apply_rule, rule_model, matches_model, header_model,
  first_backend, act, action_of, acted_backend, set_first_backend, is_set, body_mutation,
}
use ai_finops_operator.Gateway.Reroute.Revert.{AreRevertible, mentions}
use ai_finops_operator.Gateway.Reroute.RoundTrip.{revert_round_trip}
use ai_finops_operator.Gateway.Reroute.Reported.{IsReroutable, IsBlockable, reported-IsAllowed}

-- The helpers as functions on the decoded JSON.
abbrev unstructured : Unstructured
unstructured = record {
  nested_slice = λ o k. slice_of (get k o);
  nested_string = λ o k. string_of (get k o);
  set_nested_slice = λ o xs k. put k (array xs) o;
  nested_slice_law = λ o k. refl;
  nested_string_law = λ o k. refl;
  set_nested_slice_law = λ o xs k. refl;
}

abbrev model_rule : String → Fields → Json
model_rule model backend = object (
    field "matches"
      (array (
        cons
          (object (
            field "headers"
              (array (
                cons (object (field "name" (text "x-ai-eg-model") (field "value" (text model) end)))
                  nil))
              end))
          nil))
      (field "backendRefs" (array (cons (object backend) nil)) end))

abbrev named : String → Fields
named backend = field "name" (text backend) end

abbrev route : Items
route = cons (model_rule "gpt" (named "azure")) (cons (model_rule "mistral" (named "paris")) nil)

abbrev to_mistral : Dict String
to_mistral = ("gpt", "mistral") ∷ []

abbrev served : Dict String
served = ("mistral", "paris") ∷ []

abbrev mistral_blocked : Dict Bool
mistral_blocked = ("mistral", true) ∷ []

controlled_route :
    (apply_controls unstructured route [] to_mistral mistral_blocked served).0
    ≡ cons
        (model_rule "gpt"
          (field "name" (text "paris") (field "bodyMutation" (body_mutation "mistral") end)))
        (cons (model_rule "mistral" (named "aiops-blocked")) nil)
unfolding apply_controls apply_rules apply_rule rule_model matches_model get header_model
    first_backend act action_of lookup set_first_backend put acted_backend remove
controlled_route = refl

route-AreRevertible : AreRevertible unstructured route
unfolding rule_model matches_model header_model first_backend get
route-AreRevertible = (
  ((("azure", refl), refl)),
  (λ m h. ground (arith, eq_iff "gpt" m, eq_iff "mistral" m, eq_iff "gpt" "mistral")),
  ((("paris", refl), refl), (λ m h. refl), tt),
)

revert_round_trip_example :
    ((apply_controls unstructured
        (apply_controls unstructured route [] to_mistral mistral_blocked served).0
        (apply_controls unstructured route [] to_mistral mistral_blocked served).1.saved
        []
        []
        served).0
      ≡ route)
    × ((apply_controls unstructured
          (apply_controls unstructured route [] to_mistral mistral_blocked served).0
          (apply_controls unstructured route [] to_mistral mistral_blocked served).1.saved
          []
          []
          served).1.saved
        ≡ [])
revert_round_trip_example =
    revert_round_trip unstructured route to_mistral mistral_blocked served served
      route-AreRevertible

reported-IsAllowed_example :
    (is_set
          (apply_controls unstructured route [] to_mistral mistral_blocked served).1.result.rerouted
          "gpt"
        ≡ true
      → (mentions unstructured "gpt" route ≡ true)
        × IsReroutable
            (record { desired = to_mistral; blocked = mistral_blocked; backends = served })
            "gpt")
    × (is_set
            (apply_controls unstructured route [] to_mistral mistral_blocked
              served).1.result.blocked
            "gpt"
          ≡ true
        → (mentions unstructured "gpt" route ≡ true)
          × IsBlockable
              (record { desired = to_mistral; blocked = mistral_blocked; backends = served })
              "gpt")
reported-IsAllowed_example =
    reported-IsAllowed unstructured route [] to_mistral mistral_blocked served "gpt"

abbrev routes : List Route
routes = record { annotations = []; rules = route } ∷ []

model_backends-IsServing_example : IsServing (model_backends unstructured routes [])
model_backends-IsServing_example = model_backends-IsServing unstructured routes

-- First the reroute and the block, then only a reroute to a model that nothing serves.
abbrev two_calls : List Controls
two_calls =
    record { desired = to_mistral; blocked = mistral_blocked; backends = served }
    ∷ record { desired = ("gpt", "claude") ∷ []; blocked = []; backends = served }
    ∷ []

apply_all-Refines_example :
    ((apply_all unstructured route [] two_calls).0
      ≡ shown_rules unstructured (marks_of (λ m. Mark.original) two_calls) route)
    × AllHold unstructured
        (marks_of (λ m. Mark.original) two_calls)
        route
        (apply_all unstructured route [] two_calls).1
    × ((m : String)
        → mentions unstructured m route ≡ false
        → lookup m (apply_all unstructured route [] two_calls).1 ≡ none)
apply_all-Refines_example = apply_all-Refines unstructured route two_calls route-AreRevertible
