-- ===== src/Gateway/Refinement.antt =====
-- What any sequence of calls of ApplyControls (internal/gatewayreroute/gatewayreroute.go) promises:
-- each rule shows its original backend under the mark that the controls gave to its model.
pub mod Backends
pub mod Rounds
pub mod Runs
use ai_finops_operator.Prelude.{
  ◌≡◌, String, Bool, true, false, ◌==◌, List, [], ◌∷◌, Option, none, some, if◌then◌else◌,
}
use ai_finops_operator.Prelude.Dict.{Dict, lookup}
use ai_finops_operator.Gateway.Json.{
  Json, Items, Fields, text, object, nil, cons, put, as_object, Unstructured,
}
use ai_finops_operator.Gateway.Reroute.{
  State, Controls, is_set, value_of, rule_model, first_backend, set_first_backend, body_mutation,
  block_backend_name, apply_controls,
}

-- How a model is served.
pub data Mark : Type 0 where
  original blocked : Mark
  rerouted : (target backend : String) → Mark

-- The mark of a model after a call. A reroute to a model that no backend serves changes nothing.
unfoldable pub mark_step : Controls → String → Mark → Mark
mark_step c model k = elim (lookup model c.desired) [
  | some target ↦
      if value_of c.backends target == ""
      then k
      else Mark.rerouted target (value_of c.backends target)
  | none ↦ if is_set c.blocked model then Mark.blocked else Mark.original
]

abbrev pub step : Controls → (String → Mark) → String → Mark
step c marks model = mark_step c model (marks model)

unfoldable pub shown_backend : Mark → Fields → Fields
shown_backend Mark.original b0 = b0
shown_backend Mark.blocked b0 = put "name" (text block_backend_name) b0
shown_backend (Mark.rerouted target backend) b0 =
    put "bodyMutation" (body_mutation target) (put "name" (text backend) b0)

-- What the caller's map holds of a model whose original backend has the name.
unfoldable pub kept : Mark → String → Option String
kept Mark.original name = none
kept Mark.blocked name = some name
kept (Mark.rerouted target backend) name = some name

module _ (u : Unstructured) (marks : String → Mark) where
  -- A rule of the original route under the mark of its model.
  unfoldable pub shown_rule : Json → Json
  shown_rule r = elim (as_object r) [
    | none ↦ r
    | some rule ↦ if rule_model u rule == "" then r else elim (first_backend u rule) [
      | none ↦ r
      | some (b0, bs) ↦
          object (set_first_backend u rule (shown_backend (marks (rule_model u rule)) b0) bs)
    ]
  ]

  abbrev pub shown_rules : Items → Items
  shown_rules nil = nil
  shown_rules (cons r rs) = cons (shown_rule r) (shown_rules rs)

  -- The caller's map holds the name of the original backend exactly while the model is marked.
  abbrev pub HoldsAt : Fields → Option (Fields × Items) → Dict String → Type 0
  HoldsAt rule none saved = Unit
  HoldsAt rule (some b) saved =
      (rule_model u rule == "") ≡ false
      → lookup (rule_model u rule) saved
        ≡ kept (marks (rule_model u rule)) (u.nested_string b.0 "name")

  abbrev pub Holds : Json → Dict String → Type 0
  Holds r saved = elim (as_object r) [
    | none ↦ Unit
    | some rule ↦ HoldsAt rule (first_backend u rule) saved
  ]

  abbrev pub AllHold : Items → Dict String → Type 0
  AllHold nil saved = Unit
  AllHold (cons r rs) saved = Holds r saved × AllHold rs saved

-- The calls one after the other, each on the rules and the map that the one before it left.
unfoldable pub apply_all : Unstructured → Items → Dict String → List Controls → Items × Dict String
apply_all u rules saved [] = (rules, saved)
apply_all u rules saved (c ∷ cs) =
    let (rules', s) = apply_controls u rules saved c.desired c.blocked c.backends in
    apply_all u rules' s.saved cs

unfoldable pub marks_of : (String → Mark) → List Controls → String → Mark
marks_of marks [] = marks
marks_of marks (c ∷ cs) = marks_of (step c marks) cs
