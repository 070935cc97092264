-- ===== src/Gateway/Reroute.antt =====
-- internal/gatewayreroute/gatewayreroute.go: the controls on the rules of one route.
pub mod Rules
pub mod Revert
pub mod RoundTrip
pub mod Enforced
pub mod Reported
use ai_finops_operator.Prelude.{
  String, Bool, true, false, not, ◌&&◌, ◌||◌, ◌==◌, List, [], ◌∷◌, Option, none, some,
  if◌then◌else◌,
}
use ai_finops_operator.Prelude.Dict.{Dict, lookup, contains, insert, erase}
use ai_finops_operator.Gateway.Json.{
  Json, Items, Fields, boolean, text, array, object, nil, cons, end, field, get, put, remove,
  as_object, Unstructured,
}

abbrev pub model_header_name : String
model_header_name = "x-ai-eg-model"

abbrev pub block_backend_name : String
block_backend_name = "aiops-blocked"

-- `m[k]` of a set of strings.
abbrev pub is_set : Dict Bool → String → Bool
is_set m k = elim (lookup k m) [ none ↦ false | some b ↦ b ]

-- `m[k]` of a map to strings.
abbrev pub value_of : Dict String → String → String
value_of m k = elim (lookup k m) [ none ↦ "" | some s ↦ s ]

pub record Result : Type 0 where
  pub rerouted : Dict Bool
  pub blocked : Dict Bool
  pub changed : Bool

-- What the loop carries besides the rules: the caller's map of original backends, and the result.
pub record State : Type 0 where
  pub saved : Dict String
  pub result : Result

-- The desired controls, and the backend that serves each model.
pub record Controls : Type 0 where
  pub desired : Dict String
  pub blocked : Dict Bool
  pub backends : Dict String

module _ (u : Unstructured) where
  -- The value of the first header that names the model, in the headers of one match.
  unfoldable pub header_model : Items → Option String
  header_model nil = none
  header_model (cons h hs) = elim (as_object h) [
    | none ↦ header_model hs
    | some hh ↦
        if u.nested_string hh "name" == model_header_name
        then some (u.nested_string hh "value")
        else header_model hs
  ]

  unfoldable pub matches_model : Items → String
  matches_model nil = ""
  matches_model (cons m ms) = elim (as_object m) [
    | none ↦ matches_model ms
    | some mm ↦ elim (header_model (u.nested_slice mm "headers")) [
      | none ↦ matches_model ms
      | some value ↦ value
    ]
  ]

  unfoldable pub rule_model : Fields → String
  rule_model rule = matches_model (u.nested_slice rule "matches")

  -- The first backend of a rule, and the ones after it.
  unfoldable pub first_backend : Fields → Option (Fields × Items)
  first_backend rule = elim (u.nested_slice rule "backendRefs") [
    | nil ↦ none
    | cons b bs ↦ elim (as_object b) [ none ↦ none | some b0 ↦ some (b0, bs) ]
  ]

  -- `if _, already := saved[model]; !already { saved[model] = name of b0 }`
  unfoldable pub remember : String → Fields → Dict String → Dict String
  remember model b0 saved =
      if contains model saved then saved else insert model (u.nested_string b0 "name") saved

  -- `brs[0] = b0; SetNestedSlice(rule, brs, "backendRefs"); rules[ri] = rule`
  unfoldable pub set_first_backend : Fields → Fields → Items → Fields
  set_first_backend rule b0 bs = u.set_nested_slice rule (cons (object b0) bs) "backendRefs"

-- The request body gets the model of the target.
unfoldable pub body_mutation : String → Json
body_mutation target = object (
    field "set"
      (array (cons (object (field "path" (text "model") (field "value" (text target) end))) nil))
      end)

-- What the loop does to the first backend of a rule.
pub data Action : Type 0 where
  reroute : (target backend : String) → Action
  block : Action
  revert : (original : String) → Action
  keep : Action

-- The order of the tests in the loop.
unfoldable pub action_of : Controls → Dict String → String → Action
action_of controls saved model = elim (lookup model controls.desired) [
  | some target ↦
      if value_of controls.backends target == ""
      then Action.keep
      else Action.reroute target (value_of controls.backends target)
  | none ↦
      if is_set controls.blocked model
      then Action.block
      else elim (lookup model saved) [ none ↦ Action.keep | some original ↦ Action.revert original ]
]

-- The first backend after an action.
unfoldable pub acted_backend : Action → Fields → Fields
acted_backend (Action.reroute target backend) b0 =
    put "bodyMutation" (body_mutation target) (put "name" (text backend) b0)
acted_backend Action.block b0 = remove "bodyMutation" (put "name" (text block_backend_name) b0)
acted_backend (Action.revert original) b0 = remove "bodyMutation" (put "name" (text original) b0)
acted_backend Action.keep b0 = b0

-- The caller's map and the result after an action on a rule of `model`.
unfoldable pub acted_state : Unstructured → Action → String → Fields → State → State
acted_state u (Action.reroute target backend) model b0 s = record {
  saved = remember u model b0 s.saved;
  result = record s.result { rerouted = insert model true s.result.rerouted; changed = true };
}
acted_state u Action.block model b0 s = record {
  saved = remember u model b0 s.saved;
  result = record s.result { blocked = insert model true s.result.blocked; changed = true };
}
acted_state u (Action.revert original) model b0 s = record {
  saved = erase model s.saved;
  result = record s.result { changed = true };
}
acted_state u Action.keep model b0 s = s

unfoldable pub act : Unstructured → Action → String → Fields → Fields → Items → State → Json × State
act u Action.keep model rule b0 bs s = (object rule, s)
act u action model rule b0 bs s = (
  object (set_first_backend u rule (acted_backend action b0) bs),
  acted_state u action model b0 s,
)

-- One round of the loop.
unfoldable pub apply_rule : Unstructured → Controls → Json → State → Json × State
apply_rule u controls r s = elim (as_object r) [
  | none ↦ (r, s)
  | some rule ↦ if rule_model u rule == "" then (r, s) else elim (first_backend u rule) [
    | none ↦ (r, s)
    | some (b0, bs) ↦
        act u (action_of controls s.saved (rule_model u rule)) (rule_model u rule) rule b0 bs s
  ]
]

unfoldable pub apply_rules : Unstructured → Controls → Items → State → Items × State
apply_rules u controls nil s = (nil, s)
apply_rules u controls (cons r rs) s =
    let (r', s₁) = apply_rule u controls r s in
    let (rs', s₂) = apply_rules u controls rs s₁ in (cons r' rs', s₂)

abbrev pub no_result : Result
no_result = record { rerouted = []; blocked = []; changed = false }

-- ApplyControls: the rules and the map `saved` that the call leaves behind, and its result.
unfoldable pub apply_controls :
    Unstructured
    → Items
    → (saved desired : Dict String) (blocked : Dict Bool) (backends : Dict String) → Items × State
apply_controls u rules saved desired blocked backends =
    apply_rules u (record { desired = desired; blocked = blocked; backends = backends }) rules
      (record { saved = saved; result = no_result })

-- Apply: the models that were rerouted, and whether a rule changed.
unfoldable pub apply :
    Unstructured
    → Items
    → (saved desired backends : Dict String) → Items × Dict String × Dict Bool × Bool
apply u rules saved desired backends =
    let (rules', s) = apply_controls u rules saved desired [] backends in
    (rules', s.saved, s.result.rerouted, s.result.changed)
