-- ===== src/Gateway/Actuator.antt =====
-- The actuation over all routes of a namespace: internal/controller/gatewayactuator.go, on the routes
-- that the API server lists. Whether it accepts an update is a parameter.
use ai_finops_operator.Prelude.{
  ◌≡◌, String, Bool, true, false, ◌||◌, ◌==◌, List, [], ◌∷◌, Option, none, some, if◌then◌else◌,
  arith,
}
use ai_finops_operator.Prelude.Dict.{Dict, lookup, contains, insert, erase, lookup-insert}
use ai_finops_operator.Gateway.Json.{Json, Items, Fields, object, nil, cons, Unstructured}
use ai_finops_operator.Gateway.Reroute.{
  rule_model, first_backend, apply_controls, block_backend_name, value_of,
}

-- The annotations of a route, and the rules of its specification.
pub record Route : Type 0 where
  pub annotations : Dict String
  pub rules : Items

-- What modelBackends does with the name of the first backend of a rule of `model`.
unfoldable pub index_name : (model name : String) → Dict String → Dict String
index_name model name out =
    if name == "" || name == block_backend_name || contains model out
    then out
    else insert model name out

-- The first backend of a rule of `model`, if it has one.
unfoldable pub index_backend :
    Unstructured → (model : String) → Option (Fields × Items) → Dict String → Dict String
index_backend u model none out = out
index_backend u model (some b) out = index_name model (u.nested_string b.0 "name") out

unfoldable pub index_rule : Unstructured → Json → Dict String → Dict String
index_rule u (object rule) out =
    if rule_model u rule == ""
    then out
    else index_backend u (rule_model u rule) (first_backend u rule) out
index_rule u _ out = out

unfoldable pub index_rules : Unstructured → Items → Dict String → Dict String
index_rules u nil out = out
index_rules u (cons r rs) out = index_rules u rs (index_rule u r out)

-- modelBackends
unfoldable pub model_backends : Unstructured → List Route → Dict String → Dict String
model_backends u [] out = out
model_backends u (r ∷ rs) out = model_backends u rs (index_rules u r.rules out)

-- routeActuationResult
pub record RouteActuationResult : Type 0 where
  pub rerouted : Dict Bool
  pub blocked : Dict Bool

-- `for m := range more { all[m] = true }`
unfoldable pub add_keys : Dict Bool → Dict Bool → Dict Bool
add_keys [] all = all
add_keys ((m, _) ∷ more) all = add_keys more (insert m true all)

-- The JSON of the annotation, and whether the API server accepts an update.
pub record Server : Type 0 where
  pub decode : String → Dict String
  pub encode : Dict String → String
  pub accepts : Route → Bool

unfoldable pub saved_of : Server → String → Route → Dict String
saved_of server annotation_key route =
    if value_of route.annotations annotation_key == ""
    then []
    else server.decode (value_of route.annotations annotation_key)

unfoldable pub with_saved : Server → String → Route → Items → Dict String → Route
with_saved server annotation_key route rules [] = record {
  annotations = erase annotation_key route.annotations;
  rules = rules;
}
with_saved server annotation_key route rules (s ∷ saved) = record {
  annotations = insert annotation_key (server.encode (s ∷ saved)) route.annotations;
  rules = rules;
}

-- The loop of actuateRouteControlsWithAnnotation: the routes as they are left, the models acted on,
-- and whether every update was accepted; the first one that is not ends the loop.
unfoldable pub actuate_routes :
    Unstructured
    → Server
    → (reroutes : Dict String) (blocked : Dict Bool) (backends : Dict String)
      (annotation_key : String)
    → List Route
    → RouteActuationResult
    → List Route × RouteActuationResult × Bool
actuate_routes u server reroutes blocked backends key [] out = ([], out, true)
actuate_routes u server reroutes blocked backends key (route ∷ routes) out =
    let (rules, after) =
      apply_controls u route.rules (saved_of server key route) reroutes blocked backends in
    let out' : RouteActuationResult = record {
      rerouted = add_keys after.result.rerouted out.rerouted;
      blocked = add_keys after.result.blocked out.blocked;
    } in
    let updated = with_saved server key route rules after.saved in
    elim after.result.changed [
      | false ↦
          let (routes', out'', ok') =
            actuate_routes u server reroutes blocked backends key routes out' in
          (route ∷ routes', out'', ok')
      | true ↦ elim (server.accepts updated) [
        | false ↦ (route ∷ routes, out', false)
        | true ↦
            let (routes', out'', ok') =
              actuate_routes u server reroutes blocked backends key routes out' in
            (updated ∷ routes', out'', ok')
      ]
    ]

-- actuateRouteControlsWithAnnotation, after the routes have been listed.
unfoldable pub actuate_route_controls :
    Unstructured
    → Server
    → List Route
    → (reroutes : Dict String) (blocked : Dict Bool) (annotation_key : String)
    → List Route × RouteActuationResult × Bool
actuate_route_controls u server routes reroutes blocked annotation_key =
    actuate_routes u server reroutes blocked (model_backends u routes []) annotation_key routes
      (record { rerouted = []; blocked = [] })

-- The index names real backends: none is empty, and none is the absent one.
abbrev pub IsServing : Dict String → Type 0
IsServing out =
    (model : String) (name : String)
    → lookup model out ≡ some name
    → ((name == "") ≡ false) × ((name == block_backend_name) ≡ false)

index_name-IsServing :
    (model name : String) (out : Dict String)
    → IsServing out
    → IsServing (index_name model name out)
unfolding index_name
index_name-IsServing model name out inv m b h =
    ground (arith, lookup-insert model m name out, inv m b)

index_backend-IsServing :
    (u : Unstructured) (model : String) (b : Option (Fields × Items)) (out : Dict String)
    → IsServing out
    → IsServing (index_backend u model b out)
unfolding index_backend
index_backend-IsServing u model none out inv = inv
index_backend-IsServing u model (some b) out inv =
    index_name-IsServing model (u.nested_string b.0 "name") out inv

either-IsServing :
    (b : Bool) (x y : Dict String) → IsServing x → IsServing y → IsServing (if b then x else y)
either-IsServing true x y p q = p
either-IsServing false x y p q = q

index_rule-IsServing :
    (u : Unstructured) (r : Json) (out : Dict String)
    → IsServing out
    → IsServing (index_rule u r out)
unfolding index_rule
index_rule-IsServing u Json.null out inv = inv
index_rule-IsServing u (Json.boolean b) out inv = inv
index_rule-IsServing u (Json.number n) out inv = inv
index_rule-IsServing u (Json.text t) out inv = inv
index_rule-IsServing u (Json.array xs) out inv = inv
index_rule-IsServing u (object rule) out inv =
    either-IsServing (rule_model u rule == "") out _ inv
      (index_backend-IsServing u (rule_model u rule) (first_backend u rule) out inv)

index_rules-IsServing :
    (u : Unstructured) (rs : Items) (out : Dict String)
    → IsServing out
    → IsServing (index_rules u rs out)
unfolding index_rules
index_rules-IsServing u nil out inv = inv
index_rules-IsServing u (cons r rs) out inv =
    index_rules-IsServing u rs (index_rule u r out) (index_rule-IsServing u r out inv)

model_backends_from :
    (u : Unstructured) (routes : List Route) (out : Dict String)
    → IsServing out
    → IsServing (model_backends u routes out)
unfolding model_backends
model_backends_from u [] out inv = inv
model_backends_from u (r ∷ rs) out inv =
    model_backends_from u rs (index_rules u r.rules out) (index_rules-IsServing u r.rules out inv)

-- `modelBackends` never offers the absent backend or an empty name as the target of a reroute.
pub model_backends-IsServing :
    (u : Unstructured) (routes : List Route) → IsServing (model_backends u routes [])
model_backends-IsServing u routes =
    model_backends_from u routes [] (λ model name h. unfold lookup in ground arith)
