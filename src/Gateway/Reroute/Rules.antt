-- ===== src/Gateway/Reroute/Rules.antt =====
-- One rule under the controls of internal/gatewayreroute/gatewayreroute.go: reading a rule whose
-- first backend was written, and what one round of the loop does to the caller's map.
use ai_finops_operator.Prelude.{
  ◌≡◌, refl, sym, ◌∙◌, ap, String, Bool, true, false, not, ◌&&◌, ◌==◌, Option, none, some, inl, inr,
  arith, eq_iff, Option-cases, Bool-cases,
}
use ai_finops_operator.Prelude.Dict.{lookup, lookup-insert, lookup-erase}
use ai_finops_operator.Gateway.Json.{
  Json, Items, Fields, text, array, object, cons, get, put, as_object, slice_of, Unstructured,
  get-put, put-put_back, put_same,
}
use ai_finops_operator.Gateway.Reroute.{
  State, Controls, Action, rule_model, first_backend, set_first_backend, remember, action_of,
  acted_state, act, apply_rule,
}

-- The model of a rule, empty if it is not an object.
abbrev pub model_of : Unstructured → Json → String
model_of u r = elim (as_object r) [ none ↦ "" | some rule ↦ rule_model u rule ]

-- The rule is one of `m`; rules without a model are of none.
abbrev pub has_model : Unstructured → String → Json → Bool
has_model u m r = model_of u r == m && not (m == "")

pub rule_model-set_first_backend :
    (u : Unstructured) (rule b0 : Fields) (bs : Items)
    → rule_model u (set_first_backend u rule b0 bs) ≡ rule_model u rule
unfolding rule_model set_first_backend
rule_model-set_first_backend u rule b0 bs = cc (
  u.set_nested_slice_law rule (cons (object b0) bs) "backendRefs",
  u.nested_slice_law rule "matches",
  u.nested_slice_law (u.set_nested_slice rule (cons (object b0) bs) "backendRefs") "matches",
  get-put "backendRefs" "matches" (array (cons (object b0) bs)) rule,
)

nested_slice-set_first_backend :
    (u : Unstructured) (rule b0 : Fields) (bs : Items)
    → u.nested_slice (set_first_backend u rule b0 bs) "backendRefs" ≡ cons (object b0) bs
unfolding set_first_backend
nested_slice-set_first_backend u rule b0 bs =
    u.nested_slice_law _ "backendRefs"
    ∙ ap slice_of (
        ap (get "backendRefs") (u.set_nested_slice_law rule (cons (object b0) bs) "backendRefs")
        ∙ get-put "backendRefs" "backendRefs" (array (cons (object b0) bs)) rule)

pub first_backend-set_first_backend :
    (u : Unstructured) (rule b0 : Fields) (bs : Items)
    → first_backend u (set_first_backend u rule b0 bs) ≡ some (b0, bs)
unfolding first_backend
first_backend-set_first_backend u rule b0 bs =
    rw (first_backend, nested_slice-set_first_backend u rule b0 bs)

pub get_of_slice :
    (o : Option Json) {x : Json} {xs : Items}
    → slice_of o ≡ cons x xs
    → o ≡ some (array (cons x xs))
get_of_slice none h = cc
get_of_slice (some Json.null) h = cc
get_of_slice (some (Json.boolean b)) h = cc
get_of_slice (some (Json.number n)) h = cc
get_of_slice (some (text s)) h = cc
get_of_slice (some (array xs)) h = cc
get_of_slice (some (object o)) h = cc

pub nested_slice_of_first_backend :
    (u : Unstructured) (rule : Fields) {b0 : Fields} {bs : Items}
    → first_backend u rule ≡ some (b0, bs)
    → u.nested_slice rule "backendRefs" ≡ cons (object b0) bs
unfolding first_backend
nested_slice_of_first_backend u rule h = ground arith

-- Writing back the first backend undoes a write.
pub set_first_backend_back :
    (u : Unstructured) (rule b : Fields) {b0 : Fields} {bs : Items}
    → first_backend u rule ≡ some (b0, bs)
    → set_first_backend u (set_first_backend u rule b bs) b0 bs ≡ rule
unfolding set_first_backend
set_first_backend_back u rule b {b0} {bs} h =
    let here : get "backendRefs" rule ≡ some (array (cons (object b0) bs)) =
      get_of_slice (get "backendRefs" rule)
        (sym (u.nested_slice_law rule "backendRefs") ∙ nested_slice_of_first_backend u rule h) in
    u.set_nested_slice_law _ (cons (object b0) bs) "backendRefs"
    ∙ ap (put "backendRefs" (array (cons (object b0) bs)))
        (u.set_nested_slice_law rule (cons (object b) bs) "backendRefs")
    ∙ put-put_back "backendRefs" (array (cons (object b) bs)) (array (cons (object b0) bs)) rule
        here

-- Writing the first backend that a rule has changes nothing.
pub set_first_backend_same :
    (u : Unstructured) (rule : Fields) {b0 : Fields} {bs : Items}
    → first_backend u rule ≡ some (b0, bs)
    → set_first_backend u rule b0 bs ≡ rule
unfolding set_first_backend
set_first_backend_same u rule {b0} {bs} h =
    u.set_nested_slice_law rule (cons (object b0) bs) "backendRefs"
    ∙ put_same "backendRefs" (array (cons (object b0) bs)) rule (
        get_of_slice (get "backendRefs" rule)
          (sym (u.nested_slice_law rule "backendRefs") ∙ nested_slice_of_first_backend u rule h))

-- A round on a rule that has a model and a backend.
pub apply_rule-act :
    (u : Unstructured) (c : Controls) (rule : Fields) (s : State) {b0 : Fields} {bs : Items}
    → (rule_model u rule == "") ≡ false
    → first_backend u rule ≡ some (b0, bs)
    → apply_rule u c (object rule) s
      ≡ act u (action_of c s.saved (rule_model u rule)) (rule_model u rule) rule b0 bs s
unfolding apply_rule
apply_rule-act u c rule s h f = rw (h, f)

-- A round skips a rule without a model, or without a backend.
pub apply_rule-modelless :
    (u : Unstructured) (c : Controls) (rule : Fields) (s : State)
    → (rule_model u rule == "") ≡ true
    → apply_rule u c (object rule) s ≡ (object rule, s)
unfolding apply_rule
apply_rule-modelless u c rule s h = rw h refl

pub apply_rule-no_backend :
    (u : Unstructured) (c : Controls) (rule : Fields) (s : State)
    → first_backend u rule ≡ none
    → apply_rule u c (object rule) s ≡ (object rule, s)
unfolding apply_rule
apply_rule-no_backend u c rule s f = elim (Bool-cases (rule_model u rule == "")) [
  | inl e ↦ rw e refl
  | inr e ↦ rw (e, f) refl
]

act_saved_frame :
    (u : Unstructured) (action : Action) (model m : String) (rule b0 : Fields) (bs : Items)
    (s : State)
    → (model == m) ≡ false
    → lookup m (act u action model rule b0 bs s).1.saved ≡ lookup m s.saved
unfolding act acted_state remember
act_saved_frame u (Action.reroute t b) model m rule b0 bs s h =
    ground (arith, lookup-insert model m (u.nested_string b0 "name") s.saved)
act_saved_frame u Action.block model m rule b0 bs s h =
    ground (arith, lookup-insert model m (u.nested_string b0 "name") s.saved)
act_saved_frame u (Action.revert o) model m rule b0 bs s h =
    ground (arith, lookup-erase model m s.saved)
act_saved_frame u Action.keep model m rule b0 bs s h = refl

-- A round on a rule leaves the entries of the other models alone.
pub apply_rule_saved_frame :
    (u : Unstructured) (c : Controls) (r : Json) (s : State) (m : String)
    → has_model u m r ≡ false
    → lookup m (apply_rule u c r s).1.saved ≡ lookup m s.saved
unfolding apply_rule
apply_rule_saved_frame u c Json.null s m h = refl
apply_rule_saved_frame u c (Json.boolean b) s m h = refl
apply_rule_saved_frame u c (Json.number n) s m h = refl
apply_rule_saved_frame u c (text t) s m h = refl
apply_rule_saved_frame u c (array xs) s m h = refl
apply_rule_saved_frame u c (object rule) s m h = elim (Bool-cases (rule_model u rule == "")) [
  | inl e ↦ rw e refl
  | inr e ↦ elim (Option-cases (first_backend u rule)) [
    | inl f ↦ rw (e, f) refl
    | inr (b, f) ↦
        rw (e, f)
          (act_saved_frame u (action_of c s.saved (rule_model u rule)) (rule_model u rule) m rule
            b.0 b.1 s
            (ground (
              arith,
              e,
              h,
              eq_iff (rule_model u rule) m,
              eq_iff m "",
              eq_iff (rule_model u rule) "",
            )))
  ]
]
