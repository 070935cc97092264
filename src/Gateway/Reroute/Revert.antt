-- ===== src/Gateway/Reroute/Revert.antt =====
-- Reverting what `ApplyControls` (internal/gatewayreroute/gatewayreroute.go) did to the rules.
use ai_finops_operator.Prelude.{
  ◌≡◌, ◌≢◌, subst, refl, sym, ◌∙◌, ap, String, Bool, true, false, ◌||◌, ◌==◌, [], none, some,
  if◌then◌else◌, arith, eq_iff,
}
use ai_finops_operator.Prelude.Dict.{Dict, lookup, contains, erase, lookup-insert, lookup-erase}
use ai_finops_operator.Gateway.Json.{
  Json, Items, Fields, text, object, nil, cons, get, put, remove, as_object, Unstructured, get-put,
  put-put_back, put_same, put_comm, remove-fresh, remove-put,
}
use ai_finops_operator.Gateway.Reroute.{
  State, Controls, Action, rule_model, first_backend, set_first_backend, remember, action_of,
  acted_backend, acted_state, act, apply_rule, body_mutation,
}
use ai_finops_operator.Gateway.Reroute.Rules.{
  has_model, rule_model-set_first_backend, first_backend-set_first_backend, set_first_backend_back,
  apply_rule-act,
}

-- A first backend that a revert can restore: it has a name, and no body mutation of its own.
abbrev pub IsPlain : Fields → Type 0
IsPlain b0 = ((name : String) × (get "name" b0 ≡ some (text name))) × (get "bodyMutation" b0 ≡ none)

abbrev pub IsRevertible : Unstructured → Json → Type 0
IsRevertible u r = elim (as_object r) [
  | none ↦ Unit
  | some rule ↦ elim (first_backend u rule) [ none ↦ Unit | some b ↦ IsPlain b.0 ]
]

-- Some rule is one of the model `m`.
abbrev pub mentions : Unstructured → String → Items → Bool
mentions u m nil = false
mentions u m (cons r rs) = has_model u m r || mentions u m rs

-- No two rules are of one model, and all can be reverted.
abbrev pub AreRevertible : Unstructured → Items → Type 0
AreRevertible u nil = Unit
AreRevertible u (cons r rs) =
    IsRevertible u r
    × ((m : String) → has_model u m r ≡ true → mentions u m rs ≡ false)
    × AreRevertible u rs

-- No model is to be rerouted or blocked.
abbrev pub no_controls : Dict String → Controls
no_controls backends = record { desired = []; blocked = []; backends = backends }

undo_name :
    (b0 : Fields) (name backend : String)
    → get "name" b0 ≡ some (text name)
    → put "name" (text name) (put "name" (text backend) b0) ≡ b0
undo_name b0 name backend h = put-put_back "name" (text backend) (text name) b0 h

fresh_mutation :
    (b0 : Fields) (name : String)
    → get "bodyMutation" b0 ≡ none
    → get "bodyMutation" (put "name" (text name) b0) ≡ none
fresh_mutation b0 name h = get-put "name" "bodyMutation" (text name) b0 ∙ h

-- A revert to the name restores a plain backend after every action.
revert-acted_backend :
    (action : Action) (b0 : Fields) (name : String)
    → get "name" b0 ≡ some (text name)
    → get "bodyMutation" b0 ≡ none
    → acted_backend (Action.revert name) (acted_backend action b0) ≡ b0
unfolding acted_backend
revert-acted_backend (Action.reroute t b) b0 name h k =
    ap (remove "bodyMutation") (
      put_comm "name" "bodyMutation" (text name) (body_mutation t) (put "name" (text b) b0) refl
        (get-put "name" "name" (text b) b0))
    ∙ remove-put "bodyMutation" (body_mutation t) _
        (ap (get "bodyMutation") (undo_name b0 name b h) ∙ k)
    ∙ undo_name b0 name b h
revert-acted_backend Action.block b0 name h k =
    ap (λ o. remove "bodyMutation" (put "name" (text name) o))
      (remove-fresh "bodyMutation" (put "name" (text "aiops-blocked") b0)
        (fresh_mutation b0 "aiops-blocked" k))
    ∙ ap (remove "bodyMutation") (undo_name b0 name "aiops-blocked" h)
    ∙ remove-fresh "bodyMutation" b0 k
revert-acted_backend (Action.revert o) b0 name h k =
    ap (λ x. remove "bodyMutation" (put "name" (text name) x))
      (remove-fresh "bodyMutation" (put "name" (text o) b0) (fresh_mutation b0 o k))
    ∙ ap (remove "bodyMutation") (undo_name b0 name o h)
    ∙ remove-fresh "bodyMutation" b0 k
revert-acted_backend Action.keep b0 name h k =
    remove-fresh "bodyMutation" _ (fresh_mutation b0 name k) ∙ put_same "name" (text name) b0 h

action_of-no_controls :
    (backends saved : Dict String) (model : String) {name : String}
    → lookup model saved ≡ some name
    → action_of (no_controls backends) saved model ≡ Action.revert name
unfolding action_of lookup
action_of-no_controls backends saved model h = rw h refl

-- A round without controls on a rule that was acted on, when its original backend is saved.
apply_rule_reverts :
    (u : Unstructured) (backends : Dict String) (rule b : Fields) (t : State) {b0 : Fields}
    {bs : Items} {name : String}
    → (rule_model u rule == "") ≡ false
    → first_backend u rule ≡ some (b0, bs)
    → acted_backend (Action.revert name) b ≡ b0
    → lookup (rule_model u rule) t.saved ≡ some name
    → apply_rule u (no_controls backends) (object (set_first_backend u rule b bs)) t ≡ (
      object rule,
      record {
        saved = erase (rule_model u rule) t.saved;
        result = record t.result { changed = true };
      },
    )
unfolding act acted_state
apply_rule_reverts u backends rule b t {b0} {bs} {name} e f back saved =
    let same = rule_model-set_first_backend u rule b bs in
    apply_rule-act u (no_controls backends) (set_first_backend u rule b bs) t (rw same e)
      (first_backend-set_first_backend u rule b bs)
    ∙ ap
        (λ m.
          act u (action_of (no_controls backends) t.saved m) m (set_first_backend u rule b bs) b bs
            t)
        same
    ∙ ap (λ a. act u a (rule_model u rule) (set_first_backend u rule b bs) b bs t)
        (action_of-no_controls backends t.saved (rule_model u rule) saved)
    ∙ ap
        (λ r. (
          object r,
          record {
            saved = erase (rule_model u rule) t.saved;
            result = record t.result { changed = true };
          },
        ))
        (ap (λ x. set_first_backend u (set_first_backend u rule b bs) x bs) back
          ∙ set_first_backend_back u rule b f)

-- What the round trip of one rule leaves: the rule, and the map without its model.
unfoldable pub IsReverted : Unstructured → Json → State → Json × State → Type 0
IsReverted u r t after =
    (after.0 ≡ r)
    × ((m : String) → lookup m after.1.saved ≡ (if has_model u m r then none else lookup m t.saved))

pub lookup-remember :
    (u : Unstructured) (model : String) (b0 : Fields) (saved : Dict String) {name : String}
    → get "name" b0 ≡ some (text name)
    → lookup model saved ≡ none
    → lookup model (remember u model b0 saved) ≡ some name
unfolding remember contains
lookup-remember u model b0 saved {name} h k = ground (
  arith,
  lookup-insert model model (u.nested_string b0 "name") saved,
  u.nested_string_law b0 "name",
  eq_iff model model,
)

lookup_erased :
    (u : Unstructured) (rule : Fields) (saved : Dict String) (m : String)
    → (rule_model u rule == "") ≡ false
    → lookup m (erase (rule_model u rule) saved)
      ≡ (if has_model u m (object rule) then none else lookup m saved)
lookup_erased u rule saved m e = ground (
  arith,
  lookup-erase (rule_model u rule) m saved,
  eq_iff (rule_model u rule) m,
  eq_iff (rule_model u rule) "",
  eq_iff m "",
)

lookup_kept :
    (u : Unstructured) (rule : Fields) (saved : Dict String) (m : String)
    → lookup (rule_model u rule) saved ≡ none
    → lookup m saved ≡ (if has_model u m (object rule) then none else lookup m saved)
lookup_kept u rule saved m h = ground (arith, eq_iff (rule_model u rule) m, eq_iff m "")

action_of_kept :
    (backends saved : Dict String) (model : String)
    → lookup model saved ≡ none
    → action_of (no_controls backends) saved model ≡ Action.keep
unfolding action_of lookup
action_of_kept backends saved model h = rw h refl

pub act-no_controls :
    (u : Unstructured) (action : Action) (backends : Dict String) (rule : Fields) (s t : State)
    {b0 : Fields} {bs : Items}
    → (rule_model u rule == "") ≡ false
    → first_backend u rule ≡ some (b0, bs)
    → IsPlain b0
    → lookup (rule_model u rule) s.saved ≡ none
    → ((o : String) → action ≢ Action.revert o)
    → lookup (rule_model u rule) t.saved
      ≡ lookup (rule_model u rule) (act u action (rule_model u rule) rule b0 bs s).1.saved
    → IsReverted u
        (object rule)
        t
        (apply_rule u (no_controls backends) (act u action (rule_model u rule) rule b0 bs s).0 t)
unfolding act acted_state IsReverted
act-no_controls u (Action.reroute g b) backends rule s t {b0} {bs} e f p none_saved other k =
    subst (IsReverted u (object rule) t)
      (sym (
        apply_rule_reverts u backends rule (acted_backend (Action.reroute g b) b0) t e f
          (revert-acted_backend (Action.reroute g b) b0 p.0.0 p.0.1 p.1)
          (k ∙ lookup-remember u (rule_model u rule) b0 s.saved p.0.1 none_saved)))
      (refl, λ m. lookup_erased u rule t.saved m e)
act-no_controls u Action.block backends rule s t {b0} {bs} e f p none_saved other k =
    subst (IsReverted u (object rule) t)
      (sym (
        apply_rule_reverts u backends rule (acted_backend Action.block b0) t e f
          (revert-acted_backend Action.block b0 p.0.0 p.0.1 p.1)
          (k ∙ lookup-remember u (rule_model u rule) b0 s.saved p.0.1 none_saved)))
      (refl, λ m. lookup_erased u rule t.saved m e)
act-no_controls u (Action.revert o) backends rule s t e f p none_saved other k =
    absurd (other o refl)
act-no_controls u Action.keep backends rule s t {b0} {bs} e f p none_saved other k =
    subst (IsReverted u (object rule) t)
      (sym (
        apply_rule-act u (no_controls backends) rule t e f
        ∙ ap (λ a. act u a (rule_model u rule) rule b0 bs t)
            (action_of_kept backends t.saved (rule_model u rule) (k ∙ none_saved))))
      (refl, λ m. lookup_kept u rule t.saved m (k ∙ none_saved))
