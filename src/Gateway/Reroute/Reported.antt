-- ===== src/Gateway/Reroute/Reported.antt =====
-- What the result of `ApplyControls` (internal/gatewayreroute/gatewayreroute.go) reports.
use ai_finops_operator.Prelude.{
  ◌≡◌, ◌⊎◌, subst, refl, sym, String, Bool, true, false, ◌||◌, ◌==◌, none, some, inl, inr, arith,
  eq_iff, Option-cases, Bool-cases,
}
use ai_finops_operator.Prelude.Dict.{Dict, lookup, insert, lookup-insert}
use ai_finops_operator.Gateway.Json.{
  Json, Items, Fields, text, array, object, nil, cons, Unstructured,
}
use ai_finops_operator.Gateway.Reroute.{
  State, Controls, Action, is_set, value_of, rule_model, first_backend, action_of, acted_state, act,
  apply_rule, apply_rules, apply_controls, no_result,
}
use ai_finops_operator.Gateway.Reroute.Rules.{
  has_model, apply_rule-act, apply_rule-modelless, apply_rule-no_backend,
}
use ai_finops_operator.Gateway.Reroute.Revert.{mentions}

-- The model is to be rerouted to one that a known backend serves.
abbrev pub IsReroutable : Controls → String → Type 0
IsReroutable c m =
    (target : String) × (lookup m c.desired ≡ some target)
    × ((value_of c.backends target == "") ≡ false)

-- The model is to be blocked, and not to be rerouted.
abbrev pub IsBlockable : Controls → String → Type 0
IsBlockable c m = (lookup m c.desired ≡ none) × (is_set c.blocked m ≡ true)

-- What a state reports beyond an earlier one is allowed, and of a model that `named` holds of.
Reports : Controls → (String → Bool) → State → State → Type 0
Reports c named s after =
    ((m : String)
      → is_set after.result.rerouted m ≡ true
      → (is_set s.result.rerouted m ≡ true) ⊎ (named m ≡ true) × IsReroutable c m)
    × ((m : String)
        → is_set after.result.blocked m ≡ true
        → (is_set s.result.blocked m ≡ true) ⊎ (named m ≡ true) × IsBlockable c m)

Reports-refl : (c : Controls) (named : String → Bool) (s : State) → Reports c named s s
unfolding Reports
Reports-refl c named s = ((λ m h. inl h), (λ m h. inl h))

is_set-insert :
    (k m : String) (d : Dict Bool)
    → is_set (insert k true d) m ≡ true
    → (is_set d m ≡ true) ⊎ (k ≡ m)
is_set-insert k m d h = ground (arith, lookup-insert k m true d, eq_iff k m)

own :
    (u : Unstructured) (rule : Fields) (m : String)
    → rule_model u rule ≡ m
    → (rule_model u rule == "") ≡ false
    → has_model u m (object rule) ≡ true
own u rule m same e =
    ground (arith, eq_iff (rule_model u rule) m, eq_iff m "", eq_iff (rule_model u rule) "")

-- What the choice of an action says of the controls.
reroutable :
    (c : Controls) (saved : Dict String) (model : String) {target backend : String}
    → action_of c saved model ≡ Action.reroute target backend
    → IsReroutable c model
unfolding action_of
reroutable c saved model {target} a = elim (Option-cases (lookup model c.desired)) [
  | inl d ↦ ground arith
  | inr (t, d) ↦ (t, d, ground arith)
]

blockable :
    (c : Controls) (saved : Dict String) (model : String)
    → action_of c saved model ≡ Action.block
    → IsBlockable c model
unfolding action_of
blockable c saved model a = ground arith

act-Reports :
    (u : Unstructured) (c : Controls) (action : Action) (rule b0 : Fields) (bs : Items) (s : State)
    → (rule_model u rule == "") ≡ false
    → action_of c s.saved (rule_model u rule) ≡ action
    → Reports c
        (λ m. has_model u m (object rule))
        s
        (act u action (rule_model u rule) rule b0 bs s).1
unfolding Reports act acted_state
act-Reports u c (Action.reroute t b) rule b0 bs s e a = (
  (λ m h. elim (is_set-insert (rule_model u rule) m s.result.rerouted h) [
    | inl old ↦ inl old
    | inr same ↦ inr (
      own u rule m same e,
      subst (IsReroutable c) same (reroutable c s.saved (rule_model u rule) a),
    )
  ]),
  (λ m h. inl h),
)
act-Reports u c Action.block rule b0 bs s e a = (
  (λ m h. inl h),
  (λ m h. elim (is_set-insert (rule_model u rule) m s.result.blocked h) [
    | inl old ↦ inl old
    | inr same ↦ inr (
      own u rule m same e,
      subst (IsBlockable c) same (blockable c s.saved (rule_model u rule) a),
    )
  ]),
)
act-Reports u c (Action.revert o) rule b0 bs s e a = ((λ m h. inl h), (λ m h. inl h))
act-Reports u c Action.keep rule b0 bs s e a = ((λ m h. inl h), (λ m h. inl h))

apply_rule-Reports :
    (u : Unstructured) (c : Controls) (r : Json) (s : State)
    → Reports c (λ m. has_model u m r) s (apply_rule u c r s).1
apply_rule-Reports u c Json.null s = unfold apply_rule in Reports-refl c _ s
apply_rule-Reports u c (Json.boolean b) s = unfold apply_rule in Reports-refl c _ s
apply_rule-Reports u c (Json.number n) s = unfold apply_rule in Reports-refl c _ s
apply_rule-Reports u c (text t) s = unfold apply_rule in Reports-refl c _ s
apply_rule-Reports u c (array xs) s = unfold apply_rule in Reports-refl c _ s
apply_rule-Reports u c (object rule) s = elim (Bool-cases (rule_model u rule == "")) [
  | inl e ↦
      subst (λ x. Reports c (λ m. has_model u m (object rule)) s x.1)
        (sym (apply_rule-modelless u c rule s e)) (Reports-refl c _ s)
  | inr e ↦ elim (Option-cases (first_backend u rule)) [
    | inl f ↦
        subst (λ x. Reports c (λ m. has_model u m (object rule)) s x.1)
          (sym (apply_rule-no_backend u c rule s f)) (Reports-refl c _ s)
    | inr (b, f) ↦
        subst (λ x. Reports c (λ m. has_model u m (object rule)) s x.1)
          (sym (apply_rule-act u c rule s e f))
          (act-Reports u c (action_of c s.saved (rule_model u rule)) rule b.0 b.1 s e refl)
  ]
]

joined :
    (a b : Bool) {P Q R : Type 0}
    → (P → Q ⊎ (a ≡ true) × R)
    → P ⊎ (b ≡ true) × R
    → Q ⊎ ((a || b) ≡ true) × R
joined a b k (inl p) = elim (k p) [ inl q ↦ inl q | inr r ↦ inr (ground arith, r.1) ]
joined a b k (inr r) = inr (ground arith, r.1)

fresh : {P : Type 0} → (false ≡ true) ⊎ P → P
fresh (inl e) = ground arith
fresh (inr p) = p

apply_rules-Reports :
    (u : Unstructured) (c : Controls) (rules : Items) (s : State)
    → Reports c (λ m. mentions u m rules) s (apply_rules u c rules s).1
unfolding apply_rules Reports
apply_rules-Reports u c nil s = ((λ m h. inl h), (λ m h. inl h))
apply_rules-Reports u c (cons r rs) s =
    let one = apply_rule-Reports u c r s in
    let rest = apply_rules-Reports u c rs (apply_rule u c r s).1 in
    (
      (λ m h. joined (has_model u m r) (mentions u m rs) (one.0 m) (rest.0 m h)),
      (λ m h. joined (has_model u m r) (mentions u m rs) (one.1 m) (rest.1 m h)),
    )

-- The models that `ApplyControls` reports as rerouted are models of some rule, and are to be
-- rerouted to a model with a known backend; the models that it reports as blocked are models of
-- some rule, are to be blocked and are not to be rerouted.
pub reported-IsAllowed :
    (u : Unstructured) (rules : Items) (saved desired : Dict String) (blocked : Dict Bool)
    (backends : Dict String) (m : String)
    → let c : Controls = record { desired = desired; blocked = blocked; backends = backends } in
      let result = (apply_controls u rules saved desired blocked backends).1.result in
      (is_set result.rerouted m ≡ true → (mentions u m rules ≡ true) × IsReroutable c m)
      × (is_set result.blocked m ≡ true → (mentions u m rules ≡ true) × IsBlockable c m)
unfolding apply_controls Reports lookup
reported-IsAllowed u rules saved desired blocked backends m =
    let c : Controls = record { desired = desired; blocked = blocked; backends = backends } in
    let all = apply_rules-Reports u c rules (record { saved = saved; result = no_result }) in
    ((λ h. fresh (all.0 m h)), (λ h. fresh (all.1 m h)))
