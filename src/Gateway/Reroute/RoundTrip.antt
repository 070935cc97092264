-- ===== src/Gateway/Reroute/RoundTrip.antt =====
-- Applying controls and then none, over all the rules of a route
-- (internal/gatewayreroute/gatewayreroute.go).
use ai_finops_operator.Prelude.{
  ◌≡◌, ◌≢◌, subst, refl, sym, ◌∙◌, ap, String, Bool, true, false, not, ◌&&◌, ◌||◌, ◌==◌, [], ◌∷◌,
  Option, none, some, inl, inr, if◌then◌else◌, arith, eq_iff, Option-cases, Bool-cases, ||-eq-false,
}
use ai_finops_operator.Prelude.Dict.{Dict, lookup}
use ai_finops_operator.Gateway.Json.{
  Json, Items, Fields, text, array, object, nil, cons, Unstructured,
}
use ai_finops_operator.Gateway.Reroute.{
  State, Controls, Action, rule_model, first_backend, action_of, apply_rule, apply_rules,
  apply_controls, no_result,
}
use ai_finops_operator.Gateway.Reroute.Rules.{
  has_model, apply_rule-act, apply_rule-modelless, apply_rule-no_backend, apply_rule_saved_frame,
}
use ai_finops_operator.Gateway.Reroute.Revert.{
  IsPlain, IsRevertible, AreRevertible, mentions, no_controls, IsReverted, act-no_controls,
}

action_of_unsaved :
    (c : Controls) (saved : Dict String) (model : String)
    → lookup model saved ≡ none
    → (o : String) → action_of c saved model ≢ Action.revert o
unfolding action_of
action_of_unsaved c saved model h o e = ground arith

no_model : (m : String) (v : Option String) → v ≡ (if "" == m && not (m == "") then none else v)
no_model m v = ground (arith, eq_iff "" m, eq_iff m "")

modelless :
    (u : Unstructured) (rule : Fields) (m : String) (v : Option String)
    → (rule_model u rule == "") ≡ true
    → v ≡ (if has_model u m (object rule) then none else v)
modelless u rule m v e =
    ground (arith, eq_iff (rule_model u rule) m, eq_iff (rule_model u rule) "", eq_iff m "")

-- A rule that every round skips.
skipped-IsReverted :
    (u : Unstructured) (c : Controls) (backends : Dict String) (r : Json) (s t : State)
    → ((d : Controls) (x : State) → apply_rule u d r x ≡ (r, x))
    → ((m : String) → lookup m t.saved ≡ (if has_model u m r then none else lookup m t.saved))
    → IsReverted u r t (apply_rule u (no_controls backends) (apply_rule u c r s).0 t)
unfolding IsReverted
skipped-IsReverted u c backends r s t skip agree =
    subst (IsReverted u r t)
      (sym (
        ap (λ x. apply_rule u (no_controls backends) x.0 t) (skip c s)
        ∙ skip (no_controls backends) t))
      (refl, agree)

-- The round trip of one rule.
apply_rule-IsReverted :
    (u : Unstructured) (c : Controls) (backends : Dict String) (r : Json) (s t : State)
    → IsRevertible u r
    → ((m : String) → has_model u m r ≡ true → lookup m s.saved ≡ none)
    → ((m : String)
        → has_model u m r ≡ true
        → lookup m t.saved ≡ lookup m (apply_rule u c r s).1.saved)
    → IsReverted u r t (apply_rule u (no_controls backends) (apply_rule u c r s).0 t)
apply_rule-IsReverted u c backends Json.null s t p fresh agree =
    skipped-IsReverted u c backends Json.null s t (λ d x. unfold apply_rule in refl)
      (λ m. no_model m (lookup m t.saved))
apply_rule-IsReverted u c backends (Json.boolean b) s t p fresh agree =
    skipped-IsReverted u c backends (Json.boolean b) s t (λ d x. unfold apply_rule in refl)
      (λ m. no_model m (lookup m t.saved))
apply_rule-IsReverted u c backends (Json.number n) s t p fresh agree =
    skipped-IsReverted u c backends (Json.number n) s t (λ d x. unfold apply_rule in refl)
      (λ m. no_model m (lookup m t.saved))
apply_rule-IsReverted u c backends (text x) s t p fresh agree =
    skipped-IsReverted u c backends (text x) s t (λ d y. unfold apply_rule in refl)
      (λ m. no_model m (lookup m t.saved))
apply_rule-IsReverted u c backends (array xs) s t p fresh agree =
    skipped-IsReverted u c backends (array xs) s t (λ d x. unfold apply_rule in refl)
      (λ m. no_model m (lookup m t.saved))
apply_rule-IsReverted u c backends (object rule) s t p fresh agree =
    elim (Bool-cases (rule_model u rule == "")) [
      | inl e ↦
          skipped-IsReverted u c backends (object rule) s t
            (λ d x. apply_rule-modelless u d rule x e)
            (λ m. modelless u rule m (lookup m t.saved) e)
      | inr e ↦ elim (Option-cases (first_backend u rule)) [
        | inl f ↦
            skipped-IsReverted u c backends (object rule) s t
              (λ d x. apply_rule-no_backend u d rule x f)
              (λ m. unsaved m _ (λ h.
                agree m h
                ∙ ap (λ x. lookup m x.1.saved) (apply_rule-no_backend u c rule s f)
                ∙ fresh m h))
        | inr (b, f) ↦
            let model = rule_model u rule in
            let own : has_model u model (object rule) ≡ true =
              ground (arith, e, eq_iff model "", eq_iff model model) in
            let step = apply_rule-act u c rule s e f in
            subst (λ x. IsReverted u (object rule) t (apply_rule u (no_controls backends) x.0 t))
              (sym step)
              (act-no_controls u (action_of c s.saved model) backends rule s t e f
                (subst (λ o. elim o [ none ↦ Unit | some b ↦ IsPlain b.0 ]) f p) (fresh model own)
                (action_of_unsaved c s.saved model (fresh model own))
                (agree model own ∙ ap (λ x. lookup model x.1.saved) step))
      ]
    ]
  where
    unsaved :
        (m : String) (v : Option String)
        → (has_model u m (object rule) ≡ true → v ≡ none)
        → v ≡ (if has_model u m (object rule) then none else v)
    unsaved m v h = ground (arith, h)

-- Rules that do not mention a model leave its entry alone.
pub apply_rules_saved_frame :
    (u : Unstructured) (c : Controls) (rules : Items) (s : State) (m : String)
    → mentions u m rules ≡ false
    → lookup m (apply_rules u c rules s).1.saved ≡ lookup m s.saved
unfolding apply_rules
apply_rules_saved_frame u c nil s m h = refl
apply_rules_saved_frame u c (cons r rs) s m h =
    let (h₁, h₂) = ||-eq-false (has_model u m r) (mentions u m rs) h in
    apply_rules_saved_frame u c rs (apply_rule u c r s).1 m h₂ ∙ apply_rule_saved_frame u c r s m h₁

AreReverted : Unstructured → Items → State → Items × State → Type 0
AreReverted u rules t after =
    (after.0 ≡ rules)
    × ((m : String)
        → lookup m after.1.saved ≡ (if mentions u m rules then none else lookup m t.saved))

or_right : (a b : Bool) → b ≡ true → (a || b) ≡ true
or_right true b h = refl
or_right false b h = h

both_erased :
    (a b : Bool) {x y : Option String} (z : Option String)
    → x ≡ (if b then none else y)
    → y ≡ (if a then none else z)
    → x ≡ (if a || b then none else z)
both_erased true true z h k = h
both_erased true false z h k = h ∙ k
both_erased false true z h k = h
both_erased false false z h k = h ∙ k

apply_rules-AreReverted :
    (u : Unstructured) (c : Controls) (backends : Dict String) (rules : Items) (s t : State)
    → AreRevertible u rules
    → ((m : String) → mentions u m rules ≡ true → lookup m s.saved ≡ none)
    → ((m : String)
        → mentions u m rules ≡ true
        → lookup m t.saved ≡ lookup m (apply_rules u c rules s).1.saved)
    → AreReverted u rules t (apply_rules u (no_controls backends) (apply_rules u c rules s).0 t)
unfolding AreReverted apply_rules IsReverted
apply_rules-AreReverted u c backends nil s t p fresh agree = (refl, λ m. refl)
apply_rules-AreReverted u c backends (cons r rs) s t p fresh agree =
    let s₁ = (apply_rule u c r s).1 in
    let one =
      apply_rule-IsReverted u c backends r s t p.0 (λ m h. fresh m (rw h refl))
        (λ m h. agree m (rw h refl) ∙ apply_rules_saved_frame u c rs s₁ m (p.1 m h)) in
    let t₁ = (apply_rule u (no_controls backends) (apply_rule u c r s).0 t).1 in
    let later : (m : String) → mentions u m rs ≡ true → has_model u m r ≡ false =
      λ m h. ground (arith, p.1 m) in
    let rest =
      apply_rules-AreReverted u c backends rs s₁ t₁ p.2
        (λ m h. apply_rule_saved_frame u c r s m (later m h) ∙ fresh m (or_right _ _ h))
        (λ m h. one.1 m ∙ (rw (later m h) (agree m (or_right _ _ h)))) in
    (
      cc (one.0, rest.0),
      λ m. both_erased (has_model u m r) (mentions u m rs) _ (rest.1 m) (one.1 m),
    )

empty_of_lookup : (m : Dict String) → ((k : String) → lookup k m ≡ none) → m ≡ []
unfolding lookup
empty_of_lookup [] h = refl
empty_of_lookup ((k, v) ∷ m) h = ground (arith, h k, eq_iff k k)

gone :
    (b : Bool) {x y : Option String}
    → x ≡ (if b then none else y)
    → (b ≡ false → y ≡ none)
    → x ≡ none
gone true h k = h
gone false h k = h ∙ k refl

-- `ApplyControls` on rules of distinct models, whose first backends have a name and no body mutation,
-- with nothing saved and any controls, followed by `ApplyControls` without controls on the rules and
-- the saved backends that it left, gives back the rules as they were and an empty map.
pub revert_round_trip :
    (u : Unstructured) (rules : Items) (desired : Dict String) (blocked : Dict Bool)
    (backends backends' : Dict String)
    → AreRevertible u rules
    → let first = apply_controls u rules [] desired blocked backends in
      let second = apply_controls u first.0 first.1.saved [] [] backends' in
      (second.0 ≡ rules) × (second.1.saved ≡ [])
unfolding apply_controls AreReverted lookup
revert_round_trip u rules desired blocked backends backends' p =
    let c : Controls = record { desired = desired; blocked = blocked; backends = backends } in
    let s : State = record { saved = []; result = no_result } in
    let first = apply_rules u c rules s in
    let t : State = record { saved = first.1.saved; result = no_result } in
    let back = apply_rules-AreReverted u c backends' rules s t p (λ m h. refl) (λ m h. refl) in
    (
      back.0,
      empty_of_lookup _
          (λ m. gone (mentions u m rules) (back.1 m) (apply_rules_saved_frame u c rules s m)),
    )
