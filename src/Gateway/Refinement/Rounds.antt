-- ===== src/Gateway/Refinement/Rounds.antt =====
-- One round of the loop of ApplyControls (gatewayreroute.go) on a rule that shows a mark.
use ai_finops_operator.Prelude.{
  ◌≡◌, refl, sym, subst, ◌∙◌, ap, inl, inr, String, true, false, ◌==◌, Option, none, some, arith,
  eq_iff, Bool-cases, Option-cases, not, ◌&&◌,
}
use ai_finops_operator.Prelude.Dict.{Dict, lookup}
use ai_finops_operator.Gateway.Json.{
  Json, Items, Fields, text, array, object, cons, put, Unstructured, string_of, put_twice,
}
use ai_finops_operator.Gateway.Reroute.{
  State, Controls, Action, rule_model, first_backend, set_first_backend, action_of, acted_backend,
  acted_state, act, apply_rule,
}
use ai_finops_operator.Gateway.Reroute.Rules.{
  has_model, rule_model-set_first_backend, first_backend-set_first_backend, apply_rule-act,
  apply_rule-modelless, apply_rule-no_backend,
}
use ai_finops_operator.Gateway.Reroute.Revert.{IsPlain, IsRevertible}
use ai_finops_operator.Gateway.Refinement.{
  Mark, mark_step, step, shown_backend, kept, shown_rule, Holds, HoldsAt,
}
use ai_finops_operator.Gateway.Refinement.Backends.{
  mark_after, IsNamed, acted_backend_shown, action_of-revert, action_of-mark, acted_state-kept,
}

-- Writing the first backend twice is writing the second.
set_first_backend_twice :
    (u : Unstructured) (rule b b' : Fields) (bs : Items)
    → set_first_backend u (set_first_backend u rule b bs) b' bs ≡ set_first_backend u rule b' bs
unfolding set_first_backend
set_first_backend_twice u rule b b' bs =
    u.set_nested_slice_law (u.set_nested_slice rule (cons (object b) bs) "backendRefs")
      (cons (object b') bs) "backendRefs"
    ∙ ap (put "backendRefs" (array (cons (object b') bs)))
        (u.set_nested_slice_law rule (cons (object b) bs) "backendRefs")
    ∙ put_twice "backendRefs" (array (cons (object b) bs)) (array (cons (object b') bs)) rule
    ∙ sym (u.set_nested_slice_law rule (cons (object b') bs) "backendRefs")

-- The rule and the state after an action that writes.
act_written :
    (u : Unstructured) (a : Action) (model : String) (rule b0 : Fields) (bs : Items) (k : Mark)
    (s : State) (name : String)
    → IsNamed b0 name
    → ((o : String) → a ≡ Action.revert o → o ≡ name)
    → ◌≡◌ {A = Json × State}
        (
          object (
              set_first_backend u
                (set_first_backend u rule (shown_backend k b0) bs)
                (acted_backend a (shown_backend k b0))
                bs),
          acted_state u a model (shown_backend k b0) s,
        )
        (
          object (set_first_backend u rule (shown_backend (mark_after a k) b0) bs),
          acted_state u a model (shown_backend k b0) s,
        )
act_written u a model rule b0 bs k s name p h =
    ap (λ x. (object x, acted_state u a model (shown_backend k b0) s))
      (set_first_backend_twice u rule (shown_backend k b0) (acted_backend a (shown_backend k b0)) bs
        ∙ ap (λ x. set_first_backend u rule x bs) (acted_backend_shown a k b0 name p h))

-- An action on a rule that shows a mark.
act_shown :
    (u : Unstructured) (a : Action) (model : String) (rule b0 : Fields) (bs : Items) (k : Mark)
    (s : State) (name : String)
    → IsNamed b0 name
    → ((o : String) → a ≡ Action.revert o → o ≡ name)
    → act u a model (set_first_backend u rule (shown_backend k b0) bs) (shown_backend k b0) bs s ≡ (
      object (set_first_backend u rule (shown_backend (mark_after a k) b0) bs),
      acted_state u a model (shown_backend k b0) s,
    )
unfolding act acted_state mark_after
act_shown u Action.keep model rule b0 bs k s name p h = refl
act_shown u (Action.reroute t b) model rule b0 bs k s name p h =
    act_written u (Action.reroute t b) model rule b0 bs k s name p h
act_shown u Action.block model rule b0 bs k s name p h =
    act_written u Action.block model rule b0 bs k s name p h
act_shown u (Action.revert o) model rule b0 bs k s name p h =
    act_written u (Action.revert o) model rule b0 bs k s name p h

-- What a round leaves of a rule: it shows the next mark, and the map holds what it should.
abbrev pub Shows : Unstructured → (String → Mark) → Json → Json × State → Type 0
Shows u marks r after = (after.0 ≡ shown_rule u marks r) × Holds u marks r after.1.saved

-- The round on a rule that has a model and a backend.
round_on :
    (u : Unstructured) (c : Controls) (model : String) (rule b0 : Fields) (bs : Items) (k : Mark)
    (s : State) (name : String)
    → (model == "") ≡ false
    → rule_model u rule ≡ model
    → IsNamed b0 name
    → lookup model s.saved ≡ kept k name
    → let after = apply_rule u c (object (set_first_backend u rule (shown_backend k b0) bs)) s in
      (after.0 ≡ object (set_first_backend u rule (shown_backend (mark_step c model k) b0) bs))
      × (lookup model after.1.saved ≡ kept (mark_step c model k) name)
round_on u c model rule b0 bs k s name e m p h =
    let a = action_of c s.saved model in
    let b = shown_backend k b0 in
    let same : rule_model u (set_first_backend u rule b bs) ≡ model =
      rule_model-set_first_backend u rule b bs ∙ m in
    let next = action_of-mark c s.saved model k name h in
    let run =
      apply_rule-act u c (set_first_backend u rule b bs) s (rw same e)
        (first_backend-set_first_backend u rule b bs)
      ∙ ap (λ x. act u (action_of c s.saved x) x (set_first_backend u rule b bs) b bs s) same
      ∙ act_shown u a model rule b0 bs k s name p
          (λ o x. action_of-revert c s.saved model k name o h x) in
    (
      ap (λ x. x.0) run ∙ ap (λ x. object (set_first_backend u rule (shown_backend x b0) bs)) next,
      ap (λ x. lookup model x.1.saved) run
          ∙ acted_state-kept u a model k b0 s name p h
          ∙ ap (λ x. kept x name) next,
    )

-- A rule that no round looks at shows itself.
shown_modelless :
    (u : Unstructured) (marks : String → Mark) (rule : Fields)
    → (rule_model u rule == "") ≡ true
    → shown_rule u marks (object rule) ≡ object rule
unfolding shown_rule
shown_modelless u marks rule e = rw e refl

shown_no_backend :
    (u : Unstructured) (marks : String → Mark) (rule : Fields)
    → first_backend u rule ≡ none
    → shown_rule u marks (object rule) ≡ object rule
unfolding shown_rule
shown_no_backend u marks rule f = elim (Bool-cases (rule_model u rule == "")) [
  | inl e ↦ rw e refl
  | inr e ↦ rw (e, f) refl
]

shown_marked :
    (u : Unstructured) (marks : String → Mark) (rule : Fields) {b0 : Fields} {bs : Items}
    → (rule_model u rule == "") ≡ false
    → first_backend u rule ≡ some (b0, bs)
    → shown_rule u marks (object rule)
      ≡ object (set_first_backend u rule (shown_backend (marks (rule_model u rule)) b0) bs)
unfolding shown_rule
shown_marked u marks rule e f = rw (e, f) refl

-- A rule that shows itself under all marks, and that rounds skip.
skipped-Shows :
    (u : Unstructured) (c : Controls) (marks : String → Mark) (r : Json) (s : State)
    → ((d : String → Mark) → shown_rule u d r ≡ r)
    → apply_rule u c r s ≡ (r, s)
    → Holds u (step c marks) r s.saved
    → Shows u (step c marks) r (apply_rule u c (shown_rule u marks r) s)
skipped-Shows u c marks r s itself skip holds =
    let run = ap (λ x. apply_rule u c x s) (itself marks) ∙ skip in
    (
      ap (λ x. x.0) run ∙ sym (itself (step c marks)),
      subst (λ x. Holds u (step c marks) r x.1.saved) (sym run) holds,
    )

HoldsAt-modelless :
    (u : Unstructured) (marks : String → Mark) (rule : Fields) (saved : Dict String)
    (o : Option (Fields × Items))
    → (rule_model u rule == "") ≡ true
    → HoldsAt u marks rule o saved
HoldsAt-modelless u marks rule saved none e = tt
HoldsAt-modelless u marks rule saved (some b) e = λ k. cc

name_of_plain :
    (u : Unstructured) (b0 : Fields) (p : IsPlain b0) → u.nested_string b0 "name" ≡ p.0.0
name_of_plain u b0 p = u.nested_string_law b0 "name" ∙ ap string_of p.0.1

marked-Shows :
    (u : Unstructured) (c : Controls) (marks : String → Mark) (rule : Fields) (s : State)
    {b : Fields × Items}
    → (rule_model u rule == "") ≡ false
    → first_backend u rule ≡ some b
    → IsPlain b.0
    → HoldsAt u marks rule (some b) s.saved
    → Shows u (step c marks) (object rule) (apply_rule u c (shown_rule u marks (object rule)) s)
marked-Shows u c marks rule s {b} e f p h =
    let model = rule_model u rule in
    let name = u.nested_string b.0 "name" in
    let named : IsNamed b.0 name =
      (p.0.1 ∙ ap (λ x. some (text x)) (sym (name_of_plain u b.0 p)), p.1) in
    let (rules, holds) = round_on u c model rule b.0 b.1 (marks model) s name e refl named (h e) in
    let shown : Json = object (set_first_backend u rule (shown_backend (marks model) b.0) b.1) in
    let now = ap (λ x. apply_rule u c x s) (shown_marked u marks rule e f) in
    (
      ap (λ x. x.0) now ∙ rules ∙ sym (shown_marked u (step c marks) rule e f),
      subst (λ x. HoldsAt u (step c marks) rule (first_backend u rule) x.1.saved) (sym now)
          (subst (λ o. HoldsAt u (step c marks) rule o (apply_rule u c shown s).1.saved) (sym f)
            (λ k. holds)),
    )

pub apply_rule-Shows :
    (u : Unstructured) (c : Controls) (marks : String → Mark) (r : Json) (s : State)
    → IsRevertible u r
    → Holds u marks r s.saved
    → Shows u (step c marks) r (apply_rule u c (shown_rule u marks r) s)
unfolding apply_rule shown_rule
apply_rule-Shows u c marks Json.null s p h = (refl, tt)
apply_rule-Shows u c marks (Json.boolean b) s p h = (refl, tt)
apply_rule-Shows u c marks (Json.number n) s p h = (refl, tt)
apply_rule-Shows u c marks (text x) s p h = (refl, tt)
apply_rule-Shows u c marks (array xs) s p h = (refl, tt)
apply_rule-Shows u c marks (object rule) s p h = elim (Bool-cases (rule_model u rule == "")) [
  | inl e ↦
      skipped-Shows u c marks (object rule) s (λ d. shown_modelless u d rule e)
        (apply_rule-modelless u c rule s e)
        (HoldsAt-modelless u (step c marks) rule s.saved (first_backend u rule) e)
  | inr e ↦ elim (Option-cases (first_backend u rule)) [
    | inl f ↦
        skipped-Shows u c marks (object rule) s (λ d. shown_no_backend u d rule f)
          (apply_rule-no_backend u c rule s f)
          (subst (λ o. HoldsAt u (step c marks) rule o s.saved) (sym f) tt)
    | inr (b, f) ↦
        marked-Shows u c marks rule s e f
          (subst (λ o. elim o [ none ↦ Unit | some b ↦ IsPlain b.0 ]) f p)
          (subst (λ o. HoldsAt u marks rule o s.saved) f h)
  ]
]

pub has_model-shown_rule :
    (u : Unstructured) (marks : String → Mark) (m : String) (r : Json)
    → has_model u m (shown_rule u marks r) ≡ has_model u m r
unfolding shown_rule
has_model-shown_rule u marks m Json.null = refl
has_model-shown_rule u marks m (Json.boolean b) = refl
has_model-shown_rule u marks m (Json.number n) = refl
has_model-shown_rule u marks m (text x) = refl
has_model-shown_rule u marks m (array xs) = refl
has_model-shown_rule u marks m (object rule) = elim (Bool-cases (rule_model u rule == "")) [
  | inl e ↦ ap (has_model u m) (shown_modelless u marks rule e)
  | inr e ↦ elim (Option-cases (first_backend u rule)) [
    | inl f ↦ ap (has_model u m) (shown_no_backend u marks rule f)
    | inr (b, f) ↦
        ap (has_model u m) (shown_marked u marks rule e f)
        ∙ ap (λ x. x == m && not (m == ""))
            (rule_model-set_first_backend u rule (shown_backend (marks (rule_model u rule)) b.0)
              b.1)
  ]
]

-- A map with the same entry for the model of the rule.
pub Holds-frame :
    (u : Unstructured) (marks : String → Mark) (r : Json) (saved saved' : Dict String)
    → ((m : String) → has_model u m r ≡ true → lookup m saved' ≡ lookup m saved)
    → Holds u marks r saved
    → Holds u marks r saved'
Holds-frame u marks Json.null saved saved' same h = tt
Holds-frame u marks (Json.boolean b) saved saved' same h = tt
Holds-frame u marks (Json.number n) saved saved' same h = tt
Holds-frame u marks (text x) saved saved' same h = tt
Holds-frame u marks (array xs) saved saved' same h = tt
Holds-frame u marks (object rule) saved saved' same h = at (first_backend u rule) h
  where
    at :
        (o : Option (Fields × Items)) → HoldsAt u marks rule o saved → HoldsAt u marks rule o saved'
    at none k = tt
    at (some b) k = λ e.
        same (rule_model u rule) (
          ground (
            arith,
            e,
            eq_iff (rule_model u rule) "",
            eq_iff (rule_model u rule) (rule_model u rule),
          ))
        ∙ k e
