-- ===== src/Gateway/Refinement/Runs.antt =====
-- Sequences of calls of ApplyControls (gatewayreroute.go) on the rules of one route.
use ai_finops_operator.Prelude.{
  ◌≡◌, refl, sym, subst, ◌∙◌, ap, String, true, false, ◌==◌, ◌||◌, List, [], ◌∷◌, Option, none,
  some, arith, inl, inr, Bool-cases, Option-cases,
}
use ai_finops_operator.Prelude.Dict.{Dict, lookup}
use ai_finops_operator.Gateway.Json.{
  Json, Items, Fields, text, array, object, nil, cons, Unstructured,
}
use ai_finops_operator.Gateway.Reroute.{
  State, Controls, apply_rule, apply_rules, apply_controls, no_result, rule_model, first_backend,
}
use ai_finops_operator.Gateway.Reroute.Rules.{
  has_model, apply_rule_saved_frame, set_first_backend_same,
}
use ai_finops_operator.Gateway.Reroute.Revert.{AreRevertible, mentions}
use ai_finops_operator.Gateway.Reroute.RoundTrip.{apply_rules_saved_frame}
use ai_finops_operator.Gateway.Refinement.{
  Mark, step, shown_rule, shown_rules, Holds, HoldsAt, AllHold, shown_backend, apply_all, marks_of,
  kept,
}
use ai_finops_operator.Gateway.Refinement.Rounds.{
  apply_rule-Shows, has_model-shown_rule, Holds-frame,
}

mentions-shown_rules :
    (u : Unstructured) (marks : String → Mark) (m : String) (rules : Items)
    → mentions u m (shown_rules u marks rules) ≡ mentions u m rules
mentions-shown_rules u marks m nil = refl
mentions-shown_rules u marks m (cons r rs) =
    ap (λ b. b || mentions u m (shown_rules u marks rs)) (has_model-shown_rule u marks m r)
    ∙ ap (λ b. has_model u m r || b) (mentions-shown_rules u marks m rs)

-- A round on a rule leaves what the map holds of the other rules.
AllHold-frame :
    (u : Unstructured) (marks : String → Mark) (rules : Items) (saved saved' : Dict String)
    → ((m : String) → mentions u m rules ≡ true → lookup m saved' ≡ lookup m saved)
    → AllHold u marks rules saved
    → AllHold u marks rules saved'
AllHold-frame u marks nil saved saved' same h = tt
AllHold-frame u marks (cons r rs) saved saved' same h = (
  Holds-frame u marks r saved saved' (λ m k. same m (rw k refl)) h.0,
  AllHold-frame u marks rs saved saved' (λ m k. same m (ground (arith, k))) h.1,
)

apply_rules-Shows :
    (u : Unstructured) (c : Controls) (marks : String → Mark) (rules : Items) (s : State)
    → AreRevertible u rules
    → AllHold u marks rules s.saved
    → ((apply_rules u c (shown_rules u marks rules) s).0 ≡ shown_rules u (step c marks) rules)
      × AllHold u (step c marks) rules (apply_rules u c (shown_rules u marks rules) s).1.saved
unfolding apply_rules
apply_rules-Shows u c marks nil s p h = (refl, tt)
apply_rules-Shows u c marks (cons r rs) s p h =
    let one = apply_rule-Shows u c marks r s p.0 h.0 in
    let s₁ = (apply_rule u c (shown_rule u marks r) s).1 in
    let other : (m : String)
        → mentions u m rs ≡ true
        → has_model u m (shown_rule u marks r) ≡ false =
      λ m k. has_model-shown_rule u marks m r ∙ ground (arith, p.1 m) in
    let rest = apply_rules-Shows u c marks rs s₁ p.2 (
      AllHold-frame u marks rs s.saved s₁.saved
        (λ m k. apply_rule_saved_frame u c (shown_rule u marks r) s m (other m k)) h.1) in
    (
      cc (one.0, rest.0),
      (
        Holds-frame u (step c marks) r s₁.saved
            (apply_rules u c (shown_rules u marks rs) s₁).1.saved
            (λ m k.
              apply_rules_saved_frame u c (shown_rules u marks rs) s₁ m
                (mentions-shown_rules u marks m rs ∙ p.1 m k))
            one.1,
        rest.1,
      ),
    )

-- Before the first call every rule shows itself.
shown_rule-unmarked : (u : Unstructured) (r : Json) → shown_rule u (λ m. Mark.original) r ≡ r
unfolding shown_rule shown_backend
shown_rule-unmarked u Json.null = refl
shown_rule-unmarked u (Json.boolean b) = refl
shown_rule-unmarked u (Json.number n) = refl
shown_rule-unmarked u (text x) = refl
shown_rule-unmarked u (array xs) = refl
shown_rule-unmarked u (object rule) = elim (Bool-cases (rule_model u rule == "")) [
  | inl e ↦ rw e refl
  | inr e ↦ elim (Option-cases (first_backend u rule)) [
    | inl f ↦ rw (e, f) refl
    | inr (b, f) ↦ rw (e, f) (ap object (set_first_backend_same u rule f))
  ]
]

shown_rules-unmarked :
    (u : Unstructured) (rules : Items) → shown_rules u (λ m. Mark.original) rules ≡ rules
shown_rules-unmarked u nil = refl
shown_rules-unmarked u (cons r rs) = cc (shown_rule-unmarked u r, shown_rules-unmarked u rs)

Holds-unmarked : (u : Unstructured) (r : Json) → Holds u (λ m. Mark.original) r []
unfolding kept lookup
Holds-unmarked u Json.null = tt
Holds-unmarked u (Json.boolean b) = tt
Holds-unmarked u (Json.number n) = tt
Holds-unmarked u (text x) = tt
Holds-unmarked u (array xs) = tt
Holds-unmarked u (object rule) = at (first_backend u rule)
  where
    at : (o : Option (Fields × Items)) → HoldsAt u (λ m. Mark.original) rule o []
    at none = tt
    at (some b) = λ e. refl

AllHold-unmarked : (u : Unstructured) (rules : Items) → AllHold u (λ m. Mark.original) rules []
AllHold-unmarked u nil = tt
AllHold-unmarked u (cons r rs) = (Holds-unmarked u r, AllHold-unmarked u rs)

apply_all-Shows :
    (u : Unstructured) (cs : List Controls) (marks : String → Mark) (rules : Items)
    (saved : Dict String)
    → AreRevertible u rules
    → AllHold u marks rules saved
    → ((apply_all u (shown_rules u marks rules) saved cs).0
        ≡ shown_rules u (marks_of marks cs) rules)
      × AllHold u (marks_of marks cs) rules (apply_all u (shown_rules u marks rules) saved cs).1
unfolding apply_all marks_of apply_controls
apply_all-Shows u [] marks rules saved p h = (refl, h)
apply_all-Shows u (c ∷ cs) marks rules saved p h =
    let s : State = record { saved = saved; result = no_result } in
    let one = apply_rules-Shows u c marks rules s p h in
    let saved' = (apply_rules u c (shown_rules u marks rules) s).1.saved in
    subst
      (λ x.
        ((apply_all u x saved' cs).0 ≡ shown_rules u (marks_of (step c marks) cs) rules)
        × AllHold u (marks_of (step c marks) cs) rules (apply_all u x saved' cs).1)
      (sym one.0) (apply_all-Shows u cs (step c marks) rules saved' p one.1)

-- The calls on any rules leave the entries of the models that no rule is of alone.
apply_all_frame :
    (u : Unstructured) (cs : List Controls) (marks : String → Mark) (rules : Items)
    (saved : Dict String) (m : String)
    → AreRevertible u rules
    → AllHold u marks rules saved
    → mentions u m rules ≡ false
    → lookup m (apply_all u (shown_rules u marks rules) saved cs).1 ≡ lookup m saved
unfolding apply_all apply_controls
apply_all_frame u [] marks rules saved m p h k = refl
apply_all_frame u (c ∷ cs) marks rules saved m p h k =
    let s : State = record { saved = saved; result = no_result } in
    let one = apply_rules-Shows u c marks rules s p h in
    let saved' = (apply_rules u c (shown_rules u marks rules) s).1.saved in
    subst (λ x. lookup m (apply_all u x saved' cs).1 ≡ lookup m saved') (sym one.0)
      (apply_all_frame u cs (step c marks) rules saved' m p one.1 k)
    ∙ apply_rules_saved_frame u c (shown_rules u marks rules) s m
        (mentions-shown_rules u marks m rules ∙ k)

-- Any sequence of calls of `ApplyControls` on rules of distinct models, whose first backends have a
-- name and no body mutation, from an empty map: each rule is the original rule under the mark that the
-- controls give to its model one after the other; the map holds the name of the original backend of a
-- rule exactly while its model is marked, and nothing else.
pub apply_all-Refines :
    (u : Unstructured) (rules : Items) (cs : List Controls)
    → AreRevertible u rules
    → let marks = marks_of (λ m. Mark.original) cs in
      let after = apply_all u rules [] cs in
      (after.0 ≡ shown_rules u marks rules)
      × AllHold u marks rules after.1
      × ((m : String) → mentions u m rules ≡ false → lookup m after.1 ≡ none)
unfolding lookup
apply_all-Refines u rules cs p =
    let start = shown_rules-unmarked u rules in
    let held = AllHold-unmarked u rules in
    let run = apply_all-Shows u cs (λ m. Mark.original) rules [] p held in
    subst
      (λ x.
        ((apply_all u x [] cs).0 ≡ shown_rules u (marks_of (λ m. Mark.original) cs) rules)
        × AllHold u (marks_of (λ m. Mark.original) cs) rules (apply_all u x [] cs).1
        × ((m : String) → mentions u m rules ≡ false → lookup m (apply_all u x [] cs).1 ≡ none))
      start (run.0, run.1, λ m k. apply_all_frame u cs (λ m. Mark.original) rules [] m p held k)
