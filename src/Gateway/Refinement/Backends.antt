-- ===== src/Gateway/Refinement/Backends.antt =====
-- An action of gatewayreroute.go on a backend that already shows a mark.
use ai_finops_operator.Prelude.{◌≡◌, refl, ◌∙◌, ap, String, none, some, arith, eq_iff}
use ai_finops_operator.Prelude.Dict.{Dict, lookup, contains, lookup-erase}
use ai_finops_operator.Gateway.Json.{
  Fields, text, get, put, remove, Unstructured, get-put, put_twice, put_comm, put_same,
  remove-fresh, remove-put,
}
use ai_finops_operator.Gateway.Reroute.{
  State, Controls, Action, body_mutation, block_backend_name, remember, action_of, acted_backend,
  acted_state,
}
use ai_finops_operator.Gateway.Reroute.Revert.{lookup-remember}
use ai_finops_operator.Gateway.Refinement.{Mark, mark_step, shown_backend, kept}

-- The mark after an action.
unfoldable pub mark_after : Action → Mark → Mark
mark_after (Action.reroute target backend) k = Mark.rerouted target backend
mark_after Action.block k = Mark.blocked
mark_after (Action.revert o) k = Mark.original
mark_after Action.keep k = k

abbrev pub IsNamed : Fields → String → Type 0
IsNamed b0 name = (get "name" b0 ≡ some (text name)) × (get "bodyMutation" b0 ≡ none)

-- Writing the name of a backend that was rerouted.
rename_rerouted :
    (b0 : Fields) (target backend name : String)
    → put "name"
        (text name)
        (put "bodyMutation" (body_mutation target) (put "name" (text backend) b0))
      ≡ put "bodyMutation" (body_mutation target) (put "name" (text name) b0)
rename_rerouted b0 target backend name =
    put_comm "name" "bodyMutation" (text name) (body_mutation target) (put "name" (text backend) b0)
      refl (get-put "name" "name" (text backend) b0)
    ∙ ap (put "bodyMutation" (body_mutation target))
        (put_twice "name" (text backend) (text name) b0)

named_fresh :
    (b0 : Fields) (name : String)
    → get "bodyMutation" b0 ≡ none
    → get "bodyMutation" (put "name" (text name) b0) ≡ none
named_fresh b0 name h = get-put "name" "bodyMutation" (text name) b0 ∙ h

-- Taking the body mutation away after writing a name.
renamed :
    (k : Mark) (b0 : Fields) (name : String)
    → get "bodyMutation" b0 ≡ none
    → remove "bodyMutation" (put "name" (text name) (shown_backend k b0))
      ≡ put "name" (text name) b0
unfolding shown_backend
renamed Mark.original b0 name h =
    remove-fresh "bodyMutation" (put "name" (text name) b0) (named_fresh b0 name h)
renamed Mark.blocked b0 name h =
    ap (remove "bodyMutation") (put_twice "name" (text block_backend_name) (text name) b0)
    ∙ remove-fresh "bodyMutation" (put "name" (text name) b0) (named_fresh b0 name h)
renamed (Mark.rerouted t b) b0 name h =
    ap (remove "bodyMutation") (rename_rerouted b0 t b name)
    ∙ remove-put "bodyMutation" (body_mutation t) (put "name" (text name) b0)
        (named_fresh b0 name h)

rerouted_again :
    (k : Mark) (b0 : Fields) (target backend : String)
    → put "bodyMutation" (body_mutation target) (put "name" (text backend) (shown_backend k b0))
      ≡ put "bodyMutation" (body_mutation target) (put "name" (text backend) b0)
unfolding shown_backend
rerouted_again Mark.original b0 target backend = refl
rerouted_again Mark.blocked b0 target backend =
    ap (put "bodyMutation" (body_mutation target))
      (put_twice "name" (text block_backend_name) (text backend) b0)
rerouted_again (Mark.rerouted t b) b0 target backend =
    ap (put "bodyMutation" (body_mutation target)) (rename_rerouted b0 t b backend)
    ∙ put_twice "bodyMutation" (body_mutation t) (body_mutation target)
        (put "name" (text backend) b0)

-- The action on a marked backend shows the new mark on the original backend.
pub acted_backend_shown :
    (a : Action) (k : Mark) (b0 : Fields) (name : String)
    → IsNamed b0 name
    → ((o : String) → a ≡ Action.revert o → o ≡ name)
    → acted_backend a (shown_backend k b0) ≡ shown_backend (mark_after a k) b0
unfolding acted_backend mark_after shown_backend
acted_backend_shown (Action.reroute t b) k b0 name p h = rerouted_again k b0 t b
acted_backend_shown Action.block k b0 name p h = renamed k b0 block_backend_name p.1
acted_backend_shown Action.keep k b0 name p h = refl
acted_backend_shown (Action.revert o) k b0 name p h =
    renamed k b0 o p.1
    ∙ ap (λ n. put "name" (text n) b0) (h o refl)
    ∙ put_same "name" (text name) b0 p.0

-- Only a name that the caller's map holds is reverted to.
pub action_of-revert :
    (c : Controls) (saved : Dict String) (model : String) (k : Mark) (name o : String)
    → lookup model saved ≡ kept k name
    → action_of c saved model ≡ Action.revert o
    → o ≡ name
unfolding action_of kept
action_of-revert c saved model Mark.original name o h e = ground arith
action_of-revert c saved model Mark.blocked name o h e = ground arith
action_of-revert c saved model (Mark.rerouted t b) name o h e = ground arith

-- The action gives the mark that the controls ask for.
pub action_of-mark :
    (c : Controls) (saved : Dict String) (model : String) (k : Mark) (name : String)
    → lookup model saved ≡ kept k name
    → mark_after (action_of c saved model) k ≡ mark_step c model k
unfolding action_of mark_after mark_step kept
action_of-mark c saved model Mark.original name h = ground arith
action_of-mark c saved model Mark.blocked name h = ground arith
action_of-mark c saved model (Mark.rerouted t b) name h = ground arith

remember_kept :
    (u : Unstructured) (model : String) (b : Fields) (saved : Dict String) {name : String}
    → lookup model saved ≡ some name
    → lookup model (remember u model b saved) ≡ some name
unfolding remember contains
remember_kept u model b saved h = ground arith

-- The first action on a model keeps the name of its backend.
remembered :
    (u : Unstructured) (model : String) (k : Mark) (b0 : Fields) (saved : Dict String)
    (name : String)
    → IsNamed b0 name
    → lookup model saved ≡ kept k name
    → lookup model (remember u model (shown_backend k b0) saved) ≡ some name
unfolding shown_backend kept
remembered u model Mark.original b0 saved name p h = lookup-remember u model b0 saved p.0 h
remembered u model Mark.blocked b0 saved name p h = remember_kept u model _ saved h
remembered u model (Mark.rerouted t b) b0 saved name p h = remember_kept u model _ saved h

pub acted_state-kept :
    (u : Unstructured) (a : Action) (model : String) (k : Mark) (b0 : Fields) (s : State)
    (name : String)
    → IsNamed b0 name
    → lookup model s.saved ≡ kept k name
    → lookup model (acted_state u a model (shown_backend k b0) s).saved ≡ kept (mark_after a k) name
unfolding acted_state mark_after kept
acted_state-kept u (Action.reroute t b) model k b0 s name p h =
    remembered u model k b0 s.saved name p h
acted_state-kept u Action.block model k b0 s name p h = remembered u model k b0 s.saved name p h
acted_state-kept u (Action.revert o) model k b0 s name p h =
    ground (arith, lookup-erase model model s.saved, eq_iff model model)
acted_state-kept u Action.keep model k b0 s name p h = h
