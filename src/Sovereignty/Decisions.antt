-- ===== src/Sovereignty/Decisions.antt =====
-- Enforcement decisions: internal/enforcementengine/enforcementengine.go.
use Prim.Native.String.{◌++◌}
use ai_finops_operator.Prelude.{
  ◌≡◌, ◌≢◌, ◌⊎◌, ℤ, String, Bool, true, false, not, ◌==◌, List, [], ◌∷◌, if◌then◌else◌, arith,
  eq_iff,
}

pub data Action : Type 0 where
  report warn block reroute : Action

pub record Violation : Type 0 where
  pub namespace : String
  pub application : String
  pub provider : String
  pub zone : String
  pub model : String
  pub requests : ℤ

pub record Decision : Type 0 where
  pub mode : String
  pub action : Action
  pub namespace : String
  pub application : String
  pub provider : String
  pub zone : String
  pub model : String
  pub requests : ℤ
  pub reroute_to : String
  pub message : String
  pub actuated : Bool

abbrev pub mode_report_only : String
mode_report_only = "reportOnly"

abbrev pub mode_warn : String
mode_warn = "warn"

abbrev pub mode_enforce : String
mode_enforce = "enforce"

-- The decision is about the workload, the model and the requests of the violation.
pub record IsAbout (v : Violation) (d : Decision) : Type 0 where
  pub same_namespace : d.namespace ≡ v.namespace
  pub same_application : d.application ≡ v.application
  pub same_model : d.model ≡ v.model
  pub same_requests : d.requests ≡ v.requests

-- What a decision may be under a mode: only `enforce` leaves something for the gateway to do.
abbrev pub FollowsMode : (mode fallback_model : String) → Decision → Type 0
FollowsMode mode fallback_model d =
    (mode ≢ mode_enforce)
      × ((d.action ≡ Action.report) ⊎ (d.action ≡ Action.warn))
      × (d.actuated ≡ true)
    ⊎ (mode ≡ mode_enforce)
      × (fallback_model ≡ "")
      × (d.action ≡ Action.block)
      × (d.actuated ≡ false)
    ⊎ (mode ≡ mode_enforce)
      × (fallback_model ≢ "")
      × (d.action ≡ Action.reroute)
      × (d.reroute_to ≡ fallback_model)
      × (d.actuated ≡ false)

-- The relation holds between the elements of two lists of one length.
abbrev pub AllPairs : (Violation → Decision → Type 0) → List Violation → List Decision → Type 0
AllPairs R [] [] = Unit
AllPairs R (v ∷ vs) (d ∷ ds) = R v d × AllPairs R vs ds
AllPairs R _ _ = ⊥

-- fmt's `%q` and `%d`.
module _ (quote : String → String) (print_int : ℤ → String) where
  -- The decision on `v` before the mode is looked at, with the fields that the mode sets.
  abbrev decided :
      String → Violation → Action → (reroute_to message : String) (actuated : Bool) → Decision
  decided mode v action reroute_to message actuated = record {
    mode = mode;
    action = action;
    namespace = v.namespace;
    application = v.application;
    provider = v.provider;
    zone = v.zone;
    model = v.model;
    requests = v.requests;
    reroute_to = reroute_to;
    message = message;
    actuated = actuated;
  }

  workload : Violation → String
  workload v = v.namespace ++ ("/" ++ v.application)

  unfoldable pub decide : (mode fallback_model : String) → Violation → Decision
  unfolding workload
  decide mode fallback_model v =
      if mode == mode_warn
      then decided mode v Action.warn ""
          ("warn: "
            ++ (workload v
                ++ (" sent "
                    ++ (print_int v.requests
                        ++ (" request(s) to forbidden zone "
                            ++ (v.zone ++ (" via " ++ (quote v.provider ++ " — alert raised"))))))))
          true
      else if mode == mode_enforce
      then (if not (fallback_model == "")
          then decided mode v Action.reroute fallback_model
              ("enforce: "
                ++ (workload v
                    ++ (" — reroute "
                        ++ (quote v.model ++ (" to compliant " ++ quote fallback_model)))))
              false
          else decided mode v Action.block ""
              ("enforce: "
                ++ (workload v
                    ++ (" — block traffic to forbidden zone "
                        ++ (v.zone ++ ", no compliant fallback"))))
              false)
      else decided mode v Action.report ""
          ("reportOnly: "
            ++ (workload v
                ++ (" exposure to forbidden zone " ++ (v.zone ++ " recorded (no action)"))))
          true

  -- DecideSovereignty
  unfoldable pub decide_sovereignty : String → List Violation → String → List Decision
  decide_sovereignty mode [] fallback_model = []
  decide_sovereignty mode (v ∷ vs) fallback_model =
      decide mode fallback_model v ∷ decide_sovereignty mode vs fallback_model

  same_workload :
      (mode fallback_model : String) (v : Violation) → IsAbout v (decide mode fallback_model v)
  unfolding decide
  same_workload mode fallback_model v = record {
    same_namespace = ground arith;
    same_application = ground arith;
    same_model = ground arith;
    same_requests = ground arith;
  }

  decide-FollowsMode :
      (mode fallback_model : String) (v : Violation)
      → FollowsMode mode fallback_model (decide mode fallback_model v)
  unfolding decide
  decide-FollowsMode mode fallback_model v = ground (
    arith,
    eq_iff mode mode_warn,
    eq_iff mode mode_enforce,
    eq_iff mode_warn mode_enforce,
    eq_iff fallback_model "",
  )

  -- `DecideSovereignty` takes one decision for each violation, for its workload and model. Unless the
  -- mode is `enforce`, each only reports or warns, and counts as carried out; in that mode each
  -- blocks if there is no fallback model and else reroutes to it, and does not count as carried out.
  pub decide_sovereignty-FollowsMode :
      (mode fallback_model : String) (vs : List Violation)
      → AllPairs
          (λ v d. FollowsMode mode fallback_model d × IsAbout v d)
          vs
          (decide_sovereignty mode vs fallback_model)
  unfolding decide_sovereignty
  decide_sovereignty-FollowsMode mode fallback_model [] = tt
  decide_sovereignty-FollowsMode mode fallback_model (v ∷ vs) = (
    (decide-FollowsMode mode fallback_model v, same_workload mode fallback_model v),
    decide_sovereignty-FollowsMode mode fallback_model vs,
  )
