-- ===== src/ChangeRequest/Reconcile/References.antt =====
-- `validateGOVARRouteReferences` of internal/controller/aichangerequest_controller.go.
use ai_finops_operator.Prelude.{
  ℤ, pos, ltb_ℤ, eqb_ℤ, String, Bool, not, ◌&&◌, ◌||◌, ◌==◌, Option, none, some, Result, ok, err,
  ◌>>=◌, ◌>>◌, fail_if,
}
use ai_finops_operator.Prelude.Dict.{Dict, lookup}
use ai_finops_operator.ChangeRequest.Types.{ResolvedReference, Scope}

-- The identity of an object of the namespace; of a model also the provider that it names.
pub record Object : Type 0 where
  pub uid : String
  pub generation : ℤ
  pub provider_ref : String

-- The objects that the client finds by name.
pub record Cluster : Type 0 where
  pub routing_policies : Dict Object
  pub models : Dict Object
  pub providers : Dict Object

pub data ReferenceError : Type 0 where
  empty_reference not_found stale_policy stale_model stale_provider : ReferenceError

unfoldable pub is_valid_reference : ResolvedReference → Bool
is_valid_reference r = not (r.name == "") && not (r.uid == "") && ltb_ℤ (pos 0) r.generation

unfoldable pub is_stale : ResolvedReference → Object → Bool
is_stale r o = not (o.uid == r.uid) || not (eqb_ℤ o.generation r.generation)

abbrev pub found : Option Object → Result ReferenceError Object
found none = err ReferenceError.not_found
found (some o) = ok o

unfoldable pub has_empty_reference : Scope → Bool
has_empty_reference scope =
    not (is_valid_reference scope.routing_policy)
    || not (is_valid_reference scope.model)
    || not (is_valid_reference scope.provider)

unfoldable pub is_other_provider : Scope → Object → Object → Bool
is_other_provider scope model provider =
    is_stale scope.provider provider || not (model.provider_ref == scope.provider.name)

unfoldable pub validate_references : Cluster → Scope → Result ReferenceError (Unit {0})
validate_references cluster scope = do
  fail_if (has_empty_reference scope) ReferenceError.empty_reference
  routing ← found (lookup scope.routing_policy.name cluster.routing_policies)
  fail_if (is_stale scope.routing_policy routing) ReferenceError.stale_policy
  model ← found (lookup scope.model.name cluster.models)
  fail_if (is_stale scope.model model) ReferenceError.stale_model
  provider ← found (lookup scope.provider.name cluster.providers)
  fail_if (is_other_provider scope model provider) ReferenceError.stale_provider
  ok tt
