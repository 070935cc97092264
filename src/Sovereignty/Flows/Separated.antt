-- ===== src/Sovereignty/Flows/Separated.antt =====
-- The keys under which `EvaluateFlows` of internal/sovereigntyengine/sovereigntyengine.go counts
-- findings together: texts joined by the character U+001F.
use Prim.Native.Char.{Char, char, code}
use Prim.Native.String.{◌++◌}
use text.Mathlib.TextLemmas.{nil-append, cons-append}
use ai_finops_operator.Prelude.{
  ◌≡◌, refl, sym, ap, ◌∙◌, subst, String, List, [], ◌∷◌, All, some, arith, inl, inr, Option-cases,
  ==-cases, join, add64, Bool-cases, not, ◌&&◌, ◌||◌, ◌==◌, if◌then◌else◌,
}
use ai_finops_operator.Prelude.Dict.{lookup, insert, lookup-insert}
use ai_finops_operator.Sovereignty.Zones.{Policy, is_member, normalize_zone, to_set, zone_allowed}
use ai_finops_operator.Sovereignty.Findings.{Finding, severity_critical, severity_warning}
use ai_finops_operator.Sovereignty.Flows.{
  Flow, key_of, Aggregation, add, add_all, add_flows, flow_zone_findings, flow_external_findings,
}

abbrev separator : Char
separator = char 31 tt

-- The text does not contain the separator.
abbrev pub IsPlain : String → Type 0
IsPlain String.[] = Unit
IsPlain (String.◌∷◌ c s) = (code c ≡ 31 → ⊥) × IsPlain s

separated_rest :
    (x y r s : String)
    → IsPlain x
    → IsPlain y
    → x ++ String.◌∷◌ separator r ≡ y ++ String.◌∷◌ separator s
    → (x ≡ y) × (r ≡ s)
separated_rest String.[] String.[] r s p q h =
    let e : String.◌∷◌ separator r ≡ String.◌∷◌ separator s =
      sym (nil-append (String.◌∷◌ separator r)) ∙ h ∙ nil-append (String.◌∷◌ separator s) in
    (refl, cc e)
separated_rest String.[] (String.◌∷◌ d y) r s p q h =
    let e : String.◌∷◌ separator r ≡ String.◌∷◌ d (y ++ String.◌∷◌ separator s) =
      sym (nil-append (String.◌∷◌ separator r)) ∙ h ∙ cons-append d y (String.◌∷◌ separator s) in
    let c : separator ≡ d = cc e in absurd (q.0 (sym (ap code c)))
separated_rest (String.◌∷◌ c x) String.[] r s p q h =
    let e : String.◌∷◌ c (x ++ String.◌∷◌ separator r) ≡ String.◌∷◌ separator s =
      sym (cons-append c x (String.◌∷◌ separator r)) ∙ h ∙ nil-append (String.◌∷◌ separator s) in
    let d : c ≡ separator = cc e in absurd (p.0 (ap code d))
separated_rest (String.◌∷◌ c x) (String.◌∷◌ d y) r s p q h =
    let e : String.◌∷◌ c (x ++ String.◌∷◌ separator r)
        ≡ String.◌∷◌ d (y ++ String.◌∷◌ separator s) =
      sym (cons-append c x (String.◌∷◌ separator r))
      ∙ h
      ∙ cons-append d y (String.◌∷◌ separator s) in
    let (f, g) = separated_rest x y r s p.1 q.1 (cc e) in (cc (e, f), g)

separator-append : (r : String) → "\u{1f}" ++ r ≡ String.◌∷◌ separator r
separator-append r = cons-append separator String.[] r ∙ ap (String.◌∷◌ separator) (nil-append r)

-- The same for two joined texts.
joined_rest :
    (x y r s : String)
    → IsPlain x
    → IsPlain y
    → x ++ ("\u{1f}" ++ r) ≡ y ++ ("\u{1f}" ++ s)
    → (x ≡ y) × (r ≡ s)
joined_rest x y r s p q h =
    separated_rest x y r s p q
      (ap (λ z. x ++ z) (sym (separator-append r)) ∙ h ∙ ap (λ z. y ++ z) (separator-append s))

-- The names in the finding do not contain the separator.
abbrev pub IsSeparated : Finding → Type 0
IsSeparated f =
    IsPlain f.severity
    × IsPlain f.namespace
    × IsPlain f.application
    × IsPlain f.model
    × IsPlain f.provider

abbrev pub IsPlainFlow : Flow → Type 0
IsPlainFlow fl =
    IsPlain fl.namespace × IsPlain fl.application × IsPlain fl.model × IsPlain fl.provider

-- Findings on the same traffic that are equally severe.
abbrev pub IsAlike : Finding → Finding → Type 0
IsAlike f g =
    (f.severity ≡ g.severity)
    × (f.namespace ≡ g.namespace)
    × (f.application ≡ g.application)
    × (f.model ≡ g.model)
    × (f.provider ≡ g.provider)

-- One key means one severity and one namespace, application, model and provider.
pub key_of-IsAlike :
    (f g : Finding) → IsSeparated f → IsSeparated g → key_of f ≡ key_of g → IsAlike f g
unfolding key_of join
key_of-IsAlike f g (p₁, p₂, p₃, p₄, p₅) (q₁, q₂, q₃, q₄, q₅) h =
    let (a, h₁) = joined_rest f.severity g.severity _ _ p₁ q₁ h in
    let (b, h₂) = joined_rest f.namespace g.namespace _ _ p₂ q₂ h₁ in
    let (c, h₃) = joined_rest f.application g.application _ _ p₃ q₃ h₂ in
    let (d, h₄) = joined_rest f.model g.model _ _ p₄ q₄ h₃ in
    let (e, h₅) = joined_rest f.provider g.provider _ _ p₅ q₅ h₄ in (a, b, c, d, e)

-- So are all findings of the map.
unfoldable pub AreSeparated : Aggregation → Type 0
AreSeparated s = (k : String) (g : Finding) → lookup k s.agg ≡ some g → IsSeparated g

some_injective : {f g : Finding} → some f ≡ some g → f ≡ g
some_injective h = cc

add-AreSeparated :
    (f : Finding) (s : Aggregation) → IsSeparated f → AreSeparated s → AreSeparated (add f s)
unfolding add AreSeparated
add-AreSeparated f s p inv k g e = elim (Option-cases (lookup (key_of f) s.agg)) [
  | inl n ↦ kept f p (rw (add, n) at e)
  | inr (old, n) ↦
      kept (record old { requests = add64 old.requests f.requests }) (inv (key_of f) old n)
        (rw (add, n) at e)
]
  where
    kept :
        (h : Finding)
        → IsSeparated h
        → lookup k (insert (key_of f) h s.agg) ≡ some g
        → IsSeparated g
    kept h q r =
        let found = sym (lookup-insert (key_of f) k h s.agg) ∙ r in
        elim (==-cases (key_of f) k) [
          | inl c ↦
              let chosen : (if key_of f == k then some h else lookup k s.agg) ≡ some h =
                rw c.1 refl in
              subst IsSeparated (some_injective (sym chosen ∙ found)) q
          | inr c ↦ inv k g (sym (rw c.1 refl) ∙ found)
        ]

add_all-AreSeparated :
    (quote : String → String) (policy : Policy) (fs : List Finding) (s : Aggregation)
    → All IsSeparated fs
    → AreSeparated s
    → AreSeparated (add_all quote policy fs s)
unfolding add_all
add_all-AreSeparated quote policy [] s p inv = inv
add_all-AreSeparated quote policy (f ∷ fs) s p inv =
    add_all-AreSeparated quote policy fs (add f s) p.1 (add-AreSeparated f s p.0 inv)

critical-IsPlain : IsPlain severity_critical
critical-IsPlain = ground arith

warning-IsPlain : IsPlain severity_warning
warning-IsPlain = ground arith

module _ (quote : String → String) (policy : Policy) where
  pub zone_findings-IsSeparated :
      (fl : Flow) → IsPlainFlow fl → All IsSeparated (flow_zone_findings quote policy fl)
  unfolding flow_zone_findings
  zone_findings-IsSeparated fl p =
      elim (Bool-cases (is_member (to_set policy.forbidden_zones) (normalize_zone fl.zone))) [
        | inl m ↦ rw m ((critical-IsPlain, p.0, p.1, p.2, p.3), tt)
        | inr m ↦
            elim (Bool-cases
              (zone_allowed (normalize_zone fl.zone) (to_set policy.allowed_zones))) [
                | inl n ↦ rw (m, n) tt
                | inr n ↦ rw (m, n) ((warning-IsPlain, p.0, p.1, p.2, p.3), tt)
              ]
      ]

  external_findings-IsSeparated :
      (fl : Flow) → IsPlainFlow fl → All IsSeparated (flow_external_findings quote policy fl)
  unfolding flow_external_findings
  external_findings-IsSeparated fl p =
      elim (Bool-cases (
        not policy.external_providers_allowed
        && fl.managed
        && (not fl.provider_allows_sensitive || not fl.model_allows_sensitive))) [
          | inl m ↦ rw m ((warning-IsPlain, p.0, p.1, p.2, p.3), tt)
          | inr m ↦ rw m tt
        ]

  pub add_flows-AreSeparated :
      (fls : List Flow) (s : Aggregation)
      → All IsPlainFlow fls
      → AreSeparated s
      → AreSeparated (add_flows quote policy fls s)
  unfolding add_flows
  add_flows-AreSeparated [] s p inv = inv
  add_flows-AreSeparated (fl ∷ fls) s p inv = add_flows-AreSeparated fls _ p.1 (
      add_all-AreSeparated quote policy _ _ (external_findings-IsSeparated fl p.0)
        (add_all-AreSeparated quote policy _ s (zone_findings-IsSeparated fl p.0) inv))

pub empty-AreSeparated : AreSeparated (record { agg = []; order = [] })
unfolding AreSeparated lookup
empty-AreSeparated k g h = ground arith
