-- ===== src/Calibration/Authoritative/Distinct.antt =====
-- Rows that AuthoritativeObservationDigest of internal/govarcalibration/authoritative.go accepts.
use ai_finops_operator.Prelude.{
  ◌≡◌, refl, ◌≤◌, ℕ, String, true, false, ◌==◌, List, [], ◌∷◌, Option, none, some, if◌then◌else◌,
  arith, eq_iff, inl, inr, Bool-cases, str_lt, str_lt_trans, str_lt_total, str_lt_irrefl,
  str_lt_asym, sort, Chain, InOrder, sort-Chain, sum_of, sum_of-sort, All, ok, >>=-eq-ok,
  fail_if-eq-ok,
}
use ai_finops_operator.Calibration.Authoritative.Rows.{
  AuthoritativeObservation, request_before, is_same_request, with_plain_split, check_sorted,
  validate_authoritative_observation, JsonDigests, authoritative_observation_digest,
}

-- How many rows are of the request.
abbrev pub is_of : String → AuthoritativeObservation → ℕ
is_of id row = if row.request_id == id then 1 else 0

abbrev pub rows_of : String → List AuthoritativeObservation → ℕ
rows_of id rows = sum_of (is_of id) rows

request_before_asym :
    (a b : AuthoritativeObservation) → request_before a b ≡ true → request_before b a ≡ false
request_before_asym a b h = ground (
  arith,
  eq_iff a.request_id b.request_id,
  eq_iff b.request_id a.request_id,
  str_lt_asym a.request_id b.request_id,
  str_lt_asym a.provider_attempt_id b.provider_attempt_id,
)

abbrev IsEarlier : AuthoritativeObservation → AuthoritativeObservation → Type 0
IsEarlier a b = str_lt a.request_id b.request_id ≡ true

-- Neighbours in order that are not of one request are strictly in order.
earlier :
    (a b : AuthoritativeObservation)
    → InOrder request_before a b
    → (a.request_id == b.request_id) ≡ false
    → IsEarlier a b
earlier a b h e = ground (
  arith,
  eq_iff a.request_id b.request_id,
  eq_iff b.request_id a.request_id,
  str_lt_total a.request_id b.request_id,
)

check_sorted-Chain :
    (before : Option String) (rows : List AuthoritativeObservation)
    → Chain (InOrder request_before) rows
    → check_sorted before rows ≡ ok tt
    → Chain IsEarlier rows
unfolding check_sorted
check_sorted-Chain before [] c h = tt
check_sorted-Chain before (a ∷ []) c h = tt
check_sorted-Chain before (a ∷ b ∷ rows) c h =
    let (u, e, h₁) = >>=-eq-ok (validate_authoritative_observation (with_plain_split a)) _ h in
    let (f, h₂) = fail_if-eq-ok (is_same_request before a.request_id) _ _ h₁ in
    let (v, g, h₃) = >>=-eq-ok (validate_authoritative_observation (with_plain_split b)) _ h₂ in
    let (k, h₄) = fail_if-eq-ok (a.request_id == b.request_id) _ _ h₃ in
    (earlier a b c.0 k, check_sorted-Chain (some a.request_id) (b ∷ rows) c.1 h₂)

-- The head of a chain is before all that follow.
Chain-All :
    (a : AuthoritativeObservation) (rows : List AuthoritativeObservation)
    → Chain IsEarlier (a ∷ rows)
    → All (IsEarlier a) rows
Chain-All a [] c = tt
Chain-All a (b ∷ rows) c = (c.0, later rows (Chain-All b rows c.1))
  where
    later : (rows : List AuthoritativeObservation) → All (IsEarlier b) rows → All (IsEarlier a) rows
    later [] p = tt
    later (r ∷ rs) p = (str_lt_trans a.request_id b.request_id r.request_id c.0 p.0, later rs p.1)

earlier-none :
    (a : AuthoritativeObservation) (id : String) (rows : List AuthoritativeObservation)
    → (a.request_id == id) ≡ true
    → All (IsEarlier a) rows
    → rows_of id rows ≡ 0
earlier-none a id [] e p = refl
earlier-none a id (r ∷ rs) e p =
    let rest = earlier-none a id rs e p.1 in
    let first = p.0 in
    ground (arith, eq_iff a.request_id id, eq_iff r.request_id id, str_lt_irrefl id)

Chain-once :
    (id : String) (rows : List AuthoritativeObservation)
    → Chain IsEarlier rows
    → rows_of id rows ≤ 1
Chain-once id [] c = omega arith
Chain-once id (a ∷ rows) c = elim (Bool-cases (a.request_id == id)) [
  | inl e ↦ rw e (omega (arith, earlier-none a id rows e (Chain-All a rows c)))
  | inr e ↦ rw e (omega (arith, Chain-once id rows (tail rows c)))
]
  where
    tail : (rs : List AuthoritativeObservation) → Chain IsEarlier (a ∷ rs) → Chain IsEarlier rs
    tail [] k = tt
    tail (b ∷ rs) k = k.1

-- Accepted rows are of different requests.
pub digest-once :
    (env : JsonDigests) (rows : List AuthoritativeObservation) (id : String) {digest : String}
    → authoritative_observation_digest env rows ≡ ok digest
    → rows_of id rows ≤ 1
unfolding authoritative_observation_digest
digest-once env rows id h =
    let (u, e, k) = >>=-eq-ok (check_sorted none (sort request_before rows)) _ h in
    let once = Chain-once id (sort request_before rows) (
      check_sorted-Chain none (sort request_before rows)
        (sort-Chain request_before request_before_asym rows) e) in
    omega (arith, sum_of-sort (is_of id) request_before rows, once)
