-- ===== src/Server/Query/Accepted.antt =====
-- Which pagination requests and Boolean parameters are accepted, and with what values.
use kbeacon.Prelude.{ok, chained, ℕ, ◌≤◌, ◌≡◌, Option, none, some, [], arith, Bool-cases, inl, inr}
use kbeacon.Text.{Text, str, ◌==◌, trim_space}
use kbeacon.Server.Page.{PaginationRequest}
use kbeacon.Server.Query.{
  Values, ℤ, pos, negsuc, atoi, default_limit, max_limit, limit_of, offset_of, unless_blank,
  parse_pagination,
}

limit-bounds : (o : Option ℤ) {n : ℕ} → limit_of o ≡ ok n → (1 ≤ n) × (n ≤ max_limit)
limit-bounds (some (pos m)) h = ground arith
limit-bounds (some (negsuc m)) h = cc
limit-bounds none h = cc

unless_blank-bounds :
    (raw : Text) {n : ℕ}
    → unless_blank raw default_limit limit_of ≡ ok n
    → (1 ≤ n) × (n ≤ max_limit)
unless_blank-bounds raw h = elim (Bool-cases (raw == [])) [
  | inl e ↦ ground arith
  | inr e ↦ limit-bounds (atoi raw) (rw e at h)
]

-- An accepted request asks for at least 1 and at most 1000 items.
pub parse_pagination-bounds :
    (values : Values) (request : PaginationRequest)
    → parse_pagination values ≡ ok request
    → (1 ≤ request.limit) × (request.limit ≤ max_limit)
unfolding parse_pagination
parse_pagination-bounds values request h =
    let at_limit =
      chained (unless_blank (trim_space (values (str "limit"))) default_limit limit_of) _ h in
    let at_offset =
      chained (unless_blank (trim_space (values (str "offset"))) 0 offset_of) _ at_limit.gave in
    let h₂ = at_offset.gave in
    let same : at_limit.value ≡ request.limit = ground arith in
    rw (← same) (unless_blank-bounds (trim_space (values (str "limit"))) at_limit.went)
