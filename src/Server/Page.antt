-- ===== src/Server/Page.antt =====
-- `paginate` of internal/server/server.go.
pub mod Walk
use kbeacon.Prelude.{ℕ, ◌+◌, ◌-◌, Option, none, some, List, ltb, length, take, drop, if◌then◌else◌}

pub record PaginationRequest : Type 0 where
  pub limit : ℕ
  pub offset : ℕ

pub record PaginationResponse : Type 0 where
  pub limit : ℕ
  pub offset : ℕ
  pub total : ℕ
  pub returned : ℕ
  pub next_offset : Option ℕ

-- `items[start:end]`
abbrev pub slice {ℓ} : {A : Type ℓ} → List A → ℕ → ℕ → List A
slice items start end = take (end - start) (drop start items)

-- The sum of `start`, which is at most the length of a slice, and of a limit, which is at most 1000,
-- does not wrap.
unfoldable pub paginate {ℓ} :
    {A : Type ℓ} → List A → PaginationRequest → List A × PaginationResponse
paginate items request =
    let total = length items in
    let start = if ltb total request.offset then total else request.offset in
    let end = if ltb total (start + request.limit) then total else start + request.limit in
    (
      slice items start end,
      record {
        limit = request.limit;
        offset = request.offset;
        total = total;
        returned = end - start;
        next_offset = (if ltb end total then some end else none);
      },
    )
