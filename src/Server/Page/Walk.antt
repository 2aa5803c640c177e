-- ===== src/Server/Page/Walk.antt =====
-- A client that follows `nextOffset` from the first page on sees every item once, in order.
use kbeacon.Prelude.{
  ℕ, zero, suc, ◌+◌, ◌-◌, ◌≤◌, ◌<◌, ◌≡◌, refl, sym, ap, ◌∙◌, min, Option, none, some, List, [], ◌∷◌,
  ◌++◌, false, arith, ltb, length, length-take, length-drop, take, drop, take-append-drop,
  append-nil, if◌then◌else◌, Bool-cases, inl, inr,
}
use kbeacon.Server.Page.{PaginationRequest, paginate}

shift : (n m : ℕ) → suc (n + m) ≡ suc n + m
shift n m = omega arith

module _ {ℓ} {A : Type ℓ} where
  take-length : (n : ℕ) (xs : List A) → length xs ≤ n → take n xs ≡ xs
  take-length zero [] h = refl
  take-length zero (x ∷ xs) h = absurd (omega arith)
  take-length (suc n) [] h = refl
  take-length (suc n) (x ∷ xs) h = ap (λ l. x ∷ l) (take-length n xs (omega arith))

  drop_nil : (n : ℕ) → drop {A = A} n [] ≡ []
  drop_nil zero = refl
  drop_nil (suc n) = refl

  drop-drop : (m n : ℕ) (xs : List A) → drop m (drop n xs) ≡ drop (n + m) xs
  drop-drop m zero xs = ap (λ k. drop k xs) (omega arith)
  drop-drop m (suc n) [] = drop_nil m ∙ sym (drop_nil (suc n + m))
  drop-drop m (suc n) (x ∷ xs) = drop-drop m n xs ∙ ap (λ k. drop k (x ∷ xs)) (shift n m)

  -- A page has no more items than its limit, and exactly as many as it says; it is empty only if
  -- nothing is left at its offset, and the total is the number of all items.
  pub paginate-returned :
      (items : List A) (request : PaginationRequest)
      → let page = paginate items request in
        (length page.0 ≡ page.1.returned)
        × (page.1.returned ≡ min request.limit (length items - request.offset))
        × (page.1.total ≡ length items)
  unfolding paginate
  paginate-returned items request =
      let total = length items in
      let start = if ltb total request.offset then total else request.offset in
      let end = if ltb total (start + request.limit) then total else start + request.limit in
      (
        length-take (end - start) (drop start items)
            ∙ ap (min (end - start)) (length-drop start items)
            ∙ ground arith,
        ground arith,
        refl,
      )

  take_nil : (n : ℕ) → take {A = A} n [] ≡ []
  take_nil zero = refl
  take_nil (suc n) = refl

  drop-length : (n : ℕ) (xs : List A) → length xs ≤ n → drop n xs ≡ []
  drop-length n [] h = drop_nil n
  drop-length zero (x ∷ xs) h = absurd (omega arith)
  drop-length (suc n) (x ∷ xs) h = drop-length n xs (omega arith)

  -- A page is what a limit and an offset say, also where they reach behind the last item.
  pub paginate-page :
      (items : List A) (request : PaginationRequest)
      → (paginate items request).0 ≡ take request.limit (drop request.offset items)
  unfolding paginate
  paginate-page items request = elim (Bool-cases (ltb (length items) request.offset)) [
    | inl past ↦
        let all : drop (length items) items ≡ [] = drop-length (length items) items (omega arith) in
        let behind : drop request.offset items ≡ [] =
          drop-length request.offset items (ground arith) in
        rw (past, all, behind, take_nil) (sym (take_nil request.limit))
    | inr within ↦ elim (Bool-cases (ltb (length items) (request.offset + request.limit))) [
      | inl cut ↦
          let rest = drop request.offset items in
          rw (within, cut)
            (take-length (length items - request.offset) rest
                (omega (arith, length-drop request.offset items))
              ∙ sym (
                  take-length request.limit rest
                    (ground (arith, length-drop request.offset items))))
      | inr whole ↦
          let same : request.offset + request.limit - request.offset ≡ request.limit =
            omega arith in
          rw (within, whole, same) refl
    ]
  ]

  abbrev pub continue : (ℕ → List A) → Option ℕ → List A
  continue f none = []
  continue f (some offset) = f offset

  -- The items that a client collects in `fuel` requests from an offset on.
  unfoldable pub collect : List A → ℕ → ℕ → ℕ → List A
  collect items limit zero offset = []
  collect items limit (suc fuel) offset =
      let (page, pagination) = paginate items (record { limit = limit; offset = offset }) in
      page ++ continue (collect items limit fuel) pagination.next_offset

  collect-drop :
      (items : List A) (limit fuel offset : ℕ)
      → 1 ≤ limit
      → offset ≤ length items
      → length items - offset < fuel
      → collect items limit fuel offset ≡ drop offset items
  unfolding collect paginate
  collect-drop items limit zero offset l h f = absurd (omega arith)
  collect-drop items limit (suc fuel) offset l h f =
      elim (Bool-cases (ltb (offset + limit) (length items))) [
        | inl more ↦
            let e₁ : ltb (length items) offset ≡ false = ground arith in
            let e₂ : ltb (length items) (offset + limit) ≡ false = ground arith in
            let e₃ : offset + limit - offset ≡ limit = omega arith in
            rw
              (
                e₁,
                e₂,
                more,
                e₃,
                collect-drop items limit fuel (offset + limit) l (ground arith) (ground arith),
                sym (drop-drop limit offset items),
              )
              (take-append-drop limit (drop offset items))
        | inr last ↦
            let e₁ : ltb (length items) offset ≡ false = ground arith in
            let rest : take (length items - offset) (drop offset items) ≡ drop offset items =
              take-length (length items - offset) (drop offset items)
                (omega (arith, length-drop offset items)) in
            elim (Bool-cases (ltb (length items) (offset + limit))) [
              | inl past ↦
                  let e₃ : ltb (length items) (length items) ≡ false = ground arith in
                  rw (e₁, past, e₃) (append-nil _ ∙ rest)
              | inr exact ↦
                  let e₃ : offset + limit ≡ length items = ground arith in
                  rw (e₁, exact, last)
                    (append-nil _ ∙ ap (λ k. take (k - offset) (drop offset items)) e₃ ∙ rest)
            ]
      ]

  -- A client that starts at offset 0 and follows the offered next offsets gets every item once and
  -- in order, in at most one request more than there are items, for any limit that is not 0.
  pub collect_complete :
      (items : List A) (limit : ℕ) → 1 ≤ limit → collect items limit (suc (length items)) 0 ≡ items
  collect_complete items limit l =
      collect-drop items limit (suc (length items)) 0 l (omega arith) (omega arith)
