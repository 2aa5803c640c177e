-- ===== src/Metrics/Collector/Series.antt =====
-- Time series, and how lists of metrics are shown to have none twice.
use kbeacon.Prelude.{
  ◌≡◌, ◌≢◌, sym, ap, ◌∙◌, Bool, true, false, ◌&&◌, not, List, [], ◌∷◌, map, arith, All,
}
use kbeacon.Text.{Text, ==_iff, elem}
use kbeacon.Pairs.{AllPairs, Across, AllPairs-append, Across-nil, Across-append}
use kbeacon.Metrics.Collector.{Metric, send}

-- A time series is the name of a metric with the values of its labels.
pub record Series : Type 0 where
  pub name : Text
  pub labels : List Text

abbrev pub series : Metric → Series
series m = record { name = m.desc.name; labels = m.labels }

abbrev pub Differ : Metric → Metric → Type 0
Differ m n = series m ≢ series n

-- Metrics that a function of the series tells apart.
module _ {ℓ} {B : Type ℓ} (g : Series → B) where
  abbrev pub Has : B → Metric → Type ℓ
  Has b m = g (series m) ≡ b

  pub Across-told :
      (a b : B) (ms ns : List Metric)
      → a ≢ b
      → All (Has a) ms
      → All (Has b) ns
      → Across Differ ms ns
  Across-told a b [] ns ne hm hn = tt
  Across-told a b (m ∷ ms) ns ne (h, hm) hn = (row m h ns hn, Across-told a b ms ns ne hm hn)
    where
      row :
          (m : Metric) → g (series m) ≡ a → (ns : List Metric) → All (Has b) ns → All (Differ m) ns
      row m h [] hn = tt
      row m h (n ∷ ns) (k, hn) = (λ e. ne (sym h ∙ ap g e ∙ k), row m h ns hn)

  -- Blocks of metrics, each of which has one value, where the values differ.
  pub AllPairs-send :
      {A : Type 0} (id : A → B) (f : A → List Metric)
      → ((x : A) → AllPairs Differ (f x))
      → ((x : A) → All (Has (id x)) (f x))
      → (xs : List A) → AllPairs (λ x y. id x ≢ id y) xs
      → AllPairs Differ (send f xs)
  AllPairs-send {A} id f inside told [] h = tt
  AllPairs-send {A} id f inside told (x ∷ xs) (h, hs) =
      AllPairs-append Differ (f x) (send f xs) (inside x) (AllPairs-send id f inside told xs hs)
        (rest xs h)
    where
      rest : (ys : List A) → All (λ y. id x ≢ id y) ys → Across Differ (f x) (send f ys)
      rest [] h = Across-nil Differ (f x)
      rest (y ∷ ys) (ne, h) =
          Across-append Differ (f x) (f y) (send f ys)
            (Across-told (id x) (id y) (f x) (f y) ne (told x) (told y)) (rest ys h)

-- The names of a list differ.
abbrev pub names_differ : List Metric → Bool
names_differ [] = true
names_differ (m ∷ ms) = not (elem m.desc.name (map (λ n. n.desc.name) ms)) && names_differ ms

pub AllPairs-names : (ms : List Metric) → names_differ ms ≡ true → AllPairs Differ ms
unfolding elem
AllPairs-names [] h = tt
AllPairs-names (m ∷ ms) h = (row ms (ground arith), AllPairs-names ms (ground arith))
  where
    row :
        (ns : List Metric)
        → elem m.desc.name (map (λ n. n.desc.name) ns) ≡ false
        → All (Differ m) ns
    row [] e = tt
    row (n ∷ ns) e = (
      λ s. ground (arith, ap (λ x. x.name) s, ==_iff n.desc.name m.desc.name),
      row ns (ground arith),
    )
