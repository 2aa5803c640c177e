-- ===== src/Graph/Keys/Injective.antt =====
-- The keys tell Secrets, workloads and edges apart, as long as the parts hold no separator.
use mathlib.Core.List.{append_cancel_left}
use kbeacon.Prelude.{
  ℕ, ◌≡◌, refl, sym, ap, ◌∙◌, false, Option, none, some, ◌&&◌, [], ◌∷◌, ◌++◌, arith, leb,
}
use kbeacon.Text.{Text, to_lower, lower_byte, join, cut, has_byte, cut-append}
use kbeacon.Graph.Types.{SecretRef, WorkloadRef}
use kbeacon.Graph.Keys.{edge_id, secret_id, workload_id}

abbrev pub Lacks : ℕ → Text → Type 0
Lacks b s = has_byte b s ≡ false

abbrev left : Option (Text × Text) → Text
left none = []
left (some (l, r)) = l

abbrev right : Option (Text × Text) → Text
right none = []
right (some (l, r)) = r

abbrev tail : Text → Text
tail [] = []
tail (c ∷ t) = t

-- Texts that agree up to and behind their first separator agree in both parts.
parts_eq :
    (b : ℕ) (l r l' r' : Text)
    → Lacks b l
    → Lacks b l'
    → l ++ b ∷ r ≡ l' ++ b ∷ r'
    → (l ≡ l') × (r ≡ r')
parts_eq b l r l' r' h h' e =
    let same : some (l, r) ≡ some (l', r') =
      sym (cut-append b l r h) ∙ ap (cut b) e ∙ cut-append b l' r' h' in
    (ap left same, ap right same)

-- Lower case makes no separator.
pub Lacks-to_lower :
    (b : ℕ) (s : Text) → leb b'a' b && leb b b'z' ≡ false → Lacks b s → Lacks b (to_lower s)
unfolding to_lower lower_byte has_byte
Lacks-to_lower b [] n h = refl
Lacks-to_lower b (c ∷ s) n h = ground (arith, Lacks-to_lower b s n)

-- The parts of an edge's key hold no `|`, as Kubernetes names never do. The last part may.
pub record PipeFree (w : WorkloadRef) (s : SecretRef) : Type 0 where
  pub namespace : Lacks b'|' w.namespace
  pub kind : Lacks b'|' w.kind
  pub name : Lacks b'|' w.name
  pub secret_namespace : Lacks b'|' s.namespace

-- The parts of an edge's key behind each separator.
abbrev from_secret : SecretRef → Text
from_secret s = s.namespace ++ b'|' ∷ s.name

abbrev from_name : WorkloadRef → SecretRef → Text
from_name w s = w.name ++ b'|' ∷ from_secret s

abbrev from_kind : WorkloadRef → SecretRef → Text
from_kind w s = to_lower w.kind ++ b'|' ∷ from_name w s

abbrev from_namespace : WorkloadRef → SecretRef → Text
from_namespace w s = w.namespace ++ b'|' ∷ from_kind w s

-- Two edges in one cluster, whose parts hold no `|`, have one key only if they join the same workload,
-- up to the case of its kind, to the same Secret.
pub edge_id_injective :
    (w w' : WorkloadRef) (s s' : SecretRef)
    → w.cluster ≡ w'.cluster
    → PipeFree w s
    → PipeFree w' s'
    → edge_id w s ≡ edge_id w' s'
    → (w.namespace ≡ w'.namespace)
      × (to_lower w.kind ≡ to_lower w'.kind)
      × (w.name ≡ w'.name)
      × (s.namespace ≡ s'.namespace)
      × (s.name ≡ s'.name)
unfolding edge_id join
edge_id_injective w w' s s' c f f' e =
    let e₀ : w.cluster ++ b'|' ∷ from_namespace w s ≡ w.cluster ++ b'|' ∷ from_namespace w' s' =
      e ∙ ap (λ t. t ++ b'|' ∷ from_namespace w' s') (sym c) in
    let e₁ : from_namespace w s ≡ from_namespace w' s' =
      ap (λ t. tail t) (append_cancel_left w.cluster _ _ e₀) in
    let (ns, e₂) =
      parts_eq b'|' w.namespace (from_kind w s) w'.namespace (from_kind w' s') f.namespace
        f'.namespace e₁ in
    let (kind, e₃) =
      parts_eq b'|' (to_lower w.kind) (from_name w s) (to_lower w'.kind) (from_name w' s')
        (Lacks-to_lower b'|' w.kind refl f.kind) (Lacks-to_lower b'|' w'.kind refl f'.kind) e₂ in
    let (name, e₄) =
      parts_eq b'|' w.name (from_secret s) w'.name (from_secret s') f.name f'.name e₃ in
    let (sns, sname) =
      parts_eq b'|' s.namespace s.name s'.namespace s'.name f.secret_namespace f'.secret_namespace
        e₄ in
    (ns, kind, name, sns, sname)

-- A Secret's key determines its namespace and name, if the namespace holds no `/`.
pub secret_id_injective :
    (s s' : SecretRef)
    → Lacks b'/' s.namespace
    → Lacks b'/' s'.namespace
    → secret_id s ≡ secret_id s'
    → (s.namespace ≡ s'.namespace) × (s.name ≡ s'.name)
unfolding secret_id
secret_id_injective s s' h h' e = parts_eq b'/' s.namespace s.name s'.namespace s'.name h h' e

-- A workload's key determines its namespace, its kind up to case, and its name, if the namespace and
-- the kind hold no `/`.
pub workload_id_injective :
    (w w' : WorkloadRef)
    → Lacks b'/' w.namespace × Lacks b'/' w.kind
    → Lacks b'/' w'.namespace × Lacks b'/' w'.kind
    → workload_id w ≡ workload_id w'
    → (w.namespace ≡ w'.namespace) × (to_lower w.kind ≡ to_lower w'.kind) × (w.name ≡ w'.name)
unfolding workload_id
workload_id_injective w w' (h, k) (h', k') e =
    let (ns, e₁) =
      parts_eq b'/' w.namespace (to_lower w.kind ++ b'/' ∷ w.name) w'.namespace
        (to_lower w'.kind ++ b'/' ∷ w'.name) h h' e in
    let (kind, name) =
      parts_eq b'/' (to_lower w.kind) w.name (to_lower w'.kind) w'.name
        (Lacks-to_lower b'/' w.kind refl k) (Lacks-to_lower b'/' w'.kind refl k') e₁ in
    (ns, kind, name)
