-- ===== src/Controller/Status/Waiting.antt =====
-- `Status` as a test of every resource, and what the loop of `Start` leaves.
use kbeacon.Prelude.{
  ◌≡◌, refl, ap, ◌∙◌, Bool, true, false, ◌&&◌, ◌||◌, none, some, List, [], ◌∷◌, ◌++◌, arith,
  if◌then◌else◌, some_or, loop, Bool-cases, inl, inr,
}
use kbeacon.Text.{Text, ==_iff, ==_refl, elem}
use kbeacon.Dict.{Dict, get, put, get-put}
use kbeacon.Controller.Status.{enabled, Controller, wait_for_syncs, ResourceStatus, status_item}

abbrev pub every : (Text → Bool) → List Text → Bool
every p [] = true
every p (n ∷ ns) = p n && every p ns

pub every-append :
    (p : Text → Bool) (ms ns : List Text) → every p (ms ++ ns) ≡ every p ms && every p ns
every-append p [] ns = refl
every-append p (m ∷ ms) ns = ground (arith, every-append p ms ns)

pub every-ext :
    (p q : Text → Bool) → ((n : Text) → p n ≡ q n) → (ns : List Text) → every p ns ≡ every q ns
every-ext p q h [] = refl
every-ext p q h (n ∷ ns) = ground (arith, h n, every-ext p q h ns)

pub every-stuck :
    (p : Text → Bool) (ns : List Text) (x : Text)
    → elem x ns ≡ true
    → p x ≡ false
    → every p ns ≡ false
unfolding elem
every-stuck p [] x h off = cc
every-stuck p (n ∷ ns) x h off =
    ground (arith, every-stuck p ns x, ==_iff n x, λ (e : n ≡ x). ap p e)

-- A resource does not stand in the way of readiness.
abbrev pub settled : Controller → Text → Bool
settled c n = if enabled c.resources n then some_or false (get n c.synced) else true

pub status_item-all :
    (c : Controller) (s : List ResourceStatus × Bool) (n : Text)
    → (status_item c s n).1 ≡ s.1 && settled c n
unfolding status_item
status_item-all c (out, all) n = elim (Bool-cases (enabled c.resources n)) [
  | inl e ↦ rw e (ground arith)
  | inr e ↦ rw e (ground arith)
]

pub status-every :
    (c : Controller) (s : List ResourceStatus × Bool) (names : List Text)
    → (loop (status_item c) s names).1 ≡ s.1 && every (settled c) names
status-every c s [] = ground arith
status-every c s (n ∷ ns) =
    status-every c (status_item c s n) ns
    ∙ ap (λ b. b && every (settled c) ns) (status_item-all c s n)
    ∙ ground arith

-- What the loop of `Start` leaves, if every informer syncs.
pub wait_for_syncs-all :
    (waits : Text → Bool) (names : List Text) (synced : Dict Bool)
    → every waits names ≡ true
    → (wait_for_syncs waits names synced).1 ≡ none
unfolding wait_for_syncs
wait_for_syncs-all waits [] synced h = refl
wait_for_syncs-all waits (n ∷ ns) synced h =
    let first : waits n ≡ true = ground arith in
    rw first (wait_for_syncs-all waits ns (put n true synced) (ground arith))

pub get-wait_for_syncs :
    (waits : Text → Bool) (names : List Text) (synced : Dict Bool) (x : Text)
    → every waits names ≡ true
    → some_or false (get x (wait_for_syncs waits names synced).0)
      ≡ elem x names || some_or false (get x synced)
unfolding wait_for_syncs elem
get-wait_for_syncs waits [] synced x h = refl
get-wait_for_syncs waits (n ∷ ns) synced x h =
    let first : waits n ≡ true = ground arith in
    rw first
      (ground (arith, get-wait_for_syncs waits ns (put n true synced) x, get-put n x true synced))

-- If one does not, the error names it, and it is not synced.
pub wait_for_syncs-failed :
    (waits : Text → Bool) (names : List Text) (synced : Dict Bool)
    → every waits names ≡ false
    → (x : Text) × ((wait_for_syncs waits names synced).1 ≡ some x)
      × (elem x names ≡ true)
      × (get x (wait_for_syncs waits names synced).0 ≡ some false)
unfolding wait_for_syncs elem
wait_for_syncs-failed waits [] synced h = absurd (ground arith)
wait_for_syncs-failed waits (n ∷ ns) synced h = elim (Bool-cases (waits n)) [
  | inl e ↦
      let (x, failed, listed, off) =
        wait_for_syncs-failed waits ns (put n true synced) (ground arith) in
      (x, rw e failed, ground arith, rw e off)
  | inr e ↦ (
    n,
    rw e refl,
    ground (arith, ==_refl n),
    rw e (ground (arith, get-put n n false synced, ==_refl n)),
  )
]
