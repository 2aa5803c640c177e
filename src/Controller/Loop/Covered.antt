-- ===== src/Controller/Loop/Covered.antt =====
-- Every request is followed by a rebuild: none is lost in the full channel or in the drain loop.
use kbeacon.Prelude.{
  ℕ, ◌≡◌, ◌≢◌, refl, sym, subst, ◌⊎◌, inl, inr, Bool, true, false, ◌||◌, Option, none, some, arith,
  is_some,
}
use kbeacon.Text.{Text}
use kbeacon.Controller.Loop.{
  Phase, idle, draining, rebuilding, stopped, syncing, synced, started, Loop, offer,
  request_rebuild, start_rebuild, Step, request, receive, drain, fire, finish, sync, initial, stop,
  stop_draining, Reach, start, later, Steps, done, step,
}

abbrev drains : Phase → Bool
drains (draining reason) = true
drains _ = false

abbrev stops : Phase → Bool
stops stopped = true
stops _ = false

-- Something in the loop still leads to a rebuild, or the loop was stopped.
abbrev waiting : Loop → Bool
waiting s = is_some s.channel || (drains s.phase || stops s.phase)

record IsCovered (s : Loop) : Type 0 where
  has : s.startup ≡ started → (waiting s ≡ true) ⊎ (s.covered ≡ s.requests)

some_offer : (channel : Option Text) (reason : Text) → is_some (offer channel reason) ≡ true
some_offer none reason = refl
some_offer (some waiting) reason = refl

waiting_offer : (b c : Bool) → b ≡ true → b || c ≡ true
waiting_offer b c h = ground arith

IsCovered-Step : {s t : Loop} → Step s t → IsCovered s → IsCovered t
unfolding request_rebuild start_rebuild
IsCovered-Step (request reason s) h = record {
  has = λ e. inl (waiting_offer _ _ (some_offer s.channel reason));
}
IsCovered-Step (receive reason _ n m) h = record { has = λ e. inl refl }
IsCovered-Step (drain reason old _ n m) h = record { has = λ e. inl refl }
IsCovered-Step (fire reason channel syncing n m) h = record { has = λ e. cc }
IsCovered-Step (fire reason channel synced n m) h = record { has = λ e. inr refl }
IsCovered-Step (fire reason channel started n m) h = record { has = λ e. inr refl }
IsCovered-Step (finish reason channel _ n m) h = record { has = λ e. h.has e }
IsCovered-Step (sync channel phase n m) h = record { has = λ e. cc }
IsCovered-Step (initial channel phase n m) h = record {
  has = λ e. inl (waiting_offer _ _ (some_offer channel _));
}
IsCovered-Step (stop channel _ n m) h = record { has = λ e. inl (ground arith) }
IsCovered-Step (stop_draining reason channel _ n m) h = record { has = λ e. inl (ground arith) }

IsCovered-Reach : {s : Loop} → Reach s → IsCovered s
IsCovered-Reach start = record { has = λ e. cc }
IsCovered-Reach (later r st) = IsCovered-Step st (IsCovered-Reach r)

-- In every reachable state after startup in which the loop waits at its outer `select` with an empty
-- channel, every request made so far came before the latest rebuild began to read the objects.
pub no_lost_request :
    (s : Loop)
    → Reach s
    → s.startup ≡ started
    → s.channel ≡ none
    → s.phase ≡ idle
    → s.covered ≡ s.requests
no_lost_request s r e c p =
    let quiet : waiting s ≡ false = rw (c, p) refl in
    elim ((IsCovered-Reach r).has e) [ inl w ↦ absurd (ground arith) | inr h ↦ h ]

-- A state after startup.
abbrev running : Option Text → Phase → ℕ → ℕ → Loop
running channel phase n m = record {
  channel = channel;
  phase = phase;
  startup = started;
  requests = n;
  covered = m;
}

-- The loop can go on alone to a state that covers `n` requests.
abbrev Covers : Loop → ℕ → Type 0
Covers s n = (t : Loop) × Steps s t × (t.requests ≡ n) × (t.covered ≡ n)

draining-Covers :
    (channel : Option Text) (reason : Text) (n m : ℕ)
    → Covers (running channel (draining reason) n m) n
unfolding start_rebuild
draining-Covers channel reason n m = (_, step (fire reason channel started n m) done, refl, refl)

idle-Covers :
    (channel : Option Text) (n m : ℕ)
    → (waiting (running channel idle n m) ≡ true) ⊎ (m ≡ n)
    → Covers (running channel idle n m) n
idle-Covers (some reason) n m h =
    let (t, steps, same, covered) = draining-Covers none reason n m in
    (t, step (receive reason started n m) steps, same, covered)
idle-Covers none n m (inl h) = absurd (ground arith)
idle-Covers none n m (inr h) = (_, done, refl, h)

running-Covers :
    (channel : Option Text) (phase : Phase) (n m : ℕ)
    → phase ≢ stopped
    → (waiting (running channel phase n m) ≡ true) ⊎ (m ≡ n)
    → Covers (running channel phase n m) n
running-Covers channel idle n m p h = idle-Covers channel n m h
running-Covers channel (draining reason) n m p h = draining-Covers channel reason n m
running-Covers channel (rebuilding reason) n m p h =
    let (t, steps, same, covered) = idle-Covers channel n m h in
    (t, step (finish reason channel started n m) steps, same, covered)
running-Covers channel stopped n m p h = absurd (p refl)

-- In every reachable state after startup in which the loop was not stopped, the loop has a way to go on
-- by its own steps, without a further request, to a state in which every request is covered.
pub covers_eventually :
    (s : Loop)
    → Reach s
    → s.startup ≡ started
    → s.phase ≢ stopped
    → (t : Loop) × Steps s t × (t.requests ≡ s.requests) × (t.covered ≡ s.requests)
covers_eventually s r e p =
    subst
      (λ x.
        Covers
          (record {
            channel = s.channel;
            phase = s.phase;
            startup = x;
            requests = s.requests;
            covered = s.covered;
          })
          s.requests)
      (sym e) (running-Covers s.channel s.phase s.requests s.covered p ((IsCovered-Reach r).has e))
