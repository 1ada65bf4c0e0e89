-- ===== src/RouterOs/Owner/Stops.antt =====
-- src/ssh/routeros.rs: `RequestStop`, whose reasons to stop a request last once they are there.
use se_sshion.Base.{
  ◌≡◌, refl, sym, subst, ◌∙◌, Bool, true, false, Option, none, some, if◌then◌else◌, if_some, Result,
  Bool-cases, inl, inr,
}
use se_sshion.Base.Text.{Text, codes}
use se_sshion.RouterOs.{Waited, ready, stop}
use se_sshion.RouterOs.Owner.{Awaits, OpenFailure, routeros_owner}
use se_sshion.RouterOs.Owner.Sent.{Answers, Lasts, routeros_owner-Answers}
use Prim.Native.Nat.{ℕ}

-- what the tokens and the clock say at one moment
pub record RequestStop : Type 0 where
  pub shutdown : Bool
  pub cancelled : Bool
  pub late : Bool

unfoldable pub reason : RequestStop → Option Text
reason s =
    if s.shutdown
    then some (codes "SSH connection manager is shutting down")
    else if s.cancelled
    then some (codes "RouterOS command cancelled")
    else if s.late
    then some (codes "RouterOS command deadline exceeded")
    else none

-- `wait`, from the moment of the call and the moment of its return; `stopped` asks in the order of
-- `reason`, and the operation is taken where nothing stops the request
unfoldable pub wait {ℓ} : {A : Type ℓ} → RequestStop → RequestStop → A → Waited A
unfolding reason
wait before after value =
    if_some (reason before) (λ r. stop r) (if_some (reason after) (λ r. stop r) (ready value))

-- no token is taken back, and the clock does not go back
pub record Follows (earlier later : RequestStop) : Type 0 where
  pub shutdown : earlier.shutdown ≡ true → later.shutdown ≡ true
  pub cancelled : earlier.cancelled ≡ true → later.cancelled ≡ true
  pub late : earlier.late ≡ true → later.late ≡ true

abbrev Stopped : RequestStop → Type 0
Stopped s = (r : Text) × (reason s ≡ some r)

if_reason :
    (b : Bool) (first : Text) (rest : Option Text)
    → b ≡ true
    → (if b then some first else rest) ≡ some first
if_reason b first rest h = rw h refl

Stopped-shutdown : (s : RequestStop) → s.shutdown ≡ true → Stopped s
Stopped-shutdown s h = unfold reason in (_, if_reason s.shutdown _ _ h)

later_reason :
    (b : Bool) (first : Text) (rest : Option Text)
    → (r : Text) × (rest ≡ some r)
    → (r : Text) × ((if b then some first else rest) ≡ some r)
later_reason true first rest h = (first, refl)
later_reason false first rest h = h

Stopped-cancelled : (s : RequestStop) → s.cancelled ≡ true → Stopped s
Stopped-cancelled s h =
    unfold reason in later_reason s.shutdown _ _ (_, if_reason s.cancelled _ _ h)

Stopped-late : (s : RequestStop) → s.late ≡ true → Stopped s
Stopped-late s h =
    unfold reason in
    later_reason s.shutdown _ _ (later_reason s.cancelled _ _ (_, if_reason s.late _ _ h))

if_other : (b : Bool) (first rest : Option Text) → b ≡ false → (if b then first else rest) ≡ rest
if_other b first rest h = rw h refl

reason-none :
    (s : RequestStop) → s.shutdown ≡ false → s.cancelled ≡ false → s.late ≡ false → reason s ≡ none
unfolding reason
reason-none s h k m = if_other s.shutdown _ _ h ∙ if_other s.cancelled _ _ k ∙ if_other s.late _ _ m

reason-Follows :
    (earlier later : RequestStop) → Follows earlier later → Stopped earlier → Stopped later
reason-Follows earlier later f (r, h) = elim (Bool-cases earlier.shutdown) [
  | inl e ↦ Stopped-shutdown later (f.shutdown e)
  | inr e ↦ elim (Bool-cases earlier.cancelled) [
    | inl k ↦ Stopped-cancelled later (f.cancelled k)
    | inr k ↦ elim (Bool-cases earlier.late) [
      | inl m ↦ Stopped-late later (f.late m)
      | inr m ↦ cc (reason-none earlier e k m, h)
    ]
  ]
]

Lasts-if_some :
    (before after : Option Text) (opened : Result OpenFailure (Unit {0})) (at_exec : Option Text)
    → ((r : Text) × (before ≡ some r) → (t : Text) × (at_exec ≡ some t))
    → ((r : Text) × (after ≡ some r) → (t : Text) × (at_exec ≡ some t))
    → Lasts (if_some before (λ r. stop r) (if_some after (λ r. stop r) (ready opened))) at_exec
Lasts-if_some (some r) after opened at_exec h k = h (r, refl)
Lasts-if_some none (some r) opened at_exec h k = k (r, refl)
Lasts-if_some none none opened at_exec h k = tt

-- Where no token is taken back and the clock does not go back, the task answers the request exactly
-- once, with a result that is true of what it did, whatever its other awaits give.
pub wait-Answers :
    (max_tokens : Option ℕ) (a : Awaits) (before after later : RequestStop)
    (opened : Result OpenFailure (Unit {0}))
    → Follows before after
    → Follows after later
    → a.opened ≡ wait before after opened
    → a.reason_before_exec ≡ reason later
    → Answers (routeros_owner max_tokens a)
unfolding wait
wait-Answers max_tokens a before after later opened f g waited asked =
    let lasts : Lasts (wait before after opened) (reason later) =
      Lasts-if_some (reason before) (reason after) opened (reason later)
        (λ r. reason-Follows after later g (reason-Follows before after f r))
        (reason-Follows after later g) in
    routeros_owner-Answers max_tokens a (
      subst (λ w. Lasts w a.reason_before_exec) (sym waited)
        (subst (Lasts (wait before after opened)) (sym asked) lasts))
