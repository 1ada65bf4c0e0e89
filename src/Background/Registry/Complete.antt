-- ===== src/Background/Registry/Complete.antt =====
-- With no other task in between, `prune_expired` drops every job that has expired.
use se_sshion.Base.{
  ℕ, ◌+◌, ◌<◌, Bool, true, false, Option, none, some, List, [], ◌∷◌, ◌≡◌, ◌⊎◌, refl, sym, ap, ◌∙◌,
  arith, inl, inr, Bool-cases, if_some, ==_iff, subst,
}
use mathlib.Core.Option.{some-injective}
use se_sshion.Base.Lists.{is_nil, Elem, here, later}
use se_sshion.Base.Text.{Text, text_eq, text_eq_iff}
use se_sshion.Background.{JobState, duration_since}
use se_sshion.Background.Registry.{
  Entries, Jobs, get, is_past, expired_end, list_expired, may_remove, remove_one, remove_expired,
  prune_expired,
}
use se_sshion.Background.Registry.Pruning.{
  IsExpired, get-remove-same, found-IsPruned, remove_expired-IsPruned,
}

Elem-some {ℓ} : {A : Type ℓ} {a : A} {xs : List A} → Elem a xs → is_nil xs ≡ false
Elem-some (here h) = refl
Elem-some (later h) = refl

abbrev pub no_lock : ℕ → Bool
no_lock job = false

module _ (retention now : ℕ) (jobs : Jobs) where
  gt-is_past : (t : ℕ) → t + retention < now → is_past retention now t ≡ true
  unfolding is_past duration_since
  gt-is_past t h = ground arith

  expired-end :
      (job : JobState) (h : IsExpired retention now job)
      → expired_end retention now job ≡ some h.end
  unfolding expired_end
  expired-end job h = rw (h.terminal, h.ended_at, gt-is_past h.end h.past) refl

  expired-may_remove :
      (job : ℕ) (h : IsExpired retention now (jobs job))
      → may_remove retention now jobs no_lock job (job, h.end) ≡ true
  unfolding may_remove
  expired-may_remove job h =
      rw
        (
          (==_iff job job).1 refl,
          h.terminal,
          h.ended_at,
          (==_iff h.end h.end).1 refl,
          gt-is_past h.end h.past,
        )
        refl

  kept-listed {ℓ κ} :
      {A : Type ℓ} {B : Type κ} (o : Option A) (f : A → B) {x : B} {rest : List B}
      → Elem x rest
      → Elem x (if_some o (λ a. f a ∷ rest) rest)
  kept-listed none f h = h
  kept-listed (some a) f h = later h

  expired-listed :
      (entries : Entries) (id : Text) (job : ℕ)
      → get id entries ≡ some job
      → (h : IsExpired retention now (jobs job))
      → Elem (id, (job, h.end)) (list_expired retention now jobs entries)
  unfolding get list_expired
  expired-listed [] id job found h = cc
  expired-listed ((key, other) ∷ entries) id job found h = elim (Bool-cases (text_eq key id)) [
    | inl e ↦
        let job_is : other ≡ job = some-injective _ _ (rw e at found) in
        let end_is : expired_end retention now (jobs other) ≡ some h.end =
          ap (λ j. expired_end retention now (jobs j)) job_is ∙ expired-end (jobs job) h in
        rw end_is (
          here (
            sym (
              ap (λ k. (k, (other, h.end))) ((text_eq_iff key id).0 e)
              ∙ ap (λ j. (id, (j, h.end))) job_is)))
    | inr e ↦
        kept-listed (expired_end retention now (jobs other)) (λ t. (key, (other, t)))
          (expired-listed entries id job (rw e at found) h)
  ]

  -- the entry is that of the job, or gone
  abbrev IsAt : Text → ℕ → Entries → Type 0
  IsAt id job entries = (get id entries ≡ none) ⊎ (get id entries ≡ some job)

  stays_gone :
      (expired : List (Text × (ℕ × ℕ))) (state : Entries × ℕ) (id : Text)
      → get id state.0 ≡ none
      → get id (remove_expired retention now jobs no_lock expired state).0 ≡ none
  stays_gone expired state id gone =
      elim (remove_expired-IsPruned retention now jobs no_lock expired state id) [
        | inl e ↦ e ∙ gone
        | inr h ↦ h.1
      ]

  one-gone :
      (state : Entries × ℕ) (id : Text) (job : ℕ) (h : IsExpired retention now (jobs job))
      → IsAt id job state.0
      → get id (remove_one retention now jobs no_lock (id, (job, h.end)) state).0 ≡ none
  unfolding remove_one
  one-gone (entries, removed) id job h (inl gone) = rw gone gone
  one-gone (entries, removed) id job h (inr found) =
      rw (found, expired-may_remove job h) (get-remove-same id entries)

  one-IsAt :
      (e : Text × (ℕ × ℕ)) (state : Entries × ℕ) (id : Text) (job : ℕ)
      → IsAt id job state.0
      → IsAt id job (remove_one retention now jobs no_lock e state).0
  unfolding remove_one
  one-IsAt (key, e) (entries, removed) id job at =
      elim (found-IsPruned retention now jobs no_lock key id e entries removed (get key entries)
        refl) [
          | inr h ↦ inl h.1
          | inl k ↦ elim at [ inl gone ↦ inl (k ∙ gone) | inr found ↦ inr (k ∙ found) ]
        ]

  listed-gone :
      (expired : List (Text × (ℕ × ℕ))) (state : Entries × ℕ) (id : Text) (job : ℕ)
      → (h : IsExpired retention now (jobs job)) → Elem (id, (job, h.end)) expired
      → IsAt id job state.0
      → get id (remove_expired retention now jobs no_lock expired state).0 ≡ none
  unfolding remove_expired remove_one
  listed-gone [] state id job h at_end here_is = elim at_end [ ]
  listed-gone (e ∷ more) state id job h (here same) at =
      subst
        (λ x.
          get id
            (remove_expired retention now jobs no_lock more
              (remove_one retention now jobs no_lock x state)).0
          ≡ none)
        same
        (stays_gone more (remove_one retention now jobs no_lock (id, (job, h.end)) state) id
          (one-gone state id job h at))
  listed-gone (e ∷ more) state id job h (later there) at =
      listed-gone more (remove_one retention now jobs no_lock e state) id job h there
        (one-IsAt e state id job at)

  -- A job that has expired is gone after a `prune_expired` that no other task interrupts.
  pub prune_expired-gone :
      (entries : Entries) (id : Text) (job : ℕ)
      → get id entries ≡ some job
      → IsExpired retention now (jobs job)
      → get id (prune_expired retention now entries jobs entries jobs no_lock).0 ≡ none
  unfolding prune_expired
  prune_expired-gone entries id job found h =
      let listed : Elem (id, (job, h.end)) (list_expired retention now jobs entries) =
        expired-listed entries id job found h in
      rw (Elem-some listed) (
        listed-gone (list_expired retention now jobs entries) (entries, 0) id job h listed
          (inr found))
