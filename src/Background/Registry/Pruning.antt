-- ===== src/Background/Registry/Pruning.antt =====
-- What `prune_expired` may remove, and what it must.
use se_sshion.Base.{
  not, ℕ, ◌+◌, ◌<◌, Bool, true, false, Option, none, some, List, [], ◌∷◌, ◌≡◌, ◌⊎◌, refl, sym, ap,
  ◌∙◌, arith, inl, inr, Bool-cases, if◌then◌else◌, if_some, &&-eq-true, subst,
}
use se_sshion.Base.Lists.{is_nil}
use se_sshion.Base.Text.{Text, text_eq, text_eq_iff}
use se_sshion.Background.{JobState, is_terminal}
use se_sshion.Background.Registry.{
  Entries, Jobs, get, remove, is_past, is_end, list_expired, may_remove, remove_expired,
  prune_expired, remove_one,
}

-- The job has ended, and longer ago than the retention.
pub record IsExpired (retention now : ℕ) (job : JobState) : Type 0 where
  pub terminal : is_terminal job ≡ true
  pub end : ℕ
  pub ended_at : job.completed_at ≡ some end
  pub past : end + retention < now

pub get-remove-same : (id : Text) (entries : Entries) → get id (remove id entries) ≡ none
unfolding get remove
get-remove-same id [] = refl
get-remove-same id ((key, job) ∷ entries) = elim (Bool-cases (text_eq key id)) [
  | inl e ↦ rw e (get-remove-same id entries)
  | inr e ↦ rw e (rw e (get-remove-same id entries))
]

get-remove-other :
    (id other : Text) (entries : Entries)
    → text_eq id other ≡ false
    → get other (remove id entries) ≡ get other entries
unfolding get remove
get-remove-other id other [] h = refl
get-remove-other id other ((key, job) ∷ entries) h = elim (Bool-cases (text_eq key id)) [
  | inl e ↦
      let not_other : text_eq key other ≡ false =
        ap (λ k. text_eq k other) ((text_eq_iff key id).0 e) ∙ h in
      rw (e, not_other) (get-remove-other id other entries h)
  | inr e ↦
      rw e
        (ap (λ r. if text_eq key other then some job else r) (get-remove-other id other entries h))
]

is_end-eq : (t : ℕ) (end : Option ℕ) → is_end t end ≡ true → end ≡ some t
is_end-eq t none h = cc
is_end-eq t (some u) h = ap some (ground arith)

not-eq-true : (b : Bool) → not b ≡ true → b ≡ false
not-eq-true b h = ground arith

is_past-lt : (retention now t : ℕ) → is_past retention now t ≡ true → t + retention < now
unfolding is_past
is_past-lt retention now t h = ground arith

may_remove-IsExpired :
    (retention now : ℕ) (jobs : Jobs) (locked : ℕ → Bool) (current : ℕ) (expired : ℕ × ℕ)
    → may_remove retention now jobs locked current expired ≡ true
    → (locked current ≡ false) × IsExpired retention now (jobs current)
unfolding may_remove
may_remove-IsExpired retention now jobs locked current (job, t) h =
    let (same, rest) = &&-eq-true _ _ h in
    let (free, rest') = &&-eq-true _ _ rest in
    let (terminal, rest'') = &&-eq-true _ _ rest' in
    let (at_end, past) = &&-eq-true _ _ rest'' in
    (
      not-eq-true (locked current) free,
      record {
        terminal = terminal;
        end = t;
        ended_at = is_end-eq t (jobs current).completed_at at_end;
        past = is_past-lt retention now t past;
      },
    )

-- An entry is as it was, or it is gone and its job, which no one held, had expired.
module _ (retention now : ℕ) (jobs : Jobs) (locked : ℕ → Bool) where
  abbrev pub IsPruned : Option ℕ → Option ℕ → Type 0
  IsPruned before after =
      (after ≡ before)
      ⊎ ((job : ℕ) × (after ≡ none)
          × (before ≡ some job)
          × (locked job ≡ false)
          × IsExpired retention now (jobs job))

  IsPruned-next : {a b c : Option ℕ} → IsPruned a b → IsPruned b c → IsPruned a c
  IsPruned-next (inl e) (inl k) = inl (k ∙ e)
  IsPruned-next (inl e) (inr (job, gone, was, free, expired)) =
      inr (job, gone, sym e ∙ was, free, expired)
  IsPruned-next (inr (job, gone, was, free, expired)) (inl k) =
      inr (job, k ∙ gone, was, free, expired)
  IsPruned-next (inr (job, was_gone, was, free, expired)) (inr h) =
      inr (job, h.1, was, free, expired)

  remove-IsPruned :
      (key id : Text) (entries : Entries) (current : ℕ)
      → get key entries ≡ some current
      → locked current ≡ false
      → IsExpired retention now (jobs current)
      → IsPruned (get id entries) (get id (remove key entries))
  remove-IsPruned key id entries current found free expired = elim (Bool-cases (text_eq key id)) [
    | inl e ↦
        let same : key ≡ id = (text_eq_iff key id).0 e in
        inr (
          current,
          subst (λ k. get k (remove key entries) ≡ none) same (get-remove-same key entries),
          subst (λ k. get k entries ≡ some current) same found,
          free,
          expired,
        )
    | inr e ↦ inl (get-remove-other key id entries e)
  ]

  pub found-IsPruned :
      (key id : Text) (e : ℕ × ℕ) (entries : Entries) (removed : ℕ) (found : Option ℕ)
      → get key entries ≡ found
      → IsPruned (get id entries) (
          get id
            (if_some {B = Entries × ℕ} found
              (λ current.
                if may_remove retention now jobs locked current e
                then (remove key entries, removed + 1)
                else (entries, removed))
              (entries, removed)).0)
  found-IsPruned key id e entries removed none h = inl refl
  found-IsPruned key id e entries removed (some current) h =
      elim (Bool-cases (may_remove retention now jobs locked current e)) [
        | inl k ↦
            let (free, expired) = may_remove-IsExpired retention now jobs locked current e k in
            rw k (remove-IsPruned key id entries current h free expired)
        | inr k ↦ rw k (inl refl)
      ]

  pub remove_expired-IsPruned :
      (expired : List (Text × (ℕ × ℕ))) (state : Entries × ℕ) (id : Text)
      → IsPruned
          (get id state.0)
          (get id (remove_expired retention now jobs locked expired state).0)
  unfolding remove_expired remove_one
  remove_expired-IsPruned [] state id = inl refl
  remove_expired-IsPruned ((key, e) ∷ more) (entries, removed) id =
      IsPruned-next (found-IsPruned key id e entries removed (get key entries) refl) (
        remove_expired-IsPruned more
          (remove_one retention now jobs locked (key, e) (entries, removed)) id)

  -- Whatever the other tasks did between the two loops, a job is dropped only if, when it is, it
  -- is free and has expired; every other entry stays.
  pub prune_expired-IsPruned :
      (snapshot : Entries) (seen : Jobs) (entries : Entries) (id : Text)
      → IsPruned
          (get id entries)
          (get id (prune_expired retention now snapshot seen entries jobs locked).0)
  unfolding prune_expired
  prune_expired-IsPruned snapshot seen entries id =
      elim (Bool-cases (is_nil (list_expired retention now seen snapshot))) [
        | inl e ↦ rw e (inl refl)
        | inr e ↦
            rw e
              (remove_expired-IsPruned (list_expired retention now seen snapshot) (entries, 0) id)
      ]
