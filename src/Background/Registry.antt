-- ===== src/Background/Registry.antt =====
-- src/background/registry.rs: the jobs by their id. An entry holds the handle of a shared job; a
-- handle stands for the job's place in memory, so two entries share a job where their handles are
-- equal. A job can be changed behind its lock while the registry holds it, so the jobs are a
-- function of the handles that each step is given as it finds it.
pub mod Pruning
pub mod Complete
use se_sshion.Base.{
  ℕ, ◌+◌, Bool, true, false, Option, none, some, List, [], ◌∷◌, leb, ltb, ◌==◌, not, ◌&&◌,
  if◌then◌else◌, if_some,
}
use se_sshion.Base.Lists.{is_nil}
use se_sshion.Base.Text.{Text, text_eq}
use se_sshion.Background.{JobState, is_terminal, duration_since}

abbrev pub Entries : Type 0
Entries = List (Text × ℕ)

abbrev pub Jobs : Type 0
Jobs = ℕ → JobState

unfoldable pub get : Text → Entries → Option ℕ
unfolding text_eq
get id [] = none
get id ((key, job) ∷ entries) =
    let rest = get id entries in if text_eq key id then some job else rest

unfoldable pub remove : Text → Entries → Entries
unfolding text_eq
remove id [] = []
remove id ((key, job) ∷ entries) =
    let rest = remove id entries in if text_eq key id then rest else (key, job) ∷ rest

-- an entry with the same id is replaced
unfoldable pub insert : Text → ℕ → Entries → Entries
unfolding remove
insert id job entries = (id, job) ∷ remove id entries

-- The age of an end is known, and above the retention.
unfoldable pub is_past : ℕ → ℕ → ℕ → Bool
unfolding duration_since
is_past retention now completed_at =
    if_some (duration_since now completed_at) (λ age. ltb retention age) false

-- the end of a job that the first loop of `prune_expired` lists
unfoldable pub expired_end : ℕ → ℕ → JobState → Option ℕ
unfolding is_terminal is_past
expired_end retention now job =
    if is_terminal job
    then if_some job.completed_at (λ t. if is_past retention now t then some t else none) none
    else none

-- the first loop, over the snapshot; `seen` is each job as the loop finds it
unfoldable pub list_expired : ℕ → ℕ → Jobs → Entries → List (Text × (ℕ × ℕ))
unfolding expired_end
list_expired retention now seen [] = []
list_expired retention now seen ((id, job) ∷ entries) =
    let rest = list_expired retention now seen entries in
    if_some (expired_end retention now (seen job)) (λ t. (id, (job, t)) ∷ rest) rest

abbrev pub is_end : ℕ → Option ℕ → Bool
is_end t none = false
is_end t (some completed_at) = completed_at == t

-- The tests of the second loop on the job of `current`, which is not removed unless all hold.
-- `locked` tells the jobs that another task holds.
unfoldable pub may_remove : ℕ → ℕ → Jobs → (ℕ → Bool) → ℕ → ℕ × ℕ → Bool
unfolding is_terminal is_past
may_remove retention now jobs locked current (job, t) =
    current == job
    && (not (locked current)
        && (is_terminal (jobs current)
            && (is_end t (jobs current).completed_at && is_past retention now t)))

-- one round of the second loop
unfoldable pub remove_one : ℕ → ℕ → Jobs → (ℕ → Bool) → Text × (ℕ × ℕ) → Entries × ℕ → Entries × ℕ
unfolding get remove may_remove
remove_one retention now jobs locked (id, expired) (entries, removed) =
    if_some (get id entries)
      (λ current.
        if may_remove retention now jobs locked current expired
        then (remove id entries, removed + 1)
        else (entries, removed))
      (entries, removed)

-- the second loop, under the write lock
unfoldable pub remove_expired :
    ℕ → ℕ → Jobs → (ℕ → Bool) → List (Text × (ℕ × ℕ)) → Entries × ℕ → Entries × ℕ
unfolding remove_one
remove_expired retention now jobs locked [] state = state
remove_expired retention now jobs locked (expired ∷ more) state =
    remove_expired retention now jobs locked more
      (remove_one retention now jobs locked expired state)

-- `snapshot` and `seen` are what the first loop finds; `entries`, `jobs` and `locked` what the
-- second one does, when other tasks may have run in between.
unfoldable pub prune_expired : ℕ → ℕ → Entries → Jobs → Entries → Jobs → (ℕ → Bool) → Entries × ℕ
unfolding list_expired remove_expired
prune_expired retention now snapshot seen entries jobs locked =
    let expired = list_expired retention now seen snapshot in
    if is_nil expired
    then (entries, 0)
    else remove_expired retention now jobs locked expired (entries, 0)
