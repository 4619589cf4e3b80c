-- ===== src/Store/Queue/Machine.antt =====
-- The life of a job as a state machine, and what it means for a table of jobs to follow it.
use memoryd.Prelude.{Bool, true, false, List, [], ◌∷◌, ◌++◌, map, All, ◌≡◌, refl, ◌∙◌, arith}
use memoryd.Store.Tables.{Job, JobState}
use memoryd.Store.Queue.{is_active}

-- A waiting job, or one whose lease ran out, is leased; a leased job is done, waits for a retry, or
-- is dead.
pub data Edge : JobState → JobState → Type 0 where
  lease : Edge JobState.pending JobState.running
  lease_retry : Edge JobState.deferred JobState.running
  lease_again : Edge JobState.running JobState.running
  finish : Edge JobState.running JobState.done
  defer : Edge JobState.running JobState.deferred
  bury : Edge JobState.running JobState.dead

pub data Goes (s : JobState) : JobState → Type 0 where
  stay : Goes s s
  step : {t u : JobState} → Goes s t → Edge t u → Goes s u

pub Goes-trans : {s t u : JobState} → Goes s t → Goes t u → Goes s u
Goes-trans g stay = g
Goes-trans g (step h e) = step (Goes-trans g h) e

-- A job that is done or dead has no edge out.
abbrev pub is_final : JobState → Bool
is_final JobState.done = true
is_final JobState.dead = true
is_final _ = false

Edge-not-final : {s t : JobState} → Edge s t → is_final s ≡ false
Edge-not-final lease = refl
Edge-not-final lease_retry = refl
Edge-not-final lease_again = refl
Edge-not-final finish = refl
Edge-not-final defer = refl
Edge-not-final bury = refl

Edge-active : {s t : JobState} → Edge s t → is_active s ≡ true
Edge-active lease = refl
Edge-active lease_retry = refl
Edge-active lease_again = refl
Edge-active finish = refl
Edge-active defer = refl
Edge-active bury = refl

pub Goes-final : {s t : JobState} → Goes s t → is_final s ≡ true → t ≡ s
Goes-final stay h = refl
Goes-final (step g e) h = absurd (ground (arith, Goes-final g h, Edge-not-final e))

pub Goes-active : {s t : JobState} → Goes s t → is_active t ≡ true → is_active s ≡ true
Goes-active stay h = h
Goes-active (step g e) h = Goes-active g (Edge-active e)

-- The rows of a later table: those of the earlier one in order, each moved along the machine, and
-- behind them new ones, which have begun as pending.
abbrev pub Tracks : List Job → List Job → Type 0
Tracks [] ks = All (λ k. Goes JobState.pending k.state) ks
Tracks (j ∷ js) [] = ⊥
Tracks (j ∷ js) (k ∷ ks) = (k.id ≡ j.id) × Goes j.state k.state × Tracks js ks

pub Tracks-refl : (js : List Job) → Tracks js js
Tracks-refl [] = tt
Tracks-refl (j ∷ js) = (refl, stay, Tracks-refl js)

pub Tracks-trans : (js ks ls : List Job) → Tracks js ks → Tracks ks ls → Tracks js ls
Tracks-trans [] [] ls h g = g
Tracks-trans [] (k ∷ ks) [] h g = absurd g
Tracks-trans [] (k ∷ ks) (l ∷ ls) (h, hs) (e, g, gs) = (Goes-trans h g, Tracks-trans [] ks ls hs gs)
Tracks-trans (j ∷ js) [] ls h g = absurd h
Tracks-trans (j ∷ js) (k ∷ ks) [] h g = absurd g
Tracks-trans (j ∷ js) (k ∷ ks) (l ∷ ls) (e, h, hs) (e', g, gs) =
    (e' ∙ e, Goes-trans h g, Tracks-trans js ks ls hs gs)

-- An UPDATE that moves each row along the machine.
pub Tracks-map :
    (f : Job → Job) (js : List Job)
    → All (λ j. ((f j).id ≡ j.id) × Goes j.state (f j).state) js
    → Tracks js (map f js)
Tracks-map f [] h = tt
Tracks-map f (j ∷ js) ((e, g), hs) = (e, g, Tracks-map f js hs)

pub Tracks-snoc : (js : List Job) (k : Job) → k.state ≡ JobState.pending → Tracks js (js ++ k ∷ [])
Tracks-snoc [] k h = (rw h stay, tt)
Tracks-snoc (j ∷ js) k h = (refl, stay, Tracks-snoc js k h)
