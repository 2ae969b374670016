-- ===== src/Resume/Attempts.antt =====
-- Several attempts of a pipeline under a checkpoint (src/main.rs `run_step!` and `resume.finish()`): what each
-- opens, runs and leaves.
use text.Mathlib.Text.{◌==◌ as str_eq}
use text.Mathlib.TextEquality.{eq_iff}
use mlai_trade.Common.{
  if◌then◌else◌, inl, inr, ◌≡◌, refl, Bool, false, ◌||◌, none, some, List, [], ◌∷◌, ◌++◌, String,
  arith, Bool-cases, All, ◌∙◌,
}
use mlai_trade.Resume.{
  PipelineStep, PipelineResumeState, json, Disk, Faults, run_steps, PipelineRun, open_resume,
  finish, new_state, PipelineResumeProfile, state_version,
}
use mlai_trade.Resume.Open.{IsCalm, open_same}
use mlai_trade.Resume.Pipeline.{is_completed, is_among, AllDistinct, IsRun, run_steps-IsRun}

-- The ids of an attempt go in front of the refresh that it is part of.
abbrev pub in_front : List String → List (List String) → List (List String)
in_front ids [] = ids ∷ []
in_front ids (first ∷ rest) = (ids ++ first) ∷ rest

abbrev pub first_refresh : List (List String) → List String
first_refresh [] = []
first_refresh (first ∷ rest) = first

-- Attempts one after the other: each opens what the last one left, runs the steps with its own bodies'
-- outcomes, and stops at an error. An attempt that gets to the end removes the checkpoint, and the next one
-- begins another refresh. The ids that ran in each refresh, in order.
unfoldable pub run_attempts :
    Faults
    → (String → Bool)
    → List PipelineStep
    → List (String → Bool)
    → PipelineResumeState
    → List (List String)
run_attempts f skip_steps steps [] s = []
run_attempts f skip_steps steps (body ∷ bodies) s =
    let r : PipelineRun = run_steps f skip_steps body steps s (some (json s)) in
    let disk : Disk = if r.done then finish f r.disk else r.disk in
    let rest : List (List String) = elim (open_resume f s.profile false disk).0 [
      | none ↦ []
      | some t ↦ run_attempts f skip_steps steps bodies t
    ] in
    if r.done then r.ran ∷ rest else in_front r.ran rest

among-append :
    (id : String) (a b : List String) → is_among id (a ++ b) ≡ (is_among id a || is_among id b)
among-append id [] b = refl
among-append id (j ∷ a) b = ground (arith, among-append id a b)

not_among :
    (id : String) (b : List String) → All (λ j. str_eq id j ≡ false) b → is_among id b ≡ false
not_among id [] h = refl
not_among id (j ∷ b) (e, h) = ground (arith, not_among id b h, eq_iff id j, eq_iff j id)

All_map : {P Q : String → Type 0} (b : List String) → ((j : String) → P j → Q j) → All P b → All Q b
All_map [] h a = tt
All_map (j ∷ b) h (p, a) = (h j p, All_map b h a)

All-append : (P : String → Type 0) (a b : List String) → All P a → All P b → All P (a ++ b)
All-append P [] b p q = q
All-append P (j ∷ a) b (e, p) q = (e, All-append P a b p q)

distinct-append :
    (a b : List String)
    → AllDistinct a
    → AllDistinct b
    → All (λ j. is_among j a ≡ false) b
    → AllDistinct (a ++ b)
distinct-append [] b da db h = db
distinct-append (id ∷ a) b (once, da) db h = (
  ground (
    arith,
    among-append id a b,
    not_among id b (
        All_map {P = λ j. is_among j (id ∷ a) ≡ false} {Q = λ j. str_eq id j ≡ false} b
          (λ j p. ground arith) h),
  ),
  distinct-append a b da db (
      All_map {P = λ j. is_among j (id ∷ a) ≡ false} {Q = λ j. is_among j a ≡ false} b
        (λ j p. ground arith) h),
)

-- Every refresh is run without a repetition, and the first one over no step that was completed before.
abbrev pub IsResumed : PipelineResumeState → List (List String) → Type 0
IsResumed s refreshes =
    All AllDistinct refreshes × All (λ id. is_completed s id ≡ false) (first_refresh refreshes)

ended-IsResumed :
    (s t : PipelineResumeState) (ids : List String) (refreshes : List (List String))
    → AllDistinct ids
    → All (λ id. is_completed s id ≡ false) ids
    → IsResumed t refreshes
    → IsResumed s (ids ∷ refreshes)
ended-IsResumed s t ids refreshes distinct fresh (all, first) = ((distinct, all), fresh)

goes_on-IsResumed :
    (s t : PipelineResumeState) (ids : List String) (refreshes : List (List String))
    → ((id : String) → is_completed t id ≡ (is_completed s id || is_among id ids))
    → AllDistinct ids
    → All (λ id. is_completed s id ≡ false) ids
    → IsResumed t refreshes
    → IsResumed s (in_front ids refreshes)
goes_on-IsResumed s t ids [] recorded distinct fresh h = ((distinct, tt), fresh)
goes_on-IsResumed s t ids (first ∷ rest) recorded distinct fresh ((once, all), new) = (
  (
    distinct-append ids first distinct once (
        All_map {P = λ j. is_completed t j ≡ false} {Q = λ j. is_among j ids ≡ false} first
          (λ j p. ground (arith, recorded j)) new),
    all,
  ),
  All-append (λ j. is_completed s j ≡ false) ids first fresh
      (All_map {P = λ j. is_completed t j ≡ false} {Q = λ j. is_completed s j ≡ false} first
        (λ j p. ground (arith, recorded j)) new),
)

-- Behind the end of a refresh a new state is opened.
open-finish :
    (f : Faults) (profile : PipelineResumeProfile) (s : PipelineResumeState)
    → IsCalm f
    → (open_resume f profile false (finish f (some (json s)))).0 ≡ some (new_state f profile)
unfolding open_resume finish new_state
open-finish f profile s calm = ground (arith, calm.reads, calm.writes, calm.removes)

-- If every file operation succeeds and the profile and the skipped steps stay the same: over any number of
-- attempts, whichever bodies fail in which attempt, no step's body runs to success twice in one refresh, which
-- ends with the attempt that gets to the end and removes the checkpoint, and in the first refresh no step
-- runs that the checkpoint had completed.
pub run_attempts-IsResumed :
    (f : Faults) (skip_steps : String → Bool) (steps : List PipelineStep)
    (bodies : List (String → Bool)) (s : PipelineResumeState)
    → IsCalm f
    → s.version ≡ state_version
    → IsResumed s (run_attempts f skip_steps steps bodies s)
unfolding run_attempts new_state
run_attempts-IsResumed f skip_steps steps [] s calm v = (tt, tt)
run_attempts-IsResumed f skip_steps steps (body ∷ bodies) s calm v =
    let r : PipelineRun = run_steps f skip_steps body steps s (some (json s)) in
    let run : IsRun f skip_steps body calm.writes s steps r =
      run_steps-IsRun f skip_steps body calm.writes steps s in
    elim (Bool-cases r.done) [
      | inl done ↦
          let t : PipelineResumeState = new_state f s.profile in
          let opened : (open_resume f s.profile false (finish f r.disk)).0 ≡ some t =
            rw run.stored (open-finish f s.profile r.state calm) in
          rw (done, opened)
            (ended-IsResumed s t r.ran (run_attempts f skip_steps steps bodies t) run.distinct
              run.fresh (run_attempts-IsResumed f skip_steps steps bodies t calm refl))
      | inr stopped ↦
          let t : PipelineResumeState = record r.state { updated_at_utc = f.utc_now } in
          let opened : (open_resume f s.profile false r.disk).0 ≡ some t =
            rw run.stored
              (open_same f s.profile r.state calm (run.same_profile.1 ∙ v) run.same_profile.0) in
          rw (stopped, opened)
            (goes_on-IsResumed s t r.ran (run_attempts f skip_steps steps bodies t)
              (λ id. run.recorded id) run.distinct run.fresh
              (run_attempts-IsResumed f skip_steps steps bodies t calm (run.same_profile.1 ∙ v)))
    ]
