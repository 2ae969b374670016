-- ===== src/Resume/Pipeline.antt =====
-- A run of the steps of a pipeline under a checkpoint (src/main.rs `run_step!`).
use text.Mathlib.Text.{◌==◌ as str_eq}
use text.Mathlib.TextEquality.{eq_iff}
use text.Mathlib.TextPositions.{eq_refl}
use mlai_trade.Common.{
  ◌⊎◌, inl, inr, ◌≡◌, refl, Bool, true, false, ◌||◌, ◌&&◌, some, is_some, List, [], ◌∷◌, String,
  arith, Bool-cases, any, All, subst, sym, ◌∙◌,
}
use mlai_trade.Resume.{
  PipelineStep, CompletedStep, PipelineResumeState, json, Disk, Faults, lookup, begin_step,
  complete_step, fail_step, run_step, run_steps, StepRun, PipelineRun,
}
use mlai_trade.Resume.Lookup.{lookup-insert}

-- The step with this id is recorded as completed.
abbrev pub is_completed : PipelineResumeState → String → Bool
is_completed s id = is_some (lookup id s.completed_steps)

abbrev pub is_among : String → List String → Bool
is_among id = any (λ j. str_eq j id)

-- No id stands twice in the list.
abbrev pub AllDistinct : List String → Type 0
AllDistinct [] = Unit
AllDistinct (id ∷ ids) = (is_among id ids ≡ false) × AllDistinct ids

module _ (f : Faults) (skip_steps : String → Bool) (body : String → Bool)
    (w : f.write_ok ≡ true) where
  -- One step: the file follows the memory, what ran was not completed before, and exactly it is new.
  run_step_lem :
      (step : PipelineStep) (s : PipelineResumeState) (id : String)
      → let r = run_step f skip_steps body step s (some (json s)) in
        (r.disk ≡ some (json r.state))
        × (r.ran ≡ true → is_completed s step.id ≡ false)
        × (is_completed r.state id ≡ (is_completed s id || (r.ran && str_eq step.id id)))
        × (r.go_on ≡ true → (skip_steps step.id ≡ true) ⊎ (is_completed r.state step.id ≡ true))
        × (r.ran ≡ true → skip_steps step.id ≡ false)
  unfolding run_step begin_step complete_step fail_step
  run_step_lem step s id =
      let c : CompletedStep = record { step = step; completed_at_utc = f.utc_now } in
      ground (
        arith,
        lookup-insert step.id id c s.completed_steps,
        lookup-insert step.id step.id c s.completed_steps,
        eq_refl step.id,
        eq_iff step.id id,
      )

  -- What a run of steps from a stored state leaves.
  pub record IsRun (s : PipelineResumeState) (steps : List PipelineStep) (r : PipelineRun)
      : Type 0 where
    pub stored : r.disk ≡ some (json r.state)
    pub recorded :
        (id : String) → is_completed r.state id ≡ (is_completed s id || is_among id r.ran)
    pub distinct : AllDistinct r.ran
    pub fresh : All (λ id. is_completed s id ≡ false) r.ran
    pub unskipped : All (λ id. skip_steps id ≡ false) r.ran
    pub complete :
        (r.done ≡ false)
        ⊎ All (λ step. (skip_steps step.id ≡ true) ⊎ (is_completed r.state step.id ≡ true)) steps
    pub same_profile : (r.state.profile ≡ s.profile) × (r.state.version ≡ s.version)

  run_step-profile :
      (step : PipelineStep) (s : PipelineResumeState) (disk : Disk)
      → let r = run_step f skip_steps body step s disk in
        (r.state.profile ≡ s.profile) × (r.state.version ≡ s.version)
  unfolding run_step complete_step fail_step
  run_step-profile step s disk = ground arith

  or_assoc : (a b c : Bool) → ((a || b) || c) ≡ (a || (b || c))
  or_assoc a b c = ground arith

  fresh_before :
      (s t : PipelineResumeState) (id : String) (ids : List String)
      → ((j : String) → is_completed t j ≡ (is_completed s j || str_eq id j))
      → All (λ j. is_completed t j ≡ false) ids
      → All (λ j. is_completed s j ≡ false) ids × (is_among id ids ≡ false)
  fresh_before s t id [] h a = (tt, refl)
  fresh_before s t id (j ∷ ids) h (a, rest) =
      ground (arith, h j, fresh_before s t id ids h rest, eq_iff j id, eq_iff id j)

  fresh_same :
      (s t : PipelineResumeState) (ids : List String)
      → ((j : String) → is_completed t j ≡ is_completed s j)
      → All (λ j. is_completed t j ≡ false) ids
      → All (λ j. is_completed s j ≡ false) ids
  fresh_same s t [] h a = tt
  fresh_same s t (j ∷ ids) h (a, rest) = (sym (h j) ∙ a, fresh_same s t ids h rest)

  -- If every write of the checkpoint succeeds, a run from a stored state keeps the file in step with the
  -- memory; a step is recorded exactly if it was or its body now ran to success; no body runs twice, over a
  -- recorded step or for an id of `skip_steps`; a run to the end leaves every step recorded that is not one
  -- of `skip_steps`.
  pub run_steps-IsRun :
      (steps : List PipelineStep) (s : PipelineResumeState)
      → IsRun s steps (run_steps f skip_steps body steps s (some (json s)))
  unfolding run_steps
  run_steps-IsRun [] s = record {
    stored = refl;
    recorded = λ id. ground arith;
    distinct = tt;
    fresh = tt;
    unskipped = tt;
    complete = inr tt;
    same_profile = (refl, refl);
  }
  run_steps-IsRun (step ∷ steps) s =
      let r : StepRun = run_step f skip_steps body step s (some (json s)) in
      let lem = run_step_lem step s in
      let prof = run_step-profile step s (some (json s)) in
      let ih : IsRun r.state steps (run_steps f skip_steps body steps r.state r.disk) =
        rw (lem step.id).0 (run_steps-IsRun steps r.state) in
      let ids : List String = (run_steps f skip_steps body steps r.state r.disk).ran in
      let done_before : r.go_on ≡ true
          → (skip_steps step.id ≡ true)
            ⊎ (is_completed (run_steps f skip_steps body steps r.state r.disk).state step.id
                ≡ true) =
        λ g. ground (arith, ih.recorded step.id, (lem step.id).3 g) in
      elim (Bool-cases r.go_on) [
        | inl g ↦ rw g (elim (Bool-cases r.ran) [
          | inl ran ↦
              let (before, once) =
                fresh_before s r.state step.id ids
                  (λ j.
                    subst
                      (λ b. is_completed r.state j ≡ (is_completed s j || (b && str_eq step.id j)))
                      ran (lem j).2)
                  ih.fresh in
              rw ran (record {
                stored = ih.stored;
                recorded = λ id. ground (arith, ih.recorded id, lem id);
                distinct = (once, ih.distinct);
                fresh = ((lem step.id).1 ran, before);
                unskipped = ((lem step.id).4 ran, ih.unskipped);
                complete = elim ih.complete [
                  | inl stopped ↦ inl stopped
                  | inr all ↦ inr (done_before g, all)
                ];
                same_profile = (ih.same_profile.0 ∙ prof.0, ih.same_profile.1 ∙ prof.1);
              })
          | inr idle ↦ rw idle (record {
            stored = ih.stored;
            recorded = λ id. ground (arith, ih.recorded id, lem id);
            distinct = ih.distinct;
            fresh = fresh_same s r.state ids (λ j. ground (arith, lem j)) ih.fresh;
            unskipped = ih.unskipped;
            complete = elim ih.complete [
              | inl stopped ↦ inl stopped
              | inr all ↦ inr (done_before g, all)
            ];
            same_profile = (ih.same_profile.0 ∙ prof.0, ih.same_profile.1 ∙ prof.1);
          })
        ])
        | inr g ↦ rw g (record {
          stored = (lem step.id).0;
          recorded = λ id. ground (arith, lem id);
          distinct = ground arith;
          fresh = ground (arith, lem step.id);
          unskipped = ground (arith, lem step.id);
          complete = inl refl;
          same_profile = prof;
        })
      ]
