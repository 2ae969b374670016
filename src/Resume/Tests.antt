-- ===== src/Resume/Tests.antt =====
-- Runs of the pipeline checkpoint, and the theorems at concrete inputs.
use text.Mathlib.Text.{◌==◌ as str_eq}
use mlai_trade.Common.{◌≡◌, refl, Bool, true, false, not, none, some, List, [], ◌∷◌, String}
use mlai_trade.Resume.{
  PipelineResumeProfile, PipelineStep, PipelineResumeState, json, Faults, open_resume, finish,
  new_state, run_steps, run_step, state_version, profile_eq, parameters_eq,
}
use mlai_trade.Resume.Open.{IsCalm}
use mlai_trade.Resume.Pipeline.{IsRun, run_steps-IsRun}
use mlai_trade.Resume.Attempts.{IsResumed, run_attempts, run_attempts-IsResumed}

abbrev calm : Faults
calm = record { read_ok = true; write_ok = true; remove_ok = true; utc_now = "t" }

abbrev calm-IsCalm : IsCalm calm
calm-IsCalm = record { reads = refl; writes = refl; removes = refl }

abbrev profile : PipelineResumeProfile
profile = record {
  name = "data-daily-skip-train";
  parameters = ("days", "30") ∷ [];
  binary_fingerprint = "bin:1:1";
}

abbrev named : String → PipelineStep
named id = record { id = id; index = 1; total = 3; label = id }

abbrev three_steps : List PipelineStep
three_steps = named "universe" ∷ named "bars" ∷ named "labels" ∷ []

abbrev start : PipelineResumeState
start = record {
  version = state_version;
  profile = profile;
  started_at_utc = "t";
  updated_at_utc = "t";
  completed_steps = [];
  last_failed_step = none;
}

abbrev skips_labels : String → Bool
skips_labels id = str_eq id "labels"

-- The first attempt fails at `bars`, the second runs what is left, and the third begins anew.
abbrev bodies : List (String → Bool)
bodies = (λ id. not (str_eq id "bars")) ∷ (λ id. true) ∷ (λ id. true) ∷ []

three_attempts :
    run_attempts calm (λ id. false) three_steps bodies start
    ≡ ("universe" ∷ "bars" ∷ "labels" ∷ []) ∷ ("universe" ∷ "bars" ∷ "labels" ∷ []) ∷ []
unfolding run_attempts run_steps run_step open_resume new_state finish profile_eq parameters_eq
three_attempts = refl

skipped_step :
    run_attempts calm skips_labels three_steps bodies start
    ≡ ("universe" ∷ "bars" ∷ []) ∷ ("universe" ∷ "bars" ∷ []) ∷ []
unfolding run_attempts run_steps run_step open_resume new_state finish profile_eq parameters_eq
skipped_step = refl

abbrev one_done : PipelineResumeState
one_done = record start {
  completed_steps = ("universe", record { step = named "universe"; completed_at_utc = "t" }) ∷ [];
}

run_steps-IsRun_example :
    IsRun calm skips_labels
      (λ id. true)
      refl
      one_done
      three_steps
      (run_steps calm skips_labels (λ id. true) three_steps one_done (some (json one_done)))
run_steps-IsRun_example = run_steps-IsRun calm skips_labels (λ id. true) refl three_steps one_done

run_attempts-IsResumed_example :
    IsResumed one_done (run_attempts calm skips_labels three_steps bodies one_done)
run_attempts-IsResumed_example =
    run_attempts-IsResumed calm skips_labels three_steps bodies one_done calm-IsCalm refl
