-- ===== src/Resume.antt =====
-- The checkpoint of a data/ML pipeline: src/pipeline_resume.rs, and the `run_step!` macro of
-- src/main.rs that runs one step under it. The in-memory value and the file are the state.
pub mod Lookup
pub mod Open
pub mod Pipeline
pub mod Attempts
mod Tests
use text.Mathlib.Text.{◌==◌ as str_eq}
use mlai_trade.Common.{
  ℕ, Bool, true, false, not, ◌&&◌, Option, none, some, is_some, List, [], ◌∷◌, String, ◌==◌,
  if◌then◌else◌,
}

-- `parameters` is a `BTreeMap`, as its sorted entries.
pub record PipelineResumeProfile : Type 0 where
  pub name : String
  pub parameters : List (String × String)
  pub binary_fingerprint : String

pub record PipelineStep : Type 0 where
  pub id : String
  pub index : ℕ
  pub total : ℕ
  pub label : String

pub record CompletedStep : Type 0 where
  pub step : PipelineStep
  pub completed_at_utc : String

pub record FailedStep : Type 0 where
  pub step : PipelineStep
  pub failed_at_utc : String
  pub error : String

pub record PipelineResumeState : Type 0 where
  pub version : ℕ
  pub profile : PipelineResumeProfile
  pub started_at_utc : String
  pub updated_at_utc : String
  pub completed_steps : List (String × CompletedStep)
  pub last_failed_step : Option FailedStep

-- The checkpoint file: a state that `serde_json` reads, or text that it does not.
pub data Checkpoint : Type 0 where
  json : PipelineResumeState → Checkpoint
  invalid_json : Checkpoint

abbrev pub Disk : Type 0
Disk = Option Checkpoint

-- Whether reading, writing (with its rename) and removing succeed, and the time that is recorded.
pub record Faults : Type 0 where
  pub read_ok : Bool
  pub write_ok : Bool
  pub remove_ok : Bool
  pub utc_now : String

abbrev pub state_version : ℕ
state_version = 1

unfoldable pub parameters_eq : List (String × String) → List (String × String) → Bool
parameters_eq [] [] = true
parameters_eq ((k, v) ∷ a) ((j, w) ∷ b) = str_eq k j && (str_eq v w && parameters_eq a b)
parameters_eq _ _ = false

-- The derived `PartialEq` of the profile.
unfoldable pub profile_eq : PipelineResumeProfile → PipelineResumeProfile → Bool
profile_eq a b =
    str_eq a.name b.name
    && (parameters_eq a.parameters b.parameters && str_eq a.binary_fingerprint b.binary_fingerprint)

-- `completed_steps.get(id)` and `completed_steps.insert(id, entry)`.
unfoldable pub lookup : String → List (String × CompletedStep) → Option CompletedStep
lookup id [] = none
lookup id ((done_id, done) ∷ others) =
    let later = lookup id others in if str_eq done_id id then some done else later

unfoldable pub insert :
    String → CompletedStep → List (String × CompletedStep) → List (String × CompletedStep)
insert id entry [] = (id, entry) ∷ []
insert id entry ((done_id, done) ∷ others) =
    let later = insert id entry others in
    if str_eq done_id id then (id, entry) ∷ others else (done_id, done) ∷ later

-- The file after a write: it is replaced as a whole by the rename, or left alone.
unfoldable pub write_state : Faults → PipelineResumeState → Disk → Bool × Disk
write_state f s disk = if f.write_ok then (true, some (json s)) else (false, disk)

unfoldable pub remove_file : Faults → Disk → Disk
remove_file f disk = if f.remove_ok then none else disk

-- `anyhow::Result<Option<_>>`: an invalid file is removed and counts as none.
pub data ReadState : Type 0 where
  read : Option PipelineResumeState → ReadState
  read_error : ReadState

unfoldable pub read_state : Faults → Disk → ReadState × Disk
unfolding remove_file
read_state f none = (read none, none)
read_state f (some (json s)) =
    if f.read_ok then (read (some s), some (json s)) else (read_error, some (json s))
read_state f (some invalid_json) =
    if f.read_ok
    then (read none, remove_file f (some invalid_json))
    else (read_error, some invalid_json)

unfoldable pub new_state : Faults → PipelineResumeProfile → PipelineResumeState
new_state f profile = record {
  version = state_version;
  profile = profile;
  started_at_utc = f.utc_now;
  updated_at_utc = f.utc_now;
  completed_steps = [];
  last_failed_step = none;
}

-- A state is written and becomes the one in memory, or the call fails.
abbrev pub store : Faults → PipelineResumeState → Disk → Option PipelineResumeState × Disk
store f s disk =
    let (done, disk') = write_state f s disk in if done then (some s, disk') else (none, disk')

-- The matching checkpoint is taken up with its completed steps; any other is removed, and a new one
-- begins.
unfoldable pub open_read :
    Faults → PipelineResumeProfile → ReadState → Disk → Option PipelineResumeState × Disk
unfolding write_state remove_file new_state
open_read f profile read_error disk = (none, disk)
open_read f profile (read none) disk = store f (new_state f profile) disk
open_read f profile (read (some s)) disk =
    if (s.version == state_version) && profile_eq s.profile profile
    then store f (record s { updated_at_utc = f.utc_now }) disk
    else store f (new_state f profile) (remove_file f disk)

unfoldable pub open_resume :
    Faults → PipelineResumeProfile → Bool → Disk → Option PipelineResumeState × Disk
unfolding open_read read_state remove_file
open_resume f profile restart disk =
    let (result, disk') =
      read_state f (if restart && is_some disk then remove_file f disk else disk) in
    open_read f profile result disk'

-- True: the step is to be run. A completed step is skipped.
unfoldable pub begin_step : PipelineResumeState → PipelineStep → Bool
unfolding lookup
begin_step s step = not (is_some (lookup step.id s.completed_steps))

-- The state in memory changes before the write, which may fail.
unfoldable pub complete_step :
    Faults → PipelineStep → PipelineResumeState → Disk → Bool × PipelineResumeState × Disk
unfolding write_state insert
complete_step f step s disk =
    let s' : PipelineResumeState = record s {
      completed_steps =
          insert step.id (record { step = step; completed_at_utc = f.utc_now }) s.completed_steps;
      last_failed_step = none;
      updated_at_utc = f.utc_now;
    } in
    let (done, disk') = write_state f s' disk in (done, s', disk')

unfoldable pub fail_step :
    Faults → PipelineStep → String → PipelineResumeState → Disk → Bool × PipelineResumeState × Disk
unfolding write_state
fail_step f step error s disk =
    let s' : PipelineResumeState = record s {
      last_failed_step = some (record { step = step; failed_at_utc = f.utc_now; error = error });
      updated_at_utc = f.utc_now;
    } in
    let (done, disk') = write_state f s' disk in (done, s', disk')

unfoldable pub finish : Faults → Disk → Disk
unfolding remove_file
finish f disk = if is_some disk then remove_file f disk else disk

-- One use of `run_step!` with the ids of `skip_steps`, of which the data update has none: whether the body ran to success, whether the pipeline goes on, and what is
-- left in memory and on disk. `body` tells which steps' bodies succeed.
pub record StepRun : Type 0 where
  pub ran : Bool
  pub go_on : Bool
  pub state : PipelineResumeState
  pub disk : Disk

unfoldable pub run_step :
    Faults → (String → Bool) → (String → Bool) → PipelineStep → PipelineResumeState → Disk → StepRun
unfolding begin_step complete_step fail_step
run_step f skip_steps body step s disk =
    if skip_steps step.id
    then record { ran = false; go_on = true; state = s; disk = disk }
    else if begin_step s step
    then (if body step.id
        then (let (done, s', disk') = complete_step f step s disk in
            record { ran = true; go_on = done; state = s'; disk = disk' })
        else (let (_, s', disk') = fail_step f step "error" s disk in
            record { ran = false; go_on = false; state = s'; disk = disk' }))
    else record { ran = false; go_on = true; state = s; disk = disk }

-- The steps of a pipeline in order, up to the first error: the ids whose bodies ran to success.
pub record PipelineRun : Type 0 where
  pub ran : List String
  pub done : Bool
  pub state : PipelineResumeState
  pub disk : Disk

abbrev pub note_ran : Bool → String → List String → List String
note_ran ran id ids = if ran then id ∷ ids else ids

unfoldable pub run_steps :
    Faults
    → (String → Bool)
    → (String → Bool)
    → List PipelineStep
    → PipelineResumeState
    → Disk
    → PipelineRun
run_steps f skip_steps body [] s disk = record { ran = []; done = true; state = s; disk = disk }
run_steps f skip_steps body (step ∷ steps) s disk =
    let r : StepRun = run_step f skip_steps body step s disk in
    let rest : PipelineRun = run_steps f skip_steps body steps r.state r.disk in
    if r.go_on
    then record rest { ran = note_ran r.ran step.id rest.ran }
    else record { ran = note_ran r.ran step.id []; done = false; state = r.state; disk = r.disk }
