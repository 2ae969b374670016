-- ===== src/Resume/Open.antt =====
-- What src/pipeline_resume.rs `open` takes up of a checkpoint, and what a call leaves for the next.
use text.Mathlib.TextPositions.{eq_refl}
use mlai_trade.Common.{
  ◌≡◌, refl, ◌↔◌, ◌⊎◌, inl, inr, Bool, true, false, none, some, is_some, arith, Bool-cases,
  if◌then◌else◌, ◌==◌, ◌&&◌,
}
use mlai_trade.Resume.{
  PipelineResumeProfile, PipelineStep, PipelineResumeState, json, invalid_json, Disk, Faults,
  state_version, profile_eq, lookup, new_state, open_resume, begin_step, complete_step,
}
use mlai_trade.Resume.Lookup.{profile_eq_iff, lookup-insert}

-- The file can be read, written and removed.
pub record IsCalm (f : Faults) : Type 0 where
  pub reads : f.read_ok ≡ true
  pub writes : f.write_ok ≡ true
  pub removes : f.remove_ok ≡ true

module _ (f : Faults) (profile : PipelineResumeProfile) where
  -- Opening a stored state: it is written back, and it skips a step exactly where its version and
  -- its whole profile are the current ones and the step is among its completed steps.
  open-skips_iff :
      (s : PipelineResumeState) (step : PipelineStep)
      → IsCalm f
      → (s' : PipelineResumeState) × (open_resume f profile false (some (json s))
          ≡ (some s', some (json s')))
        × (begin_step s' step ≡ false ↔ (
            (s.version ≡ state_version)
            × (s.profile ≡ profile)
            × (is_some (lookup step.id s.completed_steps) ≡ true)))
  unfolding open_resume begin_step new_state lookup
  open-skips_iff s step calm =
      elim (Bool-cases ((s.version == state_version) && profile_eq s.profile profile)) [
        | inl same ↦ (
          record s { updated_at_utc = f.utc_now },
          ground arith,
          ground (arith, profile_eq_iff s.profile profile),
        )
        | inr other ↦
            (new_state f profile, ground arith, ground (arith, profile_eq_iff s.profile profile))
      ]

  -- A restart, a missing file and a file that is no valid JSON all begin anew: every step is run.
  open_anew :
      (restart : Bool) (disk : Disk) (step : PipelineStep)
      → IsCalm f
      → (restart ≡ true) ⊎ ((disk ≡ none) ⊎ (disk ≡ some invalid_json))
      → (open_resume f profile restart disk
          ≡ (some (new_state f profile), some (json (new_state f profile))))
        × (begin_step (new_state f profile) step ≡ true)
  unfolding open_resume begin_step new_state lookup
  open_anew restart none step calm h = ground arith
  open_anew restart (some (json s)) step calm h = ground arith
  open_anew restart (some invalid_json) step calm h = ground arith

-- A stored state of the current version and profile is taken up with only its time changed.
pub open_same :
    (f : Faults) (profile : PipelineResumeProfile) (s : PipelineResumeState)
    → IsCalm f
    → s.version ≡ state_version
    → s.profile ≡ profile
    → (open_resume f profile false (some (json s))).0
      ≡ some (record s { updated_at_utc = f.utc_now })
unfolding open_resume
open_same f profile s calm v e = ground (arith, profile_eq_iff s.profile profile)

-- A step completed just before a crash is skipped by the next run of the same profile if its record
-- was written, and by that write alone: where the write fails the call fails, the file is unchanged,
-- and the step is skipped only if the file already had it.
complete-reopen :
    (f g : Faults) (s : PipelineResumeState) (step : PipelineStep)
    → IsCalm g
    → s.version ≡ state_version
    → let (done, s', disk) = complete_step f step s (some (json s)) in
      (done ≡ f.write_ok)
      × (disk ≡ (if f.write_ok then some (json s') else some (json s)))
      × ((t : PipelineResumeState) × (open_resume g s.profile false disk ≡ (some t, some (json t)))
          × (begin_step t step ≡ (if f.write_ok then false else begin_step s step)))
unfolding complete_step open_resume begin_step
complete-reopen f g s step calm v =
    let s' : PipelineResumeState = (complete_step f step s (some (json s))).1 in
    let same = (profile_eq_iff s.profile s.profile).1 refl in
    elim (Bool-cases f.write_ok) [
      | inl w ↦ (
        ground arith,
        ground arith,
        (
          record s' { updated_at_utc = g.utc_now },
          rw w (ground arith),
          rw (w, begin_step, lookup-insert, eq_refl),
        ),
      )
      | inr w ↦ (
        ground arith,
        ground arith,
        (record s { updated_at_utc = g.utc_now }, rw w (ground arith), rw w),
      )
    ]
