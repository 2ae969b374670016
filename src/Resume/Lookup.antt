-- ===== src/Resume/Lookup.antt =====
-- The maps and comparisons of src/pipeline_resume.rs: profiles are compared as a whole, and a
-- completed step is found under its own id.
use text.Mathlib.Text.{◌==◌ as str_eq}
use text.Mathlib.TextEquality.{eq_iff}
use mlai_trade.Common.{◌≡◌, refl, ◌↔◌, true, some, List, [], ◌∷◌, String, arith, if◌then◌else◌}
use mlai_trade.Resume.{
  PipelineResumeProfile, CompletedStep, parameters_eq, profile_eq, lookup, insert,
}

parameters_eq_iff : (a b : List (String × String)) → (parameters_eq a b ≡ true) ↔ (a ≡ b)
unfolding parameters_eq
parameters_eq_iff [] [] = ground arith
parameters_eq_iff [] (y ∷ b) = ground arith
parameters_eq_iff (x ∷ a) [] = ground arith
parameters_eq_iff ((k, v) ∷ a) ((j, w) ∷ b) =
    ground (arith, eq_iff k j, eq_iff v w, parameters_eq_iff a b)

pub profile_eq_iff : (a b : PipelineResumeProfile) → (profile_eq a b ≡ true) ↔ (a ≡ b)
unfolding profile_eq
profile_eq_iff a b = ground (
  arith,
  eq_iff a.name b.name,
  parameters_eq_iff a.parameters b.parameters,
  eq_iff a.binary_fingerprint b.binary_fingerprint,
)

-- What is found after an entry was inserted.
pub lookup-insert :
    (id wanted : String) (entry : CompletedStep) (steps : List (String × CompletedStep))
    → lookup wanted (insert id entry steps)
      ≡ (if str_eq id wanted then some entry else lookup wanted steps)
unfolding insert lookup
lookup-insert id wanted entry [] = refl
lookup-insert id wanted entry ((done_id, done) ∷ others) =
    let later = lookup-insert id wanted entry others in
    ground (arith, eq_iff done_id id, eq_iff done_id wanted, eq_iff id wanted, later)
