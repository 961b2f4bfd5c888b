-- ===== src/Core/EnvVars.antt =====
-- packages/cw-orch-core/src/env.rs
-- A variable of the process is a parameter, and so are the parsers of `FromStr`. A variable that is
-- set to a text that does not parse panics.
use cw_orchestrator.Common.{
  String, Bool, true, false, Option, none, some, Outcome, ok, unwrap, ◌>>=◌,
}

-- `parse_with_log`
unfoldable pub parse_with_log : {E A : Type 0} → (String → Option A) → String → Outcome E A
parse_with_log from_str value = unwrap (from_str value)

module _ (var : String → Option String) where
  unfoldable pub artifacts_dir : {E A : Type 0} → (String → Option A) → Outcome E (Option A)
  unfolding parse_with_log
  artifacts_dir from_str = elim (var "ARTIFACTS_DIR") [
    | none ↦ ok none
    | some value ↦ parse_with_log from_str value >>= λ path. ok (some path)
  ]

  unfoldable pub serialize_json : {E : Type 0} → (String → Option Bool) → Outcome E Bool
  unfolding parse_with_log
  serialize_json from_str = elim (var "CW_ORCH_SERIALIZE_JSON") [
    | none ↦ ok false
    | some value ↦ parse_with_log from_str value
  ]

  unfoldable pub manual_interaction : {E : Type 0} → (String → Option Bool) → Outcome E Bool
  unfolding parse_with_log
  manual_interaction from_str = elim (var "CW_ORCH_MANUAL_INTERACTION") [
    | none ↦ ok true
    | some value ↦ parse_with_log from_str value
  ]
