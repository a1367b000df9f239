-- ===== src/Contract/Diagnostic.antt =====
-- crates/kiteframe-contract/src/diagnostic.rs. The map `details` is empty in every diagnostic that
-- the modelled components build, and is left out.
use kiteframe.Base.{ℕ, String, Option, none, Eq}

pub data DiagnosticCode : Type 0 where
  package_invalid package_containment lock_stale lock_tampered catalog_incompatible : DiagnosticCode
  feature_unsupported admission_denied admission_expired invocation_denied : DiagnosticCode
  policy_stale precondition_missing result_invalid outcome_unknown : DiagnosticCode
  audit_unavailable component_unresolved runtime_construction : DiagnosticCode
  compile_output lock_output : DiagnosticCode

pub data DiagnosticCategory : Type 0 where
  package_ lock catalog feature authorization capability audit runtime : DiagnosticCategory

pub data DiagnosticSeverity : Type 0 where
  error warning : DiagnosticSeverity

pub data DiagnosticStage : Type 0 where
  parse validate lock resolve admit invoke audit runtime : DiagnosticStage

pub data RetryClass : Type 0 where
  never after_refresh after_user_action status_first : RetryClass

unfoldable pub RetryClass-discrete : Discrete RetryClass
RetryClass-discrete = hlevel

instance abbrev pub retry_eq : Eq RetryClass
retry_eq = record { dec = RetryClass-discrete }

-- A half-open byte range, `u32` at both ends.
pub record SourceRange : Type 0 where
  pub start : ℕ
  pub end : ℕ

pub record Diagnostic : Type 0 where
  pub code : DiagnosticCode
  pub category : DiagnosticCategory
  pub severity : DiagnosticSeverity
  pub stage : DiagnosticStage
  pub package_path : Option String
  pub source_range : Option SourceRange
  pub message : String
  pub help : Option String
  pub retry : RetryClass

-- `Diagnostic::error`
unfoldable pub diagnostic_error :
    DiagnosticCode → DiagnosticCategory → DiagnosticStage → String → Diagnostic
diagnostic_error code category stage message = record {
  code = code;
  category = category;
  severity = DiagnosticSeverity.error;
  stage = stage;
  package_path = none;
  source_range = none;
  message = message;
  help = none;
  retry = never;
}

-- `Diagnostic::outcome_unknown`
unfoldable pub diagnostic_outcome_unknown : String → Diagnostic
unfolding diagnostic_error
diagnostic_outcome_unknown message =
    let d =
      diagnostic_error outcome_unknown DiagnosticCategory.capability DiagnosticStage.invoke
        message in
    record d { retry = status_first }
