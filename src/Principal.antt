-- ===== src/Principal.antt =====
-- The two verified principals of a call and their correlation
-- (crates/kiteframe-provider/src/principal.rs). A reference is its text; the verifier that
-- authenticates the principals is the deployment's.
mod Correlated
mod Examples
use kiteframe.Base.{
  ℕ, Bool, ◌||◌, not, String, Result, ok, err, ◌>>=◌, ◌>>◌, refuse_if, ◌==◌, leb, if◌then◌else◌,
  String-discrete, string_eq,
}
use kiteframe.Contract.Diagnostic.{
  Diagnostic, DiagnosticCode, DiagnosticCategory, DiagnosticStage, diagnostic_error,
}
use kiteframe.Contract.Refs.{
  ActorRef, AgentRef, TaskRef, SessionRef, AdmissionId, Timestamp, string_ref,
}

pub record VerifiedHumanPrincipal : Type 0 where
  pub tenant_ref : String
  pub human_ref : String
  pub mapped_actor : ActorRef
  pub expires_at : Timestamp

-- `VerifiedHumanPrincipal::try_new`
unfoldable pub human_try_new :
    String → String → ActorRef → Timestamp → Result String VerifiedHumanPrincipal
human_try_new tenant human mapped_actor expires_at = do
  tenant_ref ← string_ref "verified tenant reference is required" tenant
  human_ref ← string_ref "verified human principal reference is required" human
  ok (record {
    tenant_ref = tenant_ref;
    human_ref = human_ref;
    mapped_actor = mapped_actor;
    expires_at = expires_at;
  })

pub record VerifiedWorkloadPrincipal : Type 0 where
  pub tenant_ref : String
  pub workload_ref : String
  pub run_ref : String
  pub mapped_agent : AgentRef
  pub task_ref : TaskRef
  pub session_ref : SessionRef
  pub admission_ref : AdmissionId
  pub expires_at : Timestamp

-- `VerifiedWorkloadPrincipal::try_new`
unfoldable pub workload_try_new :
    String
    → String
    → String
    → AgentRef
    → TaskRef
    → SessionRef
    → AdmissionId
    → Timestamp
    → Result String VerifiedWorkloadPrincipal
workload_try_new tenant workload run mapped_agent task_ref session_ref admission_ref expires_at = do
  tenant_ref ← string_ref "verified tenant reference is required" tenant
  workload_ref ← string_ref "verified workload principal reference is required" workload
  run_ref ← string_ref "verified workload run reference is required" run
  ok (record {
    tenant_ref = tenant_ref;
    workload_ref = workload_ref;
    run_ref = run_ref;
    mapped_agent = mapped_agent;
    task_ref = task_ref;
    session_ref = session_ref;
    admission_ref = admission_ref;
    expires_at = expires_at;
  })

pub record PortableInvocationRefs : Type 0 where
  pub actor_ref : ActorRef
  pub agent_ref : AgentRef
  pub run_ref : String
  pub task_ref : TaskRef
  pub session_ref : SessionRef
  pub admission_ref : AdmissionId
  pub correlated_at : Timestamp

pub record AuthenticatedInvocationContext : Type 0 where
  pub tenant_ref : String
  pub human_ref : String
  pub workload_ref : String
  pub run_ref : String
  pub actor_ref : ActorRef
  pub agent_ref : AgentRef
  pub task_ref : TaskRef
  pub session_ref : SessionRef
  pub admission_ref : AdmissionId
  pub expires_at : Timestamp

-- `correlation_error`
unfoldable pub correlation_error : Diagnostic
unfolding diagnostic_error
correlation_error =
    diagnostic_error DiagnosticCode.invocation_denied DiagnosticCategory.authorization
      DiagnosticStage.invoke "authenticated principal correlation failed"

-- The test of `correlate_principals`.
unfoldable pub is_mismatch :
    VerifiedHumanPrincipal → VerifiedWorkloadPrincipal → PortableInvocationRefs → Bool
is_mismatch human workload refs =
    not (human.tenant_ref == workload.tenant_ref)
    || not (human.mapped_actor == refs.actor_ref)
    || not (workload.mapped_agent == refs.agent_ref)
    || not (workload.run_ref == refs.run_ref)
    || not (workload.task_ref == refs.task_ref)
    || not (workload.session_ref == refs.session_ref)
    || not (workload.admission_ref == refs.admission_ref)
    || leb human.expires_at refs.correlated_at
    || leb workload.expires_at refs.correlated_at

-- The context that `correlate_principals` builds.
unfoldable pub correlated_context :
    VerifiedHumanPrincipal
    → VerifiedWorkloadPrincipal
    → PortableInvocationRefs
    → AuthenticatedInvocationContext
correlated_context human workload refs = record {
  tenant_ref = human.tenant_ref;
  human_ref = human.human_ref;
  workload_ref = workload.workload_ref;
  run_ref = refs.run_ref;
  actor_ref = refs.actor_ref;
  agent_ref = refs.agent_ref;
  task_ref = refs.task_ref;
  session_ref = refs.session_ref;
  admission_ref = refs.admission_ref;
  expires_at =
      if leb human.expires_at workload.expires_at then human.expires_at else workload.expires_at;
}

-- `correlate_principals`
unfoldable pub correlate_principals :
    VerifiedHumanPrincipal
    → VerifiedWorkloadPrincipal
    → PortableInvocationRefs
    → Result Diagnostic AuthenticatedInvocationContext
correlate_principals human workload refs = do
  refuse_if (is_mismatch human workload refs) correlation_error
  ok (correlated_context human workload refs)
