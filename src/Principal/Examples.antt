-- ===== src/Principal/Examples.antt =====
-- Two principals that agree, and their context.
use kiteframe.Base.{ok, refl, ◌≡◌, String-discrete}
use kiteframe.Principal.{
  VerifiedHumanPrincipal, VerifiedWorkloadPrincipal, PortableInvocationRefs, correlate_principals,
  correlated_context, is_mismatch,
}
use kiteframe.Principal.Correlated.{
  SpeaksFor, CorrelationEnd, correlate_principals-SpeaksFor, correlate_principals_exact,
}

abbrev human : VerifiedHumanPrincipal
human = record { tenant_ref = "t1"; human_ref = "h1"; mapped_actor = "actor"; expires_at = 90 }

abbrev workload : VerifiedWorkloadPrincipal
workload = record {
  tenant_ref = "t1";
  workload_ref = "w1";
  run_ref = "run";
  mapped_agent = "agent";
  task_ref = "task";
  session_ref = "session";
  admission_ref = "admission";
  expires_at = 60;
}

abbrev refs : PortableInvocationRefs
refs = record {
  actor_ref = "actor";
  agent_ref = "agent";
  run_ref = "run";
  task_ref = "task";
  session_ref = "session";
  admission_ref = "admission";
  correlated_at = 50;
}

correlation_test :
    correlate_principals human workload refs ≡ ok (correlated_context human workload refs)
unfolding correlate_principals is_mismatch String-discrete
correlation_test = refl

correlate_principals-SpeaksFor_example :
    SpeaksFor (correlated_context human workload refs) human workload refs
correlate_principals-SpeaksFor_example =
    correlate_principals-SpeaksFor human workload refs correlation_test

correlate_principals_exact_example : CorrelationEnd human workload refs
correlate_principals_exact_example = correlate_principals_exact human workload refs
