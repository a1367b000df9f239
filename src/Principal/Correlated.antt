-- ===== src/Principal/Correlated.antt =====
-- The context that `correlate_principals` (crates/kiteframe-provider/src/principal.rs) gives.
use mathlib.Core.Bool.{true≢false}
use kiteframe.Base.{
  sym, ◌∙◌, refl, false, ok, err, ◌≡◌, ◌≤◌, ◌<◌, arith, Bool-cases, inl, inr, ◌⊎◌, string_eq,
}
use kiteframe.Principal.{
  VerifiedHumanPrincipal, VerifiedWorkloadPrincipal, PortableInvocationRefs,
  AuthenticatedInvocationContext, correlation_error, is_mismatch, correlated_context,
  correlate_principals,
}

-- The principals share a tenant and are mapped to the portable references, and both live on.
abbrev pub Agree :
    VerifiedHumanPrincipal → VerifiedWorkloadPrincipal → PortableInvocationRefs → Type 0
Agree human workload refs =
    (human.tenant_ref ≡ workload.tenant_ref)
    × (human.mapped_actor ≡ refs.actor_ref)
    × (workload.mapped_agent ≡ refs.agent_ref)
    × (workload.run_ref ≡ refs.run_ref)
    × (workload.task_ref ≡ refs.task_ref)
    × (workload.session_ref ≡ refs.session_ref)
    × (workload.admission_ref ≡ refs.admission_ref)
    × (refs.correlated_at < human.expires_at)
    × (refs.correlated_at < workload.expires_at)

-- The context speaks for both principals, and no longer than either.
abbrev pub SpeaksFor :
    AuthenticatedInvocationContext
    → VerifiedHumanPrincipal
    → VerifiedWorkloadPrincipal
    → PortableInvocationRefs
    → Type 0
SpeaksFor context human workload refs =
    (context.tenant_ref ≡ human.tenant_ref)
    × (context.tenant_ref ≡ workload.tenant_ref)
    × (context.human_ref ≡ human.human_ref)
    × (context.workload_ref ≡ workload.workload_ref)
    × (context.actor_ref ≡ human.mapped_actor)
    × (context.agent_ref ≡ workload.mapped_agent)
    × (context.run_ref ≡ workload.run_ref)
    × (context.task_ref ≡ workload.task_ref)
    × (context.session_ref ≡ workload.session_ref)
    × (context.admission_ref ≡ workload.admission_ref)
    × (refs.correlated_at < context.expires_at)
    × (context.expires_at ≤ human.expires_at)
    × (context.expires_at ≤ workload.expires_at)

-- A correlated context speaks for both principals, is alive at the time of the correlation, and
-- expires no later than either principal.
pub correlate_principals-SpeaksFor :
    (human : VerifiedHumanPrincipal) (workload : VerifiedWorkloadPrincipal)
    (refs : PortableInvocationRefs) {context : AuthenticatedInvocationContext}
    → correlate_principals human workload refs ≡ ok context
    → SpeaksFor context human workload refs
unfolding correlate_principals is_mismatch correlated_context
correlate_principals-SpeaksFor human workload refs h = ground arith

Agree-of_match :
    (human : VerifiedHumanPrincipal) (workload : VerifiedWorkloadPrincipal)
    (refs : PortableInvocationRefs)
    → is_mismatch human workload refs ≡ false
    → Agree human workload refs
unfolding is_mismatch
Agree-of_match human workload refs h = ground arith

match_of_Agree :
    (human : VerifiedHumanPrincipal) (workload : VerifiedWorkloadPrincipal)
    (refs : PortableInvocationRefs)
    → Agree human workload refs
    → is_mismatch human workload refs ≡ false
unfolding is_mismatch
match_of_Agree human workload refs h = ground arith

-- The two ends of a correlation: principals that agree are given a context, and others are
-- refused with the one correlation error.
abbrev pub CorrelationEnd :
    VerifiedHumanPrincipal → VerifiedWorkloadPrincipal → PortableInvocationRefs → Type 0
CorrelationEnd human workload refs =
    Agree human workload refs
      × (correlate_principals human workload refs ≡ ok (correlated_context human workload refs))
    ⊎ (¬ Agree human workload refs)
      × (correlate_principals human workload refs ≡ err correlation_error)

-- A correlation gives a context exactly when the principals and the references agree and neither
-- principal has expired; otherwise it fails with the correlation error.
pub correlate_principals_exact :
    (human : VerifiedHumanPrincipal) (workload : VerifiedWorkloadPrincipal)
    (refs : PortableInvocationRefs)
    → CorrelationEnd human workload refs
unfolding correlate_principals
correlate_principals_exact human workload refs =
    elim (Bool-cases (is_mismatch human workload refs)) [
      | inl m ↦
          inr (λ agree. true≢false (sym m ∙ match_of_Agree human workload refs agree), rw (m) refl)
      | inr m ↦ inl (Agree-of_match human workload refs m, rw (m) refl)
    ]
