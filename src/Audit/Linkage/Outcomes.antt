-- ===== src/Audit/Linkage/Outcomes.antt =====
-- What `validate_record_linkage` (crates/kiteframe-audit/src/chain.rs) says of an outcome that it
-- accepts.
use mathlib.Core.Path.{subst}
use kiteframe.Base.{
  not-eq_false, ◌≡◌, refl, sym, ap, ◌∙◌, Bool, true, not, String, List, [], ◌∷◌, ◌++◌, Option, none,
  some, Result, ok, err, >>=-eq_ok, after_refusal, some_injective, if◌then◌else◌, find, ◌==◌,
  string_eq, String-discrete, Elem, All, arith, eq_of_==, inl, inr, Bool-cases,
}
use kiteframe.Base.Laws.{find-cons}
use kiteframe.Contract.Diagnostic.{Diagnostic}
use kiteframe.Audit.{unavailable}
use kiteframe.Audit.Codec.{Codec}
use kiteframe.Audit.Partition.{required, required-eq_ok}
use kiteframe.Audit.Linkage.{
  VerifiedAuditEntry, correlation_fields, record_type, record_body, text_field, is_text, same_value,
  match_fields, validate_outcome, validate_record_linkage,
}

-- What an outcome has in common with its authorization: whose run it was, what was asked for, under
-- which grant and catalog, which invocation it became, from which locked inputs, and its trace.
abbrev pub shared_fields : List String
shared_fields =
    ("tenantRef" ∷ "humanPrincipalRef" ∷ "workloadPrincipalRef" ∷ "runRef" ∷ [])
    ++ ("actor" ∷ "agent" ∷ "task" ∷ "session" ∷ [])
    ++ ("capability" ∷ "resource" ∷ "admissionId" ∷ "grantDigest" ∷ [])
    ++ ("catalogIdentity" ∷ "catalogDigest" ∷ "descriptorDigest" ∷ "authorityRevisionDigest" ∷ [])
    ++ ("invocationId" ∷ "statusId" ∷ "idempotencyKey" ∷ "proposalDigest" ∷ [])
    ++ ("portableDigest" ∷ "lockDigest" ∷ "bindingDigest" ∷ "resolvedDigest" ∷ [])
    ++ ("traceId" ∷ "spanId" ∷ "intendedEffect" ∷ [])

find-Elem :
    {A : Type 0} (test : A → Bool) (xs : List A) {a : A}
    → find test xs ≡ some a
    → (test a ≡ true) × Elem a xs
find-Elem test [] h = cc
find-Elem test (x ∷ xs) {a} h = elim (find-cons test a x xs h) [
  | inl (holds, here) ↦ (ap test (sym here) ∙ holds, inl here)
  | inr (_, behind) ↦ let rest = find-Elem test xs behind in (rest.0, inr rest.1)
]

is_text-eq : (expected : String) (o : Option String) → is_text expected o ≡ true → o ≡ some expected
is_text-eq expected (some text) h = ap some (eq_of_== h)
is_text-eq expected none h = cc

-- The branch of `validate_record_linkage` that an outcome takes.
outcome_branch :
    (kind : String) (m : Result Diagnostic (Unit {0}))
    → kind ≡ "outcome"
    → (if kind == "authorization"
        then ok tt
        else if kind == "outcome"
        then m
        else err (unavailable "audit record type is unsupported"))
      ≡ ok tt
    → m ≡ ok tt
unfolding String-discrete
outcome_branch kind m e h =
    subst
      (λ kind.
        (if kind == "authorization"
          then ok tt
          else if kind == "outcome"
          then m
          else err (unavailable "audit record type is unsupported"))
        ≡ ok tt)
      e h

module _ (codec : Codec) where
  -- A field that both bodies have, with the same value.
  abbrev pub AgreeOn : codec.Object → codec.Object → String → Type 0
  AgreeOn authorization body name =
      (value : codec.Value) × (codec.field name authorization ≡ some value)
      × (codec.field name body ≡ some value)

  same_value-eq : (a b : codec.Value) → same_value codec a b ≡ true → a ≡ b
  same_value-eq a b h = ground arith

  match_fields-AgreeOn :
      (authorization body : codec.Object) (names : List String)
      → match_fields codec authorization body names ≡ ok tt
      → All (AgreeOn authorization body) names
  unfolding match_fields
  match_fields-AgreeOn authorization body [] h = tt
  match_fields-AgreeOn authorization body (name ∷ names) h =
      let (a, h_a, h1) =
        >>=-eq_ok
          (required "authorization audit correlation is incomplete"
            (codec.field name authorization))
          _ h in
      let (o, h_o, h2) =
        >>=-eq_ok (required "outcome audit correlation is incomplete" (codec.field name body)) _
          h1 in
      let guard = after_refusal (not (same_value codec a o)) _ h2 in
      let same = same_value-eq a o (not-eq_false (same_value codec a o) guard.0) in
      (
        (
          a,
          required-eq_ok _ (codec.field name authorization) h_a,
          required-eq_ok _ (codec.field name body) h_o ∙ ap some (sym same),
        ),
        match_fields-AgreeOn authorization body names guard.1,
      )

  -- The authorization of an outcome among the entries before it: the outcome names it, and agrees
  -- with it on every correlated field.
  pub record IsAuthorizedBy (value : codec.Value) (prior : List (VerifiedAuditEntry codec.Value))
      : Type 0 where
    pub body : codec.Object
    pub has_body : record_body codec value ≡ some body
    pub authorization : VerifiedAuditEntry codec.Value
    pub is_earlier : Elem authorization prior
    pub is_authorization : record_type codec authorization.record_value ≡ some "authorization"
    pub is_named : text_field codec "writeAheadRecordId" body ≡ some authorization.receipt.record_id
    pub authorization_body : codec.Object
    pub has_authorization_body :
        record_body codec authorization.record_value ≡ some authorization_body
    pub agrees : All (AgreeOn authorization_body body) shared_fields

  given_kind :
      (o : Option String) (bodies : Option codec.Object) {body : codec.Object}
      → (if is_text "authorization" o then bodies else none) ≡ some body
      → (o ≡ some "authorization") × (bodies ≡ some body)
  given_kind o bodies h = elim (Bool-cases (is_text "authorization" o)) [
    | inl y ↦ (is_text-eq "authorization" o y, sym (rw (y) refl) ∙ h)
    | inr n ↦ absurd (none_some (sym (rw (n) refl) ∙ h))
  ]
    where
      none_some : {body : codec.Object} → ¬ ◌≡◌ {A = Option codec.Object} none (some body)
      none_some e = cc

  validate_outcome-IsAuthorizedBy :
      (value : codec.Value) (body : codec.Object) (prior : List (VerifiedAuditEntry codec.Value))
      → record_body codec value ≡ some body
      → validate_outcome codec body prior ≡ ok tt
      → IsAuthorizedBy value prior
  unfolding validate_outcome
  validate_outcome-IsAuthorizedBy value body prior b h =
      let (id, h_id, h1) =
        >>=-eq_ok
          (required "outcome audit authorization link is missing"
            (text_field codec "writeAheadRecordId" body))
          _ h in
      let (authorization, h_found, h2) =
        >>=-eq_ok
          (required "outcome audit authorization link is not in this partition"
            (find (λ entry. entry.receipt.record_id == id) prior))
          _ h1 in
      let (authorization_body, h_body, h3) =
        >>=-eq_ok
          (required "outcome audit link does not reference an authorization record" (
            if is_text "authorization" (record_type codec authorization.record_value)
            then record_body codec authorization.record_value
            else none))
          _ h2 in
      let found =
        find-Elem (λ (entry : VerifiedAuditEntry codec.Value). entry.receipt.record_id == id) prior
          (required-eq_ok _ _ h_found) in
      let kind = given_kind _ _ (required-eq_ok _ _ h_body) in
      record {
        body = body;
        has_body = b;
        authorization = authorization;
        is_earlier = found.1;
        is_authorization = kind.0;
        is_named = required-eq_ok _ _ h_id ∙ ap some (sym (eq_of_== found.0));
        authorization_body = authorization_body;
        has_authorization_body = kind.1;
        agrees = match_fields-AgreeOn authorization_body body correlation_fields h3;
      }

  -- A record that is linked belongs to its partition, and an outcome to its authorization.
  pub validate_record_linkage-IsAuthorizedBy :
      (value : codec.Value) (partition : String) (prior : List (VerifiedAuditEntry codec.Value))
      → validate_record_linkage codec value partition prior ≡ ok tt
      → (record_type codec value ≡ some "outcome" → IsAuthorizedBy value prior)
        × ((body : codec.Object) × (record_body codec value ≡ some body)
            × (text_field codec "tenantRef" body ≡ some partition))
  unfolding validate_record_linkage
  validate_record_linkage-IsAuthorizedBy value partition prior h =
      let (kind, h_kind, h1) =
        >>=-eq_ok (required "audit record type is missing" (record_type codec value)) _ h in
      let (body, h_body, h2) =
        >>=-eq_ok (required "audit record body is missing" (record_body codec value)) _ h1 in
      let guard =
        after_refusal (not (is_text partition (text_field codec "tenantRef" body))) _ h2 in
      let bodied = required-eq_ok _ (record_body codec value) h_body in
      let tenant =
        is_text-eq partition (text_field codec "tenantRef" body)
          (not-eq_false (is_text partition (text_field codec "tenantRef" body)) guard.0) in
      (
        λ e. validate_outcome-IsAuthorizedBy value body prior bodied (
            outcome_branch kind _
              (some_injective (sym (required-eq_ok _ (record_type codec value) h_kind) ∙ e))
              guard.1),
        (body, bodied, tenant),
      )
