-- ===== src/Invocation/Store/Writing.antt =====
-- Records rewritten, inserted or dropped, as the methods of status.rs do it.
use mathlib.Core.Path.{subst}
use kiteframe.Base.{
  ◌≡◌, sym, true, false, none, some, [], ◌∷◌, ◌++◌, Result, ok, err, any, find, All, Pairwise,
  arith, Option-cases, refl, inl, inr, ◌⊎◌, string_eq,
}
use kiteframe.Base.Laws.{All-retain, Pairwise-retain, find-cons}
use kiteframe.Contract.Diagnostic.{Diagnostic}
use kiteframe.Contract.Refs.{InvocationId, Timestamp}
use kiteframe.Invocation.State.{state_fences_idempotency_scope}
use kiteframe.Invocation.Stored.{StoredInvocation, ReservationKey}
use kiteframe.Invocation.Store.{
  Entry, Records, has_id, write, get, insert, purge, fences_scope, commit, modify,
}
use kiteframe.Invocation.Store.Consistent.{IsWellFormed, IsApart, IsConsistent}

-- The rewritten record has the ID of the old one, and fences a scope only if that did.
pub record Replaces (s s' : StoredInvocation) : Type 0 where
  pub same_id : s'.invocation_id ≡ s.invocation_id
  pub same_fence :
      state_fences_idempotency_scope s'.state ≡ true → state_fences_idempotency_scope s.state ≡ true

Replaces-right :
    (x : Entry) (k : ReservationKey) (s s' : StoredInvocation)
    → Replaces s s'
    → IsApart x (k, s)
    → IsApart x (k, s')
Replaces-right x k s s' r a = ground arith

Replaces-left :
    (x : Entry) (k : ReservationKey) (s s' : StoredInvocation)
    → Replaces s s'
    → IsApart (k, s) x
    → IsApart (k, s') x
Replaces-left x k s s' r a = ground arith

-- The search by ID gives this entry.
abbrev pub Found : InvocationId → Entry → Records → Type 0
Found id e records = find (has_id id) records ≡ some e

pub Found-cases :
    (id : InvocationId) (e x : Entry) (records : Records)
    → Found id e (x ∷ records)
    → (has_id id x ≡ true) × (x ≡ e) ⊎ (has_id id x ≡ false) × Found id e records
Found-cases id e x records f = find-cons (has_id id) e x records f

pub All-Found :
    (P : Entry → Type 0) (id : InvocationId) (e : Entry) (records : Records)
    → Found id e records
    → All P records
    → P e
All-Found P id e [] f h = cc
All-Found P id e (x ∷ records) f h = elim (Found-cases id e x records f) [
  | inl (_, p) ↦ subst P p h.0
  | inr (_, g) ↦ All-Found P id e records g h.1
]

module _ (id : InvocationId) (e : Entry) (s' : StoredInvocation) where
  pub All-write :
      (P : Entry → Type 0) (records : Records)
      → (P e → P (e.0, s'))
      → Found id e records
      → All P records
      → All P (write id s' records)
  All-write P [] keep f h = tt
  All-write P (x ∷ records) keep f h = elim (Found-cases id e x records f) [
    | inl (t, p) ↦ rw t (subst (λ y. P (y.0, s')) (sym p) (keep (subst P p h.0)), h.1)
    | inr (t, g) ↦ rw t (h.0, All-write P records keep g h.1)
  ]

  All-left :
      (x : Entry) (records : Records)
      → x ≡ e
      → Replaces e.1 s'
      → All (IsApart x) records
      → All (IsApart (x.0, s')) records
  All-left x [] p r h = tt
  All-left x (y ∷ records) p r h = (
    subst (λ z. IsApart (z.0, s') y) (sym p)
        (Replaces-left y e.0 e.1 s' r (subst (λ z. IsApart z y) p h.0)),
    All-left x records p r h.1,
  )

  pub Pairwise-write :
      (records : Records)
      → Replaces e.1 s'
      → Found id e records
      → Pairwise IsApart records
      → Pairwise IsApart (write id s' records)
  Pairwise-write [] r f h = tt
  Pairwise-write (x ∷ records) r f h = elim (Found-cases id e x records f) [
    | inl (t, p) ↦ rw t (All-left x records p r h.0, h.1)
    | inr (t, g) ↦ rw t (
      All-write (IsApart x) records (Replaces-right x e.0 e.1 s' r) g h.0,
      Pairwise-write records r g h.1,
    )
  ]

-- A change that keeps each record well formed and replaces it keeps the store consistent.
pub modify-IsConsistent :
    (id : InvocationId) (change : StoredInvocation → Result Diagnostic StoredInvocation)
    (records : Records)
    → ((e : Entry) (s' : StoredInvocation)
        → change e.1 ≡ ok s'
        → IsWellFormed e
        → IsWellFormed (e.0, s') × Replaces e.1 s')
    → IsConsistent records
    → IsConsistent (modify id change records).0
unfolding modify
modify-IsConsistent id change records keep h = elim (Option-cases (find (has_id id) records)) [
  | inl n ↦ rw (n, modify) h
  | inr (e, f) ↦ rw (f, modify) (changed e f (change e.1) refl)
]
  where
    changed :
        (e : Entry)
        → Found id e records
        → (r : Result Diagnostic StoredInvocation) → change e.1 ≡ r
        → IsConsistent (commit id records r).0
    changed e f (err diagnostic) c = h
    changed e f (ok s') c =
        let (good, r) = keep e s' c (All-Found IsWellFormed id e records f h.well_formed) in
        record {
          well_formed = All-write id e s' IsWellFormed records (λ _. good) f h.well_formed;
          apart = Pairwise-write id e s' records r f h.apart;
        }

pub purge-IsConsistent :
    (now : Timestamp) (records : Records) → IsConsistent records → IsConsistent (purge now records)
unfolding purge
purge-IsConsistent now records h = record {
  well_formed = All-retain IsWellFormed _ records h.well_formed;
  apart = Pairwise-retain IsApart _ records h.apart;
}

-- A key that is not bound is inserted at the end of the list.
pub insert-append :
    (key : ReservationKey) (s : StoredInvocation) (records : Records)
    → get key records ≡ none
    → insert key s records ≡ records ++ (key, s) ∷ []
insert-append key s [] h = refl
insert-append key s (x ∷ records) h = ground (arith, insert-append key s records)

-- The three tests of a new reservation set it apart from every record.
pub reserve-IsApart :
    (key : ReservationKey) (s : StoredInvocation) (records : Records)
    → get key records ≡ none
    → any (fences_scope key) records ≡ false
    → any (has_id s.invocation_id) records ≡ false
    → All (λ x. IsApart x (key, s)) records
reserve-IsApart key s [] g f i = tt
reserve-IsApart key s (x ∷ records) g f i = (
  record { keys = ground arith; ids = ground arith; fence = ground arith },
  reserve-IsApart key s records (ground arith) (ground arith) (ground arith),
)
