-- ===== src/Invocation/Store/Keys.antt =====
-- What a key is bound to, behind each way to change the records.
use kiteframe.Base.{
  ◌≡◌, refl, true, some, [], ◌∷◌, any, find, arith, Result, ok, err, Bool-cases, Option-cases, inl,
  inr, ◌⊎◌, ◌==◌, string_eq, if◌then◌else◌,
}
use kiteframe.Contract.Diagnostic.{Diagnostic}
use kiteframe.Contract.Refs.{InvocationId, Timestamp}
use kiteframe.Invocation.Stored.{StoredInvocation, ReservationKey, reservation_key_eq}
use kiteframe.Invocation.Store.{
  Entry, Records, get, insert, write, has_id, is_retained, purge, fences_scope, modify, commit,
}
use kiteframe.Invocation.Store.Writing.{Found, Found-cases}

-- A retained record keeps its key.
pub get-purge :
    (now : Timestamp) (key : ReservationKey) (s : StoredInvocation) (records : Records)
    → is_retained now (key, s) ≡ true
    → get key records ≡ some s
    → get key (purge now records) ≡ some s
unfolding purge
get-purge now key s [] k g = cc
get-purge now key s (x ∷ records) k g = ground (arith, get-purge now key s records)

pub get-insert :
    (key j : ReservationKey) (s : StoredInvocation) (records : Records)
    → get j (insert key s records) ≡ (if key == j then some s else get j records)
get-insert key j s [] = refl
get-insert key j s (x ∷ records) = ground (arith, get-insert key j s records)

-- A scope that was fenced before a purge is fenced behind it.
pub fences-purge :
    (now : Timestamp) (key : ReservationKey) (records : Records)
    → any (fences_scope key) (purge now records) ≡ any (fences_scope key) records
unfolding purge
fences-purge now key [] = refl
fences-purge now key (x ∷ records) = ground (arith, fences-purge now key records)

-- A write changes the binding of a key only at the record that the search by ID found.
pub get-write :
    (id : InvocationId) (e : Entry) (s' : StoredInvocation) (key : ReservationKey)
    (s : StoredInvocation) (records : Records)
    → Found id e records
    → get key records ≡ some s
    → (get key (write id s' records) ≡ some s)
      ⊎ (get key (write id s' records) ≡ some s') × (s ≡ e.1)
get-write id e s' key s [] f g = cc
get-write id e s' key s (x ∷ records) f g = elim (Found-cases id e x records f) [
  | inl (t, p) ↦ rw t (elim (Bool-cases (x.0 == key)) [
    | inl k ↦ inr (ground arith, ground arith)
    | inr k ↦ inl (ground arith)
  ])
  | inr (t, r) ↦ rw t (elim (Bool-cases (x.0 == key)) [
    | inl k ↦ inl (ground arith)
    | inr k ↦ rw k (get-write id e s' key s records r (ground arith))
  ])
]

-- `modify` changes the binding of a key only to what its change made of that record.
pub get-modify :
    (id : InvocationId) (change : StoredInvocation → Result Diagnostic StoredInvocation)
    (key : ReservationKey) (s : StoredInvocation) (records : Records)
    → get key records ≡ some s
    → (get key (modify id change records).0 ≡ some s)
      ⊎ ((s' : StoredInvocation) × (get key (modify id change records).0 ≡ some s')
          × (change s ≡ ok s'))
unfolding modify
get-modify id change key s records g = elim (Option-cases (find (has_id id) records)) [
  | inl n ↦ rw (n, modify) (inl g)
  | inr (e, f) ↦ rw (f, modify) (changed e f (change e.1) refl)
]
  where
    changed :
        (e : Entry)
        → Found id e records
        → (r : Result Diagnostic StoredInvocation) → change e.1 ≡ r
        → (get key (commit id records r).0 ≡ some s)
          ⊎ ((s' : StoredInvocation) × (get key (commit id records r).0 ≡ some s')
              × (change s ≡ ok s'))
    changed e f (err diagnostic) c = inl g
    changed e f (ok s') c = elim (get-write id e s' key s records f g) [
      | inl same ↦ inl same
      | inr (new, p) ↦ inr (s', new, rw p c)
    ]
