-- ===== src/Server/Accounts/Distinctness.antt =====
-- `register` keeps the telephone numbers and the names of the accounts apart.
use instance_message.Base.{
  ℕ, ◌≡◌, ◌≢◌, ap, inl, inr, false, Bool-cases, List, [], ◌∷◌, ◌++◌, Bytes, bytes_eq, bytes_eq_refl,
  arith, List-cases,
}
use instance_message.Server.Accounts.Table.{Account, with_tel, with_name}
use instance_message.Server.Accounts.Spec.{register, IsFresh, Distinct}

bytes_differ : (a b : Bytes) → bytes_eq a b ≡ false → a ≢ b
bytes_differ a b h e = ground (arith, bytes_eq_refl b, ap (λ x. bytes_eq x b) e)

no_tel :
    (tel : Bytes) (b : Account) (users : List Account)
    → with_tel tel (b ∷ users) ≡ []
    → (b.tel ≢ tel) × (with_tel tel users ≡ [])
no_tel tel b users h = elim (Bool-cases (bytes_eq b.tel tel)) [
  | inl e ↦ absurd (ground arith)
  | inr e ↦ (bytes_differ b.tel tel e, ground arith)
]

no_name :
    (name : Bytes) (b : Account) (users : List Account)
    → with_name name (b ∷ users) ≡ []
    → (b.name ≢ name) × (with_name name users ≡ [])
no_name name b users h = elim (Bool-cases (bytes_eq b.name name)) [
  | inl e ↦ absurd (ground arith)
  | inr e ↦ (bytes_differ b.name name e, ground arith)
]

IsFresh-append :
    (b a : Account) (users : List Account)
    → IsFresh b users
    → b.tel ≢ a.tel
    → b.name ≢ a.name
    → IsFresh b (users ++ a ∷ [])
IsFresh-append b a [] h t n = (t, n, tt)
IsFresh-append b a (c ∷ users) h t n = (h.0, h.1, IsFresh-append b a users h.2 t n)

Distinct-append :
    (a : Account) (users : List Account)
    → Distinct users
    → with_tel a.tel users ≡ []
    → with_name a.name users ≡ []
    → Distinct (users ++ a ∷ [])
Distinct-append a [] h t n = (tt, tt)
Distinct-append a (b ∷ users) h t n =
    let (tel, tels) = no_tel a.tel b users t in
    let (name, names) = no_name a.name b users n in
    (IsFresh-append b a users h.0 tel name, Distinct-append a users h.1 tels names)

pub register-Distinct :
    (id : ℕ) (tel name password : Bytes) (users : List Account)
    → Distinct users
    → Distinct (register id tel name password users)
register-Distinct id tel name password users h = elim (List-cases (with_tel tel users)) [
  | inr (a, r, e) ↦ ground arith
  | inl e ↦ elim (List-cases (with_name name users)) [
    | inr (a, r, f) ↦ ground arith
    | inl f ↦ ground (
      arith,
      Distinct-append (record { id = id; tel = tel; name = name; password = password }) users h e f,
    )
  ]
]
