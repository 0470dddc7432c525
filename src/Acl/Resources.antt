-- ===== src/Acl/Resources.antt =====
-- Which queues a receiver may declare and bind.
use Prim.Native.String
use text.Mathlib.Text.{starts_with}
use text.Mathlib.TextEquality.{starts_with_iff}
use text.Mathlib.TextLemmas.{append-nil, append_assoc}
use text.Mathlib.TextPositions.{starts_with-append}
use cipher_mq.Common.{
  ◌≡◌, refl, ◌↔◌, ◌⊎◌, inl, inr, String, true, [], ◌∷◌, arith, text-cases, format,
}
use cipher_mq.Acl.{Role, sender, receiver, admin, unknown, allowed, owns, check_resource}

-- The beginning that the names of a receiver's queues have.
abbrev pub own_prefix : String → String
own_prefix cn = format (cn ∷ "_" ∷ [])

-- `owns` for a queue, in one test: the second name tested has the prefix too.
owns_queue : (cn name : String) → owns cn "queue" name ≡ starts_with name (own_prefix cn)
unfolding owns
owns_queue cn name = elim (text-cases name (format (cn ∷ "_queue" ∷ []))) [
  | inl e ↦
      let named : starts_with name (own_prefix cn) ≡ true =
        rw (e, ← append_assoc cn "_" "queue") (starts_with-append (own_prefix cn) "queue") in
      rw named
  | inr other ↦ rw other (ground arith)
]

-- A queue is open to an admin, and to a receiver exactly where its name is the receiver's name, an
-- underscore and anything behind that; to no sender and to no client without a role.
pub check_resource_queue_iff :
    (role : Role) (cn name : String)
    → (check_resource role cn "queue" name ≡ allowed) ↔ (
        (role ≡ admin)
        ⊎ ((role ≡ receiver) × ((rest : String) × (String.◌++◌ (own_prefix cn) rest ≡ name))))
unfolding check_resource
check_resource_queue_iff admin cn name = (λ _. inl refl, λ _. refl)
check_resource_queue_iff sender cn name = (λ h. absurd (cc), λ h. ground arith)
check_resource_queue_iff unknown cn name = (λ h. absurd (cc), λ h. ground arith)
check_resource_queue_iff receiver cn name = (
  λ h. inr (refl, (starts_with_iff name (own_prefix cn)).0 (ground (arith, owns_queue cn name))),
  λ h. elim h [
    | inl e ↦ absurd (cc)
    | inr (_, prefixed) ↦
        ground (arith, owns_queue cn name, (starts_with_iff name (own_prefix cn)).1 prefixed)
  ],
)

-- So a receiver whose name another receiver's name extends by an underscore and more may manage that
-- receiver's queue as well as the receiver itself may.
pub extended_name_shares_queue :
    (cn more : String)
    → (check_resource receiver cn "queue" (format (cn ∷ "_" ∷ more ∷ "_queue" ∷ [])) ≡ allowed)
      × (check_resource receiver
            (format (cn ∷ "_" ∷ more ∷ []))
            "queue"
            (format (cn ∷ "_" ∷ more ∷ "_queue" ∷ []))
          ≡ allowed)
extended_name_shares_queue cn more = (
  (check_resource_queue_iff receiver cn _).1
      (inr (refl, (String.◌++◌ more "_queue", append_assoc cn "_" (String.◌++◌ more "_queue")))),
  (check_resource_queue_iff receiver (format (cn ∷ "_" ∷ more ∷ [])) _).1
      (inr (refl, ("queue", simp (append_assoc, append-nil)))),
)
