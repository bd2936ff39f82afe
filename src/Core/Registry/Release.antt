-- ===== src/Core/Registry/Release.antt =====
-- registry.rs, `ResidencyClaim::release`: the Fiber leaves its allocation and the residents.
use cordis_rs.Base.{
  ℕ, ◌-◌, ◌≡◌, refl, sym, ap, subst, ◌∙◌, inl, inr, Bool, true, false, ◌&&◌, Option, none, some,
  List, ℕ_eq, arith, beq_cases, beq_refl, Option-cases, if◌then◌else◌, lookup, remove,
  lookup-insert, lookup-remove, count,
}
use cordis_rs.Core.Registry.{
  PluginKey, PluginKey_eq, PluginGroup, Registry, take, fibers_of, is_at, is_idle, attach_fiber,
  detach_for_removal, release, release_residency,
}
use cordis_rs.Core.Registry.Residency.{
  one, once_at, key_of, IsRegistry, count-take, still_mapped, Kept, attach_fiber-Kept,
  detach_for_removal-IsRegistry,
}

module _ (fiber at : ℕ) (group : PluginGroup) (registry : Registry)
    (claimed : lookup fiber registry.claims ≡ some at)
    (grouped : lookup at registry.groups ≡ some group) (h : IsRegistry registry) where
  released : Registry
  released =
      release at fiber (some group) (record registry { claims = remove fiber registry.claims })

  released-resident : (f : ℕ) → count f released.residents ≡ one (lookup f released.claims)
  unfolding released
  released-resident f =
      count-take fiber f registry.residents
      ∙ rw (h.resident f, lookup-remove fiber f registry.claims)
          (elim (beq_cases fiber f) [
            | inl (b, q) ↦
                rw (b, subst (λ z. lookup z registry.claims ≡ some at) q claimed) (omega arith)
            | inr (b, q) ↦ rw b (omega arith)
          ])

  released-member :
      (a f : ℕ)
      → count f (fibers_of (lookup a released.groups)) ≡ once_at a (lookup f released.claims)
  unfolding released
  released-member a f =
      rw
        (
          lookup-insert at a (record group { fibers = take fiber group.fibers }) registry.groups,
          lookup-remove fiber f registry.claims,
        )
        (elim (beq_cases at a) [
          | inl (b, q) ↦ rw b (
              count-take fiber f group.fibers
              ∙ rw (ap (λ g. count f (fibers_of g)) (sym grouped) ∙ h.member at f)
                  (elim (beq_cases fiber f) [
                    | inl (c, r) ↦
                        rw
                          (
                            c,
                            subst (λ z. lookup z registry.claims ≡ some at) r claimed,
                            beq_refl at,
                          )
                          (omega arith)
                    | inr (c, r) ↦ rw c (
                        subst
                          (λ z.
                            once_at at (lookup f registry.claims) - 0
                            ≡ once_at z (lookup f registry.claims))
                          q (omega arith))
                  ]))
          | inr (b, q) ↦
              rw (b, h.member a f)
                (elim (beq_cases fiber f) [
                  | inl (c, r) ↦
                      rw (c, subst (λ z. lookup z registry.claims ≡ some at) r claimed, b) refl
                  | inr (c, r) ↦ rw c refl
                ])
        ])

  -- A key that is mapped after the release was mapped so before.
  released-mapped :
      (k : PluginKey) (a : ℕ)
      → lookup k released.allocations ≡ some a
      → lookup k registry.allocations ≡ some a
  unfolding released
  released-mapped k a e =
      either (is_at at (lookup group.id registry.allocations) && is_idle (take fiber group.fibers))
        e
    where
      either :
          (b : Bool)
          → lookup k (if b then remove group.id registry.allocations else registry.allocations)
            ≡ some a
          → lookup k registry.allocations ≡ some a
      either true x = still_mapped group.id k registry.allocations a x
      either false x = x

  released-current :
      (k : PluginKey) (a : ℕ)
      → lookup k released.allocations ≡ some a
      → key_of (lookup a released.groups) ≡ some k
  unfolding released
  released-current k a e =
      let old = h.current k a (released-mapped k a e) in
      rw (lookup-insert at a (record group { fibers = take fiber group.fibers }) registry.groups)
        (elim (beq_cases at a) [
          | inl (b, q) ↦ rw b (
              ap key_of (sym grouped)
              ∙ subst (λ z. key_of (lookup z registry.groups) ≡ some k) (sym q) old)
          | inr (b, q) ↦ rw b old
        ])

pub release_residency-IsRegistry :
    (fiber : ℕ) (registry : Registry)
    → IsRegistry registry
    → IsRegistry (release_residency fiber registry)
unfolding release_residency released
release_residency-IsRegistry fiber registry h = elim (Option-cases (lookup fiber registry.claims)) [
  | inl e ↦ rw (e, release_residency) h
  | inr (at, e) ↦
      rw (e, release_residency)
        (elim (Option-cases (lookup at registry.groups)) [
          | inl g ↦ absurd (ground (arith, rw (g, e, beq_refl at) at (h.member at fiber)))
          | inr (group, g) ↦ rw g (record {
            resident = released-resident fiber at group registry e g h;
            member = released-member fiber at group registry e g h;
            current = released-current fiber at group registry e g h;
          })
        ])
]

-- What happens to the registry: an attach with the address of a new allocation, a detach, a release.
pub data RegistryOp : Type 0 where
  attaches : (address : ℕ) → PluginKey → (fiber : ℕ) → RegistryOp
  detaches : PluginKey → RegistryOp
  releases : (fiber : ℕ) → RegistryOp

pub apply_op {κ} :
    {Recursion : Type κ} → (List ℕ → Option Recursion) → RegistryOp → Registry → Option Registry
apply_op refuses (attaches address key fiber) registry = attach_fiber address key fiber registry
apply_op refuses (detaches key) registry = some (detach_for_removal refuses key registry).1
apply_op refuses (releases fiber) registry = some (release_residency fiber registry)

-- The address of a new allocation is not in use.
abbrev pub IsFresh : RegistryOp → Registry → Type 0
IsFresh (attaches address key fiber) registry = lookup address registry.groups ≡ none
IsFresh (detaches key) registry = Unit
IsFresh (releases fiber) registry = Unit

-- An attach at a fresh address that is not refused, a detach, refused or not, and a release keep the
-- registry: each Fiber with a claim is resident once and a member once of its own allocation, no other
-- is resident or a member, and a current allocation has a group with its key.
pub apply_op-Kept {κ} :
    {Recursion : Type κ} (refuses : List ℕ → Option Recursion) (op : RegistryOp)
    (registry : Registry)
    → IsRegistry registry
    → IsFresh op registry
    → Kept (apply_op refuses op registry)
unfolding apply_op
apply_op-Kept refuses (attaches address key fiber) registry h n =
    attach_fiber-Kept address key fiber registry h n
apply_op-Kept refuses (detaches key) registry h n =
    detach_for_removal-IsRegistry refuses key registry h
apply_op-Kept refuses (releases fiber) registry h n = release_residency-IsRegistry fiber registry h
