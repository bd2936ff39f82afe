-- ===== src/Core/Registry.antt =====
-- crates/cordis-core/src/registry.rs, with `release_residency` of fiber/mod.rs: which Fibers are
-- resident, and under which allocation of their plugin. An allocation is the address of its group;
-- the group stays as long as a claim on it can be released. `claims` holds the residency cells of the
-- Fibers. The refusal of a removal from a settle context is a parameter.
pub mod Residency
pub mod Release
use cordis_rs.Base.{
  ℕ, Bool, true, false, not, ◌&&◌, ◌↔◌, ◌≡◌, refl, ap, Option, none, some, List, [], ◌∷◌, ◌++◌,
  ℕ_eq, Eq, arith, nat_eq, nat_eq_iff, if◌then◌else◌, lookup, insert, remove, Result, ok, err,
}

pub data PluginKey : Type 0 where
  typed : (type_id : ℕ) → PluginKey
  anonymous : (serial : ℕ) → PluginKey

abbrev pub plugin_key_beq : PluginKey → PluginKey → Bool
plugin_key_beq (typed a) (typed b) = nat_eq a b
plugin_key_beq (anonymous a) (anonymous b) = nat_eq a b
plugin_key_beq _ _ = false

pub plugin_key_beq_iff : (a b : PluginKey) → (plugin_key_beq a b ≡ true) ↔ (a ≡ b)
plugin_key_beq_iff (typed a) (typed b) =
    (λ h. ap typed ((nat_eq_iff a b).0 h), λ h. (nat_eq_iff a b).1 (ground arith))
plugin_key_beq_iff (anonymous a) (anonymous b) =
    (λ h. ap anonymous ((nat_eq_iff a b).0 h), λ h. (nat_eq_iff a b).1 (ground arith))
plugin_key_beq_iff (typed a) (anonymous b) =
    (λ h. absurd (ground arith), λ h. absurd (ground arith))
plugin_key_beq_iff (anonymous a) (typed b) =
    (λ h. absurd (ground arith), λ h. absurd (ground arith))

instance abbrev pub PluginKey_eq : Eq PluginKey
PluginKey_eq = record { beq = plugin_key_beq; beq_iff = plugin_key_beq_iff }

pub record PluginGroup : Type 0 where
  pub id : PluginKey
  pub fibers : List ℕ

pub record Registry : Type 0 where
  pub allocations : List (PluginKey × ℕ)
  pub groups : List (ℕ × PluginGroup)
  pub residents : List ℕ
  pub claims : List (ℕ × ℕ)

abbrev pub new_registry : Registry
new_registry = record { allocations = []; groups = []; residents = []; claims = [] }

-- `remove` at the `position` of the Fiber
abbrev pub take : ℕ → List ℕ → List ℕ
take fiber [] = []
take fiber (f ∷ fibers) =
    let rest = take fiber fibers in if nat_eq f fiber then fibers else f ∷ rest

-- The allocation of a key, or a new one at this address.
abbrev pub allocation_of : ℕ → Option ℕ → ℕ
allocation_of address none = address
allocation_of address (some at) = at

abbrev pub joined : PluginKey → ℕ → Option PluginGroup → PluginGroup
joined key fiber none = record { id = key; fibers = fiber ∷ [] }
joined key fiber (some group) = record group { fibers = group.fibers ++ (fiber ∷ []) }

-- `attach_fiber`, with the address that a new allocation gets; `none` for a Fiber that has a claim.
unfoldable pub attach_fiber : (address : ℕ) → PluginKey → (fiber : ℕ) → Registry → Option Registry
attach_fiber address key fiber registry =
    let at = allocation_of address (lookup key registry.allocations) in
    elim (lookup fiber registry.claims) [
      | some claim ↦ none
      | none ↦ some (record {
        allocations = insert key at registry.allocations;
        groups = insert at (joined key fiber (lookup at registry.groups)) registry.groups;
        residents = registry.residents ++ (fiber ∷ []);
        claims = insert fiber at registry.claims;
      })
    ]

abbrev pub fibers_of : Option PluginGroup → List ℕ
fibers_of none = []
fibers_of (some group) = group.fibers

-- `detach_for_removal`: the detached allocation with its frozen members, `none` for a missing key, or
-- the refusal; and the registry behind it.
pub detach_for_removal {κ} :
    {Recursion : Type κ}
    → (List ℕ → Option Recursion)
    → PluginKey
    → Registry
    → Result (Option (ℕ × List ℕ)) Recursion × Registry
detach_for_removal refuses key registry = elim (lookup key registry.allocations) [
  | none ↦ (ok none, registry)
  | some at ↦ elim (refuses (fibers_of (lookup at registry.groups))) [
    | some recursion ↦ (err recursion, registry)
    | none ↦ (
      ok (some (at, fibers_of (lookup at registry.groups))),
      record registry { allocations = remove key registry.allocations },
    )
  ]
]

abbrev pub is_at : ℕ → Option ℕ → Bool
is_at at none = false
is_at at (some other) = nat_eq other at

abbrev pub is_idle : List ℕ → Bool
is_idle [] = true
is_idle (f ∷ fibers) = false

-- `ResidencyClaim::release`, on the group of the claim
abbrev pub release : (at fiber : ℕ) → Option PluginGroup → Registry → Registry
release at fiber none registry = registry
release at fiber (some group) registry =
    let fibers = take fiber group.fibers in
    record registry {
      allocations =
          if is_at at (lookup group.id registry.allocations) && is_idle fibers
          then remove group.id registry.allocations
          else registry.allocations;
      groups = insert at (record group { fibers = fibers }) registry.groups;
      residents = take fiber registry.residents;
    }

-- `release_residency`: the claim leaves the cell of the Fiber, and is released.
pub release_residency : (fiber : ℕ) → Registry → Registry
release_residency fiber registry = elim (lookup fiber registry.claims) [
  | none ↦ registry
  | some at ↦
      release at fiber (lookup at registry.groups)
        (record registry { claims = remove fiber registry.claims })
]
