-- ===== src/Core/Context.antt =====
-- crates/cordis-core/src/context.rs: a view into one Runtime, with its three semantic axes, and
-- the realms and scopes that it hands out (service.rs has `ServiceRealm`).
-- A chain of `Option<Arc<Layer>>` is a list, innermost layer first, and `None` is the empty list.
-- `TypeId`s and the addresses of `Arc`s are numbers; prepared layers are of a parameter type.
pub mod Axes
pub mod Realms
pub mod Config
use mathlib.Core.Option
use cordis_rs.Base.{
  ℕ, suc, ◌+◌, ◌-◌, ◌^◌, Bool, true, false, not, ◌&&◌, ◌||◌, Option, none, some, List, [], ◌∷◌,
  ◌++◌, reverse, map, String, String_eq, ◌==◌, nat_eq, leb, if◌then◌else◌, lookup, insert, contains,
  any, filter, first_duplicate, Result, ok, err, ◌>>=◌, ◌>>◌,
}

abbrev pub u64_max : ℕ
u64_max = 2 ^ 64 - 1

abbrev pub default_realm : ℕ
default_realm = 0

-- The key and the counter behind it. `none`: the identity space is exhausted, and the call panics.
pub next_realm_key : ℕ → Option (ℕ × ℕ)
next_realm_key previous =
    if leb (previous + 1) u64_max then some (previous + 1, previous + 1) else none

pub record ServiceRealm : Type 0 where
  pub membership : ℕ
  pub key : ℕ

abbrev pub realm_belongs_to : ServiceRealm → ℕ → Bool
realm_belongs_to realm membership = nat_eq realm.membership membership

pub data RealmMappingError : Type 0 where
  duplicate_service foreign_realm : (service : String) → RealmMappingError

pub record ConfiguredLayer (Layer : Type 0) : Type 0 where
  pub service_type : ℕ
  pub value : Layer

pub record InterceptLayer (Layer : Type 0) : Type 0 where
  pub name : String
  pub configured : ConfiguredLayer Layer

-- What the views of one Runtime share and a view itself reads.
pub record Root : Type 0 where
  pub realm_membership : ℕ
  pub scope_membership : ℕ
  pub root_fiber : ℕ

pub record Context (Layer : Type 0) : Type 0 where
  pub root : Root
  pub fiber : ℕ
  pub isolate : List (List (String × ℕ))
  pub scope : List ℕ
  pub intercept : List (InterceptLayer Layer)

pub record Scope : Type 0 where
  pub membership : ℕ
  pub layer : List ℕ

-- `IsolateLayer::lookup`: the nearest layer wins.
pub lookup_layers : String → List (List (String × ℕ)) → Option ℕ
lookup_layers name [] = none
lookup_layers name (current ∷ outer) =
    let rest = lookup_layers name outer in
    elim (lookup name current) [ some id ↦ some id | none ↦ rest ]

-- `ScopeNode::reaches`: the chain of `self` against the address at the head of the other chain.
abbrev pub reaches : List ℕ → ℕ → Bool
reaches [] head = false
reaches (current ∷ parents) head = nat_eq current head || reaches parents head

-- `collect` into a `HashMap`
abbrev pub collect : List (String × ℕ) → List (String × ℕ) → List (String × ℕ)
collect m [] = m
collect m ((name, key) ∷ rest) = collect (insert name key m) rest

first_foreign : ℕ → List (String × ServiceRealm) → Option String
first_foreign membership [] = none
first_foreign membership ((name, realm) ∷ rest) =
    let later = first_foreign membership rest in
    if not (realm_belongs_to realm membership) then some name else later

abbrev pub names_of : List (String × ServiceRealm) → List String
names_of = map (λ p. p.0)

abbrev pub keys_of : List (String × ServiceRealm) → List (String × ℕ)
keys_of = map (λ p. (p.0, p.1.key))

module _ {Layer : Type 0} where
  -- `Context::root`
  pub root_view : Context Layer → Context Layer
  root_view c = record {
    root = c.root;
    fiber = c.root.root_fiber;
    isolate = [];
    scope = [];
    intercept = [];
  }

  pub with_fiber : Context Layer → ℕ → Context Layer
  with_fiber c fiber = record c { fiber = fiber }

  pub isolate_key : Context Layer → String → ℕ
  isolate_key c name = Option.get_or (lookup_layers name c.isolate) default_realm

  -- The realm and the Runtime's counter behind it.
  pub new_service_realm : Context Layer → ℕ → Option (ServiceRealm × ℕ)
  unfolding next_realm_key
  new_service_realm c counter =
      Option.map (λ r. (record { membership = c.root.realm_membership; key = r.0 }, r.1))
        (next_realm_key counter)

  pub derive_isolate : Context Layer → List (String × ℕ) → Context Layer
  derive_isolate c layer = record c { isolate = layer ∷ c.isolate }

  pub with_isolated_service : Context Layer → String → ℕ → Option (Context Layer × ℕ)
  unfolding next_realm_key derive_isolate
  with_isolated_service c name counter =
      Option.map (λ r. (derive_isolate c (insert name r.0 []), r.1)) (next_realm_key counter)

  pub with_service_realms :
      Context Layer → List (String × ServiceRealm) → Result (Context Layer) RealmMappingError
  unfolding first_foreign derive_isolate
  with_service_realms c pairs = do
    elim (first_duplicate (names_of pairs) []) [
      | none ↦ ok tt
      | some name ↦ err (duplicate_service name)
    ]
    elim (first_foreign c.root.realm_membership pairs) [
      | none ↦ ok tt
      | some name ↦ err (foreign_realm name)
    ]
    ok (derive_isolate c (collect [] (keys_of pairs)))

  pub scope_of : Context Layer → Scope
  scope_of c = record { membership = c.root.scope_membership; layer = c.scope }

  -- `ScopeNode::derive` takes a fresh address.
  pub with_child_scope : Context Layer → ℕ → Context Layer
  with_child_scope c address = record c { scope = address ∷ c.scope }

  pub with_configured_intercept : Context Layer → String → ConfiguredLayer Layer → Context Layer
  with_configured_intercept c name configured = record c {
    intercept = record { name = name; configured = configured } ∷ c.intercept;
  }

  -- The loop of `resolve_config`, innermost layer first.
  pub matching : String → List (InterceptLayer Layer) → List (ConfiguredLayer Layer)
  matching name [] = []
  matching name (current ∷ outer) =
      let rest = matching name outer in
      if current.name == name then current.configured ∷ rest else rest

-- `ConfigResolutionError`
pub data ConfigResolutionError (E : Type 0) : Type 0 where
  contract_mismatch : (service : String) → ConfigResolutionError E
  compose : E → ConfigResolutionError E

-- A Service contract: its name, its `TypeId` and its own composition of prepared layers.
pub record ConfigurableService (Layer Resolved E : Type 0) : Type 0 where
  pub name : String
  pub type_id : ℕ
  pub compose_config : Option Layer → List Layer → Option Layer → Result Resolved E

module _ {Layer Resolved E : Type 0} where
  compose_matching :
      ConfigurableService Layer Resolved E
      → List (ConfiguredLayer Layer)
      → Option Layer
      → Option Layer
      → Result Resolved (ConfigResolutionError E)
  compose_matching s configured base head =
      if any (λ l. not (nat_eq l.service_type s.type_id)) configured
      then err (contract_mismatch s.name)
      else elim (s.compose_config base (map (λ l. l.value) configured) head) [
        | ok resolved ↦ ok resolved
        | err e ↦ err (compose e)
      ]

  pub resolve_config :
      Context Layer
      → ConfigurableService Layer Resolved E
      → Option Layer
      → Option Layer
      → Result Resolved (ConfigResolutionError E)
  unfolding matching compose_matching
  resolve_config c s base head =
      compose_matching s (reverse (matching s.name c.intercept)) base head
