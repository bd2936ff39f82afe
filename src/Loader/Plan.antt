-- ===== src/Loader/Plan.antt =====
-- crates/cordis-loader/src/plan.rs: the declarations, the builder and its validation.
-- `Arc::new` takes the next address of the allocator, a number that each call passes on; two
-- `Arc`s are `ptr_eq` when their addresses agree. The JSON type `Value` is a parameter.
pub mod Duplicates
pub mod Build
use cordis_rs.Base.{
  first_duplicate, ℕ, suc, ◌+◌, ◌≤◌, ◌<◌, String, ◌≡◌, refl, ap, ap₂, ◌↔◌, ◌⊎◌, inl, inr, ◌≢◌, Bool,
  true, false, not, ◌&&◌, ◌||◌, Option, none, some, List, [], ◌∷◌, ◌++◌, map, arith, nat_eq,
  nat_eq_iff, if◌then◌else◌, Bool-cases, Option-cases, Eq, String_eq, ◌==◌, length, filter, any,
  All, contains, Result, ok, err, ◌>>=◌, ◌>>◌,
}

-- `lineage` and `occurrence` are the addresses of the two `Arc`s.
pub record EntryId : Type 0 where
  pub lineage : ℕ
  pub occurrence : ℕ

abbrev pub entry_id_beq : EntryId → EntryId → Bool
entry_id_beq a b = nat_eq a.lineage b.lineage && nat_eq a.occurrence b.occurrence

pub entry_id_beq_iff : (a b : EntryId) → (entry_id_beq a b ≡ true) ↔ (a ≡ b)
entry_id_beq_iff a b = ground arith

instance abbrev pub EntryId_eq : Eq EntryId
EntryId_eq = record { beq = entry_id_beq; beq_iff = entry_id_beq_iff }

abbrev pub belongs_to : EntryId → ℕ → Bool
belongs_to id lineage = nat_eq id.lineage lineage

-- `EntryId::new`, with the allocator before and after.
abbrev pub new_entry_id : ℕ → ℕ → EntryId × ℕ
new_entry_id lineage next = (record { lineage = lineage; occurrence = next }, next + 1)

pub record EntryGroup : Type 0 where
  pub name : String

pub data InjectEntry (Value : Type 0) : Type 0 where
  required : (service : String) → InjectEntry Value
  configured : (service : String) → (config : Value) → InjectEntry Value

abbrev pub service : {Value : Type 0} → InjectEntry Value → String
service (required s) = s
service (configured s config) = s

pub data RealmPolicy : Type 0 where
  private : RealmPolicy
  shared : (label : String) → RealmPolicy

pub record IsolateEntry : Type 0 where
  pub service : String
  pub policy : RealmPolicy

pub record PluginEntry (Value : Type 0) : Type 0 where
  pub key : Option String
  pub name : Option String
  pub config : Value
  pub disabled : Bool
  pub inject : List (InjectEntry Value)
  pub isolate : List IsolateEntry

-- `PluginEntry::new`
abbrev pub new_plugin_entry : {Value : Type 0} → Value → PluginEntry Value
new_plugin_entry config = record {
  key = none;
  name = none;
  config = config;
  disabled = false;
  inject = [];
  isolate = [];
}

pub data PlanError : Type 0 where
  foreign_parent : (parent : EntryId) → PlanError
  missing_resolve_identity : (entry : EntryId) → PlanError
  duplicate_inject_service : (entry : EntryId) → (service : String) → PlanError
  duplicate_isolate_service : (entry : EntryId) → (service : String) → PlanError

pub data PlanEntry (Value : Type 0) : Type 0 where
  plugin : PluginEntry Value → PlanEntry Value
  group : PlanEntry Value

abbrev pub is_parent_capable : {Value : Type 0} → PlanEntry Value → Bool
is_parent_capable (plugin e) = true
is_parent_capable group = true

pub record PlanNode (Value : Type 0) : Type 0 where
  pub id : EntryId
  pub parent : Option EntryId
  pub entry : PlanEntry Value

pub record LoadPlanBuilder (Value : Type 0) : Type 0 where
  pub lineage : ℕ
  pub nodes : List (PlanNode Value)

abbrev no_duplicate : (String → PlanError) → List String → Result (Unit {0}) PlanError
no_duplicate error names = elim (first_duplicate names []) [ none ↦ ok tt | some s ↦ err (error s) ]

abbrev is_none : Option String → Bool
is_none none = true
is_none (some s) = false

check_parent : ℕ → List EntryId → Option EntryId → Result (Unit {0}) PlanError
check_parent lineage capable none = ok tt
check_parent lineage capable (some p) =
    if not (belongs_to p lineage) || not (contains capable p) then err (foreign_parent p) else ok tt

module _ {Value : Type 0} where
  unfoldable pub has_no_identity : PluginEntry Value → Bool
  has_no_identity entry = is_none entry.key && is_none entry.name

  unfoldable pub validate_plugin : EntryId → PluginEntry Value → Result (Unit {0}) PlanError
  unfolding has_no_identity
  validate_plugin id entry = do
    if has_no_identity entry then err (missing_resolve_identity id) else ok tt
    no_duplicate (duplicate_inject_service id) (map service entry.inject)
    no_duplicate (duplicate_isolate_service id) (map (λ d. d.service) entry.isolate)

  -- `LoadPlanBuilder::new`, with the allocator behind it
  unfoldable pub new_builder : ℕ → LoadPlanBuilder Value × ℕ
  new_builder next = (record { lineage = next; nodes = [] }, next + 1)

  abbrev pub admitted : LoadPlanBuilder Value → EntryId → Bool
  admitted b parent =
      belongs_to parent b.lineage && any (λ n. n.id == parent && is_parent_capable n.entry) b.nodes

  unfoldable pub validate_parent :
      LoadPlanBuilder Value → Option EntryId → Result (Unit {0}) PlanError
  validate_parent b none = ok tt
  validate_parent b (some parent) = if admitted b parent then ok tt else err (foreign_parent parent)

  abbrev pub push : LoadPlanBuilder Value → PlanNode Value → LoadPlanBuilder Value
  push b node = record b { nodes = b.nodes ++ (node ∷ []) }

  -- What an addition leaves: its answer, the builder and the allocator.
  unfoldable pub add_plugin :
      LoadPlanBuilder Value
      → Option EntryId
      → PluginEntry Value
      → ℕ
      → Result EntryId PlanError × LoadPlanBuilder Value × ℕ
  add_plugin b parent entry next = elim (validate_parent b parent) [
    | err e ↦ (err e, b, next)
    | ok _ ↦
        let (id, next') = new_entry_id b.lineage next in
        elim (validate_plugin id entry) [
          | err e ↦ (err e, b, next')
          | ok _ ↦
              (ok id, push b (record { id = id; parent = parent; entry = plugin entry }), next')
        ]
  ]

  unfoldable pub add_group :
      LoadPlanBuilder Value
      → Option EntryId
      → EntryGroup
      → ℕ
      → Result EntryId PlanError × LoadPlanBuilder Value × ℕ
  add_group b parent _ next = elim (validate_parent b parent) [
    | err e ↦ (err e, b, next)
    | ok _ ↦
        let (id, next') = new_entry_id b.lineage next in
        (ok id, push b (record { id = id; parent = parent; entry = group }), next')
  ]

  pub check_entry : EntryId → PlanEntry Value → Result (Unit {0}) PlanError
  check_entry id group = ok tt
  check_entry id (plugin entry) = validate_plugin id entry

  -- The loop of `validate_complete`, with the set `parent_capable` so far.
  pub validate_nodes : ℕ → List EntryId → List (PlanNode Value) → Result (Unit {0}) PlanError
  unfolding check_parent check_entry
  validate_nodes lineage capable [] = ok tt
  validate_nodes lineage capable (n ∷ ns) =
      let rest =
        validate_nodes lineage (if is_parent_capable n.entry then n.id ∷ capable else capable) ns in
      do check_parent lineage capable n.parent; check_entry n.id n.entry; rest

  pub validate_complete : ℕ → List (PlanNode Value) → Result (Unit {0}) PlanError
  validate_complete lineage nodes = validate_nodes lineage [] nodes

  -- The frozen plan is the list of nodes.
  pub finish : LoadPlanBuilder Value → Result (List (PlanNode Value)) PlanError
  finish b = validate_complete b.lineage b.nodes >>= λ _. ok b.nodes
