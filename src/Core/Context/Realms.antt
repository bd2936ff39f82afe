-- ===== src/Core/Context/Realms.antt =====
-- context.rs, realms: what `with_service_realms` maps, and that realm keys are never reused.
use mathlib.Core.Option
use cordis_rs.Base.{
  ℕ, zero, suc, ◌+◌, ◌≤◌, ◌≡◌, refl, sym, ap, subst, ◌∙◌, inl, inr, false, Option, none, some, List,
  [], ◌∷◌, map, String, String_eq, ◌==◌, arith, leb, if◌then◌else◌, Bool-cases, Option-cases,
  beq_cases, lookup, insert, lookup-insert_self, lookup-insert_ne, contains, All, first_duplicate,
  first_duplicate-none_iff, Distinct, Result, ok, err,
}
use cordis_rs.Core.Context.{
  Context, ServiceRealm, RealmMappingError, duplicate_service, foreign_realm, realm_belongs_to,
  default_realm, u64_max, next_realm_key, lookup_layers, collect, first_foreign, names_of, keys_of,
  isolate_key, derive_isolate, with_service_realms, new_service_realm,
}

lookup-none_of :
    (name : String) (keys : List (String × ℕ))
    → contains (map (λ p. p.0) keys) name ≡ false
    → lookup name keys ≡ none
lookup-none_of name [] h = refl
lookup-none_of name ((n, k) ∷ rest) h = ground (arith, lookup-none_of name rest)

abbrev or_else : Option ℕ → Option ℕ → Option ℕ
or_else (some k) o = some k
or_else none o = o

-- With no name twice, collecting the pairs into a map changes no answer.
lookup-collect :
    (name : String) (keys m : List (String × ℕ))
    → Distinct (map (λ p. p.0) keys)
    → lookup name (collect m keys) ≡ or_else (lookup name keys) (lookup name m)
lookup-collect name [] m d = refl
lookup-collect name ((n, k) ∷ rest) m d = elim (beq_cases n name) [
  | inl (b, e) ↦
      rw (b, lookup-collect name rest (insert n k m) d.1, e)
        (rw (lookup-none_of name rest (subst (λ x. contains (map (λ p. p.0) rest) x ≡ false) e d.0))
          (lookup-insert_self name k m))
  | inr (b, e) ↦ rw (b, lookup-collect name rest (insert n k m) d.1, lookup-insert_ne n name k m e)
]

-- What a batch maps a name to: its realm in the batch, or what the name had before.
abbrev pub mapped : List (String × ServiceRealm) → String → ℕ → ℕ
mapped [] name before = before
mapped ((n, realm) ∷ rest) name before = if n == name then realm.key else mapped rest name before

names-keys :
    (pairs : List (String × ServiceRealm)) → map (λ p. p.0) (keys_of pairs) ≡ names_of pairs
names-keys [] = refl
names-keys (p ∷ ps) = ap (◌∷◌ p.0) (names-keys ps)

mapped-keys :
    (pairs : List (String × ServiceRealm)) (name : String) (o : Option ℕ)
    → Option.get_or (or_else (lookup name (keys_of pairs)) o) default_realm
      ≡ mapped pairs name (Option.get_or o default_realm)
mapped-keys [] name o = refl
mapped-keys ((n, r) ∷ rest) name o = ground (arith, mapped-keys rest name o)

abbrev pub Local : ℕ → List (String × ServiceRealm) → Type 0
Local membership = All (λ p. p.1.membership ≡ membership)

first_foreign-none :
    (membership : ℕ) (pairs : List (String × ServiceRealm))
    → first_foreign membership pairs ≡ none
    → Local membership pairs
unfolding first_foreign
first_foreign-none membership [] h = tt
first_foreign-none membership ((n, r) ∷ rest) h =
    elim (Bool-cases (realm_belongs_to r membership)) [
      | inl b ↦ (ground arith, first_foreign-none membership rest (ground arith))
      | inr b ↦ ground arith
    ]

Local-first_foreign :
    (membership : ℕ) (pairs : List (String × ServiceRealm))
    → Local membership pairs
    → first_foreign membership pairs ≡ none
unfolding first_foreign
Local-first_foreign membership [] h = refl
Local-first_foreign membership ((n, r) ∷ rest) h =
    ground (arith, Local-first_foreign membership rest h.1)

module _ {Layer : Type 0} (c : Context Layer) (pairs : List (String × ServiceRealm)) where
  -- What `with_service_realms` answers: the derived view, or the refusal of the whole batch.
  abbrev pub Maps : Result (Context Layer) RealmMappingError → Type 0
  Maps (ok derived) =
      Distinct (names_of pairs)
      × Local c.root.realm_membership pairs
      × ((name : String) → isolate_key derived name ≡ mapped pairs name (isolate_key c name))
      × (record derived { isolate = c.isolate } ≡ c)
  Maps (err (duplicate_service name)) = ¬ Distinct (names_of pairs)
  Maps (err (foreign_realm name)) =
      Distinct (names_of pairs) × (¬ Local c.root.realm_membership pairs)

  derived-lookup :
      Distinct (names_of pairs)
      → (name : String)
      → isolate_key (derive_isolate c (collect [] (keys_of pairs))) name
        ≡ mapped pairs name (isolate_key c name)
  unfolding isolate_key derive_isolate lookup_layers
  derived-lookup d name =
      ap (λ o. Option.get_or o default_realm) layered
      ∙ mapped-keys pairs name (lookup_layers name c.isolate)
    where
      found : lookup name (collect [] (keys_of pairs)) ≡ or_else (lookup name (keys_of pairs)) none
      found = lookup-collect name (keys_of pairs) [] (subst Distinct (sym (names-keys pairs)) d)

      layered :
          lookup_layers name (derive_isolate c (collect [] (keys_of pairs))).isolate
          ≡ or_else (lookup name (keys_of pairs)) (lookup_layers name c.isolate)
      layered = ground (arith, found)

  -- `with_service_realms` accepts a batch only with no name twice and every realm of this Runtime;
  -- it then maps each name of the batch to its realm and no other, on a view that is otherwise the
  -- same. Each of its two errors says which of the two conditions the batch breaks.
  pub with_service_realms-Maps : Maps (with_service_realms c pairs)
  unfolding with_service_realms
  with_service_realms-Maps = elim (Option-cases (first_duplicate (names_of pairs) [])) [
    | inr (name, p) ↦ rw p (λ d. cc (sym p ∙ (first_duplicate-none_iff (names_of pairs)).1 d))
    | inl p ↦
        let d = (first_duplicate-none_iff (names_of pairs)).0 p in
        elim (Option-cases (first_foreign c.root.realm_membership pairs)) [
          | inr (name, q) ↦ rw (p, q) (d, λ l. cc (sym q ∙ Local-first_foreign _ pairs l))
          | inl q ↦ rw (p, q) (d, first_foreign-none _ pairs q, derived-lookup d, refl)
        ]
  ]

-- `n` allocations in a row.
pub allocate : ℕ → ℕ → Option (List ℕ × ℕ)
allocate zero counter = some ([], counter)
allocate (suc n) counter = elim (next_realm_key counter) [
  | none ↦ none
  | some (key, next) ↦ Option.map (λ r. (key ∷ r.0, r.1)) (allocate n next)
]

-- The `n` numbers above `c`.
abbrev pub above : ℕ → ℕ → List ℕ
above zero c = []
above (suc n) c = (c + 1) ∷ above n (c + 1)

-- The keys of `n` allocations are the `n` numbers above the counter, or the call panics: exactly
-- when they do not fit into 64 bits.
pub allocate-above :
    (n c : ℕ)
    → c ≤ u64_max
    → allocate n c ≡ (if leb (c + n) u64_max then some (above n c, c + n) else none)
unfolding allocate next_realm_key
allocate-above zero c h = ground arith
allocate-above (suc n) c h = elim (Bool-cases (leb (c + 1) u64_max)) [
  | inl b ↦ ground (arith, allocate-above n (c + 1))
  | inr b ↦ ground arith
]

pub new_service_realm-grows :
    {Layer : Type 0} (ctx : Context Layer) (counter : ℕ)
    → counter + 1 ≤ u64_max
    → new_service_realm ctx counter
      ≡ some (record { membership = ctx.root.realm_membership; key = counter + 1 }, counter + 1)
unfolding new_service_realm next_realm_key
new_service_realm-grows ctx counter h = ground arith
