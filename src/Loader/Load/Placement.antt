-- ===== src/Loader/Load/Placement.antt =====
-- plan.rs, `RealmEnvironment::place`: where the rows of one declaration put their services.
use cordis_rs.Base.{
  ℕ, ◌+◌, ◌≤◌, String, String_eq, ◌≡◌, refl, sym, ap, subst, inl, inr, some, List, [], ◌∷◌, map,
  arith, Option-cases, lookup, insert, insert-All, Distinct, Result, ok, err, length,
}
use cordis_rs.Core.Context.{
  Context, ServiceRealm, RealmMappingError, duplicate_service, foreign_realm, u64_max,
  with_service_realms, names_of, isolate_key,
}
use cordis_rs.Core.Context.Realms.{
  Local, Maps, new_service_realm-grows, mapped, with_service_realms-Maps,
}
use cordis_rs.Loader.Plan.{IsolateEntry, RealmPolicy, private, shared}
use cordis_rs.Loader.Load.{RealmEnvironment, realm_for, mappings, finish_place, place}

lookup-Local :
    (membership : ℕ) (label : String) (table : RealmEnvironment) (r : ServiceRealm)
    → Local membership table
    → lookup label table ≡ some r
    → r.membership ≡ membership
lookup-Local membership label [] r l h = cc
lookup-Local membership label ((k, s) ∷ table) r l h =
    ground (arith, lookup-Local membership label table r l.1)

abbrev services : List IsolateEntry → List String
services = map (λ d. d.service)

module _ {Layer : Type 0} (ctx : Context Layer) where
  abbrev pub here : ℕ
  here = ctx.root.realm_membership

  -- With a realm key left, a row gets a realm of this Runtime, and uses at most one key.
  record Chosen (counter : ℕ) (r : ServiceRealm × RealmEnvironment × ℕ) : Type 0 where
    own : r.0.membership ≡ here
    table : Local here r.1
    grown : counter ≤ r.2
    spent : r.2 ≤ counter + 1

  realm_for-Chosen :
      (policy : RealmPolicy) (table : RealmEnvironment) (counter : ℕ)
      → Local here table
      → counter + 1 ≤ u64_max
      → (r : ServiceRealm × RealmEnvironment × ℕ) × (realm_for ctx policy table counter ≡ some r)
        × Chosen counter r
  unfolding realm_for
  realm_for-Chosen private table counter l h = (
    (record { membership = here; key = counter + 1 }, table, counter + 1),
    rw (new_service_realm-grows ctx counter h),
    record { own = refl; table = l; grown = omega arith; spent = omega arith },
  )
  realm_for-Chosen (shared label) table counter l h = elim (Option-cases (lookup label table)) [
    | inr (r, e) ↦ (
      (r, table, counter),
      rw (e, realm_for),
      record {
        own = lookup-Local here label table r l e;
        table = l;
        grown = omega arith;
        spent = omega arith;
      },
    )
    | inl e ↦
        let r : ServiceRealm = record { membership = here; key = counter + 1 } in
        (
          (r, insert label r table, counter + 1),
          rw (e, realm_for, new_service_realm-grows ctx counter h),
          record {
            own = refl;
            table = insert-All (λ p. p.1.membership ≡ here) label r table refl l;
            grown = omega arith;
            spent = omega arith;
          },
        )
  ]

  record Mapped (rows : List IsolateEntry) (counter : ℕ)
      (r : List (String × ServiceRealm) × RealmEnvironment × ℕ) : Type 0 where
    names : names_of r.0 ≡ services rows
    own : Local here r.0
    table : Local here r.1
    grown : counter ≤ r.2
    spent : r.2 ≤ counter + length rows

  mappings-Mapped :
      (rows : List IsolateEntry) (table : RealmEnvironment) (counter : ℕ)
      → Local here table
      → counter + length rows ≤ u64_max
      → (r : List (String × ServiceRealm) × RealmEnvironment × ℕ) × (mappings ctx rows table counter
          ≡ some r)
        × Mapped rows counter r
  unfolding mappings
  mappings-Mapped [] table counter l h = (
    ([], table, counter),
    refl,
    record { names = refl; own = tt; table = l; grown = omega arith; spent = omega arith },
  )
  mappings-Mapped (row ∷ rows) table counter l h =
      let (c, e, chosen) = realm_for-Chosen row.policy table counter l (omega arith) in
      let (r, f, m) = mappings-Mapped rows c.1 c.2 chosen.table (omega (arith, chosen.spent)) in
      (
        ((row.service, c.0) ∷ r.0, r.1, r.2),
        rw (e, mappings, f),
        record {
          names = ap (◌∷◌ row.service) m.names;
          own = (chosen.own, m.own);
          table = m.table;
          grown = omega (arith, m.grown, chosen.grown);
          spent = omega (arith, m.spent, chosen.spent);
        },
      )

  -- Only the services that the rows name move, to realms of this Runtime; the table stays local.
  pub record Placed (rows : List IsolateEntry) (counter : ℕ)
      (r : Context Layer × RealmEnvironment × ℕ) : Type 0 where
    pub pairs : List (String × ServiceRealm)
    pub names : names_of pairs ≡ services rows
    pub own : Local here pairs
    pub placed : (name : String) → isolate_key r.0 name ≡ mapped pairs name (isolate_key ctx name)
    pub table : Local here r.1
    pub grown : counter ≤ r.2
    pub spent : r.2 ≤ counter + length rows

  -- A batch of distinct names over realms of this Runtime is accepted.
  accepted :
      (pairs : List (String × ServiceRealm))
      → Distinct (names_of pairs)
      → Local here pairs
      → (derived : Context Layer) × (with_service_realms ctx pairs ≡ ok derived)
        × ((name : String) → isolate_key derived name ≡ mapped pairs name (isolate_key ctx name))
  accepted pairs d l = split (with_service_realms ctx pairs) refl
    where
      split :
          (w : Result (Context Layer) RealmMappingError)
          → with_service_realms ctx pairs ≡ w
          → (derived : Context Layer) × (with_service_realms ctx pairs ≡ ok derived)
            × ((name : String)
                → isolate_key derived name ≡ mapped pairs name (isolate_key ctx name))
      split (ok derived) q =
          (derived, q, (subst (Maps ctx pairs) q (with_service_realms-Maps ctx pairs)).2)
      split (err (duplicate_service name)) q =
          absurd (subst (Maps ctx pairs) q (with_service_realms-Maps ctx pairs) d)
      split (err (foreign_realm name)) q =
          absurd ((subst (Maps ctx pairs) q (with_service_realms-Maps ctx pairs)).1 l)

  finish_place-ok :
      (r : List (String × ServiceRealm) × RealmEnvironment × ℕ) (derived : Context Layer)
      → with_service_realms ctx r.0 ≡ ok derived
      → finish_place ctx r ≡ some (derived, r.1, r.2)
  finish_place-ok (pairs, table, counter) derived f = rw (f, finish_place) refl

  -- With a realm key left for each row, and no service twice, a declaration is placed: neither cause
  -- of `RealmMappingError` arises, the services that it names move to realms of this Runtime and no
  -- other service does, the table of labels stays local, and at most one key a row is used.
  pub place-Placed :
      (rows : List IsolateEntry) (table : RealmEnvironment) (counter : ℕ)
      → Distinct (services rows)
      → Local here table
      → counter + length rows ≤ u64_max
      → (r : Context Layer × RealmEnvironment × ℕ) × (place ctx rows table counter ≡ some r)
        × Placed rows counter r
  unfolding place
  place-Placed [] table counter d l h = (
    (ctx, table, counter),
    refl,
    record {
      pairs = [];
      names = refl;
      own = tt;
      placed = λ name. refl;
      table = l;
      grown = omega arith;
      spent = omega arith;
    },
  )
  place-Placed (row ∷ rows) table counter d l h =
      let (r, e, m) = mappings-Mapped (row ∷ rows) table counter l h in
      let (derived, f, maps) = accepted r.0 (subst Distinct (sym m.names) d) m.own in
      (
        (derived, r.1, r.2),
        rw (e, place) (finish_place-ok r derived f),
        record {
          pairs = r.0;
          names = m.names;
          own = m.own;
          placed = maps;
          table = m.table;
          grown = m.grown;
          spent = m.spent;
        },
      )
