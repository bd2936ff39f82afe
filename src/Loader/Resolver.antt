-- ===== src/Loader/Resolver.antt =====
-- crates/cordis-loader/src/resolver.rs: one call of the application's resolver, behind a firewall.
-- The resolver, the plugins it prepares and the `Display` of its errors are parameters.
use cordis_rs.Base.{String, Option, none, some, List, Result, ok, err}
use cordis_rs.Loader.Plan.{InjectEntry, PluginEntry}

-- What `catch_unwind` gives: a value, or the payload of a panic.
pub data Payload : Type 0 where
  static_str text : (message : String) → Payload
  other : Payload

pub data Caught (A : Type 0) : Type 0 where
  returned : A → Caught A
  unwound : Payload → Caught A

pub record PluginRequest (Value : Type 0) : Type 0 where
  pub resolve_key : String
  pub config : Value
  pub inject : List (InjectEntry Value)

-- The resolver and `error.to_string()`.
pub record PluginResolver (Value Prepared Error : Type 0) : Type 0 where
  pub resolve : PluginRequest Value → Caught (Result (Option Prepared) Error)
  pub to_string : Error → Caught String

pub data ResolverFailureKind : Type 0 where
  returned_error panic : ResolverFailureKind

pub record ResolverFailure : Type 0 where
  pub kind : ResolverFailureKind
  pub diagnostic : String

abbrev pub message_of : Payload → String
message_of (static_str message) = message
message_of (text message) = message
message_of other = "non-string panic payload"

abbrev returned_failure : String → ResolverFailure
returned_failure diagnostic = record { kind = returned_error; diagnostic = diagnostic }

abbrev panicked_failure : Payload → ResolverFailure
panicked_failure payload = record { kind = panic; diagnostic = message_of payload }

abbrev or_name : Option String → Option String → Option String
or_name (some key) name = some key
or_name none name = name

module _ {Value : Type 0} where
  -- `key`, or else `name`; without either, the `expect` panics.
  abbrev pub resolve_key_of : PluginEntry Value → Option String
  resolve_key_of entry = or_name entry.key entry.name

  abbrev pub from_entry : PluginEntry Value → String → PluginRequest Value
  from_entry entry key = record { resolve_key = key; config = entry.config; inject = entry.inject }

abbrev normalize_error : Caught String → ResolverFailure
normalize_error (returned diagnostic) = returned_failure diagnostic
normalize_error (unwound payload) = panicked_failure payload

module _ {Prepared Error : Type 0} where
  abbrev normalize :
      (Error → Caught String)
      → Caught (Result (Option Prepared) Error)
      → Result (Option Prepared) ResolverFailure
  normalize to_string (returned (ok prepared)) = ok prepared
  normalize to_string (returned (err error)) = err (normalize_error (to_string error))
  normalize to_string (unwound payload) = err (panicked_failure payload)

  pub resolve_entry :
      {Value : Type 0}
      → PluginEntry Value
      → String
      → PluginResolver Value Prepared Error
      → Result (Option Prepared) ResolverFailure
  resolve_entry entry key resolver =
      normalize resolver.to_string (resolver.resolve (from_entry entry key))
