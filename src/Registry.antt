-- ===== src/Registry.antt =====
-- internal/provider/registry/registry.go and `ValidateProviderID` of identity.go: the operations on
-- the online providers. A call is one step: its critical section and the publishing of its event.
-- What the clock shows is an argument, `now`.
pub mod State
pub mod Transitions
pub mod Timers
pub mod Calls
pub mod Invariant
pub mod Cooldown
pub mod Connections
pub mod Listing
use aistudio_gemini_gateway.Base.{
  ℕ, ◌≡◌, Bool, true, false, not, ◌&&◌, ◌||◌, Option, none, some, List, [], ◌∷◌, ◌++◌, Text, Map,
  Result, ok, err, ◌>>=◌, ◌>>◌, require, nat_eq, text_eq, bytes, trim_space, to_lower, is_empty,
  equal_fold, lookup, insert, delete, length, ltb, leb, ltb_ℤ, ℤ_eq, text_ltb, sort_stable, ◌==◌,
  if◌then◌else◌,
}
use aistudio_gemini_gateway.Service.Provider.{
  ProviderState, active, cooling, disabled, RuntimeProvider, ProviderMetadata, ProviderEvent,
  ProviderEventType, MetaValue, text, time, is_valid_state, is_cooling, state_text, state_eq,
}
use State.{
  Registry, provider_map_key, publish, publish_if, update_diagnostics, stop_cooldown_timer,
  replace_cooldown_timer, sync_cooldown_timer,
}

pub data RegistryError : Type 0 where
  provider_nil id_empty id_invalid connection_id_empty label_too_long : RegistryError
  state_invalid use_set_cooldown : RegistryError

abbrev is_alnum : ℕ → Bool
is_alnum c = leb b'0' c && leb c b'9' || leb b'A' c && leb c b'Z' || leb b'a' c && leb c b'z'

abbrev is_id_char : ℕ → Bool
is_id_char c = is_alnum c || c == b'.' || c == b'_' || c == b':' || c == b'-'

abbrev all_id_chars : Text → Bool
all_id_chars [] = true
all_id_chars (c ∷ s) = is_id_char c && all_id_chars s

-- `^[A-Za-z0-9][A-Za-z0-9._:-]{0,127}$`
unfoldable pub provider_id_pattern : Text → Bool
provider_id_pattern [] = false
provider_id_pattern (c ∷ s) = is_alnum c && all_id_chars s && leb (length s) 127

unfoldable pub validate_provider_id : Text → Result RegistryError (Unit {0})
unfolding provider_id_pattern
validate_provider_id id = do
  let trimmed = trim_space id
  require (not (is_empty trimmed)) id_empty
  require (provider_id_pattern trimmed) id_invalid

-- The defaults that `normalizeProvider` fills in.
unfoldable pub fill_defaults : ℕ → RuntimeProvider → RuntimeProvider
fill_defaults now p = record p {
  state = if expired then active else state;
  connected_at = if p.connected_at == 0 then now else p.connected_at;
  last_seen_at = if p.last_seen_at == 0 then now else p.last_seen_at;
  cooldown_until = if expired then 0 else p.cooldown_until;
  metadata = record metadata {
    provider_type =
        if is_empty metadata.provider_type then bytes "aistudio" else metadata.provider_type;
  };
}
  where
    open p use {metadata}

    state : ProviderState
    state = if is_valid_state p.state then p.state else active

    expired : Bool
    expired = is_cooling state && (p.cooldown_until == 0 || not (ltb now p.cooldown_until))

abbrev pub default_label : RuntimeProvider → RuntimeProvider
default_label p = if is_empty p.label then record p { label = p.id } else p

unfoldable pub normalize_provider :
    Option RuntimeProvider → ℕ → Result RegistryError RuntimeProvider
unfolding fill_defaults validate_provider_id
normalize_provider none now = err provider_nil
normalize_provider (some provider) now = do
  let out = record provider {
    id = trim_space provider.id;
    connection_id = trim_space provider.connection_id;
    label = trim_space provider.label;
  }
  validate_provider_id out.id
  require (not (is_empty out.connection_id)) connection_id_empty
  require (leb (length (default_label out).label) 256) label_too_long
  ok (fill_defaults now (default_label out))

-- The first of two texts that is not blank, as `firstNonEmpty` gives it.
abbrev pub first_non_empty : Text → Text → Text
first_non_empty s t = if is_empty (trim_space s) then trim_space t else trim_space s

-- What a call that stores a provider hands back.
pub record Registration : Type 0 where
  pub registry : Registry
  pub current : RuntimeProvider
  pub replaced : Option RuntimeProvider

-- The stored copy, which `syncCooldownTimerLocked` may have changed.
abbrev stored_or : RuntimeProvider → Text → Registry → RuntimeProvider
stored_or p key r = elim (lookup key r.providers) [ none ↦ p | some q ↦ q ]

unfoldable pub store : Text → RuntimeProvider → Registry → Registry
store key p r =
    sync_cooldown_timer key p.id p.state p.cooldown_until
      (record r { providers = insert key p r.providers })

unfoldable pub register_new : ℕ → Text → RuntimeProvider → Registry → Registration
unfolding store
register_new now key p r =
    let stored = store key p r in
    let current = stored_or p key stored in
    record {
      registry =
          publish
            (record {
              type = ProviderEventType.connected;
              provider = current;
              at = now;
              message = bytes "provider connected";
              metadata = [];
            })
            stored;
      current = current;
      replaced = none;
    }

unfoldable pub register_replacement :
    ℕ → Text → RuntimeProvider → RuntimeProvider → Registry → Registration
unfolding store
register_replacement now key old p r =
    let stored = store key p (stop_cooldown_timer key r) in
    let current = stored_or p key stored in
    record {
      registry =
          publish
            (record {
              type = ProviderEventType.replaced;
              provider = current;
              at = now;
              message = bytes "provider connection replaced";
              metadata =
                  (bytes "old_connection_id", text old.connection_id)
                  ∷ (bytes "new_connection_id", text current.connection_id)
                  ∷ [];
            })
            stored;
      current = current;
      replaced = some old;
    }

-- The same connection once more: its times never go back, and no event is sent.
abbrev pub keep_times : RuntimeProvider → RuntimeProvider → RuntimeProvider
keep_times old p = record p {
  connected_at = old.connected_at;
  last_seen_at = if ltb p.last_seen_at old.last_seen_at then old.last_seen_at else p.last_seen_at;
}

unfoldable pub register_again : Text → RuntimeProvider → RuntimeProvider → Registry → Registration
unfolding store
register_again key old p r =
    let kept = keep_times old p in
    let stored = store key kept r in
    record { registry = stored; current = stored_or kept key stored; replaced = none }

unfoldable pub register_normalized : ℕ → RuntimeProvider → Registry → Registration
unfolding register_new register_replacement register_again
register_normalized now p r =
    let key = provider_map_key p.id in
    elim (lookup key r.providers) [
      | none ↦ register_new now key p r
      | some old ↦
          if not (old.connection_id == p.connection_id)
          then register_replacement now key old p r
          else register_again key old p r
    ]

unfoldable pub register : ℕ → Option RuntimeProvider → Registry → Result RegistryError Registration
unfolding normalize_provider register_normalized
register now provider r = do p ← normalize_provider provider now; ok (register_normalized now p r)

abbrev pub matches_connection : RuntimeProvider → Text → Bool
matches_connection p connection_id =
    is_empty connection_id || equal_fold p.connection_id connection_id

abbrev cause_text : Option Text → Text
cause_text none = bytes "unknown"
cause_text (some why) = why

abbrev cause_metadata : Option Text → Map Text MetaValue
cause_metadata none = []
cause_metadata (some why) = (bytes "cause", text why) ∷ []

-- Removes the provider under the key, with its timer, and reports it.
pub remove_provider : ℕ → Text → RuntimeProvider → Option Text → Registry → Registry
remove_provider now key p cause r =
    publish
      (record {
        type = ProviderEventType.disconnected;
        provider = p;
        at = now;
        message = bytes "provider disconnected";
        metadata = cause_metadata cause;
      })
      (update_diagnostics key
        (λ d. record d { last_disconnect_reason = cause_text cause; last_disconnect_at = now })
        (stop_cooldown_timer key (record r { providers = delete key r.providers })))

pub disconnect : ℕ → Text → Text → Option Text → Registry → Registry × Option RuntimeProvider
unfolding remove_provider
disconnect now provider_id connection_id cause r =
    if is_empty (trim_space provider_id) then (r, none) else elim (lookup key r.providers) [
      | none ↦ (r, none)
      | some p ↦
          if matches_connection p (trim_space connection_id)
          then (remove_provider now key p cause r, some p)
          else (r, none)
    ]
  where
    key : Text
    key = provider_map_key provider_id
