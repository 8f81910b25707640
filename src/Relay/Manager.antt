-- ===== src/Relay/Manager.antt =====
-- internal/wsrelay/manager.go: who may connect, and the current session of each provider.
pub mod Replacement
pub mod Admission
use aistudio_gemini_gateway.Base.{
  ℕ, suc, Bool, true, Option, none, some, List, [], ◌++◌, Text, bytes, nat_eq, text_eq, ◌==◌,
  is_empty, trim_space, equal_fold, has_prefix, if◌then◌else◌, Map, lookup, insert, delete, map,
  Result, ok, err, ◌>>=◌, ◌>>◌, require, length, pos,
}
use aistudio_gemini_gateway.Service.Provider.{RuntimeProvider, active, is_valid_state}
use aistudio_gemini_gateway.Registry.State.{provider_map_key}
use aistudio_gemini_gateway.Access.{
  HttpRequest, AuthError, AuthResult, AuthProvider, http_status_code, manager_authenticate,
}

-- A session, told from the others by its number as Go's pointers are, with its provider.
pub record Connection : Type 0 where
  pub number : ℕ
  pub provider : RuntimeProvider

-- The sessions by the keys of their providers, and the number of the next one.
pub record Manager : Type 0 where
  pub sessions : Map Text Connection
  pub next : ℕ

unfoldable pub manager_path : Text → Text
manager_path path = normalized (trim_space path)
  where
    normalized : Text → Text
    normalized p =
        if is_empty p
        then bytes "/v1/ws"
        else if has_prefix p (bytes "/")
        then p
        else bytes "/" ++ p

unfoldable pub session_of : Text → Manager → Option Connection
session_of provider_id m = lookup (provider_map_key provider_id) m.sessions

unfoldable pub session_count : Manager → ℕ
session_count m = length m.sessions

-- The sessions that Stop closes.
unfoldable pub stop_snapshot : Manager → List Connection
stop_snapshot m = map (λ entry. entry.1) m.sessions

unfoldable pub close_current :
    Connection → Manager → Option Connection → Manager × Option RuntimeProvider
close_current sess m none = (m, none)
close_current sess m (some current) =
    if current.number == sess.number
    then (
      record m { sessions = delete (provider_map_key sess.provider.id) m.sessions },
      some sess.provider,
    )
    else (m, none)

-- The manager, and what the handler of lost providers is told, if the session was the current one.
unfoldable pub handle_session_closed : Connection → Manager → Manager × Option RuntimeProvider
handle_session_closed sess m = close_current sess m (session_of sess.provider.id m)

abbrev pub new_connection : RuntimeProvider → Manager → Connection
new_connection p m = record { number = m.next; provider = p }

-- The new session takes the place of the old one in the map.
unfoldable pub attach : RuntimeProvider → Manager → Manager
attach p m = record {
  sessions = insert (provider_map_key p.id) (new_connection p m) m.sessions;
  next = suc m.next;
}

abbrev pub close_replaced : Option Connection → Manager → Manager
close_replaced none m = m
close_replaced (some sess) m = (handle_session_closed sess m).0

-- First the map is changed, then the old session is closed.
unfoldable pub connect : RuntimeProvider → Manager → Manager
connect p m = close_replaced (session_of p.id m) (attach p m)

-- A handshake: its method, its path, and what access and the origin check read.
pub record Handshake : Type 0 where
  pub method : Text
  pub path : Text
  pub origin : Text
  pub request : HttpRequest

pub data Refusal : Type 0 where
  method_not_allowed not_found origin_not_allowed : Refusal
  not_authenticated : ℕ → Refusal
  bad_provider : Text → Refusal
  upgrade_failed : Text → Refusal

-- What the manager is made with; `none` is a nil field.
pub record Settings : Type 0 where
  pub path : Text
  pub origin_check : Option (Option Text → Bool)
  pub access : Option (List AuthProvider)
  pub provider_factory :
      Option (Handshake → Option AuthResult → Result Text (Option RuntimeProvider))

abbrev pub passes_origin : Option (Option Text → Bool) → Handshake → Bool
passes_origin none h = true
passes_origin (some check) h = check (some h.origin)

abbrev pub refused : Result AuthError (Option AuthResult) → Result Refusal (Option AuthResult)
refused (ok result) = ok result
refused (err e) = err (not_authenticated (http_status_code e))

abbrev pub authenticated :
    Option (List AuthProvider) → Handshake → Result AuthError (Option AuthResult)
authenticated none h = ok none
authenticated (some providers) h = manager_authenticate providers (some h.request)

abbrev pub base_provider : RuntimeProvider
base_provider = record {
  id = [];
  connection_id = [];
  label = [];
  state = active;
  priority = pos 0;
  connected_at = 0;
  last_seen_at = 0;
  cooldown_until = 0;
  tags = [];
  metadata = record { provider_type = bytes "aistudio"; request_headers = []; attributes = [] };
}

abbrev pub or_base : Option RuntimeProvider → RuntimeProvider
or_base none = base_provider
or_base (some p) = p

abbrev pub made : Result Text (Option RuntimeProvider) → Result Refusal RuntimeProvider
made (ok o) = ok (or_base o)
made (err message) = err (bad_provider message)

abbrev pub provider_from :
    Option (Handshake → Option AuthResult → Result Text (Option RuntimeProvider))
    → Handshake
    → Option AuthResult
    → Result Refusal RuntimeProvider
provider_from none h auth = ok base_provider
provider_from (some factory) h auth = made (factory h auth)

abbrev pub is_unset : Option Text → Bool
is_unset none = true
is_unset (some value) = is_empty value

unfoldable pub set_missing : Text → Text → Map Text Text → Map Text Text
set_missing key value attributes =
    if is_unset (lookup key attributes) then insert key value attributes else attributes

unfoldable pub note_auth : Option AuthResult → Map Text Text → Map Text Text
note_auth none attributes = attributes
note_auth (some result) attributes =
    set_missing (bytes "auth_principal") result.principal
      (set_missing (bytes "auth_provider") result.provider attributes)

-- The defaults of a provider, with the ids that are drawn for it and the time.
unfoldable pub fill_provider :
    Text → Text → ℕ → Option AuthResult → RuntimeProvider → RuntimeProvider
fill_provider drawn_id connection_id now auth p =
    let id = if is_empty (trim_space p.id) then drawn_id else p.id in
    record p {
      id = id;
      connection_id = connection_id;
      label = if is_empty (trim_space p.label) then id else p.label;
      state = if is_valid_state p.state then p.state else active;
      connected_at = now;
      last_seen_at = now;
      metadata = record p.metadata {
        provider_type =
            if is_empty p.metadata.provider_type
            then bytes "aistudio"
            else p.metadata.provider_type;
        attributes = note_auth auth p.metadata.attributes;
      };
    }

abbrev pub upgraded : Result Text (Unit {0}) → Result Refusal (Unit {0})
upgraded (ok u) = ok u
upgraded (err message) = err (upgrade_failed message)

-- The handler of handshakes. `upgrade` is what gorilla's Upgrade returns: an error, or a connection.
unfoldable pub handle_websocket :
    Settings
    → Text
    → Text
    → ℕ
    → Result Text (Unit {0})
    → Handshake
    → Manager
    → Result Refusal Manager
handle_websocket settings drawn_id connection_id now upgrade h m = do
  _ ← require (equal_fold h.method (bytes "GET")) method_not_allowed
  _ ← require (h.path == manager_path settings.path) not_found
  _ ← require (passes_origin settings.origin_check h) origin_not_allowed
  auth ← refused (authenticated settings.access h)
  given ← provider_from settings.provider_factory h auth
  _ ← upgraded upgrade
  ok (connect (fill_provider drawn_id connection_id now auth given) m)
