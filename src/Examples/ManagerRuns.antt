-- ===== src/Examples/ManagerRuns.antt =====
-- A provider that connects, and connects again.
use aistudio_gemini_gateway.Base.{
  Bool, false, is_empty, Text, ◌≡◌, refl, true, none, some, [], ◌∷◌, bytes, text_eq, nat_eq, ◌==◌,
  arith, Option, ok, lookup, insert, equal_fold, trim_space, trim_left, trim_right, is_space,
  to_lower, lower_byte,
}
use aistudio_gemini_gateway.Service.Provider.{RuntimeProvider}
use aistudio_gemini_gateway.Access.{AuthResult, manager_authenticate, authenticate_loop}
use aistudio_gemini_gateway.Relay.Manager.{
  Connection, Manager, Handshake, Settings, session_of, connect, new_connection, attach,
  manager_path, handle_websocket, fill_provider, base_provider,
}
use aistudio_gemini_gateway.Relay.Manager.Replacement.{
  connects, after_events, close_all, empty_manager, connect-stays,
}
use aistudio_gemini_gateway.Relay.Manager.Admission.{handle_websocket-admitted}
use aistudio_gemini_gateway.Examples.Samples.{studio}

abbrev first_session : Connection
first_session = record { number = 0; provider = studio }

connect-stays_example :
    session_of studio.id (
      close_all
        (first_session ∷ [])
        (connect studio (after_events (connects studio ∷ []) empty_manager)))
    ≡ some (new_connection studio (after_events (connects studio ∷ []) empty_manager))
unfolding connect attach session_of lookup insert
connect-stays_example =
    connect-stays (connects studio ∷ []) studio (first_session ∷ []) (omega arith, tt)

abbrev visitor : AuthResult
visitor = record {
  provider = bytes "api";
  principal = bytes "key:1";
  credential_source = bytes "header";
  credential_name = bytes "X-Api-Key";
}

abbrev home_only : Option Text → Bool
home_only none = false
home_only (some origin) = origin == bytes "http://home"

abbrev guarded : Settings
guarded = record {
  path = [];
  origin_check = some home_only;
  access = some (some (λ r. ok visitor) ∷ []);
  provider_factory = none;
}

abbrev from_home : Handshake
from_home = record {
  method = bytes "GET";
  path = bytes "/v1/ws";
  origin = bytes "http://home";
  request = record { header = []; query = [] };
}

abbrev joined_manager : Manager
joined_manager =
    connect (fill_provider (bytes "p1") (bytes "c1") 7 (some visitor) base_provider) empty_manager

handle_websocket-admitted_example :
    (equal_fold from_home.method (bytes "GET") ≡ true)
    × ((from_home.path == manager_path guarded.path) ≡ true)
    × (home_only (some from_home.origin) ≡ true)
    × ((auth : Option AuthResult) × (manager_authenticate
            (some (λ r. ok visitor) ∷ [])
            (some from_home.request)
          ≡ ok auth))
    × ((p : RuntimeProvider) × (joined_manager ≡ connect p empty_manager)
        × (is_empty (trim_space p.id) ≡ false)
        × (p.connection_id ≡ bytes "c1")
        × (p.connected_at ≡ 7))
unfolding handle_websocket manager_path trim_space trim_left trim_right is_space equal_fold to_lower
    lower_byte manager_authenticate authenticate_loop
handle_websocket-admitted_example =
    handle_websocket-admitted guarded home_only (some (λ r. ok visitor) ∷ []) (bytes "p1")
      (bytes "c1") 7 (ok tt) from_home empty_manager joined_manager refl refl refl refl
