-- ===== src/Examples/RegistryRuns.antt =====
-- The registry and the cache of bindings.
use mathlib.Core.List.{Perm}
use aistudio_gemini_gateway.Base.{
  ℕ, ◌≡◌, refl, false, Option, none, some, List, [], ◌∷◌, bytes, text_eq, nat_eq, lookup, Result,
  ok, err, arith, insert, trim_space, to_lower, delete, is_space, trim_left, trim_right, lower_byte,
}
use aistudio_gemini_gateway.Service.Provider.{RuntimeProvider, cooling}
use aistudio_gemini_gateway.Registry.State.{
  CooldownTimer, update_diagnostics, Registry, new, provider_map_key, publish, stop_cooldown_timer,
  sync_cooldown_timer, replace_cooldown_timer,
}
use aistudio_gemini_gateway.Registry.Transitions.{
  set_cooldown, change_cooldown, change_event, put, note_state, handle_cooldown_timer, list, values,
}
use aistudio_gemini_gateway.Registry.Calls.{Call, registers, sets_cooldown, run, step}
use aistudio_gemini_gateway.Registry.{
  RegistryError, Registration, register, validate_provider_id, provider_id_pattern, fill_defaults,
  normalize_provider, store, register_new, register_replacement, register_again,
  register_normalized,
}
use aistudio_gemini_gateway.Registry.Invariant.{Inv}
use aistudio_gemini_gateway.Registry.Invariant.Steps.{run-new-Inv}
use aistudio_gemini_gateway.Registry.Cooldown.{cooling_recovers, recovered}
use aistudio_gemini_gateway.Registry.Listing.{IsListed, list-IsListed}
use aistudio_gemini_gateway.Cache.{Cache, set, get_read, get_finish}
use aistudio_gemini_gateway.Cache.Laws.{bound, get_deletes_fresh_binding}
use aistudio_gemini_gateway.Examples.Samples.{studio, studio_again, backup}

abbrev history : List (ℕ × Call)
history =
    (10, registers (some studio))
    ∷ (20, sets_cooldown (bytes "a") 50 (bytes "busy"))
    ∷ (30, registers (some backup))
    ∷ []

run-new-Inv_example : Inv (run new history)
run-new-Inv_example = run-new-Inv history

list-IsListed_example :
    Perm (list (run new history)) (values (run new history).providers)
    × IsListed (list (run new history))
list-IsListed_example = list-IsListed (run new history)

abbrev empty_cache : Cache
empty_cache = record { entries = []; ttl = 10; stopped = false }

abbrev one_entry : Cache
one_entry = record {
  entries = (bytes "k", record { provider_id = bytes "a"; expires_at = 4 }) ∷ [];
  ttl = 10;
  stopped = false;
}

get_deletes_fresh_binding_example :
    (lookup (trim_space (bytes "k")) (set 9 (bytes "k") (bytes "b") one_entry).entries
      ≡ some (bound 9 (bytes "b") one_entry))
    × (lookup
          (trim_space (bytes "k"))
          (get_finish 9
            (bytes "k")
            (get_read (bytes "k") one_entry)
            (set 9 (bytes "k") (bytes "b") one_entry)).0.entries
        ≡ none)
unfolding get_read lookup trim_space is_space
get_deletes_fresh_binding_example =
    get_deletes_fresh_binding 9 (bytes "k") (bytes "b") one_entry
      (record { provider_id = bytes "a"; expires_at = 4 }) refl refl refl (omega arith)

abbrev accepted : Result RegistryError Registration → Registration
accepted (ok done) = done
accepted (err _) = record { registry = new; current = studio; replaced = none }

abbrev first : Registration
first = accepted (register 10 (some studio) new)

abbrev second : Registration
second = accepted (register 20 (some studio_again) first.registry)

abbrev busy : Registry
busy = run new history

abbrev provider_or : Option RuntimeProvider → RuntimeProvider
provider_or none = studio
provider_or (some p) = p

abbrev cooling_studio : RuntimeProvider
cooling_studio = record studio { state = cooling; cooldown_until = 50; last_seen_at = 20 }

cooling_recovers_example :
    (t : CooldownTimer) × (lookup (bytes "a") busy.cooldown_timers ≡ some t)
    × (t.until ≡ 50)
    × (lookup (bytes "a") (handle_cooldown_timer 60 t.provider_id t.until busy).providers
        ≡ some (recovered 60 cooling_studio))
    × (lookup (bytes "a") (handle_cooldown_timer 60 t.provider_id t.until busy).cooldown_timers
        ≡ none)
unfolding register normalize_provider fill_defaults validate_provider_id provider_id_pattern
    trim_space trim_left trim_right is_space register_normalized register_new register_replacement
    register_again store lookup insert provider_map_key to_lower lower_byte publish
    sync_cooldown_timer stop_cooldown_timer replace_cooldown_timer delete run step set_cooldown
    change_cooldown change_event put note_state update_diagnostics
cooling_recovers_example =
    cooling_recovers busy (bytes "a") cooling_studio 60 (run-new-Inv history) refl refl
      (omega arith)
