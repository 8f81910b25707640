-- ===== src/Registry/Invariant.antt =====
-- The invariant of the registry, and the writes that keep it.
pub mod Steps
use aistudio_gemini_gateway.Base.{
  All-lookup, ℕ, ◌-◌, ◌≤◌, ◌≡◌, refl, Option, none, some, List, [], ◌∷◌, ◌++◌, Text, Map, text_eq,
  nat_eq, lookup, delete, Option-cases, Bool-cases, ◌==◌, arith, All, inl, inr, length,
  length-append, length-drop, delete_idempotent,
}
use aistudio_gemini_gateway.Service.Provider.{RuntimeProvider, ProviderEvent}
use aistudio_gemini_gateway.Registry.State.{
  Registry, Subscriber, ProviderDiagnostics, provider_map_key, add_event, deliver, deliver_all,
  publish, publish_if, update_diagnostics, stop_cooldown_timer, sync_cooldown_timer,
}
use aistudio_gemini_gateway.Registry.{register_normalized, store}
use aistudio_gemini_gateway.Registry.Timers.{IsKeyed, Providers-Inv, remove-Inv, store-Inv}

abbrev pub IsBuffered : ℕ × Subscriber → Type 0
IsBuffered e = length e.1.queue ≤ e.1.buffer

pub record Inv (r : Registry) : Type 0 where
  pub online : Providers-Inv r
  pub recorded : length r.recent_events ≤ 64
  pub buffered : All IsBuffered r.subscribers

-- A stored provider stands under the key of its id.
pub stored_key :
    (r : Registry) (key : Text) (p : RuntimeProvider)
    → Inv r
    → lookup key r.providers ≡ some p
    → provider_map_key p.id ≡ key
stored_key r key p v e = All-lookup IsKeyed key p r.providers v.online.keyed e

-- A write of providers and timers only.
pub replace_online :
    (r s : Registry)
    → Inv r
    → Providers-Inv s
    → s.recent_events ≡ r.recent_events
    → s.subscribers ≡ r.subscribers
    → Inv s
replace_online r s v w e f = record {
  online = w;
  recorded = rw e v.recorded;
  buffered = rw f v.buffered;
}

length-add_event : (es : List ProviderEvent) (e : ProviderEvent) → length (add_event es e) ≤ 64
unfolding add_event
length-add_event es e =
    ground
      (arith, length-append es (e ∷ []), length-drop (length (es ++ e ∷ []) - 64) (es ++ e ∷ []))

deliver-IsBuffered :
    (e : ProviderEvent) (s : Subscriber)
    → length s.queue ≤ s.buffer
    → length (deliver e s).queue ≤ (deliver e s).buffer
unfolding deliver
deliver-IsBuffered e s h = ground (arith, length-append s.queue (e ∷ []))

deliver_all-IsBuffered :
    (e : ProviderEvent) (m : Map ℕ Subscriber) → All IsBuffered m → All IsBuffered (deliver_all e m)
deliver_all-IsBuffered e [] h = tt
deliver_all-IsBuffered e ((id, s) ∷ m) (b, h) =
    (deliver-IsBuffered e s b, deliver_all-IsBuffered e m h)

pub publish-Inv : (e : ProviderEvent) (r : Registry) → Inv r → Inv (publish e r)
unfolding publish
publish-Inv e r v = record {
  online = record {
    keyed = v.online.keyed;
    addressed = v.online.addressed;
    agree = v.online.agree;
  };
  recorded = length-add_event r.recent_events e;
  buffered = deliver_all-IsBuffered e r.subscribers v.buffered;
}

pub publish_if-Inv : (e : Option ProviderEvent) (r : Registry) → Inv r → Inv (publish_if e r)
publish_if-Inv none r v = v
publish_if-Inv (some e) r v = publish-Inv e r v

pub update_diagnostics-Inv :
    (key : Text) (f : ProviderDiagnostics → ProviderDiagnostics) (r : Registry)
    → Inv r
    → Inv (update_diagnostics key f r)
unfolding update_diagnostics
update_diagnostics-Inv key f r v =
    replace_online r (update_diagnostics key f r) v
      (record { keyed = v.online.keyed; addressed = v.online.addressed; agree = v.online.agree })
      refl refl

store_step-Inv :
    (key : Text) (p : RuntimeProvider) (r : Registry)
    → Inv r
    → provider_map_key p.id ≡ key
    → Inv (store key p r)
unfolding store sync_cooldown_timer
store_step-Inv key p r v k =
    replace_online r (store key p r) v (store-Inv key p r v.online k) (ground arith) (ground arith)

pub stop_cooldown_timer-remove-Inv :
    (key : Text) (r : Registry)
    → Inv r
    → Inv (stop_cooldown_timer key (record r { providers = delete key r.providers }))
unfolding stop_cooldown_timer
stop_cooldown_timer-remove-Inv key r v = replace_online r _ v (remove-Inv key r v.online) refl refl

-- Storing a provider after its timer was stopped is storing it: the timer is stopped once more.
store-stop :
    (key : Text) (p : RuntimeProvider) (r : Registry)
    → store key p (stop_cooldown_timer key r) ≡ store key p r
unfolding store sync_cooldown_timer
store-stop key p r = rw (delete_idempotent key r.cooldown_timers)

pub register_normalized-Inv :
    (now : ℕ) (p : RuntimeProvider) (r : Registry)
    → Inv r
    → Inv (register_normalized now p r).registry
unfolding register_normalized
register_normalized-Inv now p r v = elim (Option-cases (lookup key r.providers)) [
  | inl e ↦ rw (e, register_normalized) (publish-Inv _ _ (store_step-Inv key p r v refl))
  | inr (old, e) ↦ elim (Bool-cases (old.connection_id == p.connection_id)) [
    | inl same ↦ rw (e, register_normalized) (rw same (store_step-Inv key _ r v refl))
    | inr other ↦
        rw (e, register_normalized)
          (rw (other, store-stop key p r) (publish-Inv _ _ (store_step-Inv key p r v refl)))
  ]
]
  where
    key : Text
    key = provider_map_key p.id
