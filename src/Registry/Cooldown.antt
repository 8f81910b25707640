-- ===== src/Registry/Cooldown.antt =====
-- Cooldowns end: the timer that the registry keeps for a cooling provider recovers it, and no other
-- callback does.
use aistudio_gemini_gateway.Base.{
  ℕ, ◌≤◌, ◌<◌, ◌≡◌, refl, true, false, Option, none, some, Text, text_eq, nat_eq, lookup,
  Option-cases, ltb, ==_iff, arith, All-lookup, inl, inr, lookup-insert_self, lookup-delete_self,
}
use aistudio_gemini_gateway.Service.Provider.{RuntimeProvider, active, is_cooling, cooling}
use aistudio_gemini_gateway.Registry.State.{
  Registry, CooldownTimer, provider_map_key, stop_cooldown_timer, publish,
}
use aistudio_gemini_gateway.Registry.Transitions.{handle_cooldown_timer, put}
use aistudio_gemini_gateway.Registry.Timers.{timer_until, IsAddressed}
use aistudio_gemini_gateway.Registry.Invariant.{Inv}

-- What a timer of a cooling provider leaves of it.
abbrev pub recovered : ℕ → RuntimeProvider → RuntimeProvider
recovered now p = record p { state = active; cooldown_until = 0; last_seen_at = now }

due_timer :
    (now : ℕ) (id : Text) (p : RuntimeProvider) (r : Registry)
    → lookup (provider_map_key id) r.providers ≡ some p
    → is_cooling p.state ≡ true
    → p.cooldown_until ≤ now
    → let s = handle_cooldown_timer now id p.cooldown_until r in
      (lookup (provider_map_key id) s.providers ≡ some (recovered now p))
      × (lookup (provider_map_key id) s.cooldown_timers ≡ none)
unfolding handle_cooldown_timer stop_cooldown_timer put publish
due_timer now id p r e c due =
    rw (e, handle_cooldown_timer, c, (==_iff p.cooldown_until p.cooldown_until).1 refl, not_early)
      (lookup-insert_self key _ r.providers, lookup-delete_self key r.cooldown_timers)
  where
    key : Text
    key = provider_map_key id

    not_early : ltb now p.cooldown_until ≡ false
    not_early = ground arith

timer_of :
    (o : Option CooldownTimer) (until : ℕ)
    → timer_until o ≡ some until
    → (t : CooldownTimer) × (o ≡ some t) × (t.until ≡ until)
timer_of none until e = cc
timer_of (some t) until e = (t, refl, ground arith)

-- In a registry that satisfies the invariant, every cooling provider has a timer, set for the
-- provider's deadline, whose callback at that deadline or later makes the provider active, clears
-- its deadline and leaves no timer behind.
pub cooling_recovers :
    (r : Registry) (key : Text) (p : RuntimeProvider) (now : ℕ)
    → Inv r
    → lookup key r.providers ≡ some p
    → is_cooling p.state ≡ true
    → p.cooldown_until ≤ now
    → (t : CooldownTimer) × (lookup key r.cooldown_timers ≡ some t)
      × (t.until ≡ p.cooldown_until)
      × (lookup key (handle_cooldown_timer now t.provider_id t.until r).providers
          ≡ some (recovered now p))
      × (lookup key (handle_cooldown_timer now t.provider_id t.until r).cooldown_timers ≡ none)
cooling_recovers r key p now v e c due =
    let (t, armed, same) = timer_of (lookup key r.cooldown_timers) p.cooldown_until timed in
    let named = All-lookup IsAddressed key t r.cooldown_timers v.online.addressed armed in
    let (back, gone) = due_timer now t.provider_id p r (rw named e) c due in
    (t, armed, same, rw (same, ← named) back, rw (same, ← named) gone)
  where
    timed : timer_until (lookup key r.cooldown_timers) ≡ some p.cooldown_until
    timed = ground (arith, v.online.agree key)

-- A callback that comes before the deadline of the provider, or was set for another deadline than
-- the provider has now, or whose provider is gone or not cooling, changes nothing.
pub stale_timer_ignored :
    (r : Registry) (id : Text) (until now : ℕ)
    → ((p : RuntimeProvider)
        → lookup (provider_map_key id) r.providers ≡ some p
        → p.state ≡ cooling
        → p.cooldown_until ≡ until
        → now < until)
    → handle_cooldown_timer now id until r ≡ r
unfolding handle_cooldown_timer
stale_timer_ignored r id until now stale =
    elim (Option-cases (lookup (provider_map_key id) r.providers)) [
      | inl e ↦ rw (e, handle_cooldown_timer)
      | inr (p, e) ↦ rw (e, handle_cooldown_timer) (ground (arith, stale p e))
    ]
