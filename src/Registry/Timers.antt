-- ===== src/Registry/Timers.antt =====
-- The cooldown timers against the providers: what each write of the registry keeps.
use aistudio_gemini_gateway.Base.{
  ℕ, ◌≡◌, refl, true, false, Option, none, some, Text, Map, text_eq, nat_eq, lookup, insert, delete,
  lookup-insert, lookup-delete, lookup-insert_self, ◌==◌, ==_iff, if◌then◌else◌, arith, All,
  All-insert, All-delete, inl, inr, Bool-cases,
}
use aistudio_gemini_gateway.Service.Provider.{RuntimeProvider, active, is_cooling}
use aistudio_gemini_gateway.Registry.State.{
  Registry, CooldownTimer, provider_map_key, reset_provider, sync_cooldown_timer,
}
use aistudio_gemini_gateway.Registry.{store}

abbrev pub timer_until : Option CooldownTimer → Option ℕ
timer_until none = none
timer_until (some t) = some t.until

abbrev pub cooling_until : Option RuntimeProvider → Option ℕ
cooling_until none = none
cooling_until (some p) = if is_cooling p.state then some p.cooldown_until else none

-- A provider is cooling exactly while a timer runs for it, and up to the timer's deadline.
abbrev pub TimersAgree : Map Text RuntimeProvider → Map Text CooldownTimer → Type 0
TimersAgree ps ts = (k : Text) → timer_until (lookup k ts) ≡ cooling_until (lookup k ps)

-- A provider stands under the key of its id, and a timer under that of the id it will act on.
abbrev pub IsKeyed : Text × RuntimeProvider → Type 0
IsKeyed e = provider_map_key e.1.id ≡ e.0

abbrev pub IsAddressed : Text × CooldownTimer → Type 0
IsAddressed e = provider_map_key e.1.provider_id ≡ e.0

module _ (key : Text) (ps : Map Text RuntimeProvider) (ts : Map Text CooldownTimer)
    (agree : TimersAgree ps ts) where
  pub agree-put_idle :
      (p : RuntimeProvider)
      → is_cooling p.state ≡ false
      → TimersAgree (insert key p ps) (delete key ts)
  agree-put_idle p idle k =
      ground (arith, agree k, lookup-insert key k p ps, lookup-delete key k ts)

  pub agree-put_cooling :
      (p : RuntimeProvider) (t : CooldownTimer)
      → is_cooling p.state ≡ true
      → t.until ≡ p.cooldown_until
      → TimersAgree (insert key p ps) (insert key t (delete key ts))
  agree-put_cooling p t cooling same k = ground (
    arith,
    agree k,
    lookup-insert key k p ps,
    lookup-insert key k t (delete key ts),
    lookup-delete key k ts,
  )

  pub agree-remove : TimersAgree (delete key ps) (delete key ts)
  agree-remove k = ground (arith, agree k, lookup-delete key k ps, lookup-delete key k ts)

  -- A write that touches neither state nor deadline.
  pub agree-put_same :
      (old p : RuntimeProvider)
      → lookup key ps ≡ some old
      → cooling_until (some p) ≡ cooling_until (some old)
      → TimersAgree (insert key p ps) ts
  agree-put_same old p found same k =
      ground (arith, agree k, agree key, lookup-insert key k p ps, ==_iff key k)

pub record Providers-Inv (r : Registry) : Type 0 where
  pub keyed : All IsKeyed r.providers
  pub addressed : All IsAddressed r.cooldown_timers
  pub agree : TimersAgree r.providers r.cooldown_timers

-- The state after a write of one provider that is not cooling.
pub put_idle-Inv :
    (key : Text) (p : RuntimeProvider) (r : Registry)
    → Providers-Inv r
    → provider_map_key p.id ≡ key
    → is_cooling p.state ≡ false
    → Providers-Inv (record r {
      providers = insert key p r.providers;
      cooldown_timers = delete key r.cooldown_timers;
    })
put_idle-Inv key p r v k idle = record {
  keyed = All-insert IsKeyed key p r.providers v.keyed k;
  addressed = All-delete IsAddressed key r.cooldown_timers v.addressed;
  agree = agree-put_idle key r.providers r.cooldown_timers v.agree p idle;
}

pub put_cooling-Inv :
    (key id : Text) (p : RuntimeProvider) (r : Registry)
    → Providers-Inv r
    → provider_map_key p.id ≡ key
    → provider_map_key id ≡ key
    → is_cooling p.state ≡ true
    → Providers-Inv (record r {
      providers = insert key p r.providers;
      cooldown_timers =
          insert key
            (record { provider_id = id; until = p.cooldown_until })
            (delete key r.cooldown_timers);
    })
put_cooling-Inv key id p r v k named cooling = record {
  keyed = All-insert IsKeyed key p r.providers v.keyed k;
  addressed =
      All-insert IsAddressed key timer (delete key r.cooldown_timers)
        (All-delete IsAddressed key r.cooldown_timers v.addressed) named;
  agree = agree-put_cooling key r.providers r.cooldown_timers v.agree p timer cooling refl;
}
  where
    timer : CooldownTimer
    timer = record { provider_id = id; until = p.cooldown_until }

pub remove-Inv :
    (key : Text) (r : Registry)
    → Providers-Inv r
    → Providers-Inv (record r {
      providers = delete key r.providers;
      cooldown_timers = delete key r.cooldown_timers;
    })
remove-Inv key r v = record {
  keyed = All-delete IsKeyed key r.providers v.keyed;
  addressed = All-delete IsAddressed key r.cooldown_timers v.addressed;
  agree = agree-remove key r.providers r.cooldown_timers v.agree;
}

reset-Inv :
    (key : Text) (p : RuntimeProvider) (r : Registry)
    → Providers-Inv r
    → provider_map_key p.id ≡ key
    → Providers-Inv (record r {
      providers =
          insert key (record p { state = active; cooldown_until = 0 }) (insert key p r.providers);
      cooldown_timers = delete key r.cooldown_timers;
    })
reset-Inv key p r v k = record {
  keyed =
      All-insert IsKeyed key (record p { state = active; cooldown_until = 0 })
        (insert key p r.providers) (All-insert IsKeyed key p r.providers v.keyed k) k;
  addressed = All-delete IsAddressed key r.cooldown_timers v.addressed;
  agree = λ j. ground (
    arith,
    v.agree j,
    lookup-insert key j (record p { state = active; cooldown_until = 0 })
        (insert key p r.providers),
    lookup-insert key j p r.providers,
    lookup-delete key j r.cooldown_timers,
  );
}

-- Storing a provider sets, replaces or stops its timer as its state asks for.
pub store-Inv :
    (key : Text) (p : RuntimeProvider) (r : Registry)
    → Providers-Inv r
    → provider_map_key p.id ≡ key
    → Providers-Inv (store key p r)
unfolding store sync_cooldown_timer
store-Inv key p r v k = elim (Bool-cases (is_cooling p.state)) [
  | inr idle ↦ rw idle (put_idle-Inv key p r v k idle)
  | inl cooling ↦ elim (Bool-cases (p.cooldown_until == 0)) [
    | inl never ↦
        rw (cooling, never, lookup-insert_self key p r.providers, reset_provider)
          (reset-Inv key p r v k)
    | inr due ↦ rw (cooling, due) (put_cooling-Inv key p.id p r v k k cooling)
  ]
]
