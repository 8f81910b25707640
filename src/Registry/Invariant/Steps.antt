-- ===== src/Registry/Invariant/Steps.antt =====
-- Every call of the registry keeps the invariant, and so does every history of calls.
use aistudio_gemini_gateway.Base.{
  ℕ, ◌≤◌, ◌≡◌, refl, ap, ◌∙◌, true, false, not, ◌||◌, Option, some, List, [], ◌∷◌, Text, Result, ok,
  err, ◌>>=◌, text_eq, nat_eq, trim_space, is_empty, lookup, Option-cases, Bool-cases, ◌==◌, ltb,
  arith, All-lookup, All-insert, All-delete, inl, inr, trim_space_idempotent, to_lower, ℤ, length,
}
use aistudio_gemini_gateway.Service.Provider.{
  RuntimeProvider, ProviderState, ProviderEvent, is_cooling, is_valid_state,
}
use aistudio_gemini_gateway.Registry.State.{
  Registry, Subscriber, new, provider_map_key, stop_cooldown_timer, replace_cooldown_timer,
  subscribe, cancel,
}
use aistudio_gemini_gateway.Registry.{
  RegistryError, register_normalized, normalize_provider, register, disconnect, matches_connection,
}
use aistudio_gemini_gateway.Registry.Transitions.{
  touch, set_state, stored_state, set_cooldown, clear_cooldown, handle_cooldown_timer,
  record_provider_error, change_state, change_cooldown, put,
}
use aistudio_gemini_gateway.Registry.Timers.{
  cooling_until, IsKeyed, agree-put_same, put_idle-Inv, put_cooling-Inv,
}
use aistudio_gemini_gateway.Registry.Calls.{
  Call, registers, disconnects, touches, sets_state, sets_cooldown, clears_cooldown, timer_fires,
  records_error, subscribes, cancels, receives, receive, tail_of, after_register, after_set_state,
  step, run,
}
use aistudio_gemini_gateway.Registry.Invariant.{
  stored_key, Inv, IsBuffered, replace_online, publish-Inv, publish_if-Inv, update_diagnostics-Inv,
  stop_cooldown_timer-remove-Inv, register_normalized-Inv,
}

provider_map_key-trim_space : (id : Text) → provider_map_key (trim_space id) ≡ provider_map_key id
unfolding provider_map_key
provider_map_key-trim_space id = ap to_lower (trim_space_idempotent id)

register-Inv :
    (now : ℕ) (p : Option RuntimeProvider) (r : Registry)
    → Inv r
    → Inv (after_register r (register now p r))
unfolding register
register-Inv now p r v = go (normalize_provider p now)
  where
    go :
        (n : Result RegistryError RuntimeProvider)
        → Inv (after_register r (n >>= λ q. ok (register_normalized now q r)))
    go (ok q) = register_normalized-Inv now q r v
    go (err e) = v

disconnect-Inv :
    (now : ℕ) (id conn : Text) (cause : Option Text) (r : Registry)
    → Inv r
    → Inv (disconnect now id conn cause r).0
unfolding disconnect
disconnect-Inv now id conn cause r v = elim (Bool-cases (is_empty (trim_space id))) [
  | inl blank ↦ rw blank v
  | inr given ↦ elim (Option-cases (lookup (provider_map_key id) r.providers)) [
    | inl e ↦ rw (given, e) v
    | inr (p, e) ↦ elim (Bool-cases (matches_connection p (trim_space conn))) [
      | inr other ↦ rw (given, e, other) v
      | inl same ↦
          rw (given, e, same)
            (publish-Inv _ _ (update_diagnostics-Inv _ _ _ (stop_cooldown_timer-remove-Inv _ r v)))
    ]
  ]
]

-- Writing a provider back with its id, state and deadline kept.
put_same-Inv :
    (key : Text) (old p : RuntimeProvider) (r : Registry)
    → Inv r
    → lookup key r.providers ≡ some old
    → p.id ≡ old.id
    → cooling_until (some p) ≡ cooling_until (some old)
    → Inv (put key p r)
unfolding put
put_same-Inv key old p r v found id same =
    replace_online r _ v
      (record {
        keyed =
            All-insert IsKeyed key p r.providers v.online.keyed
              (ap provider_map_key id ∙ stored_key r key old v found);
        addressed = v.online.addressed;
        agree = agree-put_same key r.providers r.cooldown_timers v.online.agree old p found same;
      })
      refl refl

touch-Inv :
    (now : ℕ) (id conn : Text) (at : ℕ) (r : Registry) → Inv r → Inv (touch now id conn at r).0
unfolding touch
touch-Inv now id conn at r v = elim (Bool-cases (is_empty (trim_space id))) [
  | inl blank ↦ rw blank v
  | inr given ↦ elim (Option-cases (lookup (provider_map_key id) r.providers)) [
    | inl e ↦ rw (given, e) v
    | inr (p, e) ↦ elim (Bool-cases (matches_connection p (trim_space conn))) [
      | inr other ↦ rw (given, e, other) v
      | inl same ↦ rw (given, e, same) (put_same-Inv (provider_map_key id) p _ r v e refl refl)
    ]
  ]
]

change_state-Inv :
    (now : ℕ) (id : Text) (old : RuntimeProvider) (s : ProviderState) (msg : Text) (r : Registry)
    → Inv r
    → lookup (provider_map_key id) r.providers ≡ some old
    → is_cooling s ≡ false
    → Inv (change_state now (provider_map_key id) old s msg r)
unfolding change_state stop_cooldown_timer
change_state-Inv now id old s msg r v found idle = publish_if-Inv _ _ (
    update_diagnostics-Inv _ _ _ (
      replace_online r _ v
        (put_idle-Inv (provider_map_key id) _ r v.online (stored_key r _ old v found) idle) refl
        refl))

change_cooldown-Inv :
    (now : ℕ) (id name : Text) (old : RuntimeProvider) (until : ℕ) (msg : Text) (r : Registry)
    → Inv r
    → lookup (provider_map_key id) r.providers ≡ some old
    → provider_map_key name ≡ provider_map_key id
    → Inv (change_cooldown now (provider_map_key id) name old until msg r)
unfolding change_cooldown stop_cooldown_timer replace_cooldown_timer
change_cooldown-Inv now id name old until msg r v found named =
    elim (Bool-cases (until == 0 || not (ltb now until))) [
      | inl over ↦ rw over (
          publish_if-Inv _ _ (
            update_diagnostics-Inv _ _ _ (
              replace_online r _ v
                (put_idle-Inv (provider_map_key id) _ r v.online (stored_key r _ old v found) refl)
                refl refl)))
      | inr ahead ↦
          rw (ahead, never until ahead)
            (publish_if-Inv _ _ (
              update_diagnostics-Inv _ _ _ (
                replace_online r _ v
                  (put_cooling-Inv (provider_map_key id) name _ r v.online
                    (stored_key r _ old v found) named refl)
                  refl refl)))
    ]
  where
    never : (u : ℕ) → (u == 0 || not (ltb now u)) ≡ false → (u == 0) ≡ false
    never u h = ground arith

set_state-Inv :
    (now : ℕ) (id : Text) (s : ProviderState) (msg : Text) (r : Registry)
    → Inv r
    → Inv (after_set_state r (set_state now id s msg r))
unfolding set_state
set_state-Inv now id s msg r v = elim (Bool-cases (not (is_empty (trim_space id)))) [
  | inr blank ↦ rw blank v
  | inl given ↦ elim (Bool-cases (is_valid_state s)) [
    | inr bad ↦ rw (given, bad) v
    | inl fine ↦ elim (Bool-cases (not (is_cooling s))) [
      | inr cools ↦ rw (given, fine, cools) v
      | inl idle ↦ elim (Option-cases (lookup (provider_map_key id) r.providers)) [
        | inl e ↦ rw (given, fine, idle, e) v
        | inr (old, e) ↦
            rw (given, fine, idle, e)
              (change_state-Inv now id old (stored_state s) msg r v e (idle_stored s idle))
      ]
    ]
  ]
]
  where
    idle_stored :
        (t : ProviderState) → not (is_cooling t) ≡ true → is_cooling (stored_state t) ≡ false
    idle_stored t h = ground arith

set_cooldown-Inv :
    (now : ℕ) (id : Text) (until : ℕ) (msg : Text) (r : Registry)
    → Inv r
    → Inv (set_cooldown now id until msg r).0
unfolding set_cooldown
set_cooldown-Inv now id until msg r v = elim (Bool-cases (is_empty (trim_space id))) [
  | inl blank ↦ rw blank v
  | inr given ↦ elim (Option-cases (lookup (provider_map_key id) r.providers)) [
    | inl e ↦ rw (given, e) v
    | inr (old, e) ↦
        rw (given, e)
          (change_cooldown-Inv now id (trim_space id) old until msg r v e
            (provider_map_key-trim_space id))
  ]
]

handle_cooldown_timer-Inv :
    (now : ℕ) (id : Text) (until : ℕ) (r : Registry)
    → Inv r
    → Inv (handle_cooldown_timer now id until r)
unfolding handle_cooldown_timer stop_cooldown_timer
handle_cooldown_timer-Inv now id until r v =
    elim (Option-cases (lookup (provider_map_key id) r.providers)) [
      | inl e ↦ rw (e, handle_cooldown_timer) v
      | inr (p, e) ↦
          elim (Bool-cases (not (is_cooling p.state) || not (p.cooldown_until == until))) [
            | inl stale ↦ rw (e, handle_cooldown_timer, stale) v
            | inr live ↦ elim (Bool-cases (ltb now p.cooldown_until)) [
              | inl early ↦ rw (e, handle_cooldown_timer, live, early) v
              | inr due ↦
                  rw (e, handle_cooldown_timer, live, due)
                    (publish-Inv _ _ (
                      replace_online r _ v
                        (put_idle-Inv (provider_map_key id) _ r v.online (stored_key r _ p v e)
                          refl)
                        refl refl))
            ]
          ]
    ]

subscribe-Inv : (n : ℤ) (r : Registry) → Inv r → Inv (subscribe n r).0
unfolding subscribe
subscribe-Inv n r v = record {
  online = record {
    keyed = v.online.keyed;
    addressed = v.online.addressed;
    agree = v.online.agree;
  };
  recorded = v.recorded;
  buffered = All-insert IsBuffered _ _ r.subscribers v.buffered (omega arith);
}

cancel-Inv : (id : ℕ) (r : Registry) → Inv r → Inv (cancel id r)
unfolding cancel
cancel-Inv id r v = record {
  online = record {
    keyed = v.online.keyed;
    addressed = v.online.addressed;
    agree = v.online.agree;
  };
  recorded = v.recorded;
  buffered = All-delete IsBuffered id r.subscribers v.buffered;
}

tail_of-IsBuffered :
    (s : Subscriber) → length s.queue ≤ s.buffer → length (tail_of s.queue) ≤ s.buffer
tail_of-IsBuffered s h = go s.queue h
  where
    go : (q : List ProviderEvent) → length q ≤ s.buffer → length (tail_of q) ≤ s.buffer
    go [] k = k
    go (x ∷ q) k = omega arith

receive-Inv : (id : ℕ) (r : Registry) → Inv r → Inv (receive id r)
unfolding receive
receive-Inv id r v = elim (Option-cases (lookup id r.subscribers)) [
  | inl e ↦ rw (e, receive) v
  | inr (s, e) ↦
      rw (e, receive)
        (record {
          online = record {
            keyed = v.online.keyed;
            addressed = v.online.addressed;
            agree = v.online.agree;
          };
          recorded = v.recorded;
          buffered =
              All-insert IsBuffered id _ r.subscribers v.buffered
                (tail_of-IsBuffered s (All-lookup IsBuffered id s r.subscribers v.buffered e));
        })
]

-- Every call keeps the invariant, whatever the clock shows.
pub step-Inv : (r : Registry) (c : ℕ × Call) → Inv r → Inv (step r c)
unfolding step clear_cooldown record_provider_error
step-Inv r (now, registers p) v = register-Inv now p r v
step-Inv r (now, disconnects id conn cause) v = disconnect-Inv now id conn cause r v
step-Inv r (now, touches id conn at) v = touch-Inv now id conn at r v
step-Inv r (now, sets_state id s msg) v = set_state-Inv now id s msg r v
step-Inv r (now, sets_cooldown id until msg) v = set_cooldown-Inv now id until msg r v
step-Inv r (now, clears_cooldown id msg) v = set_cooldown-Inv now id 0 _ r v
step-Inv r (now, timer_fires id until) v = handle_cooldown_timer-Inv now id until r v
step-Inv r (now, records_error id msg) v = update_diagnostics-Inv _ _ r v
step-Inv r (now, subscribes n) v = subscribe-Inv n r v
step-Inv r (now, cancels id) v = cancel-Inv id r v
step-Inv r (now, receives id) v = receive-Inv id r v

run-Inv : (r : Registry) (cs : List (ℕ × Call)) → Inv r → Inv (run r cs)
unfolding run
run-Inv r [] v = v
run-Inv r (c ∷ cs) v = run-Inv (step r c) cs (step-Inv r c v)

pub new-Inv : Inv new
unfolding lookup
new-Inv = record {
  online = record { keyed = tt; addressed = tt; agree = λ k. refl };
  recorded = omega arith;
  buffered = tt;
}

-- After any history of calls from the start, a provider is cooling exactly while a timer runs for
-- it, up to the timer's deadline; every provider stands under the key of its id; at most 64 recent
-- events are kept; and no subscriber's channel holds more than its capacity.
pub run-new-Inv : (cs : List (ℕ × Call)) → Inv (run new cs)
run-new-Inv cs = run-Inv new cs new-Inv
