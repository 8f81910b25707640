-- ===== src/Relay/Manager/Replacement.antt =====
-- A session that was replaced cannot take its successor out of the map.
use aistudio_gemini_gateway.Base.{
  suc, ◌<◌, ◌≡◌, ◌∙◌, sym, subst, false, Option, none, some, List, [], ◌∷◌, Text, text_eq, nat_eq,
  ◌==◌, ==_iff, if-intro, Bool-cases, Option-cases, inl, inr, lookup, delete, lookup-insert_self,
  lookup-delete, All, All-insert, All-delete, All-map, All-lookup, arith,
}
use aistudio_gemini_gateway.Service.Provider.{RuntimeProvider}
use aistudio_gemini_gateway.Registry.State.{provider_map_key}
use aistudio_gemini_gateway.Relay.Manager.{
  Connection, Manager, session_of, close_current, handle_session_closed, new_connection, attach,
  close_replaced, connect,
}

-- What happens to a manager: a provider connects, or a session comes to its end, now or later.
pub data ManagerEvent : Type 0 where
  connects : RuntimeProvider → ManagerEvent
  ends : Connection → ManagerEvent

abbrev pub closed : Connection → Manager → Manager
closed sess m = (handle_session_closed sess m).0

abbrev pub after_events : List ManagerEvent → Manager → Manager
after_events [] m = m
after_events (connects p ∷ events) m = after_events events (connect p m)
after_events (ends sess ∷ events) m = after_events events (closed sess m)

abbrev pub close_all : List Connection → Manager → Manager
close_all [] m = m
close_all (sess ∷ rest) m = close_all rest (closed sess m)

abbrev pub empty_manager : Manager
empty_manager = record { sessions = []; next = 0 }

-- The numbers of the sessions are below the next one.
abbrev IsFresh : Manager → Type 0
IsFresh m = All (λ (e : Text × Connection). e.1.number < m.next) m.sessions

-- What holds of the manager with and without the session's key holds after the session has ended.
closed-cases :
    (P : Manager → Type 0) (sess : Connection) (m : Manager)
    → P m
    → P (record m { sessions = delete (provider_map_key sess.provider.id) m.sessions })
    → P (closed sess m)
unfolding handle_session_closed close_current
closed-cases P sess m stay gone = at_current (session_of sess.provider.id m)
  where
    at_current : (o : Option Connection) → P (close_current sess m o).0
    at_current none = stay
    at_current (some current) =
        if-intro (λ (out : Manager × Option RuntimeProvider). P out.0)
          (current.number == sess.number) (λ _. gone) (λ _. stay)

closed-IsFresh : (sess : Connection) (m : Manager) → IsFresh m → IsFresh (closed sess m)
closed-IsFresh sess m h = closed-cases IsFresh sess m h (
    All-delete (λ (e : Text × Connection). e.1.number < m.next) (provider_map_key sess.provider.id)
      m.sessions h)

attach-IsFresh : (p : RuntimeProvider) (m : Manager) → IsFresh m → IsFresh (attach p m)
unfolding attach
attach-IsFresh p m h =
    All-insert (λ (e : Text × Connection). e.1.number < suc m.next) (provider_map_key p.id)
      (new_connection p m) m.sessions
      (All-map (λ (e : Text × Connection). e.1.number < m.next)
        (λ (e : Text × Connection). e.1.number < suc m.next) (λ e k. omega (arith, k)) m.sessions h)
      (omega arith)

close_replaced-IsFresh :
    (o : Option Connection) (m : Manager) → IsFresh m → IsFresh (close_replaced o m)
close_replaced-IsFresh none m h = h
close_replaced-IsFresh (some sess) m h = closed-IsFresh sess m h

after_events-IsFresh :
    (events : List ManagerEvent) (m : Manager) → IsFresh m → IsFresh (after_events events m)
unfolding connect
after_events-IsFresh [] m h = h
after_events-IsFresh (connects p ∷ events) m h =
    after_events-IsFresh events (connect p m)
      (close_replaced-IsFresh (session_of p.id m) (attach p m) (attach-IsFresh p m h))
after_events-IsFresh (ends sess ∷ events) m h =
    after_events-IsFresh events (closed sess m) (closed-IsFresh sess m h)

-- The end of another session leaves the current one of a provider where it is.
closed-keeps :
    (sess new : Connection) (key : Text) (m : Manager)
    → lookup key m.sessions ≡ some new
    → sess.number < new.number
    → lookup key (closed sess m).sessions ≡ some new
unfolding handle_session_closed close_current session_of
closed-keeps sess new key m there older =
    elim (Bool-cases (provider_map_key sess.provider.id == key)) [
      | inl same ↦
          let found : session_of sess.provider.id m ≡ some new =
            subst (λ k. lookup k m.sessions ≡ some new)
              (sym ((==_iff (provider_map_key sess.provider.id) key).0 same)) there in
          let differs : (new.number == sess.number) ≡ false = ground arith in
          subst (λ o. lookup key (close_current sess m o).0.sessions ≡ some new) (sym found)
            (rw differs there)
      | inr other ↦
          closed-cases (λ n. lookup key n.sessions ≡ some new) sess m there
            (lookup-delete (provider_map_key sess.provider.id) key m.sessions ∙ rw other there)
    ]

close_all-keeps :
    (sessions : List Connection) (new : Connection) (key : Text) (m : Manager)
    → lookup key m.sessions ≡ some new
    → All (λ (sess : Connection). sess.number < new.number) sessions
    → lookup key (close_all sessions m).sessions ≡ some new
close_all-keeps [] new key m there h = there
close_all-keeps (sess ∷ sessions) new key m there (older, h) =
    close_all-keeps sessions new key (closed sess m) (closed-keeps sess new key m there older) h

connect-current :
    (p : RuntimeProvider) (m : Manager)
    → IsFresh m
    → lookup (provider_map_key p.id) (connect p m).sessions ≡ some (new_connection p m)
unfolding connect attach session_of
connect-current p m h = elim (Option-cases (session_of p.id m)) [
  | inl nobody ↦
      subst
        (λ o.
          lookup (provider_map_key p.id) (close_replaced o (attach p m)).sessions
          ≡ some (new_connection p m))
        (sym nobody) placed
  | inr (old, there) ↦
      subst
        (λ o.
          lookup (provider_map_key p.id) (close_replaced o (attach p m)).sessions
          ≡ some (new_connection p m))
        (sym there)
        (closed-keeps old (new_connection p m) (provider_map_key p.id) (attach p m) placed (
          All-lookup (λ (e : Text × Connection). e.1.number < m.next) (provider_map_key p.id) old
            m.sessions h there))
]
  where
    placed : lookup (provider_map_key p.id) (attach p m).sessions ≡ some (new_connection p m)
    placed = lookup-insert_self (provider_map_key p.id) (new_connection p m) m.sessions

-- After any history of a manager, when a provider connects, its new session is the current one, and it
-- stays that when sessions that were made before it come to their end, the replaced one among them, in
-- any number and order.
pub connect-stays :
    (history : List ManagerEvent) (p : RuntimeProvider) (older : List Connection)
    → All (λ (sess : Connection). sess.number < (after_events history empty_manager).next) older
    → session_of p.id (close_all older (connect p (after_events history empty_manager)))
      ≡ some (new_connection p (after_events history empty_manager))
unfolding session_of
connect-stays history p older h =
    close_all-keeps older (new_connection p m) (provider_map_key p.id) (connect p m)
      (connect-current p m (after_events-IsFresh history empty_manager tt)) h
  where
    m : Manager
    m = after_events history empty_manager
