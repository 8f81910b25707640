-- ===== src/Cache/Laws.antt =====
-- How the operations of the cache bear on one another.
use aistudio_gemini_gateway.Base.{
  ℕ, ◌+◌, ◌≤◌, ◌<◌, ◌≡◌, refl, ◌∙◌, ap, inl, inr, Bool-cases, Option-cases, Option, true, false,
  none, some, Text, text_eq, trim_space, is_empty, lookup, HasUniqueKeys, delete_if-HasUniqueKeys,
  lookup-delete_if, unless, lookup-insert_self, lookup-delete_self, leb, if◌then◌else◌, arith,
}
use aistudio_gemini_gateway.Cache.{
  Entry, Cache, is_expired, get_read, get_finish, get_and_refresh, set, is_bound_to, invalidate,
  invalidate_provider, cleanup,
}

abbrev pub bound : ℕ → Text → Cache → Entry
bound now id c = record { provider_id = trim_space id; expires_at = now + c.ttl }

pub lookup-set :
    (now : ℕ) (key id : Text) (c : Cache)
    → is_empty (trim_space key) ≡ false
    → is_empty (trim_space id) ≡ false
    → lookup (trim_space key) (set now key id c).entries ≡ some (bound now id c)
unfolding set
lookup-set now key id c k p =
    rw (k, p) (lookup-insert_self (trim_space key) (bound now id c) c.entries)

-- An entry that is found before its end has the time to live anew; past its end it goes.
pub refresh-lookup :
    (now : ℕ) (key : Text) (item : Entry) (c : Cache)
    → is_empty (trim_space key) ≡ false
    → lookup (trim_space key) c.entries ≡ some item
    → let d = get_and_refresh now key c in
      (now ≤ item.expires_at
        → (d.1 ≡ some item.provider_id)
          × (lookup (trim_space key) d.0.entries ≡ some (record item { expires_at = now + c.ttl })))
      × (item.expires_at < now → (d.1 ≡ none) × (lookup (trim_space key) d.0.entries ≡ none))
unfolding get_and_refresh
refresh-lookup now key item c k e = (
  (λ h. rw (k, e, live h) (refl, lookup-insert_self (trim_space key) _ c.entries)),
  (λ h. rw (k, e, over h) (refl, lookup-delete_self (trim_space key) c.entries)),
)
  where
    live : now ≤ item.expires_at → is_expired now item ≡ false
    live h = ground arith

    over : item.expires_at < now → is_expired now item ≡ true
    over h = ground arith

-- An id that is found is that of the entry, whose time starts anew.
pub get_and_refresh-hit :
    (now : ℕ) (key id : Text) (c : Cache)
    → (get_and_refresh now key c).1 ≡ some id
    → (is_empty (trim_space key) ≡ false)
      × (lookup (trim_space key) (get_and_refresh now key c).0.entries
          ≡ some (record { provider_id = id; expires_at = now + c.ttl }))
unfolding get_and_refresh
get_and_refresh-hit now key id c = elim (Bool-cases (is_empty (trim_space key))) [
  | inl blank ↦ rw blank (λ h. cc)
  | inr k ↦ elim (Option-cases (lookup (trim_space key) c.entries)) [
    | inl miss ↦ rw (k, miss) (λ h. cc)
    | inr (item, e) ↦ elim (Bool-cases (is_expired now item)) [
      | inl over ↦ rw (k, e, over) (λ h. cc)
      | inr live ↦
          rw (k, e, live)
            (λ h. (
              refl,
              lookup-insert_self (trim_space key) _ c.entries ∙ ap (entry_of (now + c.ttl)) h,
            ))
    ]
  ]
]
  where
    entry_of : ℕ → Option Text → Option Entry
    entry_of until none = none
    entry_of until (some id) = some (record { provider_id = id; expires_at = until })

pub get_and_refresh-ttl :
    (now : ℕ) (key : Text) (c : Cache) → (get_and_refresh now key c).0.ttl ≡ c.ttl
unfolding get_and_refresh
get_and_refresh-ttl now key c = ground arith

pub invalidate-ttl : (key : Text) (c : Cache) → (invalidate key c).ttl ≡ c.ttl
unfolding invalidate
invalidate-ttl key c = ground arith

pub set-ttl : (now : ℕ) (key id : Text) (c : Cache) → (set now key id c).ttl ≡ c.ttl
unfolding set
set-ttl now key id c = ground arith

-- A binding that was set is found as long as its time to live has not passed since it was last set
-- or found, and every time that it is found starts that time anew; once it has passed, the binding
-- is not found and its entry goes.
pub get_and_refresh-set :
    (now later : ℕ) (key id : Text) (c : Cache)
    → is_empty (trim_space key) ≡ false
    → is_empty (trim_space id) ≡ false
    → let d = get_and_refresh later key (set now key id c) in
      let in_time = leb later (now + c.ttl) in
      (d.1 ≡ (if in_time then some (trim_space id) else none))
      × (lookup (trim_space key) d.0.entries ≡ (if in_time then some (bound later id c) else none))
get_and_refresh-set now later key id c k p =
    let (live, over) = refresh-lookup later key (bound now id c) (set now key id c) k found in
    elim (Bool-cases (leb later (now + c.ttl))) [
      | inl early ↦ let (a, b) = live (ground arith) in rw early (a, b ∙ rw (set-ttl now key id c))
      | inr late ↦ let (a, b) = over (ground arith) in rw late (a, b)
    ]
  where
    found : lookup (trim_space key) (set now key id c).entries ≡ some (bound now id c)
    found = lookup-set now key id c k p

-- The cleaning keeps the entries whose end has not passed, as they are, and no other; and it keeps
-- the keys unique.
pub cleanup-lookup :
    (now : ℕ) (key : Text) (c : Cache)
    → HasUniqueKeys c.entries
    → (lookup key (cleanup now c).entries ≡ unless (is_expired now) (lookup key c.entries))
      × HasUniqueKeys (cleanup now c).entries
unfolding cleanup
cleanup-lookup now key c u = (
  lookup-delete_if (is_expired now) key c.entries u,
  delete_if-HasUniqueKeys (is_expired now) c.entries u,
)

-- When a provider goes, exactly the bindings to it, by its id up to case, go with it.
pub invalidate_provider-lookup :
    (key id : Text) (c : Cache)
    → HasUniqueKeys c.entries
    → is_empty (trim_space id) ≡ false
    → lookup key (invalidate_provider id c).entries
      ≡ unless (is_bound_to (trim_space id)) (lookup key c.entries)
unfolding invalidate_provider
invalidate_provider-lookup key id c u given =
    rw given (lookup-delete_if (is_bound_to (trim_space id)) key c.entries u)

-- `Get` releases its lock between reading an entry and deleting it. If the entry that it read had
-- ended, a binding that another call sets in between is deleted, fresh as it is.
pub get_deletes_fresh_binding :
    (now : ℕ) (key id : Text) (c : Cache) (old : Entry)
    → is_empty (trim_space key) ≡ false
    → is_empty (trim_space id) ≡ false
    → get_read key c ≡ some old
    → old.expires_at < now
    → (lookup (trim_space key) (set now key id c).entries ≡ some (bound now id c))
      × (lookup (trim_space key) (get_finish now key (get_read key c) (set now key id c)).0.entries
          ≡ none)
unfolding get_finish
get_deletes_fresh_binding now key id c old k p read over = (
  lookup-set now key id c k p,
  rw (read, over_test) (lookup-delete_self (trim_space key) (set now key id c).entries),
)
  where
    over_test : is_expired now old ≡ true
    over_test = ground arith
