-- ===== src/Cache.antt =====
-- internal/provider/session/cache.go: the bindings of sessions to providers, each with an end.
-- What the clock shows is an argument, `now`; each call is one step, but for `Get`, which lets go of
-- its lock before it deletes.
pub mod Laws
use aistudio_gemini_gateway.Base.{
  ℕ, zero, suc, ◌+◌, ◌*◌, ◌^◌, Bool, true, false, ◌||◌, Option, none, some, List, [], ◌∷◌, ◌++◌,
  Text, Map, ℤ, pos, negsuc, text_eq, bytes, trim_space, to_lower, is_empty, equal_fold, lookup,
  insert, delete, delete_if, length, ltb, if◌then◌else◌,
}

pub record Entry : Type 0 where
  pub provider_id : Text
  pub expires_at : ℕ

pub record Cache : Type 0 where
  pub entries : Map Text Entry
  pub ttl : ℕ
  pub stopped : Bool

-- In nanoseconds.
abbrev pub hour : ℕ
hour = 3600 * 10 ^ 9

pub new : ℤ → Cache
new ttl = record { entries = []; ttl = positive ttl; stopped = false }
  where
    positive : ℤ → ℕ
    positive (pos zero) = hour
    positive (pos (suc n)) = suc n
    positive (negsuc _) = hour

abbrev pub is_expired : ℕ → Entry → Bool
is_expired now item = ltb item.expires_at now

-- `Get` up to the release of its read lock: what it found.
unfoldable pub get_read : Text → Cache → Option Entry
get_read key c = if is_empty (trim_space key) then none else lookup (trim_space key) c.entries

-- The rest of `Get`, in a cache that others may have changed meanwhile.
pub get_finish : ℕ → Text → Option Entry → Cache → Cache × Option Text
get_finish now key none c = (c, none)
get_finish now key (some item) c =
    if is_expired now item
    then (record c { entries = delete (trim_space key) c.entries }, none)
    else (c, some item.provider_id)

unfoldable pub get_and_refresh : ℕ → Text → Cache → Cache × Option Text
get_and_refresh now key c = if is_empty k then (c, none) else elim (lookup k c.entries) [
  | none ↦ (c, none)
  | some item ↦ if is_expired now item then (record c { entries = delete k c.entries }, none) else (
    record c { entries = insert k (record item { expires_at = now + c.ttl }) c.entries },
    some item.provider_id,
  )
]
  where
    k : Text
    k = trim_space key

unfoldable pub set : ℕ → Text → Text → Cache → Cache
set now key provider_id c =
    if is_empty (trim_space key) || is_empty (trim_space provider_id) then c else record c {
      entries =
          insert (trim_space key)
            (record { provider_id = trim_space provider_id; expires_at = now + c.ttl }) c.entries;
    }

unfoldable pub invalidate : Text → Cache → Cache
invalidate key c =
    if is_empty (trim_space key)
    then c
    else record c { entries = delete (trim_space key) c.entries }

abbrev pub is_bound_to : Text → Entry → Bool
is_bound_to provider_id item = equal_fold item.provider_id provider_id

pub invalidate_provider : Text → Cache → Cache
invalidate_provider provider_id c =
    if is_empty (trim_space provider_id)
    then c
    else record c { entries = delete_if (is_bound_to (trim_space provider_id)) c.entries }

pub cleanup : ℕ → Cache → Cache
cleanup now c = record c { entries = delete_if (is_expired now) c.entries }

pub len : Cache → ℕ
len c = length c.entries

-- Closes the channel that ends the clean-up loop, once.
pub stop : Cache → Cache
stop c = record c { stopped = true }

unfoldable pub build_binding_key : Text → Text → Text
build_binding_key model session_id =
    if is_empty (trim_space session_id)
    then []
    else (if is_empty lowered then bytes "*" else lowered) ++ bytes "::" ++ trim_space session_id
  where
    lowered : Text
    lowered = to_lower (trim_space model)
