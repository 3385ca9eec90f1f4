-- ===== src/Shared/Cache.antt =====
-- The Redis cache in front of the idempotency look-up (packages/shared/src/cache.ts). Redis is a
-- list of entries, newest first, with the time at which each one expires.
use Prim.Native.String
use order_saga.Prelude.{
  ℕ, ◌+◌, ◌*◌, String, Bool, false, ◌≡◌, Option, none, some, List, [], ◌∷◌, find, delete_where, ltb,
  ◌==◌, if◌then◌else◌,
}
use text.Mathlib.TextLemmas.{append_cancel_left}
use order_saga.Shared.Types.{Data}

pub record CacheEntry : Type 0 where
  pub key : String
  pub payload : Data
  pub expires_at : ℕ

-- `ready` is what `isReady` returns; the null cache is never ready.
pub record Cache : Type 0 where
  pub ready : Bool
  pub entries : List CacheEntry

abbrev pub null_cache : Cache
null_cache = record { ready = false; entries = [] }

abbrev pub live_payload : ℕ → Option CacheEntry → Option Data
live_payload now none = none
live_payload now (some e) = if ltb now e.expires_at then some e.payload else none

-- `get`; `broken` is a dropped connection or a malformed entry, which is a miss.
unfoldable pub cache_get : Cache → ℕ → Bool → String → Option Data
cache_get c now broken key =
    if c.ready
    then (if broken then none else live_payload now (find (λ e. e.key == key) c.entries))
    else none

-- `set`; a failure is ignored.
unfoldable pub cache_set : Cache → ℕ → Bool → String → Data → ℕ → Cache
cache_set c now broken key payload ttl_seconds =
    if c.ready
    then (if broken then c else record c {
      entries =
          record { key = key; payload = payload; expires_at = now + ttl_seconds * 1000 }
          ∷ c.entries;
    })
    else c

-- `del`; the coordinator and the services never call it.
unfoldable pub cache_del : Cache → Bool → String → Cache
cache_del c broken key =
    if c.ready
    then (if broken then c else record c { entries = delete_where (λ e. e.key == key) c.entries })
    else c

unfoldable pub idempotency_cache_key : String → String
idempotency_cache_key key = String.◌++◌ "idem:" key

pub idempotency_cache_key_inj :
    (k j : String) → idempotency_cache_key k ≡ idempotency_cache_key j → k ≡ j
unfolding idempotency_cache_key
idempotency_cache_key_inj k j h = append_cancel_left "idem:" k j h
