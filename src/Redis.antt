-- ===== src/Redis.antt =====
-- apps/api/src/common/redis/redis.service.ts: values with a time to live. An entry is gone once its
-- time has come.
use omnia_note.Prelude.{
  ℕ, ◌+◌, ◌*◌, Bool, false, ◌&&◌, Option, none, some, ◌==◌, ltb, find_first, insert, delete_where,
}
use omnia_note.World.{RedisKey, RedisValue, RedisEntry, Time, World}

abbrev pub key_eq : RedisKey → RedisKey → Bool
key_eq (RedisKey.challenge_key a) (RedisKey.challenge_key b) = a == b
key_eq (RedisKey.otp_key a) (RedisKey.otp_key b) = a == b
key_eq (RedisKey.email_enroll_key a) (RedisKey.email_enroll_key b) = a == b
key_eq _ _ = false

abbrev pub is_live : Time → RedisKey → RedisEntry → Bool
is_live now key e = key_eq e.key key && ltb now e.expires_at

-- SET key value EX ttl
unfoldable pub set_with_ttl : RedisKey → RedisValue → ℕ → World → World
set_with_ttl key value ttl_seconds w = record w {
  redis =
      insert (record { key = key; value = value; expires_at = w.clock + ttl_seconds * 1000 })
        (delete_where (λ e. key_eq e.key key) w.redis);
}

abbrev pub value_of : Option RedisEntry → Option RedisValue
value_of none = none
value_of (some e) = some e.value

unfoldable pub get : RedisKey → World → Option RedisValue
get key w = value_of (find_first (is_live w.clock key) w.redis)

unfoldable pub del : RedisKey → World → World
del key w = record w { redis = delete_where (λ e. key_eq e.key key) w.redis }
