-- ===== src/Memorystore/Writes.antt =====
-- What `Put` leaves in Redis.
use locate.Prelude.{
  String, ◌≡◌, ◌≢◌, refl, ◌⊎◌, true, false, Option, none, some, arith, eq_iff, ==_refl,
}
use locate.Memorystore.{
  Redis, Network, PutError, eval_error, PutOptions, redis_key_expiry_secs, is_some, script, put,
}

module _ (R : Redis) (network network' : Network) (key field : String) (opts : PutOptions) where
  open R use {Db, hget, ttl, hset, expire, hget-hset, hget-expire, ttl-expire}

  -- Where the field that must exist does not, `Put` fails and writes nothing, whatever the network does.
  pub put_field_missing :
      (value : Option String) (db : Db)
      → opts.field_must_exist ≢ ""
      → hget db key opts.field_must_exist ≡ none
      → (e : PutError) × (put R network network' key field value opts db ≡ (db, some e))
  unfolding put script
  put_field_missing none db ne missing = (_, refl)
  put_field_missing (some value) db ne missing =
      (eval_error, ground (arith, eq_iff opts.field_must_exist ""))

  -- If `Put` succeeds, the field holds the value's bytes, the field that had to exist did, and an
  -- expiry, if asked for, is set to 30 seconds.
  pub put_ok :
      (value : Option String) (db db' : Db)
      → put R network network' key field value opts db ≡ (db', none)
      → (hget db' key field ≡ value)
        × (is_some value ≡ true)
        × ((opts.field_must_exist ≡ "") ⊎ (is_some (hget db key opts.field_must_exist) ≡ true))
        × ((opts.with_expire ≡ false) ⊎ (ttl db' key ≡ some redis_key_expiry_secs))
  unfolding put script
  put_ok none db db' h = ground arith
  put_ok (some value) db db' h = ground (
    arith,
    eq_iff opts.field_must_exist "",
    ==_refl key,
    ==_refl field,
    hget-hset key field value key field db,
    hget-expire key redis_key_expiry_secs key field (hset key field value db),
    ttl-expire key redis_key_expiry_secs field value (hset key field value db),
  )

  -- Whether `Put` succeeds or fails, no other field of any key changes.
  pub put_elsewhere :
      (value : Option String) (db : Db) (key' field' : String)
      → (key ≢ key') ⊎ (field ≢ field')
      → hget (put R network network' key field value opts db).0 key' field' ≡ hget db key' field'
  unfolding put script
  put_elsewhere none db key' field' ne = refl
  put_elsewhere (some value) db key' field' ne = ground (
    arith,
    eq_iff key key',
    eq_iff field field',
    hget-hset key field value key' field' db,
    hget-expire key redis_key_expiry_secs key' field' (hset key field value db),
  )
