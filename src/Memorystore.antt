-- ===== src/Memorystore.antt =====
-- memorystore/client.go: reads and writes of Redis hashes. Redis itself is not in the repository: it
-- is an interface with the documented meaning of the commands that the client sends.
pub mod Writes
pub mod Scan
use locate.Prelude.{
  ℕ, String, ◌≡◌, Bool, true, false, ◌&&◌, Option, none, some, ◌==◌, ◌!=◌, if◌then◌else◌,
}

pub record Redis : Type 1 where
  pub Db : Type 0
  -- what HGET and TTL read
  pub hget : Db → String → String → Option String
  pub ttl : Db → String → Option ℕ
  -- HSET key field value, EXPIRE key seconds, DEL key
  pub hset : String → String → String → Db → Db
  pub expire : String → ℕ → Db → Db
  pub del : String → Db → Db
  pub hget-hset :
      (k f v k' f' : String) (db : Db)
      → hget (hset k f v db) k' f' ≡ (if (k == k') && (f == f') then some v else hget db k' f')
  pub hget-expire :
      (k : String) (n : ℕ) (k' f' : String) (db : Db) → hget (expire k n db) k' f' ≡ hget db k' f'
  -- an expiry on a key that has a field
  pub ttl-expire :
      (k : String) (n : ℕ) (f v : String) (db : Db)
      → hget db k f ≡ some v
      → ttl (expire k n db) k ≡ some n
  pub hget-del :
      (k k' f' : String) (db : Db)
      → hget (del k db) k' f' ≡ (if k == k' then none else hget db k' f')

-- What becomes of one command: its reply arrives, it never reaches the server, or its reply is lost.
pub data Network : Type 0 where
  delivered request_lost reply_lost : Network

pub data PutError : Type 0 where
  marshal_error eval_error hset_error expire_error : PutError

pub record PutOptions : Type 0 where
  pub field_must_exist : String
  pub with_expire : Bool

-- `static.RedisKeyExpirySecs`
abbrev pub redis_key_expiry_secs : ℕ
redis_key_expiry_secs = 30

-- `conn.Do` of a command that the server does not refuse
unfoldable pub send {ℓ} : {D : Type ℓ} → Network → PutError → (D → D) → D → D × Option PutError
send delivered e command db = (command db, none)
send request_lost e command db = (db, some e)
send reply_lost e command db = (command db, some e)

abbrev pub is_some {ℓ} : {A : Type ℓ} → Option A → Bool
is_some none = false
is_some (some _) = true

module _ (R : Redis) where
  open R use {Db, hget, hset, expire}

  -- The Lua script, run by EVAL: `none` in place of the error that it raises.
  unfoldable pub script : String → String → String → String → Db → Option Db
  script key must_exist field value db =
      if is_some (hget db key must_exist) then some (hset key field value db) else none

  -- `conn.Do("EVAL", ...)`; the script's error comes back as an error of the command.
  unfoldable pub eval : Network → Option Db → Db → Db × Option PutError
  unfolding send
  eval network none db = (db, some eval_error)
  eval network (some after) db = send network eval_error (λ _. after) db

  unfoldable pub write : Network → String → String → String → PutOptions → Db → Db × Option PutError
  unfolding send eval
  write network key field value opts db =
      if opts.field_must_exist != ""
      then eval network (script key opts.field_must_exist field value db) db
      else send network hset_error (hset key field value) db

  unfoldable pub then_expire :
      Network → String → PutOptions → Db × Option PutError → Db × Option PutError
  unfolding send
  then_expire network key opts (db, some e) = (db, some e)
  then_expire network key opts (db, none) =
      if opts.with_expire
      then send network expire_error (expire key redis_key_expiry_secs) db
      else (db, none)

  -- `Put`, with the bytes of `json.Marshal(value)` (`none` where it fails) and what becomes of the
  -- write and of the EXPIRE.
  unfoldable pub put :
      Network → Network → String → String → Option String → PutOptions → Db → Db × Option PutError
  unfolding write then_expire
  put network network' key field none opts db = (db, some marshal_error)
  put network network' key field (some value) opts db =
      then_expire network' key opts (write network key field value opts db)

  -- `Del`
  unfoldable pub delete : Network → String → Db → Db × Bool
  delete delivered key db = (R.del key db, true)
  delete request_lost key db = (db, false)
  delete reply_lost key db = (R.del key db, false)
