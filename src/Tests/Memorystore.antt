-- ===== src/Tests/Memorystore.antt =====
-- memorystore/client.go on a small database.
use locate.Prelude.{
  ℕ, String, ◌≡◌, refl, ◌⊎◌, true, false, Option, none, some, List, [], ◌∷◌, ◌==◌, Result, ok,
  if◌then◌else◌, arith, nat_eq,
}
use locate.Memorystore.{delivered, PutOptions, redis_key_expiry_secs, is_some, script, put}
use locate.Memorystore.Writes.{put_ok}
use locate.Memorystore.Scan.{GetAllError, Pages, AllOrNothing, get_all, get_all-AllOrNothing}
use locate.Tests.Stores.{sample_redis}

abbrev empty : sample_redis.Db
empty = (λ k f. none, λ k. none)

abbrev registered : sample_redis.Db
registered = sample_redis.hset "a" "Registration" "r" empty

abbrev health_options : PutOptions
health_options = record { field_must_exist = "Registration"; with_expire = true }

abbrev updated : sample_redis.Db
updated = sample_redis.expire "a" 30 (sample_redis.hset "a" "Health" "h" registered)

updated_lem :
    put sample_redis delivered delivered "a" "Health" (some "h") health_options registered
    ≡ (updated, none)
unfolding put script
updated_lem = refl

put_ok_example :
    (sample_redis.hget updated "a" "Health" ≡ some "h")
    × (is_some {A = String} (some "h") ≡ true)
    × ((health_options.field_must_exist ≡ "")
        ⊎ (is_some (sample_redis.hget registered "a" "Registration") ≡ true))
    × ((health_options.with_expire ≡ false)
        ⊎ (sample_redis.ttl updated "a" ≡ some redis_key_expiry_secs))
put_ok_example =
    put_ok sample_redis delivered delivered "a" "Health" health_options (some "h") registered
      updated updated_lem

-- Two pages, with one key in both.
abbrev scan : ℕ → Result GetAllError (ℕ × List String)
scan cursor = if nat_eq cursor 0 then ok (7, "a" ∷ []) else ok (0, "b" ∷ "a" ∷ [])

abbrev fetch : String → Option ℕ
fetch key = if key == "a" then some 1 else some 2

scan-Pages : Pages scan fetch 0 2 ("a" ∷ "b" ∷ "a" ∷ [])
scan-Pages =
    Pages.more {next = 7} {here = "a" ∷ []} {rest = "b" ∷ "a" ∷ []} refl (λ e. omega arith)
      (Pages.last refl) refl

get_all-AllOrNothing_example : AllOrNothing scan fetch ("a" ∷ "b" ∷ "a" ∷ []) (get_all scan fetch 5)
get_all-AllOrNothing_example =
    get_all-AllOrNothing scan fetch 5 2 ("a" ∷ "b" ∷ "a" ∷ []) scan-Pages (omega arith)
