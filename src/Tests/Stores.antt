-- ===== src/Tests/Stores.antt =====
-- A Redis that keeps its hashes as functions, and a store client that always answers.
use locate.Prelude.{
  ℕ, String, refl, Option, none, some, true, [], ◌∷◌, ◌==◌, ◌&&◌, if◌then◌else◌, ==_refl,
}
use locate.Memorystore.{Redis}
use locate.Tracker.{StoreClient, Tracker}
use locate.Tests.Samples.{near, far}

abbrev Hashes : Type 0
Hashes = (String → String → Option String) × (String → Option ℕ)

abbrev pub sample_redis : Redis
sample_redis = record {
  Db = Hashes;
  hget = λ db. db.0;
  ttl = λ db. db.1;
  hset = λ k f v db. (λ k' f'. if (k == k') && (f == f') then some v else db.0 k' f', db.1);
  expire = λ k n db. (db.0, λ k'. if k == k' then some n else db.1 k');
  del = λ k db. (λ k' f'. if k == k' then none else db.0 k' f', db.1);
  hget-hset = λ k f v k' f' db. refl;
  hget-expire = λ k n k' f' db. refl;
  ttl-expire = λ k n f v db h. rw (==_refl k) refl;
  hget-del = λ k k' f' db. refl;
}

-- Writes succeed and are forgotten.
abbrev pub forgetful : StoreClient
forgetful = record { Store = Unit; put = λ k v o s. (s, true); get_all = λ s. some [] }

abbrev pub two_tracked : Tracker forgetful
two_tracked = record { store = tt; instances = ("far", far) ∷ ("near", near) ∷ []; last_update = 5 }
