-- ===== src/Tracker/RoundTrip.antt =====
-- What `Put` and `get` of the parts of a message make of each other.
use mathlib.Core.Option.{some-injective}
use mathlib.Core.Path.{subst}
use locate.Prelude.{
  String, ◌≡◌, ◌≢◌, ◌↔◌, ◌==◌, eq_iff, refl, sym, ap, ◌∙◌, inl, inr, Bool, true, false, Option,
  none, some, if◌then◌else◌,
}
use locate.Prelude.Maps.{lookup}
use locate.Api.{Registration, Health, Prometheus, HeartbeatMessage}
use locate.Api.Scanner.{Json, redis_scan}
use locate.Memorystore.{Redis, Network, PutOptions, is_some}
use locate.Memorystore.Writes.{put_ok, put_elsewhere}
use locate.Tracker.{Field, registration, health, prometheus}
use locate.Tracker.Stored.{
  Codecs, field_name, marshal, scan_field, message_of, scan_message, Redigo, get, put_field,
}

-- The message with that part.
unfoldable pub with_field : Field → HeartbeatMessage → HeartbeatMessage
with_field (registration r) m = record m { registration = some r }
with_field (health h) m = record m { health = some h }
with_field (prometheus p) m = record m { prometheus = some p }

message_of-registration :
    (r : Registration) (h : Option (Option Health)) (o : Option (Option Registration))
    (p : Option (Option Prometheus)) (m : HeartbeatMessage)
    → message_of h o p ≡ some m
    → message_of h (some (some r)) p ≡ some (with_field (registration r) m)
unfolding with_field
message_of-registration r (some h) (some o) (some p) m e =
    ap {A = HeartbeatMessage} (λ x. some (record x { registration = some r }))
      (some-injective _ _ e)
message_of-registration r none o p m e = cc
message_of-registration r (some h) none p m e = cc
message_of-registration r (some h) (some o) none m e = cc

message_of-health :
    (x : Health) (h : Option (Option Health)) (o : Option (Option Registration))
    (p : Option (Option Prometheus)) (m : HeartbeatMessage)
    → message_of h o p ≡ some m
    → message_of (some (some x)) o p ≡ some (with_field (health x) m)
unfolding with_field
message_of-health x (some h) (some o) (some p) m e =
    ap {A = HeartbeatMessage} (λ y. some (record y { health = some x })) (some-injective _ _ e)
message_of-health x none o p m e = cc
message_of-health x (some h) none p m e = cc
message_of-health x (some h) (some o) none m e = cc

message_of-prometheus :
    (x : Prometheus) (h : Option (Option Health)) (o : Option (Option Registration))
    (p : Option (Option Prometheus)) (m : HeartbeatMessage)
    → message_of h o p ≡ some m
    → message_of h o (some (some x)) ≡ some (with_field (prometheus x) m)
unfolding with_field
message_of-prometheus x (some h) (some o) (some p) m e =
    ap {A = HeartbeatMessage} (λ y. some (record y { prometheus = some x })) (some-injective _ _ e)
message_of-prometheus x none o p m e = cc
message_of-prometheus x (some h) none p m e = cc
message_of-prometheus x (some h) (some o) none m e = cc

module _ (J : Codecs) where
  scan_message-ext :
      (read read' : String → Option String)
      → ((field : String) → read' field ≡ read field)
      → scan_message J read' ≡ scan_message J read
  unfolding scan_message
  scan_message-ext read read' same = rw (same "Health", same "Registration", same "Prometheus") refl

  scan_field-marshalled :
      {V : Type 0} (json : Json V) (v : V) (b : String)
      → json.marshal v ≡ some b
      → scan_field json (some b) ≡ some (some v)
  unfolding scan_field redis_scan
  scan_field-marshalled json v b e = rw (json.unmarshal-marshal v b e) refl

  scan_message-field :
      (value : Field) (b : String) (read read' : String → Option String) (m : HeartbeatMessage)
      → marshal J value ≡ some b
      → read' (field_name value) ≡ some b
      → ((field : String) → field_name value ≢ field → read' field ≡ read field)
      → scan_message J read ≡ some m
      → scan_message J read' ≡ some (with_field value m)
  unfolding scan_message marshal field_name
  scan_message-field (registration r) b read read' m e written same old =
      rw
        (
          same "Health" (λ x. cc),
          written,
          same "Prometheus" (λ x. cc),
          scan_field-marshalled J.registrations r b e,
        )
        (message_of-registration r _ _ _ m old)
  scan_message-field (health h) b read read' m e written same old =
      rw
        (
          same "Registration" (λ x. cc),
          written,
          same "Prometheus" (λ x. cc),
          scan_field-marshalled J.healths h b e,
        )
        (message_of-health h _ _ _ m old)
  scan_message-field (prometheus p) b read read' m e written same old =
      rw
        (
          same "Registration" (λ x. cc),
          written,
          same "Health" (λ x. cc),
          scan_field-marshalled J.prometheuses p b e,
        )
        (message_of-prometheus p _ _ _ m old)

is_some-value : (o : Option String) → is_some o ≡ true → (b : String) × (o ≡ some b)
is_some-value (some b) h = (b, refl)
is_some-value none h = cc

module _ (R : Redis) (J : Codecs) (P : Redigo R J) where
  open R use {Db, hget}

  get-scan : (db : Db) (key : String) → get R J P db key ≡ scan_message J (hget db key)
  unfolding get
  get-scan db key =
      P.scan_struct_lem (P.hgetall db key)
      ∙ scan_message-ext J (hget db key) (λ field. lookup field (P.hgetall db key))
          (P.lookup-hgetall db key)

  scan-put_field :
      (network network' : Network) (key : String) (value : Field) (opts : PutOptions) (db db' : Db)
      (m : HeartbeatMessage)
      → put_field R J P network network' key value opts db ≡ (db', none)
      → scan_message J (hget db key) ≡ some m
      → scan_message J (hget db' key) ≡ some (with_field value m)
  unfolding put_field
  scan-put_field network network' key value opts db db' m e old =
      let field = field_name value in
      let (written, given, _, _) =
        put_ok R network network' key field opts (marshal J value) db db' e in
      let (b, e') = is_some-value (marshal J value) given in
      scan_message-field J value b (hget db key) (hget db' key) m e' (written ∙ e')
        (λ f other.
          subst (λ p. hget p.0 key f ≡ hget db key f) e
            (put_elsewhere R network network' key field opts (marshal J value) db key f
              (inr other)))
        old

  scan-put_elsewhere :
      (network network' : Network) (key : String) (value : Field) (opts : PutOptions) (db db' : Db)
      (key' : String)
      → put_field R J P network network' key value opts db ≡ (db', none)
      → key ≢ key'
      → scan_message J (hget db' key') ≡ scan_message J (hget db key')
  unfolding put_field
  scan-put_elsewhere network network' key value opts db db' key' e other =
      scan_message-ext J (hget db key') (hget db' key') (λ f.
        subst (λ p. hget p.0 key' f ≡ hget db key' f) e
          (put_elsewhere R network network' key (field_name value) opts (marshal J value) db key' f
            (inl other)))

  -- After a successful `Put` of a part of a message whose entry is readable or missing, `get` of the key
  -- reads that part back, and the other parts as they were, and `get` of every other key reads what it read
  -- before.
  pub get-put_field :
      (network network' : Network) (key : String) (value : Field) (opts : PutOptions) (db db' : Db)
      (m : HeartbeatMessage)
      → put_field R J P network network' key value opts db ≡ (db', none)
      → get R J P db key ≡ some m
      → (key' : String)
      → get R J P db' key' ≡ (if key == key' then some (with_field value m) else get R J P db key')
  get-put_field network network' key value opts db db' m e old key' =
      go (key == key') (eq_iff key key')
    where
      go :
          (b : Bool)
          → (b ≡ true) ↔ (key ≡ key')
          → get R J P db' key' ≡ (if b then some (with_field value m) else get R J P db key')
      go true (same, _) =
          subst (λ k. get R J P db' k ≡ some (with_field value m)) (same refl)
            (get-scan db' key
              ∙ scan-put_field network network' key value opts db db' m e
                  (sym (get-scan db key) ∙ old))
      go false (_, differs) =
          get-scan db' key'
          ∙ (scan-put_elsewhere network network' key value opts db db' key' e
                (λ x. let d = differs x in cc)
              ∙ sym (get-scan db key'))
