-- ===== src/Mqtt/Session.antt =====
-- The connection of `MqttClient` in src/services/mqtt_client.py: `_build_client`, `connect`,
-- `disconnect`, `raw` and `publish`. Whether the broker lets the client in, out, or takes a message is an
-- argument, as is the JSON text of a dict.
use portfolio_cv_project.Common.{
  ℕ, ◌≡◌, refl, Bool, not, List, [], ◌∷◌, ◌++◌, Option, none, some, if◌then◌else◌, Result, ok,
  raise, runtime_error, os_error, Text,
}
use portfolio_cv_project.Mqtt.Topic
use portfolio_cv_project.Mqtt.Topic.{UrlParts, parse_url}

-- What the client is built with. `verify` is whether the broker's certificate is checked, None where
-- there is no TLS.
pub record Build : Type 0 where
  pub broker : Topic.Broker
  pub identifier : Text
  pub username : Option Text
  pub password : Option Text
  pub keepalive : ℕ
  pub verify : Option Bool

pub record Settings : Type 0 where
  pub url : UrlParts
  pub client_id : Text
  pub username : Option Text
  pub password : Option Text
  pub keepalive : ℕ
  pub tls_insecure : Bool
  pub qos : ℕ

unfoldable pub build_client : Settings → Build
build_client s =
    let broker = parse_url s.url in
    record {
      broker = broker;
      identifier = s.client_id;
      username = s.username;
      password = s.password;
      keepalive = s.keepalive;
      verify = if broker.tls then some (not s.tls_insecure) else none;
    }

pub record Message : Type 0 where
  pub topic : Text
  pub payload : Text
  pub qos : ℕ
  pub retain : Bool

-- The client's connection, and what went out on connections so far.
pub record Client : Type 0 where
  pub connection : Option Build
  pub sent : List Message

-- `connect`: an attempt that fails leaves no connection.
unfoldable pub connect : Settings → (Build → Bool) → Client → Result (Unit {0}) × Client
connect s admits c = elim c.connection [
  | some b ↦ (ok tt, c)
  | none ↦
      if admits (build_client s)
      then (ok tt, record c { connection = some (build_client s) })
      else (raise os_error, c)
]

-- `disconnect`: the connection is forgotten, also where the broker's goodbye raises.
unfoldable pub disconnect : (Build → Bool) → Client → Result (Unit {0}) × Client
disconnect leaves c = elim c.connection [
  | none ↦ (ok tt, c)
  | some b ↦ (if leaves b then ok tt else raise os_error, record c { connection = none })
]

unfoldable pub raw : Client → Result Build
raw c = elim c.connection [ none ↦ raise runtime_error | some b ↦ ok b ]

-- A payload is bytes or a text, which go out as they are in UTF-8, or a dict.
pub data Payload (D : Type 0) : Type 0 where
  bytes : Text → Payload D
  text : Text → Payload D
  dict : D → Payload D

abbrev pub encoded : {D : Type 0} → (D → Text) → (Text → Text) → Payload D → Text
encoded json utf_8 (bytes b) = b
encoded json utf_8 (text t) = utf_8 t
encoded json utf_8 (dict d) = utf_8 (json d)

abbrev pub qos_or : ℕ → Option ℕ → ℕ
qos_or default none = default
qos_or default (some q) = q

unfoldable pub publish :
    {D : Type 0}
    → Settings
    → (D → Text)
    → (Text → Text)
    → (Message → Bool)
    → Text
    → Payload D
    → Option ℕ
    → Bool
    → Client
    → Result (Unit {0}) × Client
publish s json utf_8 takes topic payload qos retain c =
    let m : Message = record {
      topic = topic;
      payload = encoded json utf_8 payload;
      qos = qos_or s.qos qos;
      retain = retain;
    } in
    elim c.connection [
      | none ↦ (raise runtime_error, c)
      | some b ↦
          if takes m then (ok tt, record c { sent = c.sent ++ (m ∷ []) }) else (raise os_error, c)
    ]

-- After a disconnect, however it went, a publish raises and sends nothing.
publish-disconnect :
    {D : Type 0} (s : Settings) (json : D → Text) (utf_8 : Text → Text) (takes : Message → Bool)
    (leaves : Build → Bool) (topic : Text) (payload : Payload D) (qos : Option ℕ) (retain : Bool)
    (c : Client)
    → publish s json utf_8 takes topic payload qos retain (disconnect leaves c).1
      ≡ (raise runtime_error, record c { connection = none })
unfolding publish disconnect
publish-disconnect s json utf_8 takes leaves topic payload qos retain c = go c.connection refl
  where
    go :
        (o : Option Build)
        → c.connection ≡ o
        → publish s json utf_8 takes topic payload qos retain (disconnect leaves c).1
          ≡ (raise runtime_error, record c { connection = none })
    go none e = rw e refl
    go (some b) e = rw e refl
