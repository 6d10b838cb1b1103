-- ===== src/Mqtt/Topic.antt =====
-- `MqttMessage.station_code` and `_parse_url` of src/services/mqtt_client.py, and the topic that
-- edge/main.py publishes to. `urllib` splits a URL: its parts are an argument.
use portfolio_cv_project.Common.{
  same_text, ℕ, ◌≡◌, refl, ◌==◌, Bool, false, ◌&&◌, ◌||◌, List, [], ◌∷◌, ◌++◌, Option, none, some,
  if◌then◌else◌, any, arith,
}
use portfolio_cv_project.Mqtt.{Text}

abbrev on_head : ℕ → List Text → List Text
on_head c [] = (c ∷ []) ∷ []
on_head c (part ∷ parts) = (c ∷ part) ∷ parts

-- `text.split(sep)` of one character.
abbrev pub split : ℕ → Text → List Text
split sep [] = [] ∷ []
split sep (c ∷ text) = let rest = split sep text in if c == sep then [] ∷ rest else on_head c rest

abbrev pub last_of : Text → List Text → Text
last_of part [] = part
last_of part (next ∷ parts) = last_of next parts

abbrev pub farm : Text
farm = b'f' ∷ b'a' ∷ b'r' ∷ b'm' ∷ []

abbrev pub detections : Text
detections = b'd' ∷ b'e' ∷ b't' ∷ b'e' ∷ b'c' ∷ b't' ∷ b'i' ∷ b'o' ∷ b'n' ∷ b's' ∷ []

code_of : List Text → Option Text
code_of (first ∷ second ∷ third ∷ parts) =
    if same_text first farm && same_text (last_of third parts) detections then some second else none
code_of _ = none

-- `station_code`: at least three parts, `farm` first and `detections` last.
unfoldable pub station_code : Text → Option Text
unfolding code_of
station_code topic = code_of (split b'/' topic)

-- `f"{topic_prefix}/{station_code}/detections"` of the edge pipeline.
unfoldable pub edge_topic : Text → Text → Text
edge_topic prefix code = prefix ++ (b'/' ∷ (code ++ (b'/' ∷ detections)))

-- What `urlparse` finds in a URL; the scheme is in lower case.
pub record UrlParts : Type 0 where
  pub scheme : Text
  pub hostname : Option Text
  pub port : Option ℕ

pub record Broker : Type 0 where
  pub hostname : Text
  pub port : ℕ
  pub tls : Bool

abbrev pub localhost : Text
localhost = b'l' ∷ b'o' ∷ b'c' ∷ b'a' ∷ b'l' ∷ b'h' ∷ b'o' ∷ b's' ∷ b't' ∷ []

abbrev pub mqtt : Text
mqtt = b'm' ∷ b'q' ∷ b't' ∷ b't' ∷ []

abbrev pub mqtts : Text
mqtts = b'm' ∷ b'q' ∷ b't' ∷ b't' ∷ b's' ∷ []

abbrev pub tcp : Text
tcp = b't' ∷ b'c' ∷ b'p' ∷ []

-- `port or default`: 0 is falsy.
abbrev pub port_or : ℕ → Option ℕ → ℕ
port_or default none = default
port_or default (some n) = if n == 0 then default else n

-- `hostname or "localhost"`: an empty text is falsy.
abbrev pub host_or : Text → Option Text → Text
host_or default none = default
host_or default (some []) = default
host_or default (some (c ∷ host)) = c ∷ host

unfoldable pub parse_url : UrlParts → Broker
parse_url url =
    let tls = same_text url.scheme mqtts in
    let known = same_text url.scheme mqtt || (same_text url.scheme tcp || tls) in
    if known
    then record {
      hostname = host_or localhost url.hostname;
      port = port_or (if tls then 8883 else 1883) url.port;
      tls = tls;
    }
    else record { hostname = localhost; port = 1883; tls = false }

-- The texts without a slash.
abbrev pub has_slash : Text → Bool
has_slash = any (λ c. c == b'/')

split_plain : (text : Text) → has_slash text ≡ false → split b'/' text ≡ text ∷ []
split_plain [] h = refl
split_plain (c ∷ text) h = ground (arith, split_plain text)

split_slash :
    (text rest : Text)
    → has_slash text ≡ false
    → split b'/' (text ++ (b'/' ∷ rest)) ≡ text ∷ split b'/' rest
split_slash [] rest h = refl
split_slash (c ∷ text) rest h = ground (arith, split_slash text rest)

-- `MqttMessage.station_code` of a message on the topic that an edge process publishes to is the code
-- of its station, if the configured prefix is `farm` and the code has no slash.
pub station_code-edge_topic :
    (code : Text) → has_slash code ≡ false → station_code (edge_topic farm code) ≡ some code
unfolding station_code edge_topic
station_code-edge_topic code h = rw (split_slash code detections h)
