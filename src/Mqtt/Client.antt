-- ===== src/Mqtt/Client.antt =====
-- internal/mqtt/client.go: the client of the broker, over the calls that it makes of package paho,
-- whose answers are given. Texts are lists of code points. Logging, the fixed options of paho and
-- the clock are left out. This file makes the client; Session is its life.
use Prim.Native.Nat.{bit_and, bit_or}
use entropy_tdc_gateway.Common.{
  ℕ, zero, suc, ◌+◌, ◌/◌, ◌%◌, Bool, true, false, ◌&&◌, ◌||◌, Option, none, some, List, [], ◌∷◌,
  ◌++◌, if◌then◌else◌, ◌==◌, ltb, is_empty, take, drop,
}
use entropy_tdc_gateway.Common.Text.{to_lower}

abbrev pub Text : Type 0
Text = List ℕ

-- `strings.HasPrefix`
unfoldable pub has_prefix : Text → Text → Bool
has_prefix cs [] = true
has_prefix [] (p ∷ ps) = false
has_prefix (c ∷ cs) (p ∷ ps) = (c == p) && has_prefix cs ps

-- "ssl://", "tls://", "mqtts://" and "tcps://"
abbrev pub ssl_scheme : Text
ssl_scheme = 115 ∷ 115 ∷ 108 ∷ 58 ∷ 47 ∷ 47 ∷ []

abbrev pub tls_scheme : Text
tls_scheme = 116 ∷ 108 ∷ 115 ∷ 58 ∷ 47 ∷ 47 ∷ []

abbrev pub mqtts_scheme : Text
mqtts_scheme = 109 ∷ 113 ∷ 116 ∷ 116 ∷ 115 ∷ 58 ∷ 47 ∷ 47 ∷ []

abbrev pub tcps_scheme : Text
tcps_scheme = 116 ∷ 99 ∷ 112 ∷ 115 ∷ 58 ∷ 47 ∷ 47 ∷ []

unfoldable pub is_tls_broker : Text → Bool
is_tls_broker broker_url =
    let lower = to_lower broker_url in
    has_prefix lower ssl_scheme
    || (has_prefix lower tls_scheme
        || (has_prefix lower mqtts_scheme || has_prefix lower tcps_scheme))

-- A byte of a list, changed.
abbrev pub change_at : ℕ → (ℕ → ℕ) → List ℕ → List ℕ
change_at i f [] = []
change_at zero f (b ∷ bs) = f b ∷ bs
change_at (suc i) f (b ∷ bs) = b ∷ change_at i f bs

-- The bits of version 4 and of variant 10.
unfoldable pub version_byte : ℕ → ℕ
version_byte b = bit_or (bit_and b 15) 64

unfoldable pub variant_byte : ℕ → ℕ
variant_byte b = bit_or (bit_and b 63) 128

abbrev pub hex_digit : ℕ → ℕ
hex_digit n = if ltb n 10 then 48 + n else 87 + n

-- `hex.Encode`
unfoldable pub hex_encode : List ℕ → Text
hex_encode [] = []
hex_encode (b ∷ bs) = hex_digit (b / 16) ∷ hex_digit (b % 16) ∷ hex_encode bs

-- `encoded[from:from+n]`
abbrev pub slice : ℕ → ℕ → Text → Text
slice from n text = take n (drop from text)

-- "entropy-rx-"
abbrev pub id_prefix : Text
id_prefix = 101 ∷ 110 ∷ 116 ∷ 114 ∷ 111 ∷ 112 ∷ 121 ∷ 45 ∷ 114 ∷ 120 ∷ 45 ∷ []

abbrev pub format_id : Text → Text
format_id encoded =
    id_prefix
    ++ (slice 0 8 encoded
        ++ 45
          ∷ (slice 8 4 encoded
              ++ 45
                ∷ (slice 12 4 encoded ++ 45 ∷ (slice 16 4 encoded ++ 45 ∷ slice 20 12 encoded))))

-- From what `rand.Read` gives: sixteen bytes, or none for an error.
unfoldable pub generate_client_id : Option (List ℕ) → Option Text
generate_client_id none = none
generate_client_id (some uuid) =
    some (format_id (hex_encode (change_at 8 variant_byte (change_at 6 version_byte uuid))))

pub record ClientConfig : Type 0 where
  pub broker_url : Text
  pub client_id : Text
  pub topics : List Text
  pub qos : ℕ
  pub username : Text
  pub password : Text
  pub tls_ca_file : Text

pub data ClientError : Type 0 where
  broker_url_required topic_required no_client_id ca_not_read ca_not_parsed : ClientError

-- The certificates of a TLS connection: those of a file, the system's, or none at all.
pub data RootCas : Type 0 where
  custom system_pool empty_pool : RootCas

pub data Made (A : Type 0) : Type 0 where
  made : A → Made A
  refused : ClientError → Made A

-- The files, the parser of certificates, and whether the system has a pool.
pub record CertificateStore : Type 0 where
  pub read_file : Text → Option (List ℕ)
  pub parses : List ℕ → Bool
  pub has_system_pool : Bool

unfoldable pub create_mqtt_tls_config : CertificateStore → ClientConfig → Made RootCas
create_mqtt_tls_config store config =
    if is_empty config.tls_ca_file
    then made (if store.has_system_pool then system_pool else empty_pool)
    else elim (store.read_file config.tls_ca_file) [
      | none ↦ refused ca_not_read
      | some pem ↦ if store.parses pem then made custom else refused ca_not_parsed
    ]

-- The configuration of the client, and the certificates where the broker is reached over TLS.
pub record Options : Type 0 where
  pub config : ClientConfig
  pub root_cas : Option RootCas

abbrev with_tls : ClientConfig → Made RootCas → Made Options
with_tls config (made cas) = made (record { config = config; root_cas = some cas })
with_tls config (refused e) = refused e

unfoldable pub with_client_id : Option (List ℕ) → ClientConfig → Made ClientConfig
with_client_id random config =
    if is_empty config.client_id
    then elim (generate_client_id random) [
      | none ↦ refused no_client_id
      | some id ↦ made (record config { client_id = id })
    ]
    else made config

abbrev clamped : ClientConfig → ClientConfig
clamped config = record config { qos = if ltb 1 config.qos then 1 else config.qos }

abbrev build : CertificateStore → Made ClientConfig → Made Options
build store (refused e) = refused e
build store (made config) =
    if is_tls_broker config.broker_url
    then with_tls (clamped config) (create_mqtt_tls_config store (clamped config))
    else made (record { config = clamped config; root_cas = none })

unfoldable pub new_client : CertificateStore → Option (List ℕ) → ClientConfig → Made Options
new_client store random config =
    if is_empty config.broker_url
    then refused broker_url_required
    else if is_empty config.topics
    then refused topic_required
    else build store (with_client_id random config)
