-- ===== src/Pdns/Types.antt =====
-- What goes over the PowerDNS REST API: the JSON objects as records, a request as the method and path
-- with the payload that the panel sends, and the reply.
use mojodns.Prelude.{ℕ, Bool, List, Option}
use mojodns.Text.{Text, ℤ}

pub record Rec : Type 0 where
  pub content : Text
  pub disabled : Bool

pub record Rrset : Type 0 where
  pub name : Text
  pub rtype : Text
  pub ttl : ℤ
  pub records : List Rec

-- An object of the "rrsets" list of a PATCH; `none` is a key that is missing.
pub record Change : Type 0 where
  pub name : Option Text
  pub rtype : Option Text
  pub changetype : Option Text
  pub ttl : Option ℤ
  pub records : List Rec

pub record Zone : Type 0 where
  pub name : Text
  pub kind : Text
  pub catalog : Text
  pub serial : Option ℕ
  pub dnssec : Bool
  pub rrsets : List Rrset
  pub master_tsig_key_ids : List Text

pub record NewZone : Type 0 where
  pub name : Text
  pub kind : Text
  pub catalog : Option Text
  pub rrsets : List Change

pub record CryptoKey : Type 0 where
  pub id : ℕ
  pub active : Bool
  pub algorithm : Option Text
  pub ds : List Text
  pub cds : List Text
  pub dnskey : Option Text

pub record TsigKey : Type 0 where
  pub name : Text
  pub algorithm : Text
  pub secret : Option Text

-- The fields of a zone that the panel sets by PUT.
pub data ZoneField : Type 0 where
  catalog : Text → ZoneField
  kind : Text → ZoneField
  master_tsig_key_ids : List Text → ZoneField
  nsec3 : Text → Option Bool → ZoneField

pub data Request : Type 0 where
  list_zones : Request
  get_zone : Text → Request
  post_zone : NewZone → Request
  delete_zone : Text → Request
  put_notify : Text → Request
  patch_zone : Text → List Change → Request
  put_zone : Text → ZoneField → Request
  get_cryptokeys : Text → Request
  post_cryptokey : Text → Request
  delete_cryptokey : Text → ℕ → Request
  put_rectify : Text → Request
  get_metadata : Text → Text → Request
  put_metadata : Text → Text → List Text → Request
  delete_metadata : Text → Text → Request
  list_tsigkeys : Request
  get_tsigkey : Text → Request
  post_tsigkey : TsigKey → Request
  delete_tsigkey : Text → Request

pub data Body : Type 0 where
  empty : Body
  zones : List Zone → Body
  zone : Zone → Body
  cryptokeys : List CryptoKey → Body
  metadata : List Text → Body
  tsigkeys : List TsigKey → Body
  tsigkey : TsigKey → Body

-- `message` is the "error" member of the body, or the text of the response.
pub record Reply : Type 0 where
  pub status : ℕ
  pub message : Text
  pub body : Body

-- A server with states in `S`: `none` is a request that raised in the HTTP client.
abbrev pub Api : Type 0 → Type 0
Api S = Request → S → Option Reply × S
