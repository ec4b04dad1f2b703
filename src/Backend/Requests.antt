-- ===== src/Backend/Requests.antt =====
-- requireSignedRequest and validateOrigin of backend/src/middleware/request-auth.ts, and the way in
-- which backend/src/index.ts puts them before the route that reads a chunk.
pub mod Signed
pub mod Chunks
use Prim.Native.String.{◌++◌ as str_append}
use private_communication.Common.{
  ℕ, ◌+◌, ◌-◌, String, Bool, true, false, not, ◌||◌, Option, none, some, List, [], ◌∷◌, Map, lookup,
  string_key, str_eq, ltb, leb, present, if◌then◌else◌,
}
use private_communication.Pcbk.Value.{Number, nat, neg, real}
use private_communication.Backend.Attachments.Store.{State}
use private_communication.Backend.Attachments.Routes.{Response, Service, Answer}
use private_communication.Backend.Attachments.Downloads.{read_chunk_route}

-- A request. A header or a parameter of the query that is not one text is not in its map.
pub record Request : Type 0 where
  pub method : String
  pub original_url : String
  pub headers : Map String String
  pub query : Map String String
  pub raw_body : Option String

-- A timestamp is nothing where Number() gives no finite number.
pub record AuthParams : Type 0 where
  pub user_id : String
  pub timestamp : Option Number
  pub signature : String
  pub signing_public_key : String
  pub encryption_public_key : String

-- The environment's settings, JavaScript's numbers, texts and URLs, and Node's cryptography. A number
-- that is not whole is known by its bits: `fraction_distance` is its distance from a time, rounded up. The signed
-- path is the URL's path and query without the parameters of the signature.
pub record Gate : Type 0 where
  pub auth_disabled : Bool
  pub auth_window_ms : ℕ
  pub number : String → Option Number
  pub number_text : Number → String
  pub fraction_distance : (now bits : ℕ) → ℕ
  pub upper : String → String
  pub signed_path : String → String
  pub verify : (payload signature key : String) → Bool
  pub hash_public_key : String → String

pub data Passage : Type 0 where
  next : Passage
  denied : (status : ℕ) → (error : String) → Passage

-- |now - t|, rounded up: it is above a whole window exactly if the distance is.
unfoldable pub distance : Gate → ℕ → Number → ℕ
distance g now (nat t) = if leb t now then now - t else t - now
distance g now (neg t) = now + t + 1
distance g now (real bits) = g.fraction_distance now bits

abbrev pub given_params :
    Gate → (user stamp signature signing encryption : Option String) → Option AuthParams
given_params g (some user) (some stamp) (some signature) (some signing) (some encryption) =
    some record {
      user_id = user;
      timestamp = g.number stamp;
      signature = signature;
      signing_public_key = signing;
      encryption_public_key = encryption;
    }
given_params g none stamp signature signing encryption = none
given_params g (some user) none signature signing encryption = none
given_params g (some user) (some stamp) none signing encryption = none
given_params g (some user) (some stamp) (some signature) none encryption = none
given_params g (some user) (some stamp) (some signature) (some signing) none = none

unfoldable pub header_params : Gate → Request → Option AuthParams
header_params g r =
    given_params g (lookup "x-auth-user-id" r.headers) (lookup "x-auth-timestamp" r.headers)
      (lookup "x-auth-signature" r.headers) (lookup "x-auth-signing-public-key" r.headers)
      (lookup "x-auth-encryption-public-key" r.headers)

unfoldable pub query_params : Gate → Request → Option AuthParams
query_params g r =
    given_params g (lookup "auth_uid" r.query) (lookup "auth_ts" r.query)
      (lookup "auth_sig" r.query) (lookup "auth_spk" r.query) (lookup "auth_epk" r.query)

abbrev pub or_query : Option AuthParams → Option AuthParams → Option AuthParams
or_query (some p) q = some p
or_query none q = q

unfoldable pub extract_auth_params : Gate → Request → Option AuthParams
extract_auth_params g r = or_query (header_params g r) (query_params g r)

abbrev pub body_text : Option String → String
body_text none = ""
body_text (some body) = body

unfoldable pub signed_payload : Gate → Request → Number → String
signed_payload g r t = str_append (g.number_text t) (
    str_append "." (
      str_append (g.upper r.method) (
        str_append "."
          (str_append (g.signed_path r.original_url) (str_append "." (body_text r.raw_body))))))

unfoldable pub missing_auth : AuthParams → Bool
missing_auth p =
    str_eq p.user_id ""
    || str_eq p.signature ""
    || str_eq p.signing_public_key ""
    || str_eq p.encryption_public_key ""

-- Why a request that is complete is refused.
unfoldable pub stamped_refusal : Gate → Request → AuthParams → ℕ → Number → Option String
stamped_refusal g r p now t =
    if ltb g.auth_window_ms (distance g now t)
    then some "Auth timestamp expired"
    else if not (g.verify (signed_payload g r t) p.signature p.signing_public_key)
    then some "Invalid signature"
    else if str_eq (g.hash_public_key p.encryption_public_key) ""
        || not (str_eq (g.hash_public_key p.encryption_public_key) p.user_id)
    then some "Invalid user identity"
    else none

abbrev pub timed_refusal : Gate → Request → AuthParams → ℕ → Option Number → Option String
timed_refusal g r p now none = some "Invalid auth timestamp"
timed_refusal g r p now (some t) = stamped_refusal g r p now t

abbrev pub refusal_of : Gate → Request → ℕ → Option AuthParams → Option String
refusal_of g r now none = some "Missing auth signature"
refusal_of g r now (some p) =
    if missing_auth p then some "Missing auth signature" else timed_refusal g r p now p.timestamp

-- A refusal is counted and answered.
abbrev pub passage : Option String → ℕ → (ℕ × Passage)
passage none failures = (failures, next)
passage (some error) failures = (failures + 1, denied 401 error)

unfoldable pub require_signed_request : Gate → Request → ℕ → ℕ → (ℕ × Passage)
require_signed_request g r now failures =
    if g.auth_disabled
    then (failures, next)
    else passage (refusal_of g r now (extract_auth_params g r)) failures

unfoldable pub is_listed : String → List String → Bool
is_listed origin [] = false
is_listed origin (o ∷ allowed) = str_eq o origin || is_listed origin allowed

abbrev pub origin_passage : Option String → List String → Passage
origin_passage none allowed = denied 403 "Origin required"
origin_passage (some origin) allowed =
    if is_listed origin allowed then next else denied 403 "Origin not allowed"

unfoldable pub validate_origin : Gate → List String → Request → Passage
validate_origin g allowed r =
    if g.auth_disabled then next else origin_passage (present (lookup "origin" r.headers)) allowed

-- GET /api/attachments/:attachmentId/chunks/:chunkIndex, with what stands before the route. The
-- answer is nothing where a middleware refused the request.
module _ (g : Gate) (allowed : List String) (v : Service) where
  abbrev pub Served : Type 0
  Served = (ℕ × (State v.depot × Option Response))

  abbrev pub route_after : (ℕ × Passage) → Answer v → State v.depot → Served
  route_after (failures, denied status error) answer w = (failures, (w, none))
  route_after (failures, next) answer w = (failures, (answer.0, some answer.1))

  abbrev pub after_origin : Passage → Request → Answer v → ℕ → State v.depot → ℕ → Served
  after_origin (denied status error) r answer now w failures = (failures, (w, none))
  after_origin next r answer now w failures =
      route_after (require_signed_request g r now failures) answer w

  unfoldable pub serve_chunk : Request → String → ℕ → ℕ → State v.depot → ℕ → Served
  serve_chunk r attachment index now w failures =
      after_origin (validate_origin g allowed r) r
        (read_chunk_route v (lookup "x-auth-user-id" r.headers) attachment index now w) now w
        failures
