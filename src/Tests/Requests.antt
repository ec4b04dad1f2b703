-- ===== src/Tests/Requests.antt =====
-- Requests for a chunk that are signed in their headers or in their query.
use private_communication.Common.{
  ◌≡◌, ◌⊎◌, ◌↔◌, refl, arith, String, false, none, some, List, [], ◌∷◌, string_key, lookup, str_eq,
  present,
}
use private_communication.Pcbk.Value.{nat}
use private_communication.Backend.Attachments.Store.{is_uuid_v4, code_tests, matches}
use private_communication.Backend.Attachments.Store.Manifests.{get_attachment_manifest}
use private_communication.Backend.Attachments.Routes.{chunk_found}
use private_communication.Backend.Attachments.Downloads.{read_chunk_route, may_read}
use private_communication.Backend.Attachments.Access.{IsAllowed}
use private_communication.Backend.Requests.{
  Request, AuthParams, Gate, next, denied, distance, header_params, query_params,
  extract_auth_params, signed_payload, missing_auth, stamped_refusal, require_signed_request,
  is_listed, validate_origin, serve_chunk,
}
use private_communication.Backend.Requests.Signed.{IsSigned, require_signed_request-IsSigned}
use private_communication.Backend.Requests.Chunks.{IsOrigin, serve_chunk-IsAllowed}
use private_communication.Tests.Attachments.{service, an_attachment, empty}

abbrev gate : Gate
gate = record {
  fraction_distance = λ now b. 0;
  auth_disabled = false;
  auth_window_ms = 10;
  number = λ s. some (nat 5);
  number_text = λ t. "5";
  upper = λ s. s;
  signed_path = λ s. s;
  verify = λ payload signature key. str_eq signature "good";
  hash_public_key = λ key. key;
}

abbrev origins : List String
origins = "https://app" ∷ []

abbrev signed_by : String → AuthParams
signed_by user = record {
  user_id = user;
  timestamp = some (nat 5);
  signature = "good";
  signing_public_key = "key";
  encryption_public_key = user;
}

abbrev origin_header : String × String
origin_header = ("origin", "https://app")

abbrev in_headers : Request
in_headers = record {
  method = "GET";
  original_url = "/";
  headers =
      origin_header
      ∷ ("x-auth-user-id", "bob")
      ∷ ("x-auth-timestamp", "5")
      ∷ ("x-auth-signature", "good")
      ∷ ("x-auth-signing-public-key", "key")
      ∷ ("x-auth-encryption-public-key", "bob")
      ∷ [];
  query = [];
  raw_body = none;
}

-- Mallory's signature stands in the query, and bob's name in the header.
abbrev in_query : Request
in_query = record {
  method = "GET";
  original_url = "/";
  headers = origin_header ∷ ("x-auth-user-id", "bob") ∷ [];
  query =
      ("auth_uid", "mallory")
      ∷ ("auth_ts", "5")
      ∷ ("auth_sig", "good")
      ∷ ("auth_spk", "key")
      ∷ ("auth_epk", "mallory")
      ∷ [];
  raw_body = none;
}

headers_passed : require_signed_request gate in_headers 8 3 ≡ (3, next)
unfolding require_signed_request extract_auth_params header_params query_params lookup missing_auth
    stamped_refusal distance signed_payload
headers_passed = refl

late_refused :
    require_signed_request gate in_headers 16 3 ≡ (4, denied 401 "Auth timestamp expired")
unfolding require_signed_request extract_auth_params header_params query_params lookup missing_auth
    stamped_refusal distance signed_payload
late_refused = refl

require_signed_request-IsSigned_example :
    ((require_signed_request gate in_headers 8 3 ≡ (3, next))
      ↔ ((p : AuthParams) × IsSigned gate in_headers 8 p))
    × ((require_signed_request gate in_headers 8 3 ≡ (3, next))
        ⊎ ((error : String) × (require_signed_request gate in_headers 8 3 ≡ (4, denied 401 error))))
require_signed_request-IsSigned_example = require_signed_request-IsSigned gate in_headers 8 3 refl

bob_named : header_params gate in_headers ≡ some (signed_by "bob")
unfolding header_params lookup
bob_named = refl

chunk_served :
    (serve_chunk gate origins service in_headers an_attachment 1 8 empty 3).1.1
    ≡ some (chunk_found 1 2 (9 ∷ []))
unfolding serve_chunk validate_origin is_listed require_signed_request extract_auth_params
    header_params query_params lookup missing_auth stamped_refusal distance signed_payload
    read_chunk_route present get_attachment_manifest is_uuid_v4 matches code_tests may_read
chunk_served = refl

serve_chunk-IsAllowed_example :
    IsOrigin in_headers origins
    × IsSigned gate in_headers 8 (signed_by "bob")
    × IsAllowed service "bob" an_attachment 1 8 empty (9 ∷ [])
serve_chunk-IsAllowed_example =
    serve_chunk-IsAllowed gate origins service in_headers an_attachment 1 8 empty 3
      (signed_by "bob") 1 2 (9 ∷ []) refl bob_named chunk_served

-- Mallory signed the request, and bob's chunk is served.
mallory_served :
    IsSigned gate in_query 8 (signed_by "mallory")
    × ((serve_chunk gate origins service in_query an_attachment 1 8 empty 3).1.1
        ≡ some (chunk_found 1 2 (9 ∷ [])))
unfolding serve_chunk validate_origin is_listed require_signed_request extract_auth_params
    header_params query_params lookup missing_auth stamped_refusal distance signed_payload
    read_chunk_route present get_attachment_manifest is_uuid_v4 matches code_tests may_read
mallory_served = (
  record {
    given = refl;
    named = λ e. cc (e);
    complete = refl;
    stamp = nat 5;
    stamped = refl;
    sound = record { fresh = omega arith; verified = refl; identity = refl };
  },
  refl,
)
