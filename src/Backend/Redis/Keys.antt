-- ===== src/Backend/Redis/Keys.antt =====
-- The keys under which backend/src/services/redis.ts stores a user's state.
use Prim.Native.String.{◌++◌ as str_append}
use private_communication.Common.{String}

abbrev pub of_user : String → String → String
of_user user suffix = str_append "user:" (str_append user suffix)

abbrev pub user_encryption_public_key : String → String
user_encryption_public_key user = of_user user ":encryptionPublicKey"

abbrev pub user_signing_public_key : String → String
user_signing_public_key user = of_user user ":signingPublicKey"

abbrev pub user_online : String → String
user_online user = of_user user ":online"

abbrev pub message_queue : String → String
message_queue user = of_user user ":messages"

abbrev pub receipt_queue : String → String
receipt_queue user = of_user user ":receipts"

abbrev pub receipt_queue_index : String → String
receipt_queue_index user = of_user user ":receipts:index"

abbrev pub pending_incoming_call : String → String → String
pending_incoming_call user sender = of_user user (str_append ":pendingCall:" sender)

abbrev pub active_call_session : String → String
active_call_session user = of_user user ":activeCallSession"

abbrev pub online_users : String
online_users = "online:users"
