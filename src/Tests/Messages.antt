-- ===== src/Tests/Messages.antt =====
-- Messages and their redaction on concrete texts (src/gdrive_errors.cpp).
use duckdb_gdrive.Base.{◌≡◌, refl, [], ◌∷◌, ◌++◌}
use duckdb_gdrive.Base.Text.{codes}
use duckdb_gdrive.Base.Int.{pos}
use duckdb_gdrive.Errors.{GDriveError, unauthenticated, not_found}
use duckdb_gdrive.Redact.{redact_credentials}
use duckdb_gdrive.Redact.Guarded.{IsGuarded}
use duckdb_gdrive.Message.{format_user_message}
use duckdb_gdrive.Message.Shown.{format_user_message-IsGuarded, format_user_message_silent}

abbrev leaking : GDriveError
leaking = record {
  kind = not_found;
  http_status = 404;
  reason = [];
  message = codes "token ya29.a0ARr-secret and 1//0g_x rejected";
  retry_after_seconds = pos 0;
}

abbrev rejected : GDriveError
rejected = record {
  kind = unauthenticated;
  http_status = 401;
  reason = [];
  message = codes "Invalid Credentials";
  retry_after_seconds = pos 0;
}

abbrev refused : GDriveError
refused = record {
  kind = unauthenticated;
  http_status = 401;
  reason = codes "authError";
  message = [];
  retry_after_seconds = pos 7;
}

format_user_message-IsGuarded_example : IsGuarded (format_user_message leaking (codes "f"))
format_user_message-IsGuarded_example = format_user_message-IsGuarded leaking (codes "f")

format_user_message_silent_example :
    format_user_message rejected (codes "f") ≡ format_user_message refused (codes "f")
format_user_message_silent_example =
    format_user_message_silent rejected refused (codes "f") refl refl

leaking_message :
    format_user_message leaking (codes "f")
    ≡ codes "no such file: f (token [redacted] and [redacted] rejected)"
unfolding format_user_message
leaking_message = refl

basic_header :
    redact_credentials (codes "Authorization: Basic abc= failed")
    ≡ codes "Authorization: Basic [redacted] failed"
unfolding redact_credentials
basic_header = refl

bearer_tab :
    redact_credentials (codes "saw bearer" ++ 9 ∷ codes "abc.def in it")
    ≡ codes "saw bearer" ++ 9 ∷ codes "[redacted] in it"
unfolding redact_credentials
bearer_tab = refl

bearerish : redact_credentials (codes "a bearerish word") ≡ codes "a bearerish word"
unfolding redact_credentials
bearerish = refl

json_key :
    redact_credentials (codes "{'client_secret': 'x1', 'a': 1}")
    ≡ codes "{'client_secret': '[redacted]', 'a': 1}"
unfolding redact_credentials
json_key = refl

longer_word : redact_credentials (codes "my_client_secretary = 1") ≡ codes "my_client_secretary = 1"
unfolding redact_credentials
longer_word = refl

pem_block :
    redact_credentials (codes "key -----BEGIN KEY-----abc-----END KEY----- end")
    ≡ codes "key [redacted] end"
unfolding redact_credentials
pem_block = refl

pem_unfinished : redact_credentials (codes "key -----BEGIN KEY-----abc") ≡ codes "key [redacted]"
unfolding redact_credentials
pem_unfinished = refl
