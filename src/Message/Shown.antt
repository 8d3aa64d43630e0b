-- ===== src/Message/Shown.antt =====
-- What a message of FormatUserMessage in src/gdrive_errors.cpp cannot show.
use duckdb_gdrive.Base.Text.{Bytes}
use duckdb_gdrive.Base.{◌≡◌, refl, ap, ◌++◌, [], ◌∷◌}
use duckdb_gdrive.Base.Int.{ℤ}
use duckdb_gdrive.Errors.{GDriveErrorKind, GDriveError, unauthenticated}
use duckdb_gdrive.Message.{format_user_message, explanation, drive_words, is_unauthenticated}
use duckdb_gdrive.Redact.{redact_credentials}
use duckdb_gdrive.Redact.Guarded.{IsGuarded, redact_credentials-IsGuarded}

pub format_user_message-IsGuarded :
    (error : GDriveError) (context : Bytes) → IsGuarded (format_user_message error context)
unfolding format_user_message
format_user_message-IsGuarded error context = redact_credentials-IsGuarded (
    explanation error.kind error.retry_after_seconds context
    ++ drive_words error.kind error.message)

abbrev shown_text : GDriveErrorKind → ℤ → Bytes → Bytes → Bytes
shown_text kind after message context = explanation kind after context ++ drive_words kind message

unauthenticated_text :
    (after later : ℤ) (message words context : Bytes)
    → shown_text unauthenticated after message context
      ≡ shown_text unauthenticated later words context
unfolding explanation drive_words is_unauthenticated
unauthenticated_text after later [] [] context = refl
unauthenticated_text after later [] (_ ∷ _) context = refl
unauthenticated_text after later (_ ∷ _) [] context = refl
unauthenticated_text after later (_ ∷ _) (_ ∷ _) context = refl

-- The message for an UNAUTHENTICATED error is the same whatever Drive answered: two errors of that
-- kind show the same text for the same context.
pub format_user_message_silent :
    (error other : GDriveError) (context : Bytes)
    → error.kind ≡ unauthenticated
    → other.kind ≡ unauthenticated
    → format_user_message error context ≡ format_user_message other context
unfolding format_user_message
format_user_message_silent error other context h k =
    let same : shown_text error.kind error.retry_after_seconds error.message context
        ≡ shown_text other.kind other.retry_after_seconds other.message context =
      rw (h, k)
        (unauthenticated_text error.retry_after_seconds other.retry_after_seconds error.message
          other.message context) in
    ap redact_credentials same
