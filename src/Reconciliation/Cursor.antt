-- ===== src/Reconciliation/Cursor.antt =====
-- The continuation cursor of app/services/reconciliation/document_audit_batch_service.py. Base64,
-- UTF-8, JSON, ISO 8601 and the parser of UUIDs are a record of functions.
pub mod RoundTrip
use documents_rag.Base.{
  ℕ, ◌≡◌, refl, Bool, true, false, not, ltb, leb, ◌==◌, ◌&&◌, ◌||◌, List, [], ◌∷◌, Option, none,
  some, Result, ok, err, Text, text_eq, codes, length, if◌then◌else◌,
}
use documents_rag.Db.Env.{Env}

-- A value of a JSON object, as far as the cursor looks at it.
pub data JsonField : Type 0 where
  text : Text → JsonField
  other : JsonField

pub data Json : Type 0 where
  object : List (Text × JsonField) → Json
  not_object : Json

-- `none` where the function of the Python library raises.
pub record Codec : Type 0 where
  pub urlsafe_b64encode : List ℕ → Text
  -- of a text that is encoded as ASCII first
  pub urlsafe_b64decode : Text → Option (List ℕ)
  pub encode_utf8 : Text → List ℕ
  pub decode_utf8 : List ℕ → Option Text
  -- `json.dumps` of a dict, with the compact separators
  pub dumps : List (Text × Text) → Text
  pub loads : Text → Option Json
  pub isoformat : ℕ → Text
  -- the time, and whether it has a time zone
  pub fromisoformat : Text → Option (ℕ × Bool)
  pub is_uuid : Text → Bool

pub record AuditCursor : Type 0 where
  pub created_at : ℕ
  pub document_id : Text

-- the messages of InvalidAuditCursorError
pub data CursorError : Type 0 where
  too_long not_base64 not_json no_object missing_fields invalid_type : CursorError
  invalid_datetime no_time_zone invalid_id : CursorError

abbrev pub max_cursor_size_bytes : ℕ
max_cursor_size_bytes = 2048

-- `payload.get(key)`
unfoldable pub field_of : Text → List (Text × JsonField) → Option JsonField
field_of key [] = none
field_of key ((k, v) ∷ m) = if text_eq k key then some v else field_of key m

module _ (codec : Codec) where
  abbrev pub payload_of : Env → ℕ → ℕ → List (Text × Text)
  payload_of env created_at document_id =
      (codes "created_at", codec.isoformat created_at)
      ∷ (codes "id", env.show_uuid document_id)
      ∷ []

  unfoldable pub encode_audit_cursor : Env → ℕ → ℕ → Text
  encode_audit_cursor env created_at document_id =
      codec.urlsafe_b64encode
        (codec.encode_utf8 (codec.dumps (payload_of env created_at document_id)))

  unfoldable pub check_time : Text → Option (ℕ × Bool) → Result CursorError AuditCursor
  check_time document_id none = err invalid_datetime
  check_time document_id (some (created_at, aware)) =
      if not aware
      then err no_time_zone
      else if codec.is_uuid document_id
      then ok (record { created_at = created_at; document_id = document_id })
      else err invalid_id

  unfoldable pub check_fields : Option JsonField → Option JsonField → Result CursorError AuditCursor
  unfolding check_time
  check_fields none id_field = err missing_fields
  check_fields (some time_field) none = err missing_fields
  check_fields (some other) (some id_field) = err invalid_type
  check_fields (some (text t)) (some other) = err invalid_type
  check_fields (some (text t)) (some (text i)) = check_time i (codec.fromisoformat t)

  unfoldable pub check_payload : Option Json → Result CursorError AuditCursor
  unfolding check_fields field_of
  check_payload none = err not_json
  check_payload (some not_object) = err no_object
  check_payload (some (object fields)) =
      check_fields (field_of (codes "created_at") fields) (field_of (codes "id") fields)

  unfoldable pub check_text : Option Text → Result CursorError AuditCursor
  unfolding check_payload
  check_text none = err not_json
  check_text (some t) = check_payload (codec.loads t)

  unfoldable pub check_bytes : Option (List ℕ) → Result CursorError AuditCursor
  unfolding check_text
  check_bytes none = err not_base64
  check_bytes (some raw) = check_text (codec.decode_utf8 raw)

  unfoldable pub decode_audit_cursor : Text → Result CursorError AuditCursor
  unfolding check_bytes
  decode_audit_cursor cursor =
      if ltb max_cursor_size_bytes (length cursor)
      then err too_long
      else check_bytes (codec.urlsafe_b64decode cursor)
