-- ===== src/Reconciliation/Cursor/RoundTrip.antt =====
-- The continuation cursor of app/services/reconciliation/document_audit_batch_service.py, there and
-- back.
use documents_rag.Base.{
  ℕ, ◌≡◌, ap, ◌∙◌, true, false, ltb, List, [], ◌∷◌, some, ok, err, Text, length, if◌then◌else◌,
  text_eq, Bool, not, ◌&&◌, any, map, refl,
}
use documents_rag.Db.Env.{Env}
use documents_rag.Reconciliation.Cursor.{
  JsonField, Codec, object, text, invalid_id, max_cursor_size_bytes, payload_of,
  encode_audit_cursor, decode_audit_cursor, check_bytes, check_text, check_payload, check_time,
}

abbrev pub all_distinct : List Text → Bool
all_distinct [] = true
all_distinct (k ∷ ks) = not (any (text_eq k) ks) && all_distinct ks

abbrev pub as_field : Text × Text → Text × JsonField
as_field (k, v) = (k, text v)

module _ (codec : Codec) where
  -- What the Python library documents of these functions, that UUIDs parse, and that the encoded
  -- cursors are not too long.
  pub record IsCodec (env : Env) : Type 0 where
    pub base64 : (raw : List ℕ) → codec.urlsafe_b64decode (codec.urlsafe_b64encode raw) ≡ some raw
    pub utf8 : (t : Text) → codec.decode_utf8 (codec.encode_utf8 t) ≡ some t
    -- a dict of texts, whatever its keys
    pub json :
        (fields : List (Text × Text))
        → all_distinct (map (λ (kv : Text × Text). kv.0) fields) ≡ true
        → codec.loads (codec.dumps fields) ≡ some (object (map as_field fields))
    pub iso : (t : ℕ) → codec.fromisoformat (codec.isoformat t) ≡ some (t, true)
    pub uuids : (i : ℕ) → codec.is_uuid (env.show_uuid i) ≡ true
    pub short :
        (t i : ℕ) → ltb max_cursor_size_bytes (length (encode_audit_cursor codec env t i)) ≡ false

  -- A cursor that is encoded decodes to the time and the id that it was made of, if the codecs of
  -- the Python library read back what they write, UUIDs parse, and the encoded cursor is within its
  -- size limit.
  pub decode_audit_cursor-encode_audit_cursor :
      (env : Env) (created_at document_id : ℕ)
      → IsCodec env
      → decode_audit_cursor codec (encode_audit_cursor codec env created_at document_id)
        ≡ ok (record { created_at = created_at; document_id = env.show_uuid document_id })
  unfolding decode_audit_cursor encode_audit_cursor text_eq
  decode_audit_cursor-encode_audit_cursor env t i h =
      let payload = codec.dumps (payload_of codec env t i) in
      rw (h.short t i) (
        ap (check_bytes codec) (h.base64 (codec.encode_utf8 payload))
        ∙ ap (check_text codec) (h.utf8 payload)
        ∙ ap (check_payload codec) (h.json (payload_of codec env t i) refl)
        ∙ ap (check_time codec (env.show_uuid i)) (h.iso t)
        ∙ ap
            (λ b.
              if b
              then ok (record { created_at = t; document_id = env.show_uuid i })
              else err invalid_id)
            (h.uuids i))
