-- ===== src/Tests/Names.antt =====
-- A model name as a part of a collection name.
use documents_rag.Base.{◌≡◌, true, all, codes, refl}
use documents_rag.Indexing.Config.{sanitize, is_name_char}
use documents_rag.Indexing.Config.Names.{sanitize_twice}

model_part : sanitize (codes " BAAI/bge-m3 (v2)") ≡ codes "baai-bge-m3-v2"
unfolding sanitize
model_part = refl

sanitize_twice_example :
    (sanitize (sanitize (codes " BAAI/bge-m3 (v2)")) ≡ sanitize (codes " BAAI/bge-m3 (v2)"))
    × (all is_name_char (sanitize (codes " BAAI/bge-m3 (v2)")) ≡ true)
sanitize_twice_example = sanitize_twice (codes " BAAI/bge-m3 (v2)")
