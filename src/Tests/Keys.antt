-- ===== src/Tests/Keys.antt =====
-- The key of an upload whose name tries to climb out of its directory.
use documents_rag.Base.{◌≡◌, refl, ok, err, codes, decimal, text_eq}
use documents_rag.Storage.Keys.{generate_object_key, validate_object_key, parent_reference}
use documents_rag.Storage.Keys.Validity.{generate_object_key-valid}
use documents_rag.Tests.Data.{env}

climbing : validate_object_key (codes "documents/../1") ≡ err parent_reference
unfolding validate_object_key text_eq
climbing = refl

generate_object_key-valid_example :
    validate_object_key (generate_object_key env 1 900 (codes "../../a..pdf"))
    ≡ ok (generate_object_key env 1 900 (codes "../../a..pdf"))
unfolding decimal
generate_object_key-valid_example =
    generate_object_key-valid env 1 900 (codes "../../a..pdf") refl refl
