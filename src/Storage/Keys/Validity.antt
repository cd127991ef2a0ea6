-- ===== src/Storage/Keys/Validity.antt =====
-- Generation and validation of keys in app/storage/keys.py.
use documents_rag.Base.{
  text_eq_iff, ==_iff, ◌⊎◌, ℕ, suc, ◌-◌, ◌≡◌, refl, ap, ◌∙◌, Bool, true, false, not, ltb, leb, ◌==◌,
  ◌&&◌, ◌||◌, List, [], ◌∷◌, ◌++◌, Option, none, some, ok, err, Text, select, all, any, length,
  text_eq, drop, arith, if_holds, Bool-cases, inl, inr, if◌then◌else◌,
}
use mathlib.Core.Path.{subst}
use documents_rag.Db.Env.{Env}
use documents_rag.Storage.Keys.{
  slash, dot, split_on, is_part, parts, last, rfind_dot, suffix_of, suffix_at, is_alphanumeric,
  is_safe_body, safe_suffix, uuid_hex, generate_object_key, parent, validate_object_key,
  parent_reference, max_safe_suffix_length,
}

abbrev no_slash : Text → Bool
no_slash t = all (λ c. not (c == slash)) t

abbrev has_parent : List Text → Bool
has_parent fields = any (λ t. text_eq t parent) fields

split_on-single : (t : Text) → no_slash t ≡ true → split_on slash t ≡ t ∷ []
unfolding split_on
split_on-single [] h = refl
split_on-single (c ∷ cs) h = rw (split_on-single cs (ground (arith, h))) (ground (arith, h))

split_on-append :
    (t u : Text) → no_slash t ≡ true → split_on slash (t ++ slash ∷ u) ≡ t ∷ split_on slash u
unfolding split_on
split_on-append [] u h = refl
split_on-append (c ∷ cs) u h = rw (split_on-append cs u (ground (arith, h))) (ground (arith, h))

has_parent-select :
    (p : Text → Bool) (fields : List Text)
    → has_parent fields ≡ false
    → has_parent (select p fields) ≡ false
has_parent-select p [] h = refl
has_parent-select p (t ∷ ts) h = ground (arith, has_parent-select p ts, h)

-- alphanumeric characters and dashes: what the text of a UUID consists of
abbrev pub is_uuid_char : ℕ → Bool
is_uuid_char c = is_alphanumeric c || (c == 45)

uuid_char-plain : (c : ℕ) → is_uuid_char c ≡ true → not (c == slash) && not (c == dot) ≡ true
uuid_char-plain c h = ground arith

no_slash-rest :
    (t : Text)
    → (is_safe_body t ≡ true → no_slash t ≡ true)
    → text_eq t [] || text_eq t (10 ∷ []) || is_safe_body t ≡ true
    → no_slash t ≡ true
no_slash-rest t ih h = elim (Bool-cases (text_eq t [])) [
  | inl e ↦ rw ((text_eq_iff t []).0 e) refl
  | inr e ↦ elim (Bool-cases (text_eq t (10 ∷ []))) [
    | inl f ↦ rw ((text_eq_iff t (10 ∷ [])).0 f) refl
    | inr f ↦ ih (ground (arith, h))
  ]
]

alphanumeric-plain : (c : ℕ) → is_alphanumeric c ≡ true → not (c == slash) && not (c == dot) ≡ true
alphanumeric-plain c h = ground arith

safe_body-no_slash : (t : Text) → is_safe_body t ≡ true → no_slash t ≡ true
unfolding is_safe_body
safe_body-no_slash [] h = absurd (cc)
safe_body-no_slash (c ∷ cs) h =
    let first_plain = alphanumeric-plain c (ground (arith, h)) in
    let others = no_slash-rest cs (safe_body-no_slash cs) (ground (arith, h)) in
    ground (arith, first_plain, others)

safe_body-first : (t : Text) → is_safe_body t ≡ true → text_eq (dot ∷ t) parent ≡ false
unfolding is_safe_body text_eq
safe_body-first [] h = absurd (cc)
safe_body-first (c ∷ cs) h = ground (arith, alphanumeric-plain c (ground (arith, h)))

-- the suffix of a name is empty or starts with the dot
rfind_dot-drop : (t : Text) (i : ℕ) → rfind_dot t ≡ some i → (body : Text) × (drop i t ≡ dot ∷ body)
unfolding rfind_dot
rfind_dot-drop [] i h = absurd (cc)
rfind_dot-drop (c ∷ cs) i h = found (rfind_dot-drop cs) (rfind_dot cs) refl h
  where
    found :
        ((j : ℕ) → rfind_dot cs ≡ some j → (body : Text) × (drop j cs ≡ dot ∷ body))
        → (o : Option ℕ) → rfind_dot cs ≡ o
        → (elim o [ some j ↦ some (suc j) | none ↦ if c == dot then some 0 else none ]) ≡ some i
        → (body : Text) × (drop i (c ∷ cs) ≡ dot ∷ body)
    found ih none e g =
        if_holds (λ o. o ≡ some i → (body : Text) × (drop i (c ∷ cs) ≡ dot ∷ body)) (c == dot)
          (some 0) none
          (λ q k.
            let at : 0 ≡ i = cc in
            (
              cs,
              subst (λ n. drop n (c ∷ cs) ≡ dot ∷ cs) at (ap (λ x. x ∷ cs) ((==_iff c dot).0 q)),
            ))
          (λ q k. absurd (cc)) g
    found ih (some j) e g =
        let at : suc j ≡ i = cc in
        let (body, there) = ih j e in (body, subst (λ n. drop n (c ∷ cs) ≡ dot ∷ body) at there)

-- A suffix that is kept is the dot with a safe body.
abbrev IsSuffix : Text → Type 0
IsSuffix t = (t ≡ []) ⊎ ((body : Text) × (t ≡ dot ∷ body) × (is_safe_body body ≡ true))

suffix_of-dot :
    (name : Text) → (suffix_of name ≡ []) ⊎ ((body : Text) × (suffix_of name ≡ dot ∷ body))
unfolding suffix_of
suffix_of-dot name = found (rfind_dot name) refl
  where
    found :
        (o : Option ℕ)
        → rfind_dot name ≡ o
        → (suffix_at name o ≡ []) ⊎ ((body : Text) × (suffix_at name o ≡ dot ∷ body))
    found none e = inl refl
    found (some i) e =
        if_holds (λ (s : Text). (s ≡ []) ⊎ ((body : Text) × (s ≡ dot ∷ body)))
          (ltb 0 i && ltb i (length name - 1)) (drop i name) [] (λ b. inr (rfind_dot-drop name i e))
          (λ b. inl refl)

safe_suffix-IsSuffix : (name : Text) → IsSuffix (safe_suffix (suffix_of name))
safe_suffix-IsSuffix name = elim (suffix_of-dot name) [
  | inl e ↦ inl (rw e refl)
  | inr (body, e) ↦ rw e (kept body)
]
  where
    kept : (body : Text) → IsSuffix (safe_suffix (dot ∷ body))
    kept body =
        if_holds IsSuffix
          (ltb 1 (length (dot ∷ body))
            && leb (length (dot ∷ body)) max_safe_suffix_length
            && is_safe_body body)
          (dot ∷ body) [] (λ b. inr (body, refl, ground (arith, b))) (λ b. inl refl)

no_slash-append : (t u : Text) → no_slash (t ++ u) ≡ no_slash t && no_slash u
no_slash-append [] u = refl
no_slash-append (c ∷ cs) u = ground (arith, no_slash-append cs u)

uuid-no_slash : (t : Text) → all is_uuid_char t ≡ true → no_slash t ≡ true
uuid-no_slash [] h = refl
uuid-no_slash (c ∷ cs) h =
    ground (arith, uuid_char-plain c (ground (arith, h)), uuid-no_slash cs (ground (arith, h)))

uuid-select :
    (p : ℕ → Bool) (t : Text) → all is_uuid_char t ≡ true → all is_uuid_char (select p t) ≡ true
uuid-select p [] h = refl
uuid-select p (c ∷ cs) h = ground (arith, h, uuid-select p cs)

IsSuffix-no_slash : (t : Text) → IsSuffix t → no_slash t ≡ true
IsSuffix-no_slash t (inl e) = rw e refl
IsSuffix-no_slash t (inr (body, e, safe)) = rw e (ground (arith, safe_body-no_slash body safe))

-- the last field of the key
last_field-plain :
    (hex suffix : Text)
    → all is_uuid_char hex ≡ true
    → IsSuffix suffix
    → text_eq (hex ++ suffix) parent ≡ false
unfolding text_eq
last_field-plain [] suffix h (inl e) = rw e refl
last_field-plain [] suffix h (inr (body, e, safe)) = rw e (safe_body-first body safe)
last_field-plain (c ∷ cs) suffix h s = ground (arith, uuid_char-plain c (ground (arith, h)))

uuid-not_parent : (t : Text) → all is_uuid_char t ≡ true → text_eq t parent ≡ false
unfolding text_eq
uuid-not_parent [] h = refl
uuid-not_parent (c ∷ cs) h = ground (arith, uuid_char-plain c (ground (arith, h)))

-- A key that is generated is valid and goes through the validation unchanged, whatever the name of
-- the uploaded file is. The texts of the two UUIDs consist of alphanumeric characters and dashes.
pub generate_object_key-valid :
    (env : Env) (n document_id : ℕ) (original_filename : Text)
    → all is_uuid_char (env.show_uuid document_id) ≡ true
    → all is_uuid_char (env.show_uuid (env.uuid n)) ≡ true
    → validate_object_key (generate_object_key env n document_id original_filename)
      ≡ ok (generate_object_key env n document_id original_filename)
unfolding validate_object_key parts generate_object_key text_eq
generate_object_key-valid env n document_id original_filename h g =
    let shown = env.show_uuid document_id in
    let suffix = safe_suffix (suffix_of (last (parts original_filename))) in
    let tail = uuid_hex env n ++ suffix in
    let hex = uuid-select (λ c. not (c == 45)) (env.show_uuid (env.uuid n)) g in
    let kept = safe_suffix-IsSuffix (last (parts original_filename)) in
    let tail_plain : no_slash tail ≡ true = ground (
      arith,
      no_slash-append (uuid_hex env n) suffix,
      uuid-no_slash (uuid_hex env n) hex,
      IsSuffix-no_slash suffix kept,
    ) in
    let fields : split_on slash (shown ++ slash ∷ tail) ≡ shown ∷ tail ∷ [] =
      split_on-append shown tail (uuid-no_slash shown h)
      ∙ ap (λ x. shown ∷ x) (split_on-single tail tail_plain) in
    let none_parent : has_parent (shown ∷ tail ∷ []) ≡ false =
      ground (arith, uuid-not_parent shown h, last_field-plain (uuid_hex env n) suffix hex kept) in
    ap
      (λ b.
        if b
        then err parent_reference
        else ok (generate_object_key env n document_id original_filename))
      (ap (λ x. has_parent (select is_part x)) fields
        ∙ has_parent-select is_part (shown ∷ tail ∷ []) none_parent)
