-- ===== src/Hash.antt =====
-- src/events/hash.ts: the canonical form of a value, and the two digests of an event.
pub mod Canonical
pub mod Keys
use Prim.Native.Char.{Char, code}
use Prim.Native.String.{[], ◌∷◌}
use mathlib.Core.Option
use mathlib.Core.List.{[], ◌∷◌}
use shiplog_prototype.Prelude.{
  ℕ, zero, suc, ◌-◌, String, Bool, true, false, ◌||◌, Option, none, some, List, ltb, leb, nat_eq,
  if◌then◌else◌,
}
use shiplog_prototype.Text.{append, decimal, join, le_text}
use shiplog_prototype.Value.{
  Value, undefined, null, bool, num, str, date, arr, obj, Items, nil, item, Fields, end, field,
}
use shiplog_prototype.Host.{Host}

-- An entry goes before the first key that is not below its own: keys end up sorted.
insert_field : String → Value → Fields → Fields
insert_field k v end = field k v end
insert_field k v (field j w fs) =
    if le_text k j then field k v (field j w fs) else field j w (insert_field k v fs)

-- `toISOString` throws on an invalid date, wherever in the value it stands.
mutual
  has_invalid_date : Value → Bool
  has_invalid_date (date none) = true
  has_invalid_date (arr vs) = has_invalid_item vs
  has_invalid_date (obj fs) = has_invalid_field fs
  has_invalid_date _ = false

  has_invalid_item : Items → Bool
  has_invalid_item nil = false
  has_invalid_item (item v vs) = has_invalid_date v || has_invalid_item vs

  has_invalid_field : Fields → Bool
  has_invalid_field end = false
  has_invalid_field (field k v fs) = has_invalid_date v || has_invalid_field fs

hex_digit : ℕ → Char
hex_digit (suc (suc (suc (suc (suc (suc (suc (suc (suc (suc zero)))))))))) = "a"
hex_digit (suc (suc (suc (suc (suc (suc (suc (suc (suc (suc (suc zero))))))))))) = "b"
hex_digit (suc (suc (suc (suc (suc (suc (suc (suc (suc (suc (suc (suc zero)))))))))))) = "c"
hex_digit (suc (suc (suc (suc (suc (suc (suc (suc (suc (suc (suc (suc (suc zero))))))))))))) = "d"
hex_digit (suc (suc (suc (suc (suc (suc (suc (suc (suc (suc (suc (suc (suc (suc zero)))))))))))))) =
    "e"
hex_digit n = "f"

-- One character of `JSON.stringify` on a string.
escape : Char → String
escape c =
    if nat_eq (code c) 0x22
    then "\\\""
    else if nat_eq (code c) 0x5c
    then "\\\\"
    else if nat_eq (code c) 8
    then "\\b"
    else if nat_eq (code c) 9
    then "\\t"
    else if nat_eq (code c) 10
    then "\\n"
    else if nat_eq (code c) 12
    then "\\f"
    else if nat_eq (code c) 13
    then "\\r"
    else if ltb (code c) 10
    then append "\\u000" (decimal (code c))
    else if ltb (code c) 16
    then append "\\u000" (hex_digit (code c) ∷ [])
    else if ltb (code c) 26
    then append "\\u001" (decimal (code c - 16))
    else if ltb (code c) 32
    then append "\\u001" (hex_digit (code c - 16) ∷ [])
    else c ∷ []

escape_all : String → String
escape_all [] = "\""
escape_all (c ∷ s) = append (escape c) (escape_all s)

quote : String → String
unfolding escape_all escape hex_digit
quote s = append "\"" (escape_all s)

module _ (host : Host) where
  open host use {sha256_hex, to_iso}

  -- The recursion of `canonicalize`, where no date is invalid.
  mutual
    canonical : Value → Value
    canonical (date (some t)) = str (to_iso t)
    canonical (arr vs) = arr (canonical_items vs)
    canonical (obj fs) = obj (canonical_fields fs)
    canonical v = v

    canonical_items : Items → Items
    canonical_items nil = nil
    canonical_items (item v vs) = item (canonical v) (canonical_items vs)

    canonical_fields : Fields → Fields
    canonical_fields end = end
    canonical_fields (field k v fs) = insert_field k (canonical v) (canonical_fields fs)

  -- `none` is the RangeError of an invalid date.
  canonicalize : Value → Option Value
  canonicalize v = if has_invalid_date v then none else some (canonical v)

  -- `JSON.stringify`, which leaves out the entries that are `undefined`.
  mutual
    pub stringify : Value → String
    stringify undefined = "null"
    stringify null = "null"
    stringify (bool true) = "true"
    stringify (bool false) = "false"
    stringify (num n) = decimal n
    stringify (str s) = quote s
    stringify (date none) = "null"
    stringify (date (some t)) = quote (to_iso t)
    stringify (arr vs) = append "[" (append (join "," (stringify_items vs)) "]")
    stringify (obj fs) = append "{" (append (join "," (stringify_fields fs)) "}")

    stringify_items : Items → List String
    stringify_items nil = []
    stringify_items (item v vs) = stringify v ∷ stringify_items vs

    stringify_fields : Fields → List String
    stringify_fields end = []
    stringify_fields (field k undefined fs) = stringify_fields fs
    stringify_fields (field k v fs) =
        append (quote k) (append ":" (stringify v)) ∷ stringify_fields fs

  -- `idempotencyKey({ tenantId, source, externalId, version })`.
  unfoldable pub idempotency_key : String → String → String → String → String
  idempotency_key tenant_id source external_id version = sha256_hex (
      append tenant_id
        (append "|" (append source (append "|" (append external_id (append "|" version))))))

  -- `contentHash(content)` of an object; `none` where `canonicalize` throws.
  unfoldable pub content_hash : Value → Option String
  unfolding canonicalize canonical has_invalid_date insert_field stringify quote
  content_hash v = Option.map (λ c. sha256_hex (stringify c)) (canonicalize v)
