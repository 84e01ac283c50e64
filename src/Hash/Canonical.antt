-- ===== src/Hash/Canonical.antt =====
-- The content hash of src/events/hash.ts does not depend on the order of keys, nor on whether a
-- time is a Date or its ISO text, at any depth.
use mathlib.Core.Path.{ap₂}
use shiplog_prototype.Prelude.{ℕ, String, Bool, ◌||◌, some, ◌≡◌, ◌≢◌, refl, sym, ap, ◌∙◌, arith}
use shiplog_prototype.Text.Laws.{le_text_total, le_text_trans, le_text_antisym}
use shiplog_prototype.Value.{Value, str, date, arr, obj, Items, nil, item, Fields, end, field}
use shiplog_prototype.Host.{Host}
use shiplog_prototype.Hash.{
  insert_field, has_invalid_date, has_invalid_item, has_invalid_field, canonical, canonical_items,
  canonical_fields, canonicalize, content_hash,
}

-- Two values that mean the same: equal but for the order of distinct keys, and for dates that stand
-- as ISO texts.
mutual
  pub data Same (host : Host) : Value → Value → Type 0 where
    same : {v : Value} → Same host v v
    iso : {t : ℕ} → Same host (date (some t)) (str (host.to_iso t))
    flip : {v w : Value} → Same host v w → Same host w v
    trans : {u v w : Value} → Same host u v → Same host v w → Same host u w
    in_arr : {vs ws : Items} → SameItems host vs ws → Same host (arr vs) (arr ws)
    in_obj : {fs gs : Fields} → SameFields host fs gs → Same host (obj fs) (obj gs)

  pub data SameItems (host : Host) : Items → Items → Type 0 where
    no_items : SameItems host nil nil
    items :
        {v w : Value} {vs ws : Items}
        → Same host v w
        → SameItems host vs ws
        → SameItems host (item v vs) (item w ws)

  pub data SameFields (host : Host) : Fields → Fields → Type 0 where
    no_fields : SameFields host end end
    fields :
        {k : String} {v w : Value} {fs gs : Fields}
        → Same host v w
        → SameFields host fs gs
        → SameFields host (field k v fs) (field k w gs)
    swap :
        {j k : String} {v w : Value} {fs : Fields}
        → j ≢ k
        → SameFields host (field j v (field k w fs)) (field k w (field j v fs))
    chain :
        {fs gs hs : Fields} → SameFields host fs gs → SameFields host gs hs → SameFields host fs hs

insert_field_comm :
    (j k : String) (v w : Value) (fs : Fields)
    → j ≢ k
    → insert_field j v (insert_field k w fs) ≡ insert_field k w (insert_field j v fs)
unfolding insert_field
insert_field_comm j k v w end n = ground (arith, le_text_total j k, le_text_antisym j k)
insert_field_comm j k v w (field i u fs) n = ground (
  arith,
  le_text_total j k,
  le_text_antisym j k,
  le_text_total j i,
  le_text_total k i,
  le_text_trans j k i,
  le_text_trans k j i,
  insert_field_comm j k v w fs n,
)

or_left_comm : (a b c : Bool) → (a || (b || c)) ≡ (b || (a || c))
or_left_comm a b c = ground arith

module _ (host : Host) where
  mutual
    unfolding canonical

    canonical-Same : {v w : Value} → Same host v w → canonical host v ≡ canonical host w
    canonical-Same same = refl
    canonical-Same iso = refl
    canonical-Same (flip e) = sym (canonical-Same e)
    canonical-Same (trans d e) = canonical-Same d ∙ canonical-Same e
    canonical-Same (in_arr e) = ap arr (canonical_items-Same e)
    canonical-Same (in_obj e) = ap obj (canonical_fields-Same e)

    canonical_items-Same :
        {vs ws : Items} → SameItems host vs ws → canonical_items host vs ≡ canonical_items host ws
    canonical_items-Same no_items = refl
    canonical_items-Same (items d e) = ap₂ item (canonical-Same d) (canonical_items-Same e)

    canonical_fields-Same :
        {fs gs : Fields}
        → SameFields host fs gs
        → canonical_fields host fs ≡ canonical_fields host gs
    canonical_fields-Same no_fields = refl
    canonical_fields-Same (fields {k} d e) =
        ap₂ (insert_field k) (canonical-Same d) (canonical_fields-Same e)
    canonical_fields-Same (swap {j} {k} {v} {w} {fs} n) =
        insert_field_comm j k (canonical host v) (canonical host w) (canonical_fields host fs) n
    canonical_fields-Same (chain d e) = canonical_fields-Same d ∙ canonical_fields-Same e

  mutual
    unfolding has_invalid_date

    invalid-Same : {v w : Value} → Same host v w → has_invalid_date v ≡ has_invalid_date w
    invalid-Same same = refl
    invalid-Same iso = refl
    invalid-Same (flip e) = sym (invalid-Same e)
    invalid-Same (trans d e) = invalid-Same d ∙ invalid-Same e
    invalid-Same (in_arr e) = invalid_items-Same e
    invalid-Same (in_obj e) = invalid_fields-Same e

    invalid_items-Same :
        {vs ws : Items} → SameItems host vs ws → has_invalid_item vs ≡ has_invalid_item ws
    invalid_items-Same no_items = refl
    invalid_items-Same (items d e) = ap₂ ◌||◌ (invalid-Same d) (invalid_items-Same e)

    invalid_fields-Same :
        {fs gs : Fields} → SameFields host fs gs → has_invalid_field fs ≡ has_invalid_field gs
    invalid_fields-Same no_fields = refl
    invalid_fields-Same (fields d e) = ap₂ ◌||◌ (invalid-Same d) (invalid_fields-Same e)
    invalid_fields-Same (swap {v} {w} {fs} n) =
        or_left_comm (has_invalid_date v) (has_invalid_date w) (has_invalid_field fs)
    invalid_fields-Same (chain d e) = invalid_fields-Same d ∙ invalid_fields-Same e

  -- Values that mean the same have the same content hash, or both throw: neither the order of an
  -- object's keys nor a Date in place of its ISO text changes it, at any depth.
  pub content_hash-Same : {v w : Value} → Same host v w → content_hash host v ≡ content_hash host w
  unfolding content_hash canonicalize
  content_hash-Same e = rw (invalid-Same e, canonical-Same e)
