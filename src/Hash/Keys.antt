-- ===== src/Hash/Keys.antt =====
-- The idempotency key of src/events/hash.ts: what a key determines, and where two sets of parts
-- share one.
use Prim.Native.Char.{Char, code}
use Prim.Native.String.{[], ◌∷◌}
use text.Mathlib.TextLemmas.{nil-append, cons-append, append_assoc}
use shiplog_prototype.Prelude.{String, ◌≡◌, ap, ◌∙◌, sym}
use shiplog_prototype.Text.{append}
use shiplog_prototype.Text.Laws.{Lacks, split_at_first}
use shiplog_prototype.Host.{Host}
use shiplog_prototype.Hash.{idempotency_key}

-- Different texts have different digests, as long as nobody has found a collision.
abbrev pub IsCollisionFree : Host → Type 0
IsCollisionFree host = (s t : String) → host.sha256_hex s ≡ host.sha256_hex t → s ≡ t

abbrev pub bar : Char
bar = "|"

-- The text holds no separator.
abbrev pub IsBarFree : String → Type 0
IsBarFree s = Lacks (code bar) s

bar-append : (s : String) → append "|" s ≡ bar ∷ s
bar-append s = cons-append bar [] s ∙ ap (λ t. bar ∷ t) (nil-append s)

split_at_bar :
    (a b r s : String)
    → IsBarFree a
    → IsBarFree b
    → append a (append "|" r) ≡ append b (append "|" s)
    → (a ≡ b) × (r ≡ s)
split_at_bar a b r s la lb e =
    split_at_first bar a b r s la lb
      (ap (append a) (sym (bar-append r)) ∙ e ∙ ap (append b) (bar-append s))

-- The parts that are hashed together.
pub record Parts : Type 0 where
  pub tenant_id : String
  pub source : String
  pub external_id : String
  pub version : String

abbrev pub key_of : Host → Parts → String
key_of host p = idempotency_key host p.tenant_id p.source p.external_id p.version

-- No part but the last one, the version, holds the separator.
pub record IsSeparable (p : Parts) : Type 0 where
  pub tenant_free : IsBarFree p.tenant_id
  pub source_free : IsBarFree p.source
  pub external_free : IsBarFree p.external_id

-- Parts whose tenant, source and external id hold no "|" have equal keys only if all four parts are
-- equal, the versions, which may hold any character, included.
pub key_of-injective :
    (host : Host) (p q : Parts)
    → IsCollisionFree host
    → IsSeparable p
    → IsSeparable q
    → key_of host p ≡ key_of host q
    → p ≡ q
unfolding idempotency_key
key_of-injective host p q free sp sq e =
    let texts = free _ _ e in
    let (t, r) = split_at_bar _ _ _ _ sp.tenant_free sq.tenant_free texts in
    let (s, r') = split_at_bar _ _ _ _ sp.source_free sq.source_free r in
    let (x, v) = split_at_bar _ _ _ _ sp.external_free sq.external_free r' in
    λ i. record { tenant_id = t i; source = s i; external_id = x i; version = v i }

-- The separator is not escaped: parts that differ only in which side of a "|" belongs to the source
-- and which to the external id have one key.
pub key_of_shifted :
    (host : Host) (tenant source middle external version : String)
    → key_of host (record {
      tenant_id = tenant;
      source = append source (append "|" middle);
      external_id = external;
      version = version;
    })
      ≡ key_of host (record {
        tenant_id = tenant;
        source = source;
        external_id = append middle (append "|" external);
        version = version;
      })
unfolding idempotency_key
key_of_shifted host tenant source middle external version =
    ap (λ s. host.sha256_hex (append tenant (append "|" s))) (simp append_assoc)
