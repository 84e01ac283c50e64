-- ===== src/Api/Bearer.antt =====
-- The key that the dashboard sends is the key that the API reads.
use Prim.Native.String.{[], ◌∷◌}
use text.Mathlib.TextLemmas.{cons-append, nil-append}
use shiplog_prototype.Prelude.{
  String, Option, some, ◌≡◌, ◌≢◌, refl, arith, ◌==◌, Bool-cases, inl, inr, eq_iff,
}
use shiplog_prototype.Text.{trim, append}
use shiplog_prototype.Host.{Host}
use shiplog_prototype.World.{Database, M}
use shiplog_prototype.Dashboard.{authorization_of}
use shiplog_prototype.Api.{
  Reply, after_prefix, bearer, key_from, extract_api_key, with_key, tenant_auth,
}

after_prefix-append : (p s : String) → after_prefix p (append p s) ≡ some s
unfolding after_prefix
after_prefix-append [] s = rw (nil-append s) refl
after_prefix-append (c ∷ p) s = rw (cons-append c p s) (ground (arith, after_prefix-append p s))

extract_api_key-authorization_of :
    (k : String) (api_key : Option String)
    → extract_api_key (some (authorization_of k)) api_key ≡ some (trim k)
unfolding extract_api_key bearer key_from
extract_api_key-authorization_of k api_key = rw (after_prefix-append "Bearer " k) refl

-- A request with the dashboard's header for a key that is not empty and has no space at its ends is
-- handled as a request with exactly that key, whatever the other header says.
pub tenant_auth-authorization_of :
    {A : Type 0} (host : Host) (db : Database) (k : String) (api_key : Option String)
    (next : String → M (Reply A))
    → k ≢ ""
    → trim k ≡ k
    → tenant_auth host db (some (authorization_of k)) api_key next ≡ with_key host db (some k) next
unfolding tenant_auth
tenant_auth-authorization_of host db k api_key next named clean = elim (Bool-cases (k == "")) [
  | inl empty ↦ absurd (named ((eq_iff k "").0 empty))
  | inr full ↦ rw (extract_api_key-authorization_of k api_key, clean, full) refl
]
