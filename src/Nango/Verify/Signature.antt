-- ===== src/Nango/Verify/Signature.antt =====
-- Which webhooks src/nango/verify.ts accepts.
use Prim.Native.String.{[], ◌∷◌}
use mathlib.Core.Path.{ap₂}
use mathlib.Core.List.{[], ◌∷◌}
use shiplog_prototype.Prelude.{
  ℕ, String, Bool, true, false, Option, List, ◌≡◌, ◌≢◌, ◌↔◌, refl, sym, ◌∙◌, arith, ◌==◌, eq_iff,
  Bool-cases, inl, inr, if◌then◌else◌,
}
use shiplog_prototype.Value.{Value, str, Fields, truthy}
use shiplog_prototype.Host.{Host}
use shiplog_prototype.Nango.Verify.{
  from_hex, same_bytes, is_empty, safe_hex_equal, header_value, compute_nango_hmac,
  verify_nango_signature,
}

same_bytes_sound : (a b : List ℕ) → same_bytes a b ≡ true → a ≡ b
unfolding same_bytes
same_bytes_sound [] [] h = refl
same_bytes_sound (a ∷ s) (b ∷ t) h =
    let rest = same_bytes_sound s t in
    let heads : a ≡ b = ground arith in ap₂ ◌∷◌ heads (rest (ground arith))
same_bytes_sound [] (b ∷ t) h = cc
same_bytes_sound (a ∷ s) [] h = cc

same_bytes_refl : (a : List ℕ) → same_bytes a a ≡ true
unfolding same_bytes
same_bytes_refl [] = refl
same_bytes_refl (a ∷ s) = ground (arith, same_bytes_refl s)

-- The text encodes the same bytes, and not none.
pub record Encodes (expected sig : String) : Type 0 where
  pub same : from_hex sig ≡ from_hex expected
  pub some_bytes : from_hex expected ≢ []

is_empty_iff : (s : List ℕ) → is_empty s ≡ false → s ≢ []
unfolding is_empty
is_empty_iff [] h = cc
is_empty_iff (b ∷ s) h = λ e. cc

not_empty : (s : List ℕ) → s ≢ [] → is_empty s ≡ false
unfolding is_empty
not_empty [] h = absurd (h refl)
not_empty (b ∷ s) h = refl

safe_hex_equal_sound :
    (expected sig : String) → safe_hex_equal expected (str sig) ≡ true → Encodes expected sig
unfolding safe_hex_equal
safe_hex_equal_sound expected sig h = elim (Bool-cases (is_empty (from_hex expected))) [
  | inl none_there ↦ ground arith
  | inr there ↦
      let e = same_bytes_sound (from_hex expected) (from_hex sig) (ground arith) in
      record { same = cc; some_bytes = is_empty_iff _ there }
]

safe_hex_equal_complete :
    (expected sig : String) → Encodes expected sig → safe_hex_equal expected (str sig) ≡ true
unfolding safe_hex_equal
safe_hex_equal_complete expected sig e =
    rw (not_empty (from_hex expected) e.some_bytes, e.same) (same_bytes_refl (from_hex expected))

from_hex-empty : (s : String) → s ≡ "" → from_hex s ≡ []
unfolding from_hex
from_hex-empty s e = rw e refl

neither : (b : Bool) → (if b then false else false) ≡ true → ⊥
neither true h = cc
neither false h = cc

received_iff :
    (expected : String) (v : Value)
    → ((if truthy v then safe_hex_equal expected v else false) ≡ true)
      ↔ ((sig : String) × (v ≡ str sig) × Encodes expected sig)
unfolding safe_hex_equal from_hex
received_iff expected (str s) = elim (Bool-cases (s == "")) [
  | inl empty ↦ (
    λ h. ground arith,
    λ (sig, same, e). absurd (
        e.some_bytes (
          let is_nil : s ≡ "" = (eq_iff s "").0 empty in
          let sig_nil : sig ≡ "" = cc in sym e.same ∙ from_hex-empty sig sig_nil)),
  )
  | inr given ↦ (
    λ h. (s, refl, safe_hex_equal_sound expected s (ground arith)),
    λ (sig, same, e). let k = safe_hex_equal_complete expected sig e in ground arith,
  )
]
received_iff expected v = (λ h. absurd (neither (truthy v) h), λ (sig, same, e). cc)

pub verify_nango_signature_iff :
    (host : Host) (body : Option String) (headers : Fields) (key : String)
    → (verify_nango_signature host body headers key ≡ true) ↔ (
        (key ≢ "")
        × ((sig : String) × (header_value headers "x-nango-hmac-sha256" ≡ str sig)
            × Encodes (compute_nango_hmac host body key) sig))
unfolding verify_nango_signature
verify_nango_signature_iff host body headers key =
    let (sound, complete) =
      received_iff (compute_nango_hmac host body key)
        (header_value headers "x-nango-hmac-sha256") in
    elim (Bool-cases (key == "")) [
      | inl empty ↦ (
        λ h. let k = (rw empty at h) in cc,
        λ (named, _). absurd (named ((eq_iff key "").0 empty)),
      )
      | inr given ↦ (
        λ h. (λ e. let k = (eq_iff key "").1 e in cc, sound (rw given at h)),
        λ (_, found). rw given (complete found),
      )
    ]
