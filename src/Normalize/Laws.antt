-- ===== src/Normalize/Laws.antt =====
-- What the key of a normalized record identifies.
use Prim.Native.Char.{Char, code}
use text.Mathlib.TextLemmas.{cons-append, append_cancel_left, head-eq_of_cons-eq}
use shiplog_prototype.Prelude.{
  ℕ, String, Bool, true, false, ◌||◌, some, ◌≡◌, refl, sym, ap, ◌∙◌, arith, eq_iff,
}
use shiplog_prototype.Text.{append, decimal}
use shiplog_prototype.Text.Laws.{Lacks-append, Lacks-decimal, decimal_injective}
use shiplog_prototype.Value.{Value, num, str, get, is_text, js_string}
use shiplog_prototype.Host.{Host}
use shiplog_prototype.World.{ok}
use shiplog_prototype.Hash.Keys.{
  IsCollisionFree, IsBarFree, bar, Parts, IsSeparable, key_of-injective,
}
use shiplog_prototype.Ingest.{event_key}
use shiplog_prototype.Schema.{NormalizedEvent, parse_event, parse_nonempty, parse_version}
use shiplog_prototype.Schema.Laws.{Parses, parse_event-Parses, parse_nonempty_text}
use mathlib.Core.Path.{subst}
use shiplog_prototype.Normalize.{
  model_of, normalize_issue, normalize_pull_request, normalize_github,
}

-- The two kinds of record that GitHub numbers.
pub data Kind : Type 0 where
  issue pull_request : Kind

-- The records that are normalized as this kind; an issue has two model names.
abbrev pub is_kind : Kind → Value → Bool
is_kind issue m = is_text m "GithubIssue" || is_text m "Issue"
is_kind pull_request m = is_text m "GithubPullRequest"

abbrev pub prefix : Kind → String
prefix issue = "issue:"
prefix pull_request = "pr:"

not_both : (m : Value) → is_text m "GithubPullRequest" ≡ true → is_kind issue m ≡ false
not_both (str s) h = rw ((eq_iff s "GithubPullRequest").0 h)
not_both _ h = cc

module _ (host : Host) where
  -- A record of the kind, with the number and the update token that GitHub gives it, which the
  -- normalizer and the schema take to the event.
  pub record IsNumbered (kind : Kind) (r : Value) (n : ℕ) (v : String) (ev : NormalizedEvent)
      : Type 0 where
    pub model : is_kind kind (model_of r) ≡ true
    pub number : get "number" r ≡ num n
    pub token : get "updated_at" r ≡ str v
    pub input : Value
    pub normalized : normalize_github host r ≡ ok input
    pub parsed : parse_event host input ≡ some ev

  -- The parts of the key that the event brings.
  pub record Identifies (kind : Kind) (n : ℕ) (v : String) (ev : NormalizedEvent) : Type 0 where
    pub source : ev.source ≡ "github"
    pub external_id : ev.external_id ≡ append (prefix kind) (decimal n)
    pub version : ev.version ≡ v

  normalized_issue :
      (r input : Value)
      → is_kind issue (model_of r) ≡ true
      → normalize_github host r ≡ ok input
      → input ≡ normalize_issue host r
  unfolding normalize_github
  normalized_issue r input m e = ground arith

  normalized_pull_request :
      (r input : Value)
      → is_kind pull_request (model_of r) ≡ true
      → normalize_github host r ≡ ok input
      → input ≡ normalize_pull_request host r
  unfolding normalize_github
  normalized_pull_request r input m e = ground (arith, not_both (model_of r) m)

  -- A text that is parsed without change.
  same_text : (s t : String) → parse_nonempty (str s) ≡ some t → t ≡ s
  same_text s t h = let (same, _) = parse_nonempty_text (str s) t h in cc

  IsNumbered-Identifies :
      (kind : Kind) (r : Value) (n : ℕ) (v : String) (ev : NormalizedEvent)
      → IsNumbered kind r n v ev
      → Identifies kind n v ev
  unfolding normalize_issue normalize_pull_request get parse_version js_string
  IsNumbered-Identifies issue r n v ev i =
      let p = parse_event-Parses host i.input ev i.parsed in
      let q = subst (λ x. Parses host x ev) (normalized_issue r i.input i.model i.normalized) p in
      record {
        source = same_text _ _ q.source;
        external_id =
            same_text _ _ q.external_id
            ∙ ap (λ x. append "issue:" (js_string host.date_text x)) i.number;
        version = let e = (rw i.token at q.version) in cc;
      }
  IsNumbered-Identifies pull_request r n v ev i =
      let p = parse_event-Parses host i.input ev i.parsed in
      let q =
        subst (λ x. Parses host x ev) (normalized_pull_request r i.input i.model i.normalized) p in
      record {
        source = same_text _ _ q.source;
        external_id =
            same_text _ _ q.external_id
            ∙ ap (λ x. append "pr:" (js_string host.date_text x)) i.number;
        version = let e = (rw i.token at q.version) in cc;
      }

prefix_free : (kind : Kind) → IsBarFree (prefix kind)
prefix_free issue = omega arith
prefix_free pull_request = omega arith

external_id_free : (kind : Kind) (n : ℕ) → IsBarFree (append (prefix kind) (decimal n))
external_id_free kind n =
    Lacks-append (code bar) (prefix kind) (decimal n) (prefix_free kind)
      (Lacks-decimal (code bar) n (omega arith))

letter_i : Char
letter_i = "i"

letter_p : Char
letter_p = "p"

kinds_differ : (s t : String) → append "issue:" s ≡ append "pr:" t → ⊥
unfolding letter_i letter_p
kinds_differ s t e =
    let heads =
      head-eq_of_cons-eq (sym (cons-append letter_i "ssue:" s) ∙ e ∙ cons-append letter_p "r:" t) in
    omega (arith, ap code heads)

-- The kind and the number are read back from the external id.
external_id_injective :
    (k j : Kind) (m n : ℕ)
    → append (prefix k) (decimal m) ≡ append (prefix j) (decimal n)
    → (k ≡ j) × (m ≡ n)
external_id_injective issue issue m n e =
    (refl, decimal_injective m n (append_cancel_left "issue:" _ _ e))
external_id_injective issue pull_request m n e = absurd (kinds_differ _ _ e)
external_id_injective pull_request issue m n e = absurd (kinds_differ _ _ (sym e))
external_id_injective pull_request pull_request m n e =
    (refl, decimal_injective m n (append_cancel_left "pr:" _ _ e))

github_free : IsBarFree "github"
github_free = omega arith

-- The parts that are hashed for an event of the tenant.
abbrev parts_of : String → NormalizedEvent → Parts
parts_of t ev = record {
  tenant_id = t;
  source = ev.source;
  external_id = ev.external_id;
  version = ev.version;
}

Identifies-IsSeparable :
    (host : Host) (t : String) (k : Kind) (n : ℕ) (v : String) (ev : NormalizedEvent)
    → IsBarFree t
    → Identifies host k n v ev
    → IsSeparable (parts_of t ev)
Identifies-IsSeparable host t k n v ev h i = record {
  tenant_free = h;
  source_free = subst IsBarFree (sym i.source) github_free;
  external_free = subst IsBarFree (sym i.external_id) (external_id_free k n);
}

module _ (host : Host) where
  -- Two numbered records have one idempotency key only if they agree in tenant, kind, number and the
  -- time of their last update. Their repository is no part of the key, so that records of two
  -- repositories may agree in all of these. The tenants' ids hold no "|", which ObjectIds do not, and
  -- the digest has no collisions.
  pub event_key-injective :
      (t u : String) (k j : Kind) (m n : ℕ) (v w : String) (r q : Value) (ev ew : NormalizedEvent)
      → IsCollisionFree host
      → IsBarFree t
      → IsBarFree u
      → IsNumbered host k r m v ev
      → IsNumbered host j q n w ew
      → event_key host t ev ≡ event_key host u ew
      → (t ≡ u) × (k ≡ j) × (m ≡ n) × (v ≡ w)
  event_key-injective t u k j m n v w r q ev ew free ft fu i i' e =
      let a = IsNumbered-Identifies host k r m v ev i in
      let b = IsNumbered-Identifies host j q n w ew i' in
      let same =
        key_of-injective host (parts_of t ev) (parts_of u ew) free
          (Identifies-IsSeparable host t k m v ev ft a)
          (Identifies-IsSeparable host u j n w ew fu b) e in
      let (kinds, numbers) =
        external_id_injective k j m n
          (sym a.external_id ∙ ap (λ p. p.external_id) same ∙ b.external_id) in
      (
        ap (λ p. p.tenant_id) same,
        kinds,
        numbers,
        sym a.version ∙ ap (λ p. p.version) same ∙ b.version,
      )
