-- ===== src/Examples/Hashing.antt =====
-- Keys and hashes at concrete inputs.
use Prim.Native.Char.{code}
use Prim.Native.String.{[], ◌∷◌}
use shiplog_prototype.Prelude.{
  ℕ, String, Bool, true, not, ◌&&◌, some, ◌≡◌, ◌≢◌, refl, arith, nat_eq, eq_iff,
}
use shiplog_prototype.Text.{append, decimal, trim}
use shiplog_prototype.Value.{Value, num, str, date, obj, end, field, get, js_string}
use shiplog_prototype.Models.{issue}
use shiplog_prototype.Schema.{NormalizedEvent, parse_event, new_date}
use shiplog_prototype.Hash.{content_hash}
use shiplog_prototype.Hash.Keys.{
  IsCollisionFree, IsBarFree, Parts, IsSeparable, key_of, key_of-injective, key_of_shifted,
}
use shiplog_prototype.Hash.Canonical.{
  Same, in_obj, iso, fields, swap, chain, no_fields, content_hash-Same,
}
use shiplog_prototype.Normalize.{normalize_github}
use shiplog_prototype.Normalize.Laws.{Kind, IsNumbered, event_key-injective}
use shiplog_prototype.Examples.{test_host}

test_host-IsCollisionFree : IsCollisionFree test_host
test_host-IsCollisionFree s t e = e

abbrev no_bar : String → Bool
no_bar [] = true
no_bar (c ∷ s) = not (nat_eq (code c) 124) && no_bar s

no_bar-IsBarFree : (s : String) → no_bar s ≡ true → IsBarFree s
no_bar-IsBarFree [] h = tt
no_bar-IsBarFree (c ∷ s) h = (λ e. ground arith, no_bar-IsBarFree s (ground arith))

abbrev issue_parts : Parts
issue_parts = record {
  tenant_id = "t";
  source = "github";
  external_id = "issue:7";
  version = "a|b";
}

issue_parts-IsSeparable : IsSeparable issue_parts
issue_parts-IsSeparable = record {
  tenant_free = no_bar-IsBarFree "t" refl;
  source_free = no_bar-IsBarFree "github" refl;
  external_free = no_bar-IsBarFree "issue:7" refl;
}

key_of-injective_example : issue_parts ≡ issue_parts
key_of-injective_example =
    key_of-injective test_host issue_parts issue_parts test_host-IsCollisionFree
      issue_parts-IsSeparable issue_parts-IsSeparable refl

key_of_shifted_example :
    key_of test_host (record {
      tenant_id = "t";
      source = append "git" (append "|" "hub");
      external_id = "7";
      version = "v";
    })
    ≡ key_of test_host (record {
      tenant_id = "t";
      source = "git";
      external_id = append "hub" (append "|" "7");
      version = "v";
    })
key_of_shifted_example = key_of_shifted test_host "t" "git" "hub" "7" "v"

abbrev dated : Value
dated = obj (field "a" (date (some 4)) (field "b" (num 1) end))

-- The same with the keys exchanged and the time as a text.
abbrev texted : Value
texted = obj (field "b" (num 1) (field "a" (str (decimal 4)) end))

differ : ◌≢◌ {A = String} "a" "b"
differ e = let k = (eq_iff "a" "b").1 e in cc

dated-Same : Same test_host dated texted
dated-Same = in_obj (chain (fields iso (fields Same.same no_fields)) (swap differ))

content_hash-Same_example : content_hash test_host dated ≡ content_hash test_host texted
content_hash-Same_example = content_hash-Same test_host dated-Same

-- A record of an issue, with a title.
abbrev issue_record : String → Value
issue_record title = obj (
    field "number" (num 7) (
      field "title" (str title) (
        field "user_login" (str "ada") (
          field "html_url" (str "https://example.com/7") (
            field "created_at" (str "now") (
              field "updated_at" (str "v1")
                (field "_nango_metadata" (obj (field "model" (str "Issue") end)) end)))))))

abbrev titled : String → NormalizedEvent
titled title = record {
  source = "github";
  type = issue;
  external_id = "issue:7";
  actor = "ada";
  title = title;
  url = "https://example.com/7";
  occurred_at = 5;
  version = "v1";
}

issue_record-IsNumbered :
    (title : String) → IsNumbered test_host Kind.issue (issue_record title) 7 "v1" (titled title)
unfolding get normalize_github parse_event new_date js_string decimal trim
issue_record-IsNumbered title = record {
  model = refl;
  number = refl;
  token = refl;
  input = _;
  normalized = refl;
  parsed = refl;
}

event_key-injective_example :
    (◌≡◌ {A = String} "t" "t")
    × (Kind.issue ≡ Kind.issue)
    × (◌≡◌ {A = ℕ} 7 7)
    × (◌≡◌ {A = String} "v1" "v1")
event_key-injective_example =
    event_key-injective test_host "t" "t" Kind.issue Kind.issue 7 7 "v1" "v1" (issue_record "crash")
      (issue_record "crashes") (titled "crash") (titled "crashes") test_host-IsCollisionFree
      (no_bar-IsBarFree "t" refl) (no_bar-IsBarFree "t" refl) (issue_record-IsNumbered "crash")
      (issue_record-IsNumbered "crashes") refl
