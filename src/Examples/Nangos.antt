-- ===== src/Examples/Nangos.antt =====
-- Polls of Nango and its webhooks at concrete inputs.
use shiplog_prototype.Prelude.{
  ℕ, String, Option, none, some, [], ◌∷◌, ◌≡◌, arith, ◌<◌, ◌==◌, eq_iff, Bool-cases, inl, inr,
  if◌then◌else◌, refl,
}
use shiplog_prototype.Value.{Value, num, str, obj, end, field, Fields}
use shiplog_prototype.Models.{ReconcileJobData}
use shiplog_prototype.Nango.Endless.{IsEndless, reconcile_processor_endless}
use shiplog_prototype.World.{World, done, final}
use shiplog_prototype.Nango.Pages.{NangoClient}
use shiplog_prototype.Nango.Reconcile.{reconcile_params, reconcile_processor, next_page}
use shiplog_prototype.Nango.Checkpoint.{Polls, reconcile_processor-Polls}
use shiplog_prototype.Nango.Finite.{IsFinite, Finishes, reconcile_processor-Finishes}
use shiplog_prototype.Examples.{test_host, test_db, empty_world}

abbrev one_record : Value
one_record = obj (field "id" (num 9) (field "number" (num 7) end))

abbrev pub poll_job : ReconcileJobData
poll_job = record {
  tenant_id = "t";
  connection_id = "2";
  nango_connection_id = some "n";
  provider_config_key = some "github";
  model = "Issue";
}

-- A client with two pages.
abbrev pub two_pages : NangoClient
two_pages = record {
  list_records = λ p w. record {
    records = one_record ∷ [];
    next_cursor = elim p.cursor [ none ↦ some "second" | some c ↦ none ];
  };
}

reconcile_processor-Polls_example :
    Polls test_host test_db two_pages poll_job empty_world
      (final (reconcile_processor test_host test_db two_pages poll_job 2 empty_world))
reconcile_processor-Polls_example =
    reconcile_processor-Polls test_host test_db two_pages poll_job 2 empty_world

abbrev pub pages_left : Option String → ℕ
pages_left none = 1
pages_left (some c) = 0

falls_by_one :
    (token : Option String) (next : String) (w : World)
    → next_page
        (two_pages.list_records
          (reconcile_params test_host test_db two_pages poll_job token)
          w).next_cursor
        token
      ≡ some next
    → pages_left (some next) < pages_left token
unfolding next_page
falls_by_one none next w h = omega arith
falls_by_one (some c) next w h = cc

pub two_pages-IsFinite : IsFinite test_host test_db two_pages poll_job pages_left
two_pages-IsFinite = record { falls = falls_by_one }

pub pages_left-low : (token : Option String) → pages_left token < 2
pages_left-low none = omega arith
pages_left-low (some c) = omega arith

reconcile_processor-Finishes_example :
    Finishes test_host test_db two_pages poll_job
      (reconcile_processor test_host test_db two_pages poll_job 2 empty_world)
reconcile_processor-Finishes_example =
    reconcile_processor-Finishes test_host test_db two_pages poll_job pages_left 2
      two_pages-IsFinite pages_left-low empty_world

abbrev signed : Fields
signed = field "X-Nango-Hmac-Sha256" (str "A1") end

abbrev signing_key : String
signing_key = "key"

-- A client that answers with one record, and with two tokens in turn.
abbrev other_token : Option String → String
other_token none = "a"
other_token (some c) = if c == "a" then "b" else "a"

abbrev ping_pong : NangoClient
ping_pong = record {
  list_records =
      λ p w. record { records = one_record ∷ []; next_cursor = some (other_token p.cursor) };
}

eq_sym : (s t : String) → (s == t) ≡ (t == s)
eq_sym s t = ground (arith, eq_iff s t, eq_iff t s)

other_token-next_page :
    (cursor : Option String)
    → next_page (some (other_token cursor)) cursor ≡ some (other_token cursor)
unfolding next_page
other_token-next_page none = refl
other_token-next_page (some c) = elim (Bool-cases (c == "a")) [
  | inl is_a ↦ rw (is_a, (eq_iff c "a").0 is_a) refl
  | inr other ↦ rw (other, eq_sym "a" c, other) refl
]

ping_pong-IsEndless : IsEndless test_host test_db ping_pong poll_job
ping_pong-IsEndless = record {
  has_records = λ cursor w. (one_record, [], refl);
  has_next = λ cursor w. (other_token cursor, other_token-next_page cursor);
}

reconcile_processor_endless_example :
    (w' : World) × (reconcile_processor test_host test_db ping_pong poll_job 1000 empty_world
      ≡ done none w')
reconcile_processor_endless_example =
    reconcile_processor_endless test_host test_db ping_pong poll_job 1000 empty_world
      ping_pong-IsEndless refl
