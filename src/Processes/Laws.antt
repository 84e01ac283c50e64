-- ===== src/Processes/Laws.antt =====
-- How the processes of src/server.ts and src/worker.ts start, and what their configuration rules out.
use shiplog_prototype.Prelude.{
  ◌==◌, ℕ, String, true, Option, ◌≡◌, refl, ◌⊎◌, inl, inr, ap, ◌∙◌, none, some, Bool-cases,
}
use shiplog_prototype.Nango.Verify.{verify_nango_signature}
use shiplog_prototype.Nango.Verify.Signature.{verify_nango_signature_iff}
use shiplog_prototype.Value.{Fields}
use shiplog_prototype.Host.{Host}
use shiplog_prototype.Errors.{Thrown}
use shiplog_prototype.Backoff.{Fraction}
use shiplog_prototype.World.{
  World, Database, M, Run, done, fail, ◌>>=◌, lift, Result, ok, err, return, catch, execute, both,
  after_fault,
}
use shiplog_prototype.World.Laws.{execute-cases}
use shiplog_prototype.Nango.Pages.{NangoClient}
use shiplog_prototype.Api.{refuse}
use shiplog_prototype.Api.Webhook.{webhook_route}
use shiplog_prototype.Config.{
  Platform, RedisOptions, decoded, redis_connection_options, Env, Config, config_of, absent,
  text_or,
}
use shiplog_prototype.Processes.{
  Start, running, exited, starting, Application, Workers, application, workers, server_main,
  worker_main,
}
use shiplog_prototype.Scripts.{connect_db}

-- Nothing but the schedule of faults has changed.
abbrev pub SameData : World → World → Type 0
SameData w v = v ≡ record w { faults = v.faults }

-- A program that changes no data, and returns such a value or throws.
abbrev Quiet : {A : Type 0} → M A → (A → Type 0) → Type 0
Quiet {A} m P =
    (w : World)
    → (v : World) × SameData w v
      × (((a : A) × P a × (m w ≡ done a v)) ⊎ ((e : Thrown) × (m w ≡ fail e v)))

abbrev Anything : {A : Type 0} → A → Type 0
Anything a = Unit {0}

with_faults : World → World → World
with_faults v w = record v { faults = w.faults }

SameData-trans : (u v w : World) → SameData u v → SameData v w → SameData u w
unfolding with_faults
SameData-trans u v w p q = q ∙ ap (λ z. with_faults z w) p

execute_id-Quiet : Quiet (execute (λ u. u)) Anything
execute_id-Quiet w = elim (execute-cases (λ u. u) w) [
  | inl e ↦ (after_fault w, refl, inl (tt, tt, e))
  | inr (inl (t, e)) ↦ (after_fault w, refl, inr (t, e))
  | inr (inr (t, e)) ↦ (after_fault w, refl, inr (t, e))
]

return-Quiet : {A : Type 0} (P : A → Type 0) (a : A) → P a → Quiet (return a) P
return-Quiet P a p w = (w, refl, inl (a, p, refl))

lift-Quiet : {A : Type 0} (r : Result A) → Quiet (lift r) Anything
lift-Quiet (ok a) w = (w, refl, inl (a, tt, refl))
lift-Quiet (err e) w = (w, refl, inr (e, refl))

>>=-Quiet :
    {A B : Type 0} (m : M A) (f : A → M B) (P : A → Type 0) (Q : B → Type 0)
    → Quiet m P
    → ((a : A) → P a → Quiet (f a) Q)
    → Quiet (m >>= f) Q
>>=-Quiet m f P Q p q w =
    let (v, same, first) = p w in
    elim first [
      | inr (t, e) ↦ (v, same, inr (t, rw (◌>>=◌, e) refl))
      | inl (a, h, e) ↦
          let (u, same_too, second) = q a h v in
          let all_same = SameData-trans w v u same same_too in
          elim second [
            | inl (b, k, g) ↦ (u, all_same, inl (b, k, rw (◌>>=◌, e) g))
            | inr (t, g) ↦ (u, all_same, inr (t, rw (◌>>=◌, e) g))
          ]
    ]

both-Quiet : (m n : M (Unit {0})) → Quiet m Anything → Quiet n Anything → Quiet (both m n) Anything
both-Quiet m n p q w =
    let (v, same, first) = p w in
    let (u, same_too, second) = q v in
    let all_same = SameData-trans w v u same same_too in
    elim first [
      | inl (a, h, e) ↦ elim second [
        | inl (b, k, g) ↦ (u, all_same, inl (b, k, rw (both, e) g))
        | inr (t, g) ↦ (u, all_same, inr (t, rw (both, e) g))
      ]
      | inr (t, e) ↦ elim second [
        | inl (b, k, g) ↦ (u, all_same, inr (t, rw (both, e, g) refl))
        | inr (s, g) ↦ (u, all_same, inr (t, rw (both, e, g) refl))
      ]
    ]

decoded-Quiet : (platform : Platform) (s : String) → Quiet (decoded platform s) Anything
decoded-Quiet platform s = elim (Bool-cases (s == "")) [
  | inl e ↦ rw (e) (return-Quiet Anything none tt)
  | inr e ↦ rw (e) (
      >>=-Quiet (lift (platform.decode_uri_component s)) _ Anything Anything (lift-Quiet _)
        (λ t _. return-Quiet Anything (some t) tt))
]

redis_connection_options-Quiet :
    (platform : Platform) (c : Config) → Quiet (redis_connection_options platform c) Anything
unfolding redis_connection_options
redis_connection_options-Quiet platform c =
    >>=-Quiet _ _ Anything Anything (lift-Quiet (platform.parse_url c.redis_url)) λ url _.
      >>=-Quiet _ _ Anything Anything (decoded-Quiet platform url.username) λ s _.
        >>=-Quiet _ _ Anything Anything (decoded-Quiet platform url.password)
          λ t _. return-Quiet Anything _ tt

-- A process runs as it should, or has exited with code 1; either way it has changed no data.
abbrev pub Starts : {A : Type 0} → (A → Type 0) → World → Run (Start A) → Type 0
Starts {A} P w r =
    (v : World) × SameData w v
    × (((a : A) × P a × (r ≡ done (running a) v)) ⊎ (r ≡ done (exited 1) v))

starting-Starts :
    {A : Type 0} (m : M A) (P : A → Type 0) → Quiet m P → (w : World) → Starts P w (starting m w)
starting-Starts m P p w =
    let (v, same, ends) = p w in
    elim ends [
      | inl (a, h, e) ↦ (v, same, inl (a, h, rw (catch, ◌>>=◌, e) refl))
      | inr (t, e) ↦ (v, same, inr (rw (catch, ◌>>=◌, e) refl))
    ]

module _ (host : Host) (db : Database) (platform : Platform) (c : Config) where
  -- The application at some connection.
  abbrev pub IsApplication : Application → Type 0
  IsApplication a = (o : RedisOptions) × (a ≡ application host db platform c o)

  -- However the calls of its start end, the API serves the application, or has exited.
  pub server_main-Starts : (w : World) → Starts IsApplication w (server_main host db platform c w)
  unfolding server_main connect_db
  server_main-Starts w =
      starting-Starts _ IsApplication
        (>>=-Quiet _ _ Anything IsApplication execute_id-Quiet λ a _.
          >>=-Quiet _ _ Anything IsApplication (redis_connection_options-Quiet platform c)
            λ o _. return-Quiet IsApplication _ (o, refl))
        w

  module _ (sdk : String → String → NangoClient) (random : ℕ → Fraction) (fuel : ℕ) where
    abbrev pub IsWorkers : Workers → Type 0
    IsWorkers a = (o : RedisOptions) × (a ≡ workers host db platform c sdk random fuel o)

    -- So does the worker with its three workers.
    pub worker_main-Starts :
        (w : World) → Starts IsWorkers w (worker_main host db platform c sdk random fuel w)
    unfolding worker_main connect_db
    worker_main-Starts w =
        let ready =
          both-Quiet _ _ execute_id-Quiet (both-Quiet _ _ execute_id-Quiet execute_id-Quiet) in
        starting-Starts _ IsWorkers
          (>>=-Quiet _ _ Anything IsWorkers execute_id-Quiet λ a _.
            >>=-Quiet _ _ Anything IsWorkers (redis_connection_options-Quiet platform c) λ o _.
              >>=-Quiet _ _ Anything IsWorkers ready λ b _.
                >>=-Quiet _ _ Anything IsWorkers execute_id-Quiet
                  λ d _. return-Quiet IsWorkers _ (o, refl))
          w

keyless : (s : Option String) → absent s ≡ true → text_or s "" ≡ ""
keyless none h = refl
keyless (some s) h = rw h

-- Without a signing key in its environment the API accepts no webhook: each is answered by 401, and
-- nothing is written.
pub webhook-keyless :
    (host : Host) (db : Database) (platform : Platform) (env : Env) (o : RedisOptions)
    (body : String) (headers : Fields) (w : World)
    → absent (env "NANGO_WEBHOOK_SECRET") ≡ true
    → (application host db platform (config_of platform env) o).webhook body headers w
      ≡ done (refuse 401 "Invalid signature") w
unfolding config_of webhook_route
webhook-keyless host db platform env o body headers w h =
    let key = keyless (env "NANGO_WEBHOOK_SECRET") h in
    elim (Bool-cases (verify_nango_signature host (some body) headers "")) [
      | inl e ↦ absurd (((verify_nango_signature_iff host (some body) headers "").0 e).0 refl)
      | inr e ↦ rw (key, e) refl
    ]
