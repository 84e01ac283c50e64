-- ===== src/Host.antt =====
-- What the sources call outside the repository, as one record that the model is built over: the
-- digests of node:crypto, the parts of `Date` that the language leaves to the implementation or the
-- time zone, and the checks of zod, mongoose and BullMQ. Nothing is assumed of these functions but that
-- an ObjectId is read back from its text; a theorem that relies on more says so in its hypotheses.
use shiplog_prototype.Value.{Value}
use shiplog_prototype.Prelude.{ℕ, String, Bool, Option, ◌≡◌}

pub record Host : Type 0 where
  -- `createHash('sha256').update(s).digest('hex')`.
  pub sha256_hex : String → String
  -- `createHmac('sha256', key).update(body).digest('hex')`, of a key and a body.
  pub hmac_hex : String → String → String
  -- `Date.prototype.toISOString` of a valid time.
  pub to_iso : ℕ → String
  -- `Date.prototype.toString`.
  pub date_text : Option ℕ → String
  -- `Date.parse`; `none` stands for NaN.
  pub parse_date : String → Option ℕ
  -- The check of `z.url()`, of a text without spaces around it.
  pub is_url : String → Bool
  -- `mongoose.Types.ObjectId.isValid`.
  pub is_object_id : String → Bool
  -- `JSON.parse`; `none` is its SyntaxError.
  pub parse_json : String → Option Value
  -- The test that mongoose makes of a filter's value on a text field, `none` where it throws a
  -- CastError.
  pub filter_text : Value → Option (Option String → Bool)
  -- The text that mongoose stores for a value in a text field, `none` where it throws a CastError.
  pub cast_text : Value → Option String
  -- The text of the n-th ObjectId that the driver makes up.
  pub object_id : ℕ → String
  -- The text of the ObjectId that mongoose makes of a valid id in a filter: 24 hexadecimal digits are
  -- put in lower case, 12 bytes in hexadecimal digits.
  pub to_object_id : String → String
  -- An ObjectId's text is read as that ObjectId.
  pub to_object_id-object_id : (n : ℕ) → to_object_id (object_id n) ≡ object_id n
  -- Whether BullMQ takes a text as the id of a job; it refuses most texts with a colon.
  pub is_job_id : String → Bool
