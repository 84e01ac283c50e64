-- ===== src/Value.antt =====
-- Dynamic JavaScript values: what `unknown`, `any` and parsed JSON range over in the sources.
-- Numbers are natural numbers and a time is a number of milliseconds since 1970, `none` for an
-- invalid date. An object is the list of its entries in enumeration order.
use shiplog_prototype.Prelude.{
  ℕ, String, Bool, true, false, Option, none, some, List, [], ◌∷◌, ◌==◌, if◌then◌else◌, nat_eq,
}
use shiplog_prototype.Text.{decimal, join}

mutual
  pub data Value : Type 0 where
    undefined : Value
    null : Value
    bool : Bool → Value
    num : ℕ → Value
    str : String → Value
    date : Option ℕ → Value
    arr : Items → Value
    obj : Fields → Value

  pub data Items : Type 0 where
    nil : Items
    item : Value → Items → Items

  pub data Fields : Type 0 where
    end : Fields
    field : String → Value → Fields → Fields

-- A property of an object: the entry under its key, `undefined` where there is none.
pub find_field : String → Fields → Value
find_field k end = undefined
find_field k (field j v fs) = if j == k then v else find_field k fs

-- `v?.k`, and `v.k` for a `v` that is known to be an object.
unfoldable pub get : String → Value → Value
unfolding find_field
get k (obj fs) = find_field k fs
get k _ = undefined

-- `o[k] = v`: an entry keeps its place, a new one goes to the end.
pub put_field : String → Value → Fields → Fields
put_field k v end = field k v end
put_field k v (field j w fs) = if j == k then field j v fs else field j w (put_field k v fs)

-- `{ ...o, k: v }` of an object; the interfaces let nothing but an object be spread, and any other
-- value counts as an empty one.
unfoldable pub put : String → Value → Value → Value
unfolding put_field
put k v (obj fs) = obj (put_field k v fs)
put k v _ = obj (field k v end)

-- `a ?? b`.
abbrev pub or_else : Value → Value → Value
or_else undefined b = b
or_else null b = b
or_else a b = a

-- An optional text as a value.
abbrev pub or_undefined : Option String → Value
or_undefined none = undefined
or_undefined (some s) = str s

-- Whether a value counts as true in a test.
abbrev pub truthy : Value → Bool
truthy undefined = false
truthy null = false
truthy (bool b) = b
truthy (num n) = if nat_eq n 0 then false else true
truthy (str s) = if s == "" then false else true
truthy v = true

-- `v === 'text'`.
abbrev pub is_text : Value → String → Bool
is_text (str s) t = s == t
is_text _ t = false

abbrev unless_nullish : Value → String → String
unless_nullish undefined s = ""
unless_nullish null s = ""
unless_nullish v s = s

-- `String(v)`. How a date prints depends on the time zone, so `date_text` is an argument. An array
-- prints as its elements joined by commas, the nullish ones as nothing.
module _ (date_text : Option ℕ → String) where
  unfoldable mutual
    pub js_string : Value → String
    js_string undefined = "undefined"
    js_string null = "null"
    js_string (bool true) = "true"
    js_string (bool false) = "false"
    js_string (num n) = decimal n
    js_string (str s) = s
    js_string (date t) = date_text t
    js_string (arr vs) = join "," (item_strings vs)
    js_string (obj fs) = "[object Object]"

    pub item_strings : Items → List String
    item_strings nil = []
    item_strings (item v vs) = unless_nullish v (js_string v) ∷ item_strings vs
