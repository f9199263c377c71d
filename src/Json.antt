-- ===== src/Json.antt =====
-- The values that json.dumps writes and json.loads reads: the columns, payloads and result
-- documents of the program hold them. A finite number is the integer multiple of 2^-1074 that a
-- binary64 stands for, so that comparing numbers is comparing these integers.
use simple_evolution.Prelude.{
  ℕ, String, Bool, true, not, false, ◌&&◌, is_none, Option, none, some, List, [], ◌∷◌,
  if◌then◌else◌, ◌==◌, string_eq,
}
use simple_evolution.Prelude.Int.{ℤ, pos}

mutual
  pub data Json : Type 0 where
    null : Json
    bool : Bool → Json
    number : ℤ → Json
    nonfinite : Json
    text : String → Json
    array : Items → Json
    object : Fields → Json

  pub data Items : Type 0 where
    nil : Items
    cons : Json → Items → Items

  pub data Fields : Type 0 where
    end : Fields
    field : String → Json → Fields → Fields

-- A dict with text keys.
abbrev pub Dict : Type 0
Dict = List (String × Json)

abbrev pub fields : Dict → Fields
fields [] = end
fields ((k, v) ∷ d) = field k v (fields d)

abbrev pub items : List Json → Items
items [] = nil
items (x ∷ xs) = cons x (items xs)

abbrev pub dict : Dict → Json
dict d = object (fields d)

abbrev pub list : List Json → Json
list xs = array (items xs)

abbrev pub texts : List String → Json
texts [] = array nil
texts (s ∷ ss) = elim (texts ss) [ array xs ↦ array (cons (text s) xs) | other ↦ other ]

abbrev pub text_or_null : Option String → Json
text_or_null none = null
text_or_null (some s) = text s

abbrev pub bool_or_null : Option Bool → Json
bool_or_null none = null
bool_or_null (some b) = bool b

abbrev pub dict_or_null : Option Dict → Json
dict_or_null none = null
dict_or_null (some d) = dict d

abbrev pub lookup {ℓ} : {A : Type ℓ} → String → List (String × A) → Option A
lookup k [] = none
lookup k ((j, v) ∷ d) = if j == k then some v else lookup k d

-- `value == s`, for a value that may be absent.
abbrev pub is_text : String → Option Json → Bool
is_text s (some (text t)) = t == s
is_text s (some other) = false
is_text s none = false

-- entry[k] = v: a new key goes to the end.
abbrev pub put_field : String → Json → Fields → Fields
put_field k v end = field k v end
put_field k v (field j w fs) = if j == k then field j v fs else field j w (put_field k v fs)

abbrev pub get_field : String → Fields → Option Json
get_field k end = none
get_field k (field j w fs) = if j == k then some w else get_field k fs

-- bool(value)
abbrev pub truthy : Json → Bool
truthy null = false
truthy (bool b) = b
truthy (number (pos ℕ.zero)) = false
truthy (number n) = true
truthy nonfinite = true
truthy (text s) = not (s == "")
truthy (array nil) = false
truthy (array (cons x xs)) = true
truthy (object end) = false
truthy (object (field k v fs)) = true

-- No object has a key twice, as in every value that Python builds.
unfoldable mutual
  pub is_keyed : Json → Bool
  is_keyed (array xs) = are_keyed xs
  is_keyed (object fs) = has_keys fs
  is_keyed _ = true

  pub are_keyed : Items → Bool
  are_keyed nil = true
  are_keyed (cons x xs) = is_keyed x && are_keyed xs

  pub has_keys : Fields → Bool
  has_keys end = true
  has_keys (field k v fs) = is_none (get_field k fs) && (is_keyed v && has_keys fs)
