-- ===== src/Jobs/Envelope.antt =====
-- Requests and results as files. The json module is a parameter, and the files a function from
-- paths to what they hold.
use simple_evolution.Prelude.{
  String, Bool, true, false, not, Option, none, some, List, [], ◌∷◌, ◌==◌, string_eq, ◌≡◌,
  if◌then◌else◌,
}
use simple_evolution.Json.{
  Json, Items, nil, cons, Fields, end, field, null, text, array, object, get_field, text_or_null,
  is_keyed,
}

-- json.dump and json.loads: what was dumped is loaded as it was, when no object has a key twice.
pub record JsonCodec : Type 1 where
  pub Text : Type 0
  pub dump : Json → Text
  pub loads : Text → Option Json
  pub loads-dump : (x : Json) → is_keyed x ≡ true → loads (dump x) ≡ some x

pub data ProtocolError : Type 0 where
  unreadable : String → ProtocolError
  not_an_object not_a_text : String → ProtocolError
  unsupported_protocol : ProtocolError
  wrong_kind wrong_request : String → ProtocolError
  invalid_status invalid_usage invalid_error : ProtocolError

pub data Parsed (A : Type 0) : Type 0 where
  ok : A → Parsed A
  refused : ProtocolError → Parsed A

infixl 5 ◌>>=◌ ◌>>◌
abbrev pub ◌>>=◌ : {A B : Type 0} → Parsed A → (A → Parsed B) → Parsed B
◌>>=◌ (ok a) k = k a
◌>>=◌ (refused e) k = refused e

abbrev pub ◌>>◌ : {B : Type 0} → Parsed (Unit {0}) → Parsed B → Parsed B
m >> k = m >>= λ _. k

abbrev pub refuse_if : Bool → ProtocolError → Parsed (Unit {0})
refuse_if true e = refused e
refuse_if false e = ok tt

pub data WorkerStatus : Type 0 where
  completed failed : WorkerStatus

pub record WorkerRequest : Type 0 where
  pub kind : String
  pub request_id : String
  pub payload : Fields
  pub result_path : String

pub record WorkerResult : Type 0 where
  pub kind : String
  pub request_id : String
  pub status : WorkerStatus
  pub result : Fields
  pub usage : List Fields
  pub error : Option String
  pub execution : Fields

abbrev pub protocol : String
protocol = "simpleevo.worker.v1"

-- _object
unfoldable pub as_object : Option Json → String → Parsed Fields
as_object (some (object fs)) name = ok fs
as_object _ name = refused (not_an_object name)

-- _text
unfoldable pub as_text : Option Json → String → Parsed String
as_text (some (text s)) name = if s == "" then refused (not_a_text name) else ok s
as_text _ name = refused (not_a_text name)

-- raw.get("protocol") != PROTOCOL
unfoldable pub is_protocol : Option Json → Bool
is_protocol (some (text s)) = s == protocol
is_protocol _ = false

unfoldable pub request_document : WorkerRequest → Json
request_document r = object (
    field "protocol" (text protocol) (
      field "kind" (text r.kind) (
        field "request_id" (text r.request_id)
          (field "payload" (object r.payload) (field "result_path" (text r.result_path) end)))))

unfoldable pub parse_request : Fields → Parsed WorkerRequest
unfolding is_protocol as_text as_object
parse_request raw = do
  refuse_if (not (is_protocol (get_field "protocol" raw))) unsupported_protocol
  kind ← as_text (get_field "kind" raw) "kind"
  request_id ← as_text (get_field "request_id" raw) "request_id"
  payload ← as_object (get_field "payload" raw) "payload"
  result_path ← as_text (get_field "result_path" raw) "result_path"
  ok (record { kind = kind; request_id = request_id; payload = payload; result_path = result_path })

unfoldable pub status_text : WorkerStatus → String
status_text completed = "completed"
status_text failed = "failed"

unfoldable pub as_status : Option Json → Parsed WorkerStatus
as_status (some (text s)) =
    if s == "completed"
    then ok completed
    else if s == "failed"
    then ok failed
    else refused invalid_status
as_status _ = refused invalid_status

unfoldable pub usage_items : List Fields → Items
usage_items [] = nil
usage_items (fs ∷ us) = cons (object fs) (usage_items us)

unfoldable pub objects_of : Items → Parsed (List Fields)
objects_of nil = ok []
objects_of (cons (object fs) xs) = do us ← objects_of xs; ok (fs ∷ us)
objects_of (cons _ xs) = refused invalid_usage

-- A missing usage is the empty list.
unfoldable pub as_usage : Option Json → Parsed (List Fields)
unfolding objects_of
as_usage none = ok []
as_usage (some null) = ok []
as_usage (some (array xs)) = objects_of xs
as_usage (some _) = refused invalid_usage

unfoldable pub as_error : Option Json → Parsed (Option String)
as_error none = ok none
as_error (some null) = ok none
as_error (some (text s)) = ok (some s)
as_error (some _) = refused invalid_error

unfoldable pub result_document : WorkerResult → Json
unfolding status_text usage_items
result_document r = object (
    field "protocol" (text protocol) (
      field "kind" (text r.kind) (
        field "request_id" (text r.request_id) (
          field "status" (text (status_text r.status)) (
            field "result" (object r.result) (
              field "usage" (array (usage_items r.usage)) (
                field "error" (text_or_null r.error)
                  (field "execution" (object r.execution) end))))))))

unfoldable pub check_kind : Option WorkerRequest → String → Parsed (Unit {0})
check_kind none kind = ok tt
check_kind (some q) kind = refuse_if (not (kind == q.kind)) (wrong_kind kind)

unfoldable pub check_request : Option WorkerRequest → String → Parsed (Unit {0})
check_request none i = ok tt
check_request (some q) i = refuse_if (not (i == q.request_id)) (wrong_request i)

unfoldable pub parse_result : Option WorkerRequest → Fields → Parsed WorkerResult
unfolding is_protocol as_text as_object as_status as_usage as_error check_kind check_request
parse_result expected raw = do
  refuse_if (not (is_protocol (get_field "protocol" raw))) unsupported_protocol
  kind ← as_text (get_field "kind" raw) "kind"
  request_id ← as_text (get_field "request_id" raw) "request_id"
  check_kind expected kind
  check_request expected request_id
  status ← as_status (get_field "status" raw)
  usage ← as_usage (get_field "usage" raw)
  error ← as_error (get_field "error" raw)
  result ← as_object (get_field "result" raw) "result"
  execution ← as_object (get_field "execution" raw) "execution"
  ok (record {
    kind = kind;
    request_id = request_id;
    status = status;
    result = result;
    usage = usage;
    error = error;
    execution = execution;
  })

module _ (json : JsonCodec) where
  open json use {Text, dump, loads}

  -- What a path holds, if there is a file.
  abbrev pub Files : Type 0
  Files = String → Option Text

  -- _atomic_json
  unfoldable pub atomic_json : String → Json → Files → Files
  atomic_json path document files p = if p == path then some (dump document) else files p

  unfoldable pub loaded : String → Option Json → Parsed Fields
  unfolding as_object
  loaded path none = refused (unreadable path)
  loaded path (some x) = as_object (some x) "document"

  unfoldable pub read_text : Option Text → Option Json
  read_text none = none
  read_text (some t) = loads t

  -- _load
  unfoldable pub load : String → Files → Parsed Fields
  unfolding read_text loaded
  load path files = loaded path (read_text (files path))

  unfoldable pub write_request : String → WorkerRequest → Files → Files
  unfolding request_document atomic_json
  write_request path r = atomic_json path (request_document r)

  unfoldable pub read_request : String → Files → Parsed WorkerRequest
  unfolding load parse_request
  read_request path files = load path files >>= parse_request

  unfoldable pub write_result : String → WorkerResult → Files → Files
  unfolding result_document atomic_json
  write_result path r = atomic_json path (result_document r)

  unfoldable pub read_result : String → Option WorkerRequest → Files → Parsed WorkerResult
  unfolding load parse_result
  read_result path expected files = load path files >>= parse_result expected
