-- ===== src/Jobs/EnvelopeLaws.antt =====
-- What is written is read back, and a result that is read is the one that was asked for.
use simple_evolution.Prelude.{
  all, String, Bool, true, false, not, ◌&&◌, ◌≡◌, refl, ap, ◌∙◌, Option, none, some, List, [], ◌∷◌,
  ◌==◌, string_eq, arith, eq_refl,
}
use simple_evolution.Json.{
  Json, Fields, text, object, text_or_null, get_field, is_keyed, are_keyed, has_keys,
}
use simple_evolution.Jobs.Envelope.{
  JsonCodec, Parsed, ok, refused, ◌>>=◌, refuse_if, WorkerRequest, WorkerResult, WorkerStatus,
  completed, failed, as_object, as_text, is_protocol, request_document, parse_request, status_text,
  as_status, usage_items, objects_of, as_usage, as_error, result_document, check_kind,
  check_request, parse_result, Files, atomic_json, loaded, read_text, load, write_request,
  read_request, write_result, read_result,
}

load-atomic_json :
    (json : JsonCodec) (path : String) (fs : Fields) (files : Files json)
    → is_keyed (object fs) ≡ true
    → load json path (atomic_json json path (object fs) files) ≡ ok fs
unfolding load atomic_json read_text loaded as_object
load-atomic_json json path fs files k = ground (arith, eq_refl path, json.loads-dump (object fs) k)

-- A request with a kind, a request id and a result path, whose payload has no key twice, is read
-- back as it was written.
pub read-write_request :
    (json : JsonCodec) (path : String) (r : WorkerRequest) (files : Files json)
    → (r.kind == "") ≡ false
    → (r.request_id == "") ≡ false
    → (r.result_path == "") ≡ false
    → has_keys r.payload ≡ true
    → read_request json path (write_request json path r files) ≡ ok r
unfolding is_keyed has_keys read_request write_request request_document parse_request is_protocol
    as_text as_object
read-write_request json path r files k i p w =
    ap (λ o. o >>= parse_request) (load-atomic_json json path _ files (ground (arith, w)))
    ∙ ground (arith, k, i, p)

objects-usage : (us : List Fields) → objects_of (usage_items us) ≡ ok us
unfolding objects_of usage_items
objects-usage [] = refl
objects-usage (u ∷ us) = ground (arith, objects-usage us)

status-text : (s : WorkerStatus) → as_status (some (text (status_text s))) ≡ ok s
unfolding as_status status_text
status-text completed = refl
status-text failed = refl

error-text : (e : Option String) → as_error (some (text_or_null e)) ≡ ok e
unfolding as_error
error-text none = refl
error-text (some s) = refl

-- The result answers the request, if one is given.
abbrev pub answers : Option WorkerRequest → WorkerResult → Bool
answers none r = true
answers (some q) r = r.kind == q.kind && r.request_id == q.request_id

and_then_all : (a b c : Bool) → (a && b) ≡ true → (b ≡ true → c ≡ true) → (a && c) ≡ true
and_then_all a b c h k = ground (arith, h, k)

keyed-usage : (us : List Fields) → all has_keys us ≡ true → are_keyed (usage_items us) ≡ true
unfolding usage_items are_keyed is_keyed has_keys
keyed-usage [] h = refl
keyed-usage (u ∷ us) h =
    and_then_all (has_keys u) (all has_keys us) (are_keyed (usage_items us)) h (keyed-usage us)

keyed-error : (e : Option String) → is_keyed (text_or_null e) ≡ true
unfolding is_keyed
keyed-error none = refl
keyed-error (some s) = refl

keyed-result :
    (r : WorkerResult)
    → has_keys r.result ≡ true
    → all has_keys r.usage ≡ true
    → has_keys r.execution ≡ true
    → is_keyed (result_document r) ≡ true
unfolding result_document is_keyed has_keys
keyed-result r x y z = ground (arith, x, keyed-usage r.usage y, z, keyed-error r.error)

-- A result with a kind and a request id, whose objects have no key twice, is read back as it was
-- written, whether it is read for no request or for one of the same kind and id.
pub read-write_result :
    (json : JsonCodec) (path : String) (r : WorkerResult) (expected : Option WorkerRequest)
    (files : Files json)
    → (r.kind == "") ≡ false
    → (r.request_id == "") ≡ false
    → has_keys r.result ≡ true
    → all has_keys r.usage ≡ true
    → has_keys r.execution ≡ true
    → answers expected r ≡ true
    → read_result json path expected (write_result json path r files) ≡ ok r
unfolding read_result write_result result_document parse_result is_protocol as_text as_object
    as_usage check_kind check_request
read-write_result json path r none files k i x y z h =
    ap (λ o. o >>= parse_result none) (load-atomic_json json path _ files (keyed-result r x y z))
    ∙ ground (arith, k, i, status-text r.status, objects-usage r.usage, error-text r.error)
read-write_result json path r (some q) files k i x y z h =
    ap (λ o. o >>= parse_result (some q))
      (load-atomic_json json path _ files (keyed-result r x y z))
    ∙ ground (arith, k, i, h, status-text r.status, objects-usage r.usage, error-text r.error)

ok-bind :
    {A B : Type 0} (m : Parsed A) (k : A → Parsed B) (b : B)
    → (m >>= k) ≡ ok b
    → (a : A) × (m ≡ ok a) × (k a ≡ ok b)
ok-bind (ok a) k b h = (a, refl, h)
ok-bind (refused e) k b h = cc

as_text-full : (o : Option Json) (name s : String) → as_text o name ≡ ok s → (s == "") ≡ false
unfolding as_text
as_text-full none name s h = cc
as_text-full (some (text t)) name s h = ground (arith, h)
as_text-full (some other) name s h = ground (arith, h)

checked-answers :
    (expected : Option WorkerRequest) (r : WorkerResult)
    → check_kind expected r.kind ≡ ok tt
    → check_request expected r.request_id ≡ ok tt
    → answers expected r ≡ true
unfolding check_kind check_request
checked-answers none r k i = refl
checked-answers (some q) r k i = ground (arith, k, i)

parse_result-answers :
    (expected : Option WorkerRequest) (raw : Fields) (r : WorkerResult)
    → parse_result expected raw ≡ ok r
    → (answers expected r ≡ true) × ((r.kind == "") ≡ false) × ((r.request_id == "") ≡ false)
unfolding parse_result
parse_result-answers expected raw r h =
    let (_, _, h1) = ok-bind (refuse_if (not (is_protocol (get_field "protocol" raw))) _) _ r h in
    let (kind, k, h2) = ok-bind (as_text (get_field "kind" raw) "kind") _ r h1 in
    let (request_id, i, h3) = ok-bind (as_text (get_field "request_id" raw) "request_id") _ r h2 in
    let (_, ck, h4) = ok-bind (check_kind expected kind) _ r h3 in
    let (_, ci, h5) = ok-bind (check_request expected request_id) _ r h4 in
    let (_, _, h6) = ok-bind (as_status (get_field "status" raw)) _ r h5 in
    let (_, _, h7) = ok-bind (as_usage (get_field "usage" raw)) _ r h6 in
    let (_, _, h8) = ok-bind (as_error (get_field "error" raw)) _ r h7 in
    let (_, _, h9) = ok-bind (as_object (get_field "result" raw) "result") _ r h8 in
    let (_, _, h10) = ok-bind (as_object (get_field "execution" raw) "execution") _ r h9 in
    let same_kind : r.kind ≡ kind = ground (arith, h10) in
    let same_id : r.request_id ≡ request_id = ground (arith, h10) in
    (
      checked-answers expected r (ground (arith, ck, same_kind)) (ground (arith, ci, same_id)),
      ground (arith, same_kind, as_text-full (get_field "kind" raw) "kind" kind k),
      ground (arith, same_id, as_text-full (get_field "request_id" raw) "request_id" request_id i),
    )

-- A result that is read has a kind and a request id, which are those of the request, if one is given.
pub read_result-answers :
    (json : JsonCodec) (path : String) (expected : Option WorkerRequest) (files : Files json)
    (r : WorkerResult)
    → read_result json path expected files ≡ ok r
    → (answers expected r ≡ true) × ((r.kind == "") ≡ false) × ((r.request_id == "") ≡ false)
unfolding read_result
read_result-answers json path expected files r h =
    let (raw, _, parsed) = ok-bind (load json path files) (parse_result expected) r h in
    parse_result-answers expected raw r parsed
