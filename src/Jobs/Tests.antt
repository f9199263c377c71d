-- ===== src/Jobs/Tests.antt =====
-- A request and its result, in files that hold JSON values as they are.
use simple_evolution.Prelude.{◌≡◌, refl, none, some, [], ◌∷◌, string_eq}
use simple_evolution.Prelude.Int.{pos}
use simple_evolution.Json.{Json, end, field, text, number, has_keys}
use simple_evolution.Jobs.Envelope.{
  JsonCodec, ok, refused, WorkerRequest, WorkerResult, completed, Files, read_request,
  write_request, read_result, write_result, wrong_request, parse_result, load, loaded, read_text,
  atomic_json, result_document, is_protocol, as_text, as_object, check_kind, check_request,
}
use simple_evolution.Jobs.EnvelopeLaws.{read-write_request, read-write_result}

abbrev plain : JsonCodec
plain = record { Text = Json; dump = λ x. x; loads = λ x. some x; loads-dump = λ x k. refl }

abbrev no_files : Files plain
no_files p = none

abbrev request : WorkerRequest
request = record {
  kind = "proposer";
  request_id = "a1";
  payload = field "slots" (number (pos 1)) end;
  result_path = "run/a1/result.json";
}

abbrev result : WorkerResult
result = record {
  kind = "proposer";
  request_id = "a1";
  status = completed;
  result = field "conclusion" (text "deliver") end;
  usage = field "tokens" (number (pos 9)) end ∷ [];
  error = none;
  execution = end;
}

read-write_request_example :
    read_request plain "request.json" (write_request plain "request.json" request no_files)
    ≡ ok request
unfolding has_keys
read-write_request_example =
    read-write_request plain "request.json" request no_files refl refl refl refl

read-write_result_example :
    read_result plain "result.json"
      (some request)
      (write_result plain "result.json" result no_files)
    ≡ ok result
unfolding has_keys
read-write_result_example =
    read-write_result plain "result.json" result (some request) no_files refl refl refl refl refl
      refl

-- The result of another lease.
stray_refused :
    read_result plain "result.json"
      (some (record request { request_id = "a2" }))
      (write_result plain "result.json" result no_files)
    ≡ refused (wrong_request "a1")
unfolding read_result write_result parse_result load loaded read_text atomic_json result_document
    is_protocol as_text as_object check_kind check_request
stray_refused = refl
