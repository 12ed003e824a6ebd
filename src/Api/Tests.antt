-- ===== src/Api/Tests.antt =====
-- Runs of the API.
use mailgate.Api.{Request, messages, message_summary}
use mailgate.Api.Approved.{
  ShowsApproved, messages-ShowsApproved, has_approved_id, message_summary-ShowsApproved,
}
use mailgate.Api.Authorize.{recent_reads, orm_authorize, sql_authorize, token_required}
use mailgate.Api.Grants.{IsAnswer, token_required-IsAnswer, sql_authorize-eq-orm_authorize}
use mailgate.Api.RateLimit.{IsLimited, run_requests, run_requests-IsLimited}
use mailgate.Common.{any, Text, codes, ◌≡◌, refl, ◌↔◌, true, false, none, some, [], ◌∷◌, arith}
use mailgate.Samples.{ascii, sample_hash, sample_database}

abbrev list_request : Request
list_request = record {
  method = codes "GET";
  authorization = codes "Bearer mg_abcdefghijkl";
  path = codes "/api/v1/messages";
  state = none;
  limit = some (codes "0");
}

abbrev to_sample_hash : Text → Text
to_sample_hash s = sample_hash

messages-ShowsApproved_example :
    ShowsApproved sample_database (messages ascii list_request sample_database).body
messages-ShowsApproved_example = messages-ShowsApproved ascii list_request sample_database

message_summary-ShowsApproved_example :
    ShowsApproved sample_database (message_summary 11 sample_database).body
    × (((message_summary 11 sample_database).status ≡ 404)
        ↔ (any (has_approved_id 11) sample_database.messages ≡ false))
message_summary-ShowsApproved_example = message_summary-ShowsApproved 11 sample_database

-- The quarantined message is not found, the approved one is.
test_summary :
    ((message_summary 12 sample_database).status ≡ 404)
    × ((message_summary 11 sample_database).status ≡ 200)
unfolding message_summary
test_summary = (refl, refl)

run_requests-IsLimited_example : IsLimited 61 (
    run_requests true
      ((60, sample_hash, codes "/a") ∷ (61, sample_hash, codes "/b") ∷ [])
      sample_database)
unfolding recent_reads
run_requests-IsLimited_example =
    run_requests-IsLimited true ((60, sample_hash, codes "/a") ∷ (61, sample_hash, codes "/b") ∷ [])
      0 sample_database (omega arith, (omega arith, tt)) limited
  where
    limited : IsLimited 0 sample_database
    limited = record { reads = λ actor. omega arith; prefixes = (omega arith, tt) }

token_required-IsAnswer_example :
    IsAnswer to_sample_hash 60 list_request (messages ascii list_request) sample_database (
      token_required false to_sample_hash 60 list_request
        (messages ascii list_request)
        sample_database)
token_required-IsAnswer_example =
    token_required-IsAnswer false to_sample_hash 60 list_request (messages ascii list_request)
      sample_database

sql_authorize-eq-orm_authorize_example :
    sql_authorize 60 sample_hash (codes "/a") sample_database
    ≡ orm_authorize 60 sample_hash (codes "/a") sample_database
sql_authorize-eq-orm_authorize_example =
    sql_authorize-eq-orm_authorize 60 sample_hash (codes "/a") sample_database (refl, tt) refl refl
      (omega arith)
