-- ===== src/Llm/Retry/Tests.antt =====
-- A service that is overloaded once and then answers. Its state is the number of the requests that it
-- has had, with the number of reservations that are pending.
use kokoro_koe.Prelude.{ℕ, zero, ◌+◌, ◌≡◌, refl, [], some, true}
use kokoro_koe.Llm.Retry.{
  Service, Answer, completed, failed, returned, released, complete_with_retry, attempts, answered,
  go_on, should_retry,
}
use kokoro_koe.Llm.Retry.Sent.{Clears, Sent, watched, complete_with_retry-Sent}

abbrev answer : ℕ → Answer ℕ
answer zero = failed (record {
  code = "completion_provider_overloaded";
  reservation = released;
  retry_after = some 40;
})
answer _ = completed 7

abbrev service : Service (ℕ × ℕ) ℕ
service = record {
  stream_completion = λ w id. ((w.0 + 1, w.1), answer w.0);
  wait = λ w duration. (w, true);
  next_request_id = λ w. (w, 500 + w.0);
}

abbrev NothingPending : ℕ × ℕ → Type 0
NothingPending w = w.1 ≡ 0

service-Clears : Clears service NothingPending
service-Clears = record {
  after_answer = λ w id c s. c;
  after_wait = λ w duration c. c;
  after_id = λ w c. c;
}

second_attempt : complete_with_retry service (0, 0) 9 ≡ ((2, 0), returned 7 2)
unfolding complete_with_retry attempts answered go_on should_retry
second_attempt = refl

complete_with_retry-Sent_example :
    Sent NothingPending (0, 0) 9 [] (complete_with_retry (watched service) ((0, 0), []) 9)
complete_with_retry-Sent_example =
    complete_with_retry-Sent NothingPending service (0, 0) 9 service-Clears refl
