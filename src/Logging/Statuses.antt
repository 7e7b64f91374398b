-- ===== src/Logging/Statuses.antt =====
-- The status in the log, and the status that the client gets.
use spongix.Base.{ℕ, Bytes, List, [], ◌∷◌, ◌++◌, none, some, codes, ◌≡◌, refl, sym, ap, ◌∙◌}
use spongix.Strings.{equal}
use spongix.Http.{Headers, Response, status_of, fresh, set_header, write_header, write_body}
use spongix.Logging.{
  Call, sets, sends, writes, run, LogRecord, recorded, run_recorded, request_line, response_line,
  with_http_logging,
}

-- No call of `WriteHeader`.
abbrev pub NoStatus : List Call → Type 0
NoStatus [] = Unit
NoStatus (sends status ∷ calls) = ⊥
NoStatus (sets k v ∷ calls) = NoStatus calls
NoStatus (writes bytes ∷ calls) = NoStatus calls

-- `WriteHeader` is called once at most, and not after a `Write`.
abbrev pub SendsOnce : List Call → Type 0
SendsOnce [] = Unit
SendsOnce (sets k v ∷ calls) = SendsOnce calls
SendsOnce (sends status ∷ calls) = NoStatus calls
SendsOnce (writes bytes ∷ calls) = NoStatus calls

-- The record changes nothing that the client gets.
run_recorded-run :
    (calls : List Call) (r : LogRecord)
    → (run_recorded calls r).response_writer ≡ run calls r.response_writer
unfolding run_recorded run recorded
run_recorded-run [] r = refl
run_recorded-run (sends status ∷ calls) r = run_recorded-run calls (recorded (sends status) r)
run_recorded-run (writes bytes ∷ calls) r = run_recorded-run calls (recorded (writes bytes) r)
run_recorded-run (sets k v ∷ calls) r = run_recorded-run calls (recorded (sets k v) r)

run_recorded-NoStatus :
    (calls : List Call) (r : LogRecord) → NoStatus calls → (run_recorded calls r).status ≡ r.status
unfolding run_recorded recorded
run_recorded-NoStatus [] r h = refl
run_recorded-NoStatus (sends status ∷ calls) r h = elim h [ ]
run_recorded-NoStatus (writes bytes ∷ calls) r h =
    run_recorded-NoStatus calls (recorded (writes bytes) r) h
run_recorded-NoStatus (sets k v ∷ calls) r h = run_recorded-NoStatus calls (recorded (sets k v) r) h

run_recorded-last :
    (between behind : List Call) (last : ℕ) (r : LogRecord)
    → NoStatus behind
    → (run_recorded (between ++ sends last ∷ behind) r).status ≡ last
unfolding run_recorded recorded
run_recorded-last [] behind last r h = run_recorded-NoStatus behind (recorded (sends last) r) h
run_recorded-last (sends status ∷ between) behind last r h =
    run_recorded-last between behind last (recorded (sends status) r) h
run_recorded-last (writes bytes ∷ between) behind last r h =
    run_recorded-last between behind last (recorded (writes bytes) r) h
run_recorded-last (sets k v ∷ between) behind last r h =
    run_recorded-last between behind last (recorded (sets k v) r) h

-- What was sent stays.
run-sent :
    (calls : List Call) (w : Response) (first : ℕ × Headers)
    → w.sent ≡ some first
    → (run calls w).sent ≡ some first
unfolding run set_header write_header write_body
run-sent [] w first h = h
run-sent (sends status ∷ calls) w first h = run-sent calls (write_header status w) first (rw h refl)
run-sent (writes bytes ∷ calls) w first h = run-sent calls (write_body bytes w) first (rw h refl)
run-sent (sets k v ∷ calls) w first h = run-sent calls (set_header k v w) first h

status_of-sent : (w : Response) (first : ℕ × Headers) → w.sent ≡ some first → status_of w ≡ first.0
status_of-sent w first h = rw h refl

run_recorded-status :
    (calls : List Call) (r : LogRecord)
    → SendsOnce calls
    → r.response_writer.sent ≡ none
    → r.status ≡ 200
    → (run_recorded calls r).status ≡ status_of (run calls r.response_writer)
unfolding run_recorded recorded run set_header write_header write_body
run_recorded-status [] r h unsent start = start ∙ rw unsent refl
run_recorded-status (sets k v ∷ calls) r h unsent start =
    run_recorded-status calls (recorded (sets k v) r) h unsent start
run_recorded-status (sends status ∷ calls) r h unsent start =
    run_recorded-NoStatus calls (recorded (sends status) r) h
    ∙ sym (
        status_of-sent (run calls (write_header status r.response_writer))
          (status, r.response_writer.headers)
          (run-sent calls (write_header status r.response_writer)
            (status, r.response_writer.headers) (rw unsent refl)))
run_recorded-status (writes bytes ∷ calls) r h unsent start =
    run_recorded-NoStatus calls (recorded (writes bytes) r) h
    ∙ start
    ∙ sym (
        status_of-sent (run calls (write_body bytes r.response_writer))
          (200, r.response_writer.headers)
          (run-sent calls (write_body bytes r.response_writer) (200, r.response_writer.headers)
            (rw unsent refl)))

-- Logging changes nothing that the client gets; and if the handler sends a status once at most, and not
-- after bytes of the body, the lines are those of the status that the client gets: a request and a
-- response, as an error from 500 on, and of /metrics only a response with another status than 200.
pub with_http_logging-status :
    (url : Bytes) (calls : List Call)
    → SendsOnce calls
    → with_http_logging url calls fresh ≡ (
      request_line (equal url (codes "/metrics"))
          ++ response_line (equal url (codes "/metrics")) (status_of (run calls fresh)),
      run calls fresh,
    )
unfolding with_http_logging
with_http_logging-status url calls h =
    let r : LogRecord = record { response_writer = fresh; status = 200 } in
    rw (run_recorded-status calls r h refl refl, run_recorded-run calls r) refl

-- Where a handler sends a second status, the client gets the first and the log has the last.
pub with_http_logging-last :
    (url : Bytes) (first last : ℕ) (between behind : List Call)
    → NoStatus behind
    → let calls = sends first ∷ between ++ sends last ∷ behind in
      ((with_http_logging url calls fresh).0
        ≡ request_line (equal url (codes "/metrics"))
          ++ response_line (equal url (codes "/metrics")) last)
      × (status_of (with_http_logging url calls fresh).1 ≡ first)
unfolding with_http_logging run_recorded recorded write_header
with_http_logging-last url first last between behind h =
    let r : LogRecord = record { response_writer = write_header first fresh; status = first } in
    let calls = between ++ sends last ∷ behind in
    (
      ap
          (λ n.
            request_line (equal url (codes "/metrics"))
            ++ response_line (equal url (codes "/metrics")) n)
          (run_recorded-last between behind last r h),
      ap status_of (run_recorded-run calls r)
          ∙ status_of-sent (run calls (write_header first fresh)) (first, [])
              (run-sent calls (write_header first fresh) (first, []) refl),
    )
