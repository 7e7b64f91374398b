-- ===== src/Logging.antt =====
-- log_record.go: the log of the requests. A handler is the list of its calls on the writer; the other
-- fields of the lines, host, method, URL and duration, are left out.
pub mod Statuses
use spongix.Base.{
  ℕ, Bytes, List, [], ◌∷◌, ◌++◌, Bool, true, false, codes, not, ◌&&◌, ◌==◌, leb, if◌then◌else◌,
}
use spongix.Strings.{equal}
use spongix.Http.{Response, set_header, write_header, write_body}

pub data Call : Type 0 where
  sets : Bytes → Bytes → Call
  sends : ℕ → Call
  writes : Bytes → Call

-- The writer without the record.
abbrev pub called : Call → Response → Response
unfolding set_header write_header write_body
called (sets k v) w = set_header k v w
called (sends status) w = write_header status w
called (writes bytes) w = write_body bytes w

unfoldable pub run : List Call → Response → Response
unfolding set_header write_header write_body called
run [] w = w
run (call ∷ calls) w = run calls (called call w)

pub record LogRecord : Type 0 where
  pub response_writer : Response
  pub status : ℕ

-- `Write` is passed on, `WriteHeader` is recorded too; `Header` is that of the embedded writer.
unfoldable pub recorded : Call → LogRecord → LogRecord
unfolding called
recorded (sends status) r = record {
  response_writer = called (sends status) r.response_writer;
  status = status;
}
recorded (writes bytes) r = record r { response_writer = called (writes bytes) r.response_writer }
recorded (sets k v) r = record r { response_writer = called (sets k v) r.response_writer }

unfoldable pub run_recorded : List Call → LogRecord → LogRecord
unfolding recorded
run_recorded [] r = r
run_recorded (call ∷ calls) r = run_recorded calls (recorded call r)

pub data Level : Type 0 where
  info error : Level

pub data LogLine : Type 0 where
  req : LogLine
  res : Level → ℕ → LogLine

abbrev pub level_of : ℕ → Level
level_of status = if leb 500 status then error else info

abbrev pub request_line : Bool → List LogLine
request_line is_metric = if not is_metric then req ∷ [] else []

abbrev pub response_line : Bool → ℕ → List LogLine
response_line is_metric status =
    if not (is_metric && status == 200) then res (level_of status) status ∷ [] else []

unfoldable pub with_http_logging : Bytes → List Call → Response → List LogLine × Response
unfolding equal run_recorded
with_http_logging url calls w =
    let r = run_recorded calls (record { response_writer = w; status = 200 }) in
    let is_metric = equal url (codes "/metrics") in
    (request_line is_metric ++ response_line is_metric r.status, r.response_writer)
