-- ===== src/Windows/ErrorReports.antt =====
-- The error reports that a phone sends: `DeserializeErrorReport` of windows/src/net/serializer.cpp
-- and `ErrorReport` of windows/src/net/connection.h.
pub mod Fronts
use open_cam.Prelude.{ℕ, ◌-◌, ltb, Bytes, length}
use open_cam.Windows.Reader.{
  Result, ok, incomplete, rejected, ◌>>=◌, ◌>>◌, throw_if, max_message, max_string, u8, string,
  message_exceeds_limit, invalid_severity,
}

pub record ErrorReport : Type 0 where
  pub severity : ℕ
  pub error : Bytes
  pub description : Bytes

-- `SERVERITY_ERROR`
abbrev pub severity_error : ℕ
severity_error = 1

-- The report and `consumed`, the reader's position.
unfoldable pub deserialize_error_report : Bytes → Result (ErrorReport × ℕ)
deserialize_error_report bytes = do
  throw_if (ltb max_message (length bytes)) message_exceeds_limit
  (severity, rest) ← u8 bytes
  throw_if (ltb severity_error severity) invalid_severity
  (error, rest) ← string 1024 rest
  (description, rest) ← string 2048 rest
  let report : ErrorReport = record {
    severity = severity;
    error = error;
    description = description;
  }
  ok (report, length bytes - length rest)
