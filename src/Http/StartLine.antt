-- ===== src/Http/StartLine.antt =====
-- include/beast/http/impl/basic_parser.ipp: parse_startline, but for its call of the derived class.
pub mod Safe
pub mod Defined
use remotedev.Base.{ℕ, Bytes}
use remotedev.Http.Scan.{
  parse_method, parse_target, parse_version, parse_status, parse_reason, parse_crlf,
}
use remotedev.Http.Parser.{bad_method, bad_path, bad_version, bad_status, bad_reason}
use remotedev.Http.Outcome.{Outcome, done, ◌>>=◌, or_else, expect_char, nonempty}

-- The request line: method, target, version, and what follows it.
pub record RequestLine : Type 0 where
  pub method : Bytes
  pub target : Bytes
  pub version : ℕ

pub record StatusLine : Type 0 where
  pub version : ℕ
  pub status : ℕ
  pub reason : Bytes

-- `no` of `parse_target` is the empty string.
pub parse_request_line : Bytes → Outcome (RequestLine × Bytes)
parse_request_line it = do
  (method, it) ← or_else bad_method (parse_method it)
  _ ← nonempty bad_method method
  it ← expect_char b' ' bad_method it
  (target, it) ← or_else bad_path (parse_target it)
  _ ← nonempty bad_path target
  it ← expect_char b' ' bad_path it
  (version, it) ← or_else bad_version (parse_version it)
  (_, it) ← or_else bad_version (parse_crlf it)
  done (record { method = method; target = target; version = version }, it)

-- `no` of `parse_reason` is the empty string, and no CR LF is behind it.
pub parse_status_line : Bytes → Outcome (StatusLine × Bytes)
parse_status_line it = do
  (version, it) ← or_else bad_version (parse_version it)
  it ← expect_char b' ' bad_version it
  (status, it) ← or_else bad_status (parse_status it)
  it ← expect_char b' ' bad_status it
  (reason, it) ← or_else bad_reason (parse_reason it)
  (_, it) ← or_else bad_reason (parse_crlf it)
  done (record { version = version; status = status; reason = reason }, it)
