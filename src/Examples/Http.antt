-- ===== src/Examples/Http.antt =====
-- examples/tls/http.rs: the entrypoint that answers an HTTP request with a file.
pub mod Serving
pub mod Answers
pub mod Root
use void_orchestrator.Base.{
  ℕ, ◌+◌, ◌-◌, ℤ, Bool, true, false, not, Option, none, some, List, [], ◌∷◌, ◌++◌, ◌==◌, nat_eq, ⊤,
  length, take, replicate, if◌then◌else◌,
}
use void_orchestrator.Failure.{Errno, Error, io}
use void_orchestrator.Text.{codes, decimal, bytes_beq}
use void_orchestrator.RpcMessage.{Fd}
use void_orchestrator.Specification.{Utf8}
use void_orchestrator.Sys.{Call, Os, Io, IoError, done, fail}
use void_orchestrator.Program.{
  M, Outcome, panic, blocked, err, pure, give, or_io, unwrap, call, ◌>>=◌, ◌>>◌,
}
use void_orchestrator.Run.{exit_ok}
use void_orchestrator.Examples.Argv.{unwrap_answer, println}

-- What httparse, which is not part of the repository, makes of a buffer: an error, a request that is
-- not complete, or the method and the path of one that is.
pub data Parsed : Type 0 where
  refused : Parsed
  partial : Parsed
  complete : Option Utf8 → Option Utf8 → Parsed

abbrev pub slash : ℕ
slash = b'/'

-- `filename.strip_prefix('/').unwrap_or(filename)`
abbrev pub strip_slash : Utf8 → Utf8
strip_slash [] = []
strip_slash (c ∷ cs) = if c == slash then cs else c ∷ cs

abbrev pub begins_with_slash : Utf8 → Bool
begins_with_slash [] = false
begins_with_slash (c ∷ cs) = c == slash

abbrev pub root : Utf8
unfolding codes
root = codes "/var/www/html/"

-- `PathBuf::from("/var/www/html/").join(name)`, in bytes: an absolute path takes the place of the
-- other, which ends in a slash.
unfoldable pub join_root : Utf8 → Utf8
join_root name = if begins_with_slash name then name else root ++ name

-- ENOENT
abbrev pub enoent : Errno
enoent = 2

-- `e.kind() == ErrorKind::NotFound`
abbrev pub is_not_found : Option Errno → Bool
is_not_found none = false
is_not_found (some e) = e == enoent

-- "\r\n"
abbrev pub line_end : Utf8
line_end = 13 ∷ 10 ∷ []

-- `format!("{}\r\nContent-Length: {}\r\n\r\n", status_line, len)`
unfoldable pub response_header : Utf8 → ℕ → Utf8
unfolding codes decimal
response_header status_line len =
    status_line
    ++ (line_end ++ (codes "Content-Length: " ++ (decimal len ++ (line_end ++ line_end))))

unfoldable pub ok_status : Utf8
unfolding codes
ok_status = codes "HTTP/1.1 200 OK"

unfoldable pub not_found_status : Utf8
unfolding codes
not_found_status = codes "HTTP/1.1 404 NOT FOUND"

-- "file not found\n"
unfoldable pub not_found_contents : Utf8
unfolding codes
not_found_contents = codes "file not found" ++ (10 ∷ [])

-- `if req.method != Some("GET") { None } else { req.path }`
unfoldable pub requested : Option Utf8 → Option Utf8 → Option Utf8
unfolding codes
requested none path = none
requested (some method) path = if bytes_beq method (codes "GET") then path else none

-- The buffer that is parsed: what has been read, and zeros up to 4096 bytes from where the last read
-- began.
unfoldable pub padded : List ℕ → List ℕ → List ℕ
padded before received = before ++ (received ++ replicate (4096 - length received) 0)

module _ (os : Os) where
  -- What follows the opening of the file.
  unfoldable pub serve_opened : Fd → Io Fd → M Bool
  unfolding response_header ok_status
  serve_opened stream (fail e) =
      if is_not_found e.raw_os_error then pure false else give (err (io e.raw_os_error))
  serve_opened stream (done fd) = do
    len ← or_io (← call os (Call.file_len fd))
    or_io (← call os (Call.write_all stream (response_header ok_status len)))
    or_io (← call os (Call.copy fd stream))
    pure true

  -- `try_serve_file`
  unfoldable pub try_serve_file : Fd → Utf8 → M Bool
  unfolding serve_opened join_root
  try_serve_file stream filename = do
    opened ← call os (Call.open_text (join_root (strip_slash filename)))
    serve_opened stream opened

  -- The answer where there is no file, and the end of the loop.
  unfoldable pub answer_not_found : Fd → M ℤ
  unfolding response_header not_found_status not_found_contents unwrap_answer
  answer_not_found stream = do
    unwrap_answer
        (← call os (
          Call.write_all stream
            (response_header not_found_status (length not_found_contents) ++ not_found_contents)))
    pure exit_ok

  -- The answer to a request that is complete, by the name of its file.
  unfoldable pub answer : Fd → Option Utf8 → M ℤ
  unfolding try_serve_file answer_not_found
  answer stream none = answer_not_found stream
  answer stream (some filename) = do
    served ← unwrap (try_serve_file stream filename)
    if served then pure exit_ok else answer_not_found stream

  -- What follows `req.parse(&buf)`, before the next round of the loop.
  unfoldable pub parsed_step : Fd → Parsed → M ℤ → M ℤ
  unfolding answer requested
  parsed_step stream refused next = give panic
  parsed_step stream partial next = next
  parsed_step stream (complete method path) next = answer stream (requested method path)

  module _ (parse : List ℕ → Parsed) where
    -- The loop, from the bytes that have been read and the results that read(2) will give. Where they
    -- end, the program waits for data.
    unfoldable pub http_loop : Fd → List ℕ → List (Io (List ℕ)) → M ℤ
    unfolding parsed_step padded
    http_loop stream before [] = give blocked
    http_loop stream before (fail e ∷ _) = give panic
    http_loop stream before (done bytes ∷ reads) =
        let received = take 4096 bytes in
        let next = http_loop stream (before ++ received) reads in
        if length received == 0
        then pure exit_ok
        else parsed_step stream (parse (padded before received)) next

    -- `handler`
    unfoldable pub serve_http : Fd → List (Io (List ℕ)) → M ℤ
    unfolding http_loop println codes
    serve_http stream reads = do
      println os (codes "entered http handler")
      http_loop stream [] reads
