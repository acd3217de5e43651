-- ===== src/Examples/Http/Root.antt =====
-- examples/tls/http.rs: which files are opened, and where the answer goes.
use void_orchestrator.Base.{
  ℕ, ℤ, ◌≡◌, refl, inl, inr, true, false, Option, none, some, List, [], ◌∷◌, ◌++◌, ◌==◌, nat_eq,
  arith, take, Bool-cases,
}
use void_orchestrator.RpcMessage.{Fd}
use void_orchestrator.Specification.{Utf8}
use void_orchestrator.Sys.{Call, Os, Io, done, fail}
use void_orchestrator.Program.{M}
use void_orchestrator.Program.Runs.{
  Makes-unwrap, Makes, Makes-pure, Makes-or_io, Makes-if, Makes-bind, Makes-call, makes_rules,
}
use void_orchestrator.Examples.Argv.Calls.{unwrap_answer-Makes, println-Makes}
use void_orchestrator.Examples.Http.{
  Parsed, refused, partial, complete, slash, strip_slash, begins_with_slash, root, join_root,
  requested, serve_opened, try_serve_file, answer_not_found, answer, parsed_step, http_loop,
  serve_http,
}

-- The file that is opened for a name: the root and then the name without the slash that it may begin
-- with, or if the name begins with two slashes, the absolute path behind the first of them.
pub data Opens : Utf8 → Utf8 → Type 0 where
  relative : {name : Utf8} → begins_with_slash name ≡ false → Opens name (root ++ name)
  rooted : {name : Utf8} → begins_with_slash name ≡ false → Opens (slash ∷ name) (root ++ name)
  absolute : {name : Utf8} → Opens (slash ∷ slash ∷ name) (slash ∷ name)

-- Of a name behind its slash.
rooted-Opens : (name : Utf8) → Opens (slash ∷ name) (join_root name)
unfolding join_root
rooted-Opens [] = rooted refl
rooted-Opens (second ∷ name) = elim (Bool-cases (second == slash)) [
  | inl is_slash ↦ let same : second ≡ slash = ground arith in rw (is_slash, same) absolute
  | inr other ↦ rw other (rooted other)
]

opened-Opens : (name : Utf8) → Opens name (join_root (strip_slash name))
unfolding join_root
opened-Opens [] = relative refl
opened-Opens (first ∷ name) = elim (Bool-cases (first == slash)) [
  | inl is_slash ↦
      let same : first ≡ slash = ground arith in rw (is_slash, same) (rooted-Opens name)
  | inr other ↦ rw (other, other) (relative other)
]

module _ (parse : List ℕ → Parsed) where
  -- The name is that of a GET that the parser has completed.
  abbrev pub IsRequested : Utf8 → Type 0
  IsRequested name =
      (bytes : List ℕ) × (method path : Option Utf8) × (parse bytes ≡ complete method path)
      × (requested method path ≡ some name)

  -- What the program may call: it opens the file of a request, and what it writes goes to its stream.
  abbrev pub IsHttpCall : Fd → Call → Type 0
  IsHttpCall stream (Call.print text) = Unit {0}
  IsHttpCall stream (Call.open_text path) = (name : Utf8) × IsRequested name × Opens name path
  IsHttpCall stream (Call.file_len fd) = Unit {0}
  IsHttpCall stream (Call.copy from to) = to ≡ stream
  IsHttpCall stream (Call.write_all fd text) = fd ≡ stream
  IsHttpCall stream _ = ⊥

module _ (os : Os) (parse : List ℕ → Parsed) (stream : Fd) where
  abbrev P : Call → Type 0
  P = IsHttpCall parse stream

  serve_opened-Makes : (r : Io Fd) → Makes P (serve_opened os stream r)
  unfolding serve_opened
  serve_opened-Makes (fail e) = search makes_rules
  serve_opened-Makes (done fd) = Makes-bind _ _ (Makes-call os (Call.file_len fd) tt) λ l.
      Makes-bind _ _ (Makes-or_io l) λ len.
        Makes-bind _ _ (Makes-call os (Call.write_all stream _) refl) λ w.
          Makes-bind _ _ (Makes-or_io w) λ _.
            Makes-bind _ _ (Makes-call os (Call.copy fd stream) refl)
              λ c. Makes-bind _ _ (Makes-or_io c) λ _. Makes-pure true

  answer_not_found-Makes : Makes P (answer_not_found os stream)
  unfolding answer_not_found
  answer_not_found-Makes =
      Makes-bind _ _ (Makes-call os (Call.write_all stream _) refl)
        λ w. Makes-bind _ _ (unwrap_answer-Makes w) λ _. Makes-pure _

  answer-Makes :
      (name : Option Utf8)
      → ((filename : Utf8) → name ≡ some filename → IsRequested parse filename)
      → Makes P (answer os stream name)
  unfolding answer try_serve_file
  answer-Makes none asked = answer_not_found-Makes
  answer-Makes (some filename) asked =
      let opens : P (Call.open_text (join_root (strip_slash filename))) =
        (filename, asked filename refl, opened-Opens filename) in
      Makes-bind _ _
        (Makes-unwrap _
          (Makes-bind _ _ (Makes-call os (Call.open_text _) opens) serve_opened-Makes))
        λ served. Makes-if served _ _ (Makes-pure _) answer_not_found-Makes

  parsed_step-Makes :
      (bytes : List ℕ) (r : Parsed) (next : M ℤ)
      → parse bytes ≡ r
      → Makes P next
      → Makes P (parsed_step os stream r next)
  unfolding parsed_step
  parsed_step-Makes bytes refused next e k = search makes_rules
  parsed_step-Makes bytes partial next e k = k
  parsed_step-Makes bytes (complete method path) next e k =
      answer-Makes (requested method path) (λ filename asks. (bytes, method, path, e, asks))

  http_loop-Makes :
      (before : List ℕ) (reads : List (Io (List ℕ)))
      → Makes P (http_loop os parse stream before reads)
  unfolding http_loop
  http_loop-Makes before [] = search makes_rules
  http_loop-Makes before (fail e ∷ _) = search makes_rules
  http_loop-Makes before (done bytes ∷ reads) =
      Makes-if _ _ _ (Makes-pure _)
        (parsed_step-Makes _ _ _ refl (http_loop-Makes (before ++ take 4096 bytes) reads))

  -- Whatever it reads and whatever the operating system answers, the program that answers HTTP writes
  -- only to its own stream, and the only files that it opens are those named by the GET requests that
  -- the parser has completed: each at /var/www/html/ and then its name without a leading slash, unless
  -- the name begins with two slashes, when it is the absolute path behind the first of them.
  pub serve_http-IsHttpCall :
      (reads : List (Io (List ℕ)))
      → Makes (IsHttpCall parse stream) (serve_http os parse stream reads)
  unfolding serve_http
  serve_http-IsHttpCall reads =
      Makes-bind _ _ (println-Makes os _ tt) (λ _. http_loop-Makes [] reads)
