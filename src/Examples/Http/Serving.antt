-- ===== src/Examples/Http/Serving.antt =====
-- examples/tls/http.rs: how a file is served.
use void_orchestrator.Base.{
  ℕ, ◌≡◌, refl, inl, inr, Bool, true, false, Bool-cases, ◌∷◌, ◌++◌, nat_eq, ⊤, length,
}
use void_orchestrator.Failure.{io}
use void_orchestrator.Text.{codes}
use void_orchestrator.RpcMessage.{Fd}
use void_orchestrator.Specification.{Utf8}
use void_orchestrator.Sys.{Call, Os, Io, IoError, History, done, fail}
use void_orchestrator.Program.{Outcome, ok, err, pure, or_io, call, ◌>>=◌, ◌>>◌}
use void_orchestrator.Examples.Http.{
  strip_slash, join_root, is_not_found, response_header, ok_status, not_found_status,
  not_found_contents, serve_opened,
}

-- The answer where there is no file.
abbrev pub not_found_text : Utf8
not_found_text = response_header not_found_status (length not_found_contents) ++ not_found_contents

-- The message that it begins with.
abbrev pub entered : Utf8
unfolding codes
entered = codes "entered http handler"

-- The file that a name stands for.
abbrev pub located : Utf8 → Utf8
located filename = join_root (strip_slash filename)

module _ (os : Os) (stream : Fd) where
  -- From where the file has been opened.
  module _ (filename : Utf8) (h : History) where
    abbrev pub after_open : History
    after_open = Call.open_text (located filename) ∷ h

    abbrev pub header_call : ℕ → Call
    header_call len = Call.write_all stream (response_header ok_status len)

    -- How the file is served: not at all, wholly, or a call failed.
    pub data Served : Outcome Bool × History → Type 0 where
      absent :
          (e : IoError)
          → os h (Call.open_text (located filename)) ≡ fail e
          → is_not_found e.raw_os_error ≡ true
          → Served (ok false, after_open)
      sent :
          (fd : Fd) (len : ℕ)
          → os h (Call.open_text (located filename)) ≡ done fd
          → os after_open (Call.file_len fd) ≡ done len
          → os (Call.file_len fd ∷ after_open) (header_call len) ≡ done tt
          → os (header_call len ∷ Call.file_len fd ∷ after_open) (Call.copy fd stream) ≡ done tt
          → Served (ok true, Call.copy fd stream ∷ header_call len ∷ Call.file_len fd ∷ after_open)
      unopened :
          (e : IoError)
          → os h (Call.open_text (located filename)) ≡ fail e
          → is_not_found e.raw_os_error ≡ false
          → Served (err (io e.raw_os_error), after_open)
      unmeasured :
          (fd : Fd) (e : IoError)
          → os h (Call.open_text (located filename)) ≡ done fd
          → os after_open (Call.file_len fd) ≡ fail e
          → Served (err (io e.raw_os_error), Call.file_len fd ∷ after_open)
      unheaded :
          (fd : Fd) (len : ℕ) (e : IoError)
          → os h (Call.open_text (located filename)) ≡ done fd
          → os after_open (Call.file_len fd) ≡ done len
          → os (Call.file_len fd ∷ after_open) (header_call len) ≡ fail e
          → Served (err (io e.raw_os_error), header_call len ∷ Call.file_len fd ∷ after_open)
      uncopied :
          (fd : Fd) (len : ℕ) (e : IoError)
          → os h (Call.open_text (located filename)) ≡ done fd
          → os after_open (Call.file_len fd) ≡ done len
          → os (Call.file_len fd ∷ after_open) (header_call len) ≡ done tt
          → os (header_call len ∷ Call.file_len fd ∷ after_open) (Call.copy fd stream) ≡ fail e
          → Served (
            err (io e.raw_os_error),
            Call.copy fd stream ∷ header_call len ∷ Call.file_len fd ∷ after_open,
          )

    module _ (fd : Fd) (opens : os h (Call.open_text (located filename)) ≡ done fd) where
      copied-Served :
          (len : ℕ) (r : Io ⊤)
          → os after_open (Call.file_len fd) ≡ done len
          → os (Call.file_len fd ∷ after_open) (header_call len) ≡ done tt
          → os (header_call len ∷ Call.file_len fd ∷ after_open) (Call.copy fd stream) ≡ r
          → Served (
              (or_io r >> pure true)
                (Call.copy fd stream ∷ header_call len ∷ Call.file_len fd ∷ after_open))
      unfolding ◌>>=◌
      copied-Served len (done tt) measures heads answers = sent fd len opens measures heads answers
      copied-Served len (fail e) measures heads answers =
          uncopied fd len e opens measures heads answers

      written-Served :
          (len : ℕ) (r : Io ⊤)
          → os after_open (Call.file_len fd) ≡ done len
          → os (Call.file_len fd ∷ after_open) (header_call len) ≡ r
          → Served (
              (or_io r >> (call os (Call.copy fd stream) >>= λ c. or_io c >> pure true))
                (header_call len ∷ Call.file_len fd ∷ after_open))
      unfolding ◌>>=◌
      written-Served len (done tt) measures answers = copied-Served len _ measures answers refl
      written-Served len (fail e) measures answers = unheaded fd len e opens measures answers

      measured-Served :
          (r : Io ℕ)
          → os after_open (Call.file_len fd) ≡ r
          → Served (
              (or_io r >>= λ len. call os (header_call len) >>= λ w.
              or_io w >> (call os (Call.copy fd stream) >>= λ c. or_io c >> pure true))
                (Call.file_len fd ∷ after_open))
      unfolding ◌>>=◌
      measured-Served (done len) measures =
          written-Served len (os (Call.file_len fd ∷ after_open) (header_call len)) measures refl
      measured-Served (fail e) measures = unmeasured fd e opens measures

    pub opened-Served :
        (r : Io Fd)
        → os h (Call.open_text (located filename)) ≡ r
        → Served (serve_opened os stream r after_open)
    unfolding serve_opened ◌>>=◌
    opened-Served (fail e) opens = elim (Bool-cases (is_not_found e.raw_os_error)) [
      | inl yes_absent ↦ rw yes_absent (absent e opens yes_absent)
      | inr other ↦ rw other (unopened e opens other)
    ]
    opened-Served (done fd) opens = measured-Served fd opens _ refl
