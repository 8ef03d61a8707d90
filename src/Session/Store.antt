-- ===== src/Session/Store.antt =====
-- The session file: `CSessionService` and `CSessionHeader` of
-- gui-app/src/Service/SessionService.{hpp,cpp}. `VERSION_MINOR` comes from a generated header and is
-- a parameter.
use sane_in_the_membrane.Common.{
  ℕ, ◌≡◌, List, ◌++◌, none, not, ltb, ◌==◌, if◌then◌else◌, length, length-append, take, drop,
}
use sane_in_the_membrane.Common.Word.{to_bytes, of_bytes, length-to_bytes}
use sane_in_the_membrane.Common.Exec.{Exec, ok, fault, ◌>>=◌, Expected, value, unexpected}
use sane_in_the_membrane.Files.FileSystem.{FileSystem, put_entry}
use sane_in_the_membrane.Files.FileRw.{FileRw, write, append, read, exists}

pub record SessionHeader : Type 0 where
  pub version : ℕ
  pub data_length : ℕ

pub record SessionData : Type 0 where
  pub header : SessionHeader
  pub bytes : List ℕ

pub data SessionLoadError : Type 0 where
  session_file_not_found decoding_failed invalid_header header_version_mismatch : SessionLoadError

pub data SessionHeaderConversionError : Type 0 where
  header_version_mismatch : SessionHeaderConversionError

-- The object representation of a header: two words, 16 bytes.
unfoldable pub header_bytes : SessionHeader → List ℕ
header_bytes h = to_bytes 8 h.version ++ to_bytes 8 h.data_length

pub length-header_bytes : (h : SessionHeader) → length (header_bytes h) ≡ 16
unfolding header_bytes
length-header_bytes h = simp (length-append, length-to_bytes)

module _ (version_minor : ℕ) where
  -- `CSessionHeader(data_length)`.
  unfoldable pub new_header : ℕ → SessionHeader
  new_header n = record { version = version_minor; data_length = n }

  -- The assertion aborts on fewer bytes than a header has.
  unfoldable pub from_raw_bytes :
      List ℕ → Exec (Expected SessionHeader SessionHeaderConversionError)
  unfolding new_header
  from_raw_bytes bytes =
      if ltb (length bytes) 16
      then fault
      else if of_bytes (take 8 bytes) == version_minor
      then ok (value (new_header (of_bytes (take 8 (drop 8 bytes)))))
      else ok (unexpected SessionHeaderConversionError.header_version_mismatch)

  unfoldable pub save_session : FileRw → List ℕ → FileSystem → FileSystem
  unfolding new_header
  save_session file bytes fs =
      append file bytes (write file (header_bytes (new_header (length bytes))) fs)

  abbrev pub to_load_result :
      List ℕ
      → Expected SessionHeader SessionHeaderConversionError
      → Expected SessionData SessionLoadError
  to_load_result bytes (value h) = value (record { header = h; bytes = drop 16 bytes })
  to_load_result bytes (unexpected e) = unexpected SessionLoadError.header_version_mismatch

  unfoldable pub load_session : FileRw → FileSystem → Exec (Expected SessionData SessionLoadError)
  unfolding from_raw_bytes
  load_session file fs =
      let bytes = read file fs in
      if not (exists file fs)
      then ok (unexpected session_file_not_found)
      else if ltb (length bytes) 16
      then ok (unexpected invalid_header)
      else (from_raw_bytes bytes >>= λ header. ok (to_load_result bytes header))

unfoldable pub remove_session : FileRw → FileSystem → FileSystem
remove_session file fs = put_entry fs file.path none
