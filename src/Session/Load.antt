-- ===== src/Session/Load.antt =====
-- What `load_session` returns: after a save, after a removal, and from any file.
use sane_in_the_membrane.Common.{
  ℕ, ◌≡◌, true, false, List, ◌++◌, append_assoc, ltb, ◌==◌, if◌then◌else◌, length, length-append,
  take, drop, take-length-append, drop-length-append, arith, Bool-cases, inl, inr,
}
use sane_in_the_membrane.Common.Word.{IsU64, to_bytes, of_bytes, length-to_bytes, of_bytes-to_bytes}
use sane_in_the_membrane.Common.Exec.{ok, Expected, value, unexpected}
use sane_in_the_membrane.Files.FileSystem.{FileSystem}
use sane_in_the_membrane.Files.FileRw.{FileRw, read, exists, IsOpenable, read-append-write}
use sane_in_the_membrane.Session.Store.{
  SessionHeader, SessionData, session_file_not_found, SessionLoadError, header_bytes,
  length-header_bytes, new_header, save_session, load_session, remove_session,
}
use text.Mathlib.TextPositions.{eq_refl}

take-header :
    (h : SessionHeader) (bs : List ℕ) → take 8 (header_bytes h ++ bs) ≡ to_bytes 8 h.version
unfolding header_bytes
take-header h bs = rw (append_assoc (to_bytes 8 h.version) (to_bytes 8 h.data_length) bs) (
    rw (length-to_bytes 8 h.version) at
      (take-length-append (to_bytes 8 h.version) (to_bytes 8 h.data_length ++ bs)))

take-drop-header :
    (h : SessionHeader) (bs : List ℕ)
    → take 8 (drop 8 (header_bytes h ++ bs)) ≡ to_bytes 8 h.data_length
unfolding header_bytes
take-drop-header h bs =
    rw (append_assoc (to_bytes 8 h.version) (to_bytes 8 h.data_length) bs, dropped)
      (rw (length-to_bytes 8 h.data_length) at (take-length-append (to_bytes 8 h.data_length) bs))
  where
    dropped :
        drop 8 (to_bytes 8 h.version ++ (to_bytes 8 h.data_length ++ bs))
        ≡ to_bytes 8 h.data_length ++ bs
    dropped =
        rw (length-to_bytes 8 h.version) at
          (drop-length-append (to_bytes 8 h.version) (to_bytes 8 h.data_length ++ bs))

drop-header : (h : SessionHeader) (bs : List ℕ) → drop 16 (header_bytes h ++ bs) ≡ bs
drop-header h bs = rw (length-header_bytes h) at (drop-length-append (header_bytes h) bs)

long_enough : (h : SessionHeader) (bs : List ℕ) → ltb (length (header_bytes h ++ bs)) 16 ≡ false
long_enough h bs = ground (arith, length-append (header_bytes h) bs, length-header_bytes h)

-- A file that holds a header and data, read by a program of the version `v`.
module _ (v : ℕ) (file : FileRw) (fs : FileSystem) (h : SessionHeader) (bs : List ℕ) where
  module _ (there : exists file fs ≡ true) (holds : read file fs ≡ header_bytes h ++ bs)
      (wv : IsU64 h.version) (wn : IsU64 h.data_length) where
    load-header : load_session v file fs ≡ (
        if h.version == v
        then ok (value (record { header = new_header v h.data_length; bytes = bs }))
        else ok (unexpected SessionLoadError.header_version_mismatch))
    unfolding load_session
    load-header = elim (Bool-cases (h.version == v)) [
      | inl e ↦ simp (
        there,
        holds,
        long_enough h bs,
        take-header h bs,
        take-drop-header h bs,
        drop-header h bs,
        of_bytes-to_bytes h.version wv,
        of_bytes-to_bytes h.data_length wn,
        e,
      )
      | inr e ↦ simp (
        there,
        holds,
        long_enough h bs,
        take-header h bs,
        take-drop-header h bs,
        of_bytes-to_bytes h.version wv,
        of_bytes-to_bytes h.data_length wn,
        e,
      )
    ]

-- What a program of the version `v` saved, a program of the version `w` loads whole if the versions
-- agree, and refuses with a version mismatch if they do not.
pub load_session-save_session :
    (v w : ℕ) (file : FileRw) (bs : List ℕ) (fs : FileSystem)
    → IsOpenable fs file
    → IsU64 v
    → IsU64 (length bs)
    → load_session w file (save_session v file bs fs) ≡ (
        if v == w
        then ok (value (record { header = new_header w (length bs); bytes = bs }))
        else ok (unexpected SessionLoadError.header_version_mismatch))
unfolding save_session new_header
load_session-save_session v w file bs fs opens hv hn =
    let (there, holds) =
      read-append-write file (header_bytes (new_header v (length bs))) bs fs opens in
    load-header w file (save_session v file bs fs) (new_header v (length bs)) bs there holds hv hn

-- After `remove_session` there is no session to load.
pub load_session-remove_session :
    (v : ℕ) (file : FileRw) (fs : FileSystem)
    → load_session v file (remove_session file fs) ≡ ok (unexpected session_file_not_found)
unfolding load_session remove_session exists
load_session-remove_session v file fs = ground (arith, eq_refl file.path)

-- On every file system `load_session` returns without a fault, the header's assertion included.
pub load_session_total :
    (v : ℕ) (file : FileRw) (fs : FileSystem)
    → (r : Expected SessionData SessionLoadError) × (load_session v file fs ≡ ok r)
unfolding load_session
load_session_total v file fs = elim (Bool-cases (exists file fs)) [
  | inr e ↦ (unexpected session_file_not_found, rw e)
  | inl e ↦ elim (Bool-cases (ltb (length (read file fs)) 16)) [
    | inl short ↦ (unexpected SessionLoadError.invalid_header, rw (e, short))
    | inr long ↦ elim (Bool-cases (of_bytes (take 8 (read file fs)) == v)) [
      | inl same ↦ (
        value (record {
          header = new_header v (of_bytes (take 8 (drop 8 (read file fs))));
          bytes = drop 16 (read file fs);
        }),
        rw (e, long, same),
      )
      | inr other ↦ (unexpected SessionLoadError.header_version_mismatch, rw (e, long, other))
    ]
  ]
]
