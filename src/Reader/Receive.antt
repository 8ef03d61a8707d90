-- ===== src/Reader/Receive.antt =====
-- What a client of gui-app/src/Readers/ScanResponseReader.cpp keeps of the responses of a server.
use sane_in_the_membrane.Common.Word.{add64}
use sane_in_the_membrane.Common.{
  ℕ, ◌≡◌, refl, ap, ◌∙◌, sym, Bool, true, false, List, [], ◌∷◌, ◌++◌, Option, none, some, length,
  append-nil, append_assoc,
}
use sane_in_the_membrane.Common.Exec.{ok, ◌>>=◌}
use sane_in_the_membrane.Files.FileSystem.{FileSystem}
use sane_in_the_membrane.Files.File.{File, write, read, IsCounted, write-IsCounted}
use sane_in_the_membrane.Scan.{ScanResponse, GrpcStatus, GrpcCall, start_write, finish_call}
use sane_in_the_membrane.Sane.Backend.{SaneParameters}
use sane_in_the_membrane.Scan.Deliver.{sent, finishes, bytes_of}
use sane_in_the_membrane.Reader.{
  Reader, ReaderSignal, sig_progress, sig_done, receive, on_read_done, on_done, take_data,
  write_data, take_parameters, report_progress,
}

-- The statuses of the `sig_done` signals.
abbrev pub dones : List ReaderSignal → List GrpcStatus
dones [] = []
dones (sig_progress n total ∷ signals) = dones signals
dones (sig_done status file params ∷ signals) = status ∷ dones signals

dones-append : (xs ys : List ReaderSignal) → dones (xs ++ ys) ≡ dones xs ++ dones ys
dones-append [] ys = refl
dones-append (sig_progress n total ∷ xs) ys = dones-append xs ys
dones-append (sig_done status file params ∷ xs) ys = ap (◌∷◌ status) (dones-append xs ys)

written_path : (f : File) (bytes : List ℕ) (fs : FileSystem) → (write f bytes fs).0.path ≡ f.path
unfolding write
written_path f bytes fs = refl

-- Whether a scan is in progress, from whether one was and the statuses that came.
abbrev pub after_status : Bool → List GrpcStatus → Bool
after_status b [] = b
after_status b (status ∷ statuses) = false

after_status-idle : (statuses : List GrpcStatus) → after_status false statuses ≡ false
after_status-idle [] = refl
after_status-idle (status ∷ statuses) = refl

-- The reader after some responses: its file holds what it held and the bytes received, and there was
-- a signal for each status.
pub record Received (r : Reader) (f : File) (fs : FileSystem) (calls : List GrpcCall) (r' : Reader)
    (fs' : FileSystem) : Type 0 where
  pub file : File
  pub kept : r'.current_file ≡ some file
  pub path : file.path ≡ f.path
  pub counted : IsCounted file fs'
  pub content : read file fs' ≡ read f fs ++ sent calls
  pub signals : dones r'.signals ≡ dones r.signals ++ finishes calls
  pub progress : r'.in_progress ≡ after_status r.in_progress (finishes calls)

take_parameters-keeps :
    (p : Option SaneParameters) (r : Reader)
    → ((take_parameters p r).current_file ≡ r.current_file)
      × ((take_parameters p r).signals ≡ r.signals)
      × ((take_parameters p r).in_progress ≡ r.in_progress)
take_parameters-keeps none r = (refl, refl, refl)
take_parameters-keeps (some p) r = (refl, refl, refl)

-- What one response leaves behind.
record Stored (r : Reader) (f : File) (fs : FileSystem) (bytes : List ℕ) (r' : Reader)
    (fs' : FileSystem) : Type 0 where
  file : File
  kept : r'.current_file ≡ some file
  path : file.path ≡ f.path
  counted : IsCounted file fs'
  content : read file fs' ≡ read f fs ++ bytes
  signals : dones r'.signals ≡ dones r.signals
  progress : r'.in_progress ≡ r.in_progress

take_data-Stored :
    (raw : Option (List ℕ)) (r : Reader) (f : File) (fs : FileSystem)
    → r.current_file ≡ some f
    → IsCounted f fs
    → (r' : Reader) × (fs' : FileSystem) × (take_data raw r fs ≡ ok (r', fs'))
      × Stored r f fs (bytes_of raw) r' fs'
unfolding take_data write_data
take_data-Stored none r f fs e c = (
  r,
  fs,
  refl,
  record {
    file = f;
    kept = e;
    path = refl;
    counted = c;
    content = sym (append-nil (read f fs));
    signals = refl;
    progress = refl;
  },
)
take_data-Stored (some bytes) r f fs e c =
    let (f', fs') = write f bytes fs in
    (
      record r { current_file = some f'; total_bytes = add64 r.total_bytes (length bytes) },
      fs',
      ap (λ file. write_data file bytes r fs) e,
      record {
        file = f';
        kept = refl;
        path = written_path f bytes fs;
        counted = (write-IsCounted f bytes fs c).0;
        content = (write-IsCounted f bytes fs c).1;
        signals = refl;
        progress = refl;
      },
    )

on_read_done-Stored :
    (response : ScanResponse) (r : Reader) (f : File) (fs : FileSystem)
    → r.current_file ≡ some f
    → IsCounted f fs
    → (r' : Reader) × (fs' : FileSystem) × (on_read_done true response r fs ≡ ok (r', fs'))
      × Stored r f fs (bytes_of response.raw_bytes) r' fs'
unfolding on_read_done
on_read_done-Stored response r f fs e c =
    let (file_kept, signals_kept, progress_kept) = take_parameters-keeps response.parameters r in
    let (r', fs', takes, s) =
      take_data-Stored response.raw_bytes (take_parameters response.parameters r) f fs
        (file_kept ∙ e) c in
    (
      report_progress r',
      fs',
      ap (λ m. m >>= λ (r₁, fs₁). ok (report_progress r₁, fs₁)) takes,
      record {
        file = s.file;
        kept = s.kept;
        path = s.path;
        counted = s.counted;
        content = s.content;
        signals =
            dones-append r'.signals _
            ∙ append-nil (dones r'.signals)
            ∙ s.signals
            ∙ ap dones signals_kept;
        progress = s.progress ∙ progress_kept;
      },
    )

pub receive-Received :
    (calls : List GrpcCall) (last : ScanResponse) (r : Reader) (f : File) (fs : FileSystem)
    → r.current_file ≡ some f
    → IsCounted f fs
    → (r' : Reader) × (fs' : FileSystem) × (receive calls last r fs ≡ ok (r', fs'))
      × Received r f fs calls r' fs'
unfolding receive on_done
receive-Received [] last r f fs e c = (
  r,
  fs,
  refl,
  record {
    file = f;
    kept = e;
    path = refl;
    counted = c;
    content = sym (append-nil (read f fs));
    signals = sym (append-nil (dones r.signals));
    progress = refl;
  },
)
receive-Received (start_write response ∷ calls) last r f fs e c =
    let (r₁, fs₁, reads, s) = on_read_done-Stored response r f fs e c in
    let (r₂, fs₂, rest, t) = receive-Received calls response r₁ s.file fs₁ s.kept s.counted in
    (
      r₂,
      fs₂,
      ap (λ m. m >>= λ (r', fs'). receive calls response r' fs') reads ∙ rest,
      record {
        file = t.file;
        kept = t.kept;
        path = t.path ∙ s.path;
        counted = t.counted;
        content =
            t.content
            ∙ ap (λ bytes. bytes ++ sent calls) s.content
            ∙ append_assoc (read f fs) (bytes_of response.raw_bytes) (sent calls);
        signals = t.signals ∙ ap (λ xs. xs ++ finishes calls) s.signals;
        progress = t.progress ∙ ap (λ b. after_status b (finishes calls)) s.progress;
      },
    )
receive-Received (finish_call status ∷ calls) last r f fs e c =
    let (r₂, fs₂, rest, t) = receive-Received calls last (on_done status r) f fs e c in
    (
      r₂,
      fs₂,
      rest,
      record {
        file = t.file;
        kept = t.kept;
        path = t.path;
        counted = t.counted;
        content = t.content;
        signals =
            t.signals
            ∙ ap (λ xs. xs ++ finishes calls) (dones-append r.signals _)
            ∙ append_assoc (dones r.signals) (status ∷ []) (finishes calls);
        progress = t.progress ∙ after_status-idle (finishes calls);
      },
    )
