-- ===== src/Reader/EndToEnd.antt =====
-- A scan from the device to the client's file: server/src/Reactors/ScanResponseReactor.cpp and
-- gui-app/src/Readers/ScanResponseReader.cpp.
use Prim.Native.String.{String}
use text.Mathlib.TextPositions.{eq_refl}
use sane_in_the_membrane.Common.{
  ℕ, ◌<◌, ◌≡◌, refl, ap, ◌∙◌, true, false, List, [], ◌∷◌, ◌++◌, none, some, arith, length,
  replicate,
}
use sane_in_the_membrane.Common.Exec.{ok, ◌>>=◌}
use sane_in_the_membrane.Files.FileSystem.{FileSystem, read_all, write_app}
use sane_in_the_membrane.Files.File.{File, new_file, read, IsCounted}
use sane_in_the_membrane.Sane.Device.{SaneDevice}
use sane_in_the_membrane.Sane.Mock.{MockWorld, mock_backend}
use sane_in_the_membrane.Scan.{ScanResponse, GrpcCall, grpc_ok, start_scan, Scan, new_reactor}
use sane_in_the_membrane.Scan.Stream.{scan_of}
use sane_in_the_membrane.Scan.Deliver.{sent, finishes, writes_done}
use sane_in_the_membrane.Scan.OnMock.{IsKnown, scan_on_mock}
use sane_in_the_membrane.Reader.{Reader, async_scan, start_read, start_call, scan, receive}
use sane_in_the_membrane.Reader.Receive.{dones, after_status, receive-Received}

module _ (r : Reader) (path : String) (fs : FileSystem) (idle : r.in_progress ≡ false) where
  abbrev asked : Reader
  asked = record {
    context = true;
    params = r.params;
    hundred_percent = 0;
    total_bytes = 0;
    in_progress = true;
    current_file = some (record { path = path; size = 0 });
    calls = r.calls ++ (async_scan ∷ start_read ∷ start_call ∷ []);
    signals = r.signals;
  }

  scan-asked : scan path r fs ≡ (asked, write_app fs path [])
  unfolding scan new_file
  scan-asked = simp idle

-- The file of a client that asked for a scan, at a path that was free, and then received some calls
-- of a server.
pub record IsSaved (path : String) (calls : List GrpcCall) (r r' : Reader) (fs' : FileSystem)
    : Type 0 where
  pub file : File
  pub current : r'.current_file ≡ some file
  pub path_kept : file.path ≡ path
  pub content : read file fs' ≡ sent calls
  pub size : file.size ≡ length (sent calls)
  pub signalled : dones r'.signals ≡ dones r.signals ++ finishes calls
  pub progress : r'.in_progress ≡ after_status true (finishes calls)

-- A client that is not scanning asks for a scan and receives what a server sent: its file, at the
-- fresh path, holds exactly the bytes sent, in order, their number is its size, there is one
-- `sig_done` for each status sent, and a status ends the scan.
pub scan-receive :
    (r : Reader) (path : String) (fs : FileSystem) (calls : List GrpcCall) (last : ScanResponse)
    → r.in_progress ≡ false
    → fs path ≡ none
    → (r' : Reader) × (fs' : FileSystem) × (receive calls last (scan path r fs).0 (scan path r fs).1
        ≡ ok (r', fs'))
      × IsSaved path calls r r' fs'
unfolding read
scan-receive r path fs calls last idle fresh =
    let c : IsCounted (record { path = path; size = 0 }) (write_app fs path []) =
      ground (arith, eq_refl path, fresh) in
    let empty : read_all (write_app fs path []) path ≡ [] = ground (arith, eq_refl path, fresh) in
    let (r', fs', run, got) =
      receive-Received calls last (asked r path fs idle) _ (write_app fs path []) refl c in
    let content : read_all fs' got.file.path ≡ sent calls =
      got.content ∙ ap (λ bytes. bytes ++ sent calls) empty in
    (
      r',
      fs',
      ap (λ (r₁, fs₁). receive calls last r₁ fs₁) (scan-asked r path fs idle) ∙ run,
      record {
        file = got.file;
        current = got.kept;
        path_kept = got.path;
        content = content;
        size = got.counted.1 ∙ ap length content;
        signalled = got.signals;
        progress = got.progress;
      },
    )

-- From the mock library to the client's file: a scan of a known device with n bytes left saves n
-- ones at the client, signals success once, and leaves the client ready for the next scan.
pub scan_to_file :
    {w : MockWorld} {h n : ℕ} (d : SaneDevice) (fuel k : ℕ) (r : Reader) (path : String)
    (fs : FileSystem) (last : ScanResponse)
    → IsKnown w d.device_name h n
    → n < fuel
    → n < k
    → r.in_progress ≡ false
    → fs path ≡ none
    → (s : Scan mock_backend) × (r' : Reader) × (fs' : FileSystem) × (f : File) × ((start_scan
            mock_backend
            (scan_of mock_backend new_reactor d w)
          >>= writes_done mock_backend fuel k)
        ≡ ok s)
      × (receive s.reactor.calls last (scan path r fs).0 (scan path r fs).1 ≡ ok (r', fs'))
      × (r'.current_file ≡ some f)
      × (read f fs' ≡ replicate n 1)
      × (dones r'.signals ≡ dones r.signals ++ (grpc_ok ∷ []))
      × (r'.in_progress ≡ false)
scan_to_file d fuel k r path fs last known hf hk idle fresh =
    let (s, run, sends, finished, _) = scan_on_mock d known fuel k hf hk in
    let (r', fs', received, saved) = scan-receive r path fs s.reactor.calls last idle fresh in
    (
      s,
      r',
      fs',
      saved.file,
      run,
      received,
      saved.current,
      saved.content ∙ sends,
      saved.signalled ∙ ap (λ xs. dones r.signals ++ xs) finished,
      saved.progress ∙ ap (after_status true) finished,
    )
